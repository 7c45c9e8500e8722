-- ===== src/Mvm/RoundTrip/Fields.antt =====
-- What it means that a reader takes exactly given bytes, and the readers of numbers and strings.
use native.Mathlib.Nat.{pow-suc}
use myon.Base.{
  ℕ, zero, suc, ◌/◌, ◌%◌, ◌^◌, ◌<◌, ◌≡◌, refl, Bool, true, false, [], ◌∷◌, ◌++◌, append_assoc, some,
  if◌then◌else◌, Bytes, length, take-append, drop-append, length-append, arith, le→not_ltb,
}
use myon.Mvm.Writer.{buf_le, buf_u8, buf_str, when}
use myon.Mvm.Reader.Monad.{reader, Rd, pure, ◌>>=◌, rd8, rd_le, c_str, rd_bytes, rdstr}

-- `m` reads the bytes `xs`, whatever stands behind them, gives `a` and does not fail.
pub record Reads {ℓ} {A : Type ℓ} (m : Rd A) (xs : Bytes) (a : A) : Type ℓ where
  pub run : (rest : Bytes) → m (reader (xs ++ rest)) ≡ (a, reader rest)

pub Reads-pure {ℓ} : {A : Type ℓ} (a : A) → Reads (pure a) [] a
unfolding pure
Reads-pure a = record { run = λ rest. refl }

pub bind_run {ℓ κ} :
    {A : Type ℓ} {B : Type κ} {m : Rd A} {xs : Bytes} {a : A} (f : A → Rd B) (rest : Bytes)
    → Reads m xs a
    → (m >>= f) (reader (xs ++ rest)) ≡ f a (reader rest)
unfolding ◌>>=◌
bind_run f rest h = rw (h.run rest)

module _ {ℓ κ} {A : Type ℓ} {B : Type κ} {m : Rd A} {xs : Bytes} {a : A} {b : B}
    (f : A → Rd B) where
  pub Reads-bind : {ys : Bytes} → Reads m xs a → Reads (f a) ys b → Reads (m >>= f) (xs ++ ys) b
  unfolding ◌>>=◌
  Reads-bind {ys} h k = record {
    run = λ rest. rw (append_assoc xs ys rest, h.run (ys ++ rest)) (k.run rest);
  }

  -- The last reader of a block takes the last bytes.
  pub Reads-end : Reads m xs a → Reads (f a) [] b → Reads (m >>= f) xs b
  unfolding ◌>>=◌
  Reads-end h k = record { run = λ rest. rw (h.run rest) (k.run rest) }

pub Reads-when {ℓ} :
    {A : Type ℓ} {m : Rd A} {xs : Bytes} {a : A} (b : Bool) (d : A)
    → (b ≡ true → Reads m xs a)
    → Reads (if b then m else pure d) (when b xs) (if b then a else d)
Reads-when true d h = h refl
Reads-when false d h = Reads-pure d

pub Reads-rd8 : (v : ℕ) → v < 256 → Reads rd8 (buf_u8 v) v
unfolding rd8 buf_le
Reads-rd8 v h = record { run = λ rest. ground arith }

rd8_cons : (b : ℕ) (bs : Bytes) → rd8 (reader (b ∷ bs)) ≡ (b, reader bs)
unfolding rd8
rd8_cons b bs = refl

div_bound : (n v : ℕ) → v < 256 ^ suc n → v / 256 < 256 ^ n
div_bound n v h = omega (arith, pow-suc 256 n)

pub Reads-rd_le : (n v : ℕ) → v < 256 ^ n → Reads (rd_le n) (buf_le n v) v
unfolding rd_le buf_le pure ◌>>=◌ rd8
Reads-rd_le zero v h = record { run = λ rest. ground arith }
Reads-rd_le (suc n) v h =
    let ih = Reads-rd_le n (v / 256) (div_bound n v h) in
    record { run = λ rest. rw (ih.run rest) (ground arith) }

-- No byte is NUL, and the length fits the prefix.
pub record IsCString (s : Bytes) : Type 0 where
  pub no_nul : c_str s ≡ s
  pub fits : length s < 2 ^ 32

pub Reads-rd_bytes : (s : Bytes) → Reads (rd_bytes (length s)) s s
unfolding rd_bytes
Reads-rd_bytes s = record {
  run = λ rest.
      rw (le→not_ltb (length (s ++ rest)) (length s) (omega (arith, length-append s rest)))
        (rw (take-append s rest, drop-append s rest));
}

pub Reads-rdstr : (s : Bytes) → IsCString s → Reads rdstr (buf_str s) (some s)
unfolding rdstr
Reads-rdstr s h =
    let e : length s % 2 ^ 32 ≡ length s = omega (arith, h.fits) in
    rw e (
      Reads-bind _ (Reads-rd_le 4 (length s) h.fits) (record {
        run = λ rest.
            rw (le→not_ltb (length (s ++ rest)) (length s) (omega (arith, length-append s rest)))
              (rw (take-append s rest, drop-append s rest, h.no_nul));
      }))

-- One byte, as it stands in the file.
pub Reads-byte : (b : ℕ) → Reads rd8 (b ∷ []) b
Reads-byte b = record { run = λ rest. rd8_cons b rest }
