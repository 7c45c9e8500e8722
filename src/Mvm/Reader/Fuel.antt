-- ===== src/Mvm/Reader/Fuel.antt =====
-- The fuel of `deser_typespec`: one more than the bytes left is enough, whatever they are.
use myon.Base.{
  ℕ, zero, suc, ◌≤◌, ◌<◌, ◌≡◌, refl, ap, ◌∙◌, Bool, true, false, List, [], ◌∷◌, none, Bytes, arith,
  if◌then◌else◌, ◌==◌, ◌||◌, length, drop,
}
use myon.Types.{TypeSpec, null, type_array, type_map, is_named}
use myon.Mvm.Reader.Monad.{Reader, Rd, pure, ◌>>=◌, rd8, rd_le, rdstr}
use myon.Mvm.Reader.{deser_args, deser_fields, deser_typespec}

-- `m` never gives bytes back.
record Consumes {ℓ} {A : Type ℓ} (m : Rd A) : Type ℓ where
  shorter : (r : Reader) → length (m r).1.rest ≤ length r.rest

-- `m` and `k` do the same where at most `n` bytes are left.
record Agree {ℓ} {A : Type ℓ} (n : ℕ) (m k : Rd A) : Type ℓ where
  agree : (r : Reader) → length r.rest ≤ n → m r ≡ k r

Consumes-pure {ℓ} : {A : Type ℓ} (a : A) → Consumes (pure a)
unfolding pure
Consumes-pure a = record { shorter = λ r. omega arith }

module _ {ℓ κ} {A : Type ℓ} {B : Type κ} {m : Rd A} {f : A → Rd B} where
  Consumes-bind : Consumes m → ((a : A) → Consumes (f a)) → Consumes (m >>= f)
  unfolding ◌>>=◌
  Consumes-bind h k = record {
    shorter = λ r. omega (arith, h.shorter r, (k (m r).0).shorter (m r).1);
  }

  Agree-bind :
      {n : ℕ} {m' : Rd A} {g : A → Rd B}
      → Agree n m m'
      → Consumes m
      → ((a : A) → Agree n (f a) (g a))
      → Agree n (m >>= f) (m' >>= g)
  unfolding ◌>>=◌
  Agree-bind {g} h c k = record {
    agree = λ r le.
        (k (m r).0).agree (m r).1 (omega (arith, c.shorter r))
        ∙ ap (λ (p : A × Reader). g p.0 p.1) (h.agree r le);
  }

Agree-refl {ℓ} : {A : Type ℓ} (n : ℕ) (m : Rd A) → Agree n m m
Agree-refl n m = record { agree = λ r le. refl }

if_both {ℓ} :
    {A : Type ℓ} {m k : Rd A} (b : Bool) → Consumes m → Consumes k → Consumes (if b then m else k)
if_both true h h' = h
if_both false h h' = h'

if_Agree {ℓ} :
    {A : Type ℓ} {n : ℕ} {m m' : Rd A} (k : Rd A) (b : Bool)
    → Agree n m m'
    → Agree n (if b then m else k) (if b then m' else k)
if_Agree k true h = h
if_Agree {n} k false h = Agree-refl n k

Consumes-rd8 : Consumes rd8
unfolding rd8
Consumes-rd8 = record { shorter = λ r. go r r.rest }
  where
    go : (r : Reader) (bs : Bytes) → length (rd8 (record r { rest = bs })).1.rest ≤ length bs
    go r [] = omega arith
    go r (b ∷ bs) = omega arith

Consumes-rd_le : (n : ℕ) → Consumes (rd_le n)
unfolding rd_le
Consumes-rd_le zero = Consumes-pure 0
Consumes-rd_le (suc n) =
    Consumes-bind Consumes-rd8 (λ b. Consumes-bind (Consumes-rd_le n) (λ v. Consumes-pure _))

length-drop_le {ℓ} : {A : Type ℓ} (n : ℕ) (xs : List A) → length (drop n xs) ≤ length xs
length-drop_le zero xs = omega arith
length-drop_le (suc n) [] = omega arith
length-drop_le (suc n) (x ∷ xs) = omega (arith, length-drop_le n xs)

Consumes-rdstr : Consumes rdstr
unfolding rdstr
Consumes-rdstr =
    Consumes-bind (Consumes-rd_le 4)
      (λ n. record { shorter = λ r. ground (arith, length-drop_le n r.rest) })

Consumes-deser_args : (n : ℕ) {d : Rd TypeSpec} → Consumes d → Consumes (deser_args n d)
unfolding deser_args
Consumes-deser_args zero h = Consumes-pure _
Consumes-deser_args (suc n) h =
    Consumes-bind h (λ t. Consumes-bind (Consumes-deser_args n h) (λ ts. Consumes-pure _))

Consumes-deser_fields : {d : Rd TypeSpec} (base : ℕ) → Consumes d → Consumes (deser_fields d base)
unfolding deser_fields
Consumes-deser_fields base h =
    Consumes-bind (if_both (is_named base) Consumes-rdstr (Consumes-pure none)) (λ name.
      Consumes-bind (if_both (base == type_array || base == type_map) h (Consumes-pure null))
        (λ elem. Consumes-bind (if_both (base == type_map) h (Consumes-pure null)) (λ key.
          Consumes-bind (Consumes-rd_le 2)
            (λ argc. Consumes-bind (Consumes-deser_args argc h) (λ args. Consumes-pure _)))))

Consumes-deser_typespec : (f : ℕ) → Consumes (deser_typespec f)
unfolding deser_typespec
Consumes-deser_typespec zero = Consumes-pure null
Consumes-deser_typespec (suc f) =
    Consumes-bind Consumes-rd8 (λ base. Consumes-deser_fields base (Consumes-deser_typespec f))

Agree-deser_args :
    (k : ℕ) {n : ℕ} {d d' : Rd TypeSpec}
    → Agree n d d'
    → Consumes d
    → Agree n (deser_args k d) (deser_args k d')
unfolding deser_args
Agree-deser_args zero h c = Agree-refl _ _
Agree-deser_args (suc k) h c =
    Agree-bind h c
      (λ t. Agree-bind (Agree-deser_args k h c) (Consumes-deser_args k c) (λ ts. Agree-refl _ _))

Agree-deser_fields :
    {n : ℕ} {d d' : Rd TypeSpec} (base : ℕ)
    → Agree n d d'
    → Consumes d
    → Agree n (deser_fields d base) (deser_fields d' base)
unfolding deser_fields
Agree-deser_fields base h c =
    Agree-bind (Agree-refl _ _) (if_both (is_named base) Consumes-rdstr (Consumes-pure none))
      (λ name.
        Agree-bind (if_Agree (pure null) (base == type_array || base == type_map) h)
          (if_both (base == type_array || base == type_map) c (Consumes-pure null))
          (λ elem.
            Agree-bind (if_Agree (pure null) (base == type_map) h)
              (if_both (base == type_map) c (Consumes-pure null))
              (λ key. Agree-bind (Agree-refl _ _) (Consumes-rd_le 2) (λ argc.
                Agree-bind (Agree-deser_args argc h c) (Consumes-deser_args argc c)
                  (λ args. Agree-refl _ _)))))

-- With nothing left no descriptor is nested, so the recursive call is not made.
deser_at_end :
    (d d' : Rd TypeSpec) (r : Reader)
    → (rd8 >>= deser_fields d) (record r { rest = [] })
      ≡ (rd8 >>= deser_fields d') (record r { rest = [] })
unfolding ◌>>=◌ pure rd8 rd_le deser_fields deser_args
deser_at_end d d' r = refl

deser_step :
    (d d' : Rd TypeSpec) (r : Reader) (bs : Bytes)
    → Consumes d
    → ((n : ℕ) → suc n ≡ length bs → Agree n d d')
    → (rd8 >>= deser_fields d) (record r { rest = bs })
      ≡ (rd8 >>= deser_fields d') (record r { rest = bs })
deser_step d d' r [] c h = deser_at_end d d' r
deser_step d d' r (b ∷ bs) c h =
    unfold ◌>>=◌ rd8 in
    (Agree-deser_fields b (h (length bs) refl) c).agree (record r { rest = bs }) (omega arith)

-- With more fuel than bytes left, the fuel makes no difference to the reader of type descriptors.
pub deser_typespec_fuel :
    (f g : ℕ) (r : Reader)
    → length r.rest < f
    → length r.rest < g
    → deser_typespec f r ≡ deser_typespec g r
unfolding deser_typespec
deser_typespec_fuel zero g r hf hg = elim hf [ ]
deser_typespec_fuel (suc f) zero r hf hg = elim hg [ ]
deser_typespec_fuel (suc f) (suc g) r hf hg =
    deser_step (deser_typespec f) (deser_typespec g) r r.rest (Consumes-deser_typespec f)
      (λ n e. record { agree = λ r' le. deser_typespec_fuel f g r' (omega arith) (omega arith) })
