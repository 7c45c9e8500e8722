-- ===== src/Mvm/Reader/Monad.antt =====
-- src/mvm_chunk.c, `Rd` and its readers. A reader's state is the bytes from `pos` on, and `err`.
use mathlib.Core.Bool.{Bool, true, false}
use myon.Base.{
  ℕ, zero, suc, ◌+◌, ◌*◌, ◌||◌, [], ◌∷◌, Option, none, some, if◌then◌else◌, ltb, ◌==◌, Bytes,
  length, take, drop,
}

pub record Reader : Type 0 where
  pub rest : Bytes
  pub err : Bool

-- `Rd r = { data, len, 0, 0 }`
abbrev pub reader : Bytes → Reader
reader bs = record { rest = bs; err = false }

abbrev pub Rd {ℓ} : Type ℓ → Type ℓ
Rd A = Reader → A × Reader

unfoldable pub pure {ℓ} : {A : Type ℓ} → A → Rd A
pure a r = (a, r)

infixl 5 ◌>>=◌ ◌>>◌
unfoldable pub ◌>>=◌ {ℓ κ} : {A : Type ℓ} {B : Type κ} → Rd A → (A → Rd B) → Rd B
◌>>=◌ m f r = let (a, r') = m r in f a r'

abbrev pub ◌>>◌ {κ} : {B : Type κ} → Rd (Unit {0}) → Rd B → Rd B
m >> k = m >>= λ _. k

abbrev rd8_from : Bytes → Reader → ℕ × Reader
rd8_from [] r = (0, record r { err = true })
rd8_from (b ∷ bs) r = (b, record r { rest = bs })

unfoldable pub rd8 : Rd ℕ
rd8 r = rd8_from r.rest r

-- `n` bytes, the lowest first: `v |= rd8(r) << (8*i)` for i below n.
unfoldable pub rd_le : ℕ → Rd ℕ
rd_le zero = pure 0
rd_le (suc n) = do b ← rd8; v ← rd_le n; pure (b + 256 * v)

abbrev pub rd16 : Rd ℕ
rd16 = rd_le 2

abbrev pub rd32 : Rd ℕ
rd32 = rd_le 4

abbrev pub rd64 : Rd ℕ
rd64 = rd_le 8

-- A C string ends at its first NUL.
unfoldable pub c_str : Bytes → Bytes
c_str [] = []
c_str (b ∷ bs) = if b == 0 then [] else b ∷ c_str bs

-- A block of `n` bytes, if they are there and nothing has failed before.
unfoldable pub rd_bytes : ℕ → Rd Bytes
rd_bytes n r =
    if r.err || ltb (length r.rest) n
    then ([], record r { err = true })
    else (take n r.rest, record r { rest = drop n r.rest })

-- A length, then that many bytes, handed on as a C string.
unfoldable pub rdstr : Rd (Option Bytes)
rdstr = do
  n ← rd32
  λ r.
      if r.err || ltb (length r.rest) n
      then (none, record r { err = true })
      else (some (c_str (take n r.rest)), record r { rest = drop n r.rest })
