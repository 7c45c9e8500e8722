-- ===== src/Zip/Bits.antt =====
-- src/pkg_zip.c: the inflater's state, its bit reader and its output.
use myon.Base.{
  ℕ, zero, suc, ◌+◌, ◌*◌, ◌/◌, ◌%◌, ◌-◌, Bool, true, false, [], ◌∷◌, ◌++◌, ◌==◌, ltb, if◌then◌else◌,
  Bytes, length,
}

-- The source is the bytes from `pos` on, the output the bytes written, of at most `out_cap`.
pub record State : Type 0 where
  pub rest : Bytes
  pub bitbuf : ℕ
  pub bitcnt : ℕ
  pub out : Bytes
  pub out_cap : ℕ
  pub error : Bool

abbrev pub fail : State → State
fail s = record s { error = true }

abbrev pub shift_out : ℕ → ℕ → State → ℕ × State
shift_out buf cnt s = (buf % 2, record s { bitbuf = buf / 2; bitcnt = cnt })

-- The next byte is the buffer of eight bits.
abbrev pub refill : Bytes → State → ℕ × State
refill [] s = (0, fail s)
refill (c ∷ cs) s = shift_out c 7 (record s { rest = cs })

unfoldable pub inf_getbit : State → ℕ × State
inf_getbit s = if s.bitcnt == 0 then refill s.rest s else shift_out s.bitbuf (s.bitcnt - 1) s

-- The first bit read is the lowest.
unfoldable pub inf_getbits : ℕ → State → ℕ × State
inf_getbits zero s = (0, s)
inf_getbits (suc n) s =
    let (b, after) = inf_getbit s in let (v, end) = inf_getbits n after in (b + 2 * v, end)

unfoldable pub inf_out_byte : State → ℕ → State
inf_out_byte s b =
    if ltb (length s.out) s.out_cap then record s { out = s.out ++ b ∷ [] } else fail s

-- What follows where no error is set.
abbrev pub unless_error {ℓ} : {A : Type ℓ} → Bool → A → (State → A) → State → A
unless_error true failed again s = failed
unless_error false failed again s = again s
