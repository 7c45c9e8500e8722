-- ===== src/Lexer/Moves.antt =====
-- How the cursor moves: over a piece of the text, with `pos`, `line` and `col` counted along it.
use myon.Base.{
  ℕ, ◌+◌, ◌≡◌, refl, sym, ap, ◌∙◌, Bool, true, false, not, ◌&&◌, ◌||◌, Bool-cases, inl, inr, List,
  [], ◌∷◌, ◌++◌, append_assoc, ◌==◌, if◌then◌else◌, if_both, Bytes, length, length-append, arith,
}
use myon.Base.Text.{isdigit}
use myon.Lexer.Tokens.{Token}
use myon.Lexer.State.{Lexer, peek, at_end, advance, advance_at, skip_while, skip_in, head_or_nul}
use myon.Lexer.Scan.{
  block_in, skip_block, scan_prefixed, skip_sign, scan_exponent, string_in, skip_string,
}

-- The line and the column behind a piece of the text.
abbrev pub line_after : ℕ → Bytes → ℕ
line_after line [] = line
line_after line (b ∷ bs) = line_after (if b == b'\n' then line + 1 else line) bs

abbrev pub col_after : ℕ → Bytes → ℕ
col_after col [] = col
col_after col (b ∷ bs) = col_after (if b == b'\n' then 1 else col + 1) bs

pub line_after-append :
    (line : ℕ) (xs ys : Bytes) → line_after line (xs ++ ys) ≡ line_after (line_after line xs) ys
line_after-append line [] ys = refl
line_after-append line (x ∷ xs) ys = line_after-append (if x == b'\n' then line + 1 else line) xs ys

pub col_after-append :
    (col : ℕ) (xs ys : Bytes) → col_after col (xs ++ ys) ≡ col_after (col_after col xs) ys
col_after-append col [] ys = refl
col_after-append col (x ∷ xs) ys = col_after-append (if x == b'\n' then 1 else col + 1) xs ys

-- The state `to` stands behind `taken`, which begins at `from`. Output and error are not spoken of.
pub record Moves (from to : Lexer) : Type 0 where
  pub taken : Bytes
  pub splits : from.rest ≡ taken ++ to.rest
  pub pos_is : to.pos ≡ from.pos + length taken
  pub line_is : to.line ≡ line_after from.line taken
  pub col_is : to.col ≡ col_after from.col taken

pub Moves-refl : (lx : Lexer) → Moves lx lx
Moves-refl lx = record {
  taken = [];
  splits = refl;
  pos_is = omega arith;
  line_is = refl;
  col_is = refl;
}

pub Moves-trans : {a b c : Lexer} → Moves a b → Moves b c → Moves a c
Moves-trans {a} m n = record {
  taken = m.taken ++ n.taken;
  splits = m.splits ∙ ap (◌++◌ m.taken) n.splits ∙ sym (append_assoc m.taken n.taken _);
  pos_is = omega (arith, m.pos_is, n.pos_is, length-append m.taken n.taken);
  line_is =
      n.line_is
      ∙ ap (λ (l : ℕ). line_after l n.taken) m.line_is
      ∙ sym (line_after-append a.line m.taken n.taken);
  col_is =
      n.col_is
      ∙ ap (λ (l : ℕ). col_after l n.taken) m.col_is
      ∙ sym (col_after-append a.col m.taken n.taken);
}

-- The output, the error flag and the depth do not matter.
pub Moves-same :
    {a b : Lexer} (out : List Token) (error : Bool) (depth : ℕ)
    → Moves a b
    → Moves a (record b { out = out; error = error; paren_depth = depth })
Moves-same out error depth m = record {
  taken = m.taken;
  splits = m.splits;
  pos_is = m.pos_is;
  line_is = m.line_is;
  col_is = m.col_is;
}

advance_at-Moves : (bs : Bytes) (lx : Lexer) → lx.rest ≡ bs → Moves lx (advance_at bs lx)
advance_at-Moves [] lx e = Moves-refl lx
advance_at-Moves (c ∷ cs) lx e = record {
  taken = c ∷ [];
  splits = e;
  pos_is = omega arith;
  line_is = refl;
  col_is = refl;
}

pub advance-Moves : (lx : Lexer) → Moves lx (advance lx)
unfolding advance
advance-Moves lx = advance_at-Moves lx.rest lx refl

advance-rest : (lx : Lexer) {c : ℕ} {cs : Bytes} → lx.rest ≡ c ∷ cs → (advance lx).rest ≡ cs
unfolding advance
advance-rest lx e = rw e

skip_in-Moves : (p : ℕ → Bool) (bs : Bytes) (lx : Lexer) → lx.rest ≡ bs → Moves lx (skip_in p bs lx)
skip_in-Moves p [] lx e = Moves-refl lx
skip_in-Moves p (c ∷ cs) lx e = elim (Bool-cases (p c)) [
  | inl more ↦
      rw more (Moves-trans (advance-Moves lx) (skip_in-Moves p cs (advance lx) (advance-rest lx e)))
  | inr stop ↦ rw stop (Moves-refl lx)
]

pub skip_while-Moves : (p : ℕ → Bool) (lx : Lexer) → Moves lx (skip_while p lx)
unfolding skip_while
skip_while-Moves p lx = skip_in-Moves p lx.rest lx refl

-- A step that is taken at all goes over the first byte.
pub skip_while-first :
    (p : ℕ → Bool) (lx : Lexer)
    → p (peek lx) ≡ true
    → at_end lx ≡ false
    → skip_while p lx ≡ skip_while p (advance lx)
unfolding skip_while advance
skip_while-first p lx h live = go lx.rest refl h live
  where
    go :
        (bs : Bytes)
        → lx.rest ≡ bs
        → p (head_or_nul bs) ≡ true
        → (head_or_nul bs == 0) ≡ false
        → skip_in p bs lx ≡ skip_in p (advance_at bs lx).rest (advance_at bs lx)
    go [] e h live = cc
    go (c ∷ cs) e h live = rw h (unfold advance in rw e)

block_in-Moves : (bs : Bytes) (lx : Lexer) → lx.rest ≡ bs → Moves lx (block_in bs lx)
block_in-Moves [] lx e = Moves-same _ _ _ (Moves-refl lx)
block_in-Moves (c ∷ cs) lx e =
    let on = block_in-Moves cs (advance lx) (advance-rest lx e) in
    elim (Bool-cases (c == 0)) [
      | inl nul ↦ rw nul (Moves-same _ _ _ (Moves-refl lx))
      | inr live ↦ rw live (elim (Bool-cases (c == b'*' && head_or_nul cs == b'/')) [
        | inl closes ↦ rw closes (Moves-trans (advance-Moves lx) (advance-Moves (advance lx)))
        | inr more ↦ rw more (Moves-trans (advance-Moves lx) on)
      ])
    ]

string_in-Moves :
    (escaped : Bool) (bs : Bytes) (lx : Lexer) → lx.rest ≡ bs → Moves lx (string_in escaped bs lx)
string_in-Moves escaped [] lx e = Moves-refl lx
string_in-Moves escaped (c ∷ cs) lx e =
    let on = string_in-Moves (not escaped && c == b'\\') cs (advance lx) (advance-rest lx e) in
    elim (Bool-cases (c == 0 || (not escaped && c == b'"'))) [
      | inl stop ↦ rw stop (Moves-refl lx)
      | inr more ↦ rw more (Moves-trans (advance-Moves lx) on)
    ]

pub skip_block-Moves : (lx : Lexer) → Moves lx (skip_block lx)
unfolding skip_block
skip_block-Moves lx = block_in-Moves lx.rest lx refl

pub skip_string-Moves : (lx : Lexer) → Moves lx (skip_string lx)
unfolding skip_string
skip_string-Moves lx = string_in-Moves false lx.rest lx refl

pub then_skip : (p : ℕ → Bool) {a b : Lexer} → Moves a b → Moves a (skip_while p b)
then_skip p {b} m = Moves-trans m (skip_while-Moves p b)

pub then_advance : {a b : Lexer} → Moves a b → Moves a (advance b)
then_advance {b} m = Moves-trans m (advance-Moves b)

skip_sign-Moves : {a b : Lexer} → Moves a b → Moves a (skip_sign b)
skip_sign-Moves {a} {b} m = if_both (Moves a) (peek b == b'+' || peek b == b'-') (then_advance m) m

-- The scanners move from wherever the token's first byte has been taken.
pub scan_exponent-Moves :
    {a lx : Lexer} (start : Lexer) (is_float : Bool)
    → Moves a lx
    → Moves a (scan_exponent start lx is_float)
unfolding scan_exponent
scan_exponent-Moves {a} {lx} start is_float m =
    if_both (Moves a) _
      (if_both (Moves a) (not (isdigit (peek (skip_sign (advance lx)))))
        (Moves-same _ _ _ (skip_sign-Moves (then_advance m)))
        (Moves-same _ _ _ (then_skip isdigit (skip_sign-Moves (then_advance m)))))
      (Moves-same _ _ _ m)

pub scan_prefixed-Moves :
    (digit : ℕ → Bool) (lx : Lexer) → Moves (advance lx) (scan_prefixed digit lx)
unfolding scan_prefixed
scan_prefixed-Moves digit lx =
    if_both (Moves (advance lx)) (not (digit (peek (advance (advance lx)))))
      (Moves-same _ _ _ (advance-Moves (advance lx)))
      (Moves-same _ _ _ (then_skip digit (advance-Moves (advance lx))))
