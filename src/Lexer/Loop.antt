-- ===== src/Lexer/Loop.antt =====
-- The main loop of src/lexer.c ends, and its state stands behind the text that it read.
use myon.Base.{
  ℕ, zero, suc, ◌≤◌, ◌≡◌, refl, true, false, ◌||◌, Bool-cases, inl, inr, [], ◌∷◌, length,
  length-append, ap, arith, ◌==◌, Bytes, ◌<◌,
}
use myon.Lexer.State.{Lexer, at_end, advance, advance_at, head_or_nul}
use myon.Lexer.Tokenize.{lex_loop, lex_step}
use myon.Lexer.Moves.{Moves, Moves-refl, Moves-trans, advance-Moves}
use myon.Lexer.Progress.{lex_step-Advances}

advance-shorter : (lx : Lexer) → at_end lx ≡ false → length (advance lx).rest < length lx.rest
unfolding advance
advance-shorter lx live = go lx.rest live
  where
    go : (bs : Bytes) → (head_or_nul bs == 0) ≡ false → length (advance_at bs lx).rest < length bs
    go [] h = ground arith
    go (c ∷ cs) h = ground arith

Moves-shorter : {a b : Lexer} → Moves a b → length b.rest ≤ length a.rest
Moves-shorter {a} {b} m = omega (arith, ap length m.splits, length-append m.taken b.rest)

lex_step-shorter : (lx : Lexer) → at_end lx ≡ false → length (lex_step lx).rest < length lx.rest
lex_step-shorter lx live =
    omega (arith, advance-shorter lx live, Moves-shorter (lex_step-Advances lx live))

-- With fuel for every byte that is left, the lexer loop ends at the end of the text or at an
-- error.
pub lex_loop-done :
    (f : ℕ) (lx : Lexer)
    → length lx.rest ≤ f
    → (at_end (lex_loop f lx) || (lex_loop f lx).error) ≡ true
unfolding lex_loop
lex_loop-done zero lx h = rw (empty lx.rest h) refl
  where
    empty : (bs : Bytes) → length bs ≤ 0 → (head_or_nul bs == 0) ≡ true
    empty [] g = refl
    empty (c ∷ cs) g = let none : ⊥ = omega arith in elim none [ ]
lex_loop-done (suc f) lx h = elim (Bool-cases (at_end lx || lx.error)) [
  | inl stop ↦ rw (lex_loop, stop) stop
  | inr more ↦
      rw (lex_loop, more)
        (lex_loop-done f (lex_step lx) (omega (arith, lex_step-shorter lx (ground arith))))
]

-- With any fuel and from any state, the lexer loop goes over a piece of the text, and position,
-- line and column are counted along it.
pub lex_loop-Moves : (f : ℕ) (lx : Lexer) → Moves lx (lex_loop f lx)
unfolding lex_loop
lex_loop-Moves zero lx = Moves-refl lx
lex_loop-Moves (suc f) lx = elim (Bool-cases (at_end lx || lx.error)) [
  | inl stop ↦ rw (lex_loop, stop) (Moves-refl lx)
  | inr more ↦
      rw (lex_loop, more)
        (Moves-trans (Moves-trans (advance-Moves lx) (lex_step-Advances lx (ground arith)))
          (lex_loop-Moves f (lex_step lx)))
]
