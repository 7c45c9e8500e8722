-- ===== src/Lexer/Whole.antt =====
-- A tokenization of src/lexer.c that succeeds has read the whole text.
use myon.Base.{
  ◌≡◌, refl, sym, ◌∙◌, ap, Bool, true, not, ◌&&◌, ◌||◌, Bool-cases, inl, inr, List, [], ◌∷◌, ◌++◌,
  append-nil, Option, none, some, ◌==◌, Bytes, length, arith,
}
use mathlib.Core.Path.{subst}
use myon.Lexer.Tokens.{Token, eof}
use myon.Lexer.State.{Lexer, at_end, head_or_nul}
use myon.Lexer.Tokenize.{lex_loop, start, finished, strip_newline, lexer_tokenize}
use myon.Lexer.Moves.{Moves, line_after, col_after}
use myon.Lexer.Loop.{lex_loop-done, lex_loop-Moves}

-- A C string has no 0 in it.
abbrev pub no_nul : Bytes → Bool
no_nul [] = true
no_nul (c ∷ cs) = not (c == 0) && no_nul cs

no_nul-suffix : (xs ys : Bytes) → no_nul (xs ++ ys) ≡ true → no_nul ys ≡ true
no_nul-suffix [] ys h = h
no_nul-suffix (x ∷ xs) ys h = no_nul-suffix xs ys (ground arith)

at_end-empty : (bs : Bytes) → no_nul bs ≡ true → (head_or_nul bs == 0) ≡ true → bs ≡ []
at_end-empty [] h e = refl
at_end-empty (c ∷ cs) h e = ground arith

-- The token that stands for the end of the text.
abbrev pub eof_at : Bytes → Token
eof_at source = record {
  type = eof;
  lexeme = none;
  line = line_after 1 source;
  col = col_after 1 source;
}

abbrev EndsWithEof : Bytes → Option (List Token) → Type 0
EndsWithEof source none = Unit
EndsWithEof source (some ts) = (body : List Token) × (ts ≡ body ++ eof_at source ∷ [])

all_taken :
    (source : Bytes) (lx : Lexer) (m : Moves (start source) lx)
    → no_nul source ≡ true
    → at_end lx ≡ true
    → m.taken ≡ source
all_taken source lx m h e =
    let clean : no_nul lx.rest ≡ true =
      no_nul-suffix m.taken lx.rest (subst (λ (b : Bytes). no_nul b ≡ true) m.splits h) in
    let over : lx.rest ≡ [] = at_end-empty lx.rest clean e in
    sym (m.splits ∙ ap (◌++◌ m.taken) over ∙ append-nil m.taken)

finished-EndsWithEof :
    (source : Bytes) (lx : Lexer)
    → Moves (start source) lx
    → no_nul source ≡ true
    → (at_end lx || lx.error) ≡ true
    → EndsWithEof source (finished lx)
finished-EndsWithEof source lx m h done = elim (Bool-cases lx.error) [
  | inl failed ↦ rw failed tt
  | inr fine ↦
      let whole : m.taken ≡ source = all_taken source lx m h (ground arith) in
      let line_is : lx.line ≡ line_after 1 source = m.line_is ∙ ap (line_after 1) whole in
      let col_is : lx.col ≡ col_after 1 source = m.col_is ∙ ap (col_after 1) whole in
      rw fine (strip_newline lx.out, rw (line_is, col_is) refl)
]

-- If a text with no 0 in it is tokenized, then the last token is the end of the text, at the line
-- and the column that are reached by counting along the whole text.
pub lexer_tokenize-eof :
    (source : Bytes) (ts : List Token)
    → no_nul source ≡ true
    → lexer_tokenize source ≡ some ts
    → (body : List Token) × (ts ≡ body ++ eof_at source ∷ [])
unfolding lexer_tokenize
lexer_tokenize-eof source ts h e = subst (EndsWithEof source) e (
    finished-EndsWithEof source (lex_loop (length source) (start source))
      (lex_loop-Moves (length source) (start source)) h
      (lex_loop-done (length source) (start source) (omega arith)))
