-- ===== src/Lexer/Progress.antt =====
-- Each round of the main loop takes the first byte, and so the loop ends.
use myon.Base.{
  ℕ, ◌+◌, ◌-◌, ◌≡◌, Bool, true, false, ◌&&◌, ◌||◌, Option, none, some, ◌==◌, if_both, if_cases, ltb,
  arith, str_eq,
}
use myon.Base.Text.{isdigit, isxdigit, codes}
use Prim.Native.String.{String}
use myon.Lexer.Tokens.{
  eq, neq, lt, gt, le, ge, plus, minus, star, slash, plus_eq, minus_eq, star_eq, slash_eq, assign,
  dot, comma, colon, semicolon, lparen, rparen, lbrace, rbrace, lbracket, rbracket, TokenType,
  lookup_kw, plain_kw, myon_kw,
}
use myon.Lexer.State.{Lexer, peek, peek2, at_end, advance, skip_while, slice}
use myon.Lexer.Scan.{
  ident_start, ident_part, in_line, isodigit, skip_comment, scan_number, scan_string, scan_myon,
  fold_myon, scan_ident, emit_word, skip_string,
}
use myon.Lexer.Operator.{opened, closed, either, one, scan_single, scan_symbol}
use myon.Lexer.Tokenize.{scan_newline, scan_token, comment_or_token, lex_step, ends_in_text, start}
use myon.Lexer.Moves.{
  Moves, Moves-refl, Moves-trans, Moves-same, advance-Moves, skip_while-Moves, skip_while-first,
  skip_block-Moves, skip_string-Moves, scan_exponent-Moves, scan_prefixed-Moves, then_skip,
  then_advance,
}

-- The scanner goes over the first byte and perhaps further.
abbrev pub Advances : Lexer → Lexer → Type 0
Advances lx to = Moves (advance lx) to

first_skip :
    (p : ℕ → Bool) (lx : Lexer)
    → p (peek lx) ≡ true
    → at_end lx ≡ false
    → Advances lx (skip_while p lx)
first_skip p lx h live = rw (skip_while-first p lx h live) (skip_while-Moves p (advance lx))

scan_number-Advances :
    (lx : Lexer) → isdigit (peek lx) ≡ true → at_end lx ≡ false → Advances lx (scan_number lx)
unfolding scan_number
scan_number-Advances lx h live =
    let whole = first_skip isdigit lx h live in
    let done = skip_while isdigit lx in
    if_both (Moves (advance lx)) (peek lx == b'0' && (peek2 lx == b'x' || peek2 lx == b'X'))
      (scan_prefixed-Moves isxdigit lx)
      (if_both (Moves (advance lx)) (peek lx == b'0' && (peek2 lx == b'o' || peek2 lx == b'O'))
        (scan_prefixed-Moves isodigit lx)
        (if_both (Moves (advance lx)) (peek done == b'.' && isdigit (peek2 done))
          (scan_exponent-Moves lx true (then_skip isdigit (then_advance whole)))
          (scan_exponent-Moves lx false whole)))

scan_string-Advances : (lx : Lexer) → Advances lx (scan_string lx)
unfolding scan_string
scan_string-Advances lx =
    let body = skip_string-Moves (advance lx) in
    if_both (Moves (advance lx)) (at_end (skip_string (advance lx))) (Moves-same _ _ _ body)
      (Moves-same _ _ _ (then_advance body))

fold_myon-Moves :
    {a lx done : Lexer} (start : Lexer) (o : Option TokenType)
    → Moves a lx
    → Moves a done
    → Moves a (fold_myon start lx done o)
fold_myon-Moves start (some t) m d = Moves-same _ _ _ d
fold_myon-Moves start none m d = Moves-same _ _ _ m

scan_myon-Moves : {a lx : Lexer} (start : Lexer) → Moves a lx → Moves a (scan_myon start lx)
unfolding scan_myon
scan_myon-Moves {a} {lx} start m =
    let member = advance lx in
    if_both (Moves a) (peek lx == b'.' && ident_start (peek2 lx))
      (fold_myon-Moves start (lookup_kw myon_kw (slice member (skip_while ident_part member))) m
        (then_skip ident_part (then_advance m)))
      (Moves-same _ _ _ m)

emit_word-Moves :
    {a done : Lexer} (start : Lexer) (o : Option TokenType)
    → Moves a done
    → Moves a (emit_word start done o)
emit_word-Moves start (some t) d = Moves-same _ _ _ d
emit_word-Moves start none d = Moves-same _ _ _ d

scan_ident-Advances :
    (lx : Lexer) → ident_part (peek lx) ≡ true → at_end lx ≡ false → Advances lx (scan_ident lx)
unfolding scan_ident
scan_ident-Advances lx h live =
    let done = first_skip ident_part lx h live in
    let word = slice lx (skip_while ident_part lx) in
    if_both (Moves (advance lx)) (str_eq (codes "myon") word) (scan_myon-Moves lx done)
      (emit_word-Moves lx (lookup_kw plain_kw word) done)

one-Moves :
    {a b : Lexer} (start : Lexer) (type : TokenType) (text : String)
    → Moves a b
    → Moves a (one start b type text)
unfolding one
one-Moves start type text m = Moves-same _ _ _ m

either-Moves :
    (start lx : Lexer) (long_type short_type : TokenType) (long short : String)
    → Moves lx (either start lx long_type long short_type short)
unfolding either
either-Moves start lx t u s r =
    if_both (Moves lx) (peek lx == b'=') (one-Moves start t s (advance-Moves lx))
      (one-Moves start u r (Moves-refl lx))

scan_single-Moves : (start lx : Lexer) (c : ℕ) → Moves lx (scan_single start lx c)
unfolding scan_single
scan_single-Moves start lx c =
    let plain : (t : TokenType) (s : String) → Moves lx (one start lx t s) =
      λ t s. one-Moves start t s (Moves-refl lx) in
    let up : (t : TokenType) (s : String) → Moves lx (one start (opened lx) t s) = λ t s.
      one-Moves start t s (Moves-same lx.out lx.error (lx.paren_depth + 1) (Moves-refl lx)) in
    let down : (t : TokenType) (s : String) → Moves lx (one start (closed lx) t s) = λ t s.
      one-Moves start t s (Moves-same lx.out lx.error (lx.paren_depth - 1) (Moves-refl lx)) in
    if_both (Moves lx) (c == b'.') (plain dot ".") (
      if_both (Moves lx) (c == b',') (plain comma ",") (
        if_both (Moves lx) (c == b':') (plain colon ":") (
          if_both (Moves lx) (c == b';') (plain semicolon ";") (
            if_both (Moves lx) (c == b'(') (up lparen "(") (
              if_both (Moves lx) (c == b'[') (up lbracket "[") (
                if_both (Moves lx) (c == b'{') (plain lbrace "{") (
                  if_both (Moves lx) (c == b')') (down rparen ")") (
                    if_both (Moves lx) (c == b']') (down rbracket "]") (
                      if_both (Moves lx) (c == b'}') (plain rbrace "}")
                        (Moves-same lx.out true lx.paren_depth (Moves-refl lx)))))))))))

scan_symbol-Moves : (start lx : Lexer) (c : ℕ) → Moves lx (scan_symbol start lx c)
unfolding scan_symbol
scan_symbol-Moves start lx c =
    if_both (Moves lx) (c == b'=') (either-Moves start lx eq assign "==" "=") (
      if_both (Moves lx) (c == b'!')
        (if_both (Moves lx) (peek lx == b'=') (one-Moves start neq "!=" (advance-Moves lx))
          (Moves-same lx.out true lx.paren_depth (Moves-refl lx)))
        (if_both (Moves lx) (c == b'<') (either-Moves start lx le lt "<=" "<") (
          if_both (Moves lx) (c == b'>') (either-Moves start lx ge gt ">=" ">") (
            if_both (Moves lx) (c == b'+') (either-Moves start lx plus_eq plus "+=" "+") (
              if_both (Moves lx) (c == b'-') (either-Moves start lx minus_eq minus "-=" "-") (
                if_both (Moves lx) (c == b'*') (either-Moves start lx star_eq star "*=" "*") (
                  if_both (Moves lx) (c == b'/') (either-Moves start lx slash_eq slash "/=" "/")
                    (scan_single-Moves start lx c))))))))

-- Behind a comment if there is one.
abbrev Comment : Lexer → Option Lexer → Type 0
Comment lx (some behind) = Advances lx behind
Comment lx none = Unit

skip_comment-Advances : (lx : Lexer) → at_end lx ≡ false → Comment lx (skip_comment lx)
unfolding skip_comment
skip_comment-Advances lx live =
    if_cases (Comment lx) (peek lx == b'#') (λ hash. first_skip in_line lx (ground arith) live)
      (λ h.
        if_cases (Comment lx) (peek lx == b'/' && peek2 lx == b'/')
          (λ slashes. first_skip in_line lx (ground arith) live)
          (λ g.
            if_both (Comment lx) (peek lx == b'/' && peek2 lx == b'*')
              (Moves-trans (advance-Moves (advance lx)) (skip_block-Moves (advance (advance lx))))
              tt))

scan_newline-Advances : (lx : Lexer) → Advances lx (scan_newline lx)
unfolding scan_newline
scan_newline-Advances lx =
    let here = Moves-refl (advance lx) in
    if_both (Moves (advance lx)) (ltb 0 (advance lx).paren_depth) here
      (if_both (Moves (advance lx)) (ends_in_text (advance lx).out) (Moves-same _ _ _ here) here)

scan_token-Advances : (lx : Lexer) → at_end lx ≡ false → Advances lx (scan_token lx)
unfolding scan_token
scan_token-Advances lx live =
    if_cases (Advances lx) (isdigit (peek lx)) (λ digit. scan_number-Advances lx digit live)
      (λ h. if_both (Advances lx) (peek lx == b'"') (scan_string-Advances lx) (
        if_cases (Advances lx) (ident_start (peek lx))
          (λ letter. scan_ident-Advances lx (ground arith) live)
          (λ g. scan_symbol-Moves lx (advance lx) (peek lx))))

comment_or_token-Advances :
    (lx : Lexer) (o : Option Lexer)
    → at_end lx ≡ false
    → Comment lx o
    → Advances lx (comment_or_token lx o)
comment_or_token-Advances lx (some behind) live m = m
comment_or_token-Advances lx none live m = scan_token-Advances lx live

pub lex_step-Advances : (lx : Lexer) → at_end lx ≡ false → Advances lx (lex_step lx)
unfolding lex_step
lex_step-Advances lx live =
    let c = peek lx in
    if_both (Advances lx) (c == b' ' || c == b'\t' || c == b'\r') (Moves-refl (advance lx)) (
      if_both (Advances lx) (c == b'\n') (scan_newline-Advances lx)
        (comment_or_token-Advances lx (skip_comment lx) live (skip_comment-Advances lx live)))
