-- ===== src/Lexer/Tokenize.antt =====
-- src/lexer.c: the main loop and `lexer_tokenize`.
use myon.Base.{
  ℕ, zero, suc, Bool, true, false, not, ◌||◌, List, [], ◌∷◌, ◌++◌, Option, none, some, ◌==◌, ltb,
  if◌then◌else◌, Bytes, length,
}
use myon.Base.Text.{isdigit}
use myon.Lexer.Tokens.{TokenType, Token, newline, eof}
use myon.Lexer.State.{Lexer, peek, at_end, advance, emit}
use myon.Lexer.Scan.{ident_start, skip_comment, scan_number, scan_string, scan_ident}
use myon.Lexer.Operator.{scan_operator}

abbrev pub is_newline : TokenType → Bool
is_newline newline = true
is_newline _ = false

-- `count > 0 && items[count - 1].type != TOK_NEWLINE`
abbrev pub ends_in_text : List Token → Bool
ends_in_text [] = false
ends_in_text (t ∷ []) = not (is_newline t.type)
ends_in_text (t ∷ u ∷ ts) = ends_in_text (u ∷ ts)

-- The lexeme is the two characters of "\\n". No token for an empty line, nor inside () and [].
unfoldable pub scan_newline : Lexer → Lexer
scan_newline lx =
    let behind = advance lx in
    if ltb 0 behind.paren_depth
    then behind
    else if ends_in_text behind.out
    then emit lx behind newline (some (b'\\' ∷ b'n' ∷ []))
    else behind

-- What stands behind blanks, newlines and comments.
unfoldable pub scan_token : Lexer → Lexer
scan_token lx =
    let c = peek lx in
    if isdigit c
    then scan_number lx
    else if c == b'"'
    then scan_string lx
    else if ident_start c
    then scan_ident lx
    else scan_operator lx

abbrev pub comment_or_token : Lexer → Option Lexer → Lexer
comment_or_token lx (some behind) = behind
comment_or_token lx none = scan_token lx

-- The loop's body.
unfoldable pub lex_step : Lexer → Lexer
lex_step lx =
    let c = peek lx in
    if c == b' ' || c == b'\t' || c == b'\r'
    then advance lx
    else if c == b'\n'
    then scan_newline lx
    else comment_or_token lx (skip_comment lx)

-- `while (!at_end(&lx) && !lx.error)`; each round takes a byte, so the text's length is fuel enough.
unfoldable pub lex_loop : ℕ → Lexer → Lexer
lex_loop zero lx = lx
lex_loop (suc f) lx = elim (at_end lx || lx.error) [ true ↦ lx | false ↦ lex_loop f (lex_step lx) ]

-- Without a newline token at the end.
abbrev pub strip_newline : List Token → List Token
strip_newline [] = []
strip_newline (t ∷ []) = if is_newline t.type then [] else t ∷ []
strip_newline (t ∷ u ∷ ts) = t ∷ strip_newline (u ∷ ts)

abbrev pub start : Bytes → Lexer
start source = record {
  rest = source;
  pos = 0;
  line = 1;
  col = 1;
  out = [];
  error = false;
  paren_depth = 0;
}

abbrev pub finished : Lexer → Option (List Token)
finished lx =
    if lx.error
    then none
    else some (
        strip_newline lx.out
        ++ (record { type = eof; lexeme = none; line = lx.line; col = lx.col }) ∷ [])

-- `none` is the answer 0, a lexical error.
unfoldable pub lexer_tokenize : Bytes → Option (List Token)
lexer_tokenize source = finished (lex_loop (length source) (start source))
