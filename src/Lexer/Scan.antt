-- ===== src/Lexer/Scan.antt =====
-- src/lexer.c: comments, numbers, strings and names.
use myon.Base.{
  ℕ, Bool, true, false, not, ◌&&◌, ◌||◌, [], ◌∷◌, Option, none, some, ◌==◌, if◌then◌else◌, Bytes,
  str_eq,
}
use myon.Base.Text.{codes, between, isdigit, isalpha, isalnum, isxdigit}
use myon.Lexer.Tokens.{TokenType, int, float, string, ident, kw_myon, plain_kw, myon_kw, lookup_kw}
use myon.Lexer.State.{
  Lexer, head_or_nul, peek, peek2, at_end, advance, skip_while, slice, emit, lex_error,
}

abbrev pub ident_start : ℕ → Bool
ident_start c = isalpha c || c == b'_'

abbrev pub ident_part : ℕ → Bool
ident_part c = isalnum c || c == b'_'

abbrev pub in_line : ℕ → Bool
in_line c = not (c == 0) && not (c == b'\n')

abbrev pub isodigit : ℕ → Bool
isodigit = between b'0' b'7'

abbrev pub block_in : Bytes → Lexer → Lexer
block_in [] lx = lex_error lx
block_in (c ∷ cs) lx =
    if c == 0
    then lex_error lx
    else if c == b'*' && head_or_nul cs == b'/'
    then advance (advance lx)
    else block_in cs (advance lx)

-- The body of a block comment, to its closing mark or the end of the text.
unfoldable pub skip_block : Lexer → Lexer
skip_block lx = block_in lx.rest lx

-- `none` if no comment stands here.
unfoldable pub skip_comment : Lexer → Option Lexer
skip_comment lx =
    if peek lx == b'#'
    then some (skip_while in_line lx)
    else if peek lx == b'/' && peek2 lx == b'/'
    then some (skip_while in_line lx)
    else if peek lx == b'/' && peek2 lx == b'*'
    then some (skip_block (advance (advance lx)))
    else none

-- `0x` or `0o`, then at least one digit of the class.
unfoldable pub scan_prefixed : (ℕ → Bool) → Lexer → Lexer
scan_prefixed digit lx =
    let start = advance (advance lx) in
    if not (digit (peek start))
    then lex_error start
    else let done = skip_while digit start in emit lx done int (some (slice lx done))

abbrev pub skip_sign : Lexer → Lexer
skip_sign lx = if peek lx == b'+' || peek lx == b'-' then advance lx else lx

-- The exponent, if there is one; the flag is `is_float`, and an exponent with no digits fails.
unfoldable pub scan_exponent : Lexer → Lexer → Bool → Lexer
scan_exponent start lx is_float =
    let n = peek2 lx in
    if (peek lx == b'e' || peek lx == b'E') && (isdigit n || n == b'+' || n == b'-')
    then (let signed = skip_sign (advance lx) in
        if not (isdigit (peek signed))
        then lex_error signed
        else let done = skip_while isdigit signed in
          emit start done float (some (slice start done)))
    else emit start lx (if is_float then float else int) (some (slice start lx))

unfoldable pub scan_number : Lexer → Lexer
scan_number lx =
    if peek lx == b'0' && (peek2 lx == b'x' || peek2 lx == b'X')
    then scan_prefixed isxdigit lx
    else if peek lx == b'0' && (peek2 lx == b'o' || peek2 lx == b'O')
    then scan_prefixed isodigit lx
    else let whole = skip_while isdigit lx in
      if peek whole == b'.' && isdigit (peek2 whole)
      then scan_exponent lx (skip_while isdigit (advance whole)) true
      else scan_exponent lx whole false

abbrev pub string_in : Bool → Bytes → Lexer → Lexer
string_in escaped [] lx = lx
string_in escaped (c ∷ cs) lx =
    if c == 0 || (not escaped && c == b'"')
    then lx
    else string_in (not escaped && c == b'\\') cs (advance lx)

-- To the closing quote or the end of the text; a byte behind a backslash closes nothing.
unfoldable pub skip_string : Lexer → Lexer
skip_string lx = string_in false lx.rest lx

unfoldable pub scan_string : Lexer → Lexer
scan_string lx =
    let start = advance lx in
    let body = skip_string start in
    if at_end body then lex_error body else emit lx (advance body) string (some (slice start body))

-- A member that is no keyword is given back: the cursor is where it was before the dot.
abbrev pub fold_myon : Lexer → Lexer → Lexer → Option TokenType → Lexer
fold_myon start lx done (some t) = emit start done t (some (slice start done))
fold_myon start lx done none = emit start lx kw_myon (some (slice start lx))

-- "myon" is folded with a known member behind a dot; any other dot is left for the parser.
unfoldable pub scan_myon : Lexer → Lexer → Lexer
scan_myon start lx =
    if peek lx == b'.' && ident_start (peek2 lx)
    then (let member = advance lx in
        let done = skip_while ident_part member in
        fold_myon start lx done (lookup_kw myon_kw (slice member done)))
    else emit start lx kw_myon (some (slice start lx))

abbrev pub emit_word : Lexer → Lexer → Option TokenType → Lexer
emit_word start done (some t) = emit start done t (some (slice start done))
emit_word start done none = emit start done ident (some (slice start done))

unfoldable pub scan_ident : Lexer → Lexer
scan_ident lx =
    let done = skip_while ident_part lx in
    let word = slice lx done in
    if str_eq (codes "myon") word
    then scan_myon lx done
    else emit_word lx done (lookup_kw plain_kw word)
