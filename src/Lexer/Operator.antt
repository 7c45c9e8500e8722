-- ===== src/Lexer/Operator.antt =====
-- src/lexer.c: operators and symbols.
use Prim.Native.String.{String}
use myon.Base.{ℕ, ◌+◌, ◌-◌, some, ◌==◌, if◌then◌else◌}
use myon.Base.Text.{codes}
use myon.Lexer.Tokens.{
  TokenType, eq, neq, lt, gt, le, ge, plus, minus, star, slash, plus_eq, minus_eq, star_eq,
  slash_eq, assign, dot, comma, colon, semicolon, lparen, rparen, lbrace, rbrace, lbracket,
  rbracket,
}
use myon.Lexer.State.{Lexer, peek, advance, emit, lex_error}

unfoldable pub one : Lexer → Lexer → TokenType → String → Lexer
one start lx type text = emit start lx type (some (codes text))

-- The longer token if `=` follows, else the shorter one.
unfoldable pub either : Lexer → Lexer → TokenType → String → TokenType → String → Lexer
either start lx long_type long short_type short =
    if peek lx == b'=' then one start (advance lx) long_type long else one start lx short_type short

abbrev pub opened : Lexer → Lexer
opened lx = record lx { paren_depth = lx.paren_depth + 1 }

-- Clamped at 0, as subtraction on ℕ is.
abbrev pub closed : Lexer → Lexer
closed lx = record lx { paren_depth = lx.paren_depth - 1 }

-- The symbols that no `=` extends, and the default case.
unfoldable pub scan_single : Lexer → Lexer → ℕ → Lexer
scan_single start lx c =
    if c == b'.'
    then one start lx dot "."
    else if c == b','
    then one start lx comma ","
    else if c == b':'
    then one start lx colon ":"
    else if c == b';'
    then one start lx semicolon ";"
    else if c == b'('
    then one start (opened lx) lparen "("
    else if c == b'['
    then one start (opened lx) lbracket "["
    else if c == b'{'
    then one start lx lbrace "{"
    else if c == b')'
    then one start (closed lx) rparen ")"
    else if c == b']'
    then one start (closed lx) rbracket "]"
    else if c == b'}'
    then one start lx rbrace "}"
    else lex_error lx

-- The switch over the byte read; the state is the one behind it.
unfoldable pub scan_symbol : Lexer → Lexer → ℕ → Lexer
scan_symbol start lx c =
    if c == b'='
    then either start lx eq "==" assign "="
    else if c == b'!'
    then (if peek lx == b'=' then one start (advance lx) neq "!=" else lex_error lx)
    else if c == b'<'
    then either start lx le "<=" lt "<"
    else if c == b'>'
    then either start lx ge ">=" gt ">"
    else if c == b'+'
    then either start lx plus_eq "+=" plus "+"
    else if c == b'-'
    then either start lx minus_eq "-=" minus "-"
    else if c == b'*'
    then either start lx star_eq "*=" star "*"
    else if c == b'/'
    then either start lx slash_eq "/=" slash "/"
    else scan_single start lx c

abbrev pub scan_operator : Lexer → Lexer
scan_operator lx = scan_symbol lx (advance lx) (peek lx)
