-- ===== src/Lexer/Tests.antt =====
-- src/lexer.c on concrete texts.
use myon.Base.{str_eq, ◌≡◌, refl, true, ◌||◌, List, [], ◌∷◌, ◌++◌, some, none, Bytes, arith}
use myon.Base.Text.{codes}
use myon.Lexer.Tokens.{Token, TokenType, int, assign, ident, newline, eof}
use myon.Lexer.State.{at_end}
use myon.Lexer.Tokenize.{lex_loop, start, lexer_tokenize}
use myon.Lexer.Loop.{lex_loop-done}
use myon.Lexer.Whole.{eof_at, lexer_tokenize-eof}

abbrev two_lines : Bytes
two_lines = codes "x = 0x1F # hex\n\ny"

abbrev two_lines_tokens : List Token
two_lines_tokens =
    record { type = ident; lexeme = some (codes "x"); line = 1; col = 1 }
    ∷ record { type = assign; lexeme = some (codes "="); line = 1; col = 3 }
    ∷ record { type = int; lexeme = some (codes "0x1F"); line = 1; col = 5 }
    ∷ record { type = newline; lexeme = some (b'\\' ∷ b'n' ∷ []); line = 1; col = 15 }
    ∷ record { type = ident; lexeme = some (codes "y"); line = 3; col = 1 }
    ∷ record { type = eof; lexeme = none; line = 3; col = 2 }
    ∷ []

tokenized : lexer_tokenize two_lines ≡ some two_lines_tokens
unfolding lexer_tokenize lex_loop myon.Lexer.Tokenize.lex_step myon.Lexer.Tokenize.scan_token
    myon.Lexer.Tokenize.scan_newline myon.Lexer.State.advance myon.Lexer.State.skip_while
    myon.Lexer.Scan.skip_comment myon.Lexer.Scan.skip_block myon.Lexer.Scan.scan_prefixed
    myon.Lexer.Scan.scan_number myon.Lexer.Scan.scan_exponent myon.Lexer.Scan.scan_string
    myon.Lexer.Scan.skip_string myon.Lexer.Scan.scan_ident myon.Lexer.Scan.scan_myon
    myon.Lexer.Tokens.lookup_kw myon.Lexer.Operator.one myon.Lexer.Operator.either
    myon.Lexer.Operator.scan_single myon.Lexer.Operator.scan_symbol str_eq
tokenized = refl

lexer_tokenize-eof_example :
    (body : List Token) × (two_lines_tokens ≡ body ++ eof_at two_lines ∷ [])
lexer_tokenize-eof_example = lexer_tokenize-eof two_lines two_lines_tokens refl tokenized

lex_loop-done_example :
    (at_end (lex_loop 18 (start two_lines)) || (lex_loop 18 (start two_lines)).error) ≡ true
lex_loop-done_example = lex_loop-done 18 (start two_lines) (omega arith)
