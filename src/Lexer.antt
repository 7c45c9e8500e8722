-- ===== src/Lexer.antt =====
-- src/lexer.c and src/token.h: the lexer.
pub mod Tokens
pub mod State
pub mod Scan
pub mod Operator
pub mod Tokenize
pub mod Moves
pub mod Progress
pub mod Loop
pub mod Whole
mod Tests
