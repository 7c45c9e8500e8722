-- ===== src/Lexer/State.antt =====
-- src/lexer.c: the lexer's state, its cursor, and the output. The state holds the bytes from `pos`
-- on; the byte at the end of the text is the terminating 0, and `advance` is not called there.
use myon.Base.{
  ℕ, ◌+◌, ◌-◌, Bool, true, List, [], ◌∷◌, ◌++◌, Option, ◌==◌, if◌then◌else◌, Bytes, take,
}
use myon.Lexer.Tokens.{TokenType, Token}

pub record Lexer : Type 0 where
  pub rest : Bytes
  pub pos : ℕ
  pub line : ℕ
  pub col : ℕ
  pub out : List Token
  pub error : Bool
  pub paren_depth : ℕ

abbrev pub head_or_nul : Bytes → ℕ
head_or_nul [] = 0
head_or_nul (c ∷ cs) = c

abbrev tail_or_nil : Bytes → Bytes
tail_or_nil [] = []
tail_or_nil (c ∷ cs) = cs

abbrev pub peek : Lexer → ℕ
peek lx = head_or_nul lx.rest

-- `src[pos] ? src[pos + 1] : '\0'`
abbrev pub peek2 : Lexer → ℕ
peek2 lx = if peek lx == 0 then 0 else head_or_nul (tail_or_nil lx.rest)

abbrev pub at_end : Lexer → Bool
at_end lx = peek lx == 0

abbrev pub advance_over : ℕ → Bytes → Lexer → Lexer
advance_over c cs lx = record lx {
  rest = cs;
  pos = lx.pos + 1;
  line = if c == b'\n' then lx.line + 1 else lx.line;
  col = if c == b'\n' then 1 else lx.col + 1;
}

abbrev pub advance_at : Bytes → Lexer → Lexer
advance_at [] lx = lx
advance_at (c ∷ cs) lx = advance_over c cs lx

unfoldable pub advance : Lexer → Lexer
advance lx = advance_at lx.rest lx

abbrev pub skip_in : (ℕ → Bool) → Bytes → Lexer → Lexer
skip_in p [] lx = lx
skip_in p (c ∷ cs) lx = if p c then skip_in p cs (advance lx) else lx

-- `while (p(peek(lx))) advance(lx);` for a class of bytes that 0 is not in.
unfoldable pub skip_while : (ℕ → Bool) → Lexer → Lexer
skip_while p lx = skip_in p lx.rest lx

-- The bytes between two states of one text: `myon_strndup(src + start, pos - start)`.
abbrev pub slice : Lexer → Lexer → Bytes
slice from lx = take (lx.pos - from.pos) from.rest

-- A token at the place of the state `from`.
abbrev pub emit : Lexer → Lexer → TokenType → Option Bytes → Lexer
emit from lx type lexeme = record lx {
  out = lx.out ++ (record { type = type; lexeme = lexeme; line = from.line; col = from.col }) ∷ [];
}

abbrev pub lex_error : Lexer → Lexer
lex_error lx = record lx { error = true }
