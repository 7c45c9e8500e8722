-- ===== src/Lexer/Tokens.antt =====
-- src/token.h: token types and tokens; src/lexer.c: the keyword tables and their lookup.
use Prim.Native.String.{String}
use myon.Base.{ℕ, List, [], ◌∷◌, Option, none, some, if◌then◌else◌, Bytes, str_eq}
use myon.Base.Text.{codes}

pub data TokenType : Type 0 where
  int float string ident : TokenType
  kw_system kw_module kw_myon kw_ret kw_str kw_char kw_int kw_float kw_bool kw_void : TokenType
  kw_error kw_then kw_range kw_self kw_as kw_true kw_false : TokenType
  myon_if myon_elif myon_else myon_while myon_for myon_in myon_break myon_continue : TokenType
  myon_func myon_struct myon_array myon_map myon_print myon_input : TokenType
  myon_and myon_or myon_not myon_nil myon_expose myon_lambda myon_extends : TokenType
  myon_async myon_await : TokenType
  eq neq lt gt le ge plus minus star slash : TokenType
  plus_eq minus_eq star_eq slash_eq assign dot comma colon semicolon : TokenType
  lparen rparen lbrace rbrace lbracket rbracket newline eof : TokenType

-- A NULL lexeme is `none`.
pub record Token : Type 0 where
  pub type : TokenType
  pub lexeme : Option Bytes
  pub line : ℕ
  pub col : ℕ

abbrev pub KwTable : Type 0
KwTable = List (String × TokenType)

abbrev pub plain_kw : KwTable
plain_kw =
    ("system", kw_system)
    ∷ ("module", kw_module)
    ∷ ("ret", kw_ret)
    ∷ ("str", kw_str)
    ∷ ("char", kw_char)
    ∷ ("int", kw_int)
    ∷ ("float", kw_float)
    ∷ ("bool", kw_bool)
    ∷ ("void", kw_void)
    ∷ ("error", kw_error)
    ∷ ("then", kw_then)
    ∷ ("range", kw_range)
    ∷ ("self", kw_self)
    ∷ ("as", kw_as)
    ∷ ("true", kw_true)
    ∷ ("false", kw_false)
    ∷ []

abbrev pub myon_kw : KwTable
myon_kw =
    ("if", myon_if)
    ∷ ("elif", myon_elif)
    ∷ ("else", myon_else)
    ∷ ("while", myon_while)
    ∷ ("for", myon_for)
    ∷ ("in", myon_in)
    ∷ ("break", myon_break)
    ∷ ("continue", myon_continue)
    ∷ ("func", myon_func)
    ∷ ("struct", myon_struct)
    ∷ ("array", myon_array)
    ∷ ("map", myon_map)
    ∷ ("print", myon_print)
    ∷ ("input", myon_input)
    ∷ ("and", myon_and)
    ∷ ("or", myon_or)
    ∷ ("not", myon_not)
    ∷ ("nil", myon_nil)
    ∷ ("expose", myon_expose)
    ∷ ("lambda", myon_lambda)
    ∷ ("extends", myon_extends)
    ∷ ("async", myon_async)
    ∷ ("await", myon_await)
    ∷ []

-- The sentinel TOK_EOF, "not found", is `none`.
unfoldable pub lookup_kw : KwTable → Bytes → Option TokenType
lookup_kw [] name = none
lookup_kw ((key, t) ∷ table) name = if str_eq (codes key) name then some t else lookup_kw table name
