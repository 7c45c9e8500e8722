-- ===== src/Interp/Eval.antt =====
-- src/interpreter.c: the evaluation of expressions that need neither the heap, nor a call, nor
-- the parser. The answer is `none` where code that is not modelled takes over.
use myon.Base.{
  ℕ, ◌-◌, ◌%◌, Bool, true, false, ◌&&◌, ◌||◌, not, [], ◌∷◌, Option, none, some, ◌==◌, if◌then◌else◌,
  Bytes,
}
use myon.Base.Words.{ℤ, pos, negsuc}
use Prim.Native.String.{String}
use myon.Value.{Value, v_int, v_float, v_bool, v_nil, v_str, v_char, v_error, v_ref, ref_task}
use myon.Env.{Env, env_get}
use myon.Ast.{
  Expr, int_lit, float_lit, bool_lit, str_ctor, char_ctor, int_ctor, error_ctor, string, ident,
  binary, unary, logical, call, index, member, array_ctor, map_ctor, lambda, await, generic,
}
use myon.Interp.Ints.{Evaluated, value, runtime_error, overflowed, OpKind, op_and, op_or, op_neg}
use myon.Interp.Operators.{FloatOps, eval_binary, myon_bridge_neg, myon_bridge_not}

abbrev pub Evaluation : Type 0
Evaluation = Option (Evaluated Value)

abbrev next_value : (Value → Evaluation) → Evaluated Value → Evaluation
next_value next (value v) = next v
next_value next (runtime_error message) = some (runtime_error message)
next_value next overflowed = some overflowed

-- An error ends the evaluation.
unfoldable pub and_then : Evaluation → (Value → Evaluation) → Evaluation
and_then none next = none
and_then (some r) next = next_value next r

abbrev pub gives : Value → Evaluation
gives v = some (value v)

abbrev pub fails : String → Evaluation
fails message = some (runtime_error message)

unfoldable pub eval_name : Option Value → Evaluation
eval_name none = fails "undefined variable '%s'"
eval_name (some v) = gives v

abbrev pub open_brace : ℕ
open_brace = 0x7B

abbrev pub close_brace : ℕ
close_brace = 0x7D

-- `strchr(s, '}')` after a brace: without it the interpolation does not end.
abbrev interpolated : Bytes → Option (Evaluated Bytes)
interpolated [] = some (runtime_error "unterminated '{' in string interpolation")
interpolated (b ∷ s) = if b == close_brace then none else interpolated s

abbrev pub with_byte : ℕ → Option (Evaluated Bytes) → Option (Evaluated Bytes)
with_byte b none = none
with_byte b (some (value out)) = some (value (b ∷ out))
with_byte b (some (runtime_error message)) = some (runtime_error message)
with_byte b (some overflowed) = some overflowed

-- The text for a literal; a text that has an interpolated expression is not modelled.
unfoldable pub interpolate_string : Bytes → Option (Evaluated Bytes)
interpolate_string [] = some (value [])
interpolate_string (b ∷ []) = if b == open_brace then interpolated [] else some (value (b ∷ []))
interpolate_string (b ∷ b' ∷ s) = elim (b == b' && (b == open_brace || b == close_brace)) [
  | true ↦ with_byte b (interpolate_string s)
  | false ↦ elim (b == open_brace) [
    | true ↦ interpolated (b' ∷ s)
    | false ↦ with_byte b (interpolate_string (b' ∷ s))
  ]
]

unfoldable pub as_text : Option (Evaluated Bytes) → Evaluation
as_text none = none
as_text (some (value s)) = gives (v_str s)
as_text (some (runtime_error message)) = fails message
as_text (some overflowed) = some overflowed

abbrev bool_int : Bool → ℤ
bool_int true = pos 1
bool_int false = pos 0

-- `str[0]` as an unsigned char; a text ends with a 0.
abbrev first_byte : Bytes → ℕ
first_byte [] = 0
first_byte (b ∷ bs) = b

-- The conversions of a double and of a text are C's.
unfoldable pub cast_to_int : Value → Evaluation
cast_to_int (v_int i) = gives (v_int i)
cast_to_int (v_float d) = none
cast_to_int (v_bool b) = gives (v_int (bool_int b))
cast_to_int (v_str s) = none
cast_to_int (v_char s) = gives (v_int (pos (first_byte s)))
cast_to_int v = fails "int(): unsupported source type %s"

-- The low byte of a number as a text: a 0 gives the empty one.
abbrev byte_text : ℕ → Bytes
byte_text b = if b == 0 then [] else b ∷ []

-- `i & 0xFF` in two's complement
abbrev low_byte : ℤ → ℕ
low_byte (pos n) = n % 256
low_byte (negsuc n) = 255 - n % 256

unfoldable pub cast_to_char : Value → Evaluation
cast_to_char (v_char s) = gives (v_char s)
cast_to_char (v_int i) = gives (v_char (byte_text (low_byte i)))
cast_to_char (v_str []) = fails "char(): empty string"
cast_to_char (v_str (b ∷ s)) = gives (v_char (b ∷ []))
cast_to_char v = fails "char(): unsupported source type %s"

unfoldable pub make_error : Value → Evaluation
make_error (v_str s) = gives (v_error s)
make_error v = fails "error() expects a str argument"

-- A task is awaited by the event loop.
unfoldable pub await_value : Value → Evaluation
await_value (v_ref ref_task a) = none
await_value v = gives v

abbrev pub need_bool : (Bool → Evaluation) → Value → Evaluation
need_bool next (v_bool b) = next b
need_bool next v = fails "logical operator requires bool, got %s"

abbrev is_and : OpKind → Bool
is_and op_and = true
is_and _ = false

abbrev is_or : OpKind → Bool
is_or op_or = true
is_or _ = false

abbrev is_neg : OpKind → Bool
is_neg op_neg = true
is_neg _ = false

-- The right operand is evaluated only where the left one does not decide.
unfoldable pub eval_logical : OpKind → Evaluation → Evaluation → Evaluation
eval_logical op l r = and_then l (
    need_bool (λ b.
      if is_and op && not b
      then gives (v_bool false)
      else if is_or op && b
      then gives (v_bool true)
      else and_then r (need_bool (λ b'. gives (v_bool b')))))

unfoldable pub eval_expr : FloatOps → Env → Expr → Evaluation
eval_expr fl env (int_lit line i) = gives (v_int i)
eval_expr fl env (float_lit line d) = gives (v_float d)
eval_expr fl env (bool_lit line b) = gives (v_bool b)
eval_expr fl env (Expr.nil line) = gives v_nil
eval_expr fl env (string line none) = none
eval_expr fl env (string line (some s)) = as_text (interpolate_string s)
eval_expr fl env (ident line name) = eval_name (env_get env name)
eval_expr fl env (int_ctor line e) = and_then (eval_expr fl env e) cast_to_int
eval_expr fl env (char_ctor line e) = and_then (eval_expr fl env e) cast_to_char
eval_expr fl env (error_ctor line e) = and_then (eval_expr fl env e) make_error
eval_expr fl env (await line e) = and_then (eval_expr fl env e) await_value
eval_expr fl env (generic line name types) =
    fails "generic type '%s' must be instantiated with (...)"
eval_expr fl env (unary line op e) =
    and_then (eval_expr fl env e)
      (λ v. some (if is_neg op then myon_bridge_neg fl v else myon_bridge_not v))
eval_expr fl env (logical line op l r) = eval_logical op (eval_expr fl env l) (eval_expr fl env r)
eval_expr fl env (binary line op l r) =
    and_then (eval_expr fl env l)
      (λ a. and_then (eval_expr fl env r) (λ b. some (eval_binary fl op a b)))
eval_expr fl env (str_ctor line e) = none
eval_expr fl env (call line callee args types) = none
eval_expr fl env (index line e i) = none
eval_expr fl env (member line e name) = none
eval_expr fl env (array_ctor line t) = none
eval_expr fl env (map_ctor line k v) = none
eval_expr fl env (lambda line decl) = none
