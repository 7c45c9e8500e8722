-- ===== src/Compiler/Correct/Results.antt =====
-- Evaluations, src/interpreter.c, that give a value: what their parts gave.
use myon.Base.{
  ◌≡◌, ◌⊎◌, refl, ap, ◌∙◌, Bool, true, false, not, ◌&&◌, none, some, if◌then◌else◌, inl, inr,
}
use myon.Value.{Value, v_bool}
use myon.Compiler.Correct.Expressions.{gives_inj}
use myon.Interp.Ints.{Evaluated, value, runtime_error, overflowed, op_and, op_or}
use myon.Interp.Eval.{gives, and_then, need_bool, eval_logical}
use myon.Interp.Eval.{Evaluation}

-- A result that is a value had a value before it.
pub and_then-gives :
    (o : Evaluation) (next : Value → Evaluation) (w : Value)
    → and_then o next ≡ gives w
    → (a : Value) × (o ≡ gives a) × (next a ≡ gives w)
unfolding and_then
and_then-gives none next w e = absurd (cc)
and_then-gives (some (value a)) next w e = (a, refl, e)
and_then-gives (some (runtime_error message)) next w e = absurd (cc)
and_then-gives (some overflowed) next w e = absurd (cc)

pub evaluated :
    (r : Evaluated Value) (w : Value) → ◌≡◌ {A = Evaluation} (some r) (gives w) → r ≡ value w
evaluated r w e = cc

need_bool-gives :
    (next : Bool → Evaluation) (a w : Value)
    → need_bool next a ≡ gives w
    → (b : Bool) × (a ≡ v_bool b) × (next b ≡ gives w)
need_bool-gives next (v_bool b) w e = (b, refl, e)
need_bool-gives next a w e = absurd (cc)

-- The right operand is a bool, and it is the result.
right_gives :
    (r : Evaluation) (w : Value)
    → and_then r (need_bool (λ b. gives (v_bool b))) ≡ gives w
    → r ≡ gives w
right_gives r w e =
    let (a, ea, ew) = and_then-gives r _ w e in
    let (b, eb, e') = need_bool-gives (λ b. gives (v_bool b)) a w ew in ea ∙ ap gives eb ∙ e'

-- The left operand is a bool, and it decides or the right one is the result.
abbrev pub Decides : Bool → Evaluation → Evaluation → Value → Type 0
Decides and_ l r w =
    ((l ≡ gives (v_bool (not and_))) × (v_bool (not and_) ≡ w))
    ⊎ ((l ≡ gives (v_bool and_)) × (r ≡ gives w))

pub eval_and-Decides :
    (l r : Evaluation) (w : Value) → eval_logical op_and l r ≡ gives w → Decides true l r w
unfolding eval_logical
eval_and-Decides l r w e =
    let (a, ea, ew) = and_then-gives l _ w e in
    let (b, eb, e') = need_bool-gives _ a w ew in and_case b (ea ∙ ap gives eb) e'
  where
    and_case :
        (b : Bool)
        → l ≡ gives (v_bool b)
        → (if true && not b
            then gives (v_bool false)
            else if false && b
            then gives (v_bool true)
            else and_then r (need_bool (λ b'. gives (v_bool b'))))
          ≡ gives w
        → Decides true l r w
    and_case true el e' = inr (el, right_gives r w e')
    and_case false el e' = inl (el, gives_inj (v_bool false) w e')

pub eval_or-Decides :
    (l r : Evaluation) (w : Value) → eval_logical op_or l r ≡ gives w → Decides false l r w
unfolding eval_logical
eval_or-Decides l r w e =
    let (a, ea, ew) = and_then-gives l _ w e in
    let (b, eb, e') = need_bool-gives _ a w ew in or_case b (ea ∙ ap gives eb) e'
  where
    or_case :
        (b : Bool)
        → l ≡ gives (v_bool b)
        → (if false && not b
            then gives (v_bool false)
            else if true && b
            then gives (v_bool true)
            else and_then r (need_bool (λ b'. gives (v_bool b'))))
          ≡ gives w
        → Decides false l r w
    or_case true el e' = inl (el, gives_inj (v_bool true) w e')
    or_case false el e' = inr (el, right_gives r w e')
