-- ===== src/Value/Arrays.antt =====
-- src/value.c: pushing and popping.
use myon.Base.{◌≡◌, ◌≤◌, refl, some, length, [], ◌∷◌, ◌++◌, length-append, arith, List}
use myon.Value.{Value, ArrayData, array_push, array_pop, pop_last, last_of}

last_of-push : (w : Value) (ws : List Value) (v : Value) → last_of w (ws ++ v ∷ []) ≡ (w ∷ ws, v)
last_of-push w [] v = refl
last_of-push w (x ∷ ws) v = rw (last_of-push x ws v) refl

pop_last-push :
    (a : ArrayData) (vs : List Value) (v : Value)
    → pop_last a (vs ++ v ∷ []) ≡ some (v, record a { items = vs })
pop_last-push a [] v = refl
pop_last-push a (w ∷ ws) v = rw (last_of-push w ws v) refl

-- The value pushed last is popped first, and the items below it are untouched.
pub array_pop-array_push :
    (a : ArrayData) (v : Value)
    → array_pop (array_push a v)
      ≡ some (v, record { items = a.items; capacity = (array_push a v).capacity })
unfolding array_pop array_push
array_pop-array_push a v = pop_last-push (array_push a v) a.items v

-- A push into an array whose items fit its capacity keeps the items within the capacity.
pub array_push-capacity :
    (a : ArrayData) (v : Value)
    → length a.items ≤ a.capacity
    → length (array_push a v).items ≤ (array_push a v).capacity
unfolding array_push
array_push-capacity a v h = ground (arith, length-append a.items (v ∷ []))
