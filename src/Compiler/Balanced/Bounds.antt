-- ===== src/Compiler/Balanced/Bounds.antt =====
-- What follows for whole statements and programs of src/mvm_compiler.c.
use myon.Base.{◌≡◌, List, [], ◌∷◌, length}
use myon.Compiler.State.{FnComp, Compiler}
use myon.Compiler.Balanced.Rules.{IsSound, Shape}

abbrev shape_of : List FnComp → Shape
shape_of [] = []
shape_of (fn ∷ fns) = (fn.depth_is_block, length fn.loops) ∷ shape_of fns

-- Every function under compilation is within its bounds.
abbrev pub AllSound : List FnComp → Type 0
AllSound [] = Unit
AllSound (fn ∷ fns) = IsSound fn × AllSound fns

-- Both lists have the shape.
abbrev pub SameShape : List FnComp → List FnComp → Type 0
SameShape [] [] = Unit
SameShape [] (g ∷ gs) = ⊥
SameShape (f ∷ fs) [] = ⊥
SameShape (f ∷ fs) (g ∷ gs) =
    (g.depth_is_block ≡ f.depth_is_block) × (length g.loops ≡ length f.loops) × SameShape fs gs
