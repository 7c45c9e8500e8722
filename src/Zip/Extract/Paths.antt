-- ===== src/Zip/Extract/Paths.antt =====
-- src/pkg_zip.c: paths under the staging directory, and the parent of a path.
use myon.Base.{
  ℕ, ◌≡◌, refl, ap, ◌∙◌, Bool, true, false, List, [], ◌∷◌, ◌++◌, Option, none, some, ◌==◌,
  if◌then◌else◌, if_cases, Bytes, arith,
}
use myon.Zip.Names.{components, all_pass, passes}
use myon.Zip.Names.Safe.{follow_from, below}
use myon.Zip.Extract.{Action, make_dirs, create_file, parent_at, before_last_slash}

abbrev pub action_path : Action → Bytes
action_path (make_dirs path) = path
action_path (create_file path plain) = path

-- The path leads below the place that the staging directory's path leads to.
abbrev pub IsUnder : Option (List Bytes) → Bytes → Bytes → Type 0
IsUnder start staging path =
    (names : List Bytes) × (follow_from start (components path)
      ≡ below names (follow_from start (components staging)))

abbrev pub AllUnder : Option (List Bytes) → Bytes → List Action → Type 0
AllUnder start staging [] = Unit
AllUnder start staging (a ∷ actions) =
    IsUnder start staging (action_path a) × AllUnder start staging actions

pub all_pass-append : (ss ts : List Bytes) → all_pass (ss ++ ts) ≡ true → all_pass ss ≡ true
all_pass-append [] ts h = refl
all_pass-append (s ∷ ss) ts h = go (passes s) h (all_pass-append ss ts)
  where
    go :
        (b : Bool) {x y : Bool}
        → (if b then x else false) ≡ true
        → (x ≡ true → y ≡ true)
        → (if b then y else false) ≡ true
    go true h f = f h
    go false h f = h

abbrev pub parent_of : Bytes → Option Bytes → Bytes
parent_of a none = a
parent_of a (some p) = a ++ b'/' ∷ p

pub before_last_slash-under :
    (a b : Bytes) → before_last_slash (a ++ b'/' ∷ b) ≡ some (parent_of a (before_last_slash b))
before_last_slash-under [] b = here (before_last_slash b)
  where
    here : (o : Option Bytes) → parent_at b'/' o ≡ some (parent_of [] o)
    here none = refl
    here (some p) = refl
before_last_slash-under (c ∷ cs) b =
    ap (parent_at c) (before_last_slash-under cs b) ∙ shift (before_last_slash b)
  where
    shift : (o : Option Bytes) → some (c ∷ parent_of cs o) ≡ some (parent_of (c ∷ cs) o)
    shift none = refl
    shift (some p) = refl

abbrev pub Splits : Bytes → Option Bytes → Type 0
Splits b none = Unit
Splits b (some p) = (q : Bytes) × (b ≡ p ++ b'/' ∷ q)

pub before_last_slash-Splits : (b : Bytes) → Splits b (before_last_slash b)
before_last_slash-Splits [] = tt
before_last_slash-Splits (c ∷ cs) = go (before_last_slash cs) (before_last_slash-Splits cs)
  where
    go : (o : Option Bytes) → Splits cs o → Splits (c ∷ cs) (parent_at c o)
    go none h =
        if_cases (Splits (c ∷ cs)) (c == b'/') (λ e. (cs, ap (λ (x : ℕ). x ∷ cs) (ground arith)))
          (λ e. tt)
    go (some p) (q, e) = (q, ap (λ (x : Bytes). c ∷ x) e)
