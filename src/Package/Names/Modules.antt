-- ===== src/Package/Names/Modules.antt =====
-- src/package.c: which module names are accepted.
use myon.Base.{
  ℕ, ◌≡◌, refl, ap, ◌∙◌, Bool, true, false, ◌&&◌, Bool-cases, inl, inr, List, [], ◌∷◌, Option, none,
  some, ◌==◌, if◌then◌else◌, Bytes,
}
use myon.Base.Text.{between}
use myon.Package.Errors.{PkgError}
use myon.Package.Names.{every, segment_char, end_segment, module_chars, pkg_validate_module_name}

-- The first segment of a dotted name, and the others.
abbrev pub split_dots : Bytes → Bytes × List Bytes
split_dots [] = ([], [])
split_dots (c ∷ cs) =
    let rest = split_dots cs in if c == b'.' then ([], rest.0 ∷ rest.1) else (c ∷ rest.0, rest.1)

-- A lowercase letter, then lowercase letters, digits and '-'.
abbrev pub is_segment : Bytes → Bool
is_segment [] = false
is_segment (c ∷ cs) = between b'a' b'z' c && every segment_char (c ∷ cs)

abbrev pub all_segments : List Bytes → Bool
all_segments [] = true
all_segments (s ∷ ss) = is_segment s && all_segments ss

abbrev pub is_module_name : Bytes → Bool
is_module_name name = is_segment (split_dots name).0 && all_segments (split_dots name).1

abbrev pub no_error : Option PkgError → Bool
no_error none = true
no_error (some e) = false

-- What the scan has still to see, where the segment's first byte may have been seen before.
abbrev good_rest : Option ℕ → Bytes × List Bytes → Bool
good_rest none (s, ss) = is_segment s && all_segments ss
good_rest (some first) (s, ss) =
    between b'a' b'z' first && (every segment_char s && all_segments ss)

end_segment-some :
    (name : Bytes) (line first : ℕ) (rest : Option PkgError)
    → no_error (end_segment name line (some first) rest)
      ≡ (between b'a' b'z' first && no_error rest)
end_segment-some name line first rest = elim (Bool-cases (between b'a' b'z' first)) [
  | inl letter ↦ rw letter refl
  | inr other ↦ rw other refl
]

and_assoc : (a b c : Bool) → (a && (b && c)) ≡ ((a && b) && c)
and_assoc true b c = refl
and_assoc false b c = refl

and_false : (a : Bool) → false ≡ (a && false)
and_false true = refl
and_false false = refl

module_chars-good_rest :
    (name : Bytes) (line : ℕ) (first : Option ℕ) (cs : Bytes)
    → no_error (module_chars name line first cs) ≡ good_rest first (split_dots cs)
module_chars-good_rest name line none [] = refl
module_chars-good_rest name line (some f) [] = end_segment-some name line f none
module_chars-good_rest name line none (c ∷ cs) = elim (Bool-cases (c == b'.')) [
  | inl dot ↦ rw dot refl
  | inr plain ↦ elim (Bool-cases (segment_char c)) [
    | inl ok ↦
        rw (plain, ok)
          (module_chars-good_rest name line (some c) cs
            ∙ and_assoc (between b'a' b'z' c) (every segment_char (split_dots cs).0)
                (all_segments (split_dots cs).1))
    | inr bad ↦
        rw (plain, bad)
          (and_false (between b'a' b'z' c)
            ∙ and_assoc (between b'a' b'z' c) false (all_segments (split_dots cs).1))
  ]
]
module_chars-good_rest name line (some f) (c ∷ cs) = elim (Bool-cases (c == b'.')) [
  | inl dot ↦ rw dot (
      end_segment-some name line f (module_chars name line none cs)
      ∙ ap (λ (r : Bool). between b'a' b'z' f && r) (module_chars-good_rest name line none cs))
  | inr plain ↦ elim (Bool-cases (segment_char c)) [
    | inl ok ↦ rw (plain, ok) (module_chars-good_rest name line (some f) cs)
    | inr bad ↦ rw (plain, bad) (and_false (between b'a' b'z' f))
  ]
]

-- A module name is accepted if and only if every segment between its dots is a lowercase letter
-- followed by lowercase letters, digits and dashes.
pub pkg_validate_module_name_lem :
    (name : Bytes) (line : ℕ) → no_error (pkg_validate_module_name name line) ≡ is_module_name name
unfolding pkg_validate_module_name
pkg_validate_module_name_lem [] line = refl
pkg_validate_module_name_lem (c ∷ cs) line = module_chars-good_rest (c ∷ cs) line none (c ∷ cs)
