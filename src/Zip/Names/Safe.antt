-- ===== src/Zip/Names/Safe.antt =====
-- src/pkg_zip.c: an entry's name leads to a place under the staging directory.
use myon.Base.{
  ℕ, ◌≡◌, ◌≢◌, refl, sym, ap, ◌∙◌, Bool, true, false, not, ◌&&◌, ◌||◌, List, [], ◌∷◌, ◌++◌,
  append_assoc, Option, none, some, ◌==◌, ltb, leb, if◌then◌else◌, if_cases, if_both, Bytes, length,
  get_or, str_eq, arith,
}
use mathlib.Core.Path.{subst}
use myon.Base.Text.{codes}
use myon.Package.Source.{split_at}
use myon.Zip.Names.{
  pkg_fs_safe_component, control_byte, component_byte, every_byte, last_byte_or, drop_last,
  pkg_fs_join, Zipped, rejected, done, has_byte, cons_first, components, all_pass, EntryName,
  nonempty, check_remainder, check_first, split_first, without_slash, split_entry_name,
}

-- How a system follows a path's components, from the directories entered so far, the last first:
-- an empty component and "." stay, and ".." leaves a directory; `none` is a path that leaves more
-- directories than it has entered.
abbrev leave : List Bytes → Option (List Bytes)
leave [] = none
leave (d ∷ dirs) = some dirs

abbrev enter : List Bytes → Bytes → Option (List Bytes)
enter dirs [] = some dirs
enter dirs (c ∷ cs) =
    if str_eq (c ∷ cs) (codes ".")
    then some dirs
    else if str_eq (c ∷ cs) (codes "..")
    then leave dirs
    else some ((c ∷ cs) ∷ dirs)

abbrev pub follow_from : Option (List Bytes) → List Bytes → Option (List Bytes)
follow_from none ss = none
follow_from (some dirs) [] = some dirs
follow_from (some dirs) (s ∷ ss) = follow_from (enter dirs s) ss

-- The components that have a name, the last first.
abbrev pub names_of : List Bytes → List Bytes
names_of [] = []
names_of ([] ∷ ss) = names_of ss
names_of ((c ∷ cs) ∷ ss) = names_of ss ++ (c ∷ cs) ∷ []

-- Those names, entered below the directories.
abbrev pub below : List Bytes → Option (List Bytes) → Option (List Bytes)
below names none = none
below names (some dirs) = some (names ++ dirs)

follow_from-append :
    (start : Option (List Bytes)) (ss ts : List Bytes)
    → follow_from start (ss ++ ts) ≡ follow_from (follow_from start ss) ts
follow_from-append none ss ts = refl
follow_from-append (some dirs) [] ts = refl
follow_from-append (some dirs) (s ∷ ss) ts = follow_from-append (enter dirs s) ss ts

neither : (a b c : Bool) → (if a || b then false else c) ≡ true → (a ≡ false) × (b ≡ false)
neither a b c h = ground arith

-- What the checks accept is entered.
enter-safe :
    (dirs : List Bytes) (c : ℕ) (cs : Bytes)
    → pkg_fs_safe_component (c ∷ cs) ≡ true
    → enter dirs (c ∷ cs) ≡ some ((c ∷ cs) ∷ dirs)
unfolding pkg_fs_safe_component
enter-safe dirs c cs h =
    let (not_dot, not_dots) =
      neither (str_eq (c ∷ cs) (codes ".")) (str_eq (c ∷ cs) (codes ".."))
        (every_byte component_byte (c ∷ cs)) h in
    rw (not_dot, not_dots) refl

if_then : (a b : Bool) → (if a then b else false) ≡ true → (a ≡ true) × (b ≡ true)
if_then a b h = ground arith

follow_from-passing :
    (dirs : List Bytes) (ss : List Bytes)
    → all_pass ss ≡ true
    → follow_from (some dirs) ss ≡ some (names_of ss ++ dirs)
follow_from-passing dirs [] h = refl
follow_from-passing dirs ([] ∷ ss) h = follow_from-passing dirs ss h
follow_from-passing dirs ((c ∷ cs) ∷ ss) h =
    let (safe, rest) = if_then (pkg_fs_safe_component (c ∷ cs)) (all_pass ss) h in
    ap (λ (o : Option (List Bytes)). follow_from o ss) (enter-safe dirs c cs safe)
    ∙ (follow_from-passing ((c ∷ cs) ∷ dirs) ss rest
        ∙ ap (λ (d : List Bytes). some d) (sym (append_assoc (names_of ss) ((c ∷ cs) ∷ []) dirs)))

pub follow_from-below :
    (start : Option (List Bytes)) (ss : List Bytes)
    → all_pass ss ≡ true
    → follow_from start ss ≡ below (names_of ss) start
follow_from-below none ss h = refl
follow_from-below (some dirs) ss h = follow_from-passing dirs ss h

cons_first-append :
    (c : ℕ) (s : Bytes) (ss ts : List Bytes) {rs : List Bytes}
    → rs ≡ s ∷ ss
    → cons_first c (rs ++ ts) ≡ cons_first c rs ++ ts
cons_first-append c s ss ts e = rw e refl

components-cons : (bs : Bytes) → (r : Bytes × List Bytes) × (components bs ≡ r.0 ∷ r.1)
components-cons [] = (([], []), refl)
components-cons (c ∷ cs) =
    let ((s, ss), e) = components-cons cs in
    if_both (λ (rs : List Bytes). (r : Bytes × List Bytes) × (rs ≡ r.0 ∷ r.1)) (c == b'/')
      (([], components cs), refl) ((c ∷ s, ss), rw e refl)

pub components-append : (a b : Bytes) → components (a ++ b'/' ∷ b) ≡ components a ++ components b
components-append [] b = refl
components-append (c ∷ cs) b =
    let ((s, ss), e) = components-cons cs in
    go (c == b'/') (components cs) (components-append cs b)
      (cons_first-append c s ss (components b) e)
  where
    go :
        (d : Bool) (r : List Bytes) {l : List Bytes}
        → l ≡ r ++ components b
        → cons_first c (r ++ components b) ≡ cons_first c r ++ components b
        → (if d then [] ∷ l else cons_first c l)
          ≡ (if d then [] ∷ r else cons_first c r) ++ components b
    go true r e f = ap (λ (t : List Bytes). [] ∷ t) e
    go false r e f = ap (cons_first c) e ∙ f

drop_last_lem : (c : ℕ) (cs : Bytes) → c ∷ cs ≡ drop_last (c ∷ cs) ++ last_byte_or c cs ∷ []
drop_last_lem c [] = refl
drop_last_lem c (d ∷ ds) = ap (◌∷◌ c) (drop_last_lem d ds)

-- A separator at the end changes nothing, nor does one more.
components-drop_last :
    (start : Option (List Bytes)) (c : ℕ) (cs : Bytes)
    → last_byte_or c cs ≡ b'/'
    → follow_from start (components (drop_last (c ∷ cs))) ≡ follow_from start (components (c ∷ cs))
components-drop_last start c cs h =
    let a = drop_last (c ∷ cs) in
    sym (
      ap (λ (bs : Bytes). follow_from start (components bs))
        (drop_last_lem c cs ∙ ap (λ (x : ℕ). a ++ x ∷ []) h)
      ∙ ap (follow_from start) (components-append a [])
      ∙ follow_from-append start (components a) ([] ∷ [])
      ∙ stays (follow_from start (components a)))
  where
    stays : (o : Option (List Bytes)) → follow_from o ([] ∷ []) ≡ o
    stays none = refl
    stays (some dirs) = refl

pub follow_from-under :
    (start : Option (List Bytes)) (a b : Bytes)
    → follow_from start (components (a ++ b'/' ∷ b))
      ≡ follow_from (follow_from start (components a)) (components b)
follow_from-under start a b =
    ap (follow_from start) (components-append a b)
    ∙ follow_from-append start (components a) (components b)

-- What is joined below leads where `a` leads.
pub pkg_fs_join-under :
    (start : Option (List Bytes)) (a b : Bytes)
    → last_byte_or 0 a ≢ b'\\'
    → (d : Bytes) × ((pkg_fs_join a b ≡ d ++ b'/' ∷ b)
        × (follow_from start (components d) ≡ follow_from start (components a)))
unfolding pkg_fs_join
pkg_fs_join-under start [] b h = ([], (refl, refl))
pkg_fs_join-under start (c ∷ cs) b h =
    if_cases
      (λ (p : Bytes).
        (d : Bytes) × ((p ≡ d ++ b'/' ∷ b)
          × (follow_from start (components d) ≡ follow_from start (components (c ∷ cs)))))
      (last_byte_or c cs == b'/' || last_byte_or c cs == b'\\')
      (λ slash. (drop_last (c ∷ cs), (refl, components-drop_last start c cs (ground arith))))
      (λ other. (c ∷ cs, (refl, refl)))

-- The path that is joined leads to `b` from where `a` leads.
pub follow_from-join :
    (start : Option (List Bytes)) (a b : Bytes)
    → last_byte_or 0 a ≢ b'\\'
    → follow_from start (components (pkg_fs_join a b))
      ≡ follow_from (follow_from start (components a)) (components b)
follow_from-join start a b h =
    let (d, (joined, same)) = pkg_fs_join-under start a b h in
    ap (λ (p : Bytes). follow_from start (components p)) joined
    ∙ follow_from-under start d b
    ∙ ap (λ (o : Option (List Bytes)). follow_from o (components b)) same

abbrev pub RestPasses : Option Bytes → Type 0
RestPasses none = Unit
RestPasses (some p) = all_pass (components p) ≡ true

abbrev pub Accepted : Zipped EntryName → Type 0
Accepted (rejected message) = Unit
Accepted (done e) = (pkg_fs_safe_component e.root ≡ true) × RestPasses e.rest

nonempty-RestPasses : (p : Bytes) → all_pass (components p) ≡ true → RestPasses (nonempty p)
nonempty-RestPasses [] h = tt
nonempty-RestPasses (c ∷ cs) h = h

check_remainder-Accepted :
    (first : Bytes) (remainder : Option Bytes)
    → pkg_fs_safe_component first ≡ true
    → Accepted (check_remainder first remainder)
check_remainder-Accepted first none h = (h, tt)
check_remainder-Accepted first (some p) h =
    if_cases Accepted (all_pass (components p)) (λ e. (h, nonempty-RestPasses p e)) (λ e. tt)

check_first-Accepted :
    (first : Bytes) (remainder : Option Bytes) → Accepted (check_first first remainder)
check_first-Accepted first remainder =
    if_cases Accepted (pkg_fs_safe_component first) (check_remainder-Accepted first remainder)
      (λ e. tt)

split_first-Accepted : (dup : Bytes) (o : Option (Bytes × Bytes)) → Accepted (split_first dup o)
split_first-Accepted dup none = check_first-Accepted dup none
split_first-Accepted dup (some (first, remainder)) = check_first-Accepted first (some remainder)

pub split_entry_name-Accepted : (name : Bytes) → Accepted (split_entry_name name)
unfolding split_entry_name
split_entry_name-Accepted name = if_both Accepted (length name == 0 || ltb 1024 (length name)) tt (
    if_both Accepted (get_or name 0 0 == b'/') tt (
      if_both Accepted (has_byte b'\\' name) tt (
        if_both Accepted (leb 2 (length name) && get_or name 1 0 == b':') tt (
          if_both Accepted (every_byte (λ c. not (control_byte c)) name)
            (split_first-Accepted (without_slash name) (split_at b'/' (without_slash name))) tt))))

-- An accepted name leads below.
pub split_entry_name-below :
    (name root rest staging : Bytes) (start : Option (List Bytes))
    → split_entry_name name ≡ done (record { root = root; rest = some rest })
    → last_byte_or 0 staging ≢ b'\\'
    → follow_from start (components (pkg_fs_join staging rest))
      ≡ below (names_of (components rest)) (follow_from start (components staging))
split_entry_name-below name root rest staging start h slash =
    let accepted = subst Accepted h (split_entry_name-Accepted name) in
    follow_from-join start staging rest slash
    ∙ follow_from-below (follow_from start (components staging)) (components rest) accepted.1
