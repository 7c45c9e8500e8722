-- ===== src/Package/Pinned.antt =====
-- src/package.c: the pinned sources that are accepted, and how they are printed.
use myon.Base.{
  ℕ, ◌≡◌, refl, sym, ap, ◌∙◌, true, false, not, Bool-cases, inl, inr, [], ◌∷◌, ◌++◌, append_assoc,
  Option, none, some, ◌==◌, if_cases, Bytes, arith, ==_iff,
}
use myon.Base.Text.{codes}
use mathlib.Core.Path.{subst}
use myon.Package.Errors.{Checked, refused, accepted}
use myon.Package.Names.{every, repo_char, pkg_is_full_sha, valid_repo_segment}
use myon.Package.Source.{
  PkgSource, strip_prefix, split_at, cons_fst, check_source, source_at, source_slash, source_prefix,
  pkg_source_parse, pkg_source_canonical_no_sha,
}

-- The parts are path segments that the checks accept, and the hash is a full one.
pub record IsSource (s : PkgSource) : Type 0 where
  pub owner_valid : valid_repo_segment s.owner ≡ true
  pub repo_valid : valid_repo_segment s.repo ≡ true
  pub sha_full : pkg_is_full_sha s.sha ≡ true

-- `github:<owner>/<repo>@<sha>`
abbrev pub pinned : PkgSource → Bytes
pinned s = pkg_source_canonical_no_sha s ++ b'@' ∷ s.sha

every_other :
    (c : ℕ) (s : Bytes)
    → repo_char c ≡ false
    → every repo_char s ≡ true
    → every (λ b. not (b == c)) s ≡ true
every_other c [] h e = refl
every_other c (b ∷ bs) h e =
    let tail : every repo_char bs ≡ true = ground arith in
    let head : repo_char b ≡ true = ground arith in
    elim (Bool-cases (b == c)) [
      | inl same ↦ let clash : repo_char c ≡ true = rw (← (==_iff b c).0 same) head in ground arith
      | inr other ↦ rw (other, every_other c bs h tail) refl
    ]

segment_chars : (s : Bytes) → valid_repo_segment s ≡ true → every repo_char s ≡ true
unfolding valid_repo_segment
segment_chars [] h = refl
segment_chars (c ∷ cs) h = ground arith

split_at-here :
    (c : ℕ) (xs ys : Bytes)
    → every (λ b. not (b == c)) xs ≡ true
    → split_at c (xs ++ c ∷ ys) ≡ some (xs, ys)
split_at-here c [] ys h = ground arith
split_at-here c (x ∷ xs) ys h =
    let other : (x == c) ≡ false = ground arith in
    let tail : every (λ b. not (b == c)) xs ≡ true = ground arith in
    rw (other, split_at-here c xs ys tail) refl

check_source-accepts :
    (text : Bytes) (line : ℕ) (s : PkgSource)
    → IsSource s
    → check_source text line s.owner s.repo s.sha ≡ accepted s
check_source-accepts text line s ok = rw (ok.owner_valid, ok.repo_valid, ok.sha_full) refl

pinned_shape :
    (s : PkgSource) → pinned s ≡ codes "github:" ++ (s.owner ++ b'/' ∷ (s.repo ++ b'@' ∷ s.sha))
unfolding pkg_source_canonical_no_sha
pinned_shape s =
    let path : (xs ys : Bytes) → (codes "/" ++ xs) ++ ys ≡ b'/' ∷ (xs ++ ys) = λ xs ys. refl in
    ap (◌++◌ (codes "github:")) (append_assoc s.owner (codes "/" ++ s.repo) (b'@' ∷ s.sha))
    ∙ ap (λ (r : Bytes). codes "github:" ++ (s.owner ++ r)) (path s.repo (b'@' ∷ s.sha))

-- The text of a source with valid parts is read back as that source.
pub pkg_source_parse-pinned :
    (s : PkgSource) (line : ℕ) → IsSource s → pkg_source_parse (pinned s) line ≡ accepted s
unfolding pkg_source_parse
pkg_source_parse-pinned s line ok =
    let text : Bytes = pinned s in
    let slash =
      split_at-here b'/' s.owner (s.repo ++ b'@' ∷ s.sha)
        (every_other b'/' s.owner refl (segment_chars s.owner ok.owner_valid)) in
    let at =
      split_at-here b'@' s.repo s.sha
        (every_other b'@' s.repo refl (segment_chars s.repo ok.repo_valid)) in
    ap (λ (p : Bytes). source_prefix text line (strip_prefix (codes "github:") p)) (pinned_shape s)
    ∙ ap (source_slash text line) slash
    ∙ ap (source_at text line s.owner) at
    ∙ check_source-accepts text line s ok

-- What the split gives puts the text together again.
abbrev Splits : ℕ → Bytes → Option (Bytes × Bytes) → Type 0
Splits c bs none = Unit
Splits c bs (some (before, after)) = bs ≡ before ++ c ∷ after

cons_fst-Splits :
    (c b : ℕ) (bs : Bytes) (o : Option (Bytes × Bytes))
    → Splits c bs o
    → Splits c (b ∷ bs) (cons_fst b o)
cons_fst-Splits c b bs none h = tt
cons_fst-Splits c b bs (some (before, after)) h = ap (◌∷◌ b) h

split_at-Splits : (c : ℕ) (bs : Bytes) → Splits c bs (split_at c bs)
split_at-Splits c [] = tt
split_at-Splits c (b ∷ bs) =
    if_cases (Splits c (b ∷ bs)) (b == c) (λ same. ap (λ (x : ℕ). x ∷ bs) ((==_iff b c).0 same))
      (λ other. cons_fst-Splits c b bs (split_at c bs) (split_at-Splits c bs))

strip_prefix-Splits :
    (p s : Bytes) (behind : Bytes) → strip_prefix p s ≡ some behind → s ≡ p ++ behind
strip_prefix-Splits [] s behind h = ground arith
strip_prefix-Splits (p ∷ ps) [] behind h = ground arith
strip_prefix-Splits (p ∷ ps) (c ∷ cs) behind h = elim (Bool-cases (p == c)) [
  | inl same ↦
      let rest : strip_prefix ps cs ≡ some behind = ground arith in
      rw ((==_iff p c).0 same, strip_prefix-Splits ps cs behind rest) refl
  | inr other ↦ ground arith
]

-- What an accepted text is.
abbrev Reads : Bytes → Checked PkgSource → Type 0
Reads text (refused e) = Unit
Reads text (accepted s) = IsSource s × (text ≡ pinned s)

check_source-Reads :
    (text : Bytes) (line : ℕ) (owner repo sha : Bytes)
    → text ≡ pinned (record { owner = owner; repo = repo; sha = sha })
    → Reads text (check_source text line owner repo sha)
check_source-Reads text line owner repo sha h =
    if_cases (Reads text) (not (valid_repo_segment owner)) (λ no_owner. tt)
      (λ o.
        if_cases (Reads text) (not (valid_repo_segment repo)) (λ no_repo. tt)
          (λ r.
            if_cases (Reads text) (not (pkg_is_full_sha sha)) (λ no_sha. tt)
              (λ f. (
                record {
                  owner_valid = ground arith;
                  repo_valid = ground arith;
                  sha_full = ground arith;
                },
                h,
              ))))

source_at-Reads :
    (text : Bytes) (line : ℕ) (owner rest : Bytes) (o : Option (Bytes × Bytes))
    → text ≡ codes "github:" ++ (owner ++ b'/' ∷ rest)
    → Splits b'@' rest o
    → Reads text (source_at text line owner o)
source_at-Reads text line owner rest none h g = tt
source_at-Reads text line owner rest (some (repo, sha)) h g =
    check_source-Reads text line owner repo sha (
      h
      ∙ ap (λ (r : Bytes). codes "github:" ++ (owner ++ b'/' ∷ r)) g
      ∙ sym (pinned_shape (record { owner = owner; repo = repo; sha = sha })))

source_slash-Reads :
    (text : Bytes) (line : ℕ) (p : Bytes) (o : Option (Bytes × Bytes))
    → text ≡ codes "github:" ++ p
    → Splits b'/' p o
    → Reads text (source_slash text line o)
source_slash-Reads text line p none h g = tt
source_slash-Reads text line p (some (owner, rest)) h g =
    source_at-Reads text line owner rest (split_at b'@' rest) (rw (← g) h)
      (split_at-Splits b'@' rest)

source_prefix-Reads :
    (text : Bytes) (line : ℕ) (o : Option Bytes)
    → strip_prefix (codes "github:") text ≡ o
    → Reads text (source_prefix text line o)
source_prefix-Reads text line none h = tt
source_prefix-Reads text line (some p) h =
    source_slash-Reads text line p (split_at b'/' p)
      (strip_prefix-Splits (codes "github:") text p h) (split_at-Splits b'/' p)

-- A text is accepted as a pinned source only if it is the text of the source that it gives, whose
-- owner and repository are valid segments and whose hash is full.
pub pkg_source_parse-IsSource :
    (text : Bytes) (line : ℕ) (s : PkgSource)
    → pkg_source_parse text line ≡ accepted s
    → IsSource s × (text ≡ pinned s)
unfolding pkg_source_parse
pkg_source_parse-IsSource text line s h =
    subst (Reads text) h (source_prefix-Reads text line (strip_prefix (codes "github:") text) refl)
