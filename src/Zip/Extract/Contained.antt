-- ===== src/Zip/Extract/Contained.antt =====
-- src/pkg_zip.c: what an extraction asks of the file system lies under the staging directory.
use myon.Base.{
  ◌+◌, ◌≡◌, ◌≢◌, refl, sym, ap, ◌∙◌, true, not, List, [], ◌∷◌, ◌++◌, Option, none, some, ◌==◌, ltb,
  if_both, Bytes, length, take, drop,
}
use Prim.Native.String.{String}
use myon.Zip.Names.{
  Zipped, rejected, done, EntryName, components, all_pass, last_byte_or, pkg_fs_join,
  split_entry_name,
}
use myon.Zip.Names.Safe.{
  follow_from, below, names_of, RestPasses, Accepted, pkg_fs_join-under, follow_from-join,
  follow_from-under, follow_from-below, components-append, split_entry_name-Accepted,
}
use myon.Zip.Crc.{crc32_bytes}
use myon.Zip.Inflate.{pkg_zip_inflate}
use myon.Zip.Directory.{rd16, rd32, ZEntry, Listing, list_entries}
use myon.Zip.Extract.{
  Action, make_dirs, create_file, FileSystem, Progress, act, unless_failed, before_last_slash,
  make_parent, write_file, write_checked, extract_file, extract_below, extract_entry,
  extract_entries, extract_listed, pkg_zip_extract,
}
use myon.Zip.Extract.Paths.{
  action_path, IsUnder, AllUnder, all_pass-append, parent_of, before_last_slash-under, Splits,
  before_last_slash-Splits,
}

module _ (start : Option (List Bytes)) (staging : Bytes)
    (slash : last_byte_or 0 staging ≢ b'\\') where
  joined-IsUnder :
      (rel : Bytes)
      → all_pass (components rel) ≡ true
      → IsUnder start staging (pkg_fs_join staging rel)
  joined-IsUnder rel h = (
    names_of (components rel),
    follow_from-join start staging rel slash
        ∙ follow_from-below (follow_from start (components staging)) (components rel) h,
  )

  -- The parent of what is joined.
  AllUnder-snoc :
      (actions : List Action) (a : Action)
      → AllUnder start staging actions
      → IsUnder start staging (action_path a)
      → AllUnder start staging (actions ++ a ∷ [])
  AllUnder-snoc [] a h u = (u, tt)
  AllUnder-snoc (b ∷ actions) a (v, h) u = (v, AllUnder-snoc actions a h u)

  parent_of-IsUnder :
      (d rel : Bytes) (o : Option Bytes)
      → follow_from start (components d) ≡ follow_from start (components staging)
      → all_pass (components rel) ≡ true
      → Splits rel o
      → IsUnder start staging (parent_of d o)
  parent_of-IsUnder d rel none same h s =
      ([], same ∙ stays (follow_from start (components staging)))
    where
      stays : (o : Option (List Bytes)) → o ≡ below [] o
      stays none = refl
      stays (some dirs) = refl
  parent_of-IsUnder d rel (some p) same h (q, e) =
      let passing = all_pass-append (components p) (components q) (
        ap all_pass (sym (components-append p q))
        ∙ ap (λ (x : Bytes). all_pass (components x)) (sym e)
        ∙ h) in
      (
        names_of (components p),
        follow_from-under start d p
            ∙ follow_from-below (follow_from start (components d)) (components p) passing
            ∙ ap (below (names_of (components p))) same,
      )

  act-AllUnder :
      (fs : FileSystem) (actions : List Action) (a : Action)
      → AllUnder start staging actions
      → IsUnder start staging (action_path a)
      → AllUnder start staging (act fs actions a).actions
  act-AllUnder fs actions a h u = AllUnder-snoc actions a h u

  unless_failed-AllUnder :
      (next : List Action → Progress) (p : Progress)
      → AllUnder start staging p.actions
      → ((actions : List Action)
          → AllUnder start staging actions
          → AllUnder start staging (next actions).actions)
      → AllUnder start staging (unless_failed next p).actions
  unless_failed-AllUnder next p h f = go p.failed
    where
      go :
          (o : Option String)
          → AllUnder start staging
              (elim o as (λ x. Progress) [ none ↦ next p.actions | some message ↦ p ]).actions
      go none = f p.actions h
      go (some message) = h

  make_parent-AllUnder :
      (fs : FileSystem) (rel : Bytes) (actions : List Action)
      → all_pass (components rel) ≡ true
      → AllUnder start staging actions
      → AllUnder start staging
          (make_parent fs (before_last_slash (pkg_fs_join staging rel)) actions).actions
  make_parent-AllUnder fs rel actions h u =
      let (d, (joined, same)) = pkg_fs_join-under start staging rel slash in
      rw (joined, before_last_slash-under d rel)
        (act-AllUnder fs actions (make_dirs (parent_of d (before_last_slash rel))) u
          (parent_of-IsUnder d rel (before_last_slash rel) same h (before_last_slash-Splits rel)))

  write_file-AllUnder :
      (fs : FileSystem) (rel plain : Bytes) (actions : List Action)
      → all_pass (components rel) ≡ true
      → AllUnder start staging actions
      → AllUnder start staging (write_file fs staging rel plain actions).actions
  write_file-AllUnder fs rel plain actions h u =
      unless_failed-AllUnder (λ so_far. act fs so_far (create_file (pkg_fs_join staging rel) plain))
        (make_parent fs (before_last_slash (pkg_fs_join staging rel)) actions)
        (make_parent-AllUnder fs rel actions h u)
        (λ so_far v.
          act-AllUnder fs so_far (create_file (pkg_fs_join staging rel) plain) v
            (joined-IsUnder rel h))

  write_checked-AllUnder :
      (fs : FileSystem) (rel : Bytes) (e : ZEntry) (plain : Option Bytes) (actions : List Action)
      → all_pass (components rel) ≡ true
      → AllUnder start staging actions
      → AllUnder start staging (write_checked fs staging rel e plain actions).actions
  write_checked-AllUnder fs rel e none actions h u = u
  write_checked-AllUnder fs rel e (some plain) actions h u =
      if_both (λ (p : Progress). AllUnder start staging p.actions) (crc32_bytes plain == e.crc)
        (write_file-AllUnder fs rel plain actions h u) u

  extract_file-AllUnder :
      (fs : FileSystem) (zip rel : Bytes) (e : ZEntry) (actions : List Action)
      → all_pass (components rel) ≡ true
      → AllUnder start staging actions
      → AllUnder start staging (extract_file fs zip staging rel e actions).actions
  extract_file-AllUnder fs zip rel e actions h u =
      let P : Progress → Type 0 = λ p. AllUnder start staging p.actions in
      let lh = e.local_offset in
      let data_off = lh + 30 + rd16 zip (lh + 26) + rd16 zip (lh + 28) in
      if_both P (ltb (length zip) (lh + 30)) u (
        if_both P (not (rd32 zip lh == 67324752)) u (
          if_both P (ltb (length zip) (data_off + e.comp_size)) u (
            write_checked-AllUnder fs rel e
              (pkg_zip_inflate (take e.comp_size (drop data_off zip)) e.uncomp_size e.method)
              actions h u)))

  extract_below-AllUnder :
      (fs : FileSystem) (zip : Bytes) (rest : Option Bytes) (e : ZEntry) (actions : List Action)
      → RestPasses rest
      → AllUnder start staging actions
      → AllUnder start staging (extract_below fs zip staging rest e actions).actions
  extract_below-AllUnder fs zip none e actions h u = u
  extract_below-AllUnder fs zip (some rel) e actions h u =
      if_both (λ (p : Progress). AllUnder start staging p.actions) e.is_dir
        (act-AllUnder fs actions (make_dirs (pkg_fs_join staging rel)) u (joined-IsUnder rel h))
        (extract_file-AllUnder fs zip rel e actions h u)

  extract_entry-AllUnder :
      (fs : FileSystem) (zip : Bytes) (name : Zipped EntryName) (e : ZEntry) (actions : List Action)
      → Accepted name
      → AllUnder start staging actions
      → AllUnder start staging (extract_entry fs zip staging name e actions).actions
  extract_entry-AllUnder fs zip (rejected message) e actions h u = u
  extract_entry-AllUnder fs zip (done name) e actions h u =
      extract_below-AllUnder fs zip name.rest e actions h.1 u

  extract_entries-AllUnder :
      (fs : FileSystem) (zip : Bytes) (es : List ZEntry) (actions : List Action)
      → AllUnder start staging actions
      → AllUnder start staging (extract_entries fs zip staging es actions).actions
  unfolding extract_entries
  extract_entries-AllUnder fs zip [] actions u = u
  extract_entries-AllUnder fs zip (e ∷ es) actions u =
      unless_failed-AllUnder (extract_entries fs zip staging es)
        (extract_entry fs zip staging (split_entry_name e.name) e actions)
        (extract_entry-AllUnder fs zip (split_entry_name e.name) e actions
          (split_entry_name-Accepted e.name) u)
        (extract_entries-AllUnder fs zip es)

  extract_listed-AllUnder :
      (fs : FileSystem) (zip : Bytes) (listed : Zipped Listing)
      → AllUnder start staging (extract_listed fs zip staging listed).0
  extract_listed-AllUnder fs zip (rejected message) = tt
  extract_listed-AllUnder fs zip (done st) = extract_entries-AllUnder fs zip st.entries [] tt

-- Whatever the bytes of an archive and whatever the file system answers, every directory and every
-- file that its extraction asks for lies under the staging directory, however the system follows
-- the paths from a place where the path of the staging directory does not end in a backslash.
pub pkg_zip_extract-AllUnder :
    (fs : FileSystem) (zip staging : Bytes) (start : Option (List Bytes))
    → last_byte_or 0 staging ≢ b'\\'
    → AllUnder start staging (pkg_zip_extract fs zip staging).0
unfolding pkg_zip_extract
pkg_zip_extract-AllUnder fs zip staging start slash =
    extract_listed-AllUnder start staging slash fs zip (list_entries zip)
