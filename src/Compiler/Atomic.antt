-- ===== src/Compiler/Atomic.antt =====
-- A reader of the settings file sees the old settings or the new ones, never a part.
use opengroupware.Prelude.{
  String, ◌≡◌, ◌≢◌, ◌∙◌, refl, ap, true, false, Option, none, some, inl, inr, Result, ok, err, ◌==◌,
  string_eq, str_iff, Bool-cases, arith,
}
use opengroupware.Prelude.{length, length-append}
use opengroupware.Prelude.Texts.{codes}
use opengroupware.Admin.Emails.{codes-append}
use opengroupware.Compiler.Disk.{
  Files, set_file, FileSystem, tmp_of, renamed, flushed, written, created, made_parent,
  write_atomic,
}

-- Success leaves the new contents, failure the old ones; other files but the temporary one are as
-- they were.
abbrev pub IsAtomic : String → String → Files → Result String Unit × Files → Type 0
IsAtomic path contents d (ok _, d') =
    (d' path ≡ some contents) × ((q : String) → q ≢ path → q ≢ tmp_of path → d' q ≡ d q)
IsAtomic path contents d (err e, d') =
    (d' path ≡ d path) × ((q : String) → q ≢ tmp_of path → d' q ≡ d q)

module _ (path contents : String) (apart : path ≢ tmp_of path) where
  distinct : (q r : String) → q ≢ r → (q == r) ≡ false
  distinct q r h = elim (Bool-cases (q == r)) [
    | inl same ↦ absurd (h ((str_iff q r).0 same))
    | inr other ↦ other
  ]

  itself : (q : String) → (q == q) ≡ true
  itself q = (str_iff q q).1 refl

  tmp-other :
      (c : Option String) (d : Files) (q : String)
      → q ≢ tmp_of path
      → set_file (tmp_of path) c d q ≡ d q
  tmp-other c d q h = rw (distinct q (tmp_of path) h) refl

  -- Only the temporary file differs, and it holds the contents.
  renamed-IsAtomic :
      (e : Option String) (d d' : Files)
      → ((q : String) → q ≢ tmp_of path → d' q ≡ d q)
      → d' (tmp_of path) ≡ some contents
      → IsAtomic path contents d (renamed path e d')
  renamed-IsAtomic (some e) d d' same full = (same path apart, same)
  renamed-IsAtomic none d d' same full = (
    tmp-other none (set_file path (d' (tmp_of path)) d') path apart ∙ rw (itself path) full,
    λ q h k.
        tmp-other none (set_file path (d' (tmp_of path)) d') q k
        ∙ rw (distinct q path h) (same q k),
  )

  flushed-IsAtomic :
      (fs : FileSystem) (e : Option String) (d d' : Files)
      → ((q : String) → q ≢ tmp_of path → d' q ≡ d q)
      → d' (tmp_of path) ≡ some contents
      → IsAtomic path contents d (flushed fs path e d')
  flushed-IsAtomic fs (some e) d d' same full = (same path apart, same)
  flushed-IsAtomic fs none d d' same full = renamed-IsAtomic fs.rename d d' same full

  written-IsAtomic :
      (fs : FileSystem) (e : Option (String × String)) (d d' : Files)
      → ((q : String) → q ≢ tmp_of path → d' q ≡ d q)
      → IsAtomic path contents d (written fs path contents e d')
  written-IsAtomic fs (some (e, part)) d d' same = (
    tmp-other (some part) d' path apart ∙ same path apart,
    λ q h. tmp-other (some part) d' q h ∙ same q h,
  )
  written-IsAtomic fs none d d' same =
      flushed-IsAtomic fs fs.flush d (set_file (tmp_of path) (some contents) d')
        (λ q h. tmp-other (some contents) d' q h ∙ same q h) (rw (itself (tmp_of path)) refl)

  created-IsAtomic :
      (fs : FileSystem) (e : Option String) (d : Files)
      → IsAtomic path contents d (created fs path contents e d)
  created-IsAtomic fs (some e) d = (refl, λ q h. refl)
  created-IsAtomic fs none d =
      written-IsAtomic fs fs.write_all d (set_file (tmp_of path) (some "") d)
        λ q h. tmp-other (some "") d q h

  made_parent-IsAtomic :
      (fs : FileSystem) (e : Option String) (d : Files)
      → IsAtomic path contents d (made_parent fs path contents e d)
  made_parent-IsAtomic fs (some e) d = (refl, λ q h. refl)
  made_parent-IsAtomic fs none d = created-IsAtomic fs fs.create d

tmp-apart : (path : String) → path ≢ tmp_of path
tmp-apart path e =
    let longer = ap (λ s. length (codes s)) e ∙ ap length (codes-append path ".tmp") in
    absurd (omega (arith, longer, length-append (codes path) (codes ".tmp")))

-- Wherever the write fails, the file at the path is as it was; if it succeeds, the file holds exactly
-- the new contents; no other file but the temporary one is touched.
pub write_atomic-IsAtomic :
    (fs : FileSystem) (path contents : String) (d : Files)
    → IsAtomic path contents d (write_atomic fs path contents d)
unfolding write_atomic
write_atomic-IsAtomic fs path contents d = elim (Bool-cases (fs.has_parent path)) [
  | inl nested ↦
      rw nested (made_parent-IsAtomic path contents (tmp-apart path) fs fs.create_dir_all d)
  | inr root ↦ rw root (created-IsAtomic path contents (tmp-apart path) fs fs.create d)
]
