-- ===== src/FileSystem/Once.antt =====
-- jni/leveldb/util/filesystem/VirtualMemFileSystem.cpp: files of which no two have one name, and one that
-- is taken out.
use leveldblib.Prelude.{
  true, false, not, ◌&&◌, ◌||◌, ◌≡◌, refl, sym, ap, subst, ◌∙◌, Option, none, some, List, [], ◌∷◌,
  ◌++◌, if◌then◌else◌, arith, Bool-cases, inl, inr,
}
use leveldblib.PathParser.{Parts}
use leveldblib.MemFile.{MemFile}
use leveldblib.FileSystem.{same_parts, find_file, has_file, rewind_file, remove_file, keep_first}
use leveldblib.FileSystem.Names.{same_parts-eq}
use leveldblib.FileSystem.Files.{seek-path}

-- At most one file has the name.
abbrev pub Once : Parts → List MemFile → Type 0
Once p [] = Unit {0}
Once p (f ∷ files) = ((same_parts f.path p && has_file p files) ≡ false) × Once p files

pub Once-append :
    (p : Parts) (files : List MemFile) (f : MemFile)
    → Once p files
    → ((same_parts f.path p && has_file p files) ≡ false)
    → Once p (files ++ (f ∷ []))
unfolding has_file
Once-append p [] f h n = (ground arith, tt)
Once-append p (g ∷ files) f h n =
    let m : (same_parts f.path p && has_file p files) ≡ false = ground (arith, n) in
    (ground (arith, h.0, n, has_file-append p files f), Once-append p files f h.1 m)
  where
    has_file-append :
        (p : Parts) (files : List MemFile) (f : MemFile)
        → has_file p (files ++ (f ∷ [])) ≡ (has_file p files || same_parts f.path p)
    has_file-append p [] f = ground arith
    has_file-append p (g ∷ files) f = ground (arith, has_file-append p files f)

has_file-rewind :
    (p q : Parts) (files : List MemFile) → has_file p (rewind_file q files) ≡ has_file p files
unfolding has_file rewind_file
has_file-rewind p q [] = refl
has_file-rewind p q (g ∷ files) = elim (Bool-cases (same_parts g.path q)) [
  | inl t ↦ rw (t, seek-path 0 g) refl
  | inr e ↦ rw (e, has_file-rewind p q files) refl
]

pub Once-rewind : (p q : Parts) (files : List MemFile) → Once p files → Once p (rewind_file q files)
unfolding rewind_file
Once-rewind p q [] h = tt
Once-rewind p q (g ∷ files) h = elim (Bool-cases (same_parts g.path q)) [
  | inl t ↦ rw (t, seek-path 0 g) h
  | inr e ↦ rw (e, has_file-rewind p q files) (h.0, Once-rewind p q files h.1)
]

pub find_file_of_absent :
    (p : Parts) (files : List MemFile) → has_file p files ≡ false → find_file p files ≡ none
unfolding has_file find_file
find_file_of_absent p [] h = refl
find_file_of_absent p (f ∷ files) h = elim (Bool-cases (same_parts f.path p)) [
  | inl t ↦ absurd (ground (arith, h, t))
  | inr e ↦ rw e (find_file_of_absent p files (ground (arith, h, e)))
]

-- What `remove_file` promises of the files that it keeps, for any name.
abbrev pub Removed : Parts → Parts → List MemFile → Option (MemFile × List MemFile) → Type 0
Removed p q files none = has_file p files ≡ false
Removed p q files (some (g, kept)) =
    (has_file p files ≡ true)
    × (find_file q kept ≡ (if same_parts p q then none else find_file q files))
    × Once q kept
    × ((has_file q kept && not (has_file q files)) ≡ false)

Removed-keep_first :
    (p q : Parts) (f : MemFile) (files : List MemFile) (r : Option (MemFile × List MemFile))
    → same_parts f.path p ≡ false
    → Once q (f ∷ files)
    → Removed p q files r
    → Removed p q (f ∷ files) (keep_first f r)
unfolding has_file find_file
Removed-keep_first p q f files none e h a = rw (e, a) refl
Removed-keep_first p q f files (some (g, kept)) e h (a, b, c, d) = (
  rw (e, a) refl,
  elim (Bool-cases (same_parts p q)) [
    | inl t ↦
        let e' : same_parts f.path q ≡ false =
          subst (λ (x : Parts). same_parts f.path x ≡ false) (same_parts-eq p q t) e in
        let b' : find_file q kept ≡ none = b ∙ rw t refl in rw (t, e') b'
    | inr n ↦ rw n (ap (λ o. if same_parts f.path q then some f else o) (b ∙ rw n refl))
  ],
  (ground (arith, h.0, d), c),
  ground (arith, d),
)

pub remove_file-Removed :
    (p q : Parts) (files : List MemFile)
    → Once p files
    → Once q files
    → Removed p q files (remove_file p files)
unfolding remove_file has_file find_file
remove_file-Removed p q [] hp hq = refl
remove_file-Removed p q (f ∷ files) hp hq = elim (Bool-cases (same_parts f.path p)) [
  | inl t ↦
      let absent : has_file p files ≡ false = ground (arith, hp.0, t) in
      let e : f.path ≡ p = same_parts-eq f.path p t in
      rw t (
        rw t refl,
        elim (Bool-cases (same_parts p q)) [
          | inl s ↦ rw s (
              find_file_of_absent q files
                (subst (λ (x : Parts). has_file x files ≡ false) (same_parts-eq p q s) absent))
          | inr n ↦
              let n' : same_parts f.path q ≡ false =
                subst (λ (x : Parts). same_parts x q ≡ false) (sym e) n in
              rw n (sym (find_file_behind q f files n'))
        ],
        hq.1,
        ground arith,
      )
  | inr n ↦ rw n (
      Removed-keep_first p q f files (remove_file p files) n hq
        (remove_file-Removed p q files hp.1 hq.1))
]
  where
    find_file_behind :
        (q : Parts) (f : MemFile) (files : List MemFile)
        → same_parts f.path q ≡ false
        → find_file q (f ∷ files) ≡ find_file q files
    find_file_behind q f files n = rw n refl
