-- ===== src/FileSystem/Held.antt =====
-- jni/leveldb/util/filesystem/VirtualMemFileSystem.cpp: the descriptors that the files hold, where a file
-- is created or taken out.
use leveldblib.Prelude.{
  ℕ, Bool, true, false, ◌||◌, ◌≡◌, refl, sym, ap, ◌∙◌, Option, none, some, List, [], ◌∷◌, ◌++◌,
  ◌==◌, if◌then◌else◌, arith, Bool-cases, inl, inr,
}
use leveldblib.PathParser.{FilePath, Parts}
use leveldblib.FdManager.{FdPool, contains}
use leveldblib.FdManager.Fresh.{alloc_fd_lem, contains-recycle_fd}
use leveldblib.MemFile.{MemFile, open_new, seek}
use leveldblib.FileSystem.{
  FileSystem, same_parts, rewind_file, remove_file, keep_first, parsed, without_file,
  is_contain_file, create_file,
}

-- Whether a file has the descriptor.
abbrev pub has_fd : ℕ → List MemFile → Bool
has_fd k [] = false
has_fd k (f ∷ files) = k == f.fd || has_fd k files

-- No two files have one descriptor.
abbrev pub Distinct : List MemFile → Type 0
Distinct [] = Unit {0}
Distinct (f ∷ files) = (has_fd f.fd files ≡ false) × Distinct files

-- The pool has just the descriptors of the files.
pub record Matches (files : List MemFile) (pool : FdPool) : Type 0 where
  pub distinct : Distinct files
  pub in_use : (k : ℕ) → contains pool k ≡ has_fd k files

seek-fd : (n : ℕ) (f : MemFile) → (seek n f).1.fd ≡ f.fd
unfolding seek
seek-fd n f = ground arith

has_fd-rewind :
    (k : ℕ) (p : Parts) (files : List MemFile) → has_fd k (rewind_file p files) ≡ has_fd k files
unfolding rewind_file
has_fd-rewind k p [] = refl
has_fd-rewind k p (f ∷ files) = elim (Bool-cases (same_parts f.path p)) [
  | inl t ↦ rw (t, seek-fd 0 f) refl
  | inr e ↦ rw (e, has_fd-rewind k p files) refl
]

Distinct-rewind :
    (p : Parts) (files : List MemFile) → Distinct files → Distinct (rewind_file p files)
unfolding rewind_file
Distinct-rewind p [] h = tt
Distinct-rewind p (f ∷ files) h = elim (Bool-cases (same_parts f.path p)) [
  | inl t ↦ rw (t, seek-fd 0 f) h
  | inr e ↦ rw (e, has_fd-rewind f.fd p files) (h.0, Distinct-rewind p files h.1)
]

has_fd-append :
    (k : ℕ) (files : List MemFile) (f : MemFile)
    → has_fd k (files ++ (f ∷ [])) ≡ (k == f.fd || has_fd k files)
has_fd-append k [] f = refl
has_fd-append k (g ∷ files) f = ground (arith, has_fd-append k files f)

Distinct-append :
    (files : List MemFile) (f : MemFile)
    → Distinct files
    → has_fd f.fd files ≡ false
    → Distinct (files ++ (f ∷ []))
Distinct-append [] f h n = (refl, tt)
Distinct-append (g ∷ files) f h n = (
  ground (arith, h.0, n, has_fd-append g.fd files f),
  Distinct-append files f h.1 (ground (arith, n)),
)

pub Matches-create_file :
    (name : FilePath) (fs : FileSystem)
    → Matches fs.files fs.pool
    → Matches (create_file name fs).1.files (create_file name fs).1.pool
unfolding create_file is_contain_file open_new
Matches-create_file name fs m = elim (Bool-cases (is_contain_file name fs)) [
  | inl t ↦ rw t (record {
    distinct = Distinct-rewind (parsed name).1 fs.files m.distinct;
    in_use = λ k. m.in_use k ∙ sym (has_fd-rewind k (parsed name).1 fs.files);
  })
  | inr e ↦
      let f = (open_new name fs.pool).0 in
      let fresh : has_fd f.fd fs.files ≡ false = sym (m.in_use f.fd) ∙ (alloc_fd_lem fs.pool 0).0 in
      rw e (record {
        distinct = Distinct-append fs.files f m.distinct fresh;
        in_use = λ k.
            (alloc_fd_lem fs.pool k).3
            ∙ ap (λ (b : Bool). k == f.fd || b) (m.in_use k)
            ∙ sym (has_fd-append k fs.files f);
      })
]

-- What taking one file out of the list keeps.
abbrev Taken : List MemFile → Option (MemFile × List MemFile) → Type 0
Taken files none = Unit {0}
Taken files (some (g, kept)) =
    Distinct kept
    × (has_fd g.fd files ≡ true)
    × ((k : ℕ) → has_fd k kept ≡ (if k == g.fd then false else has_fd k files))

-- A file with its descriptor taken from the front.
has_fd-behind :
    (k : ℕ) (f : MemFile) (files : List MemFile)
    → has_fd f.fd files ≡ false
    → has_fd k files ≡ (if k == f.fd then false else (k == f.fd || has_fd k files))
has_fd-behind k f files h = elim (Bool-cases (k == f.fd)) [
  | inl t ↦ let e : k ≡ f.fd = ground (arith, t) in rw t (ap (λ (j : ℕ). has_fd j files) e ∙ h)
  | inr n ↦ rw n refl
]

never :
    (f g : MemFile) (files : List MemFile)
    → has_fd f.fd files ≡ false
    → (if f.fd == g.fd then false else has_fd f.fd files) ≡ false
never f g files h = ground (arith, h)

-- A file in front of one that is taken.
has_fd-front :
    (k : ℕ) (f g : MemFile) (files rest : List MemFile)
    → has_fd f.fd files ≡ false
    → has_fd g.fd files ≡ true
    → has_fd k rest ≡ (if k == g.fd then false else has_fd k files)
    → (k == f.fd || has_fd k rest) ≡ (if k == g.fd then false else (k == f.fd || has_fd k files))
has_fd-front k f g files rest h t e = elim (Bool-cases (k == f.fd)) [
  | inl s ↦
      let same : k ≡ f.fd = ground (arith, s) in
      elim (Bool-cases (k == g.fd)) [
        | inl u ↦
            let both : g.fd ≡ f.fd = ground (arith, u, same) in
            absurd (ground (arith, t, ap (λ (j : ℕ). has_fd j files) both ∙ h))
        | inr n ↦ rw (s, n) refl
      ]
  | inr n ↦ rw (n, e) refl
]

pub remove_file-Taken :
    (p : Parts) (files : List MemFile) → Distinct files → Taken files (remove_file p files)
unfolding remove_file
remove_file-Taken p [] h = tt
remove_file-Taken p (f ∷ files) h = elim (Bool-cases (same_parts f.path p)) [
  | inl t ↦ rw t (h.1, ground arith, λ k. has_fd-behind k f files h.0)
  | inr e ↦ rw e (kept f (remove_file p files) h (remove_file-Taken p files h.1))
]
  where
    kept :
        (f : MemFile) (r : Option (MemFile × List MemFile))
        → Distinct (f ∷ files)
        → Taken files r
        → Taken (f ∷ files) (keep_first f r)
    kept f none h t = tt
    kept f (some (g, rest)) h (d, here, e) = (
      (e f.fd ∙ never f g files h.0, d),
      ground (arith, here),
      λ k. has_fd-front k f g files rest h.0 here (e k),
    )

pub Matches-without :
    (fs : FileSystem) (r : Option (MemFile × List MemFile))
    → Matches fs.files fs.pool
    → Taken fs.files r
    → Matches (without_file fs r).1.files (without_file fs r).1.pool
Matches-without fs none m t = m
Matches-without fs (some (g, kept)) m (d, here, e) = record {
  distinct = d;
  in_use = λ k.
      contains-recycle_fd g.fd k fs.pool
      ∙ ap (λ (b : Bool). if k == g.fd then false else b) (m.in_use k)
      ∙ sym (e k);
}
