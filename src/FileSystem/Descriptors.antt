-- ===== src/FileSystem/Descriptors.antt =====
-- jni/leveldb/util/filesystem/VirtualMemFileSystem.cpp: the descriptors of the files, under all the
-- calls that change the state.
use leveldblib.Prelude.{
  ℕ, true, false, ◌||◌, ◌≡◌, refl, sym, ap, subst, ◌∙◌, some, List, [], ◌∷◌, ◌++◌, map, ◌==◌,
  if◌then◌else◌, arith, Bool-cases, Option-cases, inl, inr,
}
use leveldblib.PathParser.{FilePath, format_dir}
use leveldblib.FdManager.{FdPool, contains, recycle_fd}
use leveldblib.FdManager.Fresh.{contains-recycle_fd}
use leveldblib.MemFile.{MemFile, close}
use leveldblib.FileSystem.{
  FileSystem, same_bytes, has_dir, is_contain_dir, remove_file, parsed, get_file_by_fd,
  delete_files_in, create_file, delete_file, create_dir, delete_dir, rename_dir, close_all, clear,
}
use leveldblib.FileSystem.Held.{
  has_fd, Distinct, Matches, Matches-create_file, remove_file-Taken, Matches-without,
}

-- The states that any calls lead to from an empty file system.
pub data Lives : FileSystem → Type 0 where
  started : Lives (record { dirs = []; files = []; pool = [] })
  file_created : (name : FilePath) {fs : FileSystem} → Lives fs → Lives (create_file name fs).1
  file_deleted : (name : FilePath) {fs : FileSystem} → Lives fs → Lives (delete_file name fs).1
  dir_created : (name : FilePath) {fs : FileSystem} → Lives fs → Lives (create_dir name fs).1
  dir_deleted : (name : FilePath) {fs : FileSystem} → Lives fs → Lives (delete_dir name fs).1
  dir_renamed :
      (origin name : FilePath) {fs : FileSystem} → Lives fs → Lives (rename_dir origin name fs)
  all_closed : {fs : FileSystem} → Lives fs → Lives (close_all fs)
  cleared : {fs : FileSystem} → Lives fs → Lives (clear fs)

-- What the loop of `deleteDir` keeps: of a pool with the files' descriptors, just those of the rest.
record Swept (files : List MemFile) (pool : FdPool) (r : FdPool × List MemFile) : Type 0 where
  distinct : Distinct r.1
  fewer : (k : ℕ) → has_fd k files ≡ false → has_fd k r.1 ≡ false
  in_use : (k : ℕ) → contains r.0 k ≡ (if has_fd k files then has_fd k r.1 else contains pool k)

still :
    (k : ℕ) (f : MemFile) (files : List MemFile) (pool : FdPool)
    → has_fd f.fd files ≡ false
    → contains pool k ≡ true
    → has_fd k files ≡ true
    → (if k == f.fd then false else contains pool k) ≡ true
still k f files pool h c e = elim (Bool-cases (k == f.fd)) [
  | inl t ↦
      let same : k ≡ f.fd = ground (arith, t) in
      absurd (ground (arith, e, ap (λ (j : ℕ). has_fd j files) same ∙ h))
  | inr n ↦ rw n c
]

swept_gone :
    (k : ℕ) (f : MemFile) (files kept : List MemFile) (pool smaller : FdPool)
    → has_fd f.fd files ≡ false
    → contains smaller k ≡ (if k == f.fd then false else contains pool k)
    → (has_fd k files ≡ false → has_fd k kept ≡ false)
    → (if has_fd k files then has_fd k kept else contains smaller k)
      ≡ (if k == f.fd || has_fd k files then has_fd k kept else contains pool k)
swept_gone k f files kept pool smaller h c fewer = elim (Bool-cases (k == f.fd)) [
  | inl t ↦
      let same : k ≡ f.fd = ground (arith, t) in
      let none : has_fd k files ≡ false = ap (λ (j : ℕ). has_fd j files) same ∙ h in
      rw (c, none, t) (sym (fewer none))
  | inr n ↦ rw (c, n) refl
]

swept_kept :
    (k : ℕ) (f : MemFile) (files kept : List MemFile) (pool : FdPool)
    → has_fd f.fd files ≡ false
    → ((k == f.fd || has_fd k files) ≡ true → contains pool k ≡ true)
    → (if has_fd k files then has_fd k kept else contains pool k)
      ≡ (if k == f.fd || has_fd k files then k == f.fd || has_fd k kept else contains pool k)
swept_kept k f files kept pool h u = elim (Bool-cases (k == f.fd)) [
  | inl t ↦
      let same : k ≡ f.fd = ground (arith, t) in
      let none : has_fd k files ≡ false = ap (λ (j : ℕ). has_fd j files) same ∙ h in
      rw (none, t) (u (rw t refl))
  | inr n ↦ rw n refl
]

delete_files_in-Swept :
    (d : FilePath) (pool : FdPool) (files : List MemFile)
    → Distinct files
    → ((k : ℕ) → has_fd k files ≡ true → contains pool k ≡ true)
    → Swept files pool (delete_files_in d pool files)
unfolding delete_files_in
delete_files_in-Swept d pool [] h u = record {
  distinct = tt;
  fewer = λ k n. refl;
  in_use = λ k. refl;
}
delete_files_in-Swept d pool (f ∷ files) h u = elim (Bool-cases (same_bytes f.path.dir d)) [
  | inl t ↦
      let s = delete_files_in-Swept d (recycle_fd f.fd pool) files h.1 λ k e.
        contains-recycle_fd f.fd k pool ∙ still k f files pool h.0 (u k (ground (arith, e))) e in
      rw t (record {
        distinct = s.distinct;
        fewer = λ k n. s.fewer k (ground (arith, n));
        in_use = λ k.
            s.in_use k
            ∙ swept_gone k f files _ pool _ h.0 (contains-recycle_fd f.fd k pool) (s.fewer k);
      })
  | inr n ↦
      let s = delete_files_in-Swept d pool files h.1 (λ k e. u k (ground (arith, e))) in
      rw n (record {
        distinct = (s.fewer f.fd h.0, s.distinct);
        fewer = λ k e. ground (arith, e, s.fewer k);
        in_use = λ k. s.in_use k ∙ swept_kept k f files _ pool h.0 (u k);
      })
]

Matches-delete_dir :
    (name : FilePath) (fs : FileSystem)
    → Matches fs.files fs.pool
    → Matches (delete_dir name fs).1.files (delete_dir name fs).1.pool
unfolding delete_dir
Matches-delete_dir name fs m =
    let swept = delete_files_in-Swept name fs.pool fs.files m.distinct (λ k e. m.in_use k ∙ e) in
    let r = delete_files_in name fs.pool fs.files in
    let rest : Matches r.1 r.0 = record {
      distinct = swept.distinct;
      in_use = λ k. swept.in_use k ∙ elim (Bool-cases (has_fd k fs.files)) [
        | inl t ↦ rw t refl
        | inr n ↦ rw n (m.in_use k ∙ n ∙ sym (swept.fewer k n))
      ];
    } in
    elim (Option-cases (format_dir name)) [
      | inl e ↦ rw (delete_dir, e) m
      | inr (d, e) ↦ elim (Bool-cases (has_dir d fs.dirs)) [
        | inl t ↦ rw (delete_dir, e, t) (record { distinct = rest.distinct; in_use = rest.in_use })
        | inr n ↦ rw (delete_dir, e, n) (record { distinct = rest.distinct; in_use = rest.in_use })
      ]
    ]

Matches-delete_file :
    (name : FilePath) (fs : FileSystem)
    → Matches fs.files fs.pool
    → Matches (delete_file name fs).1.files (delete_file name fs).1.pool
unfolding delete_file
Matches-delete_file name fs m =
    let parts = (parsed name).1 in
    elim (Bool-cases (parsed name).0) [
      | inl ok ↦ rw ok (
          Matches-without fs (remove_file parts fs.files) m
            (remove_file-Taken parts fs.files m.distinct))
      | inr bad ↦ rw bad m
    ]

has_fd-close : (k : ℕ) (files : List MemFile) → has_fd k (map close files) ≡ has_fd k files
unfolding close
has_fd-close k [] = refl
has_fd-close k (f ∷ files) = ap (λ b. k == f.fd || b) (has_fd-close k files)

Distinct-close : (files : List MemFile) → Distinct files → Distinct (map close files)
unfolding close
Distinct-close [] h = tt
Distinct-close (f ∷ files) h = (has_fd-close f.fd files ∙ h.0, Distinct-close files h.1)

-- The calls on directories leave the files and the pool.
create_dir_lem :
    (name : FilePath) (fs : FileSystem)
    → ((create_dir name fs).1.files ≡ fs.files) × ((create_dir name fs).1.pool ≡ fs.pool)
unfolding create_dir
create_dir_lem name fs = elim (Option-cases (format_dir name)) [
  | inl e ↦ rw (create_dir, e) (refl, refl)
  | inr (d, e) ↦ elim (Bool-cases (is_contain_dir d fs)) [
    | inl t ↦ rw (create_dir, e, t) (refl, refl)
    | inr n ↦ rw (create_dir, e, n) (refl, refl)
  ]
]

rename_dir_lem :
    (origin name : FilePath) (fs : FileSystem)
    → ((rename_dir origin name fs).files ≡ fs.files) × ((rename_dir origin name fs).pool ≡ fs.pool)
unfolding rename_dir
rename_dir_lem origin name fs = elim (Option-cases (format_dir origin)) [
  | inl e ↦ rw (rename_dir, e) (refl, refl)
  | inr (d, e) ↦ elim (Bool-cases (has_dir d fs.dirs)) [
    | inr n ↦ rw (rename_dir, e, n) (refl, refl)
    | inl t ↦ elim (Option-cases (format_dir name)) [
      | inl g ↦ rw (rename_dir, e, t, g) (refl, refl)
      | inr (c, g) ↦ rw (rename_dir, e, t, g) (refl, refl)
    ]
  ]
]

Lives-Matches : {fs : FileSystem} → Lives fs → Matches fs.files fs.pool
unfolding close_all clear contains
Lives-Matches started = record { distinct = tt; in_use = λ k. refl }
Lives-Matches (file_created name {fs} l) = Matches-create_file name fs (Lives-Matches l)
Lives-Matches (file_deleted name {fs} l) = Matches-delete_file name fs (Lives-Matches l)
Lives-Matches (dir_created name {fs} l) =
    let (files, pool) = create_dir_lem name fs in rw (files, pool) (Lives-Matches l)
Lives-Matches (dir_deleted name {fs} l) = Matches-delete_dir name fs (Lives-Matches l)
Lives-Matches (dir_renamed origin name {fs} l) =
    let (files, pool) = rename_dir_lem origin name fs in rw (files, pool) (Lives-Matches l)
Lives-Matches (all_closed {fs} l) =
    let m = Lives-Matches l in
    record {
      distinct = Distinct-close fs.files m.distinct;
      in_use = λ k. m.in_use k ∙ sym (has_fd-close k fs.files);
    }
Lives-Matches (cleared {fs} l) =
    let m = Lives-Matches l in record { distinct = m.distinct; in_use = m.in_use }

has_fd-inside :
    (before after : List MemFile) (f : MemFile) → has_fd f.fd (before ++ (f ∷ after)) ≡ true
has_fd-inside [] after f = ground arith
has_fd-inside (g ∷ before) after f = ground (arith, has_fd-inside before after f)

get_file_by_fd-inside :
    (before after : List MemFile) (f : MemFile)
    → Distinct (before ++ (f ∷ after))
    → get_file_by_fd f.fd (before ++ (f ∷ after)) ≡ some f
unfolding get_file_by_fd
get_file_by_fd-inside [] after f h = let same : (f.fd == f.fd) ≡ true = ground arith in rw same refl
get_file_by_fd-inside (g ∷ before) after f h = elim (Bool-cases (g.fd == f.fd)) [
  | inl t ↦
      let same : g.fd ≡ f.fd = ground (arith, t) in
      let here =
        ap (λ (j : ℕ). has_fd j (before ++ (f ∷ after))) same ∙ has_fd-inside before after f in
      absurd (ground (arith, h.0, here))
  | inr n ↦ rw n (get_file_by_fd-inside before after f h.1)
]

-- In any state that creating, deleting and closing files, creating, deleting and renaming directories,
-- and `clear` lead to from an empty file system: a descriptor is in the pool just if one of the files
-- has it, and `getFile` with the descriptor of any of the files gives that file and no other.
pub get_file_by_fd-Lives :
    (fs : FileSystem) (before after : List MemFile) (f : MemFile) (k : ℕ)
    → Lives fs
    → fs.files ≡ before ++ (f ∷ after)
    → (contains fs.pool k ≡ has_fd k fs.files) × (get_file_by_fd f.fd fs.files ≡ some f)
get_file_by_fd-Lives fs before after f k l e =
    let m = Lives-Matches l in
    (
      m.in_use k,
      ap (get_file_by_fd f.fd) e
          ∙ get_file_by_fd-inside before after f (subst Distinct e m.distinct),
    )
