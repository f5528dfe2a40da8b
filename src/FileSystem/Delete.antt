-- ===== src/FileSystem/Delete.antt =====
-- jni/leveldb/util/filesystem/VirtualMemFileSystem.cpp: deleting a file, in the states that a client
-- gets to.
use leveldblib.Prelude.{
  ℕ, true, false, ◌&&◌, ◌≡◌, refl, sym, ap, subst, Option, none, some, List, [], ◌∷◌, if◌then◌else◌,
  arith, Bool-cases, inl, inr,
}
use leveldblib.PathParser.{
  FilePath, Parts, slash, last_or, split_at, find_last_slash, format_file_path, parse_formatted,
  parse_file_path,
}
use leveldblib.PathParser.Parse.{parse_file_path-Divides}
use leveldblib.MemFile.{MemFile, open_new}
use leveldblib.FileSystem.{
  FileSystem, same_bytes, same_parts, find_file, has_file, remove_file, parsed, without_file,
  get_file, is_contain_file, create_file, delete_file,
}
use leveldblib.FileSystem.Names.{same_parts-eq}
use leveldblib.FileSystem.Files.{open_new-path}
use leveldblib.FileSystem.Once.{
  Once, Once-append, Once-rewind, find_file_of_absent, Removed, remove_file-Removed,
}

-- The states that a client gets to by creating and deleting files in an empty file system.
pub data Reach : FileSystem → Type 0 where
  empty : Reach (record { dirs = []; files = []; pool = [] })
  created : (name : FilePath) {fs : FileSystem} → Reach fs → Reach (create_file name fs).1
  deleted : (name : FilePath) {fs : FileSystem} → Reach fs → Reach (delete_file name fs).1

-- A name that parses has a directory, and one that does not has none.
parsed-dir : (name : FilePath) → (parsed name).0 ≡ true → same_bytes [] (parsed name).1.dir ≡ false
unfolding same_bytes last_or
parsed-dir name ok =
    let (out, e, d) = parse_file_path-Divides name (record { dir = []; name = [] }) ok in
    has_dir_byte (parsed name).1.dir d.dir_closed
  where
    has_dir_byte : (dir : FilePath) → last_or dir 0 ≡ slash → same_bytes [] dir ≡ false
    has_dir_byte [] h = absurd (omega (arith, h))
    has_dir_byte (a ∷ dir) h = refl

parsed-no_dir : (name : FilePath) → (parsed name).0 ≡ false → (parsed name).1.dir ≡ []
unfolding parse_file_path parse_formatted split_at
parsed-no_dir name h = formatted (format_file_path name) h
  where
    before : Parts
    before = record { dir = []; name = [] }

    divided :
        (out : FilePath) (o : Option ℕ)
        → (split_at out before o).0 ≡ false
        → (split_at out before o).1.dir ≡ []
    divided out none h = refl
    divided out (some i) h = absurd (ground (arith, h))

    formatted :
        (o : Option FilePath)
        → (parse_formatted before o).0 ≡ false
        → (parse_formatted before o).1.dir ≡ []
    formatted none h = refl
    formatted (some out) h = divided out (find_last_slash out) h

Once-create_file :
    (name : FilePath) (fs : FileSystem) (p : Parts)
    → same_bytes [] p.dir ≡ false
    → Once p fs.files
    → Once p (create_file name fs).1.files
unfolding create_file is_contain_file same_parts
Once-create_file name fs p d h =
    let parts = (parsed name).1 in
    let f = (open_new name fs.pool).0 in
    let e : same_parts f.path p ≡ same_parts parts p =
      ap (λ (x : Parts). same_parts x p) (open_new-path name fs.pool) in
    elim (Bool-cases (parsed name).0) [
      | inl ok ↦ elim (Bool-cases (has_file parts fs.files)) [
        | inl t ↦ rw (ok, t) (Once-rewind p parts fs.files h)
        | inr n ↦
            let fresh : (same_parts f.path p && has_file p fs.files) ≡ false =
              elim (Bool-cases (same_parts parts p)) [
                | inl s ↦
                    rw (e, s)
                      (subst (λ (x : Parts). has_file x fs.files ≡ false) (same_parts-eq parts p s)
                        n)
                | inr s ↦ rw (e, s) refl
              ] in
            rw (ok, n) (Once-append p fs.files f h fresh)
      ]
      | inr bad ↦
          let s : same_parts parts p ≡ false = rw (parsed-no_dir name bad, d) refl in
          rw bad (Once-append p fs.files f h (rw (e, s) refl))
    ]

Once-without :
    (fs : FileSystem) (parts p : Parts) (r : Option (MemFile × List MemFile))
    → Removed parts p fs.files r
    → Once p fs.files
    → Once p (without_file fs r).1.files
Once-without fs parts p none a h = h
Once-without fs parts p (some (f, kept)) a h = a.2

Reach-Once :
    {fs : FileSystem} → Reach fs → (p : Parts) → same_bytes [] p.dir ≡ false → Once p fs.files
unfolding delete_file
Reach-Once empty p d = tt
Reach-Once (created name {fs} r) p d = Once-create_file name fs p d (Reach-Once r p d)
Reach-Once (deleted name {fs} r) p d =
    let h = Reach-Once r p d in
    elim (Bool-cases (parsed name).0) [
      | inl ok ↦
          let parts = (parsed name).1 in
          rw ok (
            Once-without fs parts p (remove_file parts fs.files)
              (remove_file-Removed parts p fs.files (Reach-Once r parts (parsed-dir name ok)) h) h)
      | inr bad ↦ rw bad h
    ]

-- In a state that a client gets to by creating and deleting files, and for names that parse:
-- `deleteFile` answers whether there was a file of the name, looking for that name finds nothing
-- afterwards, and looking for any other finds what it found before.
pub get_file-delete_file :
    (name other : FilePath) (fs : FileSystem)
    → Reach fs
    → (parsed name).0 ≡ true
    → (parsed other).0 ≡ true
    → let (b, fs') = delete_file name fs in
      (b ≡ is_contain_file name fs)
      × (get_file other fs'
          ≡ (if same_parts (parsed name).1 (parsed other).1 then none else get_file other fs))
unfolding delete_file get_file is_contain_file
get_file-delete_file name other fs r pn po =
    let parts = (parsed name).1 in
    let others = (parsed other).1 in
    rw (pn, po)
      (answer parts others (remove_file parts fs.files) (
        remove_file-Removed parts others fs.files (Reach-Once r parts (parsed-dir name pn))
          (Reach-Once r others (parsed-dir other po))))
  where
    answer :
        (p q : Parts) (o : Option (MemFile × List MemFile))
        → Removed p q fs.files o
        → ((without_file fs o).0 ≡ has_file p fs.files)
          × (find_file q (without_file fs o).1.files
              ≡ (if same_parts p q then none else find_file q fs.files))
    answer p q none a = (
      sym a,
      elim (Bool-cases (same_parts p q)) [
        | inl t ↦ rw t (
            find_file_of_absent q fs.files
              (subst (λ (x : Parts). has_file x fs.files ≡ false) (same_parts-eq p q t) a))
        | inr n ↦ rw n refl
      ],
    )
    answer p q (some (f, kept)) a = (sym a.0, a.1)
