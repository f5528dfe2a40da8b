-- ===== src/FileSystem/Files.antt =====
-- jni/leveldb/util/filesystem/VirtualMemFileSystem.cpp: creating, finding and deleting files by
-- their names and descriptors.
use leveldblib.Prelude.{
  ℕ, true, false, not, ◌≡◌, refl, sym, ap, subst, ◌∙◌, Option, none, some, List, [], ◌∷◌, ◌++◌,
  if◌then◌else◌, arith, Bool-cases, Option-cases, inl, inr,
}
use leveldblib.Order.{is_none}
use leveldblib.PathParser.{FilePath, Parts}
use leveldblib.FdManager.{FdPool}
use leveldblib.MemFile.{MemFile, open_new, seek}
use leveldblib.FileSystem.{
  FileSystem, same_parts, find_file, has_file, rewind_file, parsed, get_file, is_contain_file,
  create_file,
}
use leveldblib.FileSystem.Names.{
  same_parts-eq, has_file-find_file, find_file-append, find_file-append_other, find_file-path,
  find_file-rewind_file, find_file-rewind_other,
}

abbrev pub contents_of : Option MemFile → List ℕ
contents_of none = []
contents_of (some f) = f.contents

pub open_new-path :
    (name : FilePath) (pool : FdPool) → (open_new name pool).0.path ≡ (parsed name).1
unfolding open_new
open_new-path name pool = refl

open_new-contents : (name : FilePath) (pool : FdPool) → (open_new name pool).0.contents ≡ []
unfolding open_new
open_new-contents name pool = refl

pub seek-path : (n : ℕ) (f : MemFile) → (seek n f).1.path ≡ f.path
unfolding seek
seek-path n f = ground arith

seek-contents : (n : ℕ) (f : MemFile) → (seek n f).1.contents ≡ f.contents
unfolding seek
seek-contents n f = ground arith

-- What a call of `createFile` promises, for the name and any other.
abbrev pub Created : Parts → Parts → FileSystem → Option MemFile × FileSystem → Type 0
Created parts other fs (r, fs') =
    (f : MemFile) × (r ≡ some f)
    × (f.path ≡ parts)
    × (f.contents ≡ contents_of (find_file parts fs.files))
    × (find_file other fs'.files
        ≡ (if same_parts parts other then some f else find_file other fs.files))

Created-again :
    (parts other : Parts) (fs : FileSystem) (g : MemFile)
    → find_file parts fs.files ≡ some g
    → let old = record fs { files = rewind_file parts fs.files } in
      Created parts other fs (find_file parts old.files, old)
Created-again parts other fs g h = (
  (seek 0 g).1,
  find_file-rewind_file parts fs.files g h,
  seek-path 0 g ∙ find_file-path parts fs.files g h,
  seek-contents 0 g ∙ ap contents_of (sym h),
  elim (Bool-cases (same_parts parts other)) [
    | inl t ↦ rw t (
        subst (λ (q : Parts). find_file q (rewind_file parts fs.files) ≡ some (seek 0 g).1)
          (same_parts-eq parts other t) (find_file-rewind_file parts fs.files g h))
    | inr e ↦ rw e (find_file-rewind_other other parts fs.files e)
  ],
)

Created-new :
    (parts other : Parts) (fs : FileSystem) (f : MemFile) (dirs : List FilePath) (pool : FdPool)
    → find_file parts fs.files ≡ none
    → f.path ≡ parts
    → f.contents ≡ []
    → Created parts other fs
        (some f, record { dirs = dirs; files = fs.files ++ (f ∷ []); pool = pool })
Created-new parts other fs f dirs pool h p c = (
  f,
  refl,
  p,
  c ∙ ap contents_of (sym h),
  elim (Bool-cases (same_parts parts other)) [
    | inl t ↦
        let q : parts ≡ other = same_parts-eq parts other t in
        let absent : has_file other fs.files ≡ false =
          has_file-find_file other fs.files
          ∙ ap (λ o. not (is_none o)) (subst (λ (q : Parts). find_file q fs.files ≡ none) q h) in
        let t' : same_parts f.path other ≡ true =
          subst (λ (x : Parts). same_parts x other ≡ true) (sym p) t in
        rw t (find_file-append other fs.files f absent ∙ rw t' refl)
    | inr e ↦
        let e' : same_parts f.path other ≡ false =
          subst (λ (x : Parts). same_parts x other ≡ false) (sym p) e in
        rw e (find_file-append_other other fs.files f e')
  ],
)

-- For a name that parses, `createFile` gives a file of that name: an empty one if there was none,
-- else the one there was. Looking for a name that parses then finds that file if it has the same
-- directory and name, and else what was found before.
pub get_file-create_file :
    (name other : FilePath) (fs : FileSystem)
    → (parsed name).0 ≡ true
    → (parsed other).0 ≡ true
    → let (r, fs') = create_file name fs in
      (f : MemFile) × (r ≡ some f)
      × (f.path ≡ (parsed name).1)
      × (f.contents ≡ contents_of (get_file name fs))
      × (get_file other fs'
          ≡ (if same_parts (parsed name).1 (parsed other).1 then some f else get_file other fs))
unfolding create_file get_file is_contain_file
get_file-create_file name other fs pn po =
    let parts = (parsed name).1 in
    elim (Option-cases (find_file parts fs.files)) [
      | inl n ↦
          let absent : has_file parts fs.files ≡ false =
            has_file-find_file parts fs.files ∙ ap (λ o. not (is_none o)) n in
          rw (pn, po, absent)
            (Created-new parts (parsed other).1 fs (open_new name fs.pool).0 fs.dirs
              (open_new name fs.pool).1 n (open_new-path name fs.pool)
              (open_new-contents name fs.pool))
      | inr (g, s) ↦
          let there : has_file parts fs.files ≡ true =
            has_file-find_file parts fs.files ∙ ap (λ o. not (is_none o)) s in
          rw (pn, po, there) (Created-again parts (parsed other).1 fs g s)
    ]
