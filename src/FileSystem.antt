-- ===== src/FileSystem.antt =====
-- The directories and files in memory of jni/leveldb/util/filesystem/VirtualMemFileSystem.cpp. The
-- set of directories is the list of its members, the vector of file pointers the list of the files
-- in its order, and a pointer that a method returns is the file it points to. The descriptors that
-- the files take come from one pool.
pub mod Names
pub mod Files
pub mod Once
pub mod Delete
pub mod Held
pub mod Descriptors
mod Tests
use leveldblib.Prelude.{
  ℕ, Bool, true, false, ◌&&◌, Option, none, some, List, [], ◌∷◌, ◌++◌, map, ◌==◌, if◌then◌else◌,
}
use leveldblib.PathParser.{FilePath, Parts, format_dir, parse_file_path}
use leveldblib.FdManager.{FdPool, recycle_fd}
use leveldblib.MemFile.{MemFile, open_new, seek, close}

-- `==` of two `std::string`
unfoldable pub same_bytes : FilePath → FilePath → Bool
same_bytes [] [] = true
same_bytes [] (b ∷ bs) = false
same_bytes (a ∷ as') [] = false
same_bytes (a ∷ as') (b ∷ bs) = let rest = same_bytes as' bs in a == b && rest

-- `getDirName() == _filePath && getFileName() == _fileName`
unfoldable pub same_parts : Parts → Parts → Bool
unfolding same_bytes
same_parts p q = same_bytes p.dir q.dir && same_bytes p.name q.name

pub record FileSystem : Type 0 where
  pub dirs : List FilePath
  pub files : List MemFile
  pub pool : FdPool

unfoldable pub has_dir : FilePath → List FilePath → Bool
unfolding same_bytes
has_dir d [] = false
has_dir d (e ∷ dirs) = let rest = has_dir d dirs in if same_bytes e d then true else rest

unfoldable pub erase_dir : FilePath → List FilePath → List FilePath
unfolding same_bytes
erase_dir d [] = []
erase_dir d (e ∷ dirs) = let rest = erase_dir d dirs in if same_bytes e d then rest else e ∷ rest

unfoldable pub insert_dir : FilePath → List FilePath → List FilePath
unfolding has_dir
insert_dir d dirs = if has_dir d dirs then dirs else d ∷ dirs

unfoldable pub is_contain_dir : FilePath → FileSystem → Bool
unfolding has_dir
is_contain_dir name fs = elim (format_dir name) [ none ↦ false | some d ↦ has_dir d fs.dirs ]

-- `createDir` formats the name twice, since `isContainDir` does too.
unfoldable pub create_dir : FilePath → FileSystem → Bool × FileSystem
unfolding is_contain_dir insert_dir
create_dir name fs = elim (format_dir name) [
  | none ↦ (false, fs)
  | some d ↦
      if is_contain_dir d fs then (false, fs) else (true, record fs { dirs = insert_dir d fs.dirs })
]

-- The loop of `deleteDir`, with the pool: it compares with the name as it was given.
unfoldable pub delete_files_in : FilePath → FdPool → List MemFile → FdPool × List MemFile
unfolding same_bytes
delete_files_in d pool [] = (pool, [])
delete_files_in d pool (f ∷ files) =
    let gone = delete_files_in d (recycle_fd f.fd pool) files in
    let (pool', kept) = delete_files_in d pool files in
    if same_bytes f.path.dir d then gone else (pool', f ∷ kept)

unfoldable pub delete_dir : FilePath → FileSystem → Bool × FileSystem
unfolding delete_files_in has_dir erase_dir
delete_dir name fs = elim (format_dir name) [
  | none ↦ (false, fs)
  | some d ↦
      let (pool, files) = delete_files_in name fs.pool fs.files in
      if has_dir d fs.dirs
      then (true, record { dirs = erase_dir d fs.dirs; files = files; pool = pool })
      else (false, record { dirs = fs.dirs; files = files; pool = pool })
]

-- `getChildrenName`: the `bool`, and `result`; its second parameter is not used.
unfoldable pub names_in : FilePath → List MemFile → List FilePath
unfolding same_bytes
names_in d [] = []
names_in d (f ∷ files) =
    let rest = names_in d files in if same_bytes f.path.dir d then f.path.name ∷ rest else rest

unfoldable pub get_children_name : FilePath → FileSystem → Bool × List FilePath
unfolding is_contain_dir names_in
get_children_name name fs =
    if is_contain_dir name fs
    then (elim (format_dir name) [ none ↦ (false, []) | some d ↦ (true, names_in d fs.files) ])
    else (false, [])

-- `renameDir`: the old directory is gone even if the new name has no format.
unfoldable pub rename_dir : FilePath → FilePath → FileSystem → FileSystem
unfolding has_dir erase_dir insert_dir
rename_dir origin name fs = elim (format_dir origin) [
  | none ↦ fs
  | some d ↦
      let rest = erase_dir d fs.dirs in
      if has_dir d fs.dirs
      then (elim (format_dir name) [
        | none ↦ record fs { dirs = rest }
        | some e ↦ record fs { dirs = insert_dir e rest }
      ])
      else fs
]

-- `parseFilePath` with the out parameters `_filePath` and `_fileName`, which are empty before.
abbrev pub parsed : FilePath → Bool × Parts
parsed name = parse_file_path name (record { dir = []; name = [] })

unfoldable pub find_file : Parts → List MemFile → Option MemFile
unfolding same_parts
find_file parts [] = none
find_file parts (f ∷ files) =
    let rest = find_file parts files in if same_parts f.path parts then some f else rest

unfoldable pub get_file : FilePath → FileSystem → Option MemFile
unfolding find_file
get_file name fs = let (ok, parts) = parsed name in if ok then find_file parts fs.files else none

unfoldable pub get_file_by_fd : ℕ → List MemFile → Option MemFile
get_file_by_fd fd [] = none
get_file_by_fd fd (f ∷ files) =
    let rest = get_file_by_fd fd files in if f.fd == fd then some f else rest

unfoldable pub has_file : Parts → List MemFile → Bool
unfolding same_parts
has_file parts [] = false
has_file parts (f ∷ files) =
    let rest = has_file parts files in if same_parts f.path parts then true else rest

unfoldable pub is_contain_file : FilePath → FileSystem → Bool
unfolding has_file
is_contain_file name fs =
    let (ok, parts) = parsed name in if ok then has_file parts fs.files else false

-- `file->seek(0)` on the file that `getFile` found.
unfoldable pub rewind_file : Parts → List MemFile → List MemFile
unfolding same_parts
rewind_file parts [] = []
rewind_file parts (f ∷ files) =
    let rest = rewind_file parts files in
    if same_parts f.path parts then (seek 0 f).1 ∷ files else f ∷ rest

-- `createFile`: the file, and the state.
unfoldable pub create_file : FilePath → FileSystem → Option MemFile × FileSystem
unfolding is_contain_file rewind_file get_file insert_dir
create_file name fs =
    let old = record fs { files = rewind_file (parsed name).1 fs.files } in
    let (f, pool) = open_new name fs.pool in
    if is_contain_file name fs then (get_file name old, old) else (
      some f,
      record { dirs = insert_dir f.path.dir fs.dirs; files = fs.files ++ (f ∷ []); pool = pool },
    )

abbrev pub keep_first : MemFile → Option (MemFile × List MemFile) → Option (MemFile × List MemFile)
keep_first f none = none
keep_first f (some (g, kept)) = some (g, f ∷ kept)

-- The loop of `deleteFile`.
unfoldable pub remove_file : Parts → List MemFile → Option (MemFile × List MemFile)
unfolding same_parts
remove_file parts [] = none
remove_file parts (f ∷ files) =
    let rest = keep_first f (remove_file parts files) in
    if same_parts f.path parts then some (f, files) else rest

-- What `deleteFile` does with the file that its loop found.
abbrev pub without_file : FileSystem → Option (MemFile × List MemFile) → Bool × FileSystem
without_file fs none = (false, fs)
without_file fs (some (f, kept)) =
    (true, record fs { files = kept; pool = recycle_fd f.fd fs.pool })

unfoldable pub delete_file : FilePath → FileSystem → Bool × FileSystem
unfolding remove_file
delete_file name fs =
    let (ok, parts) = parsed name in
    if ok then without_file fs (remove_file parts fs.files) else (false, fs)

unfoldable pub close_all : FileSystem → FileSystem
close_all fs = record fs { files = map close fs.files }

unfoldable pub clear : FileSystem → FileSystem
clear fs = record fs { dirs = [] }
