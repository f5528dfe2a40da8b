-- ===== src/FileSystem/Tests.antt =====
-- Runs of the file system in memory of jni/leveldb/util/filesystem/VirtualMemFileSystem.cpp.
use leveldblib.Prelude.{◌≡◌, refl, true, some, [], ◌∷◌}
use leveldblib.PathParser.{
  FilePath, forward, squeeze, format_file_path, last_or, closed, format_dir, find_last_slash,
  split_at, parse_file_path,
}
use leveldblib.MemFile.{MemFile, open_new}
use leveldblib.FileSystem.{
  FileSystem, parsed, same_parts, create_file, delete_file, get_file, is_contain_file,
  get_file_by_fd, has_file, get_children_name,
}
use leveldblib.FileSystem.Files.{contents_of, get_file-create_file}
use leveldblib.FdManager.{contains, alloc_fd}
use leveldblib.FileSystem.Held.{has_fd}
use leveldblib.FileSystem.Descriptors.{started, file_created, get_file_by_fd-Lives}
use leveldblib.FileSystem.Delete.{empty, created, get_file-delete_file}

-- "/a/b" and "/a//c"
abbrev name_b : FilePath
name_b = 47 ∷ 97 ∷ 47 ∷ 98 ∷ []

abbrev name_c : FilePath
name_c = 47 ∷ 97 ∷ 47 ∷ 47 ∷ 99 ∷ []

abbrev nothing : FileSystem
nothing = record { dirs = []; files = []; pool = [] }

abbrev with_b : FileSystem
with_b = (create_file name_b nothing).1

parses_b : (parsed name_b).0 ≡ true
unfolding parse_file_path format_file_path split_at find_last_slash squeeze forward
parses_b = refl

parses_c : (parsed name_c).0 ≡ true
unfolding parse_file_path format_file_path split_at find_last_slash squeeze forward
parses_c = refl

-- "/a"
children :
    get_children_name (47 ∷ 97 ∷ []) (create_file name_c with_b).1
    ≡ (true, (98 ∷ []) ∷ (99 ∷ []) ∷ [])
unfolding get_children_name create_file open_new format_dir closed last_or parse_file_path
    format_file_path split_at find_last_slash squeeze forward
children = refl

get_file-create_file_example :
    let (r, fs') = create_file name_c with_b in
    (f : MemFile) × (r ≡ some f)
    × (f.path ≡ (parsed name_c).1)
    × (f.contents ≡ contents_of (get_file name_c with_b))
    × (get_file name_b fs' ≡ get_file name_b with_b)
unfolding same_parts parse_file_path format_file_path split_at find_last_slash squeeze forward
get_file-create_file_example = get_file-create_file name_c name_b with_b parses_c parses_b

get_file-delete_file_example :
    let (b, fs') = delete_file name_b (create_file name_c with_b).1 in
    (b ≡ is_contain_file name_b (create_file name_c with_b).1)
    × (get_file name_c fs' ≡ get_file name_c (create_file name_c with_b).1)
unfolding same_parts parse_file_path format_file_path split_at find_last_slash squeeze forward
get_file-delete_file_example =
    get_file-delete_file name_b name_c (create_file name_c with_b).1
      (created name_c (created name_b empty)) parses_b parses_c

abbrev two_files : FileSystem
two_files = (create_file name_c with_b).1

-- Its second file.
abbrev file_c : MemFile
file_c = (open_new name_c with_b.pool).0

get_file_by_fd-Lives_example :
    (contains two_files.pool 4 ≡ has_fd 4 two_files.files)
    × (get_file_by_fd file_c.fd two_files.files ≡ some file_c)
unfolding create_file open_new is_contain_file has_file alloc_fd same_parts parse_file_path
    format_file_path split_at find_last_slash squeeze forward
get_file_by_fd-Lives_example =
    get_file_by_fd-Lives two_files with_b.files [] file_c 4
      (file_created name_c (file_created name_b started)) refl
