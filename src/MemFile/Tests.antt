-- ===== src/MemFile/Tests.antt =====
-- Runs of jni/leveldb/util/filesystem/VirtualMemFile.cpp, and its theorems at concrete files.
use leveldblib.Prelude.{
  ℕ, ◌+◌, ◌<◌, ◌≤◌, ◌≡◌, ◌↔◌, inr, none, some, refl, true, false, List, [], ◌∷◌, ◌++◌, length, take,
  drop, replicate, arith,
}
use leveldblib.PathParser.{FilePath}
use leveldblib.MemFile.{
  MemFile, open_new, seek, read, read_at, write, write_at, close, alloc_memory, doubled,
  get_file_size, clipped,
}
use leveldblib.MemFile.Room.{IsValid, write_at-eq-none}
use leveldblib.MemFile.Inv.{here, next, append, shut, Reach-IsValid}
use leveldblib.MemFile.Contents.{read_at-write, read_at-write_at}

abbrev hello : List ℕ
hello = 104 ∷ 101 ∷ 108 ∷ 108 ∷ 111 ∷ []

abbrev file : MemFile
file = record {
  path = record { dir = []; name = [] };
  contents = hello;
  cap = 64;
  file_pos = 0;
  fd = 3;
}

-- A file that fills its block exactly, closed.
abbrev full : MemFile
full = record file { contents = replicate 64 7 }

abbrev path : FilePath
path = b'/' ∷ b'a' ∷ []

write_runs : (write (replicate 20 1) file).cap ≡ 32
unfolding write alloc_memory doubled get_file_size
write_runs = refl

seek_to_end : seek 5 file ≡ (false, file)
unfolding seek get_file_size
seek_to_end = refl

read_runs : (read 9 file).1 ≡ hello
unfolding read clipped get_file_size
read_runs = refl

-- The block that 64 appended bytes leave holds them exactly.
full_is_reachable :
    let g = close (write (replicate 64 7) (record file { contents = [] })) in
    (length g.contents ≡ 64) × (g.cap ≡ 64) × (g.file_pos ≡ 0)
unfolding write close alloc_memory doubled get_file_size
full_is_reachable = (refl, refl, refl)

Reach-IsValid_example : IsValid (close (write hello (open_new path []).0))
unfolding open_new
Reach-IsValid_example = Reach-IsValid path [] (next (next here (append hello (omega arith))) shut)

read_at-write_example :
    ((write hello file).contents ≡ hello ++ hello)
    × ((read_at 5 5 (write hello file)).0 ≡ 5)
    × ((read_at 5 5 (write hello file)).1 ≡ hello)
read_at-write_example = read_at-write hello {f = file} (omega arith) (omega arith)

read_at-write_at_example :
    (g : MemFile) × (write_at 2 (1 ∷ 2 ∷ []) file ≡ some (true, g))
    × (g.contents ≡ take 2 hello ++ (1 ∷ 2 ∷ [] ++ drop (2 + 2) hello))
    × ((read_at 2 2 g).0 ≡ 2)
    × ((read_at 2 2 g).1 ≡ 1 ∷ 2 ∷ [])
    × IsValid g
read_at-write_at_example =
    read_at-write_at 2 (1 ∷ 2 ∷ []) {f = file} (omega arith) (omega arith) (omega arith)
      (inr (omega arith))

write_at-eq-none_example : (write_at 64 (1 ∷ 2 ∷ []) full ≡ none) ↔ ((0 + 2 ≤ 4) × (64 < 64 + 2))
write_at-eq-none_example =
    write_at-eq-none 64 (1 ∷ 2 ∷ []) {f = full} (omega arith) (omega arith) (omega arith)
