-- ===== src/MemFile.antt =====
-- jni/leveldb/util/filesystem/VirtualMemFile.cpp: a file in memory. `contents` is the first
-- `_fileLength` bytes of `_fileContent`, and `cap` the size of the block that `malloc` gave. The
-- mutex and the allocation's success are left out. As on the one ABI that jni/Application.mk
-- builds, `size_t` and a pointer have 32 bits: `sizeof(_fileContent)` is 4.

pub mod Room
pub mod Inv
pub mod Contents
mod Tests
use leveldblib.Prelude.{
  ℕ, zero, suc, ◌+◌, ◌-◌, ◌*◌, ◌%◌, ◌^◌, Bool, true, false, Option, none, some, List, [], ◌++◌,
  length, take, drop, leb, ltb, if◌then◌else◌,
}
use leveldblib.PathParser.{FilePath, Parts, parse_file_path}
use leveldblib.FdManager.{FdPool, alloc_fd}

pub record MemFile : Type 0 where
  pub path : Parts
  pub contents : List ℕ
  pub cap : ℕ
  pub file_pos : ℕ
  pub fd : ℕ

abbrev pub sizeof_pointer : ℕ
sizeof_pointer = 4

-- `size_t` arithmetic
abbrev pub add_size : ℕ → ℕ → ℕ
add_size a b = (a + b) % 2 ^ 32

abbrev pub sub_size : ℕ → ℕ → ℕ
sub_size a b = (a + 2 ^ 32 - b) % 2 ^ 32

-- The constructor, with the pool of descriptors; a path that does not parse leaves the directory
-- empty.
unfoldable pub open_new : FilePath → FdPool → MemFile × FdPool
open_new path pool =
    let (fd, pool') = alloc_fd pool in
    let (parsed, parts) = parse_file_path path (record { dir = []; name = [] }) in
    (record { path = parts; contents = []; cap = 64; file_pos = 0; fd = fd }, pool')

unfoldable pub rename : FilePath → MemFile → MemFile
rename path f = record f { path = (parse_file_path path f.path).1 }

unfoldable pub get_file_size : MemFile → ℕ
get_file_size f = length f.contents

-- `n` is a `uint64_t`, and so is the sum.
unfoldable pub skip : ℕ → MemFile → Bool × MemFile
unfolding get_file_size
skip n f =
    let at = (f.file_pos + n) % 2 ^ 64 in
    if leb (get_file_size f) at then (false, f) else (true, record f { file_pos = at % 2 ^ 32 })

unfoldable pub seek : ℕ → MemFile → Bool × MemFile
unfolding get_file_size
seek n f = if leb (get_file_size f) n then (false, f) else (true, record f { file_pos = n })

-- `if (len + pos > getFileSize()) len = getFileSize() - pos;`, and a `size_t` is never negative.
unfoldable pub clipped : ℕ → ℕ → ℕ → ℕ
clipped size pos len = if ltb size (add_size len pos) then sub_size size pos else len

-- `read(result, len)`: the count, the slice and the file. A slice that reaches past the contents,
-- which C++ leaves undefined, is cut off there.
unfoldable pub read : ℕ → MemFile → ℕ × List ℕ × MemFile
unfolding get_file_size
read len f =
    let n = clipped (get_file_size f) f.file_pos len in
    (n, take n (drop f.file_pos f.contents), record f { file_pos = add_size f.file_pos n })

-- `read(result, pos, len)`
unfoldable pub read_at : ℕ → ℕ → MemFile → ℕ × List ℕ × MemFile
unfolding get_file_size
read_at pos len f =
    let n = clipped (get_file_size f) pos len in
    (n, take n (drop pos f.contents), record f { file_pos = add_size pos n })

-- `while (newSize < need) newSize *= 2`
unfoldable pub doubled : ℕ → ℕ → ℕ → ℕ
doubled zero need size = size
doubled (suc fuel) need size =
    let rest = doubled fuel need (size * 2) in if ltb size need then rest else size

-- The new block has the capacity asked for. `need` rounds are enough, since the size doubles.
unfoldable pub alloc_memory : ℕ → MemFile → MemFile
unfolding get_file_size doubled
alloc_memory write_len f =
    let need = get_file_size f + write_len in
    if ltb need sizeof_pointer then f else record f { cap = doubled need need (sizeof_pointer * 2) }

-- `write(result, len)` appends.
unfoldable pub write : List ℕ → MemFile → MemFile
write bytes f =
    let g = alloc_memory (length bytes) f in
    let out = g.contents ++ bytes in record g { contents = out; file_pos = length out }

-- `write(pos, len, result)`; `none` is a `memcpy` that leaves the block.
unfoldable pub write_at : ℕ → List ℕ → MemFile → Option (Bool × MemFile)
unfolding get_file_size
write_at pos bytes f =
    let asks = ltb sizeof_pointer (add_size f.file_pos (length bytes)) in
    let g = if asks then alloc_memory (length bytes) f else f in
    let out = take pos g.contents ++ (bytes ++ drop (pos + length bytes) g.contents) in
    if ltb (get_file_size f) pos
    then some (false, f)
    else if leb (pos + length bytes) g.cap
    then some (true, record g { contents = out; file_pos = pos + length bytes })
    else none

unfoldable pub close : MemFile → MemFile
close f = record f { file_pos = 0 }

unfoldable pub clean : MemFile → MemFile
clean f = record f { file_pos = 0; contents = [] }
