-- ===== src/MemFile/Inv.antt =====
-- jni/leveldb/util/filesystem/VirtualMemFile.cpp: every call keeps the contents inside the block, and the
-- position inside the contents.
use leveldblib.Prelude.{
  ℕ, ◌+◌, ◌^◌, ◌<◌, ◌≤◌, ◌≡◌, refl, ltb, some, true, false, List, [], length, arith, some-injective,
  ap, sym, ◌∙◌, length-append,
}
use leveldblib.PathParser.{FilePath}
use leveldblib.FdManager.{FdPool}
use leveldblib.MemFile.{
  MemFile, open_new, skip, seek, read, read_at, alloc_memory, write, write_at, close, clean,
  get_file_size,
}
use leveldblib.MemFile.Room.{
  IsValid, max_size, clipped_lem, alloc_memory_lem, HasRoom, write_at_lem,
}

-- A new file is valid and empty.
pub open_new-IsValid :
    (path : FilePath) (pool : FdPool)
    → IsValid (open_new path pool).0 × ((open_new path pool).0.contents ≡ [])
unfolding open_new
open_new-IsValid path pool = (omega arith, refl)

pub skip-IsValid : (n : ℕ) {f : MemFile} → n < 2 ^ 63 → IsValid f → IsValid (skip n f).1
unfolding skip
skip-IsValid n h v = ground arith

pub seek-IsValid : (n : ℕ) {f : MemFile} → IsValid f → IsValid (seek n f).1
unfolding seek
seek-IsValid n v = ground arith

pub read-IsValid : (len : ℕ) {f : MemFile} → len < 2 ^ 31 → IsValid f → IsValid (read len f).2
unfolding read
read-IsValid len {f} h v = ground (arith, clipped_lem (length f.contents) f.file_pos len)

pub close-IsValid : {f : MemFile} → IsValid f → IsValid (close f)
unfolding close
close-IsValid v = omega arith

pub clean-IsValid : {f : MemFile} → IsValid f → IsValid (clean f)
unfolding clean
clean-IsValid v = omega arith

pub write-IsValid :
    (bytes : List ℕ) {f : MemFile}
    → IsValid f
    → length f.contents + length bytes < max_size
    → IsValid (write bytes f)
unfolding write
write-IsValid bytes {f} v h = ground (
  arith,
  alloc_memory_lem (length bytes) f v.block,
  length-append (alloc_memory (length bytes) f).contents bytes,
)

pub read_at-IsValid :
    (pos len : ℕ) {f : MemFile}
    → pos ≤ length f.contents
    → len < 2 ^ 31
    → IsValid f
    → IsValid (read_at pos len f).2
unfolding read_at
read_at-IsValid pos len {f} p h v = ground (arith, clipped_lem (length f.contents) pos len)

write_at_past-IsValid :
    (pos : ℕ) (bytes : List ℕ) {f g : MemFile}
    → length f.contents < pos
    → write_at pos bytes f ≡ some (false, g)
    → IsValid f
    → IsValid g
unfolding write_at get_file_size
write_at_past-IsValid pos bytes {f} {g} p e v =
    let past : ltb (length f.contents) pos ≡ true = ground (arith, p) in
    rw (← ap (λ r. r.1) (some-injective (false, f) (false, g) (rw past at e))) v

-- The calls of a client that keeps sizes below the limit, and that writes at a position only where
-- the file asks for memory or has it.
pub data Call (f : MemFile) : MemFile → Type 0 where
  skip_to : (n : ℕ) → n < 2 ^ 63 → Call f (skip n f).1
  seek_to : (n : ℕ) → Call f (seek n f).1
  read_next : (len : ℕ) → len < 2 ^ 31 → Call f (read len f).2
  read_from : (pos len : ℕ) → pos ≤ length f.contents → len < 2 ^ 31 → Call f (read_at pos len f).2
  append : (bytes : List ℕ) → length f.contents + length bytes < max_size → Call f (write bytes f)
  put :
      (pos : ℕ) (bytes : List ℕ)
      → pos ≤ length f.contents
      → length f.contents + length bytes < max_size
      → HasRoom pos bytes f
      → {g : MemFile} → write_at pos bytes f ≡ some (true, g)
      → Call f g
  put_past :
      (pos : ℕ) (bytes : List ℕ)
      → length f.contents < pos
      → {g : MemFile} → write_at pos bytes f ≡ some (false, g)
      → Call f g
  shut : Call f (close f)
  empty : Call f (clean f)

pub data Reach (f : MemFile) : MemFile → Type 0 where
  here : Reach f f
  next : {g h : MemFile} → Reach f g → Call g h → Reach f h

Call-IsValid : {f g : MemFile} → Call f g → IsValid f → IsValid g
Call-IsValid (skip_to n h) v = skip-IsValid n h v
Call-IsValid (seek_to n) v = seek-IsValid n v
Call-IsValid (read_next len h) v = read-IsValid len h v
Call-IsValid (read_from pos len p h) v = read_at-IsValid pos len p h v
Call-IsValid (append bytes h) v = write-IsValid bytes v h
Call-IsValid (put pos bytes p h room {g} e) v =
    let (k, done, _, vk) = write_at_lem pos bytes v p h room in
    rw (← ap (λ r. r.1) (some-injective (true, k) (true, g) (sym done ∙ e))) vk
Call-IsValid (put_past pos bytes p e) v = write_at_past-IsValid pos bytes p e v
Call-IsValid shut v = close-IsValid v
Call-IsValid empty v = clean-IsValid v

-- A new file stays valid (contents inside the block, position inside the contents) under any calls
-- that keep it below 2 ^ 30 bytes, that move by less than 2 ^ 63 and read less than 2 ^ 31 bytes, that
-- read at positions inside the file, and that write at a position only where the bytes fit the block or
-- the file asks for memory.
pub Reach-IsValid :
    (path : FilePath) (pool : FdPool) {f : MemFile} → Reach (open_new path pool).0 f → IsValid f
Reach-IsValid path pool here = (open_new-IsValid path pool).0
Reach-IsValid path pool (next r c) = Call-IsValid c (Reach-IsValid path pool r)
