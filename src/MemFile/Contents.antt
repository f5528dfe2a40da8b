-- ===== src/MemFile/Contents.antt =====
-- jni/leveldb/util/filesystem/VirtualMemFile.cpp: what reads return after writes.
use leveldblib.Prelude.{
  ℕ, ◌+◌, ◌-◌, ◌^◌, ◌<◌, ◌≤◌, ◌≡◌, refl, ap, ◌∙◌, true, some, List, ◌++◌, length, max, take, drop,
  min, arith, length-append, take-length-append, drop-length-append, drop-take-append,
  take_of_length-le,
}
use leveldblib.MemFile.{MemFile, read, read_at, write, write_at, get_file_size, add_size}
use leveldblib.MemFile.Room.{
  IsValid, max_size, clipped_lem, alloc_memory_lem, length-write_at, HasRoom, write_at_lem,
}

-- A read inside a valid file gives the bytes asked for, as far as there are any, moves the position
-- behind them, and changes nothing else.
pub read_lem :
    (len : ℕ) {f : MemFile}
    → IsValid f
    → len < 2 ^ 31
    → let n = min len (length f.contents - f.file_pos) in
      read len f ≡ (n, take n (drop f.file_pos f.contents), record f { file_pos = f.file_pos + n })
unfolding read get_file_size
read_lem len {f} v h =
    let e = clipped_lem (length f.contents) f.file_pos len v.small v.at_most h in
    let n = min len (length f.contents - f.file_pos) in
    let s : add_size f.file_pos n ≡ f.file_pos + n = omega arith in
    rw e (ap (λ (p : ℕ). (n, take n (drop f.file_pos f.contents), record f { file_pos = p })) s)

-- In a valid file that stays below 2 ^ 30 bytes, appended bytes come back from a read at the
-- former end, and the bytes before them stay.
pub read_at-write :
    (bytes : List ℕ) {f : MemFile}
    → IsValid f
    → length f.contents + length bytes < max_size
    → ((write bytes f).contents ≡ f.contents ++ bytes)
      × ((read_at (length f.contents) (length bytes) (write bytes f)).0 ≡ length bytes)
      × ((read_at (length f.contents) (length bytes) (write bytes f)).1 ≡ bytes)
unfolding write read_at get_file_size
read_at-write bytes {f} v h =
    let room = alloc_memory_lem (length bytes) f v.block in
    let size = length (f.contents ++ bytes) in
    let e =
      clipped_lem size (length f.contents) (length bytes)
        (omega (arith, length-append f.contents bytes))
        (omega (arith, length-append f.contents bytes)) (omega arith) in
    let n : min (length bytes) (size - length f.contents) ≡ length bytes =
      omega (arith, length-append f.contents bytes) in
    rw (room.2, e, n, drop-length-append f.contents bytes)
      (refl, refl, take_of_length-le (length bytes) bytes (omega arith))

read_at-eq :
    (pos : ℕ) (bytes : List ℕ) (g : MemFile) (xs rest : List ℕ)
    → pos ≤ length xs
    → g.contents ≡ take pos xs ++ (bytes ++ rest)
    → length g.contents < max_size
    → pos + length bytes ≤ length g.contents
    → ((read_at pos (length bytes) g).0 ≡ length bytes) × ((read_at pos (length bytes) g).1 ≡ bytes)
unfolding read_at get_file_size
read_at-eq pos bytes g xs rest p e small room =
    let c = clipped_lem (length g.contents) pos (length bytes) small (omega arith) (omega arith) in
    let n : min (length bytes) (length g.contents - pos) ≡ length bytes = omega arith in
    (c ∙ n, rw (c, n, e, drop-take-append pos xs (bytes ++ rest) p) (take-length-append bytes rest))

-- In a valid file that stays below 2 ^ 30 bytes, bytes written at a position inside the file that
-- fit its block, or for which it asks for memory since its own position and the length are more than 4
-- together: the write reports success, the bytes come back from a read there, the bytes before and
-- behind them stay, and the file stays valid.
pub read_at-write_at :
    (pos : ℕ) (bytes : List ℕ) {f : MemFile}
    → IsValid f
    → pos ≤ length f.contents
    → length f.contents + length bytes < max_size
    → HasRoom pos bytes f
    → (g : MemFile) × (write_at pos bytes f ≡ some (true, g))
      × (g.contents ≡ take pos f.contents ++ (bytes ++ drop (pos + length bytes) f.contents))
      × ((read_at pos (length bytes) g).0 ≡ length bytes)
      × ((read_at pos (length bytes) g).1 ≡ bytes)
      × IsValid g
read_at-write_at pos bytes {f} v p h room =
    let (g, done, e, vg) = write_at_lem pos bytes v p h room in
    let l : length g.contents ≡ max (length f.contents) (pos + length bytes) =
      ap length e ∙ length-write_at pos bytes f.contents p in
    let rest = drop (pos + length bytes) f.contents in
    let (n, r) = read_at-eq pos bytes g f.contents rest p e (omega arith) (omega arith) in
    (g, done, e, n, r, vg)
