-- ===== src/MemFile/Room.antt =====
-- jni/leveldb/util/filesystem/VirtualMemFile.cpp: valid files, what `allocMemory` gives, and the write at
-- a position, which is the one that can leave the block.
use leveldblib.Prelude.{
  ℕ, zero, suc, ◌+◌, ◌-◌, ◌*◌, ◌%◌, ◌^◌, ◌<◌, ◌≤◌, ◌≡◌, ◌⊎◌, min, max, refl, Bool-cases, inl, inr,
  leb, ltb, ◌↔◌, none, some, true, false, List, ◌++◌, length, take, drop, arith, none-ne-some, sym,
  length-append, length-take, length-drop,
}
use leveldblib.MemFile.{MemFile, clipped, doubled, alloc_memory, write_at, get_file_size}

-- Sizes stay below the `int` in which `allocMemory` doubles.
abbrev pub max_size : ℕ
max_size = 2 ^ 30

pub record IsValid (f : MemFile) : Type 0 where
  pub inside : length f.contents ≤ f.cap
  pub at_most : f.file_pos ≤ length f.contents
  pub block : 8 ≤ f.cap
  pub small : length f.contents < max_size

pub clipped_lem :
    (size pos len : ℕ)
    → size < max_size
    → pos ≤ size
    → len < 2 ^ 31
    → clipped size pos len ≡ min len (size - pos)
unfolding clipped
clipped_lem size pos len h p q = ground arith

doubled-ge : (fuel need size : ℕ) → need ≤ size + fuel → 0 < size → need ≤ doubled fuel need size
unfolding doubled
doubled-ge zero need size h p = omega arith
doubled-ge (suc fuel) need size h p = ground (arith, doubled-ge fuel need (size * 2))

doubled_mono : (fuel need size : ℕ) → size ≤ doubled fuel need size
unfolding doubled
doubled_mono zero need size = omega arith
doubled_mono (suc fuel) need size = ground (arith, doubled_mono fuel need (size * 2))

-- What `allocMemory` leaves: room for the bytes to come, and all else as it was.
pub alloc_memory_lem :
    (n : ℕ) (f : MemFile)
    → 8 ≤ f.cap
    → (length f.contents + n ≤ (alloc_memory n f).cap)
      × (8 ≤ (alloc_memory n f).cap)
      × ((alloc_memory n f).contents ≡ f.contents)
      × ((alloc_memory n f).file_pos ≡ f.file_pos)
unfolding alloc_memory get_file_size
alloc_memory_lem n f h = ground (
  arith,
  doubled-ge (length f.contents + n) (length f.contents + n) 8,
  doubled_mono (length f.contents + n) (length f.contents + n) 8,
)

pub length-write_at :
    (pos : ℕ) (bytes contents : List ℕ)
    → pos ≤ length contents
    → length (take pos contents ++ (bytes ++ drop (pos + length bytes) contents))
      ≡ max (length contents) (pos + length bytes)
length-write_at pos bytes contents h = omega (
  arith,
  length-append (take pos contents) (bytes ++ drop (pos + length bytes) contents),
  length-append bytes (drop (pos + length bytes) contents),
  length-take pos contents,
  length-drop (pos + length bytes) contents,
)

-- The write at a position keeps to the block if the file's position makes it ask for memory, or if
-- the bytes fit the block already.
abbrev pub HasRoom : ℕ → List ℕ → MemFile → Type 0
HasRoom pos bytes f = (4 < f.file_pos + length bytes) ⊎ (pos + length bytes ≤ f.cap)

pub write_at_lem :
    (pos : ℕ) (bytes : List ℕ) {f : MemFile}
    → IsValid f
    → pos ≤ length f.contents
    → length f.contents + length bytes < max_size
    → HasRoom pos bytes f
    → (g : MemFile) × (write_at pos bytes f ≡ some (true, g))
      × (g.contents ≡ take pos f.contents ++ (bytes ++ drop (pos + length bytes) f.contents))
      × IsValid g
unfolding write_at get_file_size
write_at_lem pos bytes {f} v p h room =
    let (big, block, contents, _) = alloc_memory_lem (length bytes) f v.block in
    let inside : ltb (length f.contents) pos ≡ false = ground (arith, p) in
    let l = length-write_at pos bytes f.contents p in
    elim (Bool-cases (ltb 4 ((f.file_pos + length bytes) % 2 ^ 32))) [
      | inl t ↦
          let fits : leb (pos + length bytes) (alloc_memory (length bytes) f).cap ≡ true =
            ground (arith, big, p) in
          (
            record (alloc_memory (length bytes) f) {
              contents = take pos f.contents ++ (bytes ++ drop (pos + length bytes) f.contents);
              file_pos = pos + length bytes;
            },
            rw (t, inside, fits, contents) refl,
            refl,
            record {
              inside = omega (arith, l, big, p);
              at_most = omega (arith, l);
              block = block;
              small = omega (arith, l, p, h);
            },
          )
      | inr n ↦
          let small : pos + length bytes ≤ f.cap = ground (arith, room, n, v.at_most, v.small, h) in
          let fits : leb (pos + length bytes) f.cap ≡ true = ground (arith, small) in
          (
            record f {
              contents = take pos f.contents ++ (bytes ++ drop (pos + length bytes) f.contents);
              file_pos = pos + length bytes;
            },
            rw (n, inside, fits) refl,
            refl,
            record {
              inside = omega (arith, l, small, v.inside);
              at_most = omega (arith, l);
              block = v.block;
              small = omega (arith, l, p, h);
            },
          )
    ]

-- In a valid file that stays below 2 ^ 30 bytes, a write at a position inside the contents leaves
-- the block, which is undefined, exactly where its bytes pass the end of the block and the file's own
-- position and the length are at most 4 together.
pub write_at-eq-none :
    (pos : ℕ) (bytes : List ℕ) {f : MemFile}
    → IsValid f
    → pos ≤ length f.contents
    → length f.contents + length bytes < max_size
    → (write_at pos bytes f ≡ none)
      ↔ ((f.file_pos + length bytes ≤ 4) × (f.cap < pos + length bytes))
unfolding write_at get_file_size
write_at-eq-none pos bytes {f} v p h =
    let big = (alloc_memory_lem (length bytes) f v.block).0 in
    let inside : ltb (length f.contents) pos ≡ false = ground (arith, p) in
    elim (Bool-cases (ltb 4 ((f.file_pos + length bytes) % 2 ^ 32))) [
      | inl t ↦
          let fits : leb (pos + length bytes) (alloc_memory (length bytes) f).cap ≡ true =
            ground (arith, big, p) in
          rw (t, inside, fits)
            (λ e. absurd (none-ne-some _ (sym e)), λ b. absurd (ground (arith, t, b)))
      | inr n ↦
          let low : f.file_pos + length bytes ≤ 4 = ground (arith, n, v.at_most, v.small, h) in
          elim (Bool-cases (leb (pos + length bytes) f.cap)) [
            | inl fits ↦
                rw (n, inside, fits)
                  (λ e. absurd (none-ne-some _ (sym e)), λ b. absurd (ground (arith, fits, b)))
            | inr out ↦ rw (n, inside, out) (λ e. (low, ground (arith, out)), λ b. refl)
          ]
    ]
