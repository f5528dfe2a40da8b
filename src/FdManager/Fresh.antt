-- ===== src/FdManager/Fresh.antt =====
-- jni/leveldb/util/filesystem/fdmanager.cpp: the loop of `allocFd` ends at the least descriptor that
-- is free, and a recycled descriptor is free again.
use leveldblib.Prelude.{
  ℕ, zero, suc, ◌+◌, ◌<◌, ◌≤◌, ◌≡◌, refl, true, false, ◌||◌, [], ◌∷◌, length, ltb, leb, ◌==◌,
  if◌then◌else◌, arith, ℕ_discrete, Bool-cases, inl, inr,
}
use leveldblib.FdManager.{FdPool, contains, next_free, alloc_fd, recycle_fd}

-- The members of the pool from `lo` on, and how many they are.
count_from : ℕ → FdPool → ℕ
count_from lo [] = 0
count_from lo (x ∷ pool) = (if leb lo x then 1 else 0) + count_from lo pool

count_from-le : (lo : ℕ) (pool : FdPool) → count_from lo pool ≤ length pool
unfolding count_from
count_from-le lo [] = omega arith
count_from-le lo (x ∷ pool) = ground (arith, count_from-le lo pool)

count_from_mono : (lo : ℕ) (pool : FdPool) → count_from (lo + 1) pool ≤ count_from lo pool
unfolding count_from
count_from_mono lo [] = omega arith
count_from_mono lo (x ∷ pool) = ground (arith, count_from_mono lo pool)

count_from-suc :
    (lo : ℕ) (pool : FdPool)
    → contains pool lo ≡ true
    → count_from (lo + 1) pool < count_from lo pool
unfolding count_from contains
count_from-suc lo [] h = absurd (ground arith)
count_from-suc lo (x ∷ pool) h = ground (arith, count_from-suc lo pool, count_from_mono lo pool)

-- With more fuel than members from `fd` on, the loop has stopped by its test.
record Stops (pool : FdPool) (fd out : ℕ) : Type 0 where
  free : contains pool out ≡ false
  from : fd ≤ out
  least : (k : ℕ) → fd ≤ k → k < out → contains pool k ≡ true

next_free-Stops :
    (fuel : ℕ) (pool : FdPool) (fd : ℕ)
    → count_from fd pool < fuel
    → Stops pool fd (next_free fuel pool fd)
unfolding next_free
next_free-Stops zero pool fd h = absurd (omega arith)
next_free-Stops (suc fuel) pool fd h = elim (Bool-cases (contains pool fd)) [
  | inl t ↦
      let ih = next_free-Stops fuel pool (fd + 1) (omega (arith, count_from-suc fd pool t)) in
      rw t (record {
        free = ih.free;
        from = omega (arith, ih.from);
        least =
            λ k p q. elim (ℕ_discrete k fd) [ yes e ↦ rw e t | no ne ↦ ih.least k (omega arith) q ];
      })
  | inr f ↦ rw f (record { free = f; from = omega arith; least = λ k p q. absurd (omega arith) })
]

-- `allocFd` gives a descriptor from 3 on that is not in the pool and adds it, while any descriptor
-- `k` from 3 on that is less than it is in the pool.
pub alloc_fd_lem :
    (pool : FdPool) (k : ℕ)
    → let (fd, pool') = alloc_fd pool in
      (contains pool fd ≡ false)
      × (3 ≤ fd)
      × ((ltb k 3 || (leb fd k || contains pool k)) ≡ true)
      × (contains pool' k ≡ (k == fd || contains pool k))
unfolding alloc_fd contains
alloc_fd_lem pool k =
    let s = next_free-Stops (length pool + 1) pool 3 (omega (arith, count_from-le 3 pool)) in
    (s.free, s.from, ground (arith, s.least k), refl)

-- After `recycleFd` the descriptor is not in the pool, and any other is in it just if it was
-- before.
pub contains-recycle_fd :
    (fd k : ℕ) (pool : FdPool)
    → contains (recycle_fd fd pool) k ≡ (if k == fd then false else contains pool k)
unfolding contains recycle_fd
contains-recycle_fd fd k [] = ground arith
contains-recycle_fd fd k (x ∷ pool) = ground (arith, contains-recycle_fd fd k pool)
