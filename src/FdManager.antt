-- ===== src/FdManager.antt =====
-- jni/leveldb/util/filesystem/fdmanager.cpp: the pool of descriptors in use. The set is the list of
-- its members.
pub mod Fresh
mod Tests
use leveldblib.Prelude.{
  ℕ, zero, suc, ◌+◌, Bool, false, ◌||◌, List, [], ◌∷◌, length, ◌==◌, if◌then◌else◌,
}

abbrev pub FdPool : Type 0
FdPool = List ℕ

unfoldable pub contains : FdPool → ℕ → Bool
contains [] fd = false
contains (x ∷ pool) fd = fd == x || contains pool fd

-- The `while` loop. One round more than the pool has members is enough fuel.
unfoldable pub next_free : ℕ → FdPool → ℕ → ℕ
next_free zero pool fd = fd
next_free (suc fuel) pool fd =
    let rest = next_free fuel pool (fd + 1) in if contains pool fd then rest else fd

unfoldable pub alloc_fd : FdPool → ℕ × FdPool
alloc_fd pool = let fd = next_free (length pool + 1) pool 3 in (fd, fd ∷ pool)

unfoldable pub recycle_fd : ℕ → FdPool → FdPool
recycle_fd fd [] = []
recycle_fd fd (x ∷ pool) = let rest = recycle_fd fd pool in if fd == x then rest else x ∷ rest
