-- ===== src/FdManager/Tests.antt =====
-- Runs of the descriptor pool of jni/leveldb/util/filesystem/fdmanager.cpp.
use leveldblib.Prelude.{◌≤◌, ◌≡◌, true, false, ◌||◌, [], ◌∷◌, ltb, leb, ◌==◌}
use leveldblib.FdManager.{FdPool, contains, alloc_fd}
use leveldblib.FdManager.Fresh.{alloc_fd_lem}

abbrev pool : FdPool
pool = 4 ∷ 3 ∷ 7 ∷ []

alloc_fd_lem_example :
    let (fd, pool') = alloc_fd pool in
    (contains pool fd ≡ false)
    × (3 ≤ fd)
    × ((ltb 4 3 || (leb fd 4 || contains pool 4)) ≡ true)
    × (contains pool' 4 ≡ (4 == fd || contains pool 4))
alloc_fd_lem_example = alloc_fd_lem pool 4
