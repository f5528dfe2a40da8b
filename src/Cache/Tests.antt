-- ===== src/Cache/Tests.antt =====
-- Runs of the page cache of jni/KvDB/dev_buffer.cpp: two buffers, pages of three bytes.
use leveldblib.Prelude.{ℕ, ◌≡◌, some, List, [], ◌∷◌, take, arith}
use leveldblib.Cache.{DevCache, init, get_page_by_no}
use leveldblib.Cache.Requests.{request_all, get_page_by_no-init}

abbrev garbage : ℕ → List ℕ
garbage b = 0 ∷ 0 ∷ 0 ∷ []

abbrev file : List ℕ
file = 1 ∷ 2 ∷ 3 ∷ 4 ∷ 5 ∷ 6 ∷ 7 ∷ 8 ∷ []

get_page_by_no-init_example :
    (c : DevCache) × (request_all garbage (0 ∷ 1 ∷ 0 ∷ 2 ∷ []) (init 3 2 file) ≡ some c)
    × (page : List ℕ) × (c' : DevCache) × (get_page_by_no garbage 1 c ≡ some (some page, c'))
    × (take 3 page ≡ 4 ∷ 5 ∷ 6 ∷ [])
unfolding init
get_page_by_no-init_example =
    get_page_by_no-init garbage 3 2 file (0 ∷ 1 ∷ 0 ∷ 2 ∷ []) 1 (omega arith) (omega arith)
      (omega arith) (omega arith) (omega arith)
      (omega arith, (omega arith, (omega arith, (omega arith, (omega arith, tt)))))
