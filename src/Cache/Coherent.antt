-- ===== src/Cache/Coherent.antt =====
-- The page cache of jni/KvDB/dev_buffer.cpp gives the pages of the file that it was opened on,
-- whatever was asked for before.
use leveldblib.Prelude.{
  ℕ, ◌*◌, ◌^◌, ◌<◌, ◌≡◌, ◌⊎◌, inl, inr, some, List, [], ◌∷◌, ◌==◌, if◌then◌else◌, length, take,
  drop, arith, Bool-cases,
}
use leveldblib.Order.{All}
use leveldblib.Cache.{DevCache, buffer_null, no_page, update, without, turn, get_page_by_no}

-- The numbers of the buffers of the pages, and of the pages of the buffers, fit each other.
pub record Linked (pages_max buffers_max : ℕ) (pages page_nos : ℕ → ℕ) : Type 0 where
  pub forth :
      (p : ℕ)
      → p < pages_max
      → (pages p ≡ buffer_null) ⊎ ((pages p < buffers_max) × (page_nos (pages p) ≡ p))
  pub back :
      (b : ℕ)
      → b < buffers_max
      → (page_nos b ≡ no_page) ⊎ ((page_nos b < pages_max) × (pages (page_nos b) ≡ b))

-- The page map after a page took the buffer `b` from the page `lazy`.
abbrev pub swapped : (ℕ → ℕ) → ℕ → ℕ → ℕ → ℕ → ℕ
swapped pages p b lazy =
    if lazy == no_page then update pages p b else update (update pages p b) lazy buffer_null

pub Linked-swapped :
    (pages_max buffers_max : ℕ) (pages page_nos : ℕ → ℕ) (p b : ℕ)
    → pages_max < 2 ^ 16
    → buffers_max < 2 ^ 16
    → p < pages_max
    → b < buffers_max
    → pages p ≡ buffer_null
    → Linked pages_max buffers_max pages page_nos
    → Linked pages_max buffers_max (swapped pages p b (page_nos b)) (update page_nos b p)
Linked-swapped pages_max buffers_max pages page_nos p b hp hb lp lb n h = record {
  forth = λ r lr. ground (arith, h.forth r lr, h.back b lb, n, hp, hb, lp, lb, lr);
  back = λ c lc. ground (arith, h.back c lc, h.back b lb, n, hp, hb, lp, lb, lc);
}

-- The bytes of a page in the file; the last page may be short.
abbrev pub file_page : DevCache → ℕ → List ℕ
file_page c p = take c.page_size (drop (p * c.page_size) c.file)

-- A buffer begins with the bytes of a page.
abbrev pub Holds : DevCache → ℕ → List ℕ → Type 0
Holds c p page = take (length (file_page c p)) page ≡ file_page c p

pub record IsCoherent (c : DevCache) : Type 0 where
  pub few_pages : c.max_page_num < 2 ^ 16
  pub few_buffers : c.max_buffer_num < 2 ^ 16
  pub map_size : c.page_map.max_page_num ≡ c.max_page_num
  pub queue_size : c.priority_que.elem_num ≡ c.max_buffer_num
  pub some_buffer : 0 < length c.priority_que.ring
  pub in_range : All (λ b. b < c.max_buffer_num) c.priority_que.ring
  pub linked : Linked c.max_page_num c.max_buffer_num c.page_map.pages c.priority_que.page_nos
  pub loaded :
      (b : ℕ)
      → b < c.max_buffer_num
      → (c.priority_que.page_nos b ≡ no_page)
        ⊎ ((page : List ℕ) × (c.buffers b ≡ some page) × Holds c (c.priority_que.page_nos b) page)

pub All-without : (P : ℕ → Type 0) (b : ℕ) (xs : List ℕ) → All P xs → All P (without b xs)
unfolding without
All-without P b [] h = tt
All-without P b (x ∷ xs) h = elim (Bool-cases (x == b)) [
  | inl t ↦ rw t (All-without P b xs h.1)
  | inr f ↦ rw f (h.0, All-without P b xs h.1)
]

pub All-turn :
    (P : ℕ → Type 0) (x : ℕ) (xs : List ℕ) → P x → All P xs → P (turn x xs).0 × All P (turn x xs).1
unfolding turn
All-turn P x [] p h = (p, tt)
All-turn P x (y ∷ ys) p h = let (l, f) = All-turn P y ys h.0 h.1 in (l, (p, f))

-- What a request for a page of the file gives.
abbrev pub Served : (ℕ → List ℕ) → ℕ → DevCache → Type 0
Served garbage p c =
    (page : List ℕ) × (c' : DevCache) × (get_page_by_no garbage p c ≡ some (some page, c'))
    × Holds c p page
    × IsCoherent c'
    × (c'.file ≡ c.file)
    × (c'.page_size ≡ c.page_size)
    × (c'.max_page_num ≡ c.max_page_num)
