-- ===== src/Cache/Requests.antt =====
-- The page cache of jni/KvDB/dev_buffer.cpp gives the pages of the file that it was opened on,
-- whatever was asked for before.
use leveldblib.Prelude.{
  ℕ, zero, suc, ◌*◌, ◌^◌, ◌≤◌, ◌<◌, ◌≡◌, inl, refl, sym, ap, subst, ◌∙◌, Option, some, List, [],
  ◌∷◌, length, take, drop, arith,
}
use leveldblib.Order.{All}
use leveldblib.Page.{◌>>=◌}
use leveldblib.Cache.{DevCache, ring_of, init, init_page_map, init_priority_que, get_page_by_no}
use leveldblib.Cache.Coherent.{IsCoherent}
use leveldblib.Cache.Serve.{get_page_by_no-Served}

-- A client's requests in order: the last answer, and the cache.
unfoldable pub request_all : (ℕ → List ℕ) → List ℕ → DevCache → Option DevCache
unfolding get_page_by_no
request_all garbage [] c = some c
request_all garbage (p ∷ ps) c = get_page_by_no garbage p c >>= λ r. request_all garbage ps r.1

pub init-IsCoherent :
    (page_size max_buffer_num : ℕ) (file : List ℕ)
    → 0 < max_buffer_num
    → max_buffer_num < 2 ^ 16
    → (init page_size max_buffer_num file).max_page_num < 2 ^ 16
    → IsCoherent (init page_size max_buffer_num file)
unfolding init init_page_map init_priority_que
init-IsCoherent page_size max_buffer_num file pos few h = record {
  few_pages = h;
  few_buffers = few;
  map_size = omega (arith, h);
  queue_size = refl;
  some_buffer = omega (arith, length-ring_of max_buffer_num, pos);
  in_range = All-ring_of max_buffer_num max_buffer_num (omega arith);
  linked = record { forth = λ p lp. inl refl; back = λ b lb. inl refl };
  loaded = λ b lb. inl refl;
}
  where
    length-ring_of : (n : ℕ) → length (ring_of n) ≡ n
    length-ring_of zero = refl
    length-ring_of (suc n) = omega (arith, length-ring_of n)

    All-ring_of : (n m : ℕ) → n ≤ m → All (λ b. b < m) (ring_of n)
    All-ring_of zero m h = tt
    All-ring_of (suc n) m h = (omega arith, All-ring_of n m (omega arith))

-- Requests for pages that the file has, on a coherent cache.
request_all-IsCoherent :
    (garbage : ℕ → List ℕ) (ps : List ℕ) (c : DevCache)
    → IsCoherent c
    → All (λ p. p < c.max_page_num) ps
    → (c' : DevCache) × (request_all garbage ps c ≡ some c')
      × IsCoherent c'
      × (c'.file ≡ c.file)
      × (c'.page_size ≡ c.page_size)
      × (c'.max_page_num ≡ c.max_page_num)
unfolding request_all
request_all-IsCoherent garbage [] c h a = (c, refl, h, refl, refl, refl)
request_all-IsCoherent garbage (p ∷ ps) c h (lp, a) =
    let (page, c1, e, _, h1, f1, s1, m1) = get_page_by_no-Served garbage c p h lp in
    let (c2, e2, h2, f2, s2, m2) =
      request_all-IsCoherent garbage ps c1 h1 (subst (λ (n : ℕ). All (λ p. p < n) ps) (sym m1) a) in
    (c2, ap (λ o. o >>= λ r. request_all garbage ps r.1) e ∙ e2, h2, f2 ∙ f1, s2 ∙ s1, m2 ∙ m1)

-- For a file of fewer than 2 ^ 31 bytes and 2 ^ 16 pages, and 1 up to 65535 buffers: after `init` and any requests for
-- pages of the file, no request is undefined, and a request for a page of the file gives a buffer
-- that begins with the bytes of that page in the file.
pub get_page_by_no-init :
    (garbage : ℕ → List ℕ) (page_size max_buffer_num : ℕ) (file ps : List ℕ) (p : ℕ)
    → 0 < page_size
    → length file < 2 ^ 31
    → 0 < max_buffer_num
    → max_buffer_num < 2 ^ 16
    → (init page_size max_buffer_num file).max_page_num < 2 ^ 16
    → All (λ p. p < (init page_size max_buffer_num file).max_page_num) (p ∷ ps)
    → (c : DevCache) × (request_all garbage ps (init page_size max_buffer_num file) ≡ some c)
      × (page : List ℕ) × (c' : DevCache) × (get_page_by_no garbage p c ≡ some (some page, c'))
      × (let bytes = take page_size (drop (p * page_size) file) in take (length bytes) page ≡ bytes)
unfolding init
get_page_by_no-init garbage page_size max_buffer_num file ps p whole fseeks pos few h (lp, a) =
    let c0 = init page_size max_buffer_num file in
    let (c, e, i, f, s, m) =
      request_all-IsCoherent garbage ps c0 (init-IsCoherent page_size max_buffer_num file pos few h)
        a in
    let (page, c', e', holds, _, _, _, _) =
      get_page_by_no-Served garbage c p i (omega (arith, lp, m)) in
    (
      c,
      e,
      page,
      c',
      e',
      subst
          (λ (fl : List ℕ).
            let bytes = take page_size (drop (p * page_size) fl) in
            take (length bytes) page ≡ bytes)
          f
          (subst
            (λ (n : ℕ).
              let bytes = take n (drop (p * n) c.file) in take (length bytes) page ≡ bytes)
            s holds),
    )
