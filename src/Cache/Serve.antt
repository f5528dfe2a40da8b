-- ===== src/Cache/Serve.antt =====
-- The page cache of jni/KvDB/dev_buffer.cpp: one request on a coherent cache.
use leveldblib.Prelude.{
  ℕ, ◌%◌, ◌^◌, ◌<◌, ◌≡◌, ◌⊎◌, inl, inr, refl, ap, subst, true, false, some, List, [], ◌∷◌, ◌++◌,
  ltb, leb, ◌==◌, if◌then◌else◌, length, drop, arith, Bool-cases, take-length-append,
}
use leveldblib.Order.{All}
use leveldblib.Cache.{
  DevCache, PageMap, PriorityQue, buffer_null, no_page, update, without, turn, get_buffer_no,
  add_page_map, del_page_map, update_priority, get_lazy_buf_no_and_swap_page, page_of,
  download_page, get_page_by_no,
}
use leveldblib.Cache.Coherent.{
  swapped, Linked-swapped, file_page, Holds, IsCoherent, All-without, All-turn, Served,
}

module _ (garbage : ℕ → List ℕ) where
  serve_hit :
      (c : DevCache) (p : ℕ)
      → IsCoherent c
      → p < c.max_page_num
      → c.page_map.pages p < c.max_buffer_num
      → c.priority_que.page_nos (c.page_map.pages p) ≡ p
      → Served garbage p c
  unfolding get_page_by_no get_buffer_no update_priority
  serve_hit c p h lp lb e =
      let b = c.page_map.pages p in
      let q : PriorityQue = record c.priority_que { ring = b ∷ without b c.priority_que.ring } in
      let c' : DevCache = record c { priority_que = q } in
      let inside : leb c.max_page_num p ≡ false = ground (arith, lp) in
      let listed : ltb p c.page_map.max_page_num ≡ true = ground (arith, lp, h.map_size) in
      let here : (b == buffer_null) ≡ false = ground (arith, lb, h.few_buffers) in
      let known : ltb b c.priority_que.elem_num ≡ true = ground (arith, lb, h.queue_size) in
      elim (h.loaded b lb) [
        | inl n ↦ absurd (omega (arith, n, e, lp, h.few_pages))
        | inr (page, s, holds) ↦ (
          page,
          c',
          rw (inside, listed, here, known, s) refl,
          subst (λ (r : ℕ). Holds c r page) e holds,
          record {
            few_pages = h.few_pages;
            few_buffers = h.few_buffers;
            map_size = h.map_size;
            queue_size = h.queue_size;
            some_buffer = omega arith;
            in_range =
                (lb, All-without (λ b. b < c.max_buffer_num) b c.priority_que.ring h.in_range);
            linked = h.linked;
            loaded = h.loaded;
          },
          refl,
          refl,
          refl,
        )
      ]

  -- What `downloadPage` leaves in a buffer.
  abbrev downloaded : ℕ → ℕ → DevCache → List ℕ
  downloaded b p c =
      file_page c p ++ drop (length (file_page c p)) (page_of garbage b (c.buffers b))

  -- The cache after a miss: the last buffer of the ring, with the page in it.
  abbrev refilled : ℕ → ℕ → List ℕ → DevCache → DevCache
  refilled p b front c = record c {
    priority_que = record c.priority_que {
      ring = b ∷ front;
      page_nos = update c.priority_que.page_nos b p;
    };
    page_map = record c.page_map {
      pages = swapped c.page_map.pages p b (c.priority_que.page_nos b);
    };
    buffers = update c.buffers b (some (downloaded b p c));
  }

  refilled-IsCoherent :
      (c : DevCache) (p b : ℕ) (front : List ℕ)
      → IsCoherent c
      → p < c.max_page_num
      → b < c.max_buffer_num
      → All (λ b. b < c.max_buffer_num) front
      → c.page_map.pages p ≡ buffer_null
      → IsCoherent (refilled p b front c)
  refilled-IsCoherent c p b front h lp lb lf n = record {
    few_pages = h.few_pages;
    few_buffers = h.few_buffers;
    map_size = h.map_size;
    queue_size = h.queue_size;
    some_buffer = omega arith;
    in_range = (lb, lf);
    linked =
        Linked-swapped c.max_page_num c.max_buffer_num c.page_map.pages c.priority_que.page_nos p b
          h.few_pages h.few_buffers lp lb n h.linked;
    loaded = λ d ld. elim (Bool-cases (d == b)) [
      | inl t ↦ rw t (
          inr (
            downloaded b p c,
            refl,
            take-length-append (file_page c p)
                (drop (length (file_page c p)) (page_of garbage b (c.buffers b))),
          ))
      | inr f ↦ rw f (h.loaded d ld)
    ];
  }

  lazy_lem :
      (p x : ℕ) (xs : List ℕ) (q : PriorityQue)
      → q.ring ≡ x ∷ xs
      → let (b, front) = turn x xs in
        get_lazy_buf_no_and_swap_page p q
        ≡ some ((q.page_nos b, b), record q { ring = b ∷ front; page_nos = update q.page_nos b p })
  unfolding get_lazy_buf_no_and_swap_page
  lazy_lem p x xs q e = rw e refl

  map_lem :
      (p b lazy : ℕ) (m : PageMap)
      → p < m.max_page_num
      → ((lazy ≡ no_page) ⊎ (lazy < m.max_page_num))
      → (if lazy == no_page then add_page_map p b m else del_page_map lazy (add_page_map p b m))
        ≡ record m { pages = swapped m.pages p b lazy }
  unfolding add_page_map del_page_map
  map_lem p b lazy m lp h =
      let inside : leb m.max_page_num p ≡ false = ground (arith, lp) in
      elim (Bool-cases (lazy == no_page)) [
        | inl t ↦ rw (t, inside) refl
        | inr f ↦
            let inside' : leb m.max_page_num lazy ≡ false = ground (arith, f, h) in
            rw (f, inside, inside') refl
      ]

  serve_miss :
      (c : DevCache) (p x : ℕ) (xs : List ℕ)
      → IsCoherent c
      → p < c.max_page_num
      → c.page_map.pages p ≡ buffer_null
      → c.priority_que.ring ≡ x ∷ xs
      → Served garbage p c
  unfolding get_page_by_no get_buffer_no download_page
  serve_miss c p x xs h lp n e =
      let r = subst (All (λ b. b < c.max_buffer_num)) e h.in_range in
      let (lb, lf) = All-turn (λ b. b < c.max_buffer_num) x xs r.0 r.1 in
      let b = (turn x xs).0 in
      let front = (turn x xs).1 in
      let inside : leb c.max_page_num p ≡ false = ground (arith, lp) in
      let listed : ltb p c.page_map.max_page_num ≡ true = ground (arith, lp, h.map_size) in
      let small : p % 2 ^ 16 ≡ p = omega (arith, lp, h.few_pages) in
      let lazy = c.priority_que.page_nos b in
      let old : (lazy ≡ no_page) ⊎ (lazy < c.page_map.max_page_num) =
        ground (arith, h.linked.back b lb, h.map_size) in
      let self : (b == b) ≡ true = ground arith in
      let m = map_lem p b lazy c.page_map (omega (arith, lp, h.map_size)) old in
      (
        downloaded b p c,
        refilled p b front c,
        rw (inside, listed, n, small, lazy_lem p x xs c.priority_que e, m, self) refl,
        take-length-append (file_page c p)
            (drop (length (file_page c p)) (page_of garbage b (c.buffers b))),
        refilled-IsCoherent c p b front h lp lb lf n,
        refl,
        refl,
        refl,
      )

  -- In a coherent cache a request for a page of the file gives a buffer that begins with the bytes
  -- of that page in the file, and leaves the cache coherent and the file as it was.
  pub get_page_by_no-Served :
      (c : DevCache) (p : ℕ) → IsCoherent c → p < c.max_page_num → Served garbage p c
  get_page_by_no-Served c p h lp = elim (h.linked.forth p lp) [
    | inl n ↦ miss (c.priority_que.ring) refl n
    | inr (lb, e) ↦ serve_hit c p h lp lb e
  ]
    where
      miss :
          (ring : List ℕ)
          → c.priority_que.ring ≡ ring
          → c.page_map.pages p ≡ buffer_null
          → Served garbage p c
      miss [] e n = absurd (omega (arith, h.some_buffer, ap length e))
      miss (x ∷ xs) e n = serve_miss c p x xs h lp n e
