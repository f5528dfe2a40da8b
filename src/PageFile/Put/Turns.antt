-- ===== src/PageFile/Put/Turns.antt =====
-- One turn of the loop of `put` in jni/KvDB/SMDPageFile.cpp, on a page file that can grow.
use leveldblib.Prelude.{
  ℕ, suc, ◌+◌, ◌-◌, ◌*◌, ◌^◌, ◌≤◌, ◌<◌, ◌≡◌, refl, ap, ◌∙◌, sym, true, List, [], ◌∷◌, length, take,
  drop, min, ltb, ◌==◌, arith, length-take, length-drop, Bool-cases, inl, inr,
}
use leveldblib.Memory.{replaced, length-replaced}
use leveldblib.Value.{put_int}
use leveldblib.Page.{Page, head_size, write, get_space_offset, get_file_offset, get_content_offset}
use leveldblib.Page.Inv.{IsValid, write_lem}
use leveldblib.PageTable.{Inner}
use leveldblib.Page.Head.{pushed}
use leveldblib.PageManager.{Manager, put_bytes}
use leveldblib.PageManager.Chain.{linked, get_next_page_appends}
use leveldblib.PageFile.{lift, next_page}
use leveldblib.PageFile.Put.{Writing, start, put_skip, put_fill, put_more, put_turn}
use leveldblib.PageFile.Put.Growing.{
  succeeds, Succeeds, >>=-Succeeds, if-Succeeds, weaker, Growing, fewer, changed, save-Succeeds,
}

-- The new page `q` behind the last page `p` of a chain.
pub record Moved (n k : ℕ) (p : Page) (m : Manager) (q : Page) (m' : Manager) : Type 0 where
  pub growing : Growing n k q m'
  pub space : q.space ≡ n - head_size
  pub number : q.pageno ≡ m.inner.page_cnt + 1
  pub count : m'.inner.page_cnt ≡ m.inner.page_cnt + 1
  pub fresh : q.reserve1 ≡ 0
  pub file :
      m'.cache.file
      ≡ put_bytes
          ((m.inner.page_cnt + 1) * n)
          q.block
          (put_bytes (p.pageno * n) (pushed (linked (m.inner.page_cnt + 1) p)) m.cache.file)

module _ (garbage : ℕ → List ℕ) (n : ℕ) where
  -- The page behind the last one, and the file that both are saved to.
  pub next_page_moves :
      (k : ℕ) (p : Page) (m : Manager)
      → Growing n (suc k) p m
      → Succeeds (λ r. Moved n k p m r.0 r.1) (next_page garbage p m)
  unfolding next_page
  next_page_moves k p m g =
      let one : (m.inner.page_cnt + 1) * n < 2 ^ 31 = omega (arith, g.small_file) in
      let (q, m', e, v, number, last, fresh, size, space, writable, inner, file) =
        get_next_page_appends garbage p m g.valid g.last g.writable (g.size ∙ sym g.page_size)
          (omega (arith, g.few_pages)) (rw g.size g.place) (rw g.size one) in
      let count : m'.inner.page_cnt ≡ m.inner.page_cnt + 1 = ap (λ (i : Inner). i.page_cnt) inner in
      let h : Growing n k q m' = record {
        valid = v;
        last = last;
        writable = writable;
        size = size ∙ g.size;
        page_size = ap (λ (i : Inner). i.page_size) inner ∙ g.page_size;
        place = rw number one;
        few_pages = omega (arith, count, g.few_pages);
        small_file = rw count (omega (arith, g.small_file));
      } in
      rw e (
        succeeds (record {
          growing = h;
          space = space ∙ ap (λ (k : ℕ). k - head_size) g.size;
          number = number;
          count = count;
          fresh = fresh;
          file =
              file
              ∙ ap
                  (λ (k : ℕ). put_bytes ((m.inner.page_cnt + 1) * k) q.block (
                    put_bytes (p.pageno * k) (pushed (linked (m.inner.page_cnt + 1) p))
                      m.cache.file))
                  g.size;
        }))

  next_page-Succeeds :
      (k : ℕ) (p : Page) (m : Manager)
      → Growing n (suc k) p m
      → Succeeds (λ r. Growing n k r.0 r.1 × (r.0.space ≡ n - head_size)) (next_page garbage p m)
  next_page-Succeeds k p m g = weaker (next_page_moves k p m g) λ r h. (h.growing, h.space)

  -- A write: what it leaves free.
  pub write-Succeeds :
      (k : ℕ) (bytes : List ℕ) (p : Page) (m : Manager)
      → Growing n k p m
      → Succeeds
          (λ (r : ℕ × Page). Growing n k r.1 m × (r.1.space ≡ p.space - length bytes))
          (lift (write bytes p))
  write-Succeeds k bytes p m g =
      let w = write_lem bytes p g.valid in
      let v = g.valid in
      let wr = min p.space (length bytes) in
      elim (Bool-cases (p.space == 0)) [
        | inl t ↦ rw (w, t) (succeeds (g, ground (arith, t)))
        | inr f ↦
            let at = p.size - p.space in
            let fits : at + length (take wr bytes) ≤ length p.block =
              omega (arith, length-take wr bytes, v.space, v.block) in
            let q : Page = record p {
              block = replaced at (take wr bytes) p.block;
              space = p.space - wr;
              modify = true;
            } in
            let vq : IsValid q = record {
              block = length-replaced at (take wr bytes) p.block fits ∙ v.block;
              room = v.room;
              size = v.size;
              space = omega (arith, v.space);
            } in
            rw (w, f) (succeeds (changed n k p q m g vq refl refl refl, omega arith))
      ]

  -- The length, where it is not written yet.
  pub start-Succeeds :
      (k size offset : ℕ) (w : Writing)
      → Growing n k w.page w.manager
      → Succeeds
          (λ (v : Writing). Growing n k v.page v.manager × (w.page.space - 4 ≤ v.page.space))
          (start size offset w)
  unfolding start put_int
  start-Succeeds k size offset w g =
      if-Succeeds w.started (λ t. succeeds (g, omega arith))
        (λ f.
          >>=-Succeeds (write-Succeeds k (put_int size) w.page w.manager g)
            λ r h. succeeds (h.0, omega (arith, h.1)))

  -- A page with room for the smallest unit and a byte behind a length.
  abbrev pub Roomy : ℕ → Page → Type 0
  Roomy min_unit p = (min_unit ≤ p.space) × (5 ≤ p.space)

  -- After a turn, with at most `l` bytes left and a page that has room for the next turn.
  abbrev Turned : ℕ → ℕ → ℕ → List ℕ × Writing → Type 0
  Turned min_unit k l r =
      (length r.0 ≤ l)
      × Growing n k r.1.page r.1.manager
      × (0 < length r.0 → Roomy min_unit r.1.page)

  put_more-Succeeds :
      (min_unit k : ℕ) (left : List ℕ) (w : Writing)
      → min_unit + 16 ≤ n
      → Growing n (suc k) w.page w.manager
      → Succeeds (Turned min_unit k (length left)) (put_more garbage left w)
  unfolding put_more
  put_more-Succeeds min_unit k [] w room g =
      succeeds (omega arith, fewer n k w.page w.manager g, λ h. absurd (omega (arith, h)))
  put_more-Succeeds min_unit k (b ∷ bs) w room g =
      >>=-Succeeds (save-Succeeds n (suc k) w.page w.manager g) λ r g1.
        >>=-Succeeds (next_page-Succeeds k r.0 r.1 g1) λ s h. succeeds (
          omega arith,
          h.0,
          λ b. (omega (arith, h.1, room), omega (arith, h.1, h.0.size, h.0.valid.room)),
        )

  put_skip-Succeeds :
      (min_unit k size : ℕ) (left : List ℕ) (w : Writing)
      → min_unit + 16 ≤ n
      → Growing n (suc k) w.page w.manager
      → Succeeds (Turned min_unit k (length left)) (put_skip garbage size left w)
  unfolding put_skip
  put_skip-Succeeds min_unit k size left w room g =
      >>=-Succeeds (save-Succeeds n (suc k) w.page w.manager g) λ r g1.
        >>=-Succeeds (next_page-Succeeds k r.0 r.1 g1) λ s h.
          >>=-Succeeds
            (start-Succeeds k size (get_content_offset s.0) (record w { page = s.0; manager = s.1 })
              h.0)
            λ v u. succeeds (
              omega arith,
              u.0,
              λ b. (
                omega (arith, h.1, u.1, room),
                omega (arith, h.1, u.1, h.0.size, h.0.valid.room),
              ),
            )

  -- What a turn that writes leaves: from a page with room, a byte less at least.
  put_fill-Succeeds :
      (min_unit k size : ℕ) (left : List ℕ) (w : Writing)
      → min_unit + 16 ≤ n
      → Growing n (suc k) w.page w.manager
      → Succeeds
          (Turned min_unit k (length left - min (w.page.space - 4) 1))
          (put_fill garbage size left w)
  unfolding put_fill
  put_fill-Succeeds min_unit k size left w room g =
      >>=-Succeeds
        (start-Succeeds (suc k) size (get_space_offset w.page + get_file_offset w.page) w g)
        λ v u.
          let c = min v.page.space (length left) in
          >>=-Succeeds (write-Succeeds (suc k) (take c left) v.page v.manager u.0) λ r h.
            weaker (put_more-Succeeds min_unit k (drop c left) (record v { page = r.1 }) room h.0)
              λ x y. (omega (arith, y.0, length-drop c left, u.1), y.1, y.2)

  pub put_turn-Succeeds :
      (min_unit k size : ℕ) (left : List ℕ) (w : Writing)
      → min_unit + 16 ≤ n
      → Growing n (suc k) w.page w.manager
      → Succeeds (Turned min_unit k (length left)) (put_turn garbage min_unit size left w)
  unfolding put_turn
  put_turn-Succeeds min_unit k size left w room g =
      if-Succeeds (ltb w.page.space min_unit) (λ t. put_skip-Succeeds min_unit k size left w room g)
        (λ f.
          weaker (put_fill-Succeeds min_unit k size left w room g)
            λ x y. (omega (arith, y.0), y.1, y.2))

  pub put_turn-Roomy :
      (min_unit k size : ℕ) (left : List ℕ) (w : Writing)
      → min_unit + 16 ≤ n
      → Growing n (suc k) w.page w.manager
      → Roomy min_unit w.page
      → Succeeds (Turned min_unit k (length left - 1)) (put_turn garbage min_unit size left w)
  unfolding put_turn
  put_turn-Roomy min_unit k size left w room g roomy =
      if-Succeeds (ltb w.page.space min_unit) (λ t. absurd (ground (arith, t, roomy.0)))
        (λ f.
          weaker (put_fill-Succeeds min_unit k size left w room g)
            λ x y. (omega (arith, y.0, roomy.1), y.1, y.2))
