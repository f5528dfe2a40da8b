-- ===== src/PageManager/Loading.antt =====
-- jni/KvDB/SMDPageManagement.cpp: loading a page of the file through the cache, and what a page manager
-- that opens the file finds of a saved page.
use leveldblib.Prelude.{
  ℕ, ◌+◌, ◌*◌, ◌^◌, ◌<◌, ◌≤◌, ◌≡◌, refl, sym, ap, subst, ◌∙◌, true, false, some, List, ◌++◌,
  append-nil, length, take, drop, leb, ◌==◌, arith, length-take, drop_of_length-le,
}
use leveldblib.Memory.{load, store, store_fits, load_fits}
use leveldblib.Page.{from_short, Page, reset, pop}
use leveldblib.Page.Inv.{IsValid, blank_lem}
use leveldblib.Page.Head.{pushed, pop-pushed, length-pushed}
use leveldblib.Cache.{init}
use leveldblib.Cache.Coherent.{IsCoherent}
use leveldblib.Cache.Requests.{init-IsCoherent}
use leveldblib.Cache.Serve.{get_page_by_no-Served}
use leveldblib.PageTable.{Inner}
use leveldblib.PageManager.{Manager, put_bytes, fill_page, load_page, get_page_by_page_no}
use leveldblib.PageManager.Save.{take-drop-put_bytes, reopened, init-max_page_num}

-- A page object that gets the block of a page from a cache buffer.
fill_lem :
    (garbage : ℕ → List ℕ) (p q : Page) (m : Manager) (buffer : List ℕ)
    → IsValid p
    → p.next < 2 ^ 32
    → p.reserve1 < 2 ^ 16
    → m.inner.page_size ≡ p.size
    → q.pageno ≡ p.pageno
    → length q.block ≡ p.size
    → take (length (pushed p)) buffer ≡ pushed p
    → fill_page garbage q m (some buffer)
      ≡ some (
        true,
        record q {
          pageno = p.pageno;
          block = pushed p;
          next = p.next;
          space = p.space;
          reserve1 = p.reserve1;
          reserve2 = from_short p.reserve1;
        },
        m,
      )
unfolding fill_page
fill_lem garbage p q m buffer v hn hr es ep el h =
    let n = length-pushed p v in
    let h' : take p.size buffer ≡ pushed p = subst (λ (k : ℕ). take k buffer ≡ pushed p) n h in
    let long : p.size ≤ length buffer = omega (arith, ap length h', n, length-take p.size buffer) in
    let first : load 0 p.size buffer ≡ some (pushed p) =
      load_fits 0 p.size buffer (omega (arith, long)) ∙ ap some h' in
    let second : store 0 (pushed p) q.block ≡ some (pushed p) =
      store_fits 0 (pushed p) q.block (omega (arith, n, el))
      ∙ ap some (
          ap (λ xs. pushed p ++ xs)
            (drop_of_length-le (0 + length (pushed p)) q.block (omega (arith, n, el)))
          ∙ append-nil (pushed p)) in
    let third : pop (record q { block = pushed p })
        ≡ some (record q {
          pageno = p.pageno;
          block = pushed p;
          next = p.next;
          space = p.space;
          reserve1 = p.reserve1;
          reserve2 = from_short p.reserve1;
        }) =
      subst
        (λ (k : ℕ).
          pop (record q { pageno = k; block = pushed p })
          ≡ some (record q {
            pageno = p.pageno;
            block = pushed p;
            next = p.next;
            space = p.space;
            reserve1 = p.reserve1;
            reserve2 = from_short p.reserve1;
          }))
        (sym ep) (pop-pushed p q v hn hr) in
    rw (es, first, second, third) refl

-- Loading a page of the file, through a coherent cache, into an object of another page.
pub load_lem :
    (garbage : ℕ → List ℕ) (p r : Page) (m : Manager)
    → IsValid p
    → p.next < 2 ^ 32
    → p.reserve1 < 2 ^ 16
    → m.inner.page_size ≡ p.size
    → (r.pageno == p.pageno) ≡ false
    → length r.block ≡ p.size
    → IsCoherent m.cache
    → p.pageno < m.cache.max_page_num
    → take m.cache.page_size (drop (p.pageno * m.cache.page_size) m.cache.file) ≡ pushed p
    → (q : Page) × (m' : Manager) × (load_page garbage p.pageno r m ≡ some (true, q, m'))
      × (q.block ≡ pushed p)
      × (q.pageno ≡ p.pageno)
      × (q.next ≡ p.next)
      × (q.space ≡ p.space)
      × (q.size ≡ p.size)
      × (m'.inner ≡ m.inner)
      × IsCoherent m'.cache
      × (m'.cache.file ≡ m.cache.file)
      × (m'.cache.page_size ≡ m.cache.page_size)
      × (m'.cache.max_page_num ≡ m.cache.max_page_num)
      × (q.reserve1 ≡ p.reserve1)
      × (m'.writable ≡ m.writable)
unfolding load_page reset
load_lem garbage p r m v hn hr es ne el co lp held =
    let (q, e, w, _, z, n) = blank_lem (length r.block) p.size p.pageno el v.room v.size in
    let (page, c', s, h, co', same_file, same_size, same_num) =
      get_page_by_no-Served garbage m.cache p.pageno co lp in
    let h' : take (length (pushed p)) page ≡ pushed p =
      subst (λ (xs : List ℕ). take (length xs) page ≡ xs) held h in
    let small : leb (2 ^ 31) p.pageno ≡ false = ground (arith, lp, co.few_pages) in
    let e' : reset m.inner.page_size p.pageno r ≡ some q =
      subst (λ (k : ℕ). reset k p.pageno r ≡ some q) (sym es) e in
    let m' : Manager = record m { cache = c' } in
    (
      record q {
        pageno = p.pageno;
        block = pushed p;
        next = p.next;
        space = p.space;
        reserve1 = p.reserve1;
        reserve2 = from_short p.reserve1;
      },
      m',
      rw (ne, e', small, s) (fill_lem garbage p q m' page v hn hr es n (w.block ∙ z) h'),
      refl,
      refl,
      refl,
      refl,
      z,
      refl,
      co',
      same_file,
      same_size,
      same_num,
      refl,
      refl,
    )

-- The page that a manager finds in the file that a saved page was written to.
pub reopened_lem :
    (garbage : ℕ → List ℕ) (p r : Page) (m : Manager) (inner : Inner) (max_buffer_num : ℕ)
    → IsValid p
    → p.next < 2 ^ 32
    → p.reserve1 < 2 ^ 16
    → inner.page_size ≡ p.size
    → 0 < max_buffer_num
    → max_buffer_num < 2 ^ 16
    → let file = put_bytes (p.pageno * p.size) (pushed p) m.cache.file in
      (init p.size max_buffer_num file).max_page_num < 2 ^ 16
      → (r.pageno == p.pageno) ≡ false
      → length r.block ≡ p.size
      → (q : Page) × (m2 : Manager) × (get_page_by_page_no garbage p.pageno
            (some r)
            (reopened inner max_buffer_num (record m { cache = record m.cache { file = file } }))
          ≡ some (true, q, m2))
        × (q.block ≡ pushed p)
        × (q.pageno ≡ p.pageno)
        × (q.next ≡ p.next)
        × (q.space ≡ p.space)
        × (q.size ≡ p.size)
        × (m2.inner ≡ inner)
unfolding get_page_by_page_no init
reopened_lem garbage p r m inner nb v hn hr ei pos few fewp ne el =
    let at = p.pageno * p.size in
    let file = put_bytes at (pushed p) m.cache.file in
    let ps = length-pushed p v in
    let (there, long) = take-drop-put_bytes at (pushed p) m.cache.file in
    let size_pos : 0 < p.size = omega (arith, v.room) in
    let lp : p.pageno < (init p.size nb file).max_page_num =
      init-max_page_num p.pageno p.size nb file size_pos (omega (arith, long, ps)) in
    let co : IsCoherent (init p.size nb file) = init-IsCoherent p.size nb file pos few fewp in
    let held : take p.size (drop at file) ≡ pushed p =
      subst (λ (k : ℕ). take k (drop at file) ≡ pushed p) ps there in
    let (q, m2, found, b, n, x, s, z, i, _, _, _, _, _, _) =
      load_lem garbage p r
        (record { inner = inner; cache = init p.size nb file; writable = m.writable }) v hn hr ei ne
        el co lp held in
    (
      q,
      m2,
      subst
          (λ (k : ℕ).
            load_page garbage p.pageno r
              (record { inner = inner; cache = init k nb file; writable = m.writable })
            ≡ some (true, q, m2))
          (sym ei) found,
      b,
      n,
      x,
      s,
      z,
      i,
    )
