-- ===== src/PageManager/Chain.antt =====
-- `getNextPage` of jni/KvDB/SMDPageManagement.cpp behind the last page of a chain: a new page is
-- linked to it.
use leveldblib.Prelude.{
  ℕ, ◌+◌, ◌-◌, ◌*◌, ◌^◌, ◌<◌, ◌≡◌, refl, subst, ◌∙◌, true, false, some, List, length, ◌==◌, arith,
}
use leveldblib.Page.{Page, no_page, u32, head_size, reset, set_next_page_no}
use leveldblib.Page.Inv.{IsValid, blank, blank_lem, check_first_page-keeps}
use leveldblib.Page.Head.{pushed, length-pushed}
use leveldblib.PageTable.{inc_last_page_no}
use leveldblib.PageManager.{
  Manager, put_bytes, load_page, append_page, next_of, get_page_by_page_no, get_next_page,
}
use leveldblib.PageManager.Save.{save_lem}

-- The page with the number of the new one behind it.
abbrev pub linked : ℕ → Page → Page
linked n p = record p { next = n; modify = true }

pub linked-IsValid : (n : ℕ) (p : Page) → IsValid p → IsValid (linked n p)
linked-IsValid n p v = record { block = v.block; room = v.room; size = v.size; space = v.space }

append_page_lem :
    (garbage : ℕ → List ℕ) (p : Page) (m : Manager)
    → IsValid p
    → m.writable ≡ true
    → p.size ≡ m.inner.page_size
    → m.inner.page_cnt + 1 < 2 ^ 32
    → p.pageno * p.size < 2 ^ 31
    → (m.inner.page_cnt + 1) * p.size < 2 ^ 31
    → let n = m.inner.page_cnt + 1 in
      (q : Page) × (m' : Manager) × (append_page garbage p m ≡ some (true, q, m'))
      × IsValid q
      × (q.pageno ≡ n)
      × (q.next ≡ no_page)
      × (q.reserve1 ≡ 0)
      × (q.size ≡ p.size)
      × (q.space ≡ p.size - head_size)
      × (m'.writable ≡ true)
      × (m'.inner ≡ record m.inner {
        page_cnt = n;
        page_info = inc_last_page_no p.pageno n m.inner.page_info;
      })
      × (m'.cache.file
          ≡ put_bytes
              (n * p.size)
              q.block
              (put_bytes (p.pageno * p.size) (pushed (linked n p)) m.cache.file))
unfolding append_page set_next_page_no reset
append_page_lem garbage p m v w e cnt off1 off2 =
    let n = m.inner.page_cnt + 1 in
    let wrap : u32 (m.inner.page_cnt + 1) ≡ n = omega (arith, cnt) in
    let p1 = linked n p in
    let v1 = linked-IsValid n p v in
    let m1 : Manager = record m { inner = record m.inner { page_cnt = n } } in
    let s1 = save_lem p1 m1 v1 refl w e off1 in
    let file1 = put_bytes (p.pageno * p.size) (pushed p1) m.cache.file in
    let len = length (pushed p1) in
    let (q, er, vq, sq, zq, nq) = blank_lem len p.size n (length-pushed p1 v1) v.room v.size in
    let (dirty, ends, fresh) = check_first_page-keeps (blank len p.size n) q er in
    let er' : reset m.inner.page_size n (record p1 { block = pushed p1; modify = false }) ≡ some q =
      subst (λ (k : ℕ). reset k n (record p1 { block = pushed p1; modify = false }) ≡ some q) e
        er in
    let m3 : Manager = record m {
      inner = record m.inner {
        page_cnt = n;
        page_info = inc_last_page_no p.pageno n m.inner.page_info;
      };
      cache = record m.cache { file = file1 };
    } in
    let s2 = save_lem q m3 vq dirty w (zq ∙ e) (rw (nq, zq) off2) in
    (
      record q { block = pushed q; modify = false },
      record m3 {
        cache = record m.cache { file = put_bytes (q.pageno * q.size) (pushed q) file1 };
      },
      rw (wrap, s1, er') s2,
      record { block = length-pushed q vq; room = vq.room; size = vq.size; space = vq.space },
      nq,
      ends,
      fresh,
      zq,
      sq ∙ ground (arith, zq, nq),
      w,
      refl,
      rw (nq, zq) refl,
    )

-- A valid page that is the last of its chain, in a file open for writing, with room for one more
-- page number and offsets below 2 ^ 31: `getNextPage` of its number succeeds and gives a valid page
-- of that size with the next unused number and all the space behind its header free and `reserve1` 0, which is again a last page.
-- The file stays open for writing. It counts that page, makes it the last of the page file that
-- ended before, and has saved first the old page with the new one's number and then the new page.
pub get_next_page_appends :
    (garbage : ℕ → List ℕ) (p : Page) (m : Manager)
    → IsValid p
    → p.next ≡ no_page
    → m.writable ≡ true
    → p.size ≡ m.inner.page_size
    → m.inner.page_cnt + 1 < 2 ^ 32
    → p.pageno * p.size < 2 ^ 31
    → (m.inner.page_cnt + 1) * p.size < 2 ^ 31
    → let n = m.inner.page_cnt + 1 in
      (q : Page) × (m' : Manager) × (get_next_page garbage p.pageno (some p) m ≡ some (true, q, m'))
      × IsValid q
      × (q.pageno ≡ n)
      × (q.next ≡ no_page)
      × (q.reserve1 ≡ 0)
      × (q.size ≡ p.size)
      × (q.space ≡ p.size - head_size)
      × (m'.writable ≡ true)
      × (m'.inner ≡ record m.inner {
        page_cnt = n;
        page_info = inc_last_page_no p.pageno n m.inner.page_info;
      })
      × (m'.cache.file
          ≡ put_bytes
              (n * p.size)
              q.block
              (put_bytes (p.pageno * p.size) (pushed (linked n p)) m.cache.file))
unfolding get_next_page next_of get_page_by_page_no load_page
get_next_page_appends garbage p m v last w e cnt off1 off2 =
    let (q, m', a, b, c, d, r, l, j, k, i, f) = append_page_lem garbage p m v w e cnt off1 off2 in
    let self : (p.pageno == p.pageno) ≡ true = ground arith in
    let ends : (p.next == no_page) ≡ true = ground (arith, last) in
    (q, m', rw (self, ends) a, b, c, d, r, l, j, k, i, f)
