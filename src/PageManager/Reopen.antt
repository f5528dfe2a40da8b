-- ===== src/PageManager/Reopen.antt =====
-- jni/KvDB/SMDPageManagement.cpp: a page that is saved is found by a page manager that opens the file
-- afterwards, and not by one whose cache counted the pages before.
use leveldblib.Prelude.{
  ℕ, ◌*◌, ◌^◌, ◌<◌, ◌≤◌, ◌≡◌, refl, subst, true, false, some, List, length, leb, ◌==◌, arith,
}
use leveldblib.Page.{Page, reset}
use leveldblib.Page.Inv.{IsValid, blank_lem}
use leveldblib.Page.Head.{pushed}
use leveldblib.Cache.{init, get_page_by_no}
use leveldblib.PageTable.{Inner}
use leveldblib.PageManager.{
  Manager, put_bytes, save_page_to_file, fill_page, load_page, get_page_by_page_no,
}
use leveldblib.PageManager.Save.{reopened, save_lem}
use leveldblib.PageManager.Loading.{reopened_lem}

-- A modified valid page whose header fits its fields is saved to a file open for writing, at an
-- offset below 2 ^ 31. A page manager with pages of that size that opens the file afterwards, if
-- the file then has fewer than 2 ^ 16 pages and the cache 1 up to 65535 buffers, loads the page of
-- that number into the object of any other page: it succeeds, and gives the block, the next page, the
-- free space and the size that were saved.
pub get_page_by_page_no-save_page_to_file :
    (garbage : ℕ → List ℕ) (p r : Page) (m : Manager) (inner : Inner) (max_buffer_num : ℕ)
    → IsValid p
    → p.next < 2 ^ 32
    → p.reserve1 < 2 ^ 16
    → p.modify ≡ true
    → m.writable ≡ true
    → p.size ≡ m.inner.page_size
    → inner.page_size ≡ p.size
    → p.pageno * p.size < 2 ^ 31
    → 0 < max_buffer_num
    → max_buffer_num < 2 ^ 16
    → (init p.size max_buffer_num
        (put_bytes (p.pageno * p.size) (pushed p) m.cache.file)).max_page_num
      < 2 ^ 16
    → (r.pageno == p.pageno) ≡ false
    → length r.block ≡ p.size
    → (b : List ℕ) × (m1 : Manager) × (save_page_to_file p m
        ≡ some (true, record p { block = b; modify = false }, m1))
      × (q : Page) × (m2 : Manager) × (get_page_by_page_no garbage p.pageno
            (some r)
            (reopened inner max_buffer_num m1)
          ≡ some (true, q, m2))
      × (q.block ≡ b)
      × (q.pageno ≡ p.pageno)
      × (q.next ≡ p.next)
      × (q.space ≡ p.space)
      × (q.size ≡ p.size)
get_page_by_page_no-save_page_to_file garbage p r m inner nb v hn hr dirty w e ei small pos few fewp
      ne el =
    let (q, m2, found, b, n, x, s, z, _) =
      reopened_lem garbage p r m inner nb v hn hr ei pos few fewp ne el in
    (
      pushed p,
      record m {
        cache = record m.cache { file = put_bytes (p.pageno * p.size) (pushed p) m.cache.file };
      },
      save_lem p m v dirty w e small,
      q,
      m2,
      found,
      b,
      n,
      x,
      s,
      z,
    )

-- The cache counts the pages of the file once, when it opens it. A modified valid page behind that
-- count is saved to a file open for writing, at an offset below 2 ^ 31, yet loading its number into
-- the object of another page with the same manager fails.
pub get_page_by_page_no_behind :
    (garbage : ℕ → List ℕ) (p r : Page) (m : Manager)
    → IsValid p
    → p.modify ≡ true
    → m.writable ≡ true
    → p.size ≡ m.inner.page_size
    → p.pageno * p.size < 2 ^ 31
    → m.cache.max_page_num ≤ p.pageno
    → p.pageno < 2 ^ 31
    → (r.pageno == p.pageno) ≡ false
    → length r.block ≡ p.size
    → (q : Page) × (m1 : Manager) × (save_page_to_file p m ≡ some (true, q, m1))
      × (s : Page) × (m2 : Manager) × (get_page_by_page_no garbage p.pageno (some r) m1
          ≡ some (false, s, m2))
unfolding get_page_by_page_no load_page reset get_page_by_no fill_page
get_page_by_page_no_behind garbage p r m v dirty w e small behind int ne el =
    let (q, er, _, _, _, _) = blank_lem (length r.block) p.size p.pageno el v.room v.size in
    let er' : reset m.inner.page_size p.pageno r ≡ some q =
      subst (λ (k : ℕ). reset k p.pageno r ≡ some q) e er in
    let in_int : leb (2 ^ 31) p.pageno ≡ false = ground (arith, int) in
    let past : leb m.cache.max_page_num p.pageno ≡ true = ground (arith, behind) in
    let m1 : Manager = record m {
      cache = record m.cache { file = put_bytes (p.pageno * p.size) (pushed p) m.cache.file };
    } in
    (
      record p { block = pushed p; modify = false },
      m1,
      save_lem p m v dirty w e small,
      q,
      m1,
      rw (ne, er', in_int, past) refl,
    )
