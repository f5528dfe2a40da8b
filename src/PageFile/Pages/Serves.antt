-- ===== src/PageFile/Pages/Serves.antt =====
-- jni/KvDB/SMDPageFile.cpp: the pages of a file that the cache serves, as page objects.
use native.Mathlib.Nat.{mod-le}
use leveldblib.Prelude.{
  ℕ, zero, suc, ◌+◌, ◌-◌, ◌*◌, ◌%◌, ◌≤◌, ◌<◌, ◌≡◌, sym, ap, ◌∙◌, true, false, some, some-injective,
  List, [], length, take, drop, ◌==◌, arith,
}
use leveldblib.Memory.{load, load_fits}
use leveldblib.Page.{Page, read}
use leveldblib.Page.Inv.{IsValid}
use leveldblib.Page.Head.{pushed, length-pushed}
use leveldblib.Page.Content.{read_inside}
use leveldblib.Cache.Coherent.{IsCoherent}
use leveldblib.PageTable.{Inner}
use leveldblib.PageManager.{Manager, load_page}
use leveldblib.PageManager.Loading.{load_lem}
use leveldblib.PageFile.Put.Store.{read_at_lem}
use leveldblib.PageFile.Pages.{page_at-le, OnFile}

-- A manager whose cache serves the pages of `n` bytes of a file.
pub record Serves (n : ℕ) (file : List ℕ) (m : Manager) : Type 0 where
  pub coherent : IsCoherent m.cache
  pub same_file : m.cache.file ≡ file
  pub cache_size : m.cache.page_size ≡ n
  pub page_size : m.inner.page_size ≡ n
  pub pages : (j : ℕ) → j * n + n ≤ length file → j < m.cache.max_page_num

-- The page object `r` that was filled from the saved page `p`.
pub record Copied (p r : Page) : Type 0 where
  pub block : r.block ≡ pushed p
  pub number : r.pageno ≡ p.pageno
  pub next : r.next ≡ p.next
  pub space : r.space ≡ p.space
  pub size : r.size ≡ p.size

pub Copied-IsValid : (p r : Page) → Copied p r → IsValid p → IsValid r
Copied-IsValid p r c v = record {
  block = ap length c.block ∙ length-pushed p v ∙ sym c.size;
  room = rw c.size v.room;
  size = rw c.size v.size;
  space = rw (c.size, c.number, c.space) v.space;
}

-- A page of the file has a number that the cache knows.
pub page_no-lt :
    (n : ℕ) (file : List ℕ) (p : Page) (m : Manager)
    → OnFile n file p
    → Serves n file m
    → p.pageno < m.cache.max_page_num
page_no-lt n file p m on s = s.pages p.pageno (
    page_at-le n p.pageno file (pushed p) (omega (arith, on.size, on.valid.room))
      (length-pushed p on.valid ∙ on.size) on.there)

pub load-Copied :
    (garbage : ℕ → List ℕ) (n : ℕ) (file : List ℕ) (p r : Page) (m : Manager)
    → OnFile n file p
    → Serves n file m
    → (r.pageno == p.pageno) ≡ false
    → length r.block ≡ n
    → (q : Page) × (m' : Manager) × (load_page garbage p.pageno r m ≡ some (true, q, m'))
      × Copied p q
      × Serves n file m'
load-Copied garbage n file p r m on s other e =
    let there : take m.cache.page_size (drop (p.pageno * m.cache.page_size) m.cache.file)
        ≡ pushed p =
      rw (s.cache_size, s.same_file) on.there in
    let (q, m', found, b, number, next, space, size, inner, co, f, cs, pages, _, _) =
      load_lem garbage p r m on.valid on.next on.reserve1 (s.page_size ∙ sym on.size) other
        (e ∙ sym on.size) s.coherent (page_no-lt n file p m on s) there in
    (
      q,
      m',
      found,
      record { block = b; number = number; next = next; space = space; size = size },
      record {
        coherent = co;
        same_file = f ∙ s.same_file;
        cache_size = cs ∙ s.cache_size;
        page_size = ap (λ (i : Inner). i.page_size) inner ∙ s.page_size;
        pages = λ j h. rw pages (s.pages j h);
      },
    )

-- A piece of a page.
pub read_piece :
    (n at k : ℕ) (p r : Page) (xs : List ℕ)
    → Copied p r
    → IsValid p
    → p.size ≡ n
    → at + k ≤ n - p.space
    → load at k (pushed p) ≡ some xs
    → read at k r ≡ some (k, xs)
read_piece n at zero p r xs c v e room h =
    let vr = Copied-IsValid p r c v in
    let size : r.size ≡ n = c.size ∙ e in
    let low : at % r.size ≤ at = mod-le at r.size in
    let inside : at % r.size + 0 ≤ r.size - r.space = omega (arith, low, room, size, c.space) in
    let none_read : some xs ≡ some [] =
      sym h ∙ load_fits at 0 (pushed p) (omega (arith, room, length-pushed p v, e)) in
    read_inside at 0 r vr inside
    ∙ rw (load_fits (at % r.size) 0 r.block (omega (arith, inside, vr.block)))
        (ap (λ (ys : List ℕ). some (0, ys)) (sym (some-injective xs [] none_read)))
read_piece n at (suc k) p r xs c v e room h =
    read_at_lem at (suc k) r xs (Copied-IsValid p r c v) (omega arith)
      (omega (arith, room, c.size, e, c.space)) (ap (load at (suc k)) c.block ∙ h)
