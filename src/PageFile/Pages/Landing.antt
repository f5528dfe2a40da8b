-- ===== src/PageFile/Pages/Landing.antt =====
-- jni/KvDB/SMDPageFile.cpp: where the bytes that `put` writes are once the page that it ends on is saved.
use leveldblib.Prelude.{
  ℕ, suc, ◌+◌, ◌-◌, ◌*◌, ◌^◌, ◌≤◌, ◌<◌, ◌≡◌, refl, sym, ap, subst, ◌∙◌, true, false, some, List,
  length, take, drop, ◌==◌, arith, length-take, length-drop, take-append-drop,
}
use leveldblib.Memory.{load, load-replaced_same, load-replaced_before}
use leveldblib.Page.{Page}
use leveldblib.Page.Inv.{IsValid, content_start}
use leveldblib.Page.Head.{pushed, length-pushed}
use leveldblib.Page.Content.{written, written-IsValid, load-pushed}
use leveldblib.PageManager.{Manager, put_bytes}
use leveldblib.PageManager.Chain.{linked, linked-IsValid}
use leveldblib.PageFile.Put.{Writing}
use leveldblib.PageFile.Put.Growing.{cleaned, cleaned-IsValid, in_file, Growing}
use leveldblib.PageFile.Put.Turns.{Moved}
use leveldblib.PageFile.Pages.{
  page_at, OnFile, Spreads, ends, goes_on, page_at-put_bytes, length-put_bytes-le,
  page_at-put_bytes_of_other,
}
use leveldblib.PageFile.Pages.Filled.{writing}

-- The file once the page is saved.
abbrev pub final : ℕ → Writing → List ℕ
final n v = put_bytes (v.page.pageno * n) (pushed v.page) v.manager.cache.file

-- Behind what the page `c` held, the bytes are in the file of `v`: from there on the page that became
-- of `c`, and what held of `c` and of the other pages still does. At most `k` pages are new.
pub record Lands (n k : ℕ) (c : Page) (m : Manager) (left : List ℕ) (v : Writing) : Type 0 where
  pub page : Page
  pub number : page.pageno ≡ c.pageno
  pub on_file : OnFile n (final n v) page
  pub spreads : Spreads n (final n v) page (n - c.space) left
  pub front :
      (from k : ℕ)
      → content_start c ≤ from
      → from + k ≤ n - c.space
      → load from k (pushed page) ≡ load from k c.block
  pub space : page.space ≤ c.space
  pub keeps :
      (j : ℕ) (xs : List ℕ)
      → j ≤ m.inner.page_cnt
      → (j == c.pageno) ≡ false
      → length xs ≡ n
      → page_at n m.cache.file j ≡ xs
      → page_at n (final n v) j ≡ xs
  pub fits :
      (limit : ℕ)
      → m.inner.page_cnt + k < limit
      → length m.cache.file ≤ limit * n
      → length (final n v) ≤ limit * n
  pub growing : Growing n 0 v.page v.manager
  pub marked : v.page.modify ≡ true

pub written_front :
    (n : ℕ) (bytes : List ℕ) (c : Page) (from k : ℕ)
    → IsValid c
    → c.size ≡ n
    → length bytes ≤ c.space
    → content_start c ≤ from
    → from + k ≤ n - c.space
    → load from k (pushed (written bytes c)) ≡ load from k c.block
written_front n bytes c from k v e fits h g =
    load-pushed (written bytes c) from k (written-IsValid bytes c v fits) h (omega (arith, g, e))
    ∙ load-replaced_before (c.size - c.space) bytes c.block from k
        (omega (arith, v.space, v.block, fits)) (omega (arith, g, e))

written_there :
    (n : ℕ) (bytes : List ℕ) (c : Page)
    → IsValid c
    → c.size ≡ n
    → length bytes ≤ c.space
    → load (n - c.space) (length bytes) (pushed (written bytes c)) ≡ some bytes
written_there n bytes c v e fits =
    ap (λ (s : ℕ). load (s - c.space) (length bytes) (pushed (written bytes c))) (sym e)
    ∙ load-pushed (written bytes c) (c.size - c.space) (length bytes)
        (written-IsValid bytes c v fits) (omega (arith, v.space)) (omega (arith, v.space, fits))
    ∙ load-replaced_same (c.size - c.space) bytes c.block (omega (arith, v.space, v.block, fits))

-- All the bytes on the page.
pub whole-Lands :
    (n k offset : ℕ) (left : List ℕ) (c : Page) (m : Manager)
    → Growing n k c m
    → Growing n 0 (written left c) m
    → c.reserve1 < 2 ^ 16
    → c.pageno ≤ m.inner.page_cnt
    → length left ≤ c.space
    → Lands n k c m left (writing offset (written left c) m)
whole-Lands n k offset left c m g g1 hr small fits =
    let c1 = written left c in
    let size : length (pushed c1) ≡ n = length-pushed c1 g1.valid ∙ g.size in
    let v = g.valid in
    record {
      page = c1;
      number = refl;
      on_file = record {
        valid = g1.valid;
        size = g.size;
        next = omega (arith, g.last);
        reserve1 = hr;
        there = page_at-put_bytes n c.pageno (pushed c1) m.cache.file size;
      };
      spreads = ends (omega (arith, g.size, v.space, fits)) (written_there n left c v g.size fits);
      front = λ from k h g'. written_front n left c from k v g.size fits h g';
      space = omega arith;
      keeps = λ j xs little other len there.
          page_at-put_bytes_of_other n c.pageno j (pushed c1) m.cache.file xs
            (omega (arith, g.size, v.room)) other size len there;
      fits = λ limit few short.
          length-put_bytes-le n limit c.pageno (pushed c1) m.cache.file size
            (omega (arith, small, few)) short;
      growing = g1;
      marked = refl;
    }

-- The rest of the bytes behind a page that is full.
pub part-Lands :
    (n k : ℕ) (left : List ℕ) (c q : Page) (m m' : Manager) (v : Writing)
    → Growing n (suc k) (written (take c.space left) c) m
    → IsValid c
    → c.reserve1 < 2 ^ 16
    → c.pageno ≤ m.inner.page_cnt
    → c.space < length left
    → Moved n k
        (cleaned (written (take c.space left) c))
        (in_file n (written (take c.space left) c) m)
        q
        m'
    → Lands n k q m' (drop c.space left) v
    → Lands n (suc k) c m left v
part-Lands n k left c q m m' v g valid hr small over moved rest =
    let xs = take c.space left in
    let fits : length xs ≤ c.space = omega (arith, length-take c.space left) in
    let all : length xs ≡ c.space = omega (arith, length-take c.space left, over) in
    let c1 = written xs c in
    let number = m.inner.page_cnt + 1 in
    let link = linked number (cleaned c1) in
    let clean = cleaned-IsValid c1 g.valid in
    let vl = linked-IsValid number (cleaned c1) clean in
    let size1 : length (pushed c1) ≡ n = length-pushed c1 g.valid ∙ g.size in
    let size2 : length (pushed link) ≡ n = length-pushed link vl ∙ g.size in
    let size3 : length q.block ≡ n = moved.growing.valid.block ∙ moved.growing.size in
    let pos : 0 < n = omega (arith, g.size, valid.room) in
    let other : (c.pageno == q.pageno) ≡ false = ground (arith, small, moved.number) in
    let other' : (c.pageno == number) ≡ false = ground (arith, small) in
    let file1 = put_bytes (c.pageno * n) (pushed c1) m.cache.file in
    let file2 = put_bytes (c.pageno * n) (pushed link) file1 in
    let same : c1.size - c1.space ≡ n = omega (arith, all, g.size) in
    record {
      page = link;
      number = refl;
      on_file = record {
        valid = vl;
        size = g.size;
        next = omega (arith, g.few_pages);
        reserve1 = hr;
        there = rest.keeps c.pageno (pushed link) (omega (arith, small, moved.count)) other size2 (
            ap (λ (f : List ℕ). page_at n f c.pageno) moved.file
            ∙ page_at-put_bytes_of_other n number c.pageno q.block file2 (pushed link) pos other'
                size3 size2 (page_at-put_bytes n c.pageno (pushed link) file1 size2));
      };
      spreads = subst (Spreads n (final n v) link (n - c.space)) (take-append-drop c.space left) (
          goes_on rest.page (omega (arith, all)) (omega (arith, all, g.size, valid.space))
            (load-pushed link (n - c.space) (length xs) vl (omega (arith, valid.space, g.size))
                (omega (arith, valid.space, g.size, all))
              ∙ written_there n xs c valid g.size fits)
            rest.on_file (sym moved.number ∙ sym rest.number) (rw rest.number other)
            (omega (arith, rest.number, moved.number)) (rw rest.number moved.growing.place)
            (omega (arith, length-drop c.space left, over))
            (subst (λ (at : ℕ). Spreads n (final n v) rest.page at (drop c.space left))
              (omega (arith, moved.space, pos, valid.room, g.size)) rest.spreads));
      front = λ from k h g'.
          load-pushed link from k vl h (omega (arith, g', g.size))
          ∙ written_front n xs c from k valid g.size fits h g';
      space = omega (arith, all);
      keeps = λ j ys little apart len there.
          rest.keeps j ys (omega (arith, little, moved.count))
            (ground (arith, little, moved.number)) len
            (ap (λ (f : List ℕ). page_at n f j) moved.file
              ∙ page_at-put_bytes_of_other n number j q.block file2 ys pos (ground (arith, little))
                  size3 len
                  (page_at-put_bytes_of_other n c.pageno j (pushed link) file1 ys pos apart size2
                    len
                    (page_at-put_bytes_of_other n c.pageno j (pushed c1) m.cache.file ys pos apart
                      size1 len there)));
      fits = λ limit few short.
          let c_few : c.pageno < limit = omega (arith, small, few) in
          rest.fits limit (omega (arith, moved.count, few)) (
            rw moved.file (
              length-put_bytes-le n limit number q.block file2 size3 (omega (arith, few)) (
                length-put_bytes-le n limit c.pageno (pushed link) file1 size2 c_few (
                  length-put_bytes-le n limit c.pageno (pushed c1) m.cache.file size1 c_few
                    short))));
      growing = rest.growing;
      marked = rest.marked;
    }
