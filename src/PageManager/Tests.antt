-- ===== src/PageManager/Tests.antt =====
-- Runs of the page manager of jni/KvDB/SMDPageManagement.cpp, with 40 bytes a page.
use leveldblib.Prelude.{ℕ, ◌≡◌, refl, true, false, some, List, [], replicate, arith}
use leveldblib.Value.{put_int, put_short}
use leveldblib.Page.{Page, no_page}
use leveldblib.Page.Inv.{IsValid}
use leveldblib.Cache.{init}
use leveldblib.PageTable.{Inner, initial}
use leveldblib.PageManager.Chain.{linked, get_next_page_appends}
use leveldblib.PageTable.{inc_last_page_no}
use leveldblib.Page.Head.{pushed}
use leveldblib.PageManager.{
  Manager, get_next_page, save_page_to_file, get_page_by_page_no, put_bytes,
}
use leveldblib.PageManager.Reopen.{
  get_page_by_page_no-save_page_to_file, get_page_by_page_no_behind,
}
use leveldblib.PageManager.Save.{reopened}

abbrev garbage : ℕ → List ℕ
garbage b = []

abbrev page : Page
page = record {
  modify = true;
  size = 40;
  pageno = 1;
  block = replicate 40 9;
  space = 20;
  reserve1 = 0;
  reserve2 = 0;
  next = no_page;
}

abbrev other : Page
other = record {
  modify = false;
  size = 40;
  pageno = 5;
  block = replicate 40 1;
  space = 3;
  reserve1 = 0;
  reserve2 = 4;
  next = no_page;
}

abbrev manager : Manager
manager = record { inner = initial 40; cache = init 40 2 (replicate 40 7); writable = true }

page-IsValid : IsValid page
page-IsValid = record { block = refl; room = omega arith; size = omega arith; space = omega arith }

get_page_by_page_no-save_page_to_file_example :
    (b : List ℕ) × (m1 : Manager) × (save_page_to_file page manager
      ≡ some (true, record page { block = b; modify = false }, m1))
    × (q : Page) × (m2 : Manager) × (get_page_by_page_no garbage 1
          (some other)
          (reopened (initial 40) 2 m1)
        ≡ some (true, q, m2))
    × (q.block ≡ b)
    × (q.pageno ≡ 1)
    × (q.next ≡ no_page)
    × (q.space ≡ 20)
    × (q.size ≡ 40)
unfolding init initial put_bytes put_int put_short
get_page_by_page_no-save_page_to_file_example =
    get_page_by_page_no-save_page_to_file garbage page other manager (initial 40) 2 page-IsValid
      (omega arith) (omega arith) refl refl refl refl (omega arith) (omega arith) (omega arith)
      (omega arith) refl refl

get_page_by_page_no_behind_example :
    (q : Page) × (m1 : Manager) × (save_page_to_file page manager ≡ some (true, q, m1))
    × (s : Page) × (m2 : Manager) × (get_page_by_page_no garbage 1 (some other) m1
        ≡ some (false, s, m2))
unfolding init initial
get_page_by_page_no_behind_example =
    get_page_by_page_no_behind garbage page other manager page-IsValid refl refl refl (omega arith)
      (omega arith) (omega arith) refl refl

-- A file with one page file, whose one page is `page`.
abbrev one_page : Inner
one_page = record (initial 40) { page_cnt = 1 }

get_next_page_appends_example :
    (q : Page) × (m' : Manager) × (get_next_page garbage 1
        (some page)
        (record manager { inner = one_page })
      ≡ some (true, q, m'))
    × IsValid q
    × (q.pageno ≡ 2)
    × (q.next ≡ no_page)
    × (q.reserve1 ≡ 0)
    × (q.size ≡ 40)
    × (q.space ≡ 28)
    × (m'.writable ≡ true)
    × (m'.inner
        ≡ record one_page { page_cnt = 2; page_info = inc_last_page_no 1 2 one_page.page_info })
    × (m'.cache.file
        ≡ put_bytes 80 q.block (put_bytes 40 (pushed (linked 2 page)) (replicate 40 7)))
unfolding init initial
get_next_page_appends_example =
    get_next_page_appends garbage page (record manager { inner = one_page }) page-IsValid refl refl
      refl (omega arith) (omega arith) (omega arith)
