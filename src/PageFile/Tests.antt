-- ===== src/PageFile/Tests.antt =====
-- Runs of the page files of jni/KvDB/SMDPageFile.cpp, with 64 bytes a page.
use leveldblib.Prelude.{ℕ, ◌≡◌, refl, true, some, List, [], ◌∷◌, ◌++◌, replicate, arith}
use leveldblib.Value.{put_int, put_short}
use leveldblib.Stream.{MemStream}
use leveldblib.Page.{Page, no_page, storage_flag, new, check_first_page}
use leveldblib.Page.Inv.{IsValid}
use leveldblib.Memory.{store}
use leveldblib.Page.Head.{pushed}
use leveldblib.Cache.{init}
use leveldblib.Cache.Requests.{init-IsCoherent}
use leveldblib.PageFile.Catalogue.Saving.{Begins}
use leveldblib.PageTable.{
  PageKey, Inner, initial, manager_key, get_last_page_no, find_info, same_key,
}
use leveldblib.PageTable.Format.{FitsInner}
use leveldblib.FileSystem.{same_bytes}
use leveldblib.PageManager.{Manager, put_bytes}
use leveldblib.PageManager.Save.{reopened}
use leveldblib.PageFile.{returned, State, held}
use leveldblib.PageFile.Put.{put}
use leveldblib.PageFile.Get.{get}
use leveldblib.PageFile.Put.RoundTrip.{get-put, get-reopened-put}
use leveldblib.PageFile.Put.Growing.{Growing}
use leveldblib.PageFile.Put.Progress.{put-terminates}
use leveldblib.PageFile.Pages.Opened.{opened}
use leveldblib.PageFile.Pages.RoundTrip.{get-opened-put}
use leveldblib.PageFile.Catalogue.{get_inner_info_from_file, save_inner_info_to_file}
use leveldblib.PageFile.Catalogue.Reload.{get_inner_info_from_file-save_inner_info_to_file}

abbrev garbage : ℕ → List ℕ
garbage b = []

abbrev data_key : PageKey
data_key = record { seg_type = 4; table_name = 112 ∷ [] }

abbrev table : Inner
table = record (initial 64) {
  page_cnt = 1;
  page_info =
      (data_key, record { offset = 0; min_unit = 4; root_page_no = 1; last_page_no = 1 }) ∷ [];
}

abbrev manager : Manager
manager = record { inner = table; cache = init 64 2 (replicate 128 0); writable = true }

abbrev page : Page
page = record {
  modify = true;
  size = 64;
  pageno = 1;
  block = replicate 64 0;
  space = 52;
  reserve1 = 0;
  reserve2 = 0;
  next = no_page;
}

abbrev other : Page
other = record page { pageno = 7 }

abbrev text : MemStream
text = record { buf = 72 ∷ 105 ∷ 33 ∷ []; pos = 0 }

abbrev old : MemStream
old = record { buf = 1 ∷ []; pos = 1 }

page-IsValid : IsValid page
page-IsValid = record { block = refl; room = omega arith; size = omega arith; space = omega arith }

get-put_example :
    (offset : ℕ) × (after : State) × (put garbage data_key 4 0 text (held page manager)
      ≡ returned (some offset, after))
    × (get garbage 4 1 old offset after
        ≡ returned (true, record { buf = 72 ∷ 105 ∷ 33 ∷ []; pos = 0 }, after))
unfolding find_info same_key same_bytes get_last_page_no initial
get-put_example =
    get-put garbage data_key 4 0 0 text old page manager page-IsValid refl refl refl (omega arith)
      (omega arith) (omega arith) (omega arith) (omega arith)

get-reopened-put_example :
    (offset : ℕ) × (q1 : Page) × (m1 : Manager) × (put garbage data_key 4 0 text (held page manager)
      ≡ returned (some offset, held q1 m1))
    × (q2 : Page) × (m2 : Manager) × (get garbage 4 1 old offset (held other (reopened table 2 m1))
        ≡ returned (true, record { buf = 72 ∷ 105 ∷ 33 ∷ []; pos = 0 }, held q2 m2))
unfolding find_info same_key same_bytes init put_int put_short get_last_page_no initial put_bytes
get-reopened-put_example =
    get-reopened-put garbage data_key 4 0 0 text old page other manager table 2 page-IsValid refl
      refl refl (omega arith) (omega arith) (omega arith) (omega arith) (omega arith) (omega arith)
      (omega arith) refl (omega arith) (omega arith) (omega arith) refl refl

-- A stream that does not fit the page.
abbrev long_text : MemStream
long_text = record { buf = replicate 60 7; pos = 0 }

put-terminates_example :
    (offset : ℕ) × (q : Page) × (m' : Manager) × (put garbage data_key 4 61 long_text
        (held page manager)
      ≡ returned (some offset, held q m'))
    × Growing 64 0 q m'
unfolding find_info same_key same_bytes get_last_page_no initial
put-terminates_example =
    put-terminates garbage 64 data_key 4 61 long_text page manager (omega arith)
      (record {
        valid = page-IsValid;
        last = refl;
        writable = refl;
        size = refl;
        page_size = refl;
        place = omega arith;
        few_pages = omega arith;
        small_file = omega arith;
      })
      refl (omega arith) (omega arith)

get-opened-put_example :
    (offset : ℕ) × (q1 : Page) × (m1 : Manager) × (put garbage data_key 4 61 long_text
        (held page manager)
      ≡ returned (some offset, held q1 m1))
    × (q2 : Page) × (m2 : Manager) × (get garbage 4 61 old offset (opened table 2 m1)
        ≡ returned (true, record { buf = replicate 60 7; pos = 0 }, held q2 m2))
unfolding find_info same_key same_bytes get_last_page_no initial init
get-opened-put_example =
    get-opened-put garbage 64 data_key 4 61 61 long_text old page manager table 2 (omega arith)
      (omega arith) (omega arith)
      (record {
        valid = page-IsValid;
        last = refl;
        writable = refl;
        size = refl;
        page_size = refl;
        place = omega arith;
        few_pages = omega arith;
        small_file = omega arith;
      })
      (record { known = omega arith; few = omega arith; short = omega arith }) refl (omega arith)
      (omega arith) (omega arith) (omega arith) (omega arith) refl (omega arith) (omega arith)

-- Page 0 of a new file of pages of 128 bytes, as the table's flag is saved.
abbrev flag_page : Page
flag_page = record {
  modify = true;
  size = 128;
  pageno = 0;
  block = storage_flag ++ replicate 120 0;
  space = 100;
  reserve1 = 0;
  reserve2 = 0;
  next = no_page;
}

-- The file, with one page file in its table.
abbrev new_file : Manager
new_file = record {
  inner = record (initial 128) {
    page_cnt = 1;
    page_info =
        (manager_key, record { offset = 0; min_unit = 0; root_page_no = 0; last_page_no = 0 })
        ∷ (data_key, record { offset = 0; min_unit = 4; root_page_no = 1; last_page_no = 1 })
        ∷ [];
  };
  cache = init 128 2 (pushed flag_page);
  writable = true;
}

flag_page_runs : new 128 0 ≡ some flag_page
unfolding new check_first_page store
flag_page_runs = refl

new_file-Begins : Begins new_file flag_page
unfolding initial init put_int put_short
new_file-Begins = record {
  valid = record { block = refl; room = omega arith; size = omega arith; space = omega arith };
  number = refl;
  last = refl;
  reserved = omega arith;
  size = refl;
  coherent = init-IsCoherent 128 2 (pushed flag_page) (omega arith) (omega arith) (omega arith);
  cache_size = refl;
  counted = omega arith;
  on_file = refl;
}

new_file-FitsInner : FitsInner new_file.inner
unfolding initial
new_file-FitsInner = record {
  page_size = omega arith;
  page_cnt = omega arith;
  few_entries = omega arith;
  few_attributes = omega arith;
  entries = (
    (omega arith, omega arith, omega arith, omega arith, omega arith, omega arith),
    ((omega arith, omega arith, omega arith, omega arith, omega arith, omega arith), tt),
  );
  attributes = tt;
}

get_inner_info_from_file-save_inner_info_to_file_example :
    (m1 : Manager) × (save_inner_info_to_file garbage 1 new_file ≡ returned (true, m1))
    × (m2 : Manager) × (get_inner_info_from_file garbage 1 true (reopened (initial 128) 2 m1)
        ≡ returned (true, m2))
    × (m2.inner.page_size ≡ 128)
    × (m2.inner.page_cnt ≡ 1)
    × (find_info data_key m2.inner.page_info
        ≡ some (record { offset = 0; min_unit = 4; root_page_no = 1; last_page_no = 1 }))
unfolding find_info same_key same_bytes initial init put_int put_short
get_inner_info_from_file-save_inner_info_to_file_example =
    get_inner_info_from_file-save_inner_info_to_file garbage 0 0 2 new_file flag_page
      (record { offset = 0; min_unit = 0; root_page_no = 0; last_page_no = 0 }) data_key refl
      new_file-Begins refl refl refl new_file-FitsInner (refl, (refl, tt)) (omega arith)
      (omega arith) (omega arith) (omega arith)
