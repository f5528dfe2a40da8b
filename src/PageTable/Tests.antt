-- ===== src/PageTable/Tests.antt =====
-- Runs of the page table of jni/KvDB/SMDPageManagement.cpp.
use leveldblib.Prelude.{◌≡◌, refl, true, some, [], ◌∷◌, arith}
use leveldblib.Value.{put_int, put_short}
use leveldblib.FileSystem.{same_bytes}
use leveldblib.Stream.{MemStream, done}
use leveldblib.PageTable.{PageKey, Inner, same_key, find_info, initial, save_inner}
use leveldblib.PageTable.Load.{load_inner}
use leveldblib.PageTable.Format.{FitsInner}
use leveldblib.PageTable.RoundTrip.{load_inner-save_inner}

-- The data segment of a table named "p".
abbrev data_key : PageKey
data_key = record { seg_type = 4; table_name = 112 ∷ [] }

abbrev table : Inner
table = record {
  page_size = 4096;
  page_cnt = 2;
  extern_attributes = ((97 ∷ []), (98 ∷ [])) ∷ [];
  page_info =
      (data_key, record { offset = 0; min_unit = 4; root_page_no = 1; last_page_no = 2 }) ∷ [];
}

table-FitsInner : FitsInner table
table-FitsInner = record {
  page_size = omega arith;
  page_cnt = omega arith;
  few_entries = omega arith;
  few_attributes = omega arith;
  entries = ((omega arith, omega arith, omega arith, omega arith, omega arith, omega arith), tt);
  attributes = ((omega arith, omega arith), tt);
}

load_inner-save_inner_example :
    (s : MemStream) × (save_inner table ≡ (true, s))
    × (m' : Inner) × (t : MemStream) × (load_inner (initial 512) (record s { pos = 0 })
        ≡ (done (true, m'), t))
    × (m'.page_size ≡ 4096)
    × (m'.page_cnt ≡ 2)
    × (find_info data_key m'.page_info
        ≡ some (record { offset = 0; min_unit = 4; root_page_no = 1; last_page_no = 2 }))
unfolding find_info same_key same_bytes put_int put_short
load_inner-save_inner_example =
    load_inner-save_inner table (initial 512) data_key table-FitsInner (refl, tt) (omega arith)
