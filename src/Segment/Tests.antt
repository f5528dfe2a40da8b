-- ===== src/Segment/Tests.antt =====
-- Runs of the segments of jni/KvDB/SMDMetaSegment.cpp and SMDTableSegment.cpp.
use leveldblib.Value.{put_int, put_short}
use leveldblib.Prelude.{
  ℕ, ◌≡◌, refl, true, false, none, List, [], ◌∷◌, length, map, replicate, arith,
}
use leveldblib.FileSystem.{same_bytes}
use leveldblib.Page.{
  Page, no_page, check_first_page, new, reset, free_space, is_last_page, push, get_content_offset,
  get_file_offset,
}
use leveldblib.Page.Inv.{IsValid}
use leveldblib.Page.Head.{pushed}
use leveldblib.Cache.{init, get_page_by_no}
use leveldblib.PageTable.{
  PageKey, PageNo, Inner, manager_key, initial, find_info, same_key, get_first_page_no,
  get_last_page_no,
}
use leveldblib.PageManager.{
  Manager, put_bytes, get_page_by_page_no, load_page, fill_page, save_page_to_file,
}
use leveldblib.PageManager.Save.{reopened}
use leveldblib.PageFile.{returned, set_to_first_page_file}
use leveldblib.PageFile.Walk.{clear_page, clear_loop, clear_turn}
use leveldblib.Record.{field_text}
use leveldblib.TableDef.{FieldObject, head_string, TableDef, index_hash}
use leveldblib.Segment.Kept.{Cleared}
use leveldblib.Segment.Meta
use leveldblib.Segment.Meta.{Metas, meta_key, add_meta_info, get_meta_info}
use leveldblib.Segment.Meta.RoundTrip.{read-save_metas}
use leveldblib.Segment.Tables
use leveldblib.Segment.Tables.{
  tables_key, get_table_name, get_table_def_at, get_table_def, add_table_def,
}
use leveldblib.Segment.Tables.RoundTrip.{Given, given, given_back, read-save_tables}

abbrev zeros : ℕ → List ℕ
zeros n = []

-- Page 1, empty, is the only one of its page file.
abbrev entry : PageNo
entry = record { offset = 0; min_unit = 4; root_page_no = 1; last_page_no = 1 }

abbrev table_with : PageKey → Inner
table_with key = record (initial 128) {
  page_cnt = 1;
  page_info =
      (manager_key, record { offset = 0; min_unit = 0; root_page_no = 0; last_page_no = 0 })
      ∷ (key, entry)
      ∷ [];
}

abbrev blank : Page
blank = record {
  modify = true;
  size = 128;
  pageno = 1;
  block = replicate 128 0;
  space = 116;
  reserve1 = 0;
  reserve2 = 0;
  next = no_page;
}

abbrev page : Page
page = record blank { block = pushed blank; modify = false }

abbrev manager : PageKey → Manager
manager key = record { inner = table_with key; cache = init 128 2 []; writable = true }

abbrev after_clear : PageKey → Manager
after_clear key = record (manager key) {
  cache = record (init 128 2 []) { file = put_bytes 128 (pushed blank) [] };
}

page-IsValid : IsValid page
unfolding put_int put_short
page-IsValid = record { block = refl; room = omega arith; size = omega arith; space = omega arith }

meta-Cleared : Cleared zeros 1 meta_key (manager meta_key) entry page (after_clear meta_key)
unfolding find_info same_key same_bytes initial clear_page clear_loop clear_turn
    set_to_first_page_file get_page_by_page_no new reset check_first_page load_page fill_page
    get_page_by_no free_space is_last_page save_page_to_file push get_first_page_no get_last_page_no
    get_content_offset init put_int put_short get_file_offset
meta-Cleared = record {
  entry = refl;
  cleared = refl;
  valid = page-IsValid;
  last = refl;
  writable = refl;
  size = refl;
  place = omega arith;
  next = omega arith;
  reserve1 = omega arith;
  empty = refl;
}

tables-Cleared : Cleared zeros 1 tables_key (manager tables_key) entry page (after_clear tables_key)
unfolding find_info same_key same_bytes initial clear_page clear_loop clear_turn
    set_to_first_page_file get_page_by_page_no new reset check_first_page load_page fill_page
    get_page_by_no free_space is_last_page save_page_to_file push get_first_page_no get_last_page_no
    get_content_offset init put_int put_short get_file_offset
tables-Cleared = record {
  entry = refl;
  cleared = refl;
  valid = page-IsValid;
  last = refl;
  writable = refl;
  size = refl;
  place = omega arith;
  next = omega arith;
  reserve1 = omega arith;
  empty = refl;
}

abbrev metas : Metas
metas = (107 ∷ [], 118 ∷ []) ∷ (108 ∷ [], []) ∷ []

read-save_metas_example :
    (m2 : Manager) × (Meta.save zeros 1 metas (manager meta_key) ≡ returned (true, m2))
    × (m3 : Manager) × (Meta.read zeros 1 [] (reopened (table_with meta_key) 2 m2)
        ≡ returned (true, metas, m3))
unfolding find_info same_key same_bytes initial init put_int put_short put_bytes
read-save_metas_example =
    read-save_metas zeros 1 0 2 (table_with meta_key) (manager meta_key) (after_clear meta_key)
      entry entry page (107 ∷ [], 118 ∷ []) ((108 ∷ [], []) ∷ []) meta-Cleared
      (record {
        page_size = refl;
        entry = refl;
        root = refl;
        unit = omega arith;
        some_buffer = omega arith;
        few_buffers = omega arith;
        few_pages = omega arith;
      })
      (omega arith) ((omega arith, omega arith), ((omega arith, omega arith), tt))
      ((refl, tt), (tt, tt)) (omega arith) (omega arith)

-- A text with an alias and a head.
abbrev title : FieldObject
title = record {
  data_type = field_text;
  field_name = 116 ∷ [];
  alias = 84 ∷ 84 ∷ [];
  read_only = true;
  is_allow_null = false;
  is_have_head = true;
  fhead = head_string (1 ∷ 2 ∷ 3 ∷ []);
  extern_fields = (107 ∷ [], 118 ∷ []) ∷ [];
  length_or_scale = 8;
}

abbrev goods : TableDef
goods = record {
  table_name = 103 ∷ [];
  field_set = [];
  is_save_by_group = true;
  index_type = index_hash;
}

abbrev tables : List Given
tables = (goods, title ∷ []) ∷ []

read-save_tables_example :
    (m2 : Manager) × (Tables.save zeros 1 (map given tables) (manager tables_key)
      ≡ returned (true, m2))
    × (m3 : Manager) × (Tables.read zeros 1 zeros 7 (reopened (table_with tables_key) 2 m2)
        ≡ returned (true, map given_back tables, m3))
unfolding find_info same_key same_bytes initial init put_int put_short put_bytes
read-save_tables_example =
    read-save_tables zeros zeros 1 0 7 2 (table_with tables_key) (manager tables_key)
      (after_clear tables_key) entry entry page (goods, title ∷ []) [] tables-Cleared
      (record {
        page_size = refl;
        entry = refl;
        root = refl;
        unit = omega arith;
        some_buffer = omega arith;
        few_buffers = omega arith;
        few_pages = omega arith;
      })
      (omega arith)
      (
        (
          omega arith,
          omega arith,
          (
            record {
              known = refl;
              field_name = omega arith;
              alias = omega arith;
              fhead = omega arith;
              few_extern_fields = omega arith;
              extern_fields = ((omega arith, omega arith), tt);
              distinct_keys = (tt, tt);
              length_or_scale = omega arith;
            },
            tt,
          ),
        ),
        tt,
      )
      (omega arith) (omega arith)

searches_of_tables :
    (get_table_def_at 1 (map given tables) ≡ none)
    × (get_table_def (103 ∷ []) (map given tables) ≡ get_table_def_at 0 (map given tables))
    × (get_table_name 0 [] (map given tables) ≡ (true, 103 ∷ []))
    × (length (add_table_def goods (map given tables)).1 ≡ 2)
unfolding get_table_name get_table_def_at get_table_def add_table_def same_bytes
searches_of_tables = (refl, refl, refl, refl)

metas_run :
    (get_meta_info (107 ∷ []) (add_meta_info (107 ∷ []) (7 ∷ []) metas) ≡ 7 ∷ [])
    × (get_meta_info (109 ∷ []) metas ≡ [])
unfolding get_meta_info add_meta_info same_bytes
metas_run = (refl, refl)
