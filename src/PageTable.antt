-- ===== src/PageTable.antt =====
-- The table of the page files in jni/KvDB/SMDPageManagement.cpp and SMDPageManagement.h: finding the
-- first and the last page of a file, and the table as bytes in a memory stream. A `std::map` is the
-- list of its entries, a string the list of its bytes, and a `SegType` its number.
pub mod Load
pub mod Format
pub mod Parse
pub mod RoundTrip
mod Tests
use leveldblib.Prelude.{
  ℕ, ◌%◌, Bool, false, ◌&&◌, Option, none, some, List, [], ◌∷◌, length, ◌==◌, if◌then◌else◌,
}
use leveldblib.FileSystem.{same_bytes}
use leveldblib.Stream.Unchecked.{write_nothing}
use leveldblib.Stream.{
  MemStream, Writer, u32, ◌>>◌, new, resize, set_position, write_bytes, write_short, write_int,
  write_string,
}

-- `PageKey_t`
pub record PageKey : Type 0 where
  pub seg_type : ℕ
  pub table_name : List ℕ

-- `PageNo_t`
pub record PageNo : Type 0 where
  pub offset : ℕ
  pub min_unit : ℕ
  pub root_page_no : ℕ
  pub last_page_no : ℕ

-- What `saveInnerInfoToFile` saves.
pub record Inner : Type 0 where
  pub page_size : ℕ
  pub page_cnt : ℕ
  pub extern_attributes : List (List ℕ × List ℕ)
  pub page_info : List (PageKey × PageNo)

unfoldable pub same_key : PageKey → PageKey → Bool
unfolding same_bytes
same_key a b = a.seg_type == b.seg_type && same_bytes a.table_name b.table_name

-- `m_PageInfo.find`
unfoldable pub find_info : PageKey → List (PageKey × PageNo) → Option PageNo
unfolding same_key
find_info k [] = none
find_info k ((j, v) ∷ entries) =
    let rest = find_info k entries in if same_key j k then some v else rest

-- `m_PageInfo[key] = value` for a key that is there, else `m_PageInfo.insert`.
unfoldable pub assign_info : PageKey → PageNo → List (PageKey × PageNo) → List (PageKey × PageNo)
unfolding same_key
assign_info k v [] = (k, v) ∷ []
assign_info k v ((j, w) ∷ entries) =
    let rest = assign_info k v entries in if same_key j k then (j, v) ∷ entries else (j, w) ∷ rest

-- `externAttributes.insert`, which leaves a key that is there.
unfoldable pub insert_attribute : List ℕ → List ℕ → List (List ℕ × List ℕ) → List (List ℕ × List ℕ)
unfolding same_bytes
insert_attribute k v [] = (k, v) ∷ []
insert_attribute k v ((j, w) ∷ entries) =
    let rest = insert_attribute k v entries in
    if same_bytes j k then (j, w) ∷ entries else (j, w) ∷ rest

-- `getFirstPageNo` and `getLastPageNo`; -1 is 0xffffffff.
abbrev pub root_of : Option PageNo → ℕ
root_of none = 0xffff_ffff
root_of (some v) = v.root_page_no

abbrev pub last_of : Option PageNo → ℕ
last_of none = 0xffff_ffff
last_of (some v) = v.last_page_no

unfoldable pub get_first_page_no : PageKey → Inner → ℕ
unfolding find_info
get_first_page_no k m = root_of (find_info k m.page_info)

unfoldable pub get_last_page_no : PageKey → Inner → ℕ
unfolding find_info
get_last_page_no k m = last_of (find_info k m.page_info)

-- `incLastPageNo`, on the first entry with that last page.
unfoldable pub inc_last_page_no : ℕ → ℕ → List (PageKey × PageNo) → List (PageKey × PageNo)
inc_last_page_no last new_last [] = []
inc_last_page_no last new_last ((k, v) ∷ entries) =
    let rest = inc_last_page_no last new_last entries in
    if v.last_page_no == last
    then (k, record v { last_page_no = new_last }) ∷ entries
    else (k, v) ∷ rest

-- The constructor's entry for the table itself; the members that it leaves alone are 0.
abbrev pub manager_key : PageKey
manager_key = record {
  seg_type = 6;
  table_name = 115 ∷ 109 ∷ 100 ∷ 95 ∷ 112 ∷ 97 ∷ 103 ∷ 101 ∷ 109 ∷ 103 ∷ 114 ∷ [];
}

unfoldable pub initial : ℕ → Inner
initial page_size = record {
  page_size = page_size;
  page_cnt = 0;
  extern_attributes = [];
  page_info =
      (manager_key, record { offset = 0; min_unit = 0; root_page_no = 0; last_page_no = 0 }) ∷ [];
}

-- `writeExternAttributes`
unfoldable pub write_attributes : List (List ℕ × List ℕ) → Writer
write_attributes [] = write_nothing
write_attributes ((k, v) ∷ entries) = write_string k >> write_string v >> write_attributes entries

unfoldable pub write_extern_attributes : List (List ℕ × List ℕ) → Writer
unfolding write_attributes
write_extern_attributes entries = write_int (u32 (length entries)) >> write_attributes entries

-- The loop of `saveInnerInfoToFile`.
unfoldable pub write_entry : PageKey × PageNo → Writer
write_entry (k, v) =
    write_bytes (k.seg_type % 256 ∷ [])
    >> write_string k.table_name
    >> write_int v.root_page_no
    >> write_short v.offset
    >> write_short v.min_unit
    >> write_int v.last_page_no

unfoldable pub write_entries : List (PageKey × PageNo) → Writer
unfolding write_entry
write_entries [] = write_nothing
write_entries (e ∷ entries) = write_entry e >> write_entries entries

-- `saveInnerInfoToFile`, up to the stream that it puts into the page file.
unfoldable pub write_inner : Inner → Writer
unfolding write_extern_attributes write_entries
write_inner m =
    write_short m.page_size
    >> write_int m.page_cnt
    >> write_int (u32 (length m.page_info))
    >> write_extern_attributes m.extern_attributes
    >> write_entries m.page_info

unfoldable pub save_inner : Inner → Bool × MemStream
unfolding write_inner
save_inner m =
    let (ok, s) = write_bytes (1 ∷ []) (resize 4 (new 0)) in
    if ok then write_inner m (set_position 4 s).1 else (false, s)
