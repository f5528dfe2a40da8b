-- ===== src/PageTable/Parse.antt =====
-- The bytes of the page table of jni/KvDB/SMDPageManagement.cpp: what is read where they stand.
use leveldblib.Prelude.{ℕ, ◌^◌, ◌<◌, true, List, [], ◌∷◌, append_assoc, length, arith}
use leveldblib.Order.{All}
use leveldblib.Value.{put_int}
use leveldblib.Stream.Chain.{
  Gets, >>=-Gets, pure-Gets, read_bytes-Gets, read_checked-Gets, read_short-Gets, read_int-Gets,
  read_string-Gets, rounds_of_small,
}
use leveldblib.PageTable.{PageKey, PageNo, Inner, assign_info, insert_attribute}
use leveldblib.PageTable.Load.{read_attributes, read_extern_attributes, read_entries, read_inner}
use leveldblib.PageTable.Format.{
  FitsEntry, FitsAttribute, FitsInner, entries_bytes, attributes_bytes, extern_bytes, inner_bytes,
}

-- What reading makes of the entries: they are put into the maps in order.
abbrev pub inserted : List (List ℕ × List ℕ) → List (List ℕ × List ℕ) → List (List ℕ × List ℕ)
inserted [] acc = acc
inserted ((k, v) ∷ entries) acc = inserted entries (insert_attribute k v acc)

abbrev pub assigned : List (PageKey × PageNo) → List (PageKey × PageNo) → List (PageKey × PageNo)
assigned [] acc = acc
assigned ((k, v) ∷ entries) acc = assigned entries (assign_info k v acc)

-- The table that reading leaves, for one that there was before.
abbrev pub merged : Inner → Inner → Inner
merged m before = record {
  page_size = m.page_size;
  page_cnt = m.page_cnt;
  extern_attributes = inserted m.extern_attributes before.extern_attributes;
  page_info = assigned m.page_info before.page_info;
}

read_attributes-Gets :
    (entries acc : List (List ℕ × List ℕ))
    → All FitsAttribute entries
    → Gets (read_attributes (length entries) acc) (attributes_bytes entries) (inserted entries acc)
unfolding read_attributes
read_attributes-Gets [] acc f = pure-Gets
read_attributes-Gets ((k, v) ∷ entries) acc (f, fs) = >>=-Gets _ (read_string-Gets k f.0) (
    >>=-Gets _ (read_string-Gets v f.1)
      (read_attributes-Gets entries (insert_attribute k v acc) fs))

pub read_extern_attributes-Gets :
    (entries acc : List (List ℕ × List ℕ))
    → length entries < 2 ^ 31
    → All FitsAttribute entries
    → Gets (read_extern_attributes acc) (extern_bytes entries) (inserted entries acc)
unfolding read_extern_attributes
read_extern_attributes-Gets entries acc h f =
    >>=-Gets _ (read_int-Gets (length entries) (omega (arith, h)))
      (rw (rounds_of_small (length entries) h) (read_attributes-Gets entries acc f))

read_entries-Gets :
    (entries : List (PageKey × PageNo)) (m : Inner)
    → All FitsEntry entries
    → Gets
        (read_entries (length entries) m)
        (entries_bytes entries)
        (true, record m { page_info = assigned entries m.page_info })
unfolding read_entries put_int
read_entries-Gets [] m f = pure-Gets
read_entries-Gets ((k, v) ∷ entries) m (f, fs) =
    let next =
      read_entries-Gets entries (record m { page_info = assign_info k v m.page_info }) fs in
    simp append_assoc (
      >>=-Gets _ (read_bytes-Gets (k.seg_type ∷ [])) (
        >>=-Gets _ (read_checked-Gets k.table_name f.1) (
          >>=-Gets _ (read_int-Gets v.root_page_no f.2) (
            >>=-Gets _ (read_short-Gets v.offset f.3) (
              >>=-Gets _ (read_short-Gets v.min_unit f.4)
                (>>=-Gets _ (read_int-Gets v.last_page_no f.5) next))))))

pub read_inner-Gets :
    (m before : Inner)
    → FitsInner m
    → Gets (read_inner before) (inner_bytes m) (true, merged m before)
unfolding read_inner
read_inner-Gets m before f = >>=-Gets _ (read_short-Gets m.page_size f.page_size) (
    >>=-Gets _ (read_int-Gets m.page_cnt f.page_cnt) (
      >>=-Gets _ (read_int-Gets (length m.page_info) (omega (arith, f.few_entries))) (
        >>=-Gets _
          (read_extern_attributes-Gets m.extern_attributes before.extern_attributes f.few_attributes
            f.attributes)
          (rw (rounds_of_small (length m.page_info) f.few_entries) (
            read_entries-Gets m.page_info
              (record before {
                page_size = m.page_size;
                page_cnt = m.page_cnt;
                extern_attributes = inserted m.extern_attributes before.extern_attributes;
              })
              f.entries)))))
