-- ===== src/PageTable/Format.antt =====
-- The bytes of the page table of jni/KvDB/SMDPageManagement.cpp, and what is written of it.
use leveldblib.Prelude.{
  ℕ, ◌%◌, ◌^◌, ◌<◌, ◌≡◌, subst, List, [], ◌∷◌, ◌++◌, append_assoc, length, arith,
}
use leveldblib.Order.{All}
use leveldblib.Value.{put_int, put_short}
use leveldblib.Stream.{u32}
use leveldblib.Stream.Typed.{string_bytes}
use leveldblib.Stream.Chain.{
  Puts, >>-Puts, write_nothing-Puts, write_bytes-Puts, write_short-Puts, write_int-Puts,
  write_string-Puts,
}
use leveldblib.PageTable.{
  PageKey, PageNo, Inner, write_attributes, write_extern_attributes, write_entry, write_entries,
  write_inner,
}

-- What the fields of an entry hold fits their types.
abbrev pub FitsEntry : PageKey × PageNo → Type 0
FitsEntry (k, v) =
    (k.seg_type < 256)
    × (length k.table_name < 2 ^ 31)
    × (v.root_page_no < 2 ^ 32)
    × (v.offset < 2 ^ 16)
    × (v.min_unit < 2 ^ 16)
    × (v.last_page_no < 2 ^ 32)

abbrev pub FitsAttribute : List ℕ × List ℕ → Type 0
FitsAttribute (k, v) = (length k < 2 ^ 31) × (length v < 2 ^ 31)

-- What a page table holds fits its fields.
pub record FitsInner (m : Inner) : Type 0 where
  pub page_size : m.page_size < 2 ^ 16
  pub page_cnt : m.page_cnt < 2 ^ 32
  pub few_entries : length m.page_info < 2 ^ 31
  pub few_attributes : length m.extern_attributes < 2 ^ 31
  pub entries : All FitsEntry m.page_info
  pub attributes : All FitsAttribute m.extern_attributes

abbrev pub entry_bytes : PageKey × PageNo → List ℕ
entry_bytes (k, v) =
    (k.seg_type ∷ [])
    ++ (string_bytes k.table_name
        ++ (put_int v.root_page_no
            ++ (put_short v.offset ++ (put_short v.min_unit ++ put_int v.last_page_no))))

abbrev pub entries_bytes : List (PageKey × PageNo) → List ℕ
entries_bytes [] = []
entries_bytes (e ∷ entries) = entry_bytes e ++ entries_bytes entries

abbrev pub attributes_bytes : List (List ℕ × List ℕ) → List ℕ
attributes_bytes [] = []
attributes_bytes ((k, v) ∷ entries) = string_bytes k ++ (string_bytes v ++ attributes_bytes entries)

abbrev pub extern_bytes : List (List ℕ × List ℕ) → List ℕ
extern_bytes entries = put_int (length entries) ++ attributes_bytes entries

abbrev pub inner_bytes : Inner → List ℕ
inner_bytes m =
    put_short m.page_size
    ++ (put_int m.page_cnt
        ++ (put_int (length m.page_info)
            ++ (extern_bytes m.extern_attributes ++ entries_bytes m.page_info)))

write_entry-Puts : (e : PageKey × PageNo) → FitsEntry e → Puts (write_entry e) (entry_bytes e)
unfolding write_entry put_int
write_entry-Puts (k, v) f =
    let small : k.seg_type % 256 ≡ k.seg_type = omega (arith, f.0) in
    rw small (
      simp append_assoc at (
        >>-Puts
          (>>-Puts
            (>>-Puts
              (>>-Puts
                (>>-Puts (write_bytes-Puts (k.seg_type ∷ [])) (write_string-Puts k.table_name f.1))
                (write_int-Puts v.root_page_no))
              (write_short-Puts v.offset))
            (write_short-Puts v.min_unit))
          (write_int-Puts v.last_page_no)))

write_entries-Puts :
    (entries : List (PageKey × PageNo))
    → All FitsEntry entries
    → Puts (write_entries entries) (entries_bytes entries)
unfolding write_entries
write_entries-Puts [] f = write_nothing-Puts
write_entries-Puts (e ∷ entries) (f, fs) =
    >>-Puts (write_entry-Puts e f) (write_entries-Puts entries fs)

pub write_attributes-Puts :
    (entries : List (List ℕ × List ℕ))
    → All FitsAttribute entries
    → Puts (write_attributes entries) (attributes_bytes entries)
unfolding write_attributes
write_attributes-Puts [] f = write_nothing-Puts
write_attributes-Puts ((k, v) ∷ entries) (f, fs) =
    subst (Puts (write_attributes ((k, v) ∷ entries)))
      (append_assoc (string_bytes k) (string_bytes v) (attributes_bytes entries))
      (>>-Puts (>>-Puts (write_string-Puts k f.0) (write_string-Puts v f.1))
        (write_attributes-Puts entries fs))

pub write_extern_attributes-Puts :
    (entries : List (List ℕ × List ℕ))
    → length entries < 2 ^ 31
    → All FitsAttribute entries
    → Puts (write_extern_attributes entries) (extern_bytes entries)
unfolding write_extern_attributes
write_extern_attributes-Puts entries h f =
    let e : u32 (length entries) ≡ length entries = omega (arith, h) in
    rw e (>>-Puts (write_int-Puts (length entries)) (write_attributes-Puts entries f))

pub write_inner-Puts : (m : Inner) → FitsInner m → Puts (write_inner m) (inner_bytes m)
unfolding write_inner put_int
write_inner-Puts m f =
    let e : u32 (length m.page_info) ≡ length m.page_info = omega (arith, f.few_entries) in
    rw e (
      simp append_assoc at (
        >>-Puts
          (>>-Puts
            (>>-Puts (>>-Puts (write_short-Puts m.page_size) (write_int-Puts m.page_cnt))
              (write_int-Puts (length m.page_info)))
            (write_extern_attributes-Puts m.extern_attributes f.few_attributes f.attributes))
          (write_entries-Puts m.page_info f.entries)))
