-- ===== src/PageTable/Load.antt =====
-- jni/KvDB/SMDPageManagement.cpp: the page table from a memory stream.
use leveldblib.Prelude.{ℕ, zero, suc, Bool, true, false, List, ◌==◌, if◌then◌else◌}
use leveldblib.Value.{byte}
use leveldblib.Stream.{
  Reader, ◌>>=◌, pure, set_position, read_bytes, read_short, read_int, read_string,
}
use leveldblib.Stream.Unchecked.{attempt, check, int_or_zero, read_string_unchecked, rounds}
use leveldblib.PageTable.{Inner, assign_info, insert_attribute}

unfoldable pub read_attributes : ℕ → List (List ℕ × List ℕ) → Reader (List (List ℕ × List ℕ))
unfolding read_string_unchecked insert_attribute
read_attributes zero entries = pure entries
read_attributes (suc n) entries = read_string_unchecked >>= λ k.
    read_string_unchecked >>= λ v. read_attributes n (insert_attribute k v entries)

-- `readExternAttributes`
unfoldable pub read_extern_attributes : List (List ℕ × List ℕ) → Reader (List (List ℕ × List ℕ))
unfolding read_attributes
read_extern_attributes entries =
    attempt read_int >>= λ o. read_attributes (rounds (int_or_zero o)) entries

-- The loop of `getInnerInfoFromFile`.
unfoldable pub read_entries : ℕ → Inner → Reader (Bool × Inner)
unfolding assign_info
read_entries zero m = pure (true, m)
read_entries (suc n) m =
    check (read_bytes 1) (false, m)
      λ t.
        check read_string (false, m)
          λ name.
            check read_int (false, m)
              λ root.
                check read_short (false, m)
                  λ offset.
                    check read_short (false, m)
                      λ min_unit.
                        check read_int (false, m)
                          λ last. read_entries n (record m {
                            page_info =
                                assign_info (record { seg_type = byte t 0; table_name = name })
                                  (record {
                                    offset = offset;
                                    min_unit = min_unit;
                                    root_page_no = root;
                                    last_page_no = last;
                                  })
                                  m.page_info;
                          })

-- `getInnerInfoFromFile`, from the stream that it gets of the page file on: the `bool`, and what
-- has been read. A table that was never saved begins with 0.
unfoldable pub read_inner : Inner → Reader (Bool × Inner)
unfolding read_extern_attributes read_entries
read_inner m =
    check read_short (false, m)
      λ page_size.
        check read_int (false, record m { page_size = page_size })
          λ page_cnt.
            check read_int (false, record m { page_size = page_size; page_cnt = page_cnt })
              λ size. read_extern_attributes m.extern_attributes >>= λ attributes.
                read_entries (rounds size) (record m {
                  page_size = page_size;
                  page_cnt = page_cnt;
                  extern_attributes = attributes;
                })

unfoldable pub load_inner : Inner → Reader (Bool × Inner)
unfolding read_inner
load_inner m =
    check (read_bytes 1) (true, m)
      λ beg. if byte beg 0 == 0 then pure (true, m) else (λ s. read_inner m (set_position 4 s).1)
