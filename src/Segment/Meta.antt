-- ===== src/Segment/Meta.antt =====
-- jni/KvDB/SMDMetaSegment.cpp: pairs of strings. The `std::map` is the list of its entries.
pub mod RoundTrip
use leveldblib.Prelude.{ℕ, zero, suc, Bool, true, false, List, [], ◌∷◌, length, ltb, if◌then◌else◌}
use leveldblib.FileSystem.{same_bytes}
use leveldblib.Stream.{
  MemStream, Reader, Writer, u32, ◌>>◌, pure, set_position, read_int, read_string, write_int,
}
use leveldblib.Stream
use leveldblib.PageTable.{PageKey, write_attributes}
use leveldblib.Stream.Unchecked.{check, rounds}
use leveldblib.PageManager.{Manager}
use leveldblib.PageFile.{Run, returned, ◌>>=◌}
use leveldblib.Segment.{store, fetch, read_of}

abbrev pub Metas : Type 0
Metas = List (List ℕ × List ℕ)

-- The page file "smd_meta" of `SEG_TYPE_METAINFO`.
abbrev pub meta_key : PageKey
meta_key = record { seg_type = 1; table_name = 115 ∷ 109 ∷ 100 ∷ 95 ∷ 109 ∷ 101 ∷ 116 ∷ 97 ∷ [] }

-- `MAX_META_INFO_COUNT`
abbrev pub max_meta_info_count : ℕ
max_meta_info_count = 256

unfoldable pub add_meta_info : List ℕ → List ℕ → Metas → Metas
unfolding same_bytes
add_meta_info key value [] = (key, value) ∷ []
add_meta_info key value ((k, v) ∷ metas) =
    let rest = add_meta_info key value metas in
    if same_bytes k key then (k, value) ∷ metas else (k, v) ∷ rest

unfoldable pub get_meta_info : List ℕ → Metas → List ℕ
unfolding same_bytes
get_meta_info key [] = []
get_meta_info key ((k, v) ∷ metas) =
    let rest = get_meta_info key metas in if same_bytes k key then v else rest

-- The stream of `save`: its loop is the one that writes the attributes of the page table.
unfoldable pub write_metas : Metas → Writer
unfolding write_attributes
write_metas metas = write_int (u32 (length metas)) >> write_attributes metas

-- The loop of `read`, and what is before it. The `int` is not more than 256, or negative.
unfoldable pub read_pairs : ℕ → Metas → Reader (Bool × Metas)
unfolding add_meta_info
read_pairs zero metas = pure (true, metas)
read_pairs (suc n) metas =
    check read_string (false, metas)
      λ key. check read_string (false, metas) λ value. read_pairs n (add_meta_info key value metas)

abbrev pub read_if_few : Metas → ℕ → Reader (Bool × Metas)
read_if_few metas n =
    if ltb max_meta_info_count (rounds n) then pure (false, metas) else read_pairs (rounds n) metas

unfoldable pub read_metas : Metas → Reader (Bool × Metas)
unfolding read_pairs
read_metas metas = check read_int (false, metas) (read_if_few metas)

-- `read`, behind the `get`.
unfoldable pub read_fetched : Metas → Bool × MemStream × Manager → Run (Bool × Metas × Manager)
unfolding read_metas set_position
read_fetched metas (false, s, m) = returned (false, metas, m)
read_fetched metas (true, s, m) = read_of metas m (read_metas metas (set_position 0 s).1)

module _ (garbage : ℕ → List ℕ) (fuel : ℕ) where
  abbrev pub store_written : Bool × MemStream → Manager → Run (Bool × Manager)
  store_written (false, s) m = returned (false, m)
  store_written (true, s) m = store garbage fuel meta_key s m

  -- `save`
  unfoldable pub save : Metas → Manager → Run (Bool × Manager)
  unfolding write_metas store Stream.new
  save [] m = returned (true, m)
  save (e ∷ metas) m = store_written (write_metas (e ∷ metas) (Stream.new 0)) m

  -- `read`
  unfoldable pub read : Metas → Manager → Run (Bool × Metas × Manager)
  unfolding fetch read_fetched
  read metas m = fetch garbage fuel meta_key m >>= read_fetched metas
