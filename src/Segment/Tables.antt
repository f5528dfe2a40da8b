-- ===== src/Segment/Tables.antt =====
-- jni/KvDB/SMDTableSegment.cpp: the definitions of tables. None of them is NULL.
pub mod RoundTrip
use leveldblib.Prelude.{
  ℕ, zero, suc, Bool, true, false, Option, none, some, List, [], ◌∷◌, ◌++◌, length, get_elem?, leb,
  if◌then◌else◌,
}
use leveldblib.FileSystem.{same_bytes}
use leveldblib.Stream.{MemStream, Reader, Writer, u32, pure, set_position, read_int, write_int}
use leveldblib.Stream
use leveldblib.PageTable.{PageKey}
use leveldblib.Stream.Unchecked.{write_nothing}
use leveldblib.Stream.Unchecked.{check, rounds}
use leveldblib.PageManager.{Manager}
use leveldblib.PageFile.{Run, returned, undefined, ◌>>=◌}
use leveldblib.TableDef.{TableDef, index_bp_tree}
use leveldblib.TableDef
use leveldblib.Stream.Unchecked.{◌also◌}
use leveldblib.TableDef.Store
use leveldblib.TableDef.Load
use leveldblib.Segment.{store, fetch, read_of}

-- The page file "table_seg" of `SEG_TYPE_TABLES`.
abbrev pub tables_key : PageKey
tables_key = record {
  seg_type = 3;
  table_name = 116 ∷ 97 ∷ 98 ∷ 108 ∷ 101 ∷ 95 ∷ 115 ∷ 101 ∷ 103 ∷ [];
}

-- `getTableDef` of an `int` that is not negative, and of a name.
unfoldable pub get_table_def_at : ℕ → List TableDef → Option TableDef
get_table_def_at index tables = if leb (length tables) index then none else get_elem? tables index

-- `getTableName`: whether it is there, and the name, or the one that was given.
abbrev pub name_or : List ℕ → Option TableDef → Bool × List ℕ
name_or name none = (false, name)
name_or name (some t) = (true, t.table_name)

unfoldable pub get_table_name : ℕ → List ℕ → List TableDef → Bool × List ℕ
unfolding get_table_def_at
get_table_name index name tables = name_or name (get_table_def_at index tables)

unfoldable pub get_table_def : List ℕ → List TableDef → Option TableDef
unfolding same_bytes
get_table_def name [] = none
get_table_def name (t ∷ tables) =
    let rest = get_table_def name tables in if same_bytes t.table_name name then some t else rest

unfoldable pub add_table_def : TableDef → List TableDef → Bool × List TableDef
add_table_def t tables = (true, tables ++ (t ∷ []))

-- The loop of `save`; `none` is a NULL field that is written.
abbrev pub both : Option Writer → Option Writer → Option Writer
both none w = none
both (some v) none = none
both (some v) (some w) = some (v also w)

unfoldable pub write_tables : List TableDef → Option Writer
unfolding TableDef.Store.write
write_tables [] = some write_nothing
write_tables (t ∷ tables) = both (TableDef.Store.write t) (write_tables tables)

-- The loop of `read`, with a new `TableDef("")` in every round.
module _ (heap : ℕ → List ℕ) (unset : ℕ) where
  unfoldable pub read_tables : ℕ → List TableDef → Reader (List TableDef)
  unfolding TableDef.Load.read TableDef.new
  read_tables zero tables = pure tables
  read_tables (suc n) tables =
      Stream.◌>>=◌ (TableDef.Load.read heap unset (TableDef.new [] true index_bp_tree))
        λ (ok, t). read_tables n (tables ++ (t ∷ []))

  abbrev pub read_all : ℕ → Reader (Bool × List TableDef)
  read_all n = Stream.◌>>=◌ (read_tables (rounds n) []) λ tables. pure (true, tables)

  unfoldable pub read_segment : Reader (Bool × List TableDef)
  unfolding read_tables
  read_segment = check read_int (false, []) read_all

  unfoldable pub read_fetched : Bool × MemStream × Manager → Run (Bool × List TableDef × Manager)
  unfolding read_segment set_position
  read_fetched (false, s, m) = returned (false, [], m)
  read_fetched (true, s, m) = read_of [] m (read_segment (set_position 0 s).1)

module _ (garbage : ℕ → List ℕ) (fuel : ℕ) where
  abbrev pub store_written : Option Writer → Bool × MemStream → Manager → Run (Bool × Manager)
  store_written none s m = undefined
  store_written (some w) (false, s) m = returned (false, m)
  store_written (some w) (true, s) m = store garbage fuel tables_key (w s).1 m

  -- `save`
  unfoldable pub save : List TableDef → Manager → Run (Bool × Manager)
  unfolding write_tables store Stream.new
  save [] m = returned (true, m)
  save (t ∷ tables) m =
      store_written (write_tables (t ∷ tables))
        (write_int (u32 (length (t ∷ tables))) (Stream.new 0)) m

  -- `read`, after `Release`.
  unfoldable pub read : (ℕ → List ℕ) → ℕ → Manager → Run (Bool × List TableDef × Manager)
  unfolding fetch read_fetched
  read heap unset m = fetch garbage fuel tables_key m >>= read_fetched heap unset
