-- ===== src/Segment/Tables/RoundTrip.antt =====
-- jni/KvDB/SMDTableSegment.cpp: the definitions of tables that `save` saves are those that `read` reads
-- when the file is opened again, but for the aliases of the fields.
use leveldblib.Prelude.{
  ℕ, suc, ◌+◌, ◌^◌, ◌≤◌, ◌<◌, ◌≡◌, refl, ap, subst, true, false, Option, some, List, [], ◌∷◌, ◌++◌,
  append-nil, append_assoc, length, map, arith,
}
use leveldblib.Order.{All}
use leveldblib.Value.{put_int}
use leveldblib.Value.Codec.{length-put_int}
use leveldblib.Stream.{MemStream, Writer, done, u32, new, write_int}
use leveldblib.Stream.Format.{at}
use leveldblib.PageTable.{Inner, PageNo}
use leveldblib.Stream.Unchecked.{write_nothing}
use leveldblib.Stream.Unchecked.{or_return}
use leveldblib.Stream.Chain.{rounds_of_small}
use leveldblib.Page.{Page}
use leveldblib.PageManager.{Manager}
use leveldblib.PageManager.Save.{reopened}
use leveldblib.PageFile.{returned}
use leveldblib.TableDef.{FieldObject, TableDef, index_bp_tree}
use leveldblib.TableDef
use leveldblib.Stream.Unchecked.{◌also◌}
use leveldblib.Stream.Chain.{
  Gets, Puts-Writes, Gets-Reads, also-Puts, >>=-Gets, pure-Gets, finish-Gets, write_nothing-Puts,
  write_int-Puts, read_int-Gets,
}
use leveldblib.TableDef.Fields.{FitsField}
use leveldblib.TableDef.RoundTrip.{
  PutsAll, puts_all, table_of, table_bytes, read_back, write-PutsAll, table-Gets,
}
use leveldblib.Segment.{store, fetch}
use leveldblib.Segment.Kept.{rewind_lem, Cleared, Reopens, kept_in, store_lem, fetch_lem}
use leveldblib.Segment.Tables.{
  tables_key, both, write_tables, read_tables, read_all, read_segment, read_fetched, save, read,
}

-- A table without its fields, and the fields, none of which is NULL.
abbrev pub Given : Type 0
Given = TableDef × List FieldObject

abbrev pub FitsTable : Given → Type 0
FitsTable (t, fields) =
    (length t.table_name < 2 ^ 31) × (length fields < 2 ^ 31) × All FitsField fields

abbrev pub given : Given → TableDef
given (t, fields) = table_of t fields

abbrev pub given_back : Given → TableDef
given_back (t, fields) = read_back t fields

abbrev given_bytes : Given → List ℕ
given_bytes (t, fields) = table_bytes t fields

abbrev tables_bytes : List Given → List ℕ
tables_bytes [] = []
tables_bytes (t ∷ tables) = given_bytes t ++ tables_bytes tables

abbrev pub segment_bytes : List Given → List ℕ
segment_bytes tables = put_int (length tables) ++ tables_bytes tables

both-PutsAll :
    {v w : Option Writer} {xs ys : List ℕ}
    → PutsAll v xs
    → PutsAll w ys
    → PutsAll (both v w) (xs ++ ys)
both-PutsAll {v} {w} {xs} {ys} (puts_all a d f) (puts_all b e g) =
    let made : both v w ≡ some (a also b) = rw (d, e) refl in
    puts_all (a also b) made (also-Puts f g)

write_tables-PutsAll :
    (tables : List Given)
    → All FitsTable tables
    → PutsAll (write_tables (map given tables)) (tables_bytes tables)
unfolding write_tables
write_tables-PutsAll [] f = puts_all write_nothing refl write_nothing-Puts
write_tables-PutsAll ((t, fields) ∷ tables) ((a, b, c), fs) =
    both-PutsAll (write-PutsAll t fields a b c) (write_tables-PutsAll tables fs)

module _ (heap : ℕ → List ℕ) (unset : ℕ) where
  read_tables-Gets :
      (tables : List Given) (acc : List TableDef)
      → All FitsTable tables
      → Gets
          (read_tables heap unset (length tables) acc)
          (tables_bytes tables)
          (acc ++ map given_back tables)
  unfolding read_tables
  read_tables-Gets [] acc f = rw (append-nil acc) pure-Gets
  read_tables-Gets ((t, fields) ∷ tables) acc ((a, b, c), fs) =
      let g = read_back t fields in
      let moved : acc ++ (g ∷ []) ++ map given_back tables ≡ acc ++ (g ∷ map given_back tables) =
        append_assoc acc (g ∷ []) (map given_back tables) in
      >>=-Gets (λ (ok, u). read_tables heap unset (length tables) (acc ++ (u ∷ [])))
        (table-Gets heap unset (TableDef.new [] true index_bp_tree) t fields a b c)
        (subst
          (Gets (read_tables heap unset (length tables) (acc ++ (g ∷ []))) (tables_bytes tables))
          moved (read_tables-Gets tables (acc ++ (g ∷ [])) fs))

  read_segment-Gets :
      (tables : List Given)
      → length tables < 2 ^ 31
      → All FitsTable tables
      → Gets (read_segment heap unset) (segment_bytes tables) (true, map given_back tables)
  unfolding read_segment
  read_segment-Gets tables h f =
      let n = length tables in
      let body : Gets (read_all heap unset n) (tables_bytes tables) (true, map given_back tables) =
        rw (rounds_of_small n h)
          (finish-Gets (λ (ts : List TableDef). (true, ts)) (read_tables-Gets tables [] f)) in
      >>=-Gets (or_return (false, []) (read_all heap unset)) (read_int-Gets n (omega (arith, h)))
        body

save_steps :
    (garbage : ℕ → List ℕ) (fuel : ℕ) (t : TableDef) (tables : List TableDef) (w : Writer)
    (s s1 : MemStream) (m m2 : Manager)
    → write_tables (t ∷ tables) ≡ some w
    → write_int (u32 (length (t ∷ tables))) (new 0) ≡ (true, s)
    → w s ≡ (true, s1)
    → store garbage fuel tables_key s1 m ≡ returned (true, m2)
    → save garbage fuel (t ∷ tables) m ≡ returned (true, m2)
unfolding save
save_steps garbage fuel t tables w s s1 m m2 a b c h = rw (a, b, c, h) refl

read_steps :
    (garbage heap : ℕ → List ℕ) (fuel unset : ℕ) (bytes : List ℕ) (r : MemStream)
    (tables : List TableDef) (m m2 : Manager)
    → fetch garbage fuel tables_key m ≡ returned (true, at bytes 0, m2)
    → read_segment heap unset (at bytes 0) ≡ (done (true, tables), r)
    → read garbage fuel heap unset m ≡ returned (true, tables, m2)
unfolding read read_fetched
read_steps garbage heap fuel unset bytes r tables m m2 f e = rw (f, rewind_lem bytes, e) refl

segment_bytes_some : (tables : List Given) → 0 < length (segment_bytes tables)
unfolding put_int
segment_bytes_some tables = omega arith

count_of_tables : (tables : List Given) → length (map given tables) ≡ length tables
count_of_tables [] = refl
count_of_tables (t ∷ tables) = ap suc (count_of_tables tables)

-- A segment of 1 up to 2 ^ 31 - 1 tables without NULL fields, whose names, counts and members fit
-- their types and the stream's formats. `clearPage` of its page file leaves a last page that is valid
-- and empty, and the bytes of the tables with their length fit that page; the file is opened again
-- with a table of page files that has this page as the first of the page file. `save` succeeds, and
-- `read` then succeeds and gives the tables in their order, each with its fields in their order, in
-- which only the aliases are empty.
pub read-save_tables :
    (garbage heap : ℕ → List ℕ) (fuel n unset max_buffer_num : ℕ) (inner : Inner) (m m1 : Manager)
    (v v' : PageNo) (p : Page) (t : Given) (tables : List Given)
    → Cleared garbage fuel tables_key m v p m1
    → Reopens tables_key inner max_buffer_num p m1 v' (segment_bytes (t ∷ tables))
    → length (t ∷ tables) < 2 ^ 31
    → All FitsTable (t ∷ tables)
    → length (segment_bytes (t ∷ tables)) < 2 ^ 31
    → length (segment_bytes (t ∷ tables)) + 4 ≤ p.space
    → (m2 : Manager) × (save garbage fuel (map given (t ∷ tables)) m ≡ returned (true, m2))
      × (m3 : Manager) × (read garbage (suc n) heap unset (reopened inner max_buffer_num m2)
          ≡ returned (true, map given_back (t ∷ tables), m3))
unfolding new put_int
read-save_tables garbage heap fuel n unset nb inner m m1 v v' p t tables c r few fits small room =
    let all = t ∷ tables in
    let bytes = segment_bytes all in
    let count = put_int (length all) in
    let full = segment_bytes_some all in
    let m2 = kept_in bytes p m1 in
    let s1 = at bytes (0 + length count + length (tables_bytes all)) in
    let l = length-put_int (length all) in
    let same : u32 (length (map given all)) ≡ length all =
      omega (arith, few, count_of_tables all) in
    let counted : write_int (u32 (length (map given all))) (new 0)
        ≡ (true, at count (0 + length count)) =
      rw same (Puts-Writes (write_int-Puts (length all)) [] (omega (arith, l))) in
    let stored' = store_lem garbage fuel tables_key m m1 v p s1 c full room in
    let (m3, got) =
      fetch_lem garbage fuel n nb tables_key inner m m1 v v' p bytes c r full small room in
    let whole : bytes ++ [] ≡ bytes = append-nil bytes in
    let back =
      Gets-Reads (read_segment-Gets heap unset all few fits) [] [] (omega (arith, small)) in
    elim (write_tables-PutsAll all fits) [
      | puts_all w e f ↦
          let wrote : w (at count (0 + length count)) ≡ (true, s1) =
            Puts-Writes f count (omega (arith, small)) in
          (
            m2,
            save_steps garbage fuel (given t) (map given tables) w (at count (0 + length count)) s1
                m m2 e counted wrote stored',
            m3,
            read_steps garbage heap (suc n) unset bytes (at bytes (0 + length bytes))
                (map given_back all) (reopened inner nb m2) m3 got (rw whole at back),
          )
    ]
