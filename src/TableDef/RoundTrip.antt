-- ===== src/TableDef/RoundTrip.antt =====
-- A table's definition in jni/KvDB/TableDef.cpp: what is written of it, and what is read where those
-- bytes stand.
use leveldblib.Prelude.{
  ℕ, suc, ◌^◌, ◌<◌, ◌≡◌, refl, ap, subst, ◌∙◌, true, false, Option, some, List, [], ◌∷◌, ◌++◌,
  append-nil, append_assoc, length, map, lt→ltb, arith,
}
use leveldblib.Order.{All}
use leveldblib.Value.{put_short, put_int}
use leveldblib.Stream.{Writer, u32, ◌>>=◌, read_int}
use leveldblib.Stream.Typed.{string_bytes}
use leveldblib.Stream.Unchecked.{write_nothing}
use leveldblib.Stream.Unchecked.{attempt, rounds}
use leveldblib.Stream.Chain.{rounds_of_small}
use leveldblib.TableDef.{
  FieldObject, IndexType, index_null, index_b_tree, index_bp_tree, index_hash, TableDef,
}
use leveldblib.TableDef.Store.{short_of, before, write_field_set, index_code, write}
use leveldblib.Stream.Unchecked.{◌also◌}
use leveldblib.TableDef.Load.{
  get_index_type_from_short, text_or, read_text_over, read_field_set, read_table, returned_true,
  read,
}
use leveldblib.Stream.Chain.{
  Puts, Gets, also-Puts, >>=-Gets, pure-Gets, finish-Gets, unless_empty-Gets, write_nothing-Puts,
  write_short-Puts, write_int-Puts, write_string-Puts, read_short-Gets, read_int-Gets,
  read_bytes-Gets,
}
use leveldblib.TableDef.Fields.{
  FitsField, field_bytes, without_alias, write_field-Puts, create_field_by_stream-Gets,
  short_of_small, is_set-short_of,
}

-- A table whose fields are `fields`; none of them is NULL.
abbrev pub table_of : TableDef → List FieldObject → TableDef
table_of t fields = record t { field_set = map some fields }

abbrev fields_bytes : List FieldObject → List ℕ
fields_bytes [] = []
fields_bytes (f ∷ fields) = field_bytes f ++ fields_bytes fields

abbrev head_bytes : TableDef → ℕ → List ℕ
head_bytes t n =
    string_bytes t.table_name
    ++ (put_short (index_code t.index_type)
        ++ (put_short (short_of t.is_save_by_group) ++ put_int n))

abbrev pub table_bytes : TableDef → List FieldObject → List ℕ
table_bytes t fields = head_bytes t (length fields) ++ fields_bytes fields

-- Writing.
pub data PutsAll (w : Option Writer) (bytes : List ℕ) : Type 0 where
  puts_all : (v : Writer) → w ≡ some v → Puts v bytes → PutsAll w bytes

before-PutsAll :
    {v : Writer} {w : Option Writer} {xs ys : List ℕ}
    → Puts v xs
    → PutsAll w ys
    → PutsAll (before v w) (xs ++ ys)
before-PutsAll {v} f (puts_all w e g) = puts_all (v also w) (ap (before v) e) (also-Puts f g)

write_field_set-PutsAll :
    (fields : List FieldObject)
    → All FitsField fields
    → PutsAll (write_field_set (map some fields)) (fields_bytes fields)
unfolding write_field_set
write_field_set-PutsAll [] h = puts_all write_nothing refl write_nothing-Puts
write_field_set-PutsAll (f ∷ fields) (h, hs) =
    before-PutsAll (write_field-Puts f h) (write_field_set-PutsAll fields hs)

count_of_fields : (fields : List FieldObject) → length (map some fields) ≡ length fields
count_of_fields [] = refl
count_of_fields (f ∷ fields) = ap suc (count_of_fields fields)

pub write-PutsAll :
    (t : TableDef) (fields : List FieldObject)
    → length t.table_name < 2 ^ 31
    → length fields < 2 ^ 31
    → All FitsField fields
    → PutsAll (write (table_of t fields)) (table_bytes t fields)
unfolding write
write-PutsAll t fields h k hs =
    let n : u32 (length (map some fields)) ≡ length fields =
      omega (arith, k, count_of_fields fields) in
    rw n (
      before-PutsAll
        (also-Puts (write_string-Puts t.table_name h) (
          also-Puts (write_short-Puts (index_code t.index_type)) (
            also-Puts (write_short-Puts (short_of t.is_save_by_group))
              (write_int-Puts (length fields)))))
        (write_field_set-PutsAll fields hs))

-- Reading.
abbrev pub read_fields_of : List FieldObject → List (Option FieldObject)
read_fields_of fields = map (λ f. some (without_alias f)) fields

read_field_set-Gets :
    (heap : ℕ → List ℕ) (unset : ℕ) (fields : List FieldObject) (acc : List (Option FieldObject))
    → All FitsField fields
    → Gets
        (read_field_set heap unset (length fields) acc)
        (fields_bytes fields)
        (acc ++ read_fields_of fields)
unfolding read_field_set
read_field_set-Gets heap unset [] acc h = rw (append-nil acc) pure-Gets
read_field_set-Gets heap unset (f ∷ fields) acc (h, hs) =
    let g = some (without_alias f) in
    let e : acc ++ (g ∷ []) ++ read_fields_of fields ≡ acc ++ (g ∷ read_fields_of fields) =
      append_assoc acc (g ∷ []) (read_fields_of fields) in
    >>=-Gets (λ x. read_field_set heap unset (length fields) (acc ++ (x ∷ [])))
      (create_field_by_stream-Gets heap unset f h)
      (subst
        (Gets (read_field_set heap unset (length fields) (acc ++ (g ∷ []))) (fields_bytes fields)) e
        (read_field_set-Gets heap unset fields (acc ++ (g ∷ [])) hs))

read_name-Gets :
    (old str : List ℕ)
    → length str < 2 ^ 31
    → Gets (attempt read_int >>= read_text_over old) (string_bytes str) str
unfolding read_text_over
read_name-Gets old str h =
    >>=-Gets (read_text_over old) (read_int-Gets (length str) (omega arith)) (
      rw (lt→ltb (length str) (2 ^ 31) h)
        (finish-Gets (text_or old (length str)) (read_bytes-Gets str)))

index_type_of_code : (i : IndexType) → get_index_type_from_short (index_code i) ≡ i
unfolding get_index_type_from_short
index_type_of_code index_null = refl
index_type_of_code index_b_tree = refl
index_type_of_code index_bp_tree = refl
index_type_of_code index_hash = refl

index_code_small : (i : IndexType) → index_code i < 2 ^ 16
index_code_small i = grind arith

-- The table that reading gives.
abbrev pub read_back : TableDef → List FieldObject → TableDef
read_back t fields = record t { field_set = read_fields_of fields }

read_table-Gets :
    (heap : ℕ → List ℕ) (unset : ℕ) (old t : TableDef) (fields : List FieldObject)
    → length t.table_name < 2 ^ 31
    → length fields < 2 ^ 31
    → All FitsField fields
    → Gets (read_table heap unset old) (table_bytes t fields) (read_back t fields)
unfolding read_table put_int
read_table-Gets heap unset old t fields h k hs =
    let n = length fields in
    let few : u32 n ≡ n = omega (arith, k) in
    let same : rounds (u32 n) ≡ n = ap rounds few ∙ rounds_of_small n k in
    let i = index_type_of_code t.index_type in
    let b = is_set-short_of t.is_save_by_group in
    simp append_assoc (
      >>=-Gets _ (read_name-Gets old.table_name t.table_name h) (
        >>=-Gets _ (read_short-Gets (index_code t.index_type) (index_code_small t.index_type)) (
          >>=-Gets _
            (read_short-Gets (short_of t.is_save_by_group) (short_of_small t.is_save_by_group))
            (>>=-Gets _ (read_int-Gets n (omega (arith, k)))
              (rw (same, i, b) (finish-Gets _ (read_field_set-Gets heap unset fields [] hs)))))))

table_bytes_some : (t : TableDef) (fields : List FieldObject) → 0 < length (table_bytes t fields)
unfolding put_int
table_bytes_some t fields = omega arith

-- `read` into any table, where those bytes stand.
pub table-Gets :
    (heap : ℕ → List ℕ) (unset : ℕ) (old t : TableDef) (fields : List FieldObject)
    → length t.table_name < 2 ^ 31
    → length fields < 2 ^ 31
    → All FitsField fields
    → Gets (read heap unset old) (table_bytes t fields) (true, read_back t fields)
unfolding read
table-Gets heap unset old t fields h k hs =
    unless_empty-Gets (false, old) (table_bytes_some t fields)
      (finish-Gets returned_true (read_table-Gets heap unset old t fields h k hs))
