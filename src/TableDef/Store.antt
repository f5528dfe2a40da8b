-- ===== src/TableDef/Store.antt =====
-- jni/KvDB/TableDef.cpp and FieldType.cpp: a table's definition into a stream, over the memory stream of
-- Stream.
use leveldblib.Prelude.{
  ℕ, Bool, true, false, Option, none, some, List, [], ◌∷◌, length, if◌then◌else◌,
}
use leveldblib.Stream.{Writer, u32, write_bytes, write_short, write_int, write_double, write_string}
use leveldblib.PageTable.{write_extern_attributes}
use leveldblib.Stream.Unchecked.{◌also◌, write_nothing}
use leveldblib.Record.{
  FieldType, field_unknown, field_text, field_var_text, field_binary, field_var_binary, field_float,
  field_double, field_fl_double, field_var_int, field_short, field_int, field_long, code,
}
use leveldblib.TableDef.{
  FieldHead, head_other, head_double, head_int, head_string, FieldObject, IndexType, index_null,
  index_b_tree, index_bp_tree, index_hash, TableDef,
}

-- A `bool` as a `short`.
abbrev pub short_of : Bool → ℕ
short_of true = 1
short_of false = 0

-- `writeFieldHead`
abbrev pub head_code : FieldHead → ℕ
head_code (head_other n) = n
head_code (head_double d) = 1
head_code (head_int n) = 2
head_code (head_string b) = 3

abbrev pub write_head_value : FieldHead → Writer
write_head_value (head_other n) = write_nothing
write_head_value (head_double d) = write_double d
write_head_value (head_int n) = write_int n
write_head_value (head_string b) = write_int (u32 (length b)) also write_bytes b

unfoldable pub write_field_head : FieldHead → Writer
write_field_head h = write_short (head_code h) also write_head_value h

-- `writeExternFields`, which is the method of the page table once more.
unfoldable pub write_extern_fields : List (List ℕ × List ℕ) → Writer
write_extern_fields entries = write_extern_attributes entries

-- `save` of a `TextType`, an `FDNumberType` and a `FieldType`.
unfoldable pub save_as : FieldType → ℕ → Writer
save_as field_text n = write_int n
save_as field_var_text n = write_int n
save_as field_binary n = write_int n
save_as field_var_binary n = write_int n
save_as field_float n = write_short n
save_as field_double n = write_short n
save_as field_fl_double n = write_short n
save_as field_unknown n = write_nothing
save_as field_var_int n = write_nothing
save_as field_short n = write_nothing
save_as field_int n = write_nothing
save_as field_long n = write_nothing

abbrev pub write_optional_head : FieldObject → Writer
write_optional_head f = if f.is_have_head then write_field_head f.fhead else write_nothing

-- `FieldType::write`
unfoldable pub write_field : FieldObject → Writer
unfolding write_field_head write_extern_fields save_as
write_field f =
    write_short (code f.data_type)
    also write_string f.field_name
    also write_string f.alias
    also write_short (short_of f.read_only)
    also write_short (short_of f.is_allow_null)
    also write_short (short_of f.is_have_head)
    also write_optional_head f
    also write_extern_fields f.extern_fields
    also save_as f.data_type f.length_or_scale

-- The loop of `TableDef::write`; `none` is a call through NULL.
abbrev pub before : Writer → Option Writer → Option Writer
before v none = none
before v (some w) = some (v also w)

unfoldable pub write_field_set : List (Option FieldObject) → Option Writer
unfolding write_field
write_field_set [] = some write_nothing
write_field_set (none ∷ fields) = none
write_field_set (some f ∷ fields) = before (write_field f) (write_field_set fields)

-- `TableDef::write`
abbrev pub index_code : IndexType → ℕ
index_code index_null = 0
index_code index_b_tree = 1
index_code index_bp_tree = 2
index_code index_hash = 3

abbrev pub write_table_head : TableDef → Writer
write_table_head t =
    write_string t.table_name
    also write_short (index_code t.index_type)
    also write_short (short_of t.is_save_by_group)
    also write_int (u32 (length t.field_set))

unfoldable pub write : TableDef → Option Writer
unfolding write_field_set
write t = before (write_table_head t) (write_field_set t.field_set)
