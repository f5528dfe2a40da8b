-- ===== src/TableDef.antt =====
-- The definitions of a table and of its fields in jni/KvDB/TableDef.cpp, FieldType.cpp,
-- FieldTypeFactory.h and the field classes that stand on TextType, FDNumberType and NumberType.
-- A `double` is its bit pattern, a `FieldType*` that may be NULL an `Option`.
pub mod Store
pub mod Load
pub mod Parts
pub mod Fields
pub mod RoundTrip
pub mod Access
mod Tests
use leveldblib.Prelude.{
  ℕ, Bool, true, false, not, ◌&&◌, Option, none, some, List, [], ◌∷◌, ◌++◌, length, get_elem?, leb,
  ◌==◌, if◌then◌else◌,
}
use leveldblib.FileSystem.{same_bytes}
use leveldblib.Record.{
  FieldType, field_unknown, field_text, field_var_text, field_binary, field_var_binary, field_float,
  field_double, field_fl_double, field_var_int, field_short, field_int, field_long, code,
}

-- `FieldHead`: the member of the union that the `Enum_HeadType` selects, or a type that selects none.
pub data FieldHead : Type 0 where
  head_other head_double head_int : ℕ → FieldHead
  head_string : List ℕ → FieldHead

-- An object of a class on `FieldType`. `length_or_scale` is the `length` of a `TextType` and the
-- `scale` of an `FDNumberType`, and 0 in a `NumberType`, which has neither.
pub record FieldObject : Type 0 where
  pub data_type : FieldType
  pub field_name : List ℕ
  pub alias : List ℕ
  pub read_only : Bool
  pub is_allow_null : Bool
  pub is_have_head : Bool
  pub fhead : FieldHead
  pub extern_fields : List (List ℕ × List ℕ)
  pub length_or_scale : ℕ

-- `SMD_INDEX_INDEXTYPE`
pub data IndexType : Type 0 where
  index_null index_b_tree index_bp_tree index_hash : IndexType

pub record TableDef : Type 0 where
  pub table_name : List ℕ
  pub field_set : List (Option FieldObject)
  pub is_save_by_group : Bool
  pub index_type : IndexType

-- `setName` and `setTableName`: the name, and whether it is not empty.
unfoldable pub is_named : List ℕ → Bool
is_named name = not (length name == 0)

unfoldable pub set_name : List ℕ → FieldObject → Bool × FieldObject
unfolding is_named
set_name name f = (is_named name, record f { field_name = name })

-- `setFieldType`, whose `bool` leaves out the types from 8 on.
unfoldable pub set_field_type : FieldType → FieldObject → Bool × FieldObject
set_field_type t f = (leb 1 (code t) && leb (code t) 7, record f { data_type = t })

unfoldable pub set_alias : List ℕ → FieldObject → Bool × FieldObject
set_alias alias f = (true, record f { alias = alias })

-- `FieldType()`, for what the class keeps beside it.
unfoldable pub new_field : ℕ → FieldObject
new_field n = record {
  data_type = field_unknown;
  field_name = [];
  alias = [];
  read_only = false;
  is_allow_null = true;
  is_have_head = false;
  fhead = head_other 0;
  extern_fields = [];
  length_or_scale = n;
}

-- `init` with its default arguments.
unfoldable pub init : List ℕ → FieldType → List ℕ → FieldObject → FieldObject
unfolding set_name set_field_type set_alias
init name t alias f =
    let g = (set_alias alias (set_field_type t (set_name name f).1).1).1 in
    record g { read_only = false; is_allow_null = true }

-- The constructors that `createField` calls: the length of a text or a binary, and the scale of a
-- `float` and `double`, which stays -1, and of a number of fixed scale.
abbrev pub created_with : FieldType → ℕ
created_with field_text = 20
created_with field_binary = 20
created_with field_float = 0xffff
created_with field_double = 0xffff
created_with field_fl_double = 2
created_with field_unknown = 0
created_with field_var_text = 0
created_with field_var_binary = 0
created_with field_var_int = 0
created_with field_short = 0
created_with field_int = 0
created_with field_long = 0

-- `createField`
unfoldable pub create_field : FieldType → List ℕ → Option FieldObject
unfolding init new_field
create_field t name =
    if code t == 0 then none else some (init name t name (new_field (created_with t)))

-- `TableDef::TableDef`
unfoldable pub new : List ℕ → Bool → IndexType → TableDef
new name by_group index = record {
  table_name = name;
  field_set = [];
  is_save_by_group = by_group;
  index_type = index;
}

-- `add`
unfoldable pub add : Option FieldObject → TableDef → Bool × TableDef
add none t = (false, t)
add (some f) t = (true, record t { field_set = t.field_set ++ (some f ∷ []) })

-- What a search gives; `undefined` is a NULL field that is asked for its name.
pub data Found : Type 0 where
  found : FieldObject → Found
  missing undefined : Found

-- `getField` of a name.
unfoldable pub find_field : List ℕ → List (Option FieldObject) → Found
unfolding same_bytes
find_field name [] = missing
find_field name (none ∷ fields) = undefined
find_field name (some f ∷ fields) =
    let rest = find_field name fields in if same_bytes f.field_name name then found f else rest

unfoldable pub get_field_by_name : List ℕ → TableDef → Found
unfolding find_field
get_field_by_name name t = find_field name t.field_set

-- `IsOverFlow`, of an `int`'s bit pattern: a negative one is past the end.
unfoldable pub is_over_flow : ℕ → TableDef → Bool
is_over_flow index t = leb (length t.field_set) index

-- `getField` of an index.
abbrev pub or_null : Option (Option FieldObject) → Option FieldObject
or_null none = none
or_null (some f) = f

unfoldable pub get_field_at : ℕ → TableDef → Option FieldObject
unfolding is_over_flow
get_field_at index t = if is_over_flow index t then none else or_null (get_elem? t.field_set index)

-- `getFieldType` of an index and of a name.
abbrev pub type_or_unknown : Option FieldObject → FieldType
type_or_unknown none = field_unknown
type_or_unknown (some f) = f.data_type

unfoldable pub get_field_type_at : ℕ → TableDef → FieldType
unfolding get_field_at
get_field_type_at index t = type_or_unknown (get_field_at index t)

abbrev pub found_type : Found → Option FieldType
found_type (found f) = some f.data_type
found_type missing = some field_unknown
found_type undefined = none

unfoldable pub get_field_type_by_name : List ℕ → TableDef → Option FieldType
unfolding get_field_by_name
get_field_type_by_name name t = found_type (get_field_by_name name t)
