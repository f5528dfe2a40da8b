-- ===== src/TableDef/Tests.antt =====
-- Runs of the table definitions of jni/KvDB/TableDef.cpp.
use leveldblib.Prelude.{
  ℕ, ◌≡◌, refl, true, false, none, some, List, [], ◌∷◌, length, if◌then◌else◌, suc, ◌==◌,
}
use leveldblib.FileSystem.{same_bytes}
use leveldblib.Record.{field_text, field_double, field_unknown, field_short}
use leveldblib.TableDef.{
  FieldObject, head_other, head_string, index_hash, index_null, TableDef, new, create_field, init,
  new_field, set_name, set_field_type, set_alias, is_named, add, get_field_at, get_field_by_name,
  is_over_flow, found, missing, get_field_type_at, get_field_type_by_name, find_field,
}
use leveldblib.TableDef.Access.{found_or, add_lem}

abbrev heap : ℕ → List ℕ
heap n = []

-- A text of length 8 with an alias, and a `double` with a head and an extern field.
abbrev title : FieldObject
title = record {
  data_type = field_text;
  field_name = 116 ∷ [];
  alias = 84 ∷ 84 ∷ [];
  read_only = true;
  is_allow_null = false;
  is_have_head = true;
  fhead = head_string (1 ∷ 2 ∷ 3 ∷ []);
  extern_fields = [];
  length_or_scale = 8;
}

abbrev price : FieldObject
price = record {
  data_type = field_double;
  field_name = 112 ∷ [];
  alias = [];
  read_only = false;
  is_allow_null = true;
  is_have_head = false;
  fhead = head_other 0;
  extern_fields = (107 ∷ [], 118 ∷ []) ∷ (108 ∷ [], []) ∷ [];
  length_or_scale = 3;
}

abbrev goods : TableDef
goods = record {
  table_name = 103 ∷ [];
  field_set = some title ∷ some price ∷ [];
  is_save_by_group = true;
  index_type = index_hash;
}

abbrev nothing : TableDef
nothing = new [] false index_null

add_lem_example :
    (add none goods ≡ (false, goods))
    × (u : TableDef) × (add (some title) goods ≡ (true, u))
    × (length u.field_set ≡ suc (length goods.field_set))
    × (get_field_at 2 u
        ≡ (if 2 == length goods.field_set then some title else get_field_at 2 goods))
    × (get_field_by_name (112 ∷ []) u
        ≡ found_or
            (get_field_by_name (112 ∷ []) goods)
            (if same_bytes title.field_name (112 ∷ []) then found title else missing))
add_lem_example = add_lem goods title 2 (112 ∷ [])

searches_run :
    (get_field_type_at 1 goods ≡ field_double)
    × (get_field_type_at 2 goods ≡ field_unknown)
    × (get_field_type_by_name (112 ∷ []) goods ≡ some field_double)
    × (get_field_type_by_name (113 ∷ []) goods ≡ some field_unknown)
unfolding get_field_type_at get_field_type_by_name get_field_at is_over_flow get_field_by_name
    find_field same_bytes
searches_run = (refl, refl, refl, refl)

-- A new text has length 20, and `setFieldType` answers false for a `short`.
creation_runs :
    (create_field field_unknown [] ≡ none)
    × (create_field field_text (116 ∷ [])
        ≡ some (record (new_field 20) {
          data_type = field_text;
          field_name = 116 ∷ [];
          alias = 116 ∷ [];
        }))
    × ((set_field_type field_short (new_field 0)).0 ≡ false)
unfolding create_field init new_field set_name set_field_type set_alias is_named
creation_runs = (refl, refl, refl)
