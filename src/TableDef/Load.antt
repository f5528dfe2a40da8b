-- ===== src/TableDef/Load.antt =====
-- jni/KvDB/TableDef.cpp, FieldType.cpp and FieldTypeFactory.h: a table's definition from a stream. `heap`
-- says what a block from `malloc` holds, `unset` what a variable does that no read has set.
use leveldblib.Prelude.{
  ℕ, zero, suc, ◌%◌, ◌^◌, Bool, true, false, not, Option, none, some, List, [], ◌∷◌, ◌++◌,
  get_elem?, ltb, ◌==◌, if◌then◌else◌,
}
use leveldblib.Stream.{
  Reader, done, thrown, u32, ◌>>=◌, pure, resized, size, read_bytes, read_short, read_int,
  read_double,
}
use leveldblib.PageTable.Load.{read_extern_attributes}
use leveldblib.Stream.Unchecked.{attempt, rounds, read_string_unchecked}
use leveldblib.Record.{
  FieldType, field_unknown, field_text, field_var_text, field_binary, field_var_binary, field_float,
  field_double, field_fl_double, field_var_int, field_short, field_int, field_long, allocated,
}
use leveldblib.Record.Rows.{number_or}
use leveldblib.TableDef.{
  FieldHead, head_other, head_double, head_int, head_string, FieldObject, IndexType, index_null,
  index_b_tree, index_bp_tree, index_hash, TableDef, create_field,
}

-- A `short` as a `bool`.
abbrev pub is_set : ℕ → Bool
is_set n = not (n == 0)

-- A `short` variable after a read.
abbrev pub short_or : ℕ → Option ℕ → ℕ
short_or unset none = unset % 2 ^ 16
short_or unset (some n) = n

-- `readExternFields`, which is the method of the page table once more.
unfoldable pub read_extern_fields : List (List ℕ × List ℕ) → Reader (List (List ℕ × List ℕ))
read_extern_fields entries = read_extern_attributes entries

-- The contents of a head that is a string or a binary. A negative length has no block: only bytes
-- that are not there are not copied into it.
abbrev pub block_or : (ℕ → List ℕ) → ℕ → Option (List ℕ) → List ℕ
block_or heap n none = allocated heap n
block_or heap n (some b) = b

abbrev pub no_block : Option (List ℕ) → Reader (List ℕ)
no_block none = pure []
no_block (some b) = λ s. (thrown, s)

unfoldable pub read_content : (ℕ → List ℕ) → ℕ → Reader (List ℕ)
read_content heap n =
    if ltb n (2 ^ 31)
    then (attempt (read_bytes n) >>= λ o. pure (block_or heap n o))
    else (attempt (read_bytes n) >>= no_block)

-- `readFieldHead` of a new field, whose union is 0; `nLength` is behind the part that is set.
unfoldable pub read_head_value : (ℕ → List ℕ) → ℕ → ℕ → Reader FieldHead
unfolding read_content
read_head_value heap unset t =
    if t == 1
    then (attempt read_double >>= λ o. pure (head_double (number_or 0 o)))
    else if t == 2
    then (attempt read_int >>= λ o. pure (head_int (number_or 0 o)))
    else if t == 3
    then (attempt read_int >>= λ o.
        read_content heap (u32 (number_or unset o)) >>= λ b. pure (head_string b))
    else pure (head_other t)

unfoldable pub read_field_head : (ℕ → List ℕ) → ℕ → Reader FieldHead
unfolding read_head_value
read_field_head heap unset =
    attempt read_short >>= λ o. read_head_value heap unset (short_or unset o)

-- `readArr`
unfoldable pub read_arr_as : FieldType → ℕ → Reader ℕ
read_arr_as field_text n = attempt read_int >>= λ o. pure (number_or n o)
read_arr_as field_var_text n = attempt read_int >>= λ o. pure (number_or n o)
read_arr_as field_binary n = attempt read_int >>= λ o. pure (number_or n o)
read_arr_as field_var_binary n = attempt read_int >>= λ o. pure (number_or n o)
read_arr_as field_float n = attempt read_short >>= λ o. pure (number_or n o)
read_arr_as field_double n = attempt read_short >>= λ o. pure (number_or n o)
read_arr_as field_fl_double n = attempt read_short >>= λ o. pure (number_or n o)
read_arr_as field_unknown n = pure n
read_arr_as field_var_int n = pure n
read_arr_as field_short n = pure n
read_arr_as field_int n = pure n
read_arr_as field_long n = pure n

abbrev pub read_optional_head : (ℕ → List ℕ) → ℕ → FieldObject → Reader FieldHead
read_optional_head heap unset f =
    if f.is_have_head then read_field_head heap unset else pure f.fhead

-- The end of `FieldType::read`, from the head on.
unfoldable pub read_field_end : (ℕ → List ℕ) → ℕ → FieldObject → Reader FieldObject
unfolding read_field_head read_extern_fields read_arr_as
read_field_end heap unset f = read_optional_head heap unset f >>= λ h.
    read_extern_fields f.extern_fields >>= λ entries.
    read_arr_as f.data_type f.length_or_scale >>= λ n.
    pure (record f { fhead = h; extern_fields = entries; length_or_scale = n })

-- Its members, before: the alias is read, but `setAlias` gets the member once more.
unfoldable pub read_members : (ℕ → List ℕ) → ℕ → FieldObject → Reader FieldObject
unfolding read_field_end
read_members heap unset f = read_string_unchecked >>= λ name. read_string_unchecked >>= λ alias.
    attempt read_short >>= λ read_only. attempt read_short >>= λ allow_null.
    attempt read_short >>= λ have_head. read_field_end heap unset (record f {
      field_name = name;
      read_only = is_set (short_or unset read_only);
      is_allow_null = is_set (short_or unset allow_null);
      is_have_head = is_set (short_or unset have_head);
    })

-- `FieldType::read`
unfoldable pub read_field : (ℕ → List ℕ) → ℕ → FieldObject → Reader FieldObject
unfolding read_members
read_field heap unset f s = if size s == 0 then (done f, s) else read_members heap unset f s

-- `createFieldByStream`
abbrev pub field_types : List FieldType
field_types =
    field_unknown ∷ field_text ∷ field_var_text ∷ field_binary ∷ field_var_binary ∷ field_float
    ∷ field_double ∷ field_fl_double ∷ field_var_int ∷ field_short ∷ field_int ∷ field_long ∷ []

abbrev pub known_or_null : Option FieldType → Option FieldObject
known_or_null none = none
known_or_null (some t) = create_field t []

unfoldable pub read_created : (ℕ → List ℕ) → ℕ → Option FieldObject → Reader (Option FieldObject)
unfolding read_field
read_created heap unset none = pure none
read_created heap unset (some f) = read_field heap unset f >>= λ g. pure (some g)

unfoldable pub create_field_by_stream : (ℕ → List ℕ) → ℕ → Reader (Option FieldObject)
unfolding read_created
create_field_by_stream heap unset = attempt read_short >>= λ o.
    read_created heap unset (known_or_null (get_elem? field_types (short_or unset o)))

-- `getIndexTypeFromShort`
unfoldable pub get_index_type_from_short : ℕ → IndexType
get_index_type_from_short n =
    if n == 1
    then index_b_tree
    else if n == 2
    then index_bp_tree
    else if n == 3
    then index_hash
    else index_null

-- `readString` into a string that was there before.
abbrev pub text_or : List ℕ → ℕ → Option (List ℕ) → List ℕ
text_or old n none = resized old n
text_or old n (some str) = str

unfoldable pub read_text_over : List ℕ → Option ℕ → Reader (List ℕ)
read_text_over old none = pure old
read_text_over old (some n) =
    if ltb n (2 ^ 31)
    then (attempt (read_bytes n) >>= λ o. pure (text_or old n o))
    else (λ s. (thrown, s))

-- The loop of `TableDef::read`.
unfoldable pub read_field_set :
    (ℕ → List ℕ) → ℕ → ℕ → List (Option FieldObject) → Reader (List (Option FieldObject))
unfolding create_field_by_stream
read_field_set heap unset zero fields = pure fields
read_field_set heap unset (suc n) fields =
    create_field_by_stream heap unset >>= λ f. read_field_set heap unset n (fields ++ (f ∷ []))

-- `TableDef::read`, after `Release`.
unfoldable pub read_table : (ℕ → List ℕ) → ℕ → TableDef → Reader TableDef
unfolding read_text_over get_index_type_from_short read_field_set
read_table heap unset t = attempt read_int >>= read_text_over t.table_name >>= λ name.
    attempt read_short >>= λ index. attempt read_short >>= λ group. attempt read_int >>= λ count.
    read_field_set heap unset (rounds (u32 (number_or unset count))) [] >>= λ fields. pure (record {
      table_name = name;
      field_set = fields;
      is_save_by_group = is_set (short_or unset group);
      index_type = get_index_type_from_short (short_or unset index);
    })

abbrev pub returned_true : TableDef → Bool × TableDef
returned_true t = (true, t)

unfoldable pub read : (ℕ → List ℕ) → ℕ → TableDef → Reader (Bool × TableDef)
unfolding read_table
read heap unset t s =
    if size s == 0
    then (done (false, t), s)
    else (read_table heap unset t >>= λ u. pure (returned_true u)) s
