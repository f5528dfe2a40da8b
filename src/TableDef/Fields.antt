-- ===== src/TableDef/Fields.antt =====
-- A field's definition in jni/KvDB/FieldType.cpp and FieldTypeFactory.h: what is written of it, and
-- what is read where those bytes stand.
use leveldblib.Prelude.{
  ℕ, ◌^◌, ◌<◌, ◌≡◌, refl, sym, ap, subst, ◌∙◌, Bool, true, false, some, List, [], ◌++◌, length,
  get_elem?, ◌==◌, if◌then◌else◌, arith,
}
use leveldblib.Order.{All}
use leveldblib.Value.{put_short, put_int}
use leveldblib.Stream.{pure}
use leveldblib.Stream.Typed.{string_bytes}
use leveldblib.Stream.Unchecked.{write_nothing}
use leveldblib.PageTable.Format.{FitsAttribute, extern_bytes}
use leveldblib.Record.{
  FieldType, field_unknown, field_text, field_var_text, field_binary, field_var_binary, field_float,
  field_double, field_fl_double, field_var_int, field_short, field_int, field_long, code,
}
use leveldblib.TableDef.{
  FieldHead, head_other, FieldObject, create_field, created_with, init, new_field, set_name,
  set_field_type, set_alias,
}
use leveldblib.TableDef.Store.{short_of, write_field, write_field_head}
use leveldblib.TableDef.Load.{
  is_set, read_field_end, read_members, read_field, read_field_head, field_types, known_or_null,
  read_created, create_field_by_stream,
}
use leveldblib.Stream.Chain.{
  Puts, Gets, also-Puts, >>=-Gets, pure-Gets, finish-Gets, unless_empty-Gets, write_nothing-Puts,
  write_short-Puts, write_string-Puts, read_short-Gets, read_string-Gets,
}
use leveldblib.TableDef.Parts.{
  FitsHead, DistinctKeys, width, head_bytes, arr_bytes, write_field_head-Puts, read_field_head-Gets,
  write_extern_fields-Puts, read_extern_fields-Gets, save_as-Puts, read_arr_as-Gets,
}

-- The head of a field that has one, and of one that has none.
abbrev pub FitsHeadOf : Bool → FieldHead → Type 0
FitsHeadOf true h = FitsHead h
FitsHeadOf false h = h ≡ head_other 0

-- What a field's members hold fits their types and the formats of the stream.
pub record FitsField (f : FieldObject) : Type 0 where
  pub known : (code f.data_type == 0) ≡ false
  pub field_name : length f.field_name < 2 ^ 31
  pub alias : length f.alias < 2 ^ 31
  pub fhead : FitsHeadOf f.is_have_head f.fhead
  pub few_extern_fields : length f.extern_fields < 2 ^ 31
  pub extern_fields : All FitsAttribute f.extern_fields
  pub distinct_keys : DistinctKeys f.extern_fields
  pub length_or_scale : f.length_or_scale < width f.data_type

abbrev optional_head_bytes : Bool → FieldHead → List ℕ
optional_head_bytes true h = head_bytes h
optional_head_bytes false h = []

abbrev end_bytes : FieldObject → List ℕ
end_bytes f =
    optional_head_bytes f.is_have_head f.fhead
    ++ (extern_bytes f.extern_fields ++ arr_bytes f.data_type f.length_or_scale)

abbrev member_bytes : FieldObject → List ℕ
member_bytes f =
    string_bytes f.field_name
    ++ (string_bytes f.alias
        ++ (put_short (short_of f.read_only)
            ++ (put_short (short_of f.is_allow_null)
                ++ (put_short (short_of f.is_have_head) ++ end_bytes f))))

abbrev pub field_bytes : FieldObject → List ℕ
field_bytes f = put_short (code f.data_type) ++ member_bytes f

write_optional_head-Puts :
    (have : Bool) (h : FieldHead)
    → FitsHeadOf have h
    → Puts (if have then write_field_head h else write_nothing) (optional_head_bytes have h)
write_optional_head-Puts true h f = write_field_head-Puts h f
write_optional_head-Puts false h f = write_nothing-Puts

read_optional_head-Gets :
    (heap : ℕ → List ℕ) (unset : ℕ) (have : Bool) (h : FieldHead)
    → FitsHeadOf have h
    → Gets
        (if have then read_field_head heap unset else pure (head_other 0))
        (optional_head_bytes have h)
        h
read_optional_head-Gets heap unset true h f = read_field_head-Gets heap unset h f
read_optional_head-Gets heap unset false h f =
    subst (Gets (pure (head_other 0)) []) (sym f) pure-Gets

pub write_field-Puts : (f : FieldObject) → FitsField f → Puts (write_field f) (field_bytes f)
unfolding write_field
write_field-Puts f h = also-Puts (write_short-Puts (code f.data_type)) (
    also-Puts (write_string-Puts f.field_name h.field_name) (
      also-Puts (write_string-Puts f.alias h.alias) (
        also-Puts (write_short-Puts (short_of f.read_only)) (
          also-Puts (write_short-Puts (short_of f.is_allow_null)) (
            also-Puts (write_short-Puts (short_of f.is_have_head)) (
              also-Puts (write_optional_head-Puts f.is_have_head f.fhead h.fhead) (
                also-Puts
                  (write_extern_fields-Puts f.extern_fields h.few_extern_fields h.extern_fields)
                  (save_as-Puts f.data_type f.length_or_scale))))))))

-- The field that reading makes: the alias is lost.
abbrev pub without_alias : FieldObject → FieldObject
without_alias f = record f { alias = [] }

-- A field that `createField` has just made without a name, and what `read` has set of it before it
-- comes to the head.
abbrev created : FieldType → FieldObject
created t = record (new_field (created_with t)) { data_type = t }

abbrev with_members : FieldObject → FieldObject
with_members f = record f {
  alias = [];
  fhead = head_other 0;
  extern_fields = [];
  length_or_scale = created_with f.data_type;
}

read_field_end-Gets :
    (heap : ℕ → List ℕ) (unset : ℕ) (f : FieldObject)
    → FitsField f
    → Gets (read_field_end heap unset (with_members f)) (end_bytes f) (without_alias f)
unfolding read_field_end
read_field_end-Gets heap unset f h =
    >>=-Gets _ (read_optional_head-Gets heap unset f.is_have_head f.fhead h.fhead) (
      >>=-Gets _
        (read_extern_fields-Gets f.extern_fields h.few_extern_fields h.extern_fields
          h.distinct_keys)
        (finish-Gets _ (read_arr_as-Gets f.data_type f.length_or_scale h.length_or_scale)))

pub short_of_small : (b : Bool) → short_of b < 2 ^ 16
short_of_small true = omega arith
short_of_small false = omega arith

pub is_set-short_of : (b : Bool) → is_set (short_of b) ≡ b
is_set-short_of true = refl
is_set-short_of false = refl

read_members-Gets :
    (heap : ℕ → List ℕ) (unset : ℕ) (f : FieldObject)
    → FitsField f
    → Gets (read_members heap unset (created f.data_type)) (member_bytes f) (without_alias f)
unfolding read_members new_field
read_members-Gets heap unset f h =
    let last = read_field_end-Gets heap unset f h in
    >>=-Gets _ (read_string-Gets f.field_name h.field_name) (
      >>=-Gets _ (read_string-Gets f.alias h.alias) (
        >>=-Gets _ (read_short-Gets (short_of f.read_only) (short_of_small f.read_only)) (
          >>=-Gets _ (read_short-Gets (short_of f.is_allow_null) (short_of_small f.is_allow_null)) (
            >>=-Gets _ (read_short-Gets (short_of f.is_have_head) (short_of_small f.is_have_head)) (
              rw
                (
                  is_set-short_of f.read_only,
                  is_set-short_of f.is_allow_null,
                  is_set-short_of f.is_have_head,
                )
                last)))))

type_of_code : (t : FieldType) → get_elem? field_types (code t) ≡ some t
type_of_code field_unknown = refl
type_of_code field_text = refl
type_of_code field_var_text = refl
type_of_code field_binary = refl
type_of_code field_var_binary = refl
type_of_code field_float = refl
type_of_code field_double = refl
type_of_code field_fl_double = refl
type_of_code field_var_int = refl
type_of_code field_short = refl
type_of_code field_int = refl
type_of_code field_long = refl

code_small : (t : FieldType) → code t < 2 ^ 16
code_small t = grind arith

create_field_known : (t : FieldType) → (code t == 0) ≡ false → create_field t [] ≡ some (created t)
unfolding create_field init set_name set_field_type set_alias new_field
create_field_known t h = rw h refl

pub create_field_by_stream-Gets :
    (heap : ℕ → List ℕ) (unset : ℕ) (f : FieldObject)
    → FitsField f
    → Gets (create_field_by_stream heap unset) (field_bytes f) (some (without_alias f))
unfolding create_field_by_stream read_created read_field put_int
create_field_by_stream-Gets heap unset f h =
    let some_bytes : 0 < length (member_bytes f) = omega arith in
    let g = created f.data_type in
    let read_it =
      finish-Gets some (unless_empty-Gets g some_bytes (read_members-Gets heap unset f h)) in
    let same : known_or_null (get_elem? field_types (code f.data_type)) ≡ some g =
      ap known_or_null (type_of_code f.data_type) ∙ create_field_known f.data_type h.known in
    >>=-Gets _ (read_short-Gets (code f.data_type) (code_small f.data_type)) (rw same read_it)
