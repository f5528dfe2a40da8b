-- ===== src/Record.antt =====
-- The records of jni/KvDB/Record.cpp and Record.h: their fields, the flags of the fields that are
-- set, and the typed access to a field. An index is an `int`, so a negative one is past the end. Of
-- the union `Field_Store` only the member of a field's type is used, and a
-- `float` or `double` is its bit pattern. A `char` is not negative, and `none` is an access that C++
-- leaves undefined.
pub mod VarInt
pub mod Rows
pub mod Text
pub mod Access
mod Tests
use leveldblib.Prelude.{
  ℕ, zero, suc, ◌+◌, ◌-◌, ◌*◌, ◌/◌, ◌%◌, ◌^◌, Bool, true, false, Option, none, some, List, ◌++◌,
  length, get_elem?, set, take, replicate, map, ltb, leb, ◌==◌, ◌&&◌, if◌then◌else◌,
}

-- `Enum_FieldType`
pub data FieldType : Type 0 where
  field_unknown field_text field_var_text field_binary field_var_binary field_float field_double
        field_fl_double field_var_int field_short field_int field_long :
      FieldType

-- Its number.
abbrev pub code : FieldType → ℕ
code field_unknown = 0
code field_text = 1
code field_var_text = 2
code field_binary = 3
code field_var_binary = 4
code field_float = 5
code field_double = 6
code field_fl_double = 7
code field_var_int = 8
code field_short = 9
code field_int = 10
code field_long = 11

-- A field of a `TableDef`, with `getLength` and `getScale`.
pub record FieldDef : Type 0 where
  pub def_type : FieldType
  pub def_length : ℕ
  pub scale : ℕ

-- `Field`
pub record Field : Type 0 where
  pub field_type : FieldType
  pub field_size : ℕ
  pub number : ℕ
  pub n_length : ℕ
  pub buffer : Option (List ℕ)
  pub n_count : ℕ
  pub var_data : List ℕ

-- `Record`; of the flags only the first byte is used.
pub record Row : Type 0 where
  pub flag : ℕ
  pub fields : List Field

-- `calcSize`
unfoldable pub calc_size : ℕ → ℕ
calc_size num = if ltb 0 (num % 8) then num / 8 + 1 else num / 8

-- `readBit`, `setBit` and `ClearBit`, with fewer than 32 fields.
unfoldable pub read_bit : ℕ → ℕ → ℕ
read_bit bit flag = if ltb bit 8 then flag / 2 ^ bit % 2 else 0

unfoldable pub set_bit : ℕ → ℕ → ℕ
unfolding read_bit
set_bit bit flag = if ltb bit 8 then flag + (1 - read_bit bit flag) * 2 ^ bit else flag

unfoldable pub clear_bit : ℕ → ℕ → ℕ
unfolding read_bit
clear_bit bit flag = flag - read_bit bit flag * 2 ^ bit

-- `initBit`, from the last bit on.
unfoldable pub init_bits : ℕ → ℕ → ℕ
unfolding clear_bit
init_bits zero flag = flag
init_bits (suc n) flag = init_bits n (clear_bit n flag)

-- A block from `malloc`, for what the heap holds.
abbrev pub allocated : (ℕ → List ℕ) → ℕ → List ℕ
allocated heap n = take n (heap n) ++ replicate (n - length (heap n)) 0

abbrev pub empty_field : FieldType → ℕ → Field
empty_field t n = record {
  field_type = t;
  field_size = n;
  number = 0;
  n_length = 0;
  buffer = none;
  n_count = 0;
  var_data = replicate 5 0;
}

-- A field's place as `initFields` leaves it; a `long` has 4 bytes, as on 32-bit Android.
unfoldable pub init_field : (ℕ → List ℕ) → FieldDef → Field
init_field heap d = init d.def_type
  where
    block : FieldType → Field
    block t = record (empty_field t d.def_length) {
      buffer = some (allocated heap d.def_length);
      n_length = d.def_length;
    }

    init : FieldType → Field
    init field_text = block field_text
    init field_binary = block field_binary
    init field_float = empty_field field_float 4
    init field_double = empty_field field_double 8
    init field_fl_double = record (empty_field field_fl_double 8) { n_length = d.scale }
    init field_var_int = empty_field field_var_int 4
    init field_short = empty_field field_short 2
    init field_int = empty_field field_int 4
    init field_long = empty_field field_long 4
    init t = empty_field t 0

-- `Record(tableStruct)`; `rubbish` is the first byte that `malloc` gives for the flags.
unfoldable pub new : (ℕ → List ℕ) → ℕ → List FieldDef → Row
unfolding calc_size init_bits init_field
new heap rubbish table = record {
  flag = init_bits (calc_size (length table) * 8) rubbish;
  fields = map (init_field heap) table;
}

-- `IsOverFlow`
unfoldable pub is_over_flow : ℕ → Row → Bool
is_over_flow i r = leb (length r.fields) i

-- A field with a new value, and its flag.
unfoldable pub put_field : ℕ → Field → Row → Row
unfolding set_bit
put_field i f r = record { flag = set_bit i r.flag; fields = set r.fields i f }

-- `getField`, where NULL is `none`.
unfoldable pub get_field : ℕ → Row → Option Field
unfolding is_over_flow
get_field i r = if is_over_flow i r then none else get_elem? r.fields i

abbrev pub checked : Row → (Field → Bool × Row) → Option Field → Bool × Row
checked r k none = (false, r)
checked r k (some f) = k f

-- `setFieldShort`, `setFieldFloat` and `setFieldDouble`, for the type of each.
unfoldable pub set_field_number : FieldType → ℕ → ℕ → Row → Bool × Row
unfolding get_field put_field
set_field_number t i v r =
    checked r
      (λ f.
        if code f.field_type == code t
        then (true, put_field i (record f { number = v }) r)
        else (false, r))
      (get_field i r)

-- The second case of `getFieldAsDouble`, for a FLDOUBLE field; `scaled` is the `double` that the
-- field's `FLDouble` divided by the power of ten for its scale gives.
abbrev pub fixed_of : (ℕ → ℕ → ℕ) → FieldType → Field → Option ℕ
fixed_of scaled t f =
    if (code t == code field_double) && (code f.field_type == code field_fl_double)
    then some (scaled f.number f.n_length)
    else none

abbrev pub number_of : (ℕ → ℕ → ℕ) → FieldType → Option Field → Option ℕ
number_of scaled t none = none
number_of scaled t (some f) =
    if code f.field_type == code t then some f.number else fixed_of scaled t f

-- `getFieldAsShort`, `getFieldAsFloat` and `getFieldAsDouble`, for the type of each.
unfoldable pub get_field_as_number : (ℕ → ℕ → ℕ) → FieldType → ℕ → Row → Option ℕ
unfolding get_field
get_field_as_number scaled t i r = number_of scaled t (get_field i r)
