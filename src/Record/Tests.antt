-- ===== src/Record/Tests.antt =====
-- Runs of the records of jni/KvDB/Record.cpp.
use leveldblib.Prelude.{
  ℕ, ◌+◌, ◌-◌, ◌*◌, ◌^◌, ◌==◌, if◌then◌else◌, Option, none, ◌≡◌, ◌<◌, ◌≤◌, refl, true, some, List,
  [], ◌∷◌, replicate, arith,
}
use leveldblib.Value.{put_int}
use leveldblib.Stream.{MemStream, done}
use leveldblib.Stream
use leveldblib.Record.{
  FieldDef, Field, Row, field_text, field_var_int, field_var_text, field_float, field_double,
  field_fl_double, empty_field, init_field, init_bits, calc_size, set_bit, clear_bit, read_bit, new,
  put_field, get_field, is_over_flow, set_field_number, get_field_as_number,
}
use leveldblib.Record.Text.{
  set_field_string, set_field_binary, binary_of, copy_text, get_field_as_string, string_of,
  read_text,
}
use leveldblib.Record.VarInt.{
  with_var_int, get_var_int, var_int_write, zig, zag, var_int_bytes, var_int_from,
}
use leveldblib.Record.VarInt.Codec.{get_var_int-with_var_int}
use leveldblib.Record.Access.{SetsOr, set_field_number_lem}
use leveldblib.Record.Rows.{write, read}
use leveldblib.Record.Rows.Contents.{content_number, content_bytes}
use leveldblib.Record.Rows.RoundTrip.{contents, read-write_row}

abbrev heap : ℕ → List ℕ
heap n = []

-- A text of four characters, an integer of variable length and a text of variable length.
abbrev table : List FieldDef
table =
    record { def_type = field_text; def_length = 4; scale = 0 }
    ∷ record { def_type = field_var_int; def_length = 0; scale = 0 }
    ∷ record { def_type = field_var_text; def_length = 0; scale = 0 }
    ∷ []

text_runs :
    (r : Row) × (set_field_string heap 0 (72 ∷ 105 ∷ []) (new heap 255 table) ≡ some (true, r))
    × (r.flag ≡ 1)
    × (get_field_as_string 0 [] r ≡ some (some (72 ∷ 105 ∷ [])))
unfolding set_field_string set_field_binary binary_of copy_text put_field get_field is_over_flow
    get_field_as_string string_of read_text new calc_size init_bits init_field set_bit clear_bit
    read_bit
text_runs = (
  record {
    flag = 1;
    fields =
        record (empty_field field_text 4) { buffer = some (72 ∷ 105 ∷ 0 ∷ 0 ∷ []); n_length = 2 }
        ∷ empty_field field_var_int 4
        ∷ empty_field field_var_text 0
        ∷ [];
  },
  refl,
  refl,
  refl,
)

abbrev int_field : Field
int_field = empty_field field_var_int 4

get_var_int-with_var_int_example :
    (get_var_int (with_var_int 4294967295 int_field) ≡ 4294967295)
    × (0 < (with_var_int 4294967295 int_field).n_count)
    × ((with_var_int 4294967295 int_field).n_count ≤ 5)
get_var_int-with_var_int_example = get_var_int-with_var_int 4294967295 int_field (omega arith)

abbrev row : Row
row = record { flag = 0; fields = empty_field field_float 4 ∷ int_field ∷ [] }

-- A `double` field and one of fixed scale.
abbrev doubles : Row
doubles = record {
  flag = 0;
  fields = empty_field field_float 4 ∷ record (empty_field field_fl_double 8) { number = 5 } ∷ [];
}

-- Some function for the division by the power of ten.
abbrev scaled : ℕ → ℕ → ℕ
scaled n scale = n * 2 ^ 16 + scale

set_field_number_lem_example :
    SetsOr 1 0 7
      (some 327680)
      doubles
      (set_field_number field_double 1 7 doubles)
      (get_field_as_number scaled field_double 1)
unfolding get_field
set_field_number_lem_example = set_field_number_lem scaled field_double 1 0 7 doubles

-- The second field has a head: without its first two digits a value is kept with a one before it.
abbrev heads : ℕ → Option (ℕ → ℕ)
heads i = if i == 1 then some (λ v. v - 1200 + 100) else none

-- A row that is set: "Hi", -1 and "abc".
abbrev full : Row
full = record {
  flag = 7;
  fields =
      record (empty_field field_text 4) { buffer = some (72 ∷ 105 ∷ 0 ∷ 9 ∷ []); n_length = 2 }
      ∷ with_var_int 4294967295 (empty_field field_var_int 4)
      ∷ record (empty_field field_var_text 3) { buffer = some (97 ∷ 98 ∷ 99 ∷ []); n_length = 3 }
      ∷ [];
}

abbrev blank : Row
blank = record {
  flag = 0;
  fields =
      record (empty_field field_text 4) { buffer = some (replicate 4 5); n_length = 4 }
      ∷ empty_field field_var_int 4
      ∷ empty_field field_var_text 0
      ∷ [];
}

read-write_row_example :
    (s : MemStream) × (write full (Stream.new 0) ≡ some (true, s))
    × (after : Row) × (t : MemStream) × (read heap blank (record s { pos = 0 })
        ≡ (done (true, after), t))
    × (contents after.fields
        ≡ content_bytes (72 ∷ 105 ∷ [])
          ∷ content_number 4294967295
          ∷ content_bytes (97 ∷ 98 ∷ 99 ∷ [])
          ∷ [])
unfolding get_var_int var_int_write zig zag var_int_bytes var_int_from put_int
read-write_row_example =
    read-write_row heap full blank
      (
        refl,
        ((omega arith, omega arith), omega arith),
        refl,
        (
          refl,
          (omega arith, 4294967295, omega arith, refl, refl),
          refl,
          (refl, (omega arith, omega arith), refl, tt),
        ),
      )
      (omega arith) (omega arith)
