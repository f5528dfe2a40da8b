-- ===== src/Record/VarInt.antt =====
-- The integers of variable length of jni/KvDB/Record.cpp. An `int` is its bit pattern.
pub mod Codec
use leveldblib.Prelude.{
  ℕ, zero, suc, ◌+◌, ◌-◌, ◌*◌, ◌/◌, ◌%◌, ◌^◌, Bool, true, false, Option, none, some, List, [], ◌∷◌,
  ◌++◌, length, drop, ltb, ◌==◌, if◌then◌else◌,
}
use leveldblib.Value.{byte}
use leveldblib.Record.{
  field_var_int, field_int, field_long, code, Field, Row, get_field, put_field, checked,
}

-- `x ^ -1`
abbrev pub inverted : ℕ → ℕ
inverted v = 2 ^ 32 - 1 - v

-- `Zig`: `value >> 31` is 0 or -1.
unfoldable pub zig : ℕ → ℕ
zig v = let twice = 2 * v % 2 ^ 32 in if ltb v (2 ^ 31) then twice else inverted twice

-- `Zag`: `-(value & 1)` is 0 or -1.
unfoldable pub zag : ℕ → ℕ
zag v = let half = v / 2 in if v % 2 == 0 then half else inverted half

-- The loop of `varIntWrite`: the bytes that it leaves, the last without its mark. Five rounds are
-- enough for 32 bits.
unfoldable pub var_int_bytes : ℕ → ℕ → List ℕ
var_int_bytes zero v = []
var_int_bytes (suc n) v =
    let rest = var_int_bytes n (v / 2 ^ 7) in
    if v / 2 ^ 7 == 0 then v % 2 ^ 7 ∷ [] else (v % 2 ^ 7 + 2 ^ 7) ∷ rest

-- `varIntWrite` into the five bytes of a field, and its `count`.
unfoldable pub var_int_write : ℕ → List ℕ → ℕ × List ℕ
unfolding zig var_int_bytes
var_int_write v chunks =
    let bytes = var_int_bytes 5 (zig v) in (length bytes, bytes ++ drop (length bytes) chunks)

-- `getVarInt`, from a byte on: the shift of the byte, and the value so far.
unfoldable pub var_int_from : ℕ → ℕ → ℕ → List ℕ → ℕ
unfolding zag
var_int_from zero shift value chunks = value
var_int_from (suc n) shift value chunks =
    let chunk = byte chunks (4 - n) in
    let more = var_int_from n (shift + 7) (value + chunk % 2 ^ 7 * 2 ^ shift) chunks in
    let last = (value + chunk * 2 ^ shift) % 2 ^ 32 in
    if ltb chunk (2 ^ 7) then zag last else (if n == 0 then last else more)

unfoldable pub get_var_int : Field → ℕ
unfolding var_int_from
get_var_int f = if f.n_count == 0 then 0 else var_int_from 5 0 0 f.var_data

abbrev pub with_var_int : ℕ → Field → Field
with_var_int v f = with_bytes (var_int_write v f.var_data)
  where
    with_bytes : ℕ × List ℕ → Field
    with_bytes (n, bytes) = record f { n_count = n; var_data = bytes }

-- The value that a setter writes to a VAR_INT field. `head` is the field's head, if it has one, as
-- what the arithmetic in `double` leaves of a value: the value without the head's digits, with a one
-- in their place. It is an `int` again.
abbrev pub without_head : Option (ℕ → ℕ) → Bool → ℕ → ℕ
without_head (some head) true v = head v % 2 ^ 32
without_head (some head) false v = v
without_head none flag v = v

-- `setFieldInteger`, with the heads of the fields of the table and its `flag`.
unfoldable pub set_field_integer : (ℕ → Option (ℕ → ℕ)) → Bool → ℕ → ℕ → Row → Bool × Row
unfolding get_field put_field var_int_write
set_field_integer heads flag i v r =
    checked r
      (λ f.
        if code f.field_type == code field_int
        then (true, put_field i (record f { number = v }) r)
        else if code f.field_type == code field_var_int
        then (true, put_field i (with_var_int (without_head (heads i) flag v) f) r)
        else (false, r))
      (get_field i r)

-- `setFieldLong`; `varIntWrite` takes an `int`.
unfoldable pub set_field_long : (ℕ → Option (ℕ → ℕ)) → Bool → ℕ → ℕ → Row → Bool × Row
unfolding get_field put_field var_int_write
set_field_long heads flag i v r =
    checked r
      (λ f.
        if code f.field_type == code field_long
        then (true, put_field i (record f { number = v }) r)
        else if code f.field_type == code field_var_int
        then (true, put_field i (with_var_int (without_head (heads i) flag v % 2 ^ 32) f) r)
        else (false, r))
      (get_field i r)

abbrev pub integer_of : Option Field → Option ℕ
integer_of none = none
integer_of (some f) =
    if code f.field_type == code field_int
    then some f.number
    else if code f.field_type == code field_var_int
    then some (get_var_int f)
    else none

-- `getFieldAsInteger`; the code that would put a head back is commented out.
unfoldable pub get_field_as_integer : ℕ → Row → Option ℕ
unfolding get_field get_var_int
get_field_as_integer i r = integer_of (get_field i r)

-- An `int` as a `long long`.
abbrev pub sign_extended : ℕ → ℕ
sign_extended v = if ltb v (2 ^ 31) then v else v + (2 ^ 64 - 2 ^ 32)

-- `head` is here what the arithmetic in `double` makes of the value to put the head back.
abbrev pub with_head : Option (ℕ → ℕ) → ℕ → ℕ
with_head (some head) v = head v % 2 ^ 64
with_head none v = v

abbrev pub long_of : Option (ℕ → ℕ) → Option Field → Option ℕ
long_of head none = none
long_of head (some f) =
    if code f.field_type == code field_long
    then some f.number
    else if code f.field_type == code field_var_int
    then some (with_head head (sign_extended (get_var_int f)))
    else none

-- `getFieldAsLong`
unfoldable pub get_field_as_long : (ℕ → Option (ℕ → ℕ)) → ℕ → Row → Option ℕ
unfolding get_field get_var_int
get_field_as_long heads i r = long_of (heads i) (get_field i r)
