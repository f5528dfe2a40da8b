-- ===== src/Record/Text.antt =====
-- jni/KvDB/Record.cpp: the texts and binaries of a record's fields.
use leveldblib.Prelude.{
  ℕ, zero, suc, ◌-◌, Bool, true, false, Option, none, some, List, [], ◌∷◌, ◌++◌, length, replicate,
  ltb, ◌==◌, if◌then◌else◌, min,
}
use leveldblib.Memory.{load}
use leveldblib.Page.{◌>>=◌}
use leveldblib.Stream.{resized}
use leveldblib.Record.{
  FieldType, field_text, field_var_text, field_binary, field_var_binary, Field, Row, allocated,
  put_field, get_field,
}

-- The loop of `setFieldBinary` that copies up to and with a 0.
unfoldable pub copy_text : ℕ → List ℕ → List ℕ → Option (List ℕ)
copy_text zero source target = some target
copy_text (suc n) [] target = none
copy_text (suc n) (c ∷ source) [] = none
copy_text (suc n) (c ∷ source) (d ∷ target) =
    let rest = copy_text n source target >>= λ copied. some (c ∷ copied) in
    if c == 0 then some (c ∷ target) else rest

-- A case of `setFieldBinary`, on the bytes from the pointer on.
unfoldable pub binary_of : (ℕ → List ℕ) → List ℕ → ℕ → Field → FieldType → Option (Option Field)
unfolding copy_text load
binary_of heap bytes size f field_text = f.buffer >>= λ old.
    copy_text f.field_size bytes old >>= λ b.
    some (some (record f { buffer = some b; n_length = min size f.field_size }))
binary_of heap bytes size f field_var_text = copy_text size bytes (allocated heap size) >>= λ b.
    some (some (record f { buffer = some b; n_length = size; field_size = size }))
binary_of heap bytes size f field_binary =
    let n = min size f.field_size in
    load 0 n bytes >>= λ b.
    some (some (record f { buffer = some (b ++ replicate (f.field_size - n) 0); n_length = n }))
binary_of heap bytes size f field_var_binary =
    load 0 size bytes >>= λ b. some (some (record f { buffer = some b; n_length = size }))
binary_of heap bytes size f t = some none

abbrev pub binary_put : ℕ → Row → Option Field → Bool × Row
binary_put i r none = (false, r)
binary_put i r (some f) = (true, put_field i f r)

abbrev pub binary_set : (ℕ → List ℕ) → ℕ → List ℕ → ℕ → Row → Option Field → Option (Bool × Row)
binary_set heap i bytes size r none = some (false, r)
binary_set heap i bytes size r (some f) =
    binary_of heap bytes size f f.field_type >>= λ g. some (binary_put i r g)

-- `setFieldBinary`, with a `size` that is not negative.
unfoldable pub set_field_binary : (ℕ → List ℕ) → ℕ → List ℕ → ℕ → Row → Option (Bool × Row)
unfolding binary_of put_field get_field
set_field_binary heap i bytes size r = binary_set heap i bytes size r (get_field i r)

-- `setFieldString`: `c_str` ends in a 0.
unfoldable pub set_field_string : (ℕ → List ℕ) → ℕ → List ℕ → Row → Option (Bool × Row)
unfolding set_field_binary
set_field_string heap i str r = set_field_binary heap i (str ++ (0 ∷ [])) (length str) r

-- The loop of `getFieldAsString`, which ends the string behind what it copied.
abbrev pub ended : List ℕ → List ℕ
ended [] = []
ended (d ∷ target) = 0 ∷ target

unfoldable pub read_text : ℕ → List ℕ → List ℕ → Option (List ℕ)
read_text zero source target = some target
read_text (suc n) [] target = none
read_text (suc n) (c ∷ source) [] = none
read_text (suc n) (c ∷ source) (d ∷ target) =
    let rest = read_text n source target >>= λ copied. some (c ∷ copied) in
    if c == 0 then some (c ∷ ended target) else rest

-- A field without a buffer has no bytes either.
abbrev pub buffer_of : Field → List ℕ
buffer_of f = bytes_of f.buffer
  where
    bytes_of : Option (List ℕ) → List ℕ
    bytes_of none = []
    bytes_of (some b) = b

unfoldable pub string_of : Field → List ℕ → FieldType → Option (Option (List ℕ))
unfolding read_text load resized
string_of f str field_text =
    read_text f.n_length (buffer_of f) (resized str f.n_length) >>= λ b. some (some b)
string_of f str field_var_text =
    read_text f.n_length (buffer_of f) (resized str f.n_length) >>= λ b. some (some b)
string_of f str field_binary = load 0 f.n_length (buffer_of f) >>= λ b. some (some b)
string_of f str field_var_binary = load 0 f.n_length (buffer_of f) >>= λ b. some (some b)
string_of f str t = some none

abbrev pub string_got : List ℕ → Option Field → Option (Option (List ℕ))
string_got str none = some none
string_got str (some f) = string_of f str f.field_type

-- `getFieldAsString` into a string that holds `str`; `none` inside is its false.
unfoldable pub get_field_as_string : ℕ → List ℕ → Row → Option (Option (List ℕ))
unfolding string_of get_field
get_field_as_string i str r = string_got str (get_field i r)

abbrev pub binary_got : Option (List ℕ) → Bool × List ℕ
binary_got none = (false, [])
binary_got (some str) = (ltb 0 (length str), str)

-- `getFieldAsBinary`
unfoldable pub get_field_as_binary : ℕ → Row → Option (Bool × List ℕ)
unfolding get_field_as_string
get_field_as_binary i r = get_field_as_string i [] r >>= λ str. some (binary_got str)
