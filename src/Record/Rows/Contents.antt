-- ===== src/Record/Rows/Contents.antt =====
-- The bytes of a field of jni/KvDB/Record.cpp in a stream, what a field means, and that `write` writes
-- those bytes.
use leveldblib.Prelude.{
  ℕ, ◌+◌, ◌^◌, ◌≤◌, ◌<◌, ◌≡◌, refl, sym, ap, ap₂, ◌∙◌, true, Option, some, List, [], ◌∷◌, ◌++◌,
  append-nil, append_assoc, length, take, arith, length-append,
}
use leveldblib.Memory.{load, load_fits}
use leveldblib.Value.{put_short, put_int, put_long, put_float, put_double}
use leveldblib.Stream.{
  MemStream, Writer, write_bytes, write_int, write_short, write_long, write_float, write_double,
  ◌>>◌,
}
use leveldblib.Stream.Format.{at, Writes, write_bytes-Writes, >>-Writes}
use leveldblib.Stream.Typed.{
  write_int-Writes, write_short-Writes, write_long-Writes, write_float-Writes, write_double-Writes,
}
use leveldblib.Record.{
  FieldType, field_unknown, field_text, field_var_text, field_binary, field_var_binary, field_float,
  field_double, field_fl_double, field_var_int, field_short, field_int, field_long, Field,
}
use leveldblib.Record.Text.{buffer_of}
use leveldblib.Record.VarInt.{zig, var_int_bytes, get_var_int}
use leveldblib.Record.Rows.{after, written, write_case, write_fields}

-- The text or binary of a field.
abbrev pub bytes_of : Field → List ℕ
bytes_of f = take f.n_length (buffer_of f)

abbrev pub field_bytes : Field → FieldType → List ℕ
field_bytes f field_text = put_int f.n_length ++ bytes_of f
field_bytes f field_var_text = put_int f.n_length ++ bytes_of f
field_bytes f field_binary = put_int f.n_length ++ bytes_of f
field_bytes f field_var_binary = put_int f.n_length ++ bytes_of f
field_bytes f field_float = put_float f.number
field_bytes f field_double = put_double f.number
field_bytes f field_fl_double = put_long f.number
field_bytes f field_var_int = take f.n_count f.var_data
field_bytes f field_short = put_short f.number
field_bytes f field_int = put_int f.number
field_bytes f field_long = put_long f.number
field_bytes f field_unknown = []

-- What a field means, by its type.
pub data Content : Type 0 where
  content_number : ℕ → Content
  content_bytes : List ℕ → Content
  no_content : Content

abbrev pub content : Field → FieldType → Content
content f field_text = content_bytes (bytes_of f)
content f field_var_text = content_bytes (bytes_of f)
content f field_binary = content_bytes (bytes_of f)
content f field_var_binary = content_bytes (bytes_of f)
content f field_var_int = content_number (get_var_int f)
content f field_unknown = no_content
content f t = content_number f.number

-- A block with as many bytes as the field says.
abbrev pub HasBytes : Field → Type 0
HasBytes f = (f.n_length ≤ length (buffer_of f)) × (f.n_length < 2 ^ 31)

-- The number of a field of variable length, as `varIntWrite` writes it.
abbrev pub HasVarInt : Field → Type 0
HasVarInt f =
    (f.n_count ≤ length f.var_data)
    × (v : ℕ) × (v < 2 ^ 32)
    × (take f.n_count f.var_data ≡ var_int_bytes 5 (zig v))
    × (get_var_int f ≡ v)

-- A field that is set, for a field of that type and size.
abbrev pub IsFilled : Field → ℕ → FieldType → Type 0
IsFilled f n field_text = HasBytes f × (f.n_length ≤ n)
IsFilled f n field_var_text = HasBytes f
IsFilled f n field_binary = HasBytes f × (f.n_length ≤ n)
IsFilled f n field_var_binary = HasBytes f
IsFilled f n field_float = f.number < 2 ^ 32
IsFilled f n field_double = f.number < 2 ^ 64
IsFilled f n field_fl_double = f.number < 2 ^ 64
IsFilled f n field_var_int = HasVarInt f
IsFilled f n field_short = f.number < 2 ^ 16
IsFilled f n field_int = f.number < 2 ^ 32
IsFilled f n field_long = f.number < 2 ^ 64
IsFilled f n field_unknown = Unit {0}

-- The write appends the bytes to a stream whose position is its end.
abbrev pub Appends : (MemStream → Option MemStream) → List ℕ → Type 0
Appends w bytes =
    (buf : List ℕ)
    → length buf + length bytes < 2 ^ 32
    → w (at buf (length buf)) ≡ some (at (buf ++ bytes) (length buf + length bytes))

one-Appends : (w : Writer) (bytes : List ℕ) → Writes w bytes → Appends (λ s. some (after w s)) bytes
one-Appends w bytes h buf small = ap (λ r. some r.1) (h buf small)

same_after :
    (v w : Writer) (s t : MemStream) → v s ≡ (true, t) → after w (after v s) ≡ after (v >> w) s
same_after v w s t e = rw (after, ◌>>◌, e) refl

two-Appends :
    (v w : Writer) (xs ys : List ℕ)
    → Writes v xs
    → Writes w ys
    → Appends (λ s. some (after w (after v s))) (xs ++ ys)
two-Appends v w xs ys hv hw buf small =
    let f = hv buf (omega (arith, small, length-append xs ys)) in
    let t = at (buf ++ xs) (length buf + length xs) in
    ap some (same_after v w (at buf (length buf)) t f)
    ∙ one-Appends (v >> w) (xs ++ ys) (>>-Writes v w xs ys hv hw) buf small

bytes-Appends :
    (f : Field)
    → HasBytes f
    → (k : List ℕ → MemStream → MemStream)
    → Appends (λ s. some (k (bytes_of f) s)) (put_int f.n_length ++ bytes_of f)
    → Appends
        (λ s. written (load 0 f.n_length (buffer_of f)) (λ b. k b s))
        (put_int f.n_length ++ bytes_of f)
bytes-Appends f h k a buf small =
    rw (load_fits 0 f.n_length (buffer_of f) (omega (arith, h.0))) (a buf small)

pub write_case-Appends :
    (f : Field) (n : ℕ) (t : FieldType)
    → IsFilled f n t
    → Appends (write_case f t) (field_bytes f t)
unfolding write_case
write_case-Appends f n field_text h =
    bytes-Appends f h.0 (λ b s. after (write_bytes b) (after (write_int f.n_length) s))
      (two-Appends (write_int f.n_length) (write_bytes (bytes_of f)) (put_int f.n_length)
        (bytes_of f) (write_int-Writes f.n_length) (write_bytes-Writes (bytes_of f)))
write_case-Appends f n field_var_text h =
    bytes-Appends f h (λ b s. after (write_int f.n_length >> write_bytes b) s)
      (one-Appends (write_int f.n_length >> write_bytes (bytes_of f))
        (put_int f.n_length ++ bytes_of f)
        (>>-Writes (write_int f.n_length) (write_bytes (bytes_of f)) (put_int f.n_length)
          (bytes_of f) (write_int-Writes f.n_length) (write_bytes-Writes (bytes_of f))))
write_case-Appends f n field_binary h =
    bytes-Appends f h.0 (λ b s. after (write_bytes b) (after (write_int f.n_length) s))
      (two-Appends (write_int f.n_length) (write_bytes (bytes_of f)) (put_int f.n_length)
        (bytes_of f) (write_int-Writes f.n_length) (write_bytes-Writes (bytes_of f)))
write_case-Appends f n field_var_binary h =
    bytes-Appends f h (λ b s. after (write_bytes b) (after (write_int f.n_length) s))
      (two-Appends (write_int f.n_length) (write_bytes (bytes_of f)) (put_int f.n_length)
        (bytes_of f) (write_int-Writes f.n_length) (write_bytes-Writes (bytes_of f)))
write_case-Appends f n field_float h =
    one-Appends (write_float f.number) (put_float f.number) (write_float-Writes f.number)
write_case-Appends f n field_double h =
    one-Appends (write_double f.number) (put_double f.number) (write_double-Writes f.number)
write_case-Appends f n field_fl_double h =
    one-Appends (write_long f.number) (put_long f.number) (write_long-Writes f.number)
write_case-Appends f n field_var_int h = λ buf small.
    rw (load_fits 0 f.n_count f.var_data (omega (arith, h.0))) (
      one-Appends (write_bytes (take f.n_count f.var_data)) (take f.n_count f.var_data)
        (write_bytes-Writes (take f.n_count f.var_data)) buf small)
write_case-Appends f n field_short h =
    one-Appends (write_short f.number) (put_short f.number) (write_short-Writes f.number)
write_case-Appends f n field_int h =
    one-Appends (write_int f.number) (put_int f.number) (write_int-Writes f.number)
write_case-Appends f n field_long h =
    one-Appends (write_long f.number) (put_long f.number) (write_long-Writes f.number)
write_case-Appends f n field_unknown h =
    λ buf small. ap₂ (λ (b : List ℕ) (p : ℕ). some (at b p)) (sym (append-nil buf)) (omega arith)

-- The bytes of all fields.
abbrev pub fields_bytes : List Field → List ℕ
fields_bytes [] = []
fields_bytes (f ∷ fields) = field_bytes f f.field_type ++ fields_bytes fields

-- The fields are set, for fields of the same types and sizes.
abbrev pub AllFilled : List Field → List Field → Type 0
AllFilled [] [] = Unit {0}
AllFilled [] (g ∷ others) = ⊥
AllFilled (f ∷ fields) [] = ⊥
AllFilled (f ∷ fields) (g ∷ others) =
    (g.field_type ≡ f.field_type)
    × IsFilled f g.field_size f.field_type
    × (length g.var_data ≡ 5)
    × AllFilled fields others

pub write_fields-Appends :
    (fields others : List Field)
    → AllFilled fields others
    → Appends (write_fields fields) (fields_bytes fields)
unfolding write_fields
write_fields-Appends [] others h buf small =
    ap₂ (λ (b : List ℕ) (p : ℕ). some (at b p)) (sym (append-nil buf)) (omega arith)
write_fields-Appends (f ∷ fields) [] h buf small = elim h [ ]
write_fields-Appends (f ∷ fields) (g ∷ others) (_, set, _, rest) buf small =
    let xs = field_bytes f f.field_type in
    let ys = fields_bytes fields in
    let first =
      write_case-Appends f g.field_size f.field_type set buf
        (omega (arith, small, length-append xs ys)) in
    let next =
      write_fields-Appends fields others rest (buf ++ xs)
        (omega (arith, small, length-append xs ys, length-append buf xs)) in
    rw (first, ← length-append buf xs, next)
      (ap₂ (λ (b : List ℕ) (p : ℕ). some (at b p)) (append_assoc buf xs ys)
        (omega (arith, length-append xs ys, length-append buf xs)))
