-- ===== src/Record/Rows/Cases.antt =====
-- jni/KvDB/Record.cpp: each case of `read` finds in a field's bytes what was written.
use leveldblib.Prelude.{
  ℕ, ◌+◌, ◌-◌, ◌≤◌, ◌<◌, ◌≡◌, refl, sym, ap, subst, ◌∙◌, false, some, List, [], ◌++◌, length, take,
  drop, replicate, min, ◌==◌, arith, length-take, take_of_length-le, take-length-append,
}
use leveldblib.Stream.{Reader, read_bytes}
use leveldblib.Stream.Unchecked.{attempt}
use leveldblib.Stream.Chain.{
  Gets, >>=-Gets, finish-Gets, pure-Gets, read_bytes-Gets, read_short-Gets, read_int-Gets,
  read_long-Gets, read_float-Gets, read_double-Gets, read_string-Gets,
}
use leveldblib.Record.{
  FieldType, field_unknown, field_text, field_var_text, field_binary, field_var_binary, field_float,
  field_double, field_fl_double, field_var_int, field_short, field_int, field_long, Field,
  allocated,
}
use leveldblib.Record.Text.{buffer_of}
use leveldblib.Record.VarInt.{zig, var_int_bytes}
use leveldblib.Record.VarInt.Codec.{var_int_bytes_some, zig-lt, get_var_int_of_bytes}
use leveldblib.Record.Rows.{with_text, part, read_case}
use leveldblib.Record.Rows.Contents.{
  bytes_of, field_bytes, content, content_number, content_bytes, HasBytes, HasVarInt, IsFilled,
}
use leveldblib.Record.Rows.Reading.{reach, read_var_int-Gets}

-- A field that a reader gives for the bytes of another: of the same type and with its content.
pub data Gives (m : Reader Field) (bytes : List ℕ) (g f : Field) (t : FieldType) : Type 0 where
  gives :
      {h : Field}
      → Gets m bytes h
      → h.field_type ≡ g.field_type
      → content h t ≡ content f t
      → Gives m bytes g f t

length-bytes_of : (f : Field) → HasBytes f → length (bytes_of f) ≡ f.n_length
length-bytes_of f h = omega (arith, length-take f.n_length (buffer_of f), h.0)

block-Gets : (n : ℕ) (b : List ℕ) → length b ≡ n → Gets (attempt (read_bytes n)) b (some b)
block-Gets n b e = rw e at (read_bytes-Gets b)

-- The bytes at the front of a block that they were read over.
front : (n : ℕ) (b rest : List ℕ) → length b ≡ n → take n (b ++ rest) ≡ b
front n b rest e = rw e at (take-length-append b rest)

text-Gives :
    (heap : ℕ → List ℕ) (f g : Field)
    → HasBytes f
    → f.n_length ≤ g.field_size
    → Gives (read_case heap g field_text) (field_bytes f field_text) g f field_text
unfolding read_case
text-Gives heap f g h fits =
    let b = bytes_of f in
    let l = length-bytes_of f h in
    let n : min g.field_size f.n_length ≡ f.n_length = omega (arith, fits) in
    let reads = finish-Gets (with_text g) (read_string-Gets b (omega (arith, l, h.1))) in
    gives (rw l at reads) refl (
      rw (n, take_of_length-le f.n_length b (omega (arith, l)))
        (ap content_bytes (front f.n_length b (replicate (g.field_size - f.n_length) 0) l)))

var_text-Gives :
    (heap : ℕ → List ℕ) (f g : Field)
    → HasBytes f
    → Gives (read_case heap g field_var_text) (field_bytes f field_var_text) g f field_var_text
unfolding read_case
var_text-Gives heap f g h =
    let b = bytes_of f in
    let l = length-bytes_of f h in
    let reads =
      finish-Gets
        (λ (str : List ℕ). record g {
          buffer = some str;
          field_size = length str;
          n_length = length str;
        })
        (read_string-Gets b (omega (arith, l, h.1))) in
    gives (rw l at reads) refl
      (ap content_bytes (take_of_length-le f.n_length b (omega (arith, l))))

binary-Gives :
    (heap : ℕ → List ℕ) (f g : Field)
    → HasBytes f
    → f.n_length ≤ g.field_size
    → Gives (read_case heap g field_binary) (field_bytes f field_binary) g f field_binary
unfolding read_case
binary-Gives heap f g h fits =
    let b = bytes_of f in
    let l = length-bytes_of f h in
    let whole : part f.n_length g.field_size ≡ f.n_length = ground (arith, fits, h.1) in
    let old : List ℕ = replicate g.field_size 0 in
    gives {h = record g { buffer = some (b ++ drop (length b) old); n_length = f.n_length }}
      (>>=-Gets _ (read_int-Gets f.n_length (omega (arith, h.1)))
        (rw whole (finish-Gets _ (block-Gets f.n_length b l))))
      refl (ap content_bytes (front f.n_length b (drop (length b) old) l))

var_binary-Gives :
    (heap : ℕ → List ℕ) (f g : Field)
    → HasBytes f
    → Gives
        (read_case heap g field_var_binary)
        (field_bytes f field_var_binary)
        g
        f
        field_var_binary
unfolding read_case
var_binary-Gives heap f g h =
    let b = bytes_of f in
    let l = length-bytes_of f h in
    gives
      (>>=-Gets _ (read_int-Gets f.n_length (omega (arith, h.1)))
        (finish-Gets _ (block-Gets f.n_length b l)))
      refl (ap content_bytes (front f.n_length b (drop (length b) (allocated heap f.n_length)) l))

var_int-Gives :
    (heap : ℕ → List ℕ) (f g : Field)
    → HasVarInt f
    → length g.var_data ≡ 5
    → Gives (read_case heap g field_var_int) (field_bytes f field_var_int) g f field_var_int
unfolding read_case
var_int-Gives heap f g (_, v, small, e, got) five =
    let bytes = var_int_bytes 5 (zig v) in
    let rest = drop (length bytes) g.var_data in
    let out : Field = record g { var_data = bytes ++ rest; n_count = 0 + length bytes } in
    let low : zig v < reach 5 = omega (arith, zig-lt v small) in
    let some_count : (0 + length bytes == 0) ≡ false =
      ground (arith, var_int_bytes_some 4 (zig v)) in
    gives
      (subst (λ (xs : List ℕ). Gets (read_case heap g field_var_int) xs out) (sym e)
        (read_var_int-Gets 5 (zig v) [] g.var_data g low five (omega arith) refl))
      refl (ap content_number (get_var_int_of_bytes v out rest small refl some_count ∙ sym got))

pub read_case-Gives :
    (heap : ℕ → List ℕ) (f g : Field) (t : FieldType)
    → IsFilled f g.field_size t
    → length g.var_data ≡ 5
    → Gives (read_case heap g t) (field_bytes f t) g f t
unfolding read_case
read_case-Gives heap f g field_text h five = text-Gives heap f g h.0 h.1
read_case-Gives heap f g field_var_text h five = var_text-Gives heap f g h
read_case-Gives heap f g field_binary h five = binary-Gives heap f g h.0 h.1
read_case-Gives heap f g field_var_binary h five = var_binary-Gives heap f g h
read_case-Gives heap f g field_float h five =
    gives (finish-Gets _ (read_float-Gets f.number h)) refl refl
read_case-Gives heap f g field_double h five =
    gives (finish-Gets _ (read_double-Gets f.number h)) refl refl
read_case-Gives heap f g field_fl_double h five =
    gives (finish-Gets _ (read_long-Gets f.number h)) refl refl
read_case-Gives heap f g field_var_int h five = var_int-Gives heap f g h five
read_case-Gives heap f g field_short h five =
    gives (finish-Gets _ (read_short-Gets f.number h)) refl refl
read_case-Gives heap f g field_int h five =
    gives (finish-Gets _ (read_int-Gets f.number h)) refl refl
read_case-Gives heap f g field_long h five =
    gives (finish-Gets _ (read_long-Gets f.number h)) refl refl
read_case-Gives heap f g field_unknown h five = gives pure-Gets refl refl
