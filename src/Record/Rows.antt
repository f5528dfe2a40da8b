-- ===== src/Record/Rows.antt =====
-- A record of jni/KvDB/Record.cpp in a stream: `write` and `read`, over the memory stream of Stream.
-- The result of a stream's method is not looked at, and a block that is read into is as long as the
-- bytes asked for. `none` is an access that leaves a block.
pub mod Contents
pub mod Reading
pub mod Cases
pub mod RoundTrip
use leveldblib.Prelude.{
  ℕ, zero, suc, ◌+◌, ◌-◌, ◌^◌, Bool, true, false, ◌||◌, Option, none, some, List, [], ◌∷◌, ◌++◌,
  length, take, drop, replicate, set, ltb, leb, ◌==◌, if◌then◌else◌, min,
}
use leveldblib.Memory.{load}
use leveldblib.Value.{byte}
use leveldblib.Stream.{
  MemStream, Reader, Writer, Outcome, done, failed, thrown, pure, size, write_bytes, read_bytes,
  write_short, read_short, write_int, read_int, write_long, read_long, write_float, read_float,
  write_double, read_double, ◌>>◌, ◌>>=◌,
}
use leveldblib.Stream.Unchecked.{attempt, int_or_zero, read_string_unchecked}
use leveldblib.Record.{
  FieldType, field_unknown, field_text, field_var_text, field_binary, field_var_binary, field_float,
  field_double, field_fl_double, field_var_int, field_short, field_int, field_long, Field, Row,
  allocated, set_bit,
}
use leveldblib.Record.Text.{buffer_of}

-- A write whose `bool` is dropped.
abbrev pub after : Writer → MemStream → MemStream
after w s = (w s).1

-- Bytes of a block, if the block has them, and the rest of a write.
abbrev pub written : Option (List ℕ) → (List ℕ → MemStream) → Option MemStream
written none k = none
written (some b) k = some (k b)

abbrev pub and_then : {A : Type 0} → Option MemStream → (MemStream → Option A) → Option A
and_then none k = none
and_then (some s) k = k s

-- A case of `write`.
unfoldable pub write_case : Field → FieldType → MemStream → Option MemStream
unfolding load
write_case f field_text s =
    written (load 0 f.n_length (buffer_of f))
      (λ b. after (write_bytes b) (after (write_int f.n_length) s))
write_case f field_var_text s =
    written (load 0 f.n_length (buffer_of f)) (λ b. after (write_int f.n_length >> write_bytes b) s)
write_case f field_binary s =
    written (load 0 f.n_length (buffer_of f))
      (λ b. after (write_bytes b) (after (write_int f.n_length) s))
write_case f field_var_binary s =
    written (load 0 f.n_length (buffer_of f))
      (λ b. after (write_bytes b) (after (write_int f.n_length) s))
write_case f field_float s = some (after (write_float f.number) s)
write_case f field_double s = some (after (write_double f.number) s)
write_case f field_fl_double s = some (after (write_long f.number) s)
write_case f field_var_int s = written (load 0 f.n_count f.var_data) (λ b. after (write_bytes b) s)
write_case f field_short s = some (after (write_short f.number) s)
write_case f field_int s = some (after (write_int f.number) s)
write_case f field_long s = some (after (write_long f.number) s)
write_case f field_unknown s = some s

unfoldable pub write_fields : List Field → MemStream → Option MemStream
unfolding write_case
write_fields [] s = some s
write_fields (f ∷ fields) s = and_then (write_case f f.field_type s) (write_fields fields)

unfoldable pub write : Row → MemStream → Option (Bool × MemStream)
unfolding write_fields
write r s = and_then (write_fields r.fields s) (λ t. some (true, t))

-- A number that is read, or the one from before.
abbrev pub number_or : ℕ → Option ℕ → ℕ
number_or n none = n
number_or n (some m) = m

-- A block that is read over another one.
abbrev pub bytes_over : List ℕ → Option (List ℕ) → List ℕ
bytes_over old none = old
bytes_over old (some b) = b ++ drop (length b) old

abbrev pub read_number : Reader ℕ → Field → Reader Field
read_number m f = attempt m >>= λ o. pure (record f { number = number_or f.number o })

-- `readVarInt`, from a byte on, with the rounds left.
unfoldable pub read_var_int : ℕ → ℕ → Field → Reader Field
read_var_int zero i f = pure f
read_var_int (suc n) i f = attempt (read_bytes 1) >>= λ o.
    let c = byte (bytes_over [] o) 0 in
    let g = record f { var_data = set f.var_data i c } in
    let more = read_var_int n (suc i) g in
    if ltb c (2 ^ 7) then pure (record g { n_count = suc i }) else more

-- A text in a block of the field's size.
abbrev pub with_text : Field → List ℕ → Field
with_text f str =
    let n = min f.field_size (length str) in
    record f { buffer = some (take n str ++ replicate (f.field_size - n) 0); n_length = n }

-- The part of a binary that fits, with a negative length as it is.
abbrev pub part : ℕ → ℕ → ℕ
part n size = if ltb n size || leb (2 ^ 31) n then n else size

-- A case of `read`.
unfoldable pub read_case : (ℕ → List ℕ) → Field → FieldType → Reader Field
unfolding read_string_unchecked read_var_int
read_case heap f field_text = read_string_unchecked >>= λ str. pure (with_text f str)
read_case heap f field_var_text = read_string_unchecked >>= λ str.
    pure (record f { buffer = some str; field_size = length str; n_length = length str })
read_case heap f field_binary = attempt read_int >>= λ o.
    let n = part (int_or_zero o) f.field_size in
    attempt (read_bytes n) >>= λ b.
    pure (record f { buffer = some (bytes_over (replicate f.field_size 0) b); n_length = n })
read_case heap f field_var_binary = attempt read_int >>= λ o.
    let n = number_or f.n_length o in
    attempt (read_bytes n) >>= λ b.
    pure
      (record f { buffer = some (bytes_over (allocated heap n) b); n_length = n; field_size = n })
read_case heap f field_float = read_number read_float f
read_case heap f field_double = read_number read_double f
read_case heap f field_fl_double = read_number read_long f
read_case heap f field_var_int = read_var_int 5 0 f
read_case heap f field_short = read_number read_short f
read_case heap f field_int = read_number read_int f
read_case heap f field_long = read_number read_long f
read_case heap f field_unknown = pure f

-- `setBit`, where the type has a case.
abbrev pub marked : FieldType → ℕ → ℕ → ℕ
marked field_unknown i flag = flag
marked t i flag = set_bit i flag

-- The loop of `read`, from a field on.
unfoldable pub read_fields : (ℕ → List ℕ) → ℕ → ℕ → List Field → Reader Row
unfolding read_case set_bit
read_fields heap i flag [] = pure (record { flag = flag; fields = [] })
read_fields heap i flag (f ∷ fields) = read_case heap f f.field_type >>= λ g.
    read_fields heap (suc i) (marked f.field_type i flag) fields >>= λ r.
    pure (record r { fields = g ∷ r.fields })

abbrev pub with_result : {A B : Type 0} → (A → B) → Outcome A × MemStream → Outcome B × MemStream
with_result k (done a, s) = (done (k a), s)
with_result k (failed, s) = (failed, s)
with_result k (thrown, s) = (thrown, s)

unfoldable pub read : (ℕ → List ℕ) → Row → Reader (Bool × Row)
unfolding read_fields size
read heap r s =
    let run = read_fields heap 0 r.flag r.fields s in
    if size s == 0 then (done (false, r), s) else with_result (λ q. (true, q)) run
