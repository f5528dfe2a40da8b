-- ===== src/Stream/Typed.antt =====
-- The typed methods of jni/KvDB/SMDStream.cpp: what each writes, and that its reader gives it back.
use leveldblib.Prelude.{
  ℕ, ◌%◌, ◌^◌, ◌<◌, ◌≡◌, List, [], ◌++◌, length, append-nil, lt→ltb, arith, if◌then◌else◌, ltb,
}
use leveldblib.Value.{
  put_short, get_short, put_int, get_int, put_long, get_long, put_float, get_float, put_double,
  get_double,
}
use leveldblib.Value.Codec.{get_short-put_short, get_int-put_int, get_long-put_long}
use leveldblib.Stream.{
  Reader, read_bytes, write_bytes, ◌>>=◌, pure, write_short, read_short, write_int, read_int,
  write_long, read_long, write_float, read_float, write_double, read_double, write_string,
  read_string, thrown,
}
use leveldblib.Stream.Format.{
  Writes, Reads, write_bytes-Writes, read_bytes-Reads, >>-Writes, >>=-Reads, pure-Reads,
}

pub write_short-Writes : (v : ℕ) → Writes (write_short v) (put_short v)
unfolding write_short
write_short-Writes v = write_bytes-Writes (put_short v)

pub write_int-Writes : (v : ℕ) → Writes (write_int v) (put_int v)
unfolding write_int
write_int-Writes v = write_bytes-Writes (put_int v)

pub write_long-Writes : (v : ℕ) → Writes (write_long v) (put_long v)
unfolding write_long
write_long-Writes v = write_bytes-Writes (put_long v)

-- A reader that decodes a block of a known length.
decode-Reads :
    {A : Type 0} (get : List ℕ → A) (bytes : List ℕ) (v : A)
    → get bytes ≡ v
    → Reads (read_bytes (length bytes) >>= λ b. pure (get b)) bytes v
decode-Reads get bytes v e = rw append-nil at (
    >>=-Reads (read_bytes (length bytes)) (λ b. pure (get b)) bytes [] bytes v
      (read_bytes-Reads bytes) (rw e (pure-Reads v)))

pub read_short-Reads : (v : ℕ) → v < 2 ^ 16 → Reads read_short (put_short v) v
unfolding read_short put_short
read_short-Reads v h =
    decode-Reads get_short (put_short v) v (rw append-nil at (get_short-put_short v [] h))

pub read_int-Reads : (v : ℕ) → v < 2 ^ 32 → Reads read_int (put_int v) v
unfolding read_int put_int
read_int-Reads v h = decode-Reads get_int (put_int v) v (rw append-nil at (get_int-put_int v [] h))

pub read_long-Reads : (v : ℕ) → v < 2 ^ 64 → Reads read_long (put_long v) v
unfolding read_long put_long
read_long-Reads v h =
    decode-Reads get_long (put_long v) v (rw append-nil at (get_long-put_long v [] h))

pub write_float-Writes : (v : ℕ) → Writes (write_float v) (put_float v)
unfolding write_float
write_float-Writes v = write_bytes-Writes (put_float v)

pub write_double-Writes : (v : ℕ) → Writes (write_double v) (put_double v)
unfolding write_double
write_double-Writes v = write_bytes-Writes (put_double v)

pub read_float-Reads : (v : ℕ) → v < 2 ^ 32 → Reads read_float (put_float v) v
unfolding read_float put_float get_float put_int
read_float-Reads v h = decode-Reads get_int (put_int v) v (get_int-put_int v [] h)

pub read_double-Reads : (v : ℕ) → v < 2 ^ 64 → Reads read_double (put_double v) v
unfolding read_double put_double get_double put_long
read_double-Reads v h = decode-Reads get_long (put_long v) v (get_long-put_long v [] h)

-- The bytes of a string: its length, then its contents.
abbrev pub string_bytes : List ℕ → List ℕ
string_bytes str = put_int (length str) ++ str

pub write_string-Writes :
    (str : List ℕ) → length str < 2 ^ 32 → Writes (write_string str) (string_bytes str)
unfolding write_string
write_string-Writes str h =
    let e : length str % 2 ^ 32 ≡ length str = omega arith in
    rw e (
      >>-Writes (write_int (length str)) (write_bytes str) (put_int (length str)) str
        (write_int-Writes (length str)) (write_bytes-Writes str))

pub read_string-Reads :
    (str : List ℕ) → length str < 2 ^ 31 → Reads read_string (string_bytes str) str
unfolding read_string
read_string-Reads str h =
    >>=-Reads read_int string_of (put_int (length str)) str (length str) str
      (read_int-Reads (length str) (omega arith))
      (rw (lt→ltb (length str) (2 ^ 31) h) (read_bytes-Reads str))
  where
    string_of : ℕ → Reader (List ℕ)
    string_of sz = if ltb sz (2 ^ 31) then read_bytes sz else (λ s. (thrown, s))
