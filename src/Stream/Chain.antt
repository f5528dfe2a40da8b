-- ===== src/Stream/Chain.antt =====
-- Chains of the methods of jni/KvDB/SMDStream.cpp: what a chain writes, and what it reads where those
-- bytes stand, from its parts.
use leveldblib.Prelude.{
  ℕ, ◌+◌, ◌^◌, ◌<◌, ◌≡◌, sym, ap, ◌∙◌, Bool, true, false, some, List, [], ◌++◌, append-nil, length,
  length-append, lt→ltb, ◌==◌, if◌then◌else◌, arith,
}
use leveldblib.Value.{put_short, put_int, put_long, put_float, put_double}
use leveldblib.Stream.{
  MemStream, done, Reader, Writer, ◌>>=◌, ◌>>◌, pure, size, u32, read_bytes, write_bytes,
  write_short, read_short, write_int, read_int, read_long, read_float, write_double, read_double,
  write_string, read_string,
}
use leveldblib.Stream.Format.{
  at, Writes, Reads, write_bytes-Writes, read_bytes-Reads, >>-Writes, >>=-Reads, pure-Reads,
}
use leveldblib.Stream.Typed.{
  write_short-Writes, read_short-Reads, write_int-Writes, read_int-Reads, write_double-Writes,
  read_double-Reads, read_long-Reads, read_float-Reads, string_bytes, write_string-Writes,
  read_string-Reads,
}
use leveldblib.Stream.Unchecked.{
  write_nothing, ◌also◌, as_option, attempt, string_bytes_or, string_after, read_string_unchecked,
  rounds,
}

pub data Puts (w : Writer) (bytes : List ℕ) : Type 0 where
  puts : Writes w bytes → Puts w bytes

pub data Gets {A : Type 0} (r : Reader A) (bytes : List ℕ) (a : A) : Type 0 where
  gets : Reads r bytes a → Gets r bytes a

pub Puts-Writes : {w : Writer} {bytes : List ℕ} → Puts w bytes → Writes w bytes
Puts-Writes (puts h) = h

pub Gets-Reads :
    {A : Type 0} {r : Reader A} {bytes : List ℕ} {a : A} → Gets r bytes a → Reads r bytes a
Gets-Reads (gets h) = h

also-Writes :
    (v w : Writer) (xs ys : List ℕ) → Writes v xs → Writes w ys → Writes (v also w) (xs ++ ys)
also-Writes v w xs ys hv hw buf h =
    let f = hv buf (omega (arith, length-append xs ys)) in
    let t = at (buf ++ xs) (length buf + length xs) in
    let one : (v also w) (at buf (length buf)) ≡ w t = ap (λ (r : Bool × MemStream). w r.1) f in
    let two : (v >> w) (at buf (length buf)) ≡ w t =
      ap (λ (r : Bool × MemStream). if r.0 then w r.1 else (false, r.1)) f in
    one ∙ sym two ∙ >>-Writes v w xs ys hv hw buf h

pub also-Puts : {v w : Writer} {xs ys : List ℕ} → Puts v xs → Puts w ys → Puts (v also w) (xs ++ ys)
also-Puts {v} {w} {xs} {ys} (puts f) (puts g) = puts (also-Writes v w xs ys f g)

pub >>=-Gets :
    {A B : Type 0} {m : Reader A} {xs ys : List ℕ} {a : A} {b : B} (k : A → Reader B)
    → Gets m xs a
    → Gets (k a) ys b
    → Gets (m >>= k) (xs ++ ys) b
>>=-Gets {m} {xs} {ys} {a} {b} k (gets f) (gets g) = gets (>>=-Reads m k xs ys a b f g)

pub pure-Gets : {A : Type 0} {a : A} → Gets (pure a) [] a
pure-Gets {a} = gets (pure-Reads a)

-- A chain that ends in a value that is made of the last part.
pub finish-Gets :
    {A B : Type 0} {m : Reader A} {xs : List ℕ} {a : A} (k : A → B)
    → Gets m xs a
    → Gets (m >>= λ x. pure (k x)) xs (k a)
finish-Gets {m} {xs} {a} k (gets f) =
    gets (rw append-nil at (>>=-Reads m (λ x. pure (k x)) xs [] a (k a) f (pure-Reads (k a))))

pub >>-Puts : {v w : Writer} {xs ys : List ℕ} → Puts v xs → Puts w ys → Puts (v >> w) (xs ++ ys)
>>-Puts {v} {w} {xs} {ys} (puts f) (puts g) = puts (>>-Writes v w xs ys f g)

pub attempt-Gets :
    {A : Type 0} {m : Reader A} {xs : List ℕ} {a : A} → Gets m xs a → Gets (attempt m) xs (some a)
attempt-Gets {m} {xs} {a} (gets f) = gets λ before rest h. ap as_option (f before rest h)

-- A reader that looks first whether the stream is empty.
pub unless_empty-Gets :
    {A : Type 0} {m : Reader A} {xs : List ℕ} {a : A} (c : A)
    → 0 < length xs
    → Gets m xs a
    → Gets (λ s. if size s == 0 then (done c, s) else m s) xs a
unfolding size
unless_empty-Gets {m} {xs} c pos (gets f) = gets λ before rest h.
    let buf = before ++ (xs ++ rest) in
    let bytes : (u32 (length buf) == 0) ≡ false =
      ground (arith, pos, h, length-append before (xs ++ rest), length-append xs rest) in
    rw bytes (f before rest h)

-- The parts.
pub write_nothing-Puts : Puts write_nothing []
write_nothing-Puts =
    puts (λ buf h. rw (append-nil buf) (ap (λ (n : ℕ). (true, at buf n)) (omega arith)))

pub write_short-Puts : (v : ℕ) → Puts (write_short v) (put_short v)
write_short-Puts v = puts (write_short-Writes v)

pub write_int-Puts : (v : ℕ) → Puts (write_int v) (put_int v)
write_int-Puts v = puts (write_int-Writes v)

pub write_double-Puts : (v : ℕ) → Puts (write_double v) (put_double v)
write_double-Puts v = puts (write_double-Writes v)

pub write_bytes-Puts : (b : List ℕ) → Puts (write_bytes b) b
write_bytes-Puts b = puts (write_bytes-Writes b)

pub write_string-Puts :
    (str : List ℕ) → length str < 2 ^ 31 → Puts (write_string str) (string_bytes str)
write_string-Puts str h = puts (write_string-Writes str (omega arith))

pub read_short-Gets : (v : ℕ) → v < 2 ^ 16 → Gets (attempt read_short) (put_short v) (some v)
read_short-Gets v h = attempt-Gets (gets (read_short-Reads v h))

pub read_int-Gets : (v : ℕ) → v < 2 ^ 32 → Gets (attempt read_int) (put_int v) (some v)
read_int-Gets v h = attempt-Gets (gets (read_int-Reads v h))

pub read_long-Gets : (v : ℕ) → v < 2 ^ 64 → Gets (attempt read_long) (put_long v) (some v)
read_long-Gets v h = attempt-Gets (gets (read_long-Reads v h))

pub read_float-Gets : (v : ℕ) → v < 2 ^ 32 → Gets (attempt read_float) (put_float v) (some v)
read_float-Gets v h = attempt-Gets (gets (read_float-Reads v h))

pub read_double-Gets : (v : ℕ) → v < 2 ^ 64 → Gets (attempt read_double) (put_double v) (some v)
read_double-Gets v h = attempt-Gets (gets (read_double-Reads v h))

pub read_bytes-Gets : (b : List ℕ) → Gets (attempt (read_bytes (length b))) b (some b)
read_bytes-Gets b = attempt-Gets (gets (read_bytes-Reads b))

pub read_string-Gets :
    (str : List ℕ) → length str < 2 ^ 31 → Gets read_string_unchecked (string_bytes str) str
unfolding read_string_unchecked string_after string_bytes_or
read_string-Gets str h = >>=-Gets string_after (read_int-Gets (length str) (omega arith)) (
    rw (lt→ltb (length str) (2 ^ 31) h)
      (finish-Gets (string_bytes_or (length str)) (read_bytes-Gets str)))

pub read_checked-Gets :
    (str : List ℕ) → length str < 2 ^ 31 → Gets (attempt read_string) (string_bytes str) (some str)
read_checked-Gets str h = attempt-Gets (gets (read_string-Reads str h))

pub rounds_of_small : (n : ℕ) → n < 2 ^ 31 → rounds n ≡ n
rounds_of_small n h = ground (arith, h)
