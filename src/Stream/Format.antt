-- ===== src/Stream/Format.antt =====
-- What it means that a writer of jni/KvDB/SMDStream.cpp appends given bytes at the end of a
-- memory stream, and that a reader takes a value from given bytes; both compose.
use leveldblib.Prelude.{
  ℕ, ◌+◌, ◌-◌, ◌%◌, ◌^◌, ◌<◌, ◌≡◌, Bool, ap, ap₂, ◌∙◌, true, List, [], ◌++◌, length, replicate,
  length-append, length-replicate, take_of_length-le, drop_of_length-le, take-length-append,
  drop-length-append, append-nil, append_assoc, arith,
}
use leveldblib.Stream.{
  MemStream, done, Reader, Writer, read_bytes, write_bytes, overwrite, resized, ◌>>=◌, ◌>>◌, resume,
  pure,
}

-- The stream that holds `bytes` with the position at `p`.
abbrev pub at : List ℕ → ℕ → MemStream
at bytes p = record { buf = bytes; pos = p }

-- The writer appends `bytes` to a stream whose position is its end.
abbrev pub Writes : Writer → List ℕ → Type 0
Writes w bytes =
    (buf : List ℕ)
    → length buf + length bytes < 2 ^ 32
    → w (at buf (length buf)) ≡ (true, at (buf ++ bytes) (length buf + length bytes))

-- Where `bytes` stand at the position, the reader gives `a` and moves behind them.
abbrev pub Reads : {A : Type 0} → Reader A → List ℕ → A → Type 0
Reads r bytes a =
    (before rest : List ℕ)
    → length before + length bytes + length rest < 2 ^ 32
    → r (at (before ++ (bytes ++ rest)) (length before))
      ≡ (done a, at (before ++ (bytes ++ rest)) (length before + length bytes))

-- Writing at the end, with or without growing the buffer first.
pub overwrite_end : (buf bytes : List ℕ) → overwrite buf (length buf) bytes ≡ buf ++ bytes
unfolding overwrite
overwrite_end buf bytes = rw (
  take_of_length-le (length buf) buf (omega arith),
  drop_of_length-le (length buf + length bytes) buf (omega arith),
  append-nil,
)

pub overwrite-resized :
    (buf bytes : List ℕ)
    → overwrite (resized buf (length buf + length bytes)) (length buf) bytes ≡ buf ++ bytes
unfolding overwrite resized
overwrite-resized buf bytes =
    let n = length buf + length bytes - length buf in
    let zeros : List ℕ = replicate n 0 in
    rw (
      take_of_length-le (length buf + length bytes) buf (omega arith),
      take-length-append buf zeros,
      drop_of_length-le (length buf + length bytes) (buf ++ zeros)
          (omega (arith, length-append buf zeros, length-replicate {A = ℕ} n 0)),
      append-nil,
    )

pub write_bytes-Writes : (bytes : List ℕ) → Writes (write_bytes bytes) bytes
unfolding write_bytes
write_bytes-Writes bytes buf h =
    let e : (length buf + length bytes) % 2 ^ 32 ≡ length buf + length bytes = omega arith in
    rw e (ground (arith, overwrite-resized buf bytes, overwrite_end buf bytes))

pub read_bytes-Reads : (bytes : List ℕ) → Reads (read_bytes (length bytes)) bytes bytes
unfolding read_bytes
read_bytes-Reads bytes before rest h = ground (
  arith,
  length-append before (bytes ++ rest),
  length-append bytes rest,
  drop-length-append before (bytes ++ rest),
  take-length-append bytes rest,
)

pub >>-Writes :
    (v w : Writer) (xs ys : List ℕ) → Writes v xs → Writes w ys → Writes (v >> w) (xs ++ ys)
>>-Writes v w xs ys hv hw buf h =
    let f = hv buf (omega (arith, length-append xs ys)) in
    let g = hw (buf ++ xs) (omega (arith, length-append xs ys, length-append buf xs)) in
    rw (f, ◌>>◌, ← length-append buf xs, g) (ap₂ end (append_assoc buf xs ys) sum)
  where
    end : List ℕ → ℕ → Bool × MemStream
    end bytes p = (true, at bytes p)

    sum : length (buf ++ xs) + length ys ≡ length buf + length (xs ++ ys)
    sum = omega (arith, length-append buf xs, length-append xs ys)

pub >>=-Reads :
    {A B : Type 0} (m : Reader A) (k : A → Reader B) (xs ys : List ℕ) (a : A) (b : B)
    → Reads m xs a
    → Reads (k a) ys b
    → Reads (m >>= k) (xs ++ ys) b
>>=-Reads {A} {B} m k xs ys a b hm hk before rest h =
    let f = hm before (ys ++ rest) (omega (arith, length-append xs ys, length-append ys rest)) in
    let g = hk (before ++ xs) rest (omega (arith, length-append xs ys, length-append before xs)) in
    let s = at (before ++ (xs ++ (ys ++ rest))) in
    rw (append_assoc xs ys rest) (
      ap (λ r. resume r k) f
      ∙ rw (← length-append before xs, ← append_assoc before xs (ys ++ rest), g)
          (ap (λ (n : ℕ). (done b, at (before ++ xs ++ (ys ++ rest)) n)) sum))
  where
    sum : length (before ++ xs) + length ys ≡ length before + length (xs ++ ys)
    sum = omega (arith, length-append before xs, length-append xs ys)

pub pure-Reads : {A : Type 0} (a : A) → Reads (pure a) [] a
pure-Reads {A} a before rest h = ap (λ (n : ℕ). (done a, at (before ++ rest) n)) (omega arith)
