-- ===== src/Stream/RoundTrip.antt =====
-- jni/KvDB/SMDStream.cpp: what a method writes at the end of a memory stream, its counterpart reads
-- back after a `setPosition` to where the writing began.
use leveldblib.Prelude.{
  ℕ, ◌+◌, ◌^◌, ◌<◌, ◌≤◌, ◌≡◌, ap, ◌∙◌, Bool, true, List, [], ◌++◌, length, append-nil,
  length-append, arith,
}
use leveldblib.Value.{put_short, put_int, put_long}
use leveldblib.Value.Codec.{length-put_short, length-put_int, length-put_long}
use leveldblib.Stream.{
  MemStream, Outcome, done, Reader, Writer, size, set_position, write_short, read_short, write_int,
  read_int, write_long, read_long, write_string, read_string,
}
use leveldblib.Stream.Format.{at, Writes, Reads}
use leveldblib.Stream.Typed.{
  write_short-Writes, read_short-Reads, write_int-Writes, read_int-Reads, write_long-Writes,
  read_long-Reads, write_string-Writes, read_string-Reads, string_bytes,
}

abbrev read_at : {A : Type 0} → Reader A → ℕ → Bool × MemStream → Bool × (Outcome A × MemStream)
read_at r p (wrote, s) = (wrote, r (set_position p s).1)

-- Write at the end of a stream that holds `buf`, go back to where that was, and read.
unfoldable pub write_then_read :
    {A : Type 0} → Writer → Reader A → List ℕ → Bool × (Outcome A × MemStream)
write_then_read w r buf = read_at r (length buf) (w (at buf (length buf)))

pub set_position_within :
    (bytes : List ℕ) (p q : ℕ)
    → length bytes < 2 ^ 32
    → p ≤ length bytes
    → set_position p (at bytes q) ≡ (true, at bytes p)
unfolding set_position size
set_position_within bytes p q h k = ground arith

-- The write succeeds, the value comes back, and the stream holds `bytes` with its position at the
-- end.
abbrev pub Returned : {A : Type 0} → List ℕ → A → Bool × (Outcome A × MemStream) → Type 0
Returned bytes a out = out ≡ (true, (done a, at bytes (length bytes)))

round_trip :
    {A : Type 0} (w : Writer) (r : Reader A) (bytes : List ℕ) (a : A) (buf : List ℕ)
    → Writes w bytes
    → Reads r bytes a
    → length buf + length bytes < 2 ^ 32
    → Returned (buf ++ bytes) a (write_then_read w r buf)
unfolding write_then_read
round_trip {A} w r bytes a buf hw hr h =
    ap (read_at r (length buf)) (hw buf h)
    ∙ ap (λ (s : Bool × MemStream). (true, r s.1))
        (set_position_within (buf ++ bytes) (length buf) (length buf + length bytes)
          (omega (arith, length-append buf bytes)) (omega (arith, length-append buf bytes)))
    ∙ ap (λ (o : Outcome A × MemStream). (true, o)) (rw append-nil at (hr buf [] (omega arith)))
    ∙ ap (λ (n : ℕ). (true, (done a, at (buf ++ bytes) n))) (omega (arith, length-append buf bytes))

-- Numbers of 16, 32 and 64 bits, each written at the end of a stream that has room for it below
-- 2 ^ 32 bytes, are written successfully, read back unchanged, and leave the position at the end.
pub read-write_numbers :
    (s i l : ℕ) (buf : List ℕ)
    → length buf + 8 < 2 ^ 32
    → s < 2 ^ 16
    → i < 2 ^ 32
    → l < 2 ^ 64
    → Returned (buf ++ put_short s) s (write_then_read (write_short s) read_short buf)
      × Returned (buf ++ put_int i) i (write_then_read (write_int i) read_int buf)
      × Returned (buf ++ put_long l) l (write_then_read (write_long l) read_long buf)
read-write_numbers s i l buf h hs hi hl = (
  round_trip (write_short s) read_short (put_short s) s buf (write_short-Writes s)
      (read_short-Reads s hs) (omega (arith, length-put_short s)),
  round_trip (write_int i) read_int (put_int i) i buf (write_int-Writes i) (read_int-Reads i hi)
      (omega (arith, length-put_int i)),
  round_trip (write_long l) read_long (put_long l) l buf (write_long-Writes l)
      (read_long-Reads l hl) (omega (arith, length-put_long l)),
)

-- A string shorter than 2 ^ 31 bytes, written at the end of a stream that has room for its length
-- and its bytes, is written successfully, reads back unchanged, and leaves the position at the end.
pub read-write_string :
    (str buf : List ℕ)
    → length str < 2 ^ 31
    → length buf + length str + 4 < 2 ^ 32
    → Returned (buf ++ string_bytes str) str (write_then_read (write_string str) read_string buf)
read-write_string str buf h k =
    round_trip (write_string str) read_string (string_bytes str) str buf
      (write_string-Writes str (omega arith)) (read_string-Reads str h)
      (omega (arith, length-append (put_int (length str)) str, length-put_int (length str)))
