-- ===== src/Stream.antt =====
-- The byte streams of jni/KvDB: SMDStream.h, SMDStream.cpp and its in-memory implementation
-- SMDMemStream.h, SMDMemStream.cpp. `unsigned int` positions wrap at 2 ^ 32, as in the source.
-- A method returns its result beside the stream that it leaves, on failure too.

pub mod Format
pub mod Typed
pub mod Unchecked
pub mod Chain
pub mod RoundTrip
mod Tests
use leveldblib.Prelude.{
  ℕ, ◌+◌, ◌-◌, ◌%◌, ◌^◌, Bool, true, false, List, ◌++◌, length, take, drop, replicate, ltb,
  if◌then◌else◌,
}
use leveldblib.Value.{
  put_short, get_short, put_int, get_int, put_long, get_long, put_float, get_float, put_double,
  get_double,
}

pub record MemStream : Type 0 where
  pub buf : List ℕ
  pub pos : ℕ

-- `thrown` is the `std::length_error` of a string resized to a negative length.
pub data Outcome {ℓ} (A : Type ℓ) : Type ℓ where
  done : A → Outcome A
  failed thrown : Outcome A

-- A reading method, and a writing one with its `bool`.
abbrev pub Reader : Type 0 → Type 0
Reader A = MemStream → Outcome A × MemStream

abbrev pub Writer : Type 0
Writer = MemStream → Bool × MemStream

-- The cast to `unsigned int`.
abbrev pub u32 : ℕ → ℕ
u32 n = n % 2 ^ 32

-- `std::string::resize` and a constructor call with `'\0'`.
unfoldable pub resized : List ℕ → ℕ → List ℕ
resized buf n = take n buf ++ replicate (n - length buf) 0

-- `memcpy` of `bytes` to `buf + at`.
unfoldable pub overwrite : List ℕ → ℕ → List ℕ → List ℕ
overwrite buf at bytes = take at buf ++ (bytes ++ drop (at + length bytes) buf)

-- `SMDMemStream(size)`
unfoldable pub new : ℕ → MemStream
new size = record { buf = replicate size 0; pos = 0 }

unfoldable pub size : MemStream → ℕ
size s = u32 (length s.buf)

unfoldable pub set_position : ℕ → MemStream → Bool × MemStream
unfolding size
set_position p s = if ltb (size s) p then (false, s) else (true, record s { pos = p })

unfoldable pub resize : ℕ → MemStream → MemStream
unfolding set_position
resize n s = (set_position 0 (record s { buf = resized s.buf n })).1

-- `readBytes`: `seekTo` of a memory stream returns true, so this is `SMDMemStream::read`.
unfoldable pub read_bytes : ℕ → Reader (List ℕ)
unfolding size
read_bytes sz s =
    if ltb (size s) (u32 (s.pos + sz))
    then (failed, s)
    else (done (take sz (drop s.pos s.buf)), record s { pos = u32 (s.pos + sz) })

-- `writeBytes`, which is `SMDMemStream::write` likewise.
unfoldable pub write_bytes : List ℕ → Writer
unfolding size
write_bytes bytes s =
    let end = u32 (s.pos + length bytes) in
    let grown = if ltb (size s) end then resized s.buf end else s.buf in
    (true, record { buf = overwrite grown s.pos bytes; pos = end })

-- `if (!m) return false; k`, on what `m` has left.
abbrev pub resume : {A B : Type 0} → Outcome A × MemStream → (A → Reader B) → Outcome B × MemStream
resume (done a, t) k = k a t
resume (failed, t) k = (failed, t)
resume (thrown, t) k = (thrown, t)

infixl 5 ◌>>=◌ ◌>>◌
abbrev pub ◌>>=◌ : {A B : Type 0} → Reader A → (A → Reader B) → Reader B
◌>>=◌ m k s = resume (m s) k

abbrev pub ◌>>◌ : Writer → Writer → Writer
◌>>◌ m k s = let (wrote, t) = m s in if wrote then k t else (false, t)

abbrev pub pure : {A : Type 0} → A → Reader A
pure a s = (done a, s)

unfoldable pub write_short : ℕ → Writer
write_short v = write_bytes (put_short v)

unfoldable pub read_short : Reader ℕ
read_short = do b ← read_bytes 2; pure (get_short b)

unfoldable pub write_int : ℕ → Writer
write_int v = write_bytes (put_int v)

unfoldable pub read_int : Reader ℕ
read_int = do b ← read_bytes 4; pure (get_int b)

unfoldable pub write_long : ℕ → Writer
write_long v = write_bytes (put_long v)

unfoldable pub read_long : Reader ℕ
read_long = do b ← read_bytes 8; pure (get_long b)

unfoldable pub write_float : ℕ → Writer
write_float v = write_bytes (put_float v)

unfoldable pub read_float : Reader ℕ
read_float = do b ← read_bytes 4; pure (get_float b)

unfoldable pub write_double : ℕ → Writer
write_double v = write_bytes (put_double v)

unfoldable pub read_double : Reader ℕ
read_double = do b ← read_bytes 8; pure (get_double b)

-- The length goes through an `int`.
unfoldable pub write_string : List ℕ → Writer
write_string str = do write_int (u32 (length str)); write_bytes str

unfoldable pub read_string : Reader (List ℕ)
read_string = do sz ← read_int; if ltb sz (2 ^ 31) then read_bytes sz else (λ s. (thrown, s))
