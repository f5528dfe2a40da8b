-- ===== src/Stream/Unchecked.antt =====
-- Calls of the methods of jni/KvDB/SMDStream.cpp whose result is looked at in another way than by
-- passing a failure on, or not at all.
use leveldblib.Prelude.{ℕ, ◌^◌, true, Option, none, some, List, [], replicate, ltb, if◌then◌else◌}
use leveldblib.Stream.{
  MemStream, Outcome, done, failed, thrown, Reader, Writer, ◌>>=◌, pure, read_bytes, read_int,
}

-- No write.
abbrev pub write_nothing : Writer
write_nothing s = (true, s)

-- A write whose `bool` is dropped, and then another.
infixr 5 ◌also◌
abbrev pub ◌also◌ : Writer → Writer → Writer
◌also◌ v w s = w (v s).1

-- A method whose result is looked at, or not: `none` is its `false`.
abbrev pub as_option : {A : Type 0} → Outcome A × MemStream → Outcome (Option A) × MemStream
as_option (done a, s) = (done (some a), s)
as_option (failed, s) = (done none, s)
as_option (thrown, s) = (thrown, s)

abbrev pub attempt : {A : Type 0} → Reader A → Reader (Option A)
attempt m s = as_option (m s)

-- `if (!m) return b; k`
abbrev pub or_return : {A B : Type 0} → B → (A → Reader B) → Option A → Reader B
or_return b k none = pure b
or_return b k (some a) = k a

abbrev pub check : {A B : Type 0} → Reader A → B → (A → Reader B) → Reader B
check m b k = attempt m >>= or_return b k

-- An `int` that starts as 0, with no look at the result.
abbrev pub int_or_zero : Option ℕ → ℕ
int_or_zero none = 0
int_or_zero (some n) = n

-- `readString` with no look at its result: a string whose bytes are missing is all 0.
unfoldable pub string_bytes_or : ℕ → Option (List ℕ) → List ℕ
string_bytes_or sz none = replicate sz 0
string_bytes_or sz (some str) = str

unfoldable pub string_after : Option ℕ → Reader (List ℕ)
unfolding string_bytes_or
string_after none = pure []
string_after (some sz) =
    if ltb sz (2 ^ 31)
    then (attempt (read_bytes sz) >>= λ o. pure (string_bytes_or sz o))
    else (λ s. (thrown, s))

unfoldable pub read_string_unchecked : Reader (List ℕ)
unfolding string_after
read_string_unchecked = attempt read_int >>= string_after

-- The number of rounds of a loop up to an `int`.
abbrev pub rounds : ℕ → ℕ
rounds n = if ltb n (2 ^ 31) then n else 0
