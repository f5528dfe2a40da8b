-- ===== src/Value.antt =====
-- The big-endian number codec of jni/KvDB/SMDValue.cpp. A number is its bit pattern, so `int` and
-- `unsigned int` are both a number below 2 ^ 32. The shifted bytes that the source joins by `|`
-- have no bit in common, so they are added here. `buf` is the list of the bytes from the pointer
-- on; a read past its end, which C++ leaves undefined, gives 0.
pub mod Codec
mod Tests
use leveldblib.Prelude.{ℕ, ◌+◌, ◌*◌, ◌/◌, ◌%◌, ◌^◌, List, [], ◌∷◌, get_or}

-- The cast to `unsigned char` of `v >> k`.
abbrev pub byte_at : ℕ → ℕ → ℕ
byte_at v k = v / 2 ^ k % 256

-- `buf[i]`
abbrev pub byte : List ℕ → ℕ → ℕ
byte buf i = get_or buf i 0

unfoldable pub put_short : ℕ → List ℕ
put_short v = byte_at v 8 ∷ byte_at v 0 ∷ []

unfoldable pub get_short : List ℕ → ℕ
get_short buf = byte buf 0 * 2 ^ 8 + byte buf 1

unfoldable pub put_int : ℕ → List ℕ
put_int v = byte_at v 24 ∷ byte_at v 16 ∷ byte_at v 8 ∷ byte_at v 0 ∷ []

unfoldable pub get_int : List ℕ → ℕ
get_int buf = byte buf 0 * 2 ^ 24 + byte buf 1 * 2 ^ 16 + byte buf 2 * 2 ^ 8 + byte buf 3

unfoldable pub put_long : ℕ → List ℕ
put_long v =
    byte_at v 56
    ∷ byte_at v 48
    ∷ byte_at v 40
    ∷ byte_at v 32
    ∷ byte_at v 24
    ∷ byte_at v 16
    ∷ byte_at v 8
    ∷ byte_at v 0
    ∷ []

unfoldable pub get_long : List ℕ → ℕ
get_long buf =
    byte buf 0 * 2 ^ 56
    + byte buf 1 * 2 ^ 48
    + byte buf 2 * 2 ^ 40
    + byte buf 3 * 2 ^ 32
    + byte buf 4 * 2 ^ 24
    + byte buf 5 * 2 ^ 16
    + byte buf 6 * 2 ^ 8
    + byte buf 7

-- A `float` or a `double` is its bit pattern, which `memcpy` takes to the integer and back.
unfoldable pub put_float : ℕ → List ℕ
unfolding put_int
put_float v = put_int v

unfoldable pub get_float : List ℕ → ℕ
unfolding get_int
get_float buf = get_int buf

unfoldable pub put_double : ℕ → List ℕ
unfolding put_long
put_double v = put_long v

unfoldable pub get_double : List ℕ → ℕ
unfolding get_long
get_double buf = get_long buf
