-- ===== src/Value/Codec.antt =====
-- The codec of SMDValue.cpp: what is put is what is got, whatever bytes follow.
use leveldblib.Prelude.{ℕ, ◌^◌, ◌<◌, ◌≡◌, refl, List, ◌++◌, length, arith}
use leveldblib.Value.{put_short, get_short, put_int, get_int, put_long, get_long}

pub length-put_short : (v : ℕ) → length (put_short v) ≡ 2
unfolding put_short
length-put_short v = refl

pub length-put_int : (v : ℕ) → length (put_int v) ≡ 4
unfolding put_int
length-put_int v = refl

pub length-put_long : (v : ℕ) → length (put_long v) ≡ 8
unfolding put_long
length-put_long v = refl

pub get_short-put_short : (v : ℕ) (rest : List ℕ) → v < 2 ^ 16 → get_short (put_short v ++ rest) ≡ v
unfolding put_short get_short
get_short-put_short v rest h = omega arith

pub get_int-put_int : (v : ℕ) (rest : List ℕ) → v < 2 ^ 32 → get_int (put_int v ++ rest) ≡ v
unfolding put_int get_int
get_int-put_int v rest h = omega arith

pub get_long-put_long : (v : ℕ) (rest : List ℕ) → v < 2 ^ 64 → get_long (put_long v ++ rest) ≡ v
unfolding put_long get_long
get_long-put_long v rest h = omega arith
