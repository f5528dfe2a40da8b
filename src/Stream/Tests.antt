-- ===== src/Stream/Tests.antt =====
-- Runs of the streams of jni/KvDB/SMDStream.cpp, and the round trips at concrete inputs.
use leveldblib.Prelude.{◌≡◌, refl, List, ℕ, [], ◌∷◌, ◌++◌, false, arith}
use leveldblib.Value.{put_short, put_int, put_long, get_int}
use leveldblib.Stream.{
  failed, thrown, new, size, set_position, resize, read_bytes, write_bytes, overwrite, resized,
  write_int, read_int, read_string, write_string, read_short, write_short, read_long, write_long,
}
use leveldblib.Stream.Format.{at}
use leveldblib.Stream.Typed.{string_bytes}
use leveldblib.Stream.RoundTrip.{Returned, write_then_read, read-write_numbers, read-write_string}

abbrev three : List ℕ
three = 1 ∷ 2 ∷ 3 ∷ []

write_inside : (write_bytes (7 ∷ 8 ∷ []) (at three 0)).1 ≡ at (7 ∷ 8 ∷ 3 ∷ []) 2
unfolding write_bytes overwrite resized size
write_inside = refl

write_across : (write_bytes (7 ∷ 8 ∷ []) (at three 2)).1 ≡ at (1 ∷ 2 ∷ 7 ∷ 8 ∷ []) 4
unfolding write_bytes overwrite resized size
write_across = refl

read_short_of_bytes : read_int (at three 0) ≡ (failed, at three 0)
unfolding read_int read_bytes size
read_short_of_bytes = refl

negative_length : (read_string (at (255 ∷ 255 ∷ 255 ∷ 255 ∷ []) 0)).0 ≡ thrown
unfolding read_string read_int read_bytes size get_int
negative_length = refl

resize_runs : resize 5 (new 2) ≡ at (0 ∷ 0 ∷ 0 ∷ 0 ∷ 0 ∷ []) 0
unfolding resize new set_position size resized
resize_runs = refl

set_position_past_end : set_position 4 (at three 1) ≡ (false, at three 1)
unfolding set_position size
set_position_past_end = refl

read-write_numbers_example :
    Returned (three ++ put_short 300) 300 (write_then_read (write_short 300) read_short three)
    × Returned (three ++ put_int 70000) 70000 (write_then_read (write_int 70000) read_int three)
    × Returned (three ++ put_long 9) 9 (write_then_read (write_long 9) read_long three)
read-write_numbers_example =
    read-write_numbers 300 70000 9 three (omega arith) (omega arith) (omega arith) (omega arith)

read-write_string_example :
    Returned
      (three ++ string_bytes (104 ∷ 105 ∷ []))
      (104 ∷ 105 ∷ [])
      (write_then_read (write_string (104 ∷ 105 ∷ [])) read_string three)
read-write_string_example = read-write_string (104 ∷ 105 ∷ []) three (omega arith) (omega arith)
