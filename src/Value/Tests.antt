-- ===== src/Value/Tests.antt =====
-- Runs of the codec of SMDValue.cpp.
use leveldblib.Prelude.{◌≡◌, refl, [], ◌∷◌}
use leveldblib.Value.{put_int, get_int}

put_int_runs : put_int 0x1020304 ≡ 1 ∷ 2 ∷ 3 ∷ 4 ∷ []
unfolding put_int
put_int_runs = refl

get_int_runs : get_int (0xff ∷ 0xff ∷ 0xff ∷ 0xfe ∷ 7 ∷ []) ≡ 0xffff_fffe
unfolding get_int
get_int_runs = refl
