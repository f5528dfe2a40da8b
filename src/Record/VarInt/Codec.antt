-- ===== src/Record/VarInt/Codec.antt =====
-- jni/KvDB/Record.cpp: `getVarInt` gives back the integer that `varIntWrite` has written.
use leveldblib.Prelude.{
  ℕ, zero, suc, ◌+◌, ◌-◌, ◌*◌, ◌/◌, ◌%◌, ◌^◌, ◌≤◌, ◌<◌, ◌≡◌, refl, ap, ◌∙◌, true, false, List, ◌∷◌,
  ◌++◌, drop, length, ltb, ◌==◌, arith, Bool-cases, inl, inr,
}
use leveldblib.Value.{byte}
use leveldblib.Record.{Field}
use leveldblib.Record.VarInt.{
  zig, zag, var_int_bytes, var_int_write, var_int_from, get_var_int, with_var_int,
}

pub zig-lt : (v : ℕ) → v < 2 ^ 32 → zig v < 2 ^ 32
unfolding zig
zig-lt v h = ground (arith, h)

zag-zig : (v : ℕ) → v < 2 ^ 32 → zag (zig v) ≡ v
unfolding zig zag
zag-zig v h = ground (arith, h)

-- One byte.
step_last :
    (n shift value z : ℕ) (chunks : List ℕ)
    → byte chunks (4 - n) ≡ z
    → z < 2 ^ 7
    → var_int_from (suc n) shift value chunks ≡ zag ((value + z * 2 ^ shift) % 2 ^ 32)
unfolding var_int_from
step_last n shift value z chunks e h =
    let t : ltb z (2 ^ 7) ≡ true = ground (arith, h) in rw (e, t) refl

step_more :
    (n shift value z : ℕ) (chunks : List ℕ)
    → byte chunks (4 - suc n) ≡ z % 2 ^ 7 + 2 ^ 7
    → var_int_from (suc (suc n)) shift value chunks
      ≡ var_int_from (suc n) (shift + 7) (value + z % 2 ^ 7 * 2 ^ shift) chunks
unfolding var_int_from
step_more n shift value z chunks e =
    let f : ltb (z % 2 ^ 7 + 2 ^ 7) (2 ^ 7) ≡ false = ground arith in
    let again : (suc n == 0) ≡ false = ground arith in
    let low : (z % 2 ^ 7 + 2 ^ 7) % 2 ^ 7 ≡ z % 2 ^ 7 = omega arith in rw (e, f, again, low) refl

-- From each byte on, with the bytes before it.
decode_4 :
    (a b c d v z : ℕ) (rest : List ℕ)
    → z < 2 ^ 4
    → v < 2 ^ 28
    → var_int_from 1 28 v (a ∷ b ∷ c ∷ d ∷ (var_int_bytes 1 z ++ rest)) ≡ zag (v + z * 2 ^ 28)
unfolding var_int_bytes
decode_4 a b c d v z rest h g =
    let t : (z / 2 ^ 7 == 0) ≡ true = ground (arith, h) in
    rw t (
      step_last 0 28 v (z % 2 ^ 7) (a ∷ b ∷ c ∷ d ∷ z % 2 ^ 7 ∷ rest) refl (omega arith)
      ∙ ap zag (omega (arith, h, g)))

decode_3 :
    (a b c v z : ℕ) (rest : List ℕ)
    → z < 2 ^ 11
    → v < 2 ^ 21
    → var_int_from 2 21 v (a ∷ b ∷ c ∷ (var_int_bytes 2 z ++ rest)) ≡ zag (v + z * 2 ^ 21)
unfolding var_int_bytes
decode_3 a b c v z rest h g = elim (Bool-cases (z / 2 ^ 7 == 0)) [
  | inl t ↦ rw t (
      step_last 1 21 v (z % 2 ^ 7) (a ∷ b ∷ c ∷ z % 2 ^ 7 ∷ rest) refl (omega arith)
      ∙ ap zag (ground (arith, h, g, t)))
  | inr f ↦ rw f (
      step_more 0 21 v z (a ∷ b ∷ c ∷ (z % 2 ^ 7 + 2 ^ 7) ∷ (var_int_bytes 1 (z / 2 ^ 7) ++ rest))
        refl
      ∙ decode_4 a b c (z % 2 ^ 7 + 2 ^ 7) (v + z % 2 ^ 7 * 2 ^ 21) (z / 2 ^ 7) rest
          (omega (arith, h)) (omega (arith, g))
      ∙ ap zag (omega (arith, h, g)))
]

decode_2 :
    (a b v z : ℕ) (rest : List ℕ)
    → z < 2 ^ 18
    → v < 2 ^ 14
    → var_int_from 3 14 v (a ∷ b ∷ (var_int_bytes 3 z ++ rest)) ≡ zag (v + z * 2 ^ 14)
unfolding var_int_bytes
decode_2 a b v z rest h g = elim (Bool-cases (z / 2 ^ 7 == 0)) [
  | inl t ↦ rw t (
      step_last 2 14 v (z % 2 ^ 7) (a ∷ b ∷ z % 2 ^ 7 ∷ rest) refl (omega arith)
      ∙ ap zag (ground (arith, h, g, t)))
  | inr f ↦ rw f (
      step_more 1 14 v z (a ∷ b ∷ (z % 2 ^ 7 + 2 ^ 7) ∷ (var_int_bytes 2 (z / 2 ^ 7) ++ rest)) refl
      ∙ decode_3 a b (z % 2 ^ 7 + 2 ^ 7) (v + z % 2 ^ 7 * 2 ^ 14) (z / 2 ^ 7) rest
          (omega (arith, h)) (omega (arith, g))
      ∙ ap zag (omega (arith, h, g)))
]

decode_1 :
    (a v z : ℕ) (rest : List ℕ)
    → z < 2 ^ 25
    → v < 2 ^ 7
    → var_int_from 4 7 v (a ∷ (var_int_bytes 4 z ++ rest)) ≡ zag (v + z * 2 ^ 7)
unfolding var_int_bytes
decode_1 a v z rest h g = elim (Bool-cases (z / 2 ^ 7 == 0)) [
  | inl t ↦ rw t (
      step_last 3 7 v (z % 2 ^ 7) (a ∷ z % 2 ^ 7 ∷ rest) refl (omega arith)
      ∙ ap zag (ground (arith, h, g, t)))
  | inr f ↦ rw f (
      step_more 2 7 v z (a ∷ (z % 2 ^ 7 + 2 ^ 7) ∷ (var_int_bytes 3 (z / 2 ^ 7) ++ rest)) refl
      ∙ decode_2 a (z % 2 ^ 7 + 2 ^ 7) (v + z % 2 ^ 7 * 2 ^ 7) (z / 2 ^ 7) rest (omega (arith, h))
          (omega (arith, g))
      ∙ ap zag (omega (arith, h, g)))
]

decode_0 :
    (v z : ℕ) (rest : List ℕ)
    → z < 2 ^ 32
    → v < 2 ^ 0
    → var_int_from 5 0 v (var_int_bytes 5 z ++ rest) ≡ zag (v + z * 2 ^ 0)
unfolding var_int_bytes
decode_0 v z rest h g = elim (Bool-cases (z / 2 ^ 7 == 0)) [
  | inl t ↦ rw t (
      step_last 4 0 v (z % 2 ^ 7) (z % 2 ^ 7 ∷ rest) refl (omega arith)
      ∙ ap zag (ground (arith, h, g, t)))
  | inr f ↦ rw f (
      step_more 3 0 v z ((z % 2 ^ 7 + 2 ^ 7) ∷ (var_int_bytes 4 (z / 2 ^ 7) ++ rest)) refl
      ∙ decode_1 (z % 2 ^ 7 + 2 ^ 7) (v + z % 2 ^ 7 * 2 ^ 0) (z / 2 ^ 7) rest (omega (arith, h))
          (omega (arith, g))
      ∙ ap zag (omega (arith, h, g)))
]

pub var_int_bytes_some : (n v : ℕ) → (length (var_int_bytes (suc n) v) == 0) ≡ false
unfolding var_int_bytes
var_int_bytes_some n v = ground arith

length-var_int_bytes : (n v : ℕ) → length (var_int_bytes n v) ≤ n
unfolding var_int_bytes
length-var_int_bytes zero v = omega arith
length-var_int_bytes (suc n) v = ground (arith, length-var_int_bytes n (v / 2 ^ 7))

pub get_var_int_of_bytes :
    (v : ℕ) (f : Field) (rest : List ℕ)
    → v < 2 ^ 32
    → f.var_data ≡ var_int_bytes 5 (zig v) ++ rest
    → (f.n_count == 0) ≡ false
    → get_var_int f ≡ v
unfolding get_var_int
get_var_int_of_bytes v f rest h e some_count =
    rw (some_count, e)
      (decode_0 0 (zig v) rest (zig-lt v h) (omega arith) ∙ ap zag (omega arith) ∙ zag-zig v h)

-- An `int` written to a field of variable length, whatever the field held, is got back, negative ones
-- included; it takes one up to five bytes.
pub get_var_int-with_var_int :
    (v : ℕ) (f : Field)
    → v < 2 ^ 32
    → (get_var_int (with_var_int v f) ≡ v)
      × (0 < (with_var_int v f).n_count)
      × ((with_var_int v f).n_count ≤ 5)
unfolding get_var_int var_int_write
get_var_int-with_var_int v f h =
    let z = zig v in
    let some_count : (length (var_int_bytes 5 z) == 0) ≡ false = var_int_bytes_some 4 z in
    (
      rw some_count (
          decode_0 0 z (drop (length (var_int_bytes 5 z)) f.var_data) (zig-lt v h) (omega arith)
          ∙ ap zag (omega arith)
          ∙ zag-zig v h),
      ground (arith, some_count),
      length-var_int_bytes 5 z,
    )
