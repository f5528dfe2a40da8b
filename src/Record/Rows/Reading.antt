-- ===== src/Record/Rows/Reading.antt =====
-- jni/KvDB/Record.cpp: `read` finds in a field's bytes what was written.
use leveldblib.Prelude.{
  ℕ, zero, suc, ◌+◌, ◌*◌, ◌/◌, ◌%◌, ◌^◌, ◌≤◌, ◌<◌, ◌≡◌, refl, sym, ap, ◌∙◌, true, false, List, [],
  ◌∷◌, ◌++◌, append_assoc, length, drop, set, ltb, ◌==◌, arith, length-append, Bool-cases, inl, inr,
}
use leveldblib.Stream.Chain.{Gets, >>=-Gets, pure-Gets, read_bytes-Gets}
use leveldblib.Record.{Field}
use leveldblib.Record.VarInt.{var_int_bytes}
use leveldblib.Record.Rows.{read_var_int}

-- Numbers of `n` groups of seven bits.
abbrev pub reach : ℕ → ℕ
reach zero = 1
reach (suc n) = reach n * 2 ^ 7

set-append :
    (before rest : List ℕ) (x c : ℕ)
    → set (before ++ (x ∷ rest)) (length before) c ≡ before ++ (c ∷ rest)
set-append [] rest x c = refl
set-append (b ∷ before) rest x c = ap (λ xs. b ∷ xs) (set-append before rest x c)

-- The loop of `readVarInt`, with what it has put into the field before.
pub read_var_int-Gets :
    (n z : ℕ) (before rest : List ℕ) (g : Field)
    → z < reach n
    → length rest ≡ n
    → 0 < n
    → g.var_data ≡ before ++ rest
    → let bytes = var_int_bytes n z in
      Gets (read_var_int n (length before) g) bytes (record g {
        var_data = before ++ (bytes ++ drop (length bytes) rest);
        n_count = length before + length bytes;
      })
unfolding read_var_int var_int_bytes
read_var_int-Gets zero z before rest g h e pos d = absurd (omega (arith, pos))
read_var_int-Gets (suc n) z before [] g h e pos d = absurd (omega (arith, e))
read_var_int-Gets (suc n) z before (x ∷ rest) g h e pos d = elim (Bool-cases (z / 2 ^ 7 == 0)) [
  | inl t ↦
      let c = z % 2 ^ 7 in
      let low : ltb c (2 ^ 7) ≡ true = ground arith in
      let one_more : suc (length before) ≡ length before + 1 = omega arith in
      let moved = ap (λ (b : List ℕ). set b (length before) c) d ∙ set-append before rest x c in
      rw (t, ← moved, ← one_more) (>>=-Gets _ (read_bytes-Gets (c ∷ [])) (rw low pure-Gets))
  | inr f ↦
      let c = z % 2 ^ 7 + 2 ^ 7 in
      let high : ltb c (2 ^ 7) ≡ false = ground arith in
      let bytes = var_int_bytes n (z / 2 ^ 7) in
      let b1 = before ++ (c ∷ []) in
      let g1 : Field = record g { var_data = set g.var_data (length before) c } in
      let d1 : g1.var_data ≡ b1 ++ rest =
        ap (λ (b : List ℕ). set b (length before) c) d
        ∙ set-append before rest x c
        ∙ sym (append_assoc before (c ∷ []) rest) in
      let one_more : length b1 ≡ suc (length before) =
        omega (arith, length-append before (c ∷ [])) in
      let bigger : 0 < n = several n (ground (arith, f)) h in
      let more =
        read_var_int-Gets n (z / 2 ^ 7) b1 rest g1 (omega (arith, h)) (omega (arith, e)) bigger
          d1 in
      let count : length before + suc (length bytes) ≡ suc (length before) + length bytes =
        omega arith in
      let moved = append_assoc before (c ∷ []) (bytes ++ drop (length bytes) rest) in
      rw (f, count, ← moved) (>>=-Gets _ (read_bytes-Gets (c ∷ [])) (rw high (rw one_more at more)))
]
  where
    several : (n : ℕ) → 2 ^ 7 ≤ z → z < reach (suc n) → 0 < n
    several zero big small = absurd (omega (arith, big, small))
    several (suc m) big small = omega arith
