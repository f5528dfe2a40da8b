-- ===== src/Record/Access.antt =====
-- jni/KvDB/Record.cpp: setting a field and getting it back.
use leveldblib.Prelude.{
  ℕ, ◌<◌, ◌≡◌, ◌≢◌, ◌⊎◌, inl, inr, refl, Bool, true, false, Option, none, some, length, set, leb,
  ◌==◌, if◌then◌else◌, arith, Bool-cases, Option-cases, length-set, get_elem?-set_self,
  get_elem?-set_ne,
}
use leveldblib.Record.{
  FieldType, code, Field, Row, field_var_int, put_field, get_field, is_over_flow, set_field_number,
  get_field_as_number, fixed_of,
}
use leveldblib.Record.VarInt.{without_head}

-- The row is as before but for the field at `i`.
pub record Changed (i j : ℕ) (before after : Row) : Type 0 where
  pub count : length after.fields ≡ length before.fields
  pub others : get_field j after ≡ (if j == i then get_field i after else get_field j before)

get_field_lem : (i : ℕ) (r : Row) (f : Field) → get_field i r ≡ some f → i < length r.fields
unfolding get_field is_over_flow
get_field_lem i r f h = elim (Bool-cases (leb (length r.fields) i)) [
  | inl t ↦ absurd (ground (arith, h, t))
  | inr t ↦ ground (arith, t)
]

get_field-put_field :
    (i : ℕ) (r : Row) (f : Field) → i < length r.fields → get_field i (put_field i f r) ≡ some f
unfolding get_field is_over_flow put_field
get_field-put_field i r f h =
    let inside : leb (length (set r.fields i f)) i ≡ false =
      ground (arith, length-set r.fields i f, h) in
    rw inside (get_elem?-set_self r.fields i f h)

put_field-Changed : (i j : ℕ) (r : Row) (f : Field) → Changed i j r (put_field i f r)
unfolding get_field is_over_flow put_field
put_field-Changed i j r f = record {
  count = length-set r.fields i f;
  others = elim (Bool-cases (j == i)) [
    | inl t ↦ let e : j ≡ i = ground (arith, t) in rw (t, e) refl
    | inr other ↦
        let ne : i ≢ j = λ e. absurd (ground (arith, other, e)) in
        rw (other, length-set r.fields i f, get_elem?-set_ne r.fields f ne) refl
  ];
}

-- What a setter and its getter have in common: the field is set, the getter gives `got` and the
-- other fields stay, or the setter fails and leaves the row, and the getter gives `otherwise`.
abbrev pub SetsOr : ℕ → ℕ → ℕ → Option ℕ → Row → Bool × Row → (Row → Option ℕ) → Type 0
SetsOr i j got otherwise r result get =
    ((after : Row) × (result ≡ (true, after)) × (get after ≡ some got) × Changed i j r after)
    ⊎ ((result ≡ (false, r)) × (get r ≡ otherwise))

-- What a getter of `t` reads without the field having that type: a FLDOUBLE field as a `double`.
abbrev pub fixed_at : (ℕ → ℕ → ℕ) → FieldType → Option Field → Option ℕ
fixed_at scaled t none = none
fixed_at scaled t (some f) = fixed_of scaled t f

-- Setting a `short`, a `float` or a `double` field, each by its type: the value is got back and every
-- other field stays, or, at an index past the end or on a field of another type, the setter fails and
-- leaves the row, and so does the getter, except that it reads a FLDOUBLE field as a `double`.
pub set_field_number_lem :
    (scaled : ℕ → ℕ → ℕ) (t : FieldType) (i j v : ℕ) (r : Row)
    → SetsOr i j v
        (fixed_at scaled t (get_field i r))
        r
        (set_field_number t i v r)
        (get_field_as_number scaled t i)
unfolding set_field_number get_field_as_number
set_field_number_lem scaled t i j v r = elim (Option-cases (get_field i r)) [
  | inl e ↦ inr (rw e refl, rw e refl)
  | inr (f, e) ↦ elim (Bool-cases (code f.field_type == code t)) [
    | inl same ↦
        let g : Field = record f { number = v } in
        inl (
          put_field i g r,
          rw (e, same) refl,
          rw (get_field-put_field i r g (get_field_lem i r f e), same) refl,
          put_field-Changed i j r g,
        )
    | inr other ↦ inr (rw (e, other) refl, rw (e, other) refl)
  ]
]

-- What `setFieldInteger` keeps of a value in the field.
abbrev pub kept_in : Option (ℕ → ℕ) → Bool → ℕ → Option Field → ℕ
kept_in head flag v none = v
kept_in head flag v (some f) =
    if code f.field_type == code field_var_int then without_head head flag v else v
