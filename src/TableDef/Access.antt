-- ===== src/TableDef/Access.antt =====
-- jni/KvDB/TableDef.cpp: what the searches of a table's fields give after `add`.
use leveldblib.Prelude.{
  ℕ, zero, suc, ◌≤◌, ◌≡◌, refl, true, false, Option, none, some, List, [], ◌∷◌, ◌++◌, length,
  get_elem?, leb, ◌==◌, if◌then◌else◌, arith, Bool-cases, inl, inr, length-append,
}
use leveldblib.FileSystem.{same_bytes}
use leveldblib.TableDef.{
  FieldObject, TableDef, Found, found, missing, undefined, add, find_field, get_field_by_name,
  or_null, is_over_flow, get_field_at,
}

-- A search that goes on behind the fields that it has been through.
abbrev pub found_or : Found → Found → Found
found_or (found f) rest = found f
found_or missing rest = rest
found_or undefined rest = undefined

find_field-append :
    (name : List ℕ) (fields more : List (Option FieldObject))
    → find_field name (fields ++ more) ≡ found_or (find_field name fields) (find_field name more)
unfolding find_field
find_field-append name [] more = refl
find_field-append name (none ∷ fields) more = refl
find_field-append name (some f ∷ fields) more = elim (Bool-cases (same_bytes f.field_name name)) [
  | inl t ↦ rw t refl
  | inr n ↦ rw n (find_field-append name fields more)
]

element_after :
    (fields : List (Option FieldObject)) (f : FieldObject) (i : ℕ)
    → or_null (get_elem? (fields ++ (some f ∷ [])) i)
      ≡ (if i == length fields then some f else or_null (get_elem? fields i))
element_after [] f zero = refl
element_after [] f (suc i) = ground arith
element_after (g ∷ fields) f zero = ground arith
element_after (g ∷ fields) f (suc i) = elim (Bool-cases (i == length fields)) [
  | inl t ↦
      let same : (suc i == suc (length fields)) ≡ true = ground (arith, t) in
      rw same (ground (arith, element_after fields f i, t))
  | inr n ↦
      let differ : (suc i == suc (length fields)) ≡ false = ground (arith, n) in
      rw differ (ground (arith, element_after fields f i, n))
]

past_the_end :
    (fields : List (Option FieldObject)) (i : ℕ)
    → length fields ≤ i
    → or_null (get_elem? fields i) ≡ none
past_the_end [] i h = refl
past_the_end (g ∷ fields) zero h = absurd (omega (arith, h))
past_the_end (g ∷ fields) (suc i) h = past_the_end fields i (omega (arith, h))

get_field_at_lem : (i : ℕ) (t : TableDef) → get_field_at i t ≡ or_null (get_elem? t.field_set i)
unfolding get_field_at is_over_flow
get_field_at_lem i t = elim (Bool-cases (leb (length t.field_set) i)) [
  | inl b ↦ rw (b, past_the_end t.field_set i (ground (arith, b))) refl
  | inr b ↦ rw b refl
]

-- `add` refuses NULL and leaves the table; it takes a field, which then stands at the index that was
-- the number of fields, while every other index gives what it gave before, and a name gives what it
-- gave before, or else the new field if that is its name.
pub add_lem :
    (t : TableDef) (f : FieldObject) (i : ℕ) (name : List ℕ)
    → (add none t ≡ (false, t))
      × (u : TableDef) × (add (some f) t ≡ (true, u))
      × (length u.field_set ≡ suc (length t.field_set))
      × (get_field_at i u ≡ (if i == length t.field_set then some f else get_field_at i t))
      × (get_field_by_name name u
          ≡ found_or
              (get_field_by_name name t)
              (if same_bytes f.field_name name then found f else missing))
unfolding add get_field_by_name find_field
add_lem t f i name =
    let u : TableDef = record t { field_set = t.field_set ++ (some f ∷ []) } in
    (
      refl,
      u,
      refl,
      omega (arith, length-append t.field_set (some f ∷ [])),
      rw (get_field_at_lem i u, get_field_at_lem i t) (element_after t.field_set f i),
      find_field-append name t.field_set (some f ∷ []),
    )
