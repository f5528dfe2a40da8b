-- ===== src/TableDef/Parts.antt =====
-- The parts of a field's definition in jni/KvDB/FieldType.cpp: the head, the extern fields and what a
-- class keeps beside them, as they are written and read.
use leveldblib.Prelude.{
  ℕ, ◌^◌, ◌<◌, ◌≡◌, refl, sym, ap, subst, ◌∙◌, false, List, [], ◌∷◌, ◌++◌, append-nil, append_assoc,
  length, ◌==◌, lt→ltb, arith,
}
use leveldblib.Order.{All}
use leveldblib.Order.Sorted.{All-append_inv}
use leveldblib.FileSystem.{same_bytes}
use leveldblib.Value.{put_short, put_int, put_double}
use leveldblib.Stream.{u32, pure}
use leveldblib.PageTable.{insert_attribute}
use leveldblib.PageTable.Format.{FitsAttribute}
use leveldblib.PageTable.Format.{extern_bytes, write_extern_attributes-Puts}
use leveldblib.PageTable.Parse.{read_extern_attributes-Gets, inserted}
use leveldblib.Record.{
  FieldType, field_unknown, field_text, field_var_text, field_binary, field_var_binary, field_float,
  field_double, field_fl_double, field_var_int, field_short, field_int, field_long,
}
use leveldblib.TableDef.{FieldHead, head_other, head_double, head_int, head_string, created_with}
use leveldblib.TableDef.Store.{
  head_code, write_head_value, write_field_head, write_extern_fields, save_as,
}
use leveldblib.TableDef.Load.{
  read_extern_fields, read_arr_as, read_content, read_head_value, read_field_head,
}
use leveldblib.Stream.Chain.{
  Puts, Gets, also-Puts, >>=-Gets, pure-Gets, finish-Gets, write_nothing-Puts, write_short-Puts,
  write_int-Puts, write_double-Puts, write_bytes-Puts, read_short-Gets, read_int-Gets,
  read_double-Gets, read_bytes-Gets,
}

-- A head fits the type of its value, and its type is that of its value.
abbrev pub FitsHead : FieldHead → Type 0
FitsHead (head_other n) =
    (n < 2 ^ 16) × ((n == 1) ≡ false) × ((n == 2) ≡ false) × ((n == 3) ≡ false)
FitsHead (head_double d) = d < 2 ^ 64
FitsHead (head_int n) = n < 2 ^ 32
FitsHead (head_string b) = length b < 2 ^ 31

abbrev pub head_value_bytes : FieldHead → List ℕ
head_value_bytes (head_other n) = []
head_value_bytes (head_double d) = put_double d
head_value_bytes (head_int n) = put_int n
head_value_bytes (head_string b) = put_int (length b) ++ b

abbrev pub head_bytes : FieldHead → List ℕ
head_bytes h = put_short (head_code h) ++ head_value_bytes h

write_head_value-Puts :
    (h : FieldHead) → FitsHead h → Puts (write_head_value h) (head_value_bytes h)
write_head_value-Puts (head_other n) f = write_nothing-Puts
write_head_value-Puts (head_double d) f = write_double-Puts d
write_head_value-Puts (head_int n) f = write_int-Puts n
write_head_value-Puts (head_string b) f =
    let e : u32 (length b) ≡ length b = omega (arith, f) in
    rw e (also-Puts (write_int-Puts (length b)) (write_bytes-Puts b))

pub write_field_head-Puts : (h : FieldHead) → FitsHead h → Puts (write_field_head h) (head_bytes h)
unfolding write_field_head
write_field_head-Puts h f = also-Puts (write_short-Puts (head_code h)) (write_head_value-Puts h f)

read_content-Gets :
    (heap : ℕ → List ℕ) (b : List ℕ) → length b < 2 ^ 31 → Gets (read_content heap (length b)) b b
unfolding read_content
read_content-Gets heap b h = rw (lt→ltb (length b) (2 ^ 31) h) (finish-Gets _ (read_bytes-Gets b))

read_head_value-Gets :
    (heap : ℕ → List ℕ) (unset : ℕ) (h : FieldHead)
    → FitsHead h
    → Gets (read_head_value heap unset (head_code h)) (head_value_bytes h) h
unfolding read_head_value
read_head_value-Gets heap unset (head_other n) (s, a, b, c) = rw (a, b, c) pure-Gets
read_head_value-Gets heap unset (head_double d) f = finish-Gets _ (read_double-Gets d f)
read_head_value-Gets heap unset (head_int n) f = finish-Gets _ (read_int-Gets n f)
read_head_value-Gets heap unset (head_string b) f =
    let e : u32 (length b) ≡ length b = omega (arith, f) in
    >>=-Gets _ (read_int-Gets (length b) (omega (arith, f)))
      (rw e (finish-Gets (head_string) (read_content-Gets heap b f)))

head_code_small : (h : FieldHead) → FitsHead h → head_code h < 2 ^ 16
head_code_small (head_other n) f = f.0
head_code_small (head_double d) f = omega arith
head_code_small (head_int n) f = omega arith
head_code_small (head_string b) f = omega arith

pub read_field_head-Gets :
    (heap : ℕ → List ℕ) (unset : ℕ) (h : FieldHead)
    → FitsHead h
    → Gets (read_field_head heap unset) (head_bytes h) h
unfolding read_field_head
read_field_head-Gets heap unset h f =
    >>=-Gets _ (read_short-Gets (head_code h) (head_code_small h f))
      (read_head_value-Gets heap unset h f)

-- The map of extern fields: no key stands twice, as in a `std::map`.
abbrev pub Differs : List ℕ → List ℕ × List ℕ → Type 0
Differs j (k, v) = same_bytes j k ≡ false

abbrev pub DistinctKeys : List (List ℕ × List ℕ) → Type 0
DistinctKeys [] = Unit {0}
DistinctKeys ((j, w) ∷ entries) = All (Differs j) entries × DistinctKeys entries

insert_attribute_last :
    (k v : List ℕ) (acc rest : List (List ℕ × List ℕ))
    → DistinctKeys (acc ++ ((k, v) ∷ rest))
    → insert_attribute k v acc ≡ acc ++ ((k, v) ∷ [])
unfolding insert_attribute
insert_attribute_last k v [] rest d = refl
insert_attribute_last k v ((j, w) ∷ acc) rest (d, ds) =
    let n = (All-append_inv (Differs j) acc ((k, v) ∷ rest) d).1.0 in
    rw n (ap (λ xs. (j, w) ∷ xs) (insert_attribute_last k v acc rest ds))

inserted-append :
    (entries acc : List (List ℕ × List ℕ))
    → DistinctKeys (acc ++ entries)
    → inserted entries acc ≡ acc ++ entries
inserted-append [] acc d = sym (append-nil acc)
inserted-append ((k, v) ∷ entries) acc d =
    let moved : acc ++ ((k, v) ∷ []) ++ entries ≡ acc ++ ((k, v) ∷ entries) =
      append_assoc acc ((k, v) ∷ []) entries in
    rw (insert_attribute_last k v acc entries d)
      (inserted-append entries (acc ++ ((k, v) ∷ [])) (subst DistinctKeys (sym moved) d) ∙ moved)

pub write_extern_fields-Puts :
    (entries : List (List ℕ × List ℕ))
    → length entries < 2 ^ 31
    → All FitsAttribute entries
    → Puts (write_extern_fields entries) (extern_bytes entries)
unfolding write_extern_fields
write_extern_fields-Puts = write_extern_attributes-Puts

pub read_extern_fields-Gets :
    (entries : List (List ℕ × List ℕ))
    → length entries < 2 ^ 31
    → All FitsAttribute entries
    → DistinctKeys entries
    → Gets (read_extern_fields []) (extern_bytes entries) entries
unfolding read_extern_fields
read_extern_fields-Gets entries h f d =
    subst (Gets (read_extern_fields []) (extern_bytes entries)) (inserted-append entries [] d)
      (read_extern_attributes-Gets entries [] h f)

-- What a class keeps beside `FieldType`'s members: its bytes, and their range.
abbrev pub width : FieldType → ℕ
width field_text = 2 ^ 32
width field_var_text = 2 ^ 32
width field_binary = 2 ^ 32
width field_var_binary = 2 ^ 32
width field_float = 2 ^ 16
width field_double = 2 ^ 16
width field_fl_double = 2 ^ 16
width field_unknown = 1
width field_var_int = 1
width field_short = 1
width field_int = 1
width field_long = 1

abbrev pub arr_bytes : FieldType → ℕ → List ℕ
arr_bytes field_text n = put_int n
arr_bytes field_var_text n = put_int n
arr_bytes field_binary n = put_int n
arr_bytes field_var_binary n = put_int n
arr_bytes field_float n = put_short n
arr_bytes field_double n = put_short n
arr_bytes field_fl_double n = put_short n
arr_bytes field_unknown n = []
arr_bytes field_var_int n = []
arr_bytes field_short n = []
arr_bytes field_int n = []
arr_bytes field_long n = []

pub save_as-Puts : (t : FieldType) (n : ℕ) → Puts (save_as t n) (arr_bytes t n)
unfolding save_as
save_as-Puts field_text n = write_int-Puts n
save_as-Puts field_var_text n = write_int-Puts n
save_as-Puts field_binary n = write_int-Puts n
save_as-Puts field_var_binary n = write_int-Puts n
save_as-Puts field_float n = write_short-Puts n
save_as-Puts field_double n = write_short-Puts n
save_as-Puts field_fl_double n = write_short-Puts n
save_as-Puts field_unknown n = write_nothing-Puts
save_as-Puts field_var_int n = write_nothing-Puts
save_as-Puts field_short n = write_nothing-Puts
save_as-Puts field_int n = write_nothing-Puts
save_as-Puts field_long n = write_nothing-Puts

nothing_kept : (n : ℕ) → n < 1 → Gets (pure 0) [] n
nothing_kept n h = subst (Gets (pure 0) []) (omega (arith, h)) pure-Gets

pub read_arr_as-Gets :
    (t : FieldType) (n : ℕ) → n < width t → Gets (read_arr_as t (created_with t)) (arr_bytes t n) n
unfolding read_arr_as
read_arr_as-Gets field_text n h = finish-Gets _ (read_int-Gets n h)
read_arr_as-Gets field_var_text n h = finish-Gets _ (read_int-Gets n h)
read_arr_as-Gets field_binary n h = finish-Gets _ (read_int-Gets n h)
read_arr_as-Gets field_var_binary n h = finish-Gets _ (read_int-Gets n h)
read_arr_as-Gets field_float n h = finish-Gets _ (read_short-Gets n h)
read_arr_as-Gets field_double n h = finish-Gets _ (read_short-Gets n h)
read_arr_as-Gets field_fl_double n h = finish-Gets _ (read_short-Gets n h)
read_arr_as-Gets field_unknown n h = nothing_kept n h
read_arr_as-Gets field_var_int n h = nothing_kept n h
read_arr_as-Gets field_short n h = nothing_kept n h
read_arr_as-Gets field_int n h = nothing_kept n h
read_arr_as-Gets field_long n h = nothing_kept n h
