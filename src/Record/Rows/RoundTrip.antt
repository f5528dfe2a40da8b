-- ===== src/Record/Rows/RoundTrip.antt =====
-- jni/KvDB/Record.cpp: a record that is written to a stream is the one that is read.
use leveldblib.Prelude.{
  ℕ, suc, ◌+◌, ◌%◌, ◌^◌, ◌<◌, ◌≡◌, refl, ap, ap₂, subst, sym, ◌∙◌, true, false, some, List, [], ◌∷◌,
  append-nil, length, ◌==◌, arith,
}
use leveldblib.Stream.{MemStream, Reader, done, size, new}
use leveldblib.Stream.Format.{at}
use leveldblib.Stream.Chain.{Gets, Gets-Reads, >>=-Gets, finish-Gets, pure-Gets}
use leveldblib.Record.{FieldType, Field, Row}
use leveldblib.Record.Rows.{read_case, write, write_fields, read, read_fields, marked}
use leveldblib.Record.Rows.Contents.{
  field_bytes, Content, content, fields_bytes, AllFilled, write_fields-Appends,
}
use leveldblib.Record.Rows.Cases.{gives, read_case-Gives}

-- What the fields mean.
abbrev pub contents : List Field → List Content
contents [] = []
contents (f ∷ fields) = content f f.field_type ∷ contents fields

-- A record that a reader gives for the bytes of the fields, with what they mean.
data GivesAll (m : Reader Row) (bytes : List ℕ) (fields : List Field) : Type 0 where
  gives_all :
      (r : Row) → Gets m bytes r → contents r.fields ≡ contents fields → GivesAll m bytes fields

read_fields-Gives :
    (heap : ℕ → List ℕ) (i flag : ℕ) (fields others : List Field)
    → AllFilled fields others
    → GivesAll (read_fields heap i flag others) (fields_bytes fields) fields
unfolding read_fields
read_fields-Gives heap i flag [] [] set =
    gives_all (record { flag = flag; fields = [] }) pure-Gets refl
read_fields-Gives heap i flag [] (g ∷ others) set = elim set [ ]
read_fields-Gives heap i flag (f ∷ fields) [] set = elim set [ ]
read_fields-Gives heap i flag (f ∷ fields) (g ∷ others) (same, set, five, rest) =
    elim (read_case-Gives heap f g f.field_type set five) [
      | gives {h} reads kept means ↦
          let flag1 = marked g.field_type i flag in
          let reads1 =
            subst (λ (t : FieldType). Gets (read_case heap g t) (field_bytes f f.field_type) h)
              (sym same) reads in
          elim (read_fields-Gives heap (suc i) flag1 fields others rest) [
            | gives_all r more meaning ↦
                gives_all (record r { fields = h ∷ r.fields })
                  (>>=-Gets _ reads1 (finish-Gets _ more))
                  (ap₂ (λ (c : Content) (cs : List Content). c ∷ cs)
                    (ap (λ (t : FieldType). content h t) (kept ∙ same) ∙ means) meaning)
          ]
    ]

-- A record whose fields are set (numbers fit their types, texts and binaries have the bytes that their
-- length says and fit the field, integers of variable length were written by `varIntWrite`), and that
-- takes one byte up to fewer than 2 ^ 32: `write` to an empty stream succeeds. `read` of that stream
-- from its start, into a record with fields of the same types and sizes, succeeds, and every field
-- means what it meant in the record that was written.
pub read-write_row :
    (heap : ℕ → List ℕ) (r other : Row)
    → AllFilled r.fields other.fields
    → 0 < length (fields_bytes r.fields)
    → length (fields_bytes r.fields) < 2 ^ 32
    → (s : MemStream) × (write r (new 0) ≡ some (true, s))
      × (after : Row) × (t : MemStream) × (read heap other (record s { pos = 0 })
          ≡ (done (true, after), t))
      × (contents after.fields ≡ contents r.fields)
unfolding write read new size
read-write_row heap r other set some_bytes small =
    let bytes = fields_bytes r.fields in
    let written : write_fields r.fields (at [] 0) ≡ some (at bytes (0 + length bytes)) =
      write_fields-Appends r.fields other.fields set [] (omega (arith, small)) in
    let filled : (length bytes % 2 ^ 32 == 0) ≡ false = ground (arith, some_bytes, small) in
    elim (read_fields-Gives heap 0 other.flag r.fields other.fields set) [
      | gives_all after reads meaning ↦
          let run = rw append-nil at (Gets-Reads reads [] [] (omega (arith, small))) in
          (
            at bytes (0 + length bytes),
            rw written refl,
            after,
            at bytes (0 + length bytes),
            rw (run, filled) refl,
            meaning,
          )
    ]
