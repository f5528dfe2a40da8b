-- ===== src/PageTable/RoundTrip.antt =====
-- jni/KvDB/SMDPageManagement.cpp: the page table that `saveInnerInfoToFile` writes is the one that
-- `getInnerInfoFromFile` reads.
use leveldblib.Prelude.{
  ℕ, ◌+◌, ◌^◌, ◌<◌, ◌≤◌, ◌≡◌, refl, ap, ap₂, subst, ◌∙◌, true, false, Option, none, some, List, [],
  ◌∷◌, ◌++◌, append-nil, length, if◌then◌else◌, arith, Bool-cases, inl, inr,
}
use leveldblib.FileSystem.Names.{same_bytes_refl, same_bytes-eq}
use leveldblib.Stream.{
  MemStream, done, new, resize, resized, overwrite, size, set_position, read_bytes, write_bytes,
}
use leveldblib.Stream.Format.{at, read_bytes-Reads}
use leveldblib.Stream.Chain.{Puts-Writes, Gets-Reads}
use leveldblib.PageTable.{PageKey, PageNo, Inner, same_key, find_info, assign_info, save_inner}
use leveldblib.PageTable.Load.{load_inner}
use leveldblib.PageTable.Format.{FitsInner, inner_bytes, write_inner-Puts}
use leveldblib.PageTable.Parse.{assigned, merged, read_inner-Gets}

-- The first four bytes: a 1, and three that are left free.
abbrev pub mark : List ℕ
mark = 1 ∷ 0 ∷ 0 ∷ 0 ∷ []

pub save_inner_lem :
    (m : Inner)
    → FitsInner m
    → length (inner_bytes m) + 4 < 2 ^ 32
    → save_inner m ≡ (true, at (mark ++ inner_bytes m) (4 + length (inner_bytes m)))
unfolding save_inner write_bytes resize new resized overwrite size set_position
save_inner_lem m f h = Puts-Writes (write_inner-Puts m f) mark (omega (arith, h))

set_position_inside :
    (buf : List ℕ)
    → 4 ≤ length buf
    → length buf < 2 ^ 32
    → set_position 4 (at buf 1) ≡ (true, at buf 4)
unfolding set_position size
set_position_inside buf p h = ground (arith, p, h)

load_inner_lem :
    (m before : Inner)
    → FitsInner m
    → length (inner_bytes m) + 4 < 2 ^ 32
    → load_inner before (at (mark ++ inner_bytes m) 0)
      ≡ (done (true, merged m before), at (mark ++ inner_bytes m) (4 + length (inner_bytes m)))
unfolding load_inner
load_inner_lem m before f h =
    let bytes = inner_bytes m in
    let buf = mark ++ bytes in
    let first : read_bytes 1 (at buf 0) ≡ (done (1 ∷ []), at buf 1) =
      read_bytes-Reads (1 ∷ []) [] (0 ∷ 0 ∷ 0 ∷ bytes) (omega (arith, h)) in
    let moved : set_position 4 (at buf 1) ≡ (true, at buf 4) =
      set_position_inside buf (omega arith) (omega (arith, h)) in
    let whole : bytes ++ [] ≡ bytes = append-nil bytes in
    let body = Gets-Reads (read_inner-Gets m before f) mark [] (omega (arith, h)) in
    rw (first, moved) (rw whole at body)

same_key_refl : (k : PageKey) → same_key k k ≡ true
unfolding same_key
same_key_refl k = ground (arith, same_bytes_refl k.table_name)

same_key-eq : (a b : PageKey) → same_key a b ≡ true → a ≡ b
unfolding same_key
same_key-eq a b h =
    ap₂ (λ (t : ℕ) (n : List ℕ). record { seg_type = t; table_name = n }) (ground (arith, h))
      (same_bytes-eq a.table_name b.table_name (ground (arith, h)))

find_info-assign_info :
    (j k : PageKey) (v : PageNo) (entries : List (PageKey × PageNo))
    → find_info j (assign_info k v entries) ≡ (if same_key k j then some v else find_info j entries)
unfolding find_info assign_info
find_info-assign_info j k v [] = refl
find_info-assign_info j k v ((i, w) ∷ entries) = elim (Bool-cases (same_key i k)) [
  | inl t ↦
      let e : same_key i j ≡ same_key k j =
        ap (λ (x : PageKey). same_key x j) (same_key-eq i k t) in
      elim (Bool-cases (same_key k j)) [ inl u ↦ rw (t, e, u) refl | inr n ↦ rw (t, e, n) refl ]
  | inr f ↦ elim (Bool-cases (same_key k j)) [
    | inl u ↦
        let n : same_key i j ≡ false =
          subst (λ (x : PageKey). same_key i x ≡ false) (same_key-eq k j u) f in
        rw (f, n, find_info-assign_info j k v entries, u) refl
    | inr n ↦ rw (f, find_info-assign_info j k v entries, n) refl
  ]
]

-- No key stands twice, as in a `std::map`.
abbrev pub Distinct : List (PageKey × PageNo) → Type 0
Distinct [] = Unit {0}
Distinct ((k, v) ∷ entries) = (find_info k entries ≡ none) × Distinct entries

abbrev pub or_before : Option PageNo → Option PageNo → Option PageNo
or_before none b = b
or_before (some a) b = some a

find_info-assigned :
    (j : PageKey) (entries acc : List (PageKey × PageNo))
    → Distinct entries
    → find_info j (assigned entries acc) ≡ or_before (find_info j entries) (find_info j acc)
unfolding find_info
find_info-assigned j [] acc d = refl
find_info-assigned j ((k, v) ∷ entries) acc (d, ds) =
    find_info-assigned j entries (assign_info k v acc) ds
    ∙ rw (find_info-assign_info j k v acc) (elim (Bool-cases (same_key k j)) [
      | inl t ↦
          let n : find_info j entries ≡ none =
            subst (λ (x : PageKey). find_info x entries ≡ none) (same_key-eq k j t) d in
          rw (t, n) refl
      | inr f ↦ rw f refl
    ])

-- A page table whose numbers, names and counts fit their fields and whose keys are distinct, and
-- that takes fewer than 2 ^ 32 bytes, is saved; loading the saved bytes into a table succeeds, gives
-- the saved page size and page count, and a key then has the saved entry, or the one that it had
-- before if none was saved.
pub load_inner-save_inner :
    (m before : Inner) (k : PageKey)
    → FitsInner m
    → Distinct m.page_info
    → length (inner_bytes m) + 4 < 2 ^ 32
    → (s : MemStream) × (save_inner m ≡ (true, s))
      × (m' : Inner) × (t : MemStream) × (load_inner before (record s { pos = 0 })
          ≡ (done (true, m'), t))
      × (m'.page_size ≡ m.page_size)
      × (m'.page_cnt ≡ m.page_cnt)
      × (find_info k m'.page_info
          ≡ or_before (find_info k m.page_info) (find_info k before.page_info))
load_inner-save_inner m before k f d h =
    let n = 4 + length (inner_bytes m) in
    (
      at (mark ++ inner_bytes m) n,
      save_inner_lem m f h,
      merged m before,
      at (mark ++ inner_bytes m) n,
      load_inner_lem m before f h,
      refl,
      refl,
      find_info-assigned k m.page_info before.page_info d,
    )
