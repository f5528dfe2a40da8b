-- ===== src/Page/Inv.antt =====
-- A valid page of jni/KvDB/SMDPage.h, and the operations that keep it valid and stay inside its
-- block.
use leveldblib.Prelude.{
  ℕ, ◌+◌, ◌-◌, ◌^◌, ◌≤◌, ◌<◌, ◌≡◌, refl, ap, ◌∙◌, true, some, List, [], ◌∷◌, ◌++◌, ◌==◌,
  if◌then◌else◌, length, take, min, arith, length-take, length-replicate, replicate, Bool-cases,
  Option-cases, some-injective, sym, ap, inl, inr,
}
use leveldblib.Memory.{store, replaced, store_fits, length-replaced}
use leveldblib.Page.{
  Page, storage_flag, flag_length, head_size, head_offset, no_page, sub16, check_first_page,
  get_space_offset, write,
}

-- Where the content of a page begins in its block.
abbrev pub content_start : Page → ℕ
content_start p = head_offset p + head_size

pub record IsValid (p : Page) : Type 0 where
  pub block : length p.block ≡ p.size
  pub room : flag_length + head_size ≤ p.size
  pub size : p.size < 2 ^ 16
  pub space : content_start p + p.space ≤ p.size

pub check_first_page_lem :
    (p : Page)
    → length p.block ≡ p.size
    → flag_length + head_size ≤ p.size
    → p.size < 2 ^ 16
    → p.space ≡ p.size - head_size
    → (q : Page) × (check_first_page p ≡ some q)
      × IsValid q
      × (q.space ≡ p.size - content_start p)
      × (q.size ≡ p.size)
      × (q.pageno ≡ p.pageno)
unfolding check_first_page
check_first_page_lem p e r s sp = elim (Bool-cases (p.pageno == 0)) [
  | inl t ↦
      let bytes = storage_flag ++ (0 ∷ []) in
      let q : Page = record p {
        block = replaced 0 bytes p.block;
        space = sub16 (sub16 p.size head_size) flag_length;
      } in
      let sizes : q.space ≡ p.size - content_start p = ground (arith, r, s, t) in
      (
        q,
        rw (t, store_fits 0 bytes p.block (omega arith)) refl,
        record {
          block = length-replaced 0 bytes p.block (omega arith) ∙ e;
          room = r;
          size = s;
          space = ground (arith, sizes, r, t);
        },
        sizes,
        refl,
        refl,
      )
  | inr f ↦ (
    p,
    rw f refl,
    record { block = e; room = r; size = s; space = ground (arith, sp, r, f) },
    ground (arith, sp, f),
    refl,
    refl,
  )
]

-- The page that `reset` and the constructor build, with a block of `len` bytes.
abbrev pub blank : ℕ → ℕ → ℕ → Page
blank len size pageno = record {
  modify = true;
  size = size;
  pageno = pageno;
  block = replicate len 0;
  space = sub16 size head_size;
  reserve1 = 0;
  reserve2 = 0;
  next = no_page;
}

pub blank_lem :
    (len size pageno : ℕ)
    → len ≡ size
    → flag_length + head_size ≤ size
    → size < 2 ^ 16
    → let p = blank len size pageno in
      (q : Page) × (check_first_page p ≡ some q)
      × IsValid q
      × (q.space ≡ size - content_start p)
      × (q.size ≡ size)
      × (q.pageno ≡ pageno)
blank_lem len size pageno e r s =
    check_first_page_lem (blank len size pageno) (length-replicate len 0 ∙ e) r s
      (omega (arith, r, s))

-- Writing the bytes of `buffer` that fit: it never leaves the block.
pub write_lem :
    (buffer : List ℕ) (p : Page)
    → IsValid p
    → let wr = min p.space (length buffer) in
      write buffer p
      ≡ some (
        wr,
        if p.space == 0 then p else record p {
          block = replaced (p.size - p.space) (take wr buffer) p.block;
          space = p.space - wr;
          modify = true;
        },
      )
unfolding write get_space_offset
write_lem buffer p v =
    let wr = min p.space (length buffer) in
    let at : sub16 p.size p.space ≡ p.size - p.space = omega (arith, v.space, v.size) in
    elim (Bool-cases (p.space == 0)) [
      | inl t ↦ rw t (ap (λ (n : ℕ). some (n, p)) (ground (arith, t)))
      | inr f ↦
          rw
            (
              f,
              at,
              store_fits (p.size - p.space) (take wr buffer) p.block
                  (omega (arith, length-take wr buffer, v.block, v.space)),
            )
            refl
    ]

-- `checkFirstPage` leaves the mark of a change, the next page and `reserve1`.
pub check_first_page-keeps :
    (p q : Page)
    → check_first_page p ≡ some q
    → (q.modify ≡ p.modify) × (q.next ≡ p.next) × (q.reserve1 ≡ p.reserve1)
unfolding check_first_page
check_first_page-keeps p q e = elim (Bool-cases (p.pageno == 0)) [
  | inl t ↦ elim (Option-cases (store 0 (storage_flag ++ (0 ∷ [])) p.block)) [
    | inl n ↦ absurd (ground (arith, e, t, n))
    | inr (b, s) ↦
        let r : Page = record p { block = b; space = sub16 (sub16 p.size head_size) flag_length } in
        let whole : check_first_page p ≡ some r = rw (t, s) refl in
        let same : r ≡ q = some-injective r q (sym whole ∙ e) in
        (
          ap (λ (x : Page). x.modify) (sym same),
          ap (λ (x : Page). x.next) (sym same),
          ap (λ (x : Page). x.reserve1) (sym same),
        )
  ]
  | inr f ↦
      let whole : check_first_page p ≡ some p = rw f refl in
      let same : p ≡ q = some-injective p q (sym whole ∙ e) in
      (
        ap (λ (x : Page). x.modify) (sym same),
        ap (λ (x : Page). x.next) (sym same),
        ap (λ (x : Page). x.reserve1) (sym same),
      )
]
