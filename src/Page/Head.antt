-- ===== src/Page/Head.antt =====
-- The header of the pages of jni/KvDB/SMDPage.h in their block: `push` and `pop`.
use leveldblib.Prelude.{
  ℕ, ◌+◌, ◌^◌, ◌≤◌, ◌<◌, ◌≡◌, refl, sym, ap, subst, ◌∙◌, some, List, [], ◌++◌, ◌==◌, if◌then◌else◌,
  length, take, drop, arith, append-nil, Bool-cases, inl, inr,
}
use leveldblib.Value.{put_int, put_short, get_int, get_short}
use leveldblib.Value.Codec.{length-put_short, get_int-put_int, get_short-put_short}
use leveldblib.Memory.{
  load, store, replaced, store_fits, length-replaced, replaced-replaced, load-replaced,
  load-replaced_before,
}
use leveldblib.Page.{from_short, Page, storage_flag, head_offset, push, pop}
use leveldblib.Page.Inv.{IsValid}

-- The fields that `push` writes at the front, without a gap.
abbrev pub header : Page → List ℕ
header p = (put_int p.next ++ put_short p.space) ++ put_short p.reserve1

abbrev pub flagged : Page → List ℕ
flagged p = if p.pageno == 0 then replaced 0 storage_flag p.block else p.block

abbrev pub with_header : Page → List ℕ
with_header p = replaced (head_offset p) (header p) (flagged p)

abbrev pub pushed : Page → List ℕ
pushed p = replaced (head_offset p + 10) (put_short p.reserve1) (with_header p)

pub length-header : (p : Page) → length (header p) ≡ 8
unfolding put_int put_short
length-header p = refl

pub length-flagged : (p : Page) → IsValid p → length (flagged p) ≡ p.size
length-flagged p v = elim (Bool-cases (p.pageno == 0)) [
  | inl t ↦ rw t (length-replaced 0 storage_flag p.block (omega (arith, v.block, v.room)) ∙ v.block)
  | inr f ↦ rw f v.block
]

pub head_offset-le : (p : Page) → head_offset p ≤ 16
head_offset-le p = ground arith

pub length-with_header : (p : Page) → IsValid p → length (with_header p) ≡ p.size
length-with_header p v =
    length-replaced (head_offset p) (header p) (flagged p)
      (omega (arith, length-header p, length-flagged p v, head_offset-le p, v.room))
    ∙ length-flagged p v

pub length-pushed : (p : Page) → IsValid p → length (pushed p) ≡ p.size
length-pushed p v =
    length-replaced (head_offset p + 10) (put_short p.reserve1) (with_header p)
      (omega (arith, length-put_short p.reserve1, length-with_header p v, head_offset-le p, v.room))
    ∙ length-with_header p v

store_flag :
    (p : Page)
    → IsValid p
    → (if p.pageno == 0 then store 0 storage_flag p.block else some p.block) ≡ some (flagged p)
store_flag p v = elim (Bool-cases (p.pageno == 0)) [
  | inl t ↦ rw t (store_fits 0 storage_flag p.block (omega (arith, v.block, v.room)))
  | inr f ↦ rw f refl
]

-- The next field of the header behind those that are written.
store_next :
    (p : Page) (at k : ℕ) (xs ys : List ℕ)
    → at + k + length ys ≤ length (flagged p)
    → length xs ≡ k
    → store (at + k) ys (replaced at xs (flagged p)) ≡ some (replaced at (xs ++ ys) (flagged p))
store_next p at k xs ys h e =
    let b = flagged p in
    store_fits (at + k) ys (replaced at xs b) (omega (arith, length-replaced at xs b (omega arith)))
    ∙ ap some (
        subst (λ (n : ℕ). replaced (at + n) ys (replaced at xs b) ≡ replaced at (xs ++ ys) b) e
          (replaced-replaced at xs ys b (omega arith)))

pub push_lem : (p : Page) → IsValid p → push p ≡ some (record p { block = pushed p })
unfolding push put_int put_short
push_lem p v =
    let at = head_offset p in
    let b = flagged p in
    let room : at + 12 ≤ length b = omega (arith, length-flagged p v, head_offset-le p, v.room) in
    let n = put_int p.next in
    let s = put_short p.space in
    let r = put_short p.reserve1 in
    rw
      (
        store_flag p v,
        store_fits at n b (omega arith),
        store_next p at 4 n s (omega arith) refl,
        store_next p at 6 (n ++ s) r (omega arith) refl,
        store_fits (at + 10) r (with_header p)
            (omega (arith, length-with_header p v, head_offset-le p, v.room)),
      )
      refl

-- The fields that `pop` reads, in the block that `push` left.
load-header :
    (p : Page) (k n : ℕ)
    → IsValid p
    → k + n ≤ 8
    → load (head_offset p + k) n (pushed p)
      ≡ some (take n (drop k (header p ++ drop (head_offset p + 8) (flagged p))))
load-header p k n v h =
    let at = head_offset p in
    load-replaced_before (at + 10) (put_short p.reserve1) (with_header p) (at + k) n
      (omega (arith, length-put_short p.reserve1, length-with_header p v, head_offset-le p, v.room))
      (omega arith)
    ∙ load-replaced at k n (header p) (flagged p)
        (omega (arith, length-header p, length-flagged p v, head_offset-le p, v.room))
        (omega (arith, length-header p, h))
    ∙ ap (λ (m : ℕ). some (take n (drop k (header p ++ drop (at + m) (flagged p)))))
        (length-header p)

take_two : (v : ℕ) (rest : List ℕ) → take 2 (put_short v ++ rest) ≡ put_short v
unfolding put_short
take_two v rest = refl

load_last :
    (p : Page) → IsValid p → load (head_offset p + 10) 2 (pushed p) ≡ some (put_short p.reserve1)
load_last p v =
    let at = head_offset p + 10 in
    let r = put_short p.reserve1 in
    let e : at + 0 ≡ at = omega arith in
    subst
      (λ (m : ℕ). load m 2 (pushed p) ≡ some (take 2 (r ++ drop (at + length r) (with_header p)))) e
      (load-replaced at 0 2 r (with_header p)
        (omega
          (arith, length-put_short p.reserve1, length-with_header p v, head_offset-le p, v.room))
        (omega (arith, length-put_short p.reserve1)))
    ∙ ap some (take_two p.reserve1 (drop (at + length r) (with_header p)))

load_fields :
    (p : Page)
    → IsValid p
    → (load (head_offset p) 4 (pushed p) ≡ some (put_int p.next))
      × (load (head_offset p + 4) 2 (pushed p) ≡ some (put_short p.space))
      × (load (head_offset p + 6) 2 (pushed p) ≡ some (put_short p.reserve1))
unfolding put_int put_short
load_fields p v =
    let e : head_offset p + 0 ≡ head_offset p = omega arith in
    (
      subst (λ (m : ℕ). load m 4 (pushed p) ≡ some (put_int p.next)) e
          (load-header p 0 4 v (omega arith)),
      load-header p 4 2 v (omega arith),
      load-header p 6 2 v (omega arith),
    )

int_back : (v : ℕ) → v < 2 ^ 32 → get_int (put_int v) ≡ v
int_back v h = ap get_int (sym (append-nil (put_int v))) ∙ get_int-put_int v [] h

short_back : (v : ℕ) → v < 2 ^ 16 → get_short (put_short v) ≡ v
short_back v h = ap get_short (sym (append-nil (put_short v))) ∙ get_short-put_short v [] h

pub pop-pushed :
    (p q : Page)
    → IsValid p
    → p.next < 2 ^ 32
    → p.reserve1 < 2 ^ 16
    → pop (record q { pageno = p.pageno; block = pushed p })
      ≡ some (record q {
        pageno = p.pageno;
        block = pushed p;
        next = p.next;
        space = p.space;
        reserve1 = p.reserve1;
        reserve2 = from_short p.reserve1;
      })
unfolding pop
pop-pushed p q v hn hr =
    let (f1, f2, f3) = load_fields p v in
    let hs : p.space < 2 ^ 16 = omega (arith, v.space, v.size) in
    rw
      (
        f1,
        f2,
        f3,
        load_last p v,
        int_back p.next hn,
        short_back p.space hs,
        short_back p.reserve1 hr,
      )
      refl

-- For a valid page whose next page and `reserve1` fit their fields `push` succeeds, and `pop` on a
-- page of that number with the block that it left restores the header, but for `reserve2`, which
-- gets the value of `reserve1` as a `short`, with its sign extended.
pub pop-push :
    (p q : Page)
    → IsValid p
    → p.next < 2 ^ 32
    → p.reserve1 < 2 ^ 16
    → (b : List ℕ) × (push p ≡ some (record p { block = b }))
      × (pop (record q { pageno = p.pageno; block = b })
          ≡ some (record q {
            pageno = p.pageno;
            block = b;
            next = p.next;
            space = p.space;
            reserve1 = p.reserve1;
            reserve2 = from_short p.reserve1;
          }))
pop-push p q v hn hr = (pushed p, push_lem p v, pop-pushed p q v hn hr)
