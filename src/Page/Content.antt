-- ===== src/Page/Content.antt =====
-- The content of the pages of jni/KvDB/SMDPage.h: `read` after `write`, in the same object and in
-- one that the block is loaded into.
use leveldblib.Prelude.{
  ℕ, ◌+◌, ◌-◌, ◌%◌, ◌^◌, ◌≤◌, ◌<◌, ◌≡◌, refl, sym, ap, ◌∙◌, true, false, some, List, ltb, ◌==◌,
  length, min, arith, take_of_length-le, Bool-cases, inl, inr,
}
use leveldblib.Value.{put_short}
use leveldblib.Value.Codec.{length-put_short}
use leveldblib.Memory.{
  load, replaced, length-replaced, load-replaced_same, load-replaced_before, load-replaced_behind,
}
use leveldblib.Page.{
  from_short, Page, storage_flag, head_offset, sub16, read, write, push, pop, get_space_offset,
  ◌>>=◌,
}
use leveldblib.Page.Inv.{IsValid, content_start, write_lem}
use leveldblib.Page.Head.{
  header, flagged, with_header, pushed, push_lem, pop-pushed, length-header, length-flagged,
  length-with_header, length-pushed, head_offset-le,
}

pub read_inside :
    (offset sz : ℕ) (p : Page)
    → IsValid p
    → offset % p.size + sz ≤ p.size - p.space
    → read offset sz p ≡ (load (offset % p.size) sz p.block >>= λ bytes. some (sz, bytes))
unfolding read get_space_offset
read_inside offset sz p v h =
    let e : sub16 p.size p.space ≡ p.size - p.space = omega (arith, v.space, v.size) in
    let no : ltb (p.size - p.space) ((offset % p.size + sz) % 2 ^ 32) ≡ false =
      ground (arith, h, v.size) in
    rw (e, no) refl

abbrev pub written : List ℕ → Page → Page
written buffer p = record p {
  block = replaced (p.size - p.space) buffer p.block;
  space = p.space - length buffer;
  modify = true;
}

-- A buffer that fits is written whole, and the page stays valid.
pub write_fits :
    (buffer : List ℕ) (p : Page)
    → IsValid p
    → length buffer ≤ p.space
    → 0 < p.space
    → write buffer p ≡ some (length buffer, written buffer p)
write_fits buffer p v h pos =
    let n : min p.space (length buffer) ≡ length buffer = omega arith in
    let f : (p.space == 0) ≡ false = ground (arith, pos) in
    rw (write_lem buffer p v, f, n, take_of_length-le (length buffer) buffer (omega arith)) refl

pub written-IsValid :
    (buffer : List ℕ) (p : Page) → IsValid p → length buffer ≤ p.space → IsValid (written buffer p)
written-IsValid buffer p v h = record {
  block =
      length-replaced (p.size - p.space) buffer p.block (omega (arith, v.space, v.block)) ∙ v.block;
  room = v.room;
  size = v.size;
  space = omega (arith, v.space);
}

-- `push` leaves the content.
pub load-pushed :
    (p : Page) (at n : ℕ)
    → IsValid p
    → content_start p ≤ at
    → at + n ≤ p.size
    → load at n (pushed p) ≡ load at n p.block
load-pushed p at n v h g =
    let h0 = head_offset p in
    load-replaced_behind (h0 + 10) (put_short p.reserve1) (with_header p) at n
      (omega (arith, length-put_short p.reserve1, length-with_header p v, head_offset-le p, v.room))
      (omega (arith, length-put_short p.reserve1)) (omega (arith, length-with_header p v))
    ∙ load-replaced_behind h0 (header p) (flagged p) at n
        (omega (arith, length-header p, length-flagged p v, head_offset-le p, v.room))
        (omega (arith, length-header p)) (omega (arith, length-flagged p v))
    ∙ elim (Bool-cases (p.pageno == 0)) [
      | inl t ↦ rw t (
          load-replaced_behind 0 storage_flag p.block at n (omega (arith, v.block, v.room))
            (ground (arith, h, t)) (omega (arith, v.block, g)))
      | inr f ↦ rw f refl
    ]

-- A buffer that fits a valid page is written whole by `write` and leaves the page valid; a `read`
-- of its length at the former end of the content gives it back, and a `read` inside the content
-- before it gives what it gave.
pub read-write :
    (buffer : List ℕ) (p : Page) (offset before n : ℕ)
    → IsValid p
    → length buffer ≤ p.space
    → offset % p.size ≡ p.size - p.space
    → before % p.size + n ≤ p.size - p.space
    → (q : Page) × (write buffer p ≡ some (length buffer, q))
      × IsValid q
      × (read offset (length buffer) q ≡ some (length buffer, buffer))
      × (read before n q ≡ read before n p)
read-write buffer p offset before n v h at e =
    let q = written buffer p in
    let w = written-IsValid buffer p v h in
    let pos : 0 < p.space = omega (arith, at, v.room) in
    let room : p.size - p.space + length buffer ≤ length p.block =
      omega (arith, v.space, v.block) in
    (
      q,
      write_fits buffer p v h pos,
      w,
      read_inside offset (length buffer) q w (omega (arith, at, v.space))
          ∙ rw (at, load-replaced_same (p.size - p.space) buffer p.block room) refl,
      read_inside before n q w (omega (arith, e))
          ∙ ap (λ o. o >>= λ bytes. some (n, bytes))
              (load-replaced_before (p.size - p.space) buffer p.block (before % p.size) n room e)
          ∙ sym (read_inside before n p v e),
    )

-- A buffer that fits a valid page, whose next page and `reserve1` fit their fields, is written
-- whole by `write`; after `push`, when the block is loaded into any page object of that size and
-- number and `pop` has restored the header, a `read` at the former end of the content gives the
-- buffer back.
pub read-pop-push-write :
    (buffer : List ℕ) (p r : Page) (offset : ℕ)
    → IsValid p
    → length buffer ≤ p.space
    → offset % p.size ≡ p.size - p.space
    → p.next < 2 ^ 32
    → p.reserve1 < 2 ^ 16
    → (q : Page) × (write buffer p ≡ some (length buffer, q))
      × (b : List ℕ) × (push q ≡ some (record q { block = b }))
      × (s : Page) × (pop (record r { size = p.size; pageno = p.pageno; block = b }) ≡ some s)
      × (read offset (length buffer) s ≡ some (length buffer, buffer))
read-pop-push-write buffer p r offset v h at hn hr =
    let q = written buffer p in
    let w = written-IsValid buffer p v h in
    let pos : 0 < p.space = omega (arith, at, v.room) in
    let start = p.size - p.space in
    let room : start + length buffer ≤ length p.block = omega (arith, v.space, v.block) in
    let s : Page = record r {
      size = p.size;
      pageno = p.pageno;
      block = pushed q;
      next = q.next;
      space = q.space;
      reserve1 = q.reserve1;
      reserve2 = from_short q.reserve1;
    } in
    let sv : IsValid s = record {
      block = length-pushed q w;
      room = w.room;
      size = w.size;
      space = w.space;
    } in
    (
      q,
      write_fits buffer p v h pos,
      pushed q,
      push_lem q w,
      s,
      pop-pushed q (record r { size = p.size }) w hn hr,
      read_inside offset (length buffer) s sv (omega (arith, at, v.space))
          ∙ rw
              (
                at,
                load-pushed q start (length buffer) w (omega (arith, v.space))
                    (omega (arith, v.space)),
                load-replaced_same start buffer p.block room,
              )
              refl,
    )
