-- ===== src/Page/Life.antt =====
-- The life of a page object of jni/KvDB/SMDPage.h: it is built, and then changed by calls.
use leveldblib.Prelude.{
  ℕ, ◌+◌, ◌-◌, ◌%◌, ◌^◌, ◌≤◌, ◌<◌, ◌≡◌, refl, sym, ◌∙◌, Bool, true, Option, some, List, leb, ltb,
  ◌==◌, length, take, drop, replicate, min, arith, length-replicate, length-take, Bool-cases, inl,
  inr, some-injective,
}
use leveldblib.Value.{get_int, get_short}
use leveldblib.Memory.{load_fits, replaced, store_fits, length-replaced}
use leveldblib.Page.{
  Page, flag_length, head_size, head_offset, from_short, sub16, u32, new, reset, free_space,
  set_modify, set_next_page_no, push, pop, read, write, write_at, get_space_offset, ◌>>=◌,
}
use leveldblib.Page.Inv.{IsValid, content_start, check_first_page_lem, blank_lem, write_lem}
use leveldblib.Page.Head.{pushed, push_lem, length-pushed}

-- The `space` in the header of the page's block, which `pop` takes over.
abbrev pub header_space : Page → ℕ
header_space p = get_short (take 2 (drop (head_offset p + 4) p.block))

-- A call on a page, and its outcome. The conditions: `reset` keeps the size, as its callers do; the
-- space that `pop` takes over fits the block; `read` begins inside header and content; the write at an
-- offset holds its `assert`. The counts, and the offset of that write, are an `unsigned short`.
pub data Call (p : Page) : Option Page → Type 0 where
  do_reset : (size pageno : ℕ) → size ≡ p.size → Call p (reset size pageno p)
  do_free_space : Call p (free_space p)
  do_set_modify : (m : Bool) → Call p (some (set_modify m p))
  do_set_next : (n : ℕ) → Call p (some (set_next_page_no n p))
  do_push : Call p (push p)
  do_pop : content_start p + header_space p ≤ p.size → Call p (pop p)
  do_read :
      (offset sz : ℕ)
      → offset % p.size ≤ p.size - p.space
      → sz < 2 ^ 16
      → Call p (read offset sz p >>= λ r. some p)
  do_write : (buffer : List ℕ) → length buffer < 2 ^ 16 → Call p (write buffer p >>= λ r. some r.1)
  do_write_at :
      (buffer : List ℕ) (offset : ℕ)
      → length buffer ≤ p.size - offset % p.size
      → offset < 2 ^ 16
      → Call p (write_at buffer offset p >>= λ r. some r.1)

-- The pages that calls lead to from a new one.
pub data Reach (size pageno : ℕ) : Page → Type 0 where
  built : {p : Page} → new size pageno ≡ some p → Reach size pageno p
  called : {p q : Page} → Reach size pageno p → Call p (some q) → Reach size pageno q

new-IsValid :
    (size pageno : ℕ)
    → flag_length + head_size ≤ size
    → size < 2 ^ 16
    → (p : Page) × (new size pageno ≡ some p) × IsValid p × (p.size ≡ size)
unfolding new
new-IsValid size pageno r s =
    let (q, e, v, _, z, _) = blank_lem size size pageno refl r s in (q, e, v, z)

-- What `pop` makes of a page.
abbrev popped : ℕ → ℕ → ℕ → Page → Page
popped n r1 r2 p = record p { next = n; space = header_space p; reserve1 = r1; reserve2 = r2 }

pop_lem : (p : Page) → IsValid p → (n : ℕ) × (r1 : ℕ) × (r2 : ℕ) × (pop p ≡ some (popped n r1 r2 p))
unfolding pop
pop_lem p v =
    let at = head_offset p in
    let inside : at + 12 ≤ length p.block = omega (arith, v.block, v.space) in
    (
      get_int (take 4 (drop at p.block)),
      get_short (take 2 (drop (at + 6) p.block)),
      from_short (get_short (take 2 (drop (at + 10) p.block))),
      rw
          (
            load_fits at 4 p.block (omega (arith, inside)),
            load_fits (at + 4) 2 p.block (omega (arith, inside)),
            load_fits (at + 6) 2 p.block (omega (arith, inside)),
            load_fits (at + 10) 2 p.block (omega (arith, inside)),
          )
          refl,
    )

-- A read that begins inside header and content stays inside the block.
read_lem :
    (offset sz : ℕ) (p : Page)
    → IsValid p
    → offset % p.size ≤ p.size - p.space
    → sz < 2 ^ 16
    → (r : ℕ × List ℕ) × (read offset sz p ≡ some r)
unfolding read get_space_offset
read_lem offset sz p v inside small =
    let at = offset % p.size in
    let end : sub16 p.size p.space ≡ p.size - p.space = omega (arith, v.space, v.size) in
    let no_wrap : u32 (at + sz) ≡ at + sz = omega (arith, inside, small, v.size) in
    elim (Bool-cases (ltb (p.size - p.space) (at + sz))) [
      | inl t ↦
          let n = sub16 (p.size - p.space) at in
          let fits : at + n ≤ length p.block = omega (arith, inside, v.block, v.size) in
          ((n, take n (drop at p.block)), rw (end, no_wrap, t, load_fits at n p.block fits) refl)
      | inr f ↦
          let fits : at + sz ≤ length p.block = ground (arith, f, v.block) in
          ((sz, take sz (drop at p.block)), rw (end, no_wrap, f, load_fits at sz p.block fits) refl)
    ]

Call-IsValid :
    {p : Page} {o : Option Page}
    → Call p o
    → IsValid p
    → (q : Page) × (o ≡ some q) × IsValid q × (q.size ≡ p.size)
unfolding reset free_space set_modify set_next_page_no write_at
Call-IsValid {p} (do_reset size pageno same) v =
    let (q, e, w, _, z, _) =
      blank_lem (length p.block) size pageno (v.block ∙ sym same) (rw same v.room)
        (rw same v.size) in
    (q, e, w, z ∙ same)
Call-IsValid {p} do_free_space v =
    let (q, e, w, _, z, _) =
      check_first_page_lem
        (record p {
          modify = true;
          space = sub16 p.size head_size;
          block = replicate (length p.block) 0;
        })
        (length-replicate (length p.block) 0 ∙ v.block) v.room v.size
        (omega (arith, v.room, v.size)) in
    (q, e, w, z)
Call-IsValid {p} (do_set_modify m) v = (
  record p { modify = m },
  refl,
  record { block = v.block; room = v.room; size = v.size; space = v.space },
  refl,
)
Call-IsValid {p} (do_set_next n) v = (
  record p { next = n; modify = true },
  refl,
  record { block = v.block; room = v.room; size = v.size; space = v.space },
  refl,
)
Call-IsValid {p} do_push v = (
  record p { block = pushed p },
  push_lem p v,
  record { block = length-pushed p v; room = v.room; size = v.size; space = v.space },
  refl,
)
Call-IsValid {p} (do_pop fits) v =
    let (n, r1, r2, e) = pop_lem p v in
    (
      popped n r1 r2 p,
      e,
      record { block = v.block; room = v.room; size = v.size; space = fits },
      refl,
    )
Call-IsValid {p} (do_read offset sz inside small) v =
    let (r, e) = read_lem offset sz p v inside small in (p, rw e refl, v, refl)
Call-IsValid {p} (do_write buffer few) v =
    let wr = min p.space (length buffer) in
    let q : Page = record p {
      block = replaced (p.size - p.space) (take wr buffer) p.block;
      space = p.space - wr;
      modify = true;
    } in
    elim (Bool-cases (p.space == 0)) [
      | inl t ↦ (p, rw (write_lem buffer p v, t) refl, v, refl)
      | inr f ↦ (
        q,
        rw (write_lem buffer p v, f) refl,
        record {
          block =
              length-replaced (p.size - p.space) (take wr buffer) p.block
                (omega (arith, length-take wr buffer, v.space, v.block))
              ∙ v.block;
          room = v.room;
          size = v.size;
          space = omega (arith, v.space);
        },
        refl,
      )
    ]
Call-IsValid {p} (do_write_at buffer offset a few) v =
    let at = offset % p.size in
    let inside : at < p.size = omega (arith, v.room) in
    let fits : at + length buffer ≤ length p.block = omega (arith, v.block, a) in
    let ok : leb (length buffer) (p.size - at) ≡ true = ground (arith, a) in
    (
      record p { block = replaced at buffer p.block; modify = true },
      rw (ok, store_fits at buffer p.block fits) refl,
      record {
        block = length-replaced at buffer p.block fits ∙ v.block;
        room = v.room;
        size = v.size;
        space = v.space;
      },
      refl,
    )

Reach-IsValid :
    {size pageno : ℕ} {p : Page}
    → flag_length + head_size ≤ size
    → size < 2 ^ 16
    → Reach size pageno p
    → IsValid p × (p.size ≡ size)
Reach-IsValid {size} {pageno} {p} room small (built e) =
    let (q, e', v, z) = new-IsValid size pageno room small in
    rw (← some-injective q p (sym e' ∙ e)) (v, z)
Reach-IsValid {p = q} room small (called {p} r c) =
    let (v, z) = Reach-IsValid room small r in
    let (q', e, w, z') = Call-IsValid c v in rw (some-injective q q' e) (w, z' ∙ z)

-- A page of 28 up to 65535 bytes is built, and on every page that calls lead to from it, each call is
-- carried out without an access outside the block or a failed `assert`: header, content and free space
-- always add up to no more than the block. The conditions on the calls: `reset` is given the page's
-- size; `pop` finds a space in the block's header that fits the block, which a write at an offset can
-- spoil; `read` begins inside header and content; the bytes of a write at an offset end inside the
-- page; and the counts of bytes and the offset of that write are an `unsigned short`.
pub Reach-Call :
    (size pageno : ℕ)
    → flag_length + head_size ≤ size
    → size < 2 ^ 16
    → {p : Page} → Reach size pageno p
    → {o : Option Page} → Call p o
    → (b : Page) × (new size pageno ≡ some b)
      × IsValid p
      × (q : Page) × (o ≡ some q)
      × IsValid q
      × (q.size ≡ size)
Reach-Call size pageno room small r c =
    let (b, built_page, _, _) = new-IsValid size pageno room small in
    let (v, z) = Reach-IsValid room small r in
    let (q, e, w, z') = Call-IsValid c v in (b, built_page, v, q, e, w, z' ∙ z)
