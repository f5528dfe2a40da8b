-- ===== src/PageFile/Pages/Gather.antt =====
-- jni/KvDB/SMDPageFile.cpp: the loop of `get` on a stream that spreads over pages of the file.
use native.Mathlib.Nat.{mod-eq_of_lt, add-mul-mod_self_right}
use leveldblib.Prelude.{
  ℕ, zero, suc, ◌+◌, ◌-◌, ◌*◌, ◌%◌, ◌^◌, ◌≤◌, ◌<◌, ◌≡◌, refl, ap, ◌∙◌, true, false, some, List,
  ◌++◌, length, take, min, ltb, ◌==◌, arith, length-append, append-nil, append_assoc,
  drop_of_length-le,
}
use leveldblib.Memory.{load, replaced, store_fits, length-replaced, take-replaced_to_end}
use leveldblib.Page.{Page, no_page, head_size, get_content_offset}
use leveldblib.Page.Head.{pushed}
use leveldblib.PageManager.{Manager, load_page, get_page_by_page_no, get_next_page, next_of}
use leveldblib.PageFile.{returned, next_page, ◌>>=◌}
use leveldblib.PageFile.Get.{Reading, get_loop, get_turn, get_more}
use leveldblib.PageFile.Pages.{OnFile, Spreads, ends, goes_on}
use leveldblib.PageFile.Pages.Serves.{
  Serves, Copied, Copied-IsValid, page_no-lt, load-Copied, read_piece,
}

module _ (garbage : ℕ → List ℕ) (n : ℕ) (file : List ℕ) where
  linked_lem :
      (r r' : Page) (m m' : Manager)
      → (r.next == no_page) ≡ false
      → load_page garbage r.next r m ≡ some (true, r', m')
      → next_page garbage r m ≡ returned (r', m')
  unfolding next_page get_next_page get_page_by_page_no load_page next_of
  linked_lem r r' m m' e found =
      let self : (r.pageno == r.pageno) ≡ true = ground arith in rw (self, e, found) refl

  -- The page behind one that is not the last.
  next-Copied :
      (p q r : Page) (m : Manager)
      → Copied p r
      → OnFile n file p
      → OnFile n file q
      → Serves n file m
      → p.next ≡ q.pageno
      → (p.pageno == q.pageno) ≡ false
      → (r' : Page) × (m' : Manager) × (next_page garbage r m ≡ returned (r', m'))
        × Copied q r'
        × Serves n file m'
  next-Copied p q r m c onp onq s link other =
      let apart : (r.pageno == q.pageno) ≡ false = rw c.number other in
      let vr = Copied-IsValid p r c onp.valid in
      let (r', m', found, copied, serves) =
        load-Copied garbage n file q r m onq s apart (vr.block ∙ c.size ∙ onp.size) in
      let behind : (q.pageno == no_page) ≡ false =
        ground (arith, page_no-lt n file q m onq s, s.coherent.few_pages) in
      (
        r',
        m',
        linked_lem r r' m m' (rw (c.next ∙ link) behind)
            (ap (λ (k : ℕ). load_page garbage k r m) (c.next ∙ link) ∙ found),
        copied,
        serves,
      )

  step_lem :
      (fuel left : ℕ) (r : Reading)
      → 0 < left
      → get_loop garbage (suc fuel) left r
        ≡ (get_turn garbage left r >>= λ x. get_loop garbage fuel x.0 x.1)
  unfolding get_loop
  step_lem fuel zero r pos = absurd (omega (arith, pos))
  step_lem fuel (suc left) r pos = refl

  more_lem :
      (left : ℕ) (r : Reading)
      → 0 < left
      → get_more garbage left r ≡ (
          next_page garbage r.page r.manager >>= λ x. returned (
            left,
            record r { offset = get_content_offset x.0 % x.0.size; page = x.0; manager = x.1 },
          ))
  unfolding get_more
  more_lem zero r pos = absurd (omega (arith, pos))
  more_lem (suc left) r pos = refl

  -- A turn that ends the stream.
  last_turn :
      (p : Page) (at : ℕ) (bytes : List ℕ) (r : Reading)
      → OnFile n file p
      → Copied p r.page
      → r.offset ≡ at
      → r.at + length bytes ≡ length r.bytes
      → at + length bytes ≤ n - p.space
      → load at (length bytes) (pushed p) ≡ some bytes
      → get_turn garbage (length bytes) r
        ≡ returned (0, record r { at = r.at + length bytes; bytes = replaced r.at bytes r.bytes })
  unfolding get_turn get_more
  last_turn p at bytes r on c here whole room body =
      let k : min (r.page.size - at) (length bytes) ≡ length bytes =
        omega (arith, room, c.size, on.size) in
      let inside : ltb r.page.size at ≡ false = ground (arith, room, c.size, on.size) in
      let none_left : length bytes - length bytes ≡ 0 = omega arith in
      rw
        (
          here,
          inside,
          k,
          read_piece n at (length bytes) p r.page bytes c on.valid on.size room body,
          store_fits r.at bytes r.bytes (omega (arith, whole)),
          none_left,
        )
        refl

  content_start_lem :
      (r : Page)
      → r.size ≡ n
      → 0 < r.pageno
      → r.pageno * n < 2 ^ 31
      → head_size < n
      → get_content_offset r % r.size ≡ head_size
  unfolding get_content_offset
  content_start_lem r e pos place small =
      let later : (r.pageno == 0) ≡ false = ground (arith, pos) in
      let no_wrap : (r.pageno * n + 12) % 2 ^ 32 ≡ 12 + r.pageno * n = omega (arith, place) in
      rw (later, e, no_wrap) (add-mul-mod_self_right 12 r.pageno n ∙ mod-eq_of_lt small)

  -- A turn that reads to the end of a page and goes on to the next one.
  next_turn :
      (p q : Page) (at : ℕ) (xs ys : List ℕ) (r : Reading)
      → OnFile n file p
      → OnFile n file q
      → Copied p r.page
      → Serves n file r.manager
      → r.offset ≡ at
      → r.at + length (xs ++ ys) ≡ length r.bytes
      → p.space ≡ 0
      → at + length xs ≡ n
      → load at (length xs) (pushed p) ≡ some xs
      → p.next ≡ q.pageno
      → (p.pageno == q.pageno) ≡ false
      → 0 < q.pageno
      → q.pageno * n < 2 ^ 31
      → 0 < length ys
      → (r' : Page) × (m' : Manager) × (get_turn garbage (length (xs ++ ys)) r
          ≡ returned (
            length ys,
            record {
              offset = head_size;
              at = r.at + length xs;
              bytes = replaced r.at xs r.bytes;
              page = r';
              manager = m';
            },
          ))
        × Copied q r'
        × Serves n file m'
  unfolding get_turn
  next_turn p q at xs ys r onp onq c s here whole full to_end body link other pos place more =
      let both = length-append xs ys in
      let k : min (r.page.size - at) (length (xs ++ ys)) ≡ length xs =
        omega (arith, both, c.size, onp.size, to_end) in
      let inside : ltb r.page.size at ≡ false = ground (arith, c.size, onp.size, to_end) in
      let rest : length (xs ++ ys) - length xs ≡ length ys = omega (arith, both) in
      let (r', m', found, copied, serves) =
        next-Copied p q r.page r.manager c onp onq s link other in
      let start : get_content_offset r' % r'.size ≡ head_size =
        content_start_lem r' (copied.size ∙ onq.size) (rw copied.number pos)
          (rw copied.number place) (omega (arith, onq.size, onq.valid.room)) in
      (
        r',
        m',
        rw
            (
              here,
              inside,
              k,
              read_piece n at (length xs) p r.page xs c onp.valid onp.size
                  (omega (arith, to_end, full)) body,
              store_fits r.at xs r.bytes (omega (arith, whole, both)),
              rest,
              more_lem (length ys)
                  (record r {
                    offset = at;
                    at = r.at + length xs;
                    bytes = replaced r.at xs r.bytes;
                  })
                  more,
              found,
              start,
            )
            refl,
        copied,
        serves,
      )

  -- The loop ends with the bytes behind what has been read.
  pub gather :
      (fuel : ℕ) (p : Page) (at : ℕ) (bytes : List ℕ) (r : Reading)
      → Spreads n file p at bytes
      → OnFile n file p
      → Copied p r.page
      → Serves n file r.manager
      → r.offset ≡ at
      → r.at + length bytes ≡ length r.bytes
      → 0 < length bytes
      → length bytes < fuel + min (n - at) 1
      → (v : Reading) × (get_loop garbage fuel (length bytes) r ≡ returned v)
        × (v.bytes ≡ take r.at r.bytes ++ bytes)
  unfolding get_loop
  gather zero p at bytes r spreads on c s here whole some_bytes enough =
      absurd (omega (arith, some_bytes, enough))
  gather (suc fuel) p at bytes r (ends room body) on c s here whole some_bytes enough = (
    record r { at = r.at + length bytes; bytes = replaced r.at bytes r.bytes },
    step_lem fuel (length bytes) r some_bytes
        ∙ rw (last_turn p at bytes r on c here whole room body) refl,
    ap (λ (zs : List ℕ). take r.at r.bytes ++ (bytes ++ zs))
          (drop_of_length-le (r.at + length bytes) r.bytes (omega (arith, whole)))
        ∙ ap (λ (zs : List ℕ). take r.at r.bytes ++ zs) (append-nil bytes),
  )
  gather (suc fuel) p at _ r
        (goes_on {xs} {ys} q full to_end body onq link other pos place more rest) on c s here whole
        some_bytes enough =
      let both = length-append xs ys in
      let (r', m', turn, copied, serves) =
        next_turn p q at xs ys r on onq c s here whole full to_end body link other pos place more in
      let r1 : Reading = record {
        offset = head_size;
        at = r.at + length xs;
        bytes = replaced r.at xs r.bytes;
        page = r';
        manager = m';
      } in
      let room : r.at + length xs ≤ length r.bytes = omega (arith, whole, both) in
      let (v, loop, e) =
        gather fuel q head_size ys r1 rest onq copied serves refl
          (omega (arith, whole, both, length-replaced r.at xs r.bytes room)) more
          (omega (arith, enough, both, to_end, onq.size, onq.valid.room)) in
      (
        v,
        step_lem fuel (length (xs ++ ys)) r some_bytes ∙ rw turn loop,
        e
            ∙ ap (λ (zs : List ℕ). zs ++ ys)
                (take-replaced_to_end r.at xs r.bytes (omega (arith, room)))
            ∙ simp append_assoc,
      )
