-- ===== src/PageFile/Pages/Turn.antt =====
-- jni/KvDB/SMDPageFile.cpp: the first turn of the loop of `put`, which writes the length of a stream, and
-- where the loop ends up behind it.
use leveldblib.Prelude.{
  ℕ, suc, ◌+◌, ◌-◌, ◌*◌, ◌^◌, ◌≤◌, ◌<◌, ◌≡◌, refl, sym, ap, subst, ◌∙◌, true, false, List, length,
  ◌==◌, arith,
}
use leveldblib.Value.{put_int}
use leveldblib.Value.Codec.{length-put_int}
use leveldblib.Page.{Page, head_size, sub16, get_space_offset, get_file_offset, get_content_offset}
use leveldblib.Page.Inv.{IsValid}
use leveldblib.Page.Content.{written, write_fits, written-IsValid}
use leveldblib.PageManager.{Manager}
use leveldblib.PageFile.{returned, ◌>>=◌}
use leveldblib.PageFile.Put.{Writing, start, put_skip, put_fill, put_loop}
use leveldblib.PageFile.Put.Growing.{succeeds, Succeeds, >>=-Succeeds, weaker, Growing, changed}
use leveldblib.PageFile.Put.Turns.{next_page_moves}
use leveldblib.PageFile.Pages.Filled.{writing}
use leveldblib.PageFile.Pages.Landing.{final}
use leveldblib.PageFile.Pages.Loop.{Ended, fill_then, put_loop-Ended}
use leveldblib.PageFile.Pages.Stored.{
  Stored, headed, head-Stored, Within, save-Within, Moved-Within,
}

module _ (garbage : ℕ → List ℕ) (n limit min_unit : ℕ) (bytes : List ℕ) where
  -- The length is written to a page with room for it.
  start_lem :
      (k offset : ℕ) (w : Writing)
      → w.started ≡ false
      → Growing n k w.page w.manager
      → 4 ≤ w.page.space
      → (start (length bytes) offset w
          ≡ returned (writing offset (headed (length bytes) w.page) w.manager))
        × Growing n k (headed (length bytes) w.page) w.manager
  unfolding start put_int
  start_lem k offset w f g four =
      let head = put_int (length bytes) in
      (
        rw (f, write_fits head w.page g.valid four (omega (arith, four))) refl,
        changed n k w.page (written head w.page) w.manager g
            (written-IsValid head w.page g.valid four) refl refl refl,
      )

  -- The stream in the file that a page is saved to last.
  abbrev pub Ready : Writing → Type 0
  Ready v =
      Growing n 0 v.page v.manager
      × (v.page.modify ≡ true)
      × Stored n min_unit bytes (final n v) v.offset
      × (length (final n v) ≤ limit * n)

  Ended-Ready :
      (offset k : ℕ) (p : Page) (m : Manager) (v : Writing)
      → IsValid p
      → p.size ≡ n
      → 4 ≤ p.space
      → min_unit ≤ p.space
      → offset ≡ n - p.space + p.pageno * n
      → Within n limit k p m
      → Ended garbage n min_unit (length bytes) offset k (headed (length bytes) p) m bytes v
      → Ready v
  Ended-Ready offset k p m v valid e four unit place w (same, lands) = (
    lands.growing,
    lands.marked,
    subst (Stored n min_unit bytes (final n v)) (sym (same ∙ place))
        (head-Stored n min_unit k bytes p m v valid e four unit lands),
    lands.fits limit w.few w.short,
  )

  -- The page behind one that has not the smallest unit free, with the length.
  abbrev Skipped : ℕ → List ℕ × Writing → Type 0
  Skipped k x =
      (q : Page) × (m' : Manager) × (x
        ≡ (bytes, writing (get_content_offset q) (headed (length bytes) q) m'))
      × Growing n k q m'
      × (q.space ≡ n - head_size)
      × (q.reserve1 ≡ 0)
      × (0 < q.pageno)
      × Within n limit k q m'

  put_skip-Skipped :
      (k : ℕ) (p : Page) (m : Manager)
      → Growing n (suc k) p m
      → Within n limit (suc k) p m
      → Succeeds (Skipped k) (
          put_skip garbage
            (length bytes)
            bytes
            (record { started = false; offset = 0; page = p; manager = m }))
  unfolding put_skip
  put_skip-Skipped k p m g w = >>=-Succeeds (save-Within n limit (suc k) p m g w) λ r h.
      >>=-Succeeds (next_page_moves garbage n k r.0 r.1 h.0) λ s moved.
        let fresh : Writing = record { started = false; offset = 0; page = s.0; manager = s.1 } in
        let g1 = moved.growing in
        let (started, _) =
          start_lem k (get_content_offset s.0) fresh refl g1
            (omega (arith, moved.space, g1.size, g1.valid.room)) in
        rw started (
          succeeds (
            s.0,
            s.1,
            refl,
            g1,
            moved.space,
            moved.fresh,
            omega (arith, moved.number),
            Moved-Within n limit k r.0 s.0 r.1 s.1 h.0 h.1 moved,
          ))

  content_offset_lem :
      (k : ℕ) (q : Page) (m : Manager)
      → Growing n k q m
      → q.space ≡ n - head_size
      → 0 < q.pageno
      → get_content_offset q ≡ n - q.space + q.pageno * n
  unfolding get_content_offset
  content_offset_lem k q m g free pos =
      let later : (q.pageno == 0) ≡ false = ground (arith, pos) in
      let v = g.valid in
      let size : q.pageno * q.size ≡ q.pageno * n = ap (λ (s : ℕ). q.pageno * s) g.size in
      rw later (omega (arith, size, g.place, free, g.size, v.room))

  pub skip-Ready :
      (k : ℕ) (p : Page) (m : Manager)
      → min_unit + 16 ≤ n
      → Growing n (suc k) p m
      → Within n limit (suc k) p m
      → 0 < length bytes
      → length bytes ≤ k
      → Succeeds Ready (
          put_skip garbage
            (length bytes)
            bytes
            (record { started = false; offset = 0; page = p; manager = m })
          >>= λ x. put_loop garbage min_unit (length bytes) k x.0 x.1)
  unfolding put_int
  skip-Ready k p m room g within some_bytes enough =
      >>=-Succeeds (put_skip-Skipped k p m g within) λ x skipped.
        let (q, m', same, h, free, fresh, pos, w1) = skipped in
        let four : 4 ≤ q.space = omega (arith, free, h.size, h.valid.room) in
        let offset = get_content_offset q in
        let w : Writing = record { started = false; offset = 0; page = q; manager = m' } in
        let (_, g1) = start_lem k offset w refl h four in
        rw same (
          weaker
            (put_loop-Ended garbage n min_unit (length bytes) offset k room bytes
              (headed (length bytes) q) m' g1 (omega (arith, fresh)) w1.known some_bytes enough
              (omega (arith, free, room), omega (arith, free, h.size, h.valid.room)))
            λ v e.
              Ended-Ready offset k q m' v h.valid h.size four (omega (arith, free, room))
                (content_offset_lem k q m' h free pos) w1 e)

  -- On the page itself.
  pub fill-Ready :
      (k : ℕ) (p : Page) (m : Manager)
      → min_unit + 16 ≤ n
      → 4 ≤ min_unit
      → min_unit ≤ p.space
      → p.reserve1 < 2 ^ 16
      → Within n limit (suc k) p m
      → Growing n (suc k) p m
      → 0 < length bytes
      → length bytes ≤ k
      → Succeeds Ready (
          put_fill garbage
            (length bytes)
            bytes
            (record { started = false; offset = 0; page = p; manager = m })
          >>= λ x. put_loop garbage min_unit (length bytes) k x.0 x.1)
  unfolding put_fill start get_space_offset get_file_offset
  fill-Ready k p m room four unit hr within g some_bytes enough =
      let w : Writing = record { started = false; offset = 0; page = p; manager = m } in
      let v = g.valid in
      let l = length-put_int (length bytes) in
      let offset = get_space_offset p + get_file_offset p in
      let (started, g1) = start_lem (suc k) offset w refl g (omega (arith, four, unit)) in
      let same : put_fill garbage (length bytes) bytes w
          ≡ put_fill garbage (length bytes) bytes (writing offset (headed (length bytes) p) m) =
        rw
          (write_fits (put_int (length bytes)) p v (omega (arith, four, unit, l))
            (omega (arith, four, unit)))
          refl in
      let at : sub16 p.size p.space ≡ n - p.space = omega (arith, v.space, v.size, g.size) in
      let page : p.pageno * p.size ≡ p.pageno * n = ap (λ (s : ℕ). p.pageno * s) g.size in
      let place : offset ≡ n - p.space + p.pageno * n = omega (arith, at, page, g.place) in
      rw same (
        weaker
          (fill_then garbage n min_unit (length bytes) offset k bytes (headed (length bytes) p) m
            room g1 (λ none_free. refl) hr within.known (omega (arith, enough))
            (put_loop-Ended garbage n min_unit (length bytes) offset k room))
          λ x h.
            Ended-Ready offset (suc k) p m x v g.size (omega (arith, four, unit)) unit place within
              h)
