-- ===== src/PageFile/Pages/RoundTrip.antt =====
-- jni/KvDB/SMDPageFile.cpp: a stream that spreads over pages, from `put` to `get` by a page file that
-- opens the file afterwards.
use leveldblib.Prelude.{
  ℕ, ◌+◌, ◌-◌, ◌/◌, ◌%◌, ◌^◌, ◌≤◌, ◌<◌, ◌≡◌, refl, sym, ap, subst, ◌∙◌, true, false, some, none,
  List, [], length, ltb, ◌==◌, arith, append-nil, length-replicate,
}
use leveldblib.Value.{put_int, get_int}
use leveldblib.Value.Codec.{get_int-put_int}
use leveldblib.Stream
use leveldblib.Stream.{MemStream}
use leveldblib.Page.Inv.{blank}
use leveldblib.Page.{Page, no_page, read}
use leveldblib.PageTable.{Inner, PageKey, get_last_page_no}
use leveldblib.PageManager.{Manager}
use leveldblib.PageManager.Save.{reopened}
use leveldblib.PageFile.{returned, held}
use leveldblib.PageFile.Put.{put}
use leveldblib.PageFile.Put.Store.{resize_lem}
use leveldblib.PageFile.Put.RoundTrip.{offset_lem}
use leveldblib.PageFile.Put.Growing.{Growing}
use leveldblib.PageFile.Put.Progress.{Succeeds-returned}
use leveldblib.PageFile.Get.{Reading, get, get_on, get_content, get_loop}
use leveldblib.PageFile.Pages.Stored.{Stored, Within}
use leveldblib.PageFile.Pages.Long.{put_of_long}
use leveldblib.PageFile.Pages.Serves.{Serves, Copied, page_no-lt, load-Copied, read_piece}
use leveldblib.PageFile.Pages.Gather.{gather}
use leveldblib.PageFile.Pages.Opened.{opened, opened-Serves, unopened_lem}

unit_lem : (n min_unit at : ℕ) → at + min_unit ≤ n → ltb (n - at) min_unit ≡ false
unit_lem n min_unit at h = ground (arith, h)

module _ (garbage : ℕ → List ℕ) (n min_unit : ℕ) (bytes file : List ℕ) where
  -- What the loop starts from, behind the length.
  abbrev begin : ℕ → MemStream → Page → Manager → Reading
  begin at t r m = record {
    offset = at + 4;
    at = 0;
    bytes = Stream.resized t.buf (length bytes);
    page = r;
    manager = m;
  }

  looped_lem :
      (fuel at : ℕ) (t : MemStream) (r : Page) (m : Manager) (v : Reading)
      → length bytes < 2 ^ 31
      → read at 4 r ≡ some (4, put_int (length bytes))
      → get_loop garbage fuel (length bytes) (begin at t r m) ≡ returned v
      → v.bytes ≡ bytes
      → get_content garbage fuel t at r m
        ≡ returned (true, record { buf = bytes; pos = 0 }, held v.page v.manager)
  unfolding get_content
  looped_lem fuel at t r m v few head loop e =
      let size : get_int (put_int (length bytes)) ≡ length bytes =
        ap get_int (sym (append-nil (put_int (length bytes))))
        ∙ get_int-put_int (length bytes) [] (omega (arith, few)) in
      let int : ltb (length bytes) (2 ^ 31) ≡ true = ground (arith, few) in
      rw (head, size, int, (resize_lem (length bytes) t).0, loop, e) refl

  -- The length and the stream behind it, on the pages of the file.
  get_content_of_long :
      (fuel offset : ℕ) (t : MemStream) (st : Stored n min_unit bytes file offset) (r : Page)
      (m : Manager)
      → Copied st.page r
      → Serves n file m
      → 0 < length bytes
      → length bytes < 2 ^ 31
      → length bytes < fuel
      → (q : Page) × (m' : Manager) × (get_content garbage fuel t st.at r m
          ≡ returned (true, record { buf = bytes; pos = 0 }, held q m'))
  get_content_of_long fuel offset t st r m c s some_bytes few enough =
      let (v, loop, e) =
        gather garbage n file fuel st.page (st.at + 4) bytes (begin st.at t r m) st.spreads
          st.on_file c s refl (omega (arith, (resize_lem (length bytes) t).1)) some_bytes
          (omega (arith, enough)) in
      let on = st.on_file in
      let head =
        read_piece n st.at 4 st.page r (put_int (length bytes)) c on.valid on.size st.inside
          st.head in
      (v.page, v.manager, looped_lem fuel st.at t r m v few head loop e)

  get_of_long :
      (fuel offset : ℕ) (t : MemStream) (st : Stored n min_unit bytes file offset) (m : Manager)
      → 4 ≤ min_unit
      → Serves n file m
      → 0 < length bytes
      → length bytes < 2 ^ 31
      → length bytes < fuel
      → (q : Page) × (m' : Manager) × (get garbage min_unit fuel t offset
            (record { page = none; manager = m })
          ≡ returned (true, record { buf = bytes; pos = 0 }, held q m'))
  unfolding get_on
  get_of_long fuel offset t st m four s some_bytes few enough =
      let on = st.on_file in
      let v = on.valid in
      let at_lt : st.at < n = omega (arith, st.unit, four) in
      let (number, rest) = offset_lem st.at st.page.pageno n at_lt in
      let page : offset / m.inner.page_size ≡ st.page.pageno =
        ap (λ (k : ℕ). offset / k) s.page_size ∙ ap (λ (o : ℕ). o / n) st.place ∙ number in
      let small = page_no-lt n file st.page m on s in
      let other : (no_page == st.page.pageno) ≡ false =
        ground (arith, small, s.coherent.few_pages) in
      let (r, m', found, c, s') =
        load-Copied garbage n file st.page (blank m.inner.page_size m.inner.page_size no_page) m on
          s other (length-replicate m.inner.page_size 0 ∙ s.page_size) in
      let size : r.size ≡ n = c.size ∙ on.size in
      let inside : offset % r.size ≡ st.at =
        ap (λ (k : ℕ). offset % k) size ∙ ap (λ (o : ℕ). o % n) st.place ∙ rest in
      let here : ltb (r.size - st.at) min_unit ≡ false =
        rw size (unit_lem n min_unit st.at st.unit) in
      let (q, m2, content) = get_content_of_long fuel offset t st r m' c s' some_bytes few enough in
      (
        q,
        m2,
        unopened_lem garbage min_unit fuel offset st.page.pageno t r m m'
            (returned (true, record { buf = bytes; pos = 0 }, held q m2)) page found
            (rw (inside, here) content),
      )

-- A page file whose last page is held: a valid page of `n` bytes whose `reserve1` fits its field, the
-- last of its chain, of a number that the file counts, in a file open for writing that can grow by one
-- page for each byte of the stream and one more, where a page has at least 16 bytes more than the
-- smallest unit, which is 4 at least. A stream of 1 up to 2 ^ 31 - 1 bytes that does not fit the free
-- space of that page with its length, in a file of at most 65535 pages, which it still has if it grows
-- like that: `put` ends and gives an offset. A page file without a page yet, in a manager with pages
-- of `n` bytes that opens the file afterwards with a cache of 1 up to 65535 buffers, finds the
-- stream's bytes by `get` with that offset, over all the pages that they spread over, within one
-- turn of its loop more than the stream has bytes.
pub get-opened-put :
    (garbage : ℕ → List ℕ) (n : ℕ) (key : PageKey) (min_unit fuel turns : ℕ) (s t : MemStream)
    (p : Page) (m : Manager) (inner : Inner) (max_buffer_num : ℕ)
    → min_unit + 16 ≤ n
    → 4 ≤ min_unit
    → p.reserve1 < 2 ^ 16
    → Growing n fuel p m
    → Within n 65535 fuel p m
    → get_last_page_no key m.inner ≡ p.pageno
    → 0 < length s.buf
    → length s.buf < 2 ^ 31
    → p.space < length s.buf + 4
    → length s.buf < fuel
    → length s.buf < turns
    → inner.page_size ≡ n
    → 0 < max_buffer_num
    → max_buffer_num < 2 ^ 16
    → (offset : ℕ) × (q1 : Page) × (m1 : Manager) × (put garbage key min_unit fuel s (held p m)
        ≡ returned (some offset, held q1 m1))
      × (q2 : Page) × (m2 : Manager) × (get garbage min_unit turns t offset
            (opened inner max_buffer_num m1)
          ≡ returned (true, record { buf = s.buf; pos = 0 }, held q2 m2))
get-opened-put garbage n key min_unit fuel turns s t p m inner nb room four hr g w last some_bytes
      few long enough enough' ei nb0 nb1 =
    let (r, e, (offset, q1, m1, same, stored, short)) = Succeeds-returned (
      put_of_long garbage n 65535 min_unit s.buf key fuel s p m refl room four hr w g last
        some_bytes long enough) in
    let serves : Serves n m1.cache.file (reopened inner nb m1) =
      subst (λ (k : ℕ). Serves k m1.cache.file (reopened inner nb m1)) ei
        (opened-Serves inner nb m1 (omega (arith, ei, room)) nb0 nb1 (rw ei short)) in
    let (q2, m2, found) =
      get_of_long garbage n min_unit s.buf m1.cache.file turns offset t stored
        (reopened inner nb m1) four serves some_bytes few enough' in
    (offset, q1, m1, e ∙ ap returned same, q2, m2, found)
