-- ===== src/PageFile/Put/RoundTrip.antt =====
-- jni/KvDB/SMDPageFile.cpp: a stream that fits a page, from `put` to `get`, in the same manager and in
-- one that opens the file afterwards.
use native.Mathlib.Nat.{mod-eq_of_lt, div-eq_of_lt-le, add-mul-mod_self_right}
use leveldblib.Prelude.{
  ℕ, suc, ◌+◌, ◌-◌, ◌*◌, ◌/◌, ◌%◌, ◌^◌, ◌≤◌, ◌<◌, ◌≡◌, sym, ap, subst, ◌∙◌, true, false, some, List,
  length, ltb, ◌==◌, arith,
}
use leveldblib.Value.{put_int}
use leveldblib.Value.Codec.{length-put_int}
use leveldblib.Memory.{load}
use leveldblib.Page.{Page}
use leveldblib.Page.Inv.{IsValid}
use leveldblib.Page.Head.{pushed, length-pushed}
use leveldblib.Stream.{MemStream, size}
use leveldblib.PageTable.{Inner, PageKey, get_last_page_no}
use leveldblib.PageManager.{Manager, put_bytes, get_page_by_page_no, get_page_by_offset, load_page}
use leveldblib.Cache.{init}
use leveldblib.PageManager.Save.{reopened}
use leveldblib.PageManager.Loading.{reopened_lem}
use leveldblib.PageFile.{returned, State, held}
use leveldblib.PageFile.Get.{get, get_on, get_found}
use leveldblib.PageFile.Put.{put}
use leveldblib.PageFile.Put.Store.{get_content_lem, stored, stored-IsValid, load-stored, put_lem}

-- What `put` returns is an offset in the page.
pub offset_lem : (at p ps : ℕ) → at < ps → ((at + p * ps) / ps ≡ p) × ((at + p * ps) % ps ≡ at)
offset_lem at p ps h = (
  div-eq_of_lt-le ps (omega arith) (omega (arith, h)),
  add-mul-mod_self_right at p ps ∙ mod-eq_of_lt h,
)

-- The stream behind the length at an offset in the page of that number.
pub get_on_lem :
    (garbage : ℕ → List ℕ) (min_unit fuel k : ℕ) (t : MemStream) (bytes : List ℕ) (offset at : ℕ)
    (q : Page) (m : Manager)
    → IsValid q
    → offset % q.size ≡ at
    → length bytes ≡ suc k
    → length bytes < 2 ^ 31
    → min_unit ≤ q.size - at
    → at + 4 + length bytes ≤ q.size - q.space
    → load at 4 q.block ≡ some (put_int (length bytes))
    → load (at + 4) (length bytes) q.block ≡ some bytes
    → get_on garbage min_unit (suc fuel) t offset q m
      ≡ returned (true, record { buf = bytes; pos = 0 }, held q m)
unfolding get_on
get_on_lem garbage min_unit fuel k t bytes offset at q m v e l few unit room head body =
    let here : ltb (q.size - at) min_unit ≡ false = ground (arith, unit) in
    rw (e, here) (get_content_lem garbage fuel k t bytes at q m v l few room head body)

-- A stream of 1 up to 2 ^ 31 - 1 bytes that fits the free space of the last page of its file with its
-- length, where that page is valid, held, in a file open for writing, at an offset below 2 ^ 31, and
-- has at least the smallest unit free: `put` gives an offset, and `get` with that offset, on any
-- stream, gives the stream's bytes from the page that is held. The loops of both need no more than
-- one turn.
pub get-put :
    (garbage : ℕ → List ℕ) (key : PageKey) (min_unit fuel n : ℕ) (s t : MemStream) (p : Page)
    (m : Manager)
    → IsValid p
    → get_last_page_no key m.inner ≡ p.pageno
    → m.writable ≡ true
    → p.size ≡ m.inner.page_size
    → p.pageno * p.size < 2 ^ 31
    → 0 < length s.buf
    → length s.buf < 2 ^ 31
    → length s.buf + 4 ≤ p.space
    → min_unit ≤ p.space
    → (offset : ℕ) × (after : State) × (put garbage key min_unit fuel s (held p m)
        ≡ returned (some offset, after))
      × (get garbage min_unit (suc n) t offset after
          ≡ returned (true, record { buf = s.buf; pos = 0 }, after))
unfolding get get_found get_page_by_offset get_page_by_page_no load_page
get-put garbage key min_unit fuel n s t p m v last w e small pos few h unit =
    let q = stored s.buf p in
    let vq = stored-IsValid s.buf p v h in
    let at = p.size - p.space in
    let (page, inside) = offset_lem at p.pageno p.size (omega (arith, h, pos, v.space, v.room)) in
    let page' : (at + p.pageno * p.size) / m.inner.page_size ≡ p.pageno =
      subst (λ (k : ℕ). (at + p.pageno * p.size) / k ≡ p.pageno) e page in
    let self : (p.pageno == p.pageno) ≡ true = ground arith in
    let (head, body) = load-stored s.buf p v h in
    let k = length s.buf - 1 in
    let r : Page = record q { block = pushed q; modify = false } in
    let vr : IsValid r = record {
      block = length-pushed q vq;
      room = vq.room;
      size = vq.size;
      space = vq.space;
    } in
    (
      at + p.pageno * p.size,
      held r (record m {
        cache = record m.cache { file = put_bytes (p.pageno * p.size) (pushed q) m.cache.file };
      }),
      put_lem garbage key min_unit fuel s p m v last w e small pos h,
      rw (page', self)
          (get_on_lem garbage min_unit n k t s.buf (at + p.pageno * p.size) at r
            (record m {
              cache = record m.cache {
                file = put_bytes (p.pageno * p.size) (pushed q) m.cache.file;
              };
            })
            vr inside (omega (arith, pos)) few (omega (arith, unit, v.space))
            (omega (arith, h, v.space, length-put_int (length s.buf))) head body),
    )

-- A stream of 1 up to 2 ^ 31 - 1 bytes that fits the free space of the last page of its file with its
-- length, where that page is valid, held, in a file open for writing, at an offset below 2 ^ 31, its
-- next page and `reserve1` fit their fields, and it has at least the smallest unit free: `put` gives
-- an offset. A manager with pages of that size that opens the file afterwards, if the file then has
-- fewer than 2 ^ 16 pages and the cache 1 up to 65535 buffers, holding the object of any other page,
-- finds the stream's bytes by `get` with that offset.
pub get-reopened-put :
    (garbage : ℕ → List ℕ) (key : PageKey) (min_unit fuel n : ℕ) (s t : MemStream) (p r : Page)
    (m : Manager) (inner : Inner) (max_buffer_num : ℕ)
    → IsValid p
    → get_last_page_no key m.inner ≡ p.pageno
    → m.writable ≡ true
    → p.size ≡ m.inner.page_size
    → p.pageno * p.size < 2 ^ 31
    → 0 < length s.buf
    → length s.buf < 2 ^ 31
    → length s.buf + 4 ≤ p.space
    → min_unit ≤ p.space
    → p.next < 2 ^ 32
    → p.reserve1 < 2 ^ 16
    → inner.page_size ≡ p.size
    → 0 < max_buffer_num
    → max_buffer_num < 2 ^ 16
    → (init p.size max_buffer_num
        (put_bytes (p.pageno * p.size) (pushed (stored s.buf p)) m.cache.file)).max_page_num
      < 2 ^ 16
    → (r.pageno == p.pageno) ≡ false
    → length r.block ≡ p.size
    → (offset : ℕ) × (q1 : Page) × (m1 : Manager) × (put garbage key min_unit fuel s (held p m)
        ≡ returned (some offset, held q1 m1))
      × (q2 : Page) × (m2 : Manager) × (get garbage min_unit
            (suc n)
            t
            offset
            (held r (reopened inner max_buffer_num m1))
          ≡ returned (true, record { buf = s.buf; pos = 0 }, held q2 m2))
unfolding get get_found get_page_by_offset
get-reopened-put garbage key min_unit fuel n s t p r m inner nb v last w e small pos few h unit hn
      hr ei nb0 nb1 pages ne el =
    let q = stored s.buf p in
    let vq = stored-IsValid s.buf p v h in
    let at = p.size - p.space in
    let offset = at + p.pageno * p.size in
    let (page, inside) = offset_lem at p.pageno p.size (omega (arith, h, pos, v.space, v.room)) in
    let page' : offset / inner.page_size ≡ p.pageno =
      subst (λ (k : ℕ). offset / k ≡ p.pageno) (sym ei) page in
    let (q2, m2, found, block, number, _, space, size, _) =
      reopened_lem garbage q r m inner nb vq hn hr ei nb0 nb1 pages ne el in
    let v2 : IsValid q2 = record {
      block = ap length block ∙ length-pushed q vq ∙ sym size;
      room = rw size vq.room;
      size = rw size vq.size;
      space = rw (size, number, space) vq.space;
    } in
    let (head, body) = load-stored s.buf p v h in
    (
      offset,
      record q { block = pushed q; modify = false },
      record m {
        cache = record m.cache { file = put_bytes (p.pageno * p.size) (pushed q) m.cache.file };
      },
      put_lem garbage key min_unit fuel s p m v last w e small pos h,
      q2,
      m2,
      rw (page', found)
          (get_on_lem garbage min_unit n (length s.buf - 1) t s.buf offset at q2 m2 v2
            (rw size inside) (omega (arith, pos)) few (omega (arith, unit, v.space, size))
            (omega (arith, h, v.space, size, space, length-put_int (length s.buf)))
            (ap (load at 4) block ∙ head) (ap (load (at + 4) (length s.buf)) block ∙ body)),
    )
