-- ===== src/PageFile/Catalogue/First.antt =====
-- jni/KvDB/SMDPageManagement.cpp: the first stream of a page file, as `getInnerInfoFromFile` reads it
-- when a file is opened again.
use native.Mathlib.Nat.{mod-eq_of_lt}
use leveldblib.Value.{put_int}
use leveldblib.Value.Codec.{length-put_int}
use leveldblib.Stream
use leveldblib.Prelude.{
  ℕ, suc, ◌+◌, ◌-◌, ◌*◌, ◌%◌, ◌^◌, ◌≤◌, ◌<◌, ◌≡◌, refl, sym, ap, subst, ◌∙◌, true, false, none,
  some, List, ◌==◌, length, arith, length-replicate,
}
use leveldblib.Memory.{load}
use leveldblib.Page.{
  Page, no_page, flag_length, head_size, u32, check_first_page, new, get_content_offset,
}
use leveldblib.Page.Inv.{blank, IsValid}
use leveldblib.Page.Head.{pushed, length-pushed}
use leveldblib.Stream.{MemStream, done}
use leveldblib.Cache.{init}
use leveldblib.PageTable.{PageKey, PageNo, Inner, manager_key, get_first_page_no}
use leveldblib.PageTable.Load.{load_inner}
use leveldblib.PageManager.{Manager, put_bytes, get_page_by_page_no}
use leveldblib.PageManager.Save.{reopened}
use leveldblib.PageManager.Loading.{reopened_lem}
use leveldblib.PageFile.{returned, held, set_to_first_page_file}
use leveldblib.PageFile.Put.RoundTrip.{get_on_lem}
use leveldblib.PageFile.Put.Store.{stored, stored-IsValid, load-stored}
use leveldblib.PageFile.Get.{get_first}
use leveldblib.PageFile.Catalogue.{opened, load_info}

-- The steps of `getInnerInfoFromFile`.
pub load_steps :
    (garbage : ℕ → List ℕ) (fuel : ℕ) (m m2 : Manager) (v : PageNo) (t rest : MemStream) (q : Page)
    (inner : Inner)
    → get_first garbage manager_key v.min_unit fuel (Stream.new 0) (opened m)
      ≡ returned (true, t, held q m2)
    → load_inner m2.inner t ≡ (done (true, inner), rest)
    → load_info garbage fuel (some v) m ≡ returned (true, record m2 { inner = inner })
unfolding load_info
load_steps garbage fuel m m2 v t rest q inner e l = rw (e, l) refl

-- The first stream of a page file whose first page is found.
get_first_lem :
    (garbage : ℕ → List ℕ) (key : PageKey) (fuel j at : ℕ) (m m2 : Manager) (q : Page)
    (t : MemStream) (bytes : List ℕ)
    → get_page_by_page_no garbage (get_first_page_no key m.inner) none m ≡ some (true, q, m2)
    → IsValid q
    → get_content_offset q % q.size ≡ at
    → length bytes ≡ suc j
    → length bytes < 2 ^ 31
    → at + 4 + length bytes ≤ q.size - q.space
    → load at 4 q.block ≡ some (put_int (length bytes))
    → load (at + 4) (length bytes) q.block ≡ some bytes
    → get_first garbage key 0 (suc fuel) t (opened m)
      ≡ returned (true, record { buf = bytes; pos = 0 }, held q m2)
unfolding get_first set_to_first_page_file
get_first_lem garbage key fuel j at m m2 q t bytes e v a l few room head body = rw e (
    get_on_lem garbage 0 fuel j t bytes (get_content_offset q) at q m2 v a l few (omega arith) room
      head body)

-- A page object that does not exist yet is that of no page.
pub from_null :
    (garbage : ℕ → List ℕ) (k : ℕ) (m : Manager)
    → get_page_by_page_no garbage k none m
      ≡ get_page_by_page_no garbage k (some (blank m.inner.page_size m.inner.page_size no_page)) m
unfolding get_page_by_page_no new check_first_page
from_null garbage k m = refl

-- The content of page 0 behind its header.
first_offset : (q : Page) → q.pageno ≡ 0 → 28 < q.size → get_content_offset q % q.size ≡ 28
unfolding get_content_offset
first_offset q z h =
    let t : (q.pageno == 0) ≡ true = ground (arith, z) in
    let off : u32 (q.pageno * q.size + head_size + flag_length) ≡ 28 = rw z (omega arith) in
    rw (t, off) (mod-eq_of_lt h)

module _ (garbage : ℕ → List ℕ) (fuel max_buffer_num : ℕ) (m : Manager) (inner : Inner) (p : Page)
    (bytes : List ℕ) where
  -- The stream that a page 0 keeps behind its header, in a file that is opened again.
  pub first_stream_lem :
      (t : MemStream)
      → IsValid p
      → p.pageno ≡ 0
      → p.next < 2 ^ 32
      → p.reserve1 < 2 ^ 16
      → p.size - p.space ≡ 28
      → length bytes < 2 ^ 31
      → 0 < length bytes
      → length bytes + 4 ≤ p.space
      → inner.page_size ≡ p.size
      → get_first_page_no manager_key inner ≡ 0
      → 0 < max_buffer_num
      → max_buffer_num < 2 ^ 16
      → let file = put_bytes (p.pageno * p.size) (pushed (stored bytes p)) m.cache.file in
        (init p.size max_buffer_num file).max_page_num < 2 ^ 16
        → (q : Page) × (m2 : Manager) × (get_first garbage manager_key 0 (suc fuel) t (
              opened (
                reopened inner max_buffer_num
                  (record m { cache = record m.cache { file = file } })))
            ≡ returned (true, record { buf = bytes; pos = 0 }, held q m2))
          × (m2.inner ≡ inner)
  first_stream_lem t v z hn hr at few some_bytes room ei root nb0 nb1 pages =
      let q0 = stored bytes p in
      let v0 = stored-IsValid bytes p v room in
      let file = put_bytes (p.pageno * p.size) (pushed q0) m.cache.file in
      let opened_again =
        reopened inner max_buffer_num (record m { cache = record m.cache { file = file } }) in
      let other : (no_page == p.pageno) ≡ false = ground (arith, z) in
      let (q, m2, found, block, number, _, space, size, kept) =
        reopened_lem garbage q0 (blank inner.page_size inner.page_size no_page) m inner
          max_buffer_num v0 hn hr ei nb0 nb1 pages other
          (length-replicate {A = ℕ} inner.page_size 0 ∙ ei) in
      let found0 : get_page_by_page_no garbage (get_first_page_no manager_key inner) none
            opened_again
          ≡ some (true, q, m2) =
        ap (λ (k : ℕ). get_page_by_page_no garbage k none opened_again) (root ∙ sym z)
        ∙ from_null garbage p.pageno opened_again
        ∙ found in
      let vq : IsValid q = record {
        block = ap (λ (xs : List ℕ). length xs) block ∙ length-pushed q0 v0 ∙ sym size;
        room = rw size v0.room;
        size = rw size v0.size;
        space = rw (size, number, space) v0.space;
      } in
      let (head, body) = load-stored bytes p v room in
      let n = length-put_int (length bytes) in
      let big : 28 < q.size = omega (arith, size, at, room, some_bytes, v.space) in
      (
        q,
        m2,
        get_first_lem garbage manager_key fuel (length bytes - 1) 28 opened_again m2 q t bytes
            found0 vq (first_offset q (number ∙ z) big) (omega (arith, some_bytes)) few
            (omega (arith, room, size, space, n, at, v.space))
            (ap (load 28 4) block
              ∙ subst (λ (k : ℕ). load k 4 (pushed q0) ≡ some (put_int (length bytes))) at head)
            (ap (load (28 + 4) (length bytes)) block
              ∙ subst (λ (k : ℕ). load (k + 4) (length bytes) (pushed q0) ≡ some bytes) at body),
        kept,
      )
