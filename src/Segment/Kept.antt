-- ===== src/Segment/Kept.antt =====
-- jni/KvDB/SMDMetaSegment.cpp, SMDTableSegment.cpp: the stream that a segment puts into its page file
-- is the one that it gets from there when the file is opened again.
use leveldblib.Value.{put_int}
use leveldblib.Value.Codec.{length-put_int}
use leveldblib.Stream
use leveldblib.Prelude.{
  ℕ, suc, ◌+◌, ◌-◌, ◌*◌, ◌%◌, ◌^◌, ◌≤◌, ◌<◌, ◌≡◌, refl, sym, ap, ◌∙◌, true, false, none, some, List,
  false, ltb, ◌==◌, length, replicate, arith, length-replicate,
}
use leveldblib.Memory.{load}
use leveldblib.Page.{Page, no_page, head_size, sub16, get_content_offset}
use leveldblib.Page.Inv.{IsValid}
use leveldblib.Page.Head.{pushed, length-pushed}
use leveldblib.Stream.{MemStream, set_position, size}
use leveldblib.Stream.Format.{at}
use leveldblib.Cache.{init}
use leveldblib.PageTable.{PageKey, PageNo, Inner, find_info, get_first_page_no, get_last_page_no}
use leveldblib.PageManager.{Manager, put_bytes, get_page_by_page_no}
use leveldblib.PageManager.Save.{reopened}
use leveldblib.PageManager.Loading.{reopened_lem}
use leveldblib.PageFile.{returned, State, held, set_to_first_page_file}
use leveldblib.PageFile.Put.{put}
use leveldblib.PageFile.Put.RoundTrip.{get_on_lem}
use leveldblib.PageFile.Put.Store.{stored, stored-IsValid, load-stored, put_lem}
use leveldblib.PageFile.Get.{get_first}
use leveldblib.PageFile.Walk.{clear_page}
use leveldblib.PageFile.Catalogue.{opened, create_page_file, get_page_file}
use leveldblib.PageFile.Catalogue.First.{from_null}
use leveldblib.Segment.{store_into, store, fetch_from, fetch}

-- The page file of a segment is there, and `clearPage` leaves its last page, a valid one whose
-- content is empty, in a file open for writing, at an offset below 2 ^ 31.
pub record Cleared (garbage : ℕ → List ℕ) (fuel : ℕ) (key : PageKey) (m : Manager) (v : PageNo)
    (p : Page) (m1 : Manager) : Type 0 where
  pub entry : find_info key m.inner.page_info ≡ some v
  pub cleared : clear_page garbage key fuel (opened m) ≡ returned (true, held p m1)
  pub valid : IsValid p
  pub last : get_last_page_no key m1.inner ≡ p.pageno
  pub writable : m1.writable ≡ true
  pub size : p.size ≡ m1.inner.page_size
  pub place : p.pageno * p.size < 2 ^ 31
  pub next : p.next < 2 ^ 32
  pub reserve1 : p.reserve1 < 2 ^ 16
  pub empty : get_content_offset p % p.size ≡ p.size - p.space

-- A table of page files with which the file is opened again: pages of that size, of which the file
-- has fewer than 2 ^ 16, the page as the first of the segment's page file, whose smallest unit the
-- page has room for, and a cache of 1 up to 65535 buffers.
pub record Reopens (key : PageKey) (inner : Inner) (max_buffer_num : ℕ) (p : Page) (m1 : Manager)
    (v : PageNo) (bytes : List ℕ) : Type 0 where
  pub page_size : inner.page_size ≡ p.size
  pub entry : find_info key inner.page_info ≡ some v
  pub root : v.root_page_no ≡ p.pageno
  pub unit : v.min_unit ≤ p.space
  pub some_buffer : 0 < max_buffer_num
  pub few_buffers : max_buffer_num < 2 ^ 16
  pub few_pages :
      (init p.size max_buffer_num
        (put_bytes (p.pageno * p.size) (pushed (stored bytes p)) m1.cache.file)).max_page_num
      < 2 ^ 16

-- The manager after the stream is put.
abbrev pub kept_in : List ℕ → Page → Manager → Manager
kept_in bytes p m1 = record m1 {
  cache = record m1.cache {
    file = put_bytes (p.pageno * p.size) (pushed (stored bytes p)) m1.cache.file;
  };
}

pub rewind_lem : (bytes : List ℕ) → set_position 0 (at bytes 0) ≡ (true, at bytes 0)
unfolding set_position size
rewind_lem bytes = let inside : ltb (size (at bytes 0)) 0 ≡ false = ground arith in rw inside refl

create_found :
    (garbage : ℕ → List ℕ) (fuel : ℕ) (key : PageKey) (m : Manager) (v : PageNo)
    → find_info key m.inner.page_info ≡ some v
    → create_page_file garbage fuel key 0 m ≡ returned (some v, m)
unfolding create_page_file get_page_file
create_found garbage fuel key m v h = rw h refl

store_steps :
    (garbage : ℕ → List ℕ) (fuel o : ℕ) (key : PageKey) (s : MemStream) (m : Manager) (v : PageNo)
    (s1 s2 : State)
    → find_info key m.inner.page_info ≡ some v
    → clear_page garbage key fuel (opened m) ≡ returned (true, s1)
    → put garbage key v.min_unit fuel s s1 ≡ returned (some o, s2)
    → store garbage fuel key s m ≡ returned (true, s2.manager)
unfolding store store_into
store_steps garbage fuel o key s m v s1 s2 h c d =
    rw (create_found garbage fuel key m v h, c, d) refl

pub store_lem :
    (garbage : ℕ → List ℕ) (fuel : ℕ) (key : PageKey) (m m1 : Manager) (v : PageNo) (p : Page)
    (s : MemStream)
    → Cleared garbage fuel key m v p m1
    → 0 < length s.buf
    → length s.buf + 4 ≤ p.space
    → store garbage fuel key s m ≡ returned (true, kept_in s.buf p m1)
store_lem garbage fuel key m m1 v p s c some_bytes room =
    store_steps garbage fuel (p.size - p.space + p.pageno * p.size) key s m v (held p m1)
      (held (record (stored s.buf p) { block = pushed (stored s.buf p); modify = false })
        (kept_in s.buf p m1))
      c.entry c.cleared
      (put_lem garbage key v.min_unit fuel s p m1 c.valid c.last c.writable c.size c.place
        some_bytes room)

content_offset_of :
    (p q : Page)
    → q.pageno ≡ p.pageno
    → q.size ≡ p.size
    → get_content_offset q ≡ get_content_offset p
unfolding get_content_offset
content_offset_of p q n s = rw (n, s) refl

fetch_steps :
    (garbage : ℕ → List ℕ) (fuel k : ℕ) (key : PageKey) (m m2 : Manager) (v : PageNo) (q : Page)
    (bytes : List ℕ) (at : ℕ)
    → find_info key m.inner.page_info ≡ some v
    → get_page_by_page_no garbage (get_first_page_no key m.inner) none m ≡ some (true, q, m2)
    → IsValid q
    → get_content_offset q % q.size ≡ at
    → length bytes ≡ suc k
    → length bytes < 2 ^ 31
    → v.min_unit ≤ q.size - at
    → at + 4 + length bytes ≤ q.size - q.space
    → load at 4 q.block ≡ some (put_int (length bytes))
    → load (at + 4) (length bytes) q.block ≡ some bytes
    → fetch garbage (suc fuel) key m ≡ returned (true, record { buf = bytes; pos = 0 }, m2)
unfolding fetch fetch_from get_first set_to_first_page_file get_page_file
fetch_steps garbage fuel k key m m2 v q bytes at f e w a l few unit room head body =
    rw
      (
        f,
        e,
        get_on_lem garbage v.min_unit fuel k (Stream.new 0) bytes (get_content_offset q) at q m2 w a
            l few unit room head body,
      )
      refl

module _ (garbage : ℕ → List ℕ) (fuel n max_buffer_num : ℕ) (key : PageKey) (inner : Inner)
    (m m1 : Manager) (v v' : PageNo) (p : Page) (bytes : List ℕ) where
  -- A stream of 1 up to 2 ^ 31 - 1 bytes that fits that page with its length.
  pub fetch_lem :
      Cleared garbage fuel key m v p m1
      → Reopens key inner max_buffer_num p m1 v' bytes
      → 0 < length bytes
      → length bytes < 2 ^ 31
      → length bytes + 4 ≤ p.space
      → (m2 : Manager) × (fetch garbage
            (suc n)
            key
            (reopened inner max_buffer_num (kept_in bytes p m1))
          ≡ returned (true, record { buf = bytes; pos = 0 }, m2))
  unfolding get_first_page_no
  fetch_lem c r some_bytes few room =
      let q0 = stored bytes p in
      let v0 = stored-IsValid bytes p c.valid room in
      let blank : Page = record {
        modify = true;
        size = inner.page_size;
        pageno = no_page;
        block = replicate inner.page_size 0;
        space = sub16 inner.page_size head_size;
        reserve1 = 0;
        reserve2 = 0;
        next = no_page;
      } in
      let again = reopened inner max_buffer_num (kept_in bytes p m1) in
      let low : p.pageno < 2 ^ 31 = below p.pageno p.size c.place c.valid.room in
      let other : (no_page == p.pageno) ≡ false = ground (arith, low) in
      let (q, m2, found, block, number, _, space, size, kept) =
        reopened_lem garbage q0 blank m1 inner max_buffer_num v0 c.next c.reserve1 r.page_size
          r.some_buffer r.few_buffers r.few_pages other
          (length-replicate {A = ℕ} inner.page_size 0 ∙ r.page_size) in
      let first : get_first_page_no key inner ≡ p.pageno = rw r.entry r.root in
      let found0 : get_page_by_page_no garbage (get_first_page_no key inner) none again
          ≡ some (true, q, m2) =
        ap (λ (k : ℕ). get_page_by_page_no garbage k none again) first
        ∙ from_null garbage p.pageno again
        ∙ found in
      let vq : IsValid q = record {
        block = ap (λ (xs : List ℕ). length xs) block ∙ length-pushed q0 v0 ∙ sym size;
        room = rw size v0.room;
        size = rw size v0.size;
        space = rw (size, number, space) v0.space;
      } in
      let at = p.size - p.space in
      let place : get_content_offset q % q.size ≡ at =
        rw (content_offset_of p q number size, size) c.empty in
      let (head, body) = load-stored bytes p c.valid room in
      (
        m2,
        fetch_steps garbage n (length bytes - 1) key again m2 v' q bytes at r.entry found0 vq place
            (omega (arith, some_bytes)) few (omega (arith, r.unit, size, c.valid.space))
            (omega (arith, room, size, space, length-put_int (length bytes), c.valid.space))
            (ap (load at 4) block ∙ head) (ap (load (at + 4) (length bytes)) block ∙ body),
      )
    where
      below : (a b : ℕ) → a * b < 2 ^ 31 → 28 ≤ b → a < 2 ^ 31
      below a b h g = grind arith
