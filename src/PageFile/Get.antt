-- ===== src/PageFile/Get.antt =====
-- `get` of jni/KvDB/SMDPageFile.cpp: the stream at an offset of a page file. A page's block is as
-- long as its size, so the place behind a length that is read is inside the page.
use leveldblib.Prelude.{
  ℕ, zero, suc, ◌+◌, ◌-◌, ◌%◌, ◌^◌, Bool, true, false, List, ltb, ◌==◌, min, if◌then◌else◌,
}
use leveldblib.Value.{get_int}
use leveldblib.Memory.{store}
use leveldblib.Page.{Page, read, get_content_offset}
use leveldblib.Stream.{MemStream, resize}
use leveldblib.PageTable.{PageKey}
use leveldblib.PageManager.{Manager, get_page_by_offset}
use leveldblib.PageFile.{
  Run, returned, undefined, thrown, endless, lift, ◌>>=◌, State, held, next_page,
  set_to_first_page_file,
}

-- The place to read from, what has been read, and the bytes so far.
pub record Reading : Type 0 where
  pub offset : ℕ
  pub at : ℕ
  pub bytes : List ℕ
  pub page : Page
  pub manager : Manager

module _ (garbage : ℕ → List ℕ) where
  -- One turn of the loop of `get`, with `left` bytes to read.
  unfoldable pub get_more : ℕ → Reading → Run (ℕ × Reading)
  unfolding next_page get_content_offset
  get_more zero r = returned (zero, r)
  get_more (suc n) r = do
    (p, m) ← next_page garbage r.page r.manager
    returned (suc n, record r { offset = get_content_offset p % p.size; page = p; manager = m })

  -- Behind the end of the page the length of the piece is negative and the count of the bytes goes
  -- below 0: the next piece goes before the buffer.
  unfoldable pub get_turn : ℕ → Reading → Run (ℕ × Reading)
  unfolding get_more read store
  get_turn left r = do
    let n = min (r.page.size - r.offset) left
    (got, piece) ← (if ltb r.page.size r.offset then undefined else lift (read r.offset n r.page))
    bytes ← lift (store r.at piece r.bytes)
    get_more (left - n) (record r { at = r.at + n; bytes = bytes })

  unfoldable pub get_loop : ℕ → ℕ → Reading → Run Reading
  unfolding get_turn
  get_loop fuel zero r = returned r
  get_loop zero (suc n) r = endless
  get_loop (suc fuel) (suc n) r = do (left, r1) ← get_turn (suc n) r; get_loop fuel left r1

  -- The length and the bytes at an offset in the page; a length of which `read` leaves a byte out is
  -- not initialised.
  unfoldable pub get_content : ℕ → MemStream → ℕ → Page → Manager → Run (Bool × MemStream × State)
  unfolding get_loop read resize
  get_content fuel stream offset p m = do
    (got, piece) ← lift (read offset 4 p)
    let size = get_int piece
    let t = resize size stream
    let r : Reading = record { offset = offset + 4; at = 0; bytes = t.buf; page = p; manager = m }
    r1 ←
        (if got == 4
          then (if ltb size (2 ^ 31) then get_loop fuel size r else thrown)
          else undefined)
    returned (true, record t { buf = r1.bytes }, held r1.page r1.manager)

  -- `get(stream, offset)`, behind the search for the page.
  unfoldable pub get_on : ℕ → ℕ → MemStream → ℕ → Page → Manager → Run (Bool × MemStream × State)
  unfolding get_content next_page get_content_offset
  get_on min_unit fuel stream offset p m =
      let at = offset % p.size in
      let beyond = next_page garbage p m >>= λ (q, m1).
      get_content fuel stream (get_content_offset q % q.size) q m1 in
      let here = get_content fuel stream at p m in
      if ltb (p.size - at) min_unit then beyond else here

  -- `get` with the negative offset is `get_first`.
  unfoldable pub get_first : PageKey → ℕ → ℕ → MemStream → State → Run (Bool × MemStream × State)
  unfolding set_to_first_page_file get_on get_content_offset
  get_first key min_unit fuel stream s = do
    r ← set_to_first_page_file garbage key s
    p ← lift r.1.page
    get_on min_unit fuel stream (get_content_offset p) p r.1.manager

  unfoldable pub get_found :
      ℕ → ℕ → MemStream → ℕ → Bool × Page × Manager → Run (Bool × MemStream × State)
  unfolding get_on
  get_found min_unit fuel stream offset (false, p, m) = returned (false, stream, held p m)
  get_found min_unit fuel stream offset (true, p, m) = get_on min_unit fuel stream offset p m

  unfoldable pub get : ℕ → ℕ → MemStream → ℕ → State → Run (Bool × MemStream × State)
  unfolding get_found get_page_by_offset
  get min_unit fuel stream offset s = do
    found ← lift (get_page_by_offset garbage offset s.page s.manager)
    get_found min_unit fuel stream offset found
