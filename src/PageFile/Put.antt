-- ===== src/PageFile/Put.antt =====
-- `put` of jni/KvDB/SMDPageFile.cpp: a stream behind what a page file holds, or at an offset. The
-- streams are shorter than 2 ^ 31 bytes.
pub mod Store
pub mod RoundTrip
pub mod Progress
pub mod Growing
pub mod Turns
use leveldblib.Prelude.{
  ℕ, zero, suc, ◌+◌, Bool, true, false, Option, none, some, List, [], ◌∷◌, length, take, drop, ltb,
  leb, ◌==◌, min, if◌then◌else◌,
}
use leveldblib.Value.{put_int}
use leveldblib.Page.{
  Page, u16, write, write_at, get_content_offset, get_space_offset, get_file_offset,
  get_offset_to_end_size,
}
use leveldblib.Stream.{MemStream}
use leveldblib.PageTable.{PageKey, get_last_page_no}
use leveldblib.PageManager.{Manager, get_page_by_page_no, get_page_by_offset}
use leveldblib.PageFile.{Run, returned, endless, lift, ◌>>=◌, State, held, save, next_page}

-- What is left to write, whether the length is written, and the offset to return.
pub record Writing : Type 0 where
  pub started : Bool
  pub offset : ℕ
  pub page : Page
  pub manager : Manager

-- The length, at the end of what is on the page.
unfoldable pub start : ℕ → ℕ → Writing → Run Writing
unfolding write
start size offset w =
    if w.started
    then returned w
    else (lift (write (put_int size) w.page) >>= λ r.
        returned (record w { started = true; offset = offset; page = r.1 }))

module _ (garbage : ℕ → List ℕ) where
  -- One turn of the loop of `put`, with `size` bytes in all and `left` to write.
  unfoldable pub put_skip : ℕ → List ℕ → Writing → Run (List ℕ × Writing)
  unfolding next_page start
  put_skip size left w = do
    (p1, m1) ← save w.page w.manager
    (p2, m2) ← next_page garbage p1 m1
    w2 ← start size (get_content_offset p2) (record w { page = p2; manager = m2 })
    returned (left, w2)

  unfoldable pub put_more : List ℕ → Writing → Run (List ℕ × Writing)
  unfolding next_page
  put_more [] w = returned ([], w)
  put_more (b ∷ bs) w = do
    (p1, m1) ← save w.page w.manager
    (p2, m2) ← next_page garbage p1 m1
    returned (b ∷ bs, record w { page = p2; manager = m2 })

  unfoldable pub put_fill : ℕ → List ℕ → Writing → Run (List ℕ × Writing)
  unfolding put_more start write
  put_fill size left w = do
    w1 ← start size (get_space_offset w.page + get_file_offset w.page) w
    let n = min w1.page.space (length left)
    r ← lift (write (take n left) w1.page)
    put_more (drop n left) (record w1 { page = r.1 })

  unfoldable pub put_turn : ℕ → ℕ → List ℕ → Writing → Run (List ℕ × Writing)
  unfolding put_skip put_fill
  put_turn min_unit size left w =
      if ltb w.page.space min_unit then put_skip size left w else put_fill size left w

  unfoldable pub put_loop : ℕ → ℕ → ℕ → List ℕ → Writing → Run Writing
  unfolding put_turn
  put_loop min_unit size fuel [] w = returned w
  put_loop min_unit size zero (b ∷ bs) w = endless
  put_loop min_unit size (suc fuel) (b ∷ bs) w = do
    (left, w1) ← put_turn min_unit size (b ∷ bs) w
    put_loop min_unit size fuel left w1

  -- `put(stream)` on the page of the last number: a stream that fits it, or one in pieces.
  unfoldable pub put_whole : List ℕ → Writing → Run Writing
  unfolding start write get_space_offset get_file_offset
  put_whole bytes w = do
    w1 ← start (length bytes) (get_space_offset w.page + get_file_offset w.page) w
    r ← lift (write bytes w1.page)
    returned (record w1 { page = r.1 })

  unfoldable pub put_bytes : ℕ → ℕ → List ℕ → Page → Manager → Run (Option ℕ × State)
  unfolding put_loop put_whole
  put_bytes min_unit fuel bytes p m = do
    let size = length bytes
    let w : Writing = record { started = false; offset = 0; page = p; manager = m }
    w1 ← (if leb (size + 4) p.space then put_whole bytes w else put_loop min_unit size fuel bytes w)
    (q, m1) ← save w1.page w1.manager
    returned (some w1.offset, held q m1)

  unfoldable pub put_found : ℕ → ℕ → List ℕ → Bool × Page × Manager → Run (Option ℕ × State)
  unfolding put_bytes
  put_found min_unit fuel bytes (true, p, m) = put_bytes min_unit fuel bytes p m
  put_found min_unit fuel bytes (false, p, m) = returned (none, held p m)

  -- `put(stream)`: the offset, `none` for -1.
  unfoldable pub put : PageKey → ℕ → ℕ → MemStream → State → Run (Option ℕ × State)
  unfolding put_found get_page_by_page_no get_last_page_no
  put key min_unit fuel stream s =
      let found =
        get_page_by_page_no garbage (get_last_page_no key s.manager.inner) s.page s.manager in
      if length stream.buf == 0
      then returned (none, s)
      else (lift found >>= put_found min_unit fuel stream.buf)

  -- One turn of the loop of `put(stream, offset)`; the offset of `write` is an `unsigned short`.
  unfoldable pub put_at_more : List ℕ → Writing → Run (List ℕ × Writing)
  unfolding next_page get_content_offset
  put_at_more [] w = returned ([], w)
  put_at_more (b ∷ bs) w = do
    (p1, m1) ← save w.page w.manager
    (p2, m2) ← next_page garbage p1 m1
    returned (b ∷ bs, record w { offset = get_content_offset p2; page = p2; manager = m2 })

  unfoldable pub put_at_turn : ℕ → List ℕ → Writing → Run (List ℕ × Writing)
  unfolding write_at next_page get_offset_to_end_size get_content_offset
  put_at_turn size left w = do
    (at, p1) ←
        (if w.started
          then returned (w.offset, w.page)
          else (lift (write_at (put_int size) (u16 w.offset) w.page) >>= λ r.
              returned (w.offset + 4, r.1)))
    let n = min (get_offset_to_end_size at p1) (length left)
    r ← lift (write_at (take n left) (u16 at) p1)
    put_at_more (drop n left)
        (record { started = true; offset = at; page = r.1; manager = w.manager })

  unfoldable pub put_at_loop : ℕ → ℕ → List ℕ → Writing → Run Writing
  unfolding put_at_turn
  put_at_loop size fuel [] w = returned w
  put_at_loop size zero (b ∷ bs) w = endless
  put_at_loop size (suc fuel) (b ∷ bs) w = do
    (left, w1) ← put_at_turn size (b ∷ bs) w
    put_at_loop size fuel left w1

  -- `put(stream, offset)`: the offset, `none` for -1.
  unfoldable pub put_at_found : ℕ → List ℕ → ℕ → Bool × Page × Manager → Run (Option ℕ × State)
  unfolding put_at_loop
  put_at_found fuel bytes offset (false, p, m) = returned (none, held p m)
  put_at_found fuel bytes offset (true, p, m) = do
    let w : Writing = record { started = false; offset = offset; page = p; manager = m }
    w1 ← put_at_loop (length bytes) fuel bytes w
    (q, m1) ← save w1.page w1.manager
    returned (some offset, held q m1)

  unfoldable pub put_at : ℕ → MemStream → ℕ → State → Run (Option ℕ × State)
  unfolding put_at_found get_page_by_offset
  put_at fuel stream offset s =
      let found = get_page_by_offset garbage offset s.page s.manager in
      if length stream.buf == 0
      then returned (none, s)
      else (lift found >>= put_at_found fuel stream.buf offset)
