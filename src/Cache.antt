-- ===== src/Cache.antt =====
-- The page cache of jni/KvDB/dev_buffer.h and dev_buffer.cpp over an open file. `none` is an access
-- that C++ leaves undefined: an index outside an array, or a NULL pointer dereferenced. An array is
-- its length and a function. The ring of queue nodes is the list of their buffer numbers from
-- `_poHead` on, and a node that is moved is its number. The page size is not 0, and the offsets of
-- `fseek` fit an `int`.
pub mod Coherent
pub mod Serve
pub mod Requests
mod Tests
use leveldblib.Prelude.{
  ℕ, zero, suc, ◌+◌, ◌*◌, ◌/◌, ◌%◌, ◌^◌, Option, none, some, List, [], ◌∷◌, ◌++◌, ltb, leb, ◌==◌,
  if◌then◌else◌, length, take, drop,
}
use leveldblib.Page.{◌>>=◌}

-- `BUFFER_NULL` and `NO_PAGE`
abbrev pub buffer_null : ℕ
buffer_null = 0xffff

abbrev pub no_page : ℕ
no_page = 0xffff

abbrev pub update {ℓ} : {E : Type ℓ} (entries : ℕ → E) (at : ℕ) (entry : E) → ℕ → E
update entries at entry i = if i == at then entry else entries i

-- `CPageMap`, after its `init`
pub record PageMap : Type 0 where
  pub max_page_num : ℕ
  pub pages : ℕ → ℕ

-- `init`; its parameter is an `unsigned short`.
unfoldable pub init_page_map : ℕ → PageMap
init_page_map max_page_num = record {
  max_page_num = max_page_num % 2 ^ 16;
  pages = λ i. buffer_null;
}

unfoldable pub get_buffer_no : ℕ → PageMap → Option ℕ
get_buffer_no page_no m = if ltb page_no m.max_page_num then some (m.pages page_no) else none

unfoldable pub add_page_map : ℕ → ℕ → PageMap → PageMap
add_page_map page_no buffer_no m =
    if leb m.max_page_num page_no then m else record m { pages = update m.pages page_no buffer_no }

unfoldable pub del_page_map : ℕ → PageMap → PageMap
del_page_map page_no m =
    if leb m.max_page_num page_no
    then m
    else record m { pages = update m.pages page_no buffer_null }

-- `CPriorityQue`: the ring, and `nPageNo` of the buffers.
pub record PriorityQue : Type 0 where
  pub elem_num : ℕ
  pub ring : List ℕ
  pub page_nos : ℕ → ℕ

-- The loop of `init`: each new node becomes the head.
unfoldable pub ring_of : ℕ → List ℕ
ring_of zero = []
ring_of (suc n) = n ∷ ring_of n

unfoldable pub init_priority_que : ℕ → PriorityQue
unfolding ring_of
init_priority_que n = record { elem_num = n; ring = ring_of n; page_nos = λ i. no_page }

unfoldable pub without : ℕ → List ℕ → List ℕ
without b [] = []
without b (x ∷ xs) = let rest = without b xs in if x == b then rest else x ∷ rest

-- `updatePriority`: the node of the buffer becomes the head.
unfoldable pub update_priority : ℕ → PriorityQue → Option PriorityQue
unfolding without
update_priority b q =
    if ltb b q.elem_num then some (record q { ring = b ∷ without b q.ring }) else none

-- The ring turned by one, so that its last node is the head.
unfoldable pub turn : ℕ → List ℕ → ℕ × List ℕ
turn x [] = (x, [])
turn x (y ∷ ys) = let (last, front) = turn y ys in (last, x ∷ front)

-- `getLazyBufNoAndSwapPage`: the page that goes, the buffer, and the queue.
unfoldable pub get_lazy_buf_no_and_swap_page : ℕ → PriorityQue → Option ((ℕ × ℕ) × PriorityQue)
unfolding turn
get_lazy_buf_no_and_swap_page page_no q = elim q.ring [
  | [] ↦ none
  | x ∷ xs ↦
      let (b, front) = turn x xs in
      some
        ((q.page_nos b, b), record q { ring = b ∷ front; page_nos = update q.page_nos b page_no })
]

-- `CDevCache`, with the bytes of its file.
pub record DevCache : Type 0 where
  pub page_size : ℕ
  pub max_page_num : ℕ
  pub max_buffer_num : ℕ
  pub priority_que : PriorityQue
  pub page_map : PageMap
  pub buffers : ℕ → Option (List ℕ)
  pub file : List ℕ

-- `init`. A page that is not whole counts.
unfoldable pub init : ℕ → ℕ → List ℕ → DevCache
unfolding init_page_map init_priority_que
init page_size max_buffer_num file =
    let file_size = length file in
    let page_num =
      if file_size % page_size == 0 then file_size / page_size else file_size / page_size + 1 in
    record {
      page_size = page_size;
      max_page_num = page_num;
      max_buffer_num = max_buffer_num;
      priority_que = init_priority_que max_buffer_num;
      page_map = init_page_map page_num;
      buffers = λ i. none;
      file = file;
    }

-- `new CPage`: `garbage` is what the memory of a buffer holds before it is written.
module _ (garbage : ℕ → List ℕ) where
  unfoldable pub page_of : ℕ → Option (List ℕ) → List ℕ
  page_of b none = garbage b
  page_of b (some page) = page

  -- `downloadPage`: `fread` leaves the rest of the buffer where the file ends.
  unfoldable pub download_page : ℕ → ℕ → DevCache → DevCache
  unfolding page_of
  download_page b page_no c =
      let bytes = take c.page_size (drop (page_no * c.page_size) c.file) in
      let page = bytes ++ drop (length bytes) (page_of b (c.buffers b)) in
      record c { buffers = update c.buffers b (some page) }

  -- `return _ppBuffer[nBufNo]->getPage()`
  abbrev pub get_page : ℕ → DevCache → Option (Option (List ℕ) × DevCache)
  get_page b c = c.buffers b >>= λ page. some (some page, c)

  -- `getPageByNo`: the page or NULL.
  unfoldable pub get_page_by_no : ℕ → DevCache → Option (Option (List ℕ) × DevCache)
  unfolding get_buffer_no update_priority get_lazy_buf_no_and_swap_page add_page_map del_page_map
      download_page
  get_page_by_no page_no c =
      let hit = λ (b : ℕ).
        update_priority b c.priority_que >>= λ q. get_page b (record c { priority_que = q }) in
      let miss = get_lazy_buf_no_and_swap_page (page_no % 2 ^ 16) c.priority_que >>= λ r.
      let ((lazy, b), q) = r in
      let m = add_page_map (page_no % 2 ^ 16) b c.page_map in
      let m' = if lazy == no_page then m else del_page_map lazy m in
      get_page b (download_page b page_no (record c { priority_que = q; page_map = m' })) in
      if leb c.max_page_num page_no
      then some (none, c)
      else get_buffer_no page_no c.page_map >>= λ b. if b == buffer_null then miss else hit b
