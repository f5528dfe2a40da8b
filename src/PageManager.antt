-- ===== src/PageManager.antt =====
-- Loading, saving and chaining pages in jni/KvDB/SMDPageManagement.cpp, over the page object of
-- Page, the cache of Cache and the page table of PageTable. The file is the one that the cache has
-- open; it begins at its own offset 0, and `fwrite` behind its end fills the gap with 0. `none` is an
-- access that C++ leaves undefined.
pub mod Save
pub mod Loading
pub mod Reopen
pub mod Chain
mod Tests
use leveldblib.Prelude.{
  ℕ, ◌+◌, ◌-◌, ◌^◌, Bool, true, false, Option, none, some, List, ◌++◌, length, take, drop,
  replicate, leb, ◌==◌, ◌/◌, if◌then◌else◌,
}
use leveldblib.Memory.{load, store}
use leveldblib.Page.{
  Page, no_page, u32, new, reset, pop, push, set_modify, set_next_page_no, get_file_offset, ◌>>=◌,
}
use leveldblib.Cache.{DevCache, get_page_by_no}
use leveldblib.PageTable.{Inner, inc_last_page_no}

-- `SMDPageManagement`; `writable` is whether the file was opened for writing.
pub record Manager : Type 0 where
  pub inner : Inner
  pub cache : DevCache
  pub writable : Bool

-- `fseek` and `fwrite`
unfoldable pub put_bytes : ℕ → List ℕ → List ℕ → List ℕ
put_bytes at bytes file =
    let padded = file ++ replicate (at - length file) 0 in
    take at padded ++ (bytes ++ drop (at + length bytes) padded)

-- `SMDTable::save`
unfoldable pub save_bytes : List ℕ → ℕ → Manager → Bool × Manager
unfolding put_bytes
save_bytes bytes offset m =
    if m.writable
    then (true, record m { cache = record m.cache { file = put_bytes offset bytes m.cache.file } })
    else (false, m)

-- `savePageToFile`: the `bool`, the page and the state.
abbrev pub saved : Page → Bool × Manager → Bool × Page × Manager
saved p (ok, m) = (ok, (if ok then set_modify false p else p), m)

unfoldable pub save_page_to_file : Page → Manager → Option (Bool × Page × Manager)
unfolding save_bytes push load set_modify
save_page_to_file p m =
    if p.modify
    then (push p >>= λ q. load 0 m.inner.page_size q.block >>= λ bytes.
        some (saved q (save_bytes bytes (get_file_offset q) m)))
    else some (true, p, m)

module _ (garbage : ℕ → List ℕ) where
  -- `memcpy` from the cache's buffer, and `pop`; NULL is a failure.
  unfoldable pub fill_page : Page → Manager → Option (List ℕ) → Option (Bool × Page × Manager)
  unfolding pop load store
  fill_page p m none = some (false, p, m)
  fill_page p m (some buffer) = load 0 m.inner.page_size buffer >>= λ bytes.
      store 0 bytes p.block >>= λ b. pop (record p { block = b }) >>= λ q. some (true, q, m)

  -- The cache takes the page number as an `int`, which it does not check from below.
  unfoldable pub load_page : ℕ → Page → Manager → Option (Bool × Page × Manager)
  unfolding fill_page reset get_page_by_no
  load_page page_no p m =
      if p.pageno == page_no
      then some (true, p, m)
      else (reset m.inner.page_size page_no p >>= λ q.
          (if leb (2 ^ 31) page_no then none else get_page_by_no garbage page_no m.cache) >>= λ r.
          fill_page q (record m { cache = r.1 }) r.0)

  -- `getPageByPageNo`; the page pointer may be NULL.
  unfoldable pub get_page_by_page_no : ℕ → Option Page → Manager → Option (Bool × Page × Manager)
  unfolding load_page new
  get_page_by_page_no page_no none m = new m.inner.page_size no_page >>= λ p. load_page page_no p m
  get_page_by_page_no page_no (some p) m = load_page page_no p m

  -- `getPageByOffset`; the page size is not 0.
  unfoldable pub get_page_by_offset : ℕ → Option Page → Manager → Option (Bool × Page × Manager)
  unfolding get_page_by_page_no
  get_page_by_offset offset p m = get_page_by_page_no (offset / m.inner.page_size) p m

  -- The new page behind a last one.
  unfoldable pub append_page : Page → Manager → Option (Bool × Page × Manager)
  unfolding save_page_to_file set_next_page_no reset
  append_page p m =
      let cnt = u32 (m.inner.page_cnt + 1) in
      let m1 = record m { inner = record m.inner { page_cnt = cnt } } in
      save_page_to_file (set_next_page_no cnt p) m1 >>= λ r.
      let (ok, q, m2) = r in
      let m3 = record m2 {
        inner = record m2.inner { page_info = inc_last_page_no q.pageno cnt m2.inner.page_info };
      } in
      if ok
      then (reset m.inner.page_size cnt q >>= λ n. save_page_to_file n m3)
      else some (false, q, m2)

  -- `getNextPage`
  unfoldable pub next_of : Bool × Page × Manager → Option (Bool × Page × Manager)
  unfolding load_page append_page
  next_of (ok, p, m) =
      let linked = load_page p.next p m in
      let appended = append_page p m in
      if ok then (if p.next == no_page then appended else linked) else some (false, p, m)

  unfoldable pub get_next_page : ℕ → Option Page → Manager → Option (Bool × Page × Manager)
  unfolding get_page_by_page_no next_of
  get_next_page page_no p m = get_page_by_page_no page_no p m >>= next_of
