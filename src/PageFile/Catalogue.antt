-- ===== src/PageFile/Catalogue.antt =====
-- The page files of a manager in jni/KvDB/SMDPageManagement.cpp: the table of them, which is kept in
-- a page file of its own, and creating one.
pub mod Reload
pub mod First
pub mod Saving
use leveldblib.Prelude.{ℕ, ◌+◌, Bool, true, false, Option, none, some, List, ltb, if◌then◌else◌}
use leveldblib.Page.{u32, new}
use leveldblib.Stream.{MemStream, Outcome, done, failed, thrown}
use leveldblib.Stream
use leveldblib.PageTable.{
  PageKey, PageNo, Inner, manager_key, initial, find_info, assign_info, save_inner,
}
use leveldblib.PageTable.Load.{load_inner}
use leveldblib.PageManager.{Manager, save_page_to_file}
use leveldblib.PageFile
use leveldblib.PageFile.{Run, returned, lift, ◌>>=◌, State}
use leveldblib.PageFile.Put.{put}
use leveldblib.PageFile.Get.{get_first}
use leveldblib.PageFile.Walk.{clear_page}

-- `getPageFile`: what the new object holds of the table; NULL is `none`.
unfoldable pub get_page_file : PageKey → Manager → Option PageNo
unfolding find_info
get_page_file key m = find_info key m.inner.page_info

-- A page file that has just been made.
abbrev pub opened : Manager → State
opened m = record { page = none; manager = m }

abbrev pub loaded : Manager → Outcome (Bool × Inner) × MemStream → Run (Bool × Manager)
loaded m (done (ok, inner), t) = returned (ok, record m { inner = inner })
loaded m (failed, t) = returned (false, m)
loaded m (thrown, t) = PageFile.thrown

module _ (garbage : ℕ → List ℕ) (fuel : ℕ) where
  unfoldable pub load_info : Option PageNo → Manager → Run (Bool × Manager)
  unfolding get_first load_inner Stream.new
  load_info none m = returned (false, m)
  load_info (some v) m = do
    (ok, stream, s) ← get_first garbage manager_key v.min_unit fuel (Stream.new 0) (opened m)
    if ok then loaded s.manager (load_inner s.manager.inner stream) else returned (false, s.manager)

  -- `getInnerInfoFromFile`
  unfoldable pub get_inner_info_from_file : Bool → Manager → Run (Bool × Manager)
  unfolding load_info get_page_file initial
  get_inner_info_from_file exists m =
      let m1 = record m {
        inner = record m.inner { page_info = (initial m.inner.page_size).page_info };
      } in
      let run = load_info (get_page_file manager_key m1) m1 in
      if exists then run else returned (true, m1)

  unfoldable pub store_info : Bool × MemStream → ℕ → Manager → Run (Bool × Manager)
  unfolding clear_page put
  store_info (false, stream) min_unit m = returned (false, m)
  store_info (true, stream) min_unit m = do
    (cleared, s) ← clear_page garbage manager_key fuel (opened m)
    (offset, t) ← put garbage manager_key min_unit fuel stream s
    returned (true, t.manager)

  -- `saveInnerInfoToFile`
  abbrev info_stored : Option PageNo → Manager → Run (Bool × Manager)
  info_stored none m = returned (false, m)
  info_stored (some v) m = store_info (save_inner m.inner) v.min_unit m

  unfoldable pub save_inner_info_to_file : Manager → Run (Bool × Manager)
  unfolding store_info get_page_file save_inner
  save_inner_info_to_file m = info_stored (get_page_file manager_key m) m

  -- The new page of `createPageFile`.
  unfoldable pub add_page : PageKey → Bool × Manager → Run (Option PageNo × Manager)
  unfolding new save_page_to_file get_page_file
  add_page key (false, m) = returned (none, m)
  add_page key (true, m) = do
    p ← lift (new m.inner.page_size m.inner.page_cnt)
    (ok, q, m1) ← lift (save_page_to_file p m)
    returned (if ok then get_page_file key m1 else none, m1)

  -- The entry of a new page file, with its one page.
  abbrev pub registered : PageKey → ℕ → Manager → Manager
  registered key min_unit m =
      let n = u32 (m.inner.page_cnt + 1) in
      let v : PageNo = record {
        offset = 0;
        min_unit = if ltb min_unit 4 then 4 else min_unit;
        root_page_no = n;
        last_page_no = n;
      } in
      record m {
        inner = record m.inner { page_cnt = n; page_info = assign_info key v m.inner.page_info };
      }

  unfoldable pub create_page_file : PageKey → ℕ → Manager → Run (Option PageNo × Manager)
  unfolding save_inner_info_to_file add_page get_page_file assign_info
  create_page_file key min_unit m = create (get_page_file key m)
    where
      create : Option PageNo → Run (Option PageNo × Manager)
      create (some v) = returned (some v, m)
      create none = save_inner_info_to_file (registered key min_unit m) >>= add_page key
