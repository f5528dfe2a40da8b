-- ===== src/Segment.antt =====
-- The segments of jni/KvDB/SMDMetaSegment.cpp and SMDTableSegment.cpp, which keep what they hold as
-- one stream in a page file of their own. Here is what both do with that page file.
pub mod Meta
pub mod Tables
pub mod Kept
mod Tests
use leveldblib.Prelude.{ℕ, Bool, true, false, Option, none, some, List}
use leveldblib.Stream.{MemStream, Outcome, done, failed, thrown}
use leveldblib.Stream
use leveldblib.PageTable.{PageKey, PageNo}
use leveldblib.PageManager.{Manager}
use leveldblib.PageFile
use leveldblib.PageFile.{Run, returned, ◌>>=◌}
use leveldblib.PageFile.Put.{put}
use leveldblib.PageFile.Get.{get_first}
use leveldblib.PageFile.Walk.{clear_page}
use leveldblib.PageFile.Catalogue.{opened, create_page_file, get_page_file}

module _ (garbage : ℕ → List ℕ) (fuel : ℕ) where
  -- `clearPage` and `put` in the page file that `createPageFile` gives.
  unfoldable pub store_into : PageKey → MemStream → Option PageNo × Manager → Run (Bool × Manager)
  unfolding clear_page put
  store_into key stream (none, m) = returned (false, m)
  store_into key stream (some v, m) = do
    (cleared, s) ← clear_page garbage key fuel (opened m)
    (offset, t) ← put garbage key v.min_unit fuel stream s
    returned (true, t.manager)

  unfoldable pub store : PageKey → MemStream → Manager → Run (Bool × Manager)
  unfolding store_into create_page_file
  store key stream m = create_page_file garbage fuel key 0 m >>= store_into key stream

  -- `get` of an empty stream from the start of the page file that `getPageFile` finds.
  unfoldable pub fetch_from : PageKey → Option PageNo → Manager → Run (Bool × MemStream × Manager)
  unfolding get_first Stream.new
  fetch_from key none m = returned (false, Stream.new 0, m)
  fetch_from key (some v) m = do
    (ok, stream, s) ← get_first garbage key v.min_unit fuel (Stream.new 0) (opened m)
    returned (ok, stream, s.manager)

  unfoldable pub fetch : PageKey → Manager → Run (Bool × MemStream × Manager)
  unfolding fetch_from get_page_file
  fetch key m = fetch_from key (get_page_file key m) m

-- The end of a segment's `read`, where the `bool`s of the stream have been seen to.
abbrev pub read_of :
    {A : Type 0} → A → Manager → Outcome (Bool × A) × MemStream → Run (Bool × A × Manager)
read_of before m (done (ok, a), s) = returned (ok, a, m)
read_of before m (failed, s) = returned (false, before, m)
read_of before m (thrown, s) = PageFile.thrown
