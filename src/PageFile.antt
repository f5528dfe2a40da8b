-- ===== src/PageFile.antt =====
-- The page files of jni/KvDB/SMDPageFile.cpp and SMDPageFile.h: streams that are kept in a chain of
-- pages, each behind its length as an `int`. The page manager is the one of PageManager. A loop runs
-- on fuel: `endless` is a loop that has used it up. The streams are shorter than 2 ^ 31 bytes.
pub mod Put
pub mod Get
pub mod Walk
pub mod Catalogue
pub mod Pages
mod Tests
use leveldblib.Prelude.{ℕ, Bool, true, Option, none, some, List}
use leveldblib.Page.{Page}
use leveldblib.PageTable.{PageKey, get_first_page_no, get_last_page_no}
use leveldblib.PageManager.{
  Manager, get_next_page, get_page_by_page_no, get_page_by_offset, save_page_to_file,
}

-- `undefined` is an access that C++ leaves undefined, `thrown` the `std::length_error` of a string
-- resized to a negative length.
pub data Run {ℓ} (A : Type ℓ) : Type ℓ where
  returned : A → Run A
  undefined thrown endless : Run A

infixl 5 ◌>>=◌
abbrev pub ◌>>=◌ : {A B : Type 0} → Run A → (A → Run B) → Run B
returned a >>= k = k a
undefined >>= k = undefined
thrown >>= k = thrown
endless >>= k = endless

abbrev pub lift {ℓ} : {A : Type ℓ} → Option A → Run A
lift none = undefined
lift (some a) = returned a

-- The page of the file, and the manager; NULL is `none`.
pub record State : Type 0 where
  pub page : Option Page
  pub manager : Manager

abbrev pub held : Page → Manager → State
held p m = record { page = some p; manager = m }

-- `savePageToFile`, whose result is not looked at.
abbrev pub save : Page → Manager → Run (Page × Manager)
save p m = lift (save_page_to_file p m) >>= λ r. returned (r.1, r.2)

module _ (garbage : ℕ → List ℕ) where
  -- `getNextPage`, on the page held and in the middle of a method.
  unfoldable pub next_page : Page → Manager → Run (Page × Manager)
  unfolding get_next_page
  next_page p m = lift (get_next_page garbage p.pageno (some p) m) >>= λ r. returned (r.1, r.2)

  unfoldable pub get_next : State → Run (Bool × State)
  unfolding get_next_page
  get_next s = do
    p ← lift s.page
    r ← lift (get_next_page garbage p.pageno (some p) s.manager)
    returned (r.0, held r.1 r.2)

  -- `setToFristPageFile`, `setToLastPageFile`: a page that is not NULL is there afterwards.
  unfoldable pub set_to_first_page_file : PageKey → State → Run (Bool × State)
  unfolding get_page_by_page_no get_first_page_no
  set_to_first_page_file key s = do
    let page_no = get_first_page_no key s.manager.inner
    r ← lift (get_page_by_page_no garbage page_no s.page s.manager)
    returned (true, held r.1 r.2)

  unfoldable pub set_to_last_page_file : PageKey → State → Run (Bool × State)
  unfolding get_page_by_page_no get_last_page_no
  set_to_last_page_file key s = do
    let page_no = get_last_page_no key s.manager.inner
    r ← lift (get_page_by_page_no garbage page_no s.page s.manager)
    returned (true, held r.1 r.2)

  unfoldable pub set_to_offset : ℕ → State → Run (Bool × State)
  unfolding get_page_by_offset
  set_to_offset offset s = do
    r ← lift (get_page_by_offset garbage offset s.page s.manager)
    returned (r.0, held r.1 r.2)
