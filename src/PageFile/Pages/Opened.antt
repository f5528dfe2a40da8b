-- ===== src/PageFile/Pages/Opened.antt =====
-- jni/KvDB/SMDPageFile.cpp: a page file in a manager that has opened a file, before it has a page.
use native.Mathlib.Nat.{mul-le-mul_right, div-add-mod, mul_comm}
use leveldblib.Prelude.{
  ℕ, suc, ◌+◌, ◌*◌, ◌/◌, ◌%◌, ◌^◌, ◌≤◌, ◌<◌, ◌≡◌, refl, ap, Bool, true, some, none, List, min,
  length, leb, ◌==◌, arith, Bool-cases, inl, inr,
}
use leveldblib.Stream.{MemStream}
use leveldblib.Page.Inv.{blank}
use leveldblib.Page.{Page, no_page, new}
use leveldblib.Cache.{init}
use leveldblib.Cache.Requests.{init-IsCoherent}
use leveldblib.PageTable.{Inner}
use leveldblib.PageManager.{Manager, get_page_by_page_no, get_page_by_offset, load_page}
use leveldblib.PageManager.Save.{reopened, init-max_page_num}
use leveldblib.PageFile.{Run, State}
use leveldblib.PageFile.Get.{get, get_on, get_found}
use leveldblib.PageFile.Pages.Serves.{Serves}

-- A page file that has opened a file and not a page yet.
abbrev pub opened : Inner → ℕ → Manager → State
opened inner max_buffer_num m = record { page = none; manager = reopened inner max_buffer_num m }

pages_lem : (size ps limit : ℕ) → 0 < ps → size ≤ limit * ps → size / ps + min (size % ps) 1 ≤ limit
pages_lem size ps limit pos h =
    let q = size / ps in
    let whole : q * ps + size % ps ≡ size = omega (arith, div-add-mod size ps, mul_comm q ps) in
    elim (Bool-cases (leb q limit)) [
      | inl t ↦ elim (Bool-cases (q == limit)) [
        | inl same ↦
            let e : q ≡ limit = ground (arith, same) in
            let full : q * ps ≡ limit * ps = ap (λ (k : ℕ). k * ps) e in
            omega (arith, whole, h, full, e)
        | inr apart ↦ let below : q < limit = ground (arith, t, apart) in omega (arith, below)
      ]
      | inr f ↦
          let above : suc limit ≤ q = ground (arith, f) in
          absurd (omega (arith, mul-le-mul_right ps above, whole, h, pos))
    ]

-- A file of at most 65535 pages, opened.
pub opened-Serves :
    (inner : Inner) (max_buffer_num : ℕ) (m : Manager)
    → 0 < inner.page_size
    → 0 < max_buffer_num
    → max_buffer_num < 2 ^ 16
    → length m.cache.file ≤ 65535 * inner.page_size
    → Serves inner.page_size m.cache.file (reopened inner max_buffer_num m)
unfolding init
opened-Serves inner nb m pos nb0 nb1 short =
    let ps = inner.page_size in
    let file = m.cache.file in
    let few : (init ps nb file).max_page_num < 2 ^ 16 =
      let count = pages_lem (length file) ps 65535 pos short in
      elim (Bool-cases (length file % ps == 0)) [
        | inl t ↦ rw t (omega (arith, count))
        | inr f ↦
            rw f (let odd : 0 < length file % ps = ground (arith, f) in omega (arith, count, odd))
      ] in
    record {
      coherent = init-IsCoherent ps nb file nb0 nb1 few;
      same_file = refl;
      cache_size = refl;
      page_size = refl;
      pages = λ j h. init-max_page_num j ps nb file pos h;
    }

pub unopened_lem :
    (garbage : ℕ → List ℕ) (min_unit fuel offset page_no : ℕ) (t : MemStream) (r : Page)
    (m m' : Manager) (result : Run (Bool × MemStream × State))
    → offset / m.inner.page_size ≡ page_no
    → load_page garbage page_no (blank m.inner.page_size m.inner.page_size no_page) m
      ≡ some (true, r, m')
    → get_on garbage min_unit fuel t offset r m' ≡ result
    → get garbage min_unit fuel t offset (record { page = none; manager = m }) ≡ result
unfolding get get_found get_page_by_offset get_page_by_page_no load_page new
unopened_lem garbage min_unit fuel offset page_no t r m m' result page found content =
    rw (page, found) content
