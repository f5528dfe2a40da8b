-- ===== src/PageManager/Save.antt =====
-- jni/KvDB/SMDPageManagement.cpp: what saving a page leaves in the file, and the pages of a file that
-- is opened again.
use native.Mathlib.Nat.{add-mul-div_left, add-div_left, mul_comm}
use leveldblib.Prelude.{
  ℕ, ◌+◌, ◌-◌, ◌*◌, ◌/◌, ◌%◌, ◌^◌, ◌<◌, ◌≤◌, ◌≡◌, refl, ap, ◌∙◌, true, false, some, List, ◌++◌,
  length, take, drop, replicate, arith, length-append, length-take, length-replicate,
  take_of_length-le, take-length-append,
}
use leveldblib.Memory.{load, load_fits, drop-replaced}
use leveldblib.Page.{Page, set_modify, get_file_offset}
use leveldblib.Page.Inv.{IsValid}
use leveldblib.Page.Head.{pushed, push_lem, length-pushed}
use leveldblib.Cache.{init}
use leveldblib.PageTable.{Inner}
use leveldblib.PageManager.{Manager, put_bytes, save_bytes, save_page_to_file}

-- What is written to a file is at its place afterwards.
pub take-drop-put_bytes :
    (at : ℕ) (bytes file : List ℕ)
    → (take (length bytes) (drop at (put_bytes at bytes file)) ≡ bytes)
      × (at + length bytes ≤ length (put_bytes at bytes file))
unfolding put_bytes
take-drop-put_bytes at bytes file =
    let padded = file ++ replicate (at - length file) 0 in
    let room : at ≤ length padded = omega (
      arith,
      length-append file (replicate (at - length file) 0),
      length-replicate {A = ℕ} (at - length file) 0,
    ) in
    (
      ap (take (length bytes)) (drop-replaced at bytes padded room)
          ∙ take-length-append bytes (drop (at + length bytes) padded),
      omega (
        arith,
        length-append (take at padded) (bytes ++ drop (at + length bytes) padded),
        length-append bytes (drop (at + length bytes) padded),
        length-take at padded,
        room,
      ),
    )

-- A page that lies inside a file is one of its pages.
page-lt : (p ps size : ℕ) → 0 < ps → p * ps + ps ≤ size → p + 1 ≤ size / ps
page-lt p ps size pos h =
    let rest = size - (p * ps + ps) in
    let e : size ≡ (ps + rest) + ps * p = omega (arith, mul_comm p ps) in
    let q : size / ps ≡ rest / ps + 1 + p =
      ap (λ (n : ℕ). n / ps) e
      ∙ add-mul-div_left (ps + rest) p pos
      ∙ ap (λ (n : ℕ). n + p) (add-div_left rest pos) in
    omega (arith, q)

-- A file that is opened again.
abbrev pub reopened : Inner → ℕ → Manager → Manager
reopened inner max_buffer_num m = record {
  inner = inner;
  cache = init inner.page_size max_buffer_num m.cache.file;
  writable = m.writable;
}

pub init-max_page_num :
    (p ps nb : ℕ) (file : List ℕ)
    → 0 < ps
    → p * ps + ps ≤ length file
    → p < (init ps nb file).max_page_num
unfolding init
init-max_page_num p ps nb file pos h = let q = page-lt p ps (length file) pos h in ground (arith, q)

pub save_lem :
    (p : Page) (m : Manager)
    → IsValid p
    → p.modify ≡ true
    → m.writable ≡ true
    → p.size ≡ m.inner.page_size
    → p.pageno * p.size < 2 ^ 31
    → save_page_to_file p m
      ≡ some (
        true,
        record p { block = pushed p; modify = false },
        record m {
          cache = record m.cache { file = put_bytes (p.pageno * p.size) (pushed p) m.cache.file };
        },
      )
unfolding save_page_to_file save_bytes set_modify get_file_offset
save_lem p m v dirty w e small =
    let n = length-pushed p v in
    let whole : load 0 p.size (pushed p) ≡ some (pushed p) =
      load_fits 0 p.size (pushed p) (omega (arith, n))
      ∙ ap some (take_of_length-le p.size (pushed p) (omega (arith, n))) in
    let off : (p.pageno * p.size) % 2 ^ 32 ≡ p.pageno * p.size = omega (arith, small) in
    rw (push_lem p v, dirty, ← e, whole, w, off) refl
