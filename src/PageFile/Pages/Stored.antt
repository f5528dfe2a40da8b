-- ===== src/PageFile/Pages/Stored.antt =====
-- jni/KvDB/SMDPageFile.cpp: a stream behind its length in a file, and files that stay short enough.
use leveldblib.Prelude.{
  ℕ, suc, ◌+◌, ◌-◌, ◌*◌, ◌≤◌, ◌<◌, ◌≡◌, refl, sym, ap, subst, ◌∙◌, some, List, length, arith,
  Bool-cases, inl, inr,
}
use leveldblib.Value.{put_int}
use leveldblib.Memory.{load, load-replaced_same}
use leveldblib.Page.{Page}
use leveldblib.Page.Inv.{IsValid}
use leveldblib.Page.Head.{pushed, length-pushed}
use leveldblib.Page.Content.{written}
use leveldblib.PageManager.Chain.{linked, linked-IsValid}
use leveldblib.PageManager.{Manager, put_bytes}
use leveldblib.PageFile.{save}
use leveldblib.PageFile.Put.{Writing}
use leveldblib.PageFile.Put.Growing.{save_marked, save_unmarked, succeeds, Succeeds, Growing}
use leveldblib.PageFile.Put.Turns.{Moved}
use leveldblib.PageFile.Pages.{OnFile, Spreads, length-put_bytes-le}
use leveldblib.PageFile.Pages.Landing.{final, Lands}

-- A stream behind its length in a file, at an offset of which a page has the smallest unit.
pub record Stored (n min_unit : ℕ) (bytes file : List ℕ) (offset : ℕ) : Type 0 where
  pub page : Page
  pub at : ℕ
  pub place : offset ≡ at + page.pageno * n
  pub unit : at + min_unit ≤ n
  pub inside : at + 4 ≤ n - page.space
  pub head : load at 4 (pushed page) ≡ some (put_int (length bytes))
  pub on_file : OnFile n file page
  pub spreads : Spreads n file page (at + 4) bytes

-- The page with a length behind what it holds.
abbrev pub headed : ℕ → Page → Page
headed size p = written (put_int size) p

-- The length, written where the free space of a page began.
pub head-Stored :
    (n min_unit k : ℕ) (bytes : List ℕ) (p : Page) (m : Manager) (v : Writing)
    → IsValid p
    → p.size ≡ n
    → 4 ≤ p.space
    → min_unit ≤ p.space
    → Lands n k (headed (length bytes) p) m bytes v
    → Stored n min_unit bytes (final n v) (n - p.space + p.pageno * n)
unfolding put_int
head-Stored n min_unit k bytes p m v valid e four unit lands =
    let at = n - p.space in
    let c = headed (length bytes) p in
    let next : n - c.space ≡ at + 4 = omega (arith, e, valid.space, four) in
    record {
      page = lands.page;
      at = at;
      place = rw lands.number refl;
      unit = omega (arith, e, valid.space, unit);
      inside = omega (arith, lands.space, next);
      head =
          lands.front at 4 (omega (arith, valid.space, e)) (omega (arith, next))
          ∙ ap (λ (s : ℕ). load (s - p.space) 4 c.block) (sym e)
          ∙ load-replaced_same (p.size - p.space) (put_int (length bytes)) p.block
              (omega (arith, valid.space, valid.block, four));
      on_file = lands.on_file;
      spreads = subst (λ (k : ℕ). Spreads n (final n v) lands.page k bytes) next lands.spreads;
    }

-- A last page, in a file of at most `limit` pages that stays one with `k` more.
pub record Within (n limit k : ℕ) (p : Page) (m : Manager) : Type 0 where
  pub known : p.pageno ≤ m.inner.page_cnt
  pub few : m.inner.page_cnt + k < limit
  pub short : length m.cache.file ≤ limit * n

pub save-Within :
    (n limit k : ℕ) (p : Page) (m : Manager)
    → Growing n k p m
    → Within n limit k p m
    → Succeeds (λ r. Growing n k r.0 r.1 × Within n limit k r.0 r.1) (save p m)
save-Within n limit k p m g w = elim (Bool-cases p.modify) [
  | inl t ↦
      let (saved, g1) = save_marked n k p m g t in
      rw saved (
        succeeds (
          g1,
          record {
            known = w.known;
            few = w.few;
            short =
                length-put_bytes-le n limit p.pageno (pushed p) m.cache.file
                  (length-pushed p g.valid ∙ g.size) (omega (arith, w.known, w.few)) w.short;
          },
        ))
  | inr f ↦ rw (save_unmarked p m f) (succeeds (g, w))
]

pub Moved-Within :
    (n limit k : ℕ) (p q : Page) (m m' : Manager)
    → Growing n (suc k) p m
    → Within n limit (suc k) p m
    → Moved n k p m q m'
    → Within n limit k q m'
Moved-Within n limit k p q m m' g w moved =
    let number = m.inner.page_cnt + 1 in
    let link = linked number p in
    record {
      known = omega (arith, moved.number, moved.count);
      few = omega (arith, moved.count, w.few);
      short = rw moved.file (
          length-put_bytes-le n limit number q.block
            (put_bytes (p.pageno * n) (pushed link) m.cache.file)
            (moved.growing.valid.block ∙ moved.growing.size) (omega (arith, w.few))
            (length-put_bytes-le n limit p.pageno (pushed link) m.cache.file
              (length-pushed link (linked-IsValid number p g.valid) ∙ g.size)
              (omega (arith, w.known, w.few)) w.short));
    }
