-- ===== src/PageFile/Put/Growing.antt =====
-- jni/KvDB/SMDPageFile.cpp: runs that return, and the last page of a file that can grow.
use leveldblib.Prelude.{
  ℕ, zero, suc, ◌+◌, ◌*◌, ◌^◌, ◌<◌, ◌≡◌, refl, ap, ◌∙◌, sym, Bool, true, false, if◌then◌else◌,
  arith, Bool-cases, inl, inr,
}
use leveldblib.Page.{Page, no_page}
use leveldblib.Page.Inv.{IsValid}
use leveldblib.Page.Head.{pushed, length-pushed}
use leveldblib.PageManager.{Manager, save_page_to_file, put_bytes}
use leveldblib.PageManager.Save.{save_lem}
use leveldblib.PageFile.{Run, returned, ◌>>=◌, save}

-- A run that returns, with what holds of its result.
pub data Succeeds {A : Type 0} (P : A → Type 0) : Run A → Type 0 where
  succeeds : {a : A} → P a → Succeeds P (returned a)

pub >>=-Succeeds :
    {A B : Type 0} {P : A → Type 0} {Q : B → Type 0} {m : Run A} {k : A → Run B}
    → Succeeds P m
    → ((a : A) → P a → Succeeds Q (k a))
    → Succeeds Q (m >>= k)
>>=-Succeeds (succeeds {a} e) f = f a e

pub if-Succeeds :
    {B : Type 0} {Q : B → Type 0} (c : Bool) {x y : Run B}
    → (c ≡ true → Succeeds Q x)
    → (c ≡ false → Succeeds Q y)
    → Succeeds Q (if c then x else y)
if-Succeeds true e f = e refl
if-Succeeds false e f = f refl

pub weaker :
    {A : Type 0} {P Q : A → Type 0} {m : Run A}
    → Succeeds P m
    → ((a : A) → P a → Q a)
    → Succeeds Q m
weaker (succeeds {a} e) f = succeeds (f a e)

-- The last page of a chain, in a file open for writing with room for `k` more pages of `n` bytes.
pub record Growing (n k : ℕ) (p : Page) (m : Manager) : Type 0 where
  pub valid : IsValid p
  pub last : p.next ≡ no_page
  pub writable : m.writable ≡ true
  pub size : p.size ≡ n
  pub page_size : m.inner.page_size ≡ n
  pub place : p.pageno * n < 2 ^ 31
  pub few_pages : m.inner.page_cnt + k < 2 ^ 32
  pub small_file : (m.inner.page_cnt + k) * n < 2 ^ 31

pub fewer : (n k : ℕ) (p : Page) (m : Manager) → Growing n (suc k) p m → Growing n k p m
fewer n k p m g = record {
  valid = g.valid;
  last = g.last;
  writable = g.writable;
  size = g.size;
  page_size = g.page_size;
  place = g.place;
  few_pages = omega (arith, g.few_pages);
  small_file = omega (arith, g.small_file);
}

pub none_more : (n k : ℕ) (p : Page) (m : Manager) → Growing n k p m → Growing n 0 p m
none_more n zero p m g = g
none_more n (suc k) p m g = none_more n k p m (fewer n k p m g)

-- The same page with another block, space or mark.
pub changed :
    (n k : ℕ) (p q : Page) (m : Manager)
    → Growing n k p m
    → IsValid q
    → q.next ≡ p.next
    → q.size ≡ p.size
    → q.pageno ≡ p.pageno
    → Growing n k q m
changed n k p q m g v next size number = record {
  valid = v;
  last = next ∙ g.last;
  writable = g.writable;
  size = size ∙ g.size;
  page_size = g.page_size;
  place = rw number g.place;
  few_pages = g.few_pages;
  small_file = g.small_file;
}

-- The page that is saved, and the manager that it is saved in.
abbrev pub cleaned : Page → Page
cleaned p = record p { block = pushed p; modify = false }

abbrev pub in_file : ℕ → Page → Manager → Manager
in_file n p m = record m {
  cache = record m.cache { file = put_bytes (p.pageno * n) (pushed p) m.cache.file };
}

pub cleaned-IsValid : (p : Page) → IsValid p → IsValid (cleaned p)
cleaned-IsValid p v = record {
  block = length-pushed p v;
  room = v.room;
  size = v.size;
  space = v.space;
}

-- Saving the changed last page.
pub save_marked :
    (n k : ℕ) (c : Page) (m : Manager)
    → Growing n k c m
    → c.modify ≡ true
    → (save c m ≡ returned (cleaned c, in_file n c m)) × Growing n k (cleaned c) (in_file n c m)
save_marked n k c m g dirty = (
  rw (save_lem c m g.valid dirty g.writable (g.size ∙ sym g.page_size) (rw g.size g.place)) (
      ap
        (λ (s : ℕ). returned (
          cleaned c,
          record m {
            cache = record m.cache { file = put_bytes (c.pageno * s) (pushed c) m.cache.file };
          },
        ))
        g.size),
  record {
    valid = cleaned-IsValid c g.valid;
    last = g.last;
    writable = g.writable;
    size = g.size;
    page_size = g.page_size;
    place = g.place;
    few_pages = g.few_pages;
    small_file = g.small_file;
  },
)

pub save_unmarked : (p : Page) (m : Manager) → p.modify ≡ false → save p m ≡ returned (p, m)
unfolding save_page_to_file
save_unmarked p m f = rw f refl

pub save-Succeeds :
    (n k : ℕ) (p : Page) (m : Manager)
    → Growing n k p m
    → Succeeds (λ r. Growing n k r.0 r.1) (save p m)
save-Succeeds n k p m g = elim (Bool-cases p.modify) [
  | inl t ↦ let (saved, g1) = save_marked n k p m g t in rw saved (succeeds g1)
  | inr f ↦ rw (save_unmarked p m f) (succeeds g)
]
