-- ===== src/PageFile/Catalogue/Reload.antt =====
-- jni/KvDB/SMDPageManagement.cpp: the table of page files that `saveInnerInfoToFile` saves and
-- `getInnerInfoFromFile` reads in the next session.
use native.Mathlib.Nat.{div_self}
use leveldblib.Stream
use leveldblib.Prelude.{
  ℕ, suc, ◌+◌, ◌-◌, ◌*◌, ◌^◌, ◌≤◌, ◌<◌, ◌≡◌, refl, sym, ap, ◌∙◌, Bool, true, some, List, ◌++◌, ltb,
  length, drop, max, ◌/◌, Bool-cases, inl, inr, replicate, arith, length-replicate, length-append,
  length-drop,
}
use leveldblib.Page.{Page, no_page}
use leveldblib.Page.Inv.{IsValid}
use leveldblib.Page.Head.{pushed, length-pushed}
use leveldblib.Stream.{MemStream, done}
use leveldblib.Cache.{init}
use leveldblib.FileSystem.{same_bytes}
use leveldblib.PageTable.{
  same_key, PageKey, PageNo, Inner, manager_key, initial, find_info, get_first_page_no,
}
use leveldblib.PageTable.Load.{load_inner}
use leveldblib.PageTable.Format.{FitsInner}
use leveldblib.PageTable.RoundTrip.{save_inner_lem, Distinct, or_before, load_inner-save_inner}
use leveldblib.PageTable.Format.{inner_bytes}
use leveldblib.PageManager.{Manager, put_bytes}
use leveldblib.PageManager.Save.{reopened}
use leveldblib.PageFile.{returned}
use leveldblib.PageFile.Put.Store.{stored, stored-IsValid}
use leveldblib.PageFile.Catalogue.{get_page_file, get_inner_info_from_file, save_inner_info_to_file}
use leveldblib.PageFile.Catalogue.Saving.{
  Begins, Loaded, emptied, made_of, made_of-IsValid, save_info_lem,
}
use leveldblib.PageFile.Catalogue.First.{first_stream_lem, load_steps}

-- Page 0 written to a file: it has as many pages as before, or one.
length-put_first : (x file : List ℕ) → length (put_bytes 0 x file) ≡ max (length x) (length file)
unfolding put_bytes
length-put_first x file =
    let padded = file ++ replicate (0 - length file) 0 in
    let none_added : 0 - length file ≡ 0 = omega arith in
    omega (
      arith,
      length-append x (drop (0 + length x) padded),
      length-drop (0 + length x) padded,
      length-append file (replicate (0 - length file) 0),
      length-replicate {A = ℕ} (0 - length file) 0,
    )

few_pages :
    (ps nb at : ℕ) (x file : List ℕ)
    → at ≡ 0
    → 0 < ps
    → length x ≡ ps
    → length file / ps + 1 < 2 ^ 16
    → ((init ps nb (put_bytes at x file)).max_page_num < 2 ^ 16)
      × (length (put_bytes at x file) / ps + 1 < 2 ^ 16)
unfolding init
few_pages ps nb at x file start pos e h =
    let put : length (put_bytes at x file) ≡ max (length x) (length file) =
      rw start (length-put_first x file) in
    let whole : length (put_bytes at x file) / ps + 1 < 2 ^ 16 =
      elim (Bool-cases (ltb (length file) ps)) [
        | inl t ↦
            let one : length (put_bytes at x file) ≡ ps = ground (arith, put, e, t) in
            rw (one, div_self pos) (omega arith)
        | inr f ↦
            let same : length (put_bytes at x file) ≡ length file = ground (arith, put, e, f) in
            rw same h
      ] in
    (ground (arith, whole), whole)

load_kept :
    (inner0 i : Inner) (m : Manager) (t rest : MemStream)
    → m.inner ≡ inner0
    → load_inner inner0 t ≡ (done (true, i), rest)
    → load_inner m.inner t ≡ (done (true, i), rest)
load_kept inner0 i m t rest kept l = rw kept l

-- What the next session reads of a table on page 0.
read_back :
    (garbage : ℕ → List ℕ) (n nb : ℕ) (m : Manager) (p : Page) (ps : ℕ) (i : Inner)
    (t rest : MemStream)
    → IsValid p
    → p.pageno ≡ 0
    → p.next ≡ no_page
    → p.reserve1 < 2 ^ 16
    → p.size ≡ ps
    → p.size - p.space ≡ 28
    → length t.buf < 2 ^ 31
    → 0 < length t.buf
    → length t.buf + 4 ≤ p.space
    → 0 < nb
    → nb < 2 ^ 16
    → length m.cache.file / p.size + 1 < 2 ^ 16
    → load_inner (initial ps) (record { buf = t.buf; pos = 0 }) ≡ (done (true, i), rest)
    → (m2 : Manager) × (get_inner_info_from_file garbage (suc n) true (
          reopened (initial ps) nb (record m {
            cache = record m.cache {
              file = put_bytes (p.pageno * p.size) (pushed (stored t.buf p)) m.cache.file;
            };
          }))
        ≡ returned (true, record m2 { inner = i }))
unfolding get_inner_info_from_file get_page_file initial get_first_page_no find_info same_key
    same_bytes
read_back garbage n nb m p ps i t rest v z last reserved size head few some_bytes fits nb0 nb1 pages
      l =
    let pages1 =
      (few_pages p.size nb (p.pageno * p.size) (pushed (stored t.buf p)) m.cache.file
        (rw z (omega arith)) (omega (arith, v.room))
        (length-pushed (stored t.buf p) (stored-IsValid t.buf p v fits)) pages).0 in
    let (q, m2, got, kept) =
      first_stream_lem garbage n nb m (initial ps) p t.buf (Stream.new 0) v z (omega (arith, last))
        reserved head few some_bytes fits (sym size) refl nb0 nb1 pages1 in
    (
      m2,
      load_steps garbage (suc n)
          (reopened (initial ps) nb (record m {
            cache = record m.cache {
              file = put_bytes (p.pageno * p.size) (pushed (stored t.buf p)) m.cache.file;
            };
          }))
          m2 (record { offset = 0; min_unit = 0; root_page_no = 0; last_page_no = 0 })
          (record { buf = t.buf; pos = 0 }) rest q i got
          (load_kept (initial ps) i m2 (record { buf = t.buf; pos = 0 }) rest kept l),
    )

-- The same on a page 0 that was loaded, emptied and saved.
read_emptied :
    (garbage : ℕ → List ℕ) (n nb : ℕ) (m m1 : Manager) (q : Page) (i : Inner) (t rest : MemStream)
    → Loaded m m1 q
    → length t.buf < 2 ^ 31
    → 0 < length t.buf
    → length t.buf + 32 ≤ m.inner.page_size
    → 0 < nb
    → nb < 2 ^ 16
    → length m.cache.file / m.inner.page_size + 1 < 2 ^ 16
    → load_inner (initial m.inner.page_size) (record { buf = t.buf; pos = 0 })
      ≡ (done (true, i), rest)
    → (m2 : Manager) × (get_inner_info_from_file garbage (suc n) true (
          reopened (initial m.inner.page_size) nb (record m1 {
            cache = record m1.cache {
              file =
                  put_bytes
                    (q.pageno * q.size)
                    (pushed (stored t.buf (made_of q)))
                    (put_bytes (q.pageno * q.size) (pushed (emptied q)) m1.cache.file);
            };
          }))
        ≡ returned (true, record m2 { inner = i }))
read_emptied garbage n nb m m1 q i t rest ld few some_bytes room nb0 nb1 pages l =
    let made = made_of q in
    let vm = made_of-IsValid q ld.valid ld.number in
    let at = q.pageno * q.size in
    let m0 : Manager = record m1 {
      cache = record m1.cache { file = put_bytes at (pushed (emptied q)) m1.cache.file };
    } in
    let space : made.space ≡ q.size - 28 = omega (arith, ld.valid.room, ld.valid.size) in
    let pages0 : length m1.cache.file / q.size + 1 < 2 ^ 16 = rw (ld.same_file, ld.size) pages in
    let pages1 =
      (few_pages q.size nb at (pushed (emptied q)) m1.cache.file (rw ld.number (omega arith))
        (omega (arith, ld.valid.room)) vm.block pages0).1 in
    read_back garbage n nb m0 made m.inner.page_size i t rest vm ld.number ld.last ld.reserved
      ld.size (omega (arith, space, ld.valid.room)) few some_bytes
      (omega (arith, space, room, ld.size)) nb0 nb1 pages1 l

-- A file that is open for writing, with a cache that holds pages as the file has them and counts at
-- least one; page 0 of the file is a valid page of the manager's page size, the last of its chain,
-- and its `reserve1` fits its field (as `saveFlag` writes it to a new file, and as this saving leaves
-- it for the next session); the table's own page file begins and ends at page 0, and the table fits
-- that page: its numbers and names fit their fields, its keys are distinct, and its bytes and 36 more
-- fit a page; the file has fewer than 65535 whole pages. `saveInnerInfoToFile` succeeds. A manager
-- with that page size that opens the file afterwards, with 1 up to 65535 buffers in its cache,
-- succeeds in `getInnerInfoFromFile`: it has the page size and the page count that were saved, and for
-- a key the entry that was saved, or that of a new table if none was.
pub get_inner_info_from_file-save_inner_info_to_file :
    (garbage : ℕ → List ℕ) (fuel n max_buffer_num : ℕ) (m : Manager) (p : Page) (v : PageNo)
    (key : PageKey)
    → m.writable ≡ true
    → Begins m p
    → find_info manager_key m.inner.page_info ≡ some v
    → v.root_page_no ≡ 0
    → v.last_page_no ≡ 0
    → FitsInner m.inner
    → Distinct m.inner.page_info
    → length (inner_bytes m.inner) + 36 ≤ m.inner.page_size
    → length m.cache.file / m.inner.page_size + 1 < 2 ^ 16
    → 0 < max_buffer_num
    → max_buffer_num < 2 ^ 16
    → (m1 : Manager) × (save_inner_info_to_file garbage (suc fuel) m ≡ returned (true, m1))
      × (m2 : Manager) × (get_inner_info_from_file garbage
            (suc n)
            true
            (reopened (initial m.inner.page_size) max_buffer_num m1)
          ≡ returned (true, m2))
      × (m2.inner.page_size ≡ m.inner.page_size)
      × (m2.inner.page_cnt ≡ m.inner.page_cnt)
      × (find_info key m2.inner.page_info
          ≡ or_before
              (find_info key m.inner.page_info)
              (find_info key (initial m.inner.page_size).page_info))
get_inner_info_from_file-save_inner_info_to_file garbage fuel n nb m p v key w b found root last
      fits distinct room pages nb0 nb1 =
    let page = m.inner.page_size in
    let s : page < 2 ^ 16 = omega (arith, b.valid.size, b.size) in
    let (t, e, i, rest, l, ps, pc, entry) =
      load_inner-save_inner m.inner (initial page) key fits distinct (omega (arith, room, s)) in
    let size : length t.buf ≡ 4 + length (inner_bytes m.inner) =
      ap (λ (r : Bool × MemStream). length r.1.buf)
        (sym e ∙ save_inner_lem m.inner fits (omega (arith, room, s)))
      ∙ omega arith in
    let (q, m1, ld, saved) =
      save_info_lem garbage fuel m p v t w b found root last e (omega (arith, size))
        (omega (arith, size, room)) in
    let (m2, reread) =
      read_emptied garbage n nb m m1 q i t rest ld (omega (arith, size, room, s))
        (omega (arith, size)) (omega (arith, size, room)) nb0 nb1 pages l in
    (
      record m1 {
        cache = record m1.cache {
          file =
              put_bytes (q.pageno * q.size) (pushed (stored t.buf (made_of q)))
                (put_bytes (q.pageno * q.size) (pushed (emptied q)) m1.cache.file);
        };
      },
      saved,
      record m2 { inner = i },
      reread,
      ps,
      pc,
      entry,
    )
