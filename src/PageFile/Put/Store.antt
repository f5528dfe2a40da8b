-- ===== src/PageFile/Put/Store.antt =====
-- jni/KvDB/SMDPageFile.cpp: a stream that fits a page, in the block that `put` leaves and as `get`
-- reads it.
use native.Mathlib.Nat.{mod-eq_of_lt}
use leveldblib.Prelude.{
  ℕ, suc, ◌+◌, ◌-◌, ◌*◌, ◌%◌, ◌^◌, ◌≤◌, ◌<◌, ◌≡◌, refl, sym, ap, subst, ◌∙◌, true, false, some,
  List, [], ◌++◌, append-nil, length, take, replicate, min, ltb, leb, ◌==◌, arith, length-append,
  length-take, length-replicate, drop_of_length-le,
}
use leveldblib.Value.{put_int, get_int}
use leveldblib.Value.Codec.{get_int-put_int, length-put_int}
use leveldblib.Memory.{load, store, store_fits, load-replaced_same, load-replaced_before}
use leveldblib.Page.{Page, read, sub16, u32, get_space_offset, get_file_offset}
use leveldblib.Page.Inv.{IsValid}
use leveldblib.Page.Head.{pushed}
use leveldblib.Page.Content.{read_inside, written, write_fits, written-IsValid, load-pushed}
use leveldblib.Stream.{MemStream, resize, resized, set_position, size}
use leveldblib.PageTable.{PageKey, get_last_page_no}
use leveldblib.PageManager.{Manager, put_bytes, get_page_by_page_no, load_page}
use leveldblib.PageManager.Save.{save_lem}
use leveldblib.PageFile.Put
use leveldblib.PageFile.{returned, held}
use leveldblib.PageFile.Get.{Reading, get_content, get_loop, get_turn, get_more}
use leveldblib.PageFile.Put.{put, put_found, put_whole, start}

-- The whole buffer written at once.
store_whole :
    (bytes buffer : List ℕ) → length buffer ≡ length bytes → store 0 bytes buffer ≡ some bytes
store_whole bytes buffer e =
    store_fits 0 bytes buffer (omega (arith, e))
    ∙ ap some (
        ap (λ xs. bytes ++ xs) (drop_of_length-le (0 + length bytes) buffer (omega (arith, e)))
        ∙ append-nil bytes)

pub resize_lem :
    (n : ℕ) (s : MemStream)
    → (resize n s ≡ record { buf = resized s.buf n; pos = 0 }) × (length (resized s.buf n) ≡ n)
unfolding resize set_position resized
resize_lem n s =
    let below : ltb (length (resized s.buf n) % 2 ^ 32) 0 ≡ false = ground arith in
    (
      rw (resize, set_position, size, below) refl,
      omega (
        arith,
        length-append (take n s.buf) (replicate (n - length s.buf) 0),
        length-take n s.buf,
        length-replicate {A = ℕ} (n - length s.buf) 0,
      ),
    )

pub read_at_lem :
    (at n : ℕ) (p : Page) (bytes : List ℕ)
    → IsValid p
    → 0 < n
    → at + n ≤ p.size - p.space
    → load at n p.block ≡ some bytes
    → read at n p ≡ some (n, bytes)
read_at_lem at n p bytes v pos room e =
    let here : at % p.size ≡ at = mod-eq_of_lt (omega (arith, pos, room)) in
    read_inside at n p v (omega (arith, here, room)) ∙ rw (here, e) refl

-- The last turn of the loop of `get`.
get_loop_last :
    (garbage : ℕ → List ℕ) (fuel n : ℕ) (bytes : List ℕ) (r : Reading)
    → IsValid r.page
    → length bytes ≡ suc n
    → r.at ≡ 0
    → length r.bytes ≡ suc n
    → r.offset + suc n ≤ r.page.size - r.page.space
    → load r.offset (suc n) r.page.block ≡ some bytes
    → get_loop garbage (suc fuel) (suc n) r
      ≡ returned (record r { at = r.at + suc n; bytes = bytes })
unfolding get_loop get_turn get_more
get_loop_last garbage fuel n bytes r v e first whole room body =
    let k : min (r.page.size - r.offset) (suc n) ≡ suc n = omega (arith, room) in
    let inside : ltb r.page.size r.offset ≡ false = ground (arith, room) in
    let none_left : suc n - suc n ≡ 0 = omega arith in
    rw
      (
        inside,
        k,
        read_at_lem r.offset (suc n) r.page bytes v (omega arith) room body,
        first,
        store_whole bytes r.bytes (whole ∙ sym e),
        none_left,
      )
      refl

-- The length and the bytes of a stream in a page are found.
pub get_content_lem :
    (garbage : ℕ → List ℕ) (fuel n : ℕ) (t : MemStream) (bytes : List ℕ) (at : ℕ) (p : Page)
    (m : Manager)
    → IsValid p
    → length bytes ≡ suc n
    → length bytes < 2 ^ 31
    → at + 4 + length bytes ≤ p.size - p.space
    → load at 4 p.block ≡ some (put_int (length bytes))
    → load (at + 4) (length bytes) p.block ≡ some bytes
    → get_content garbage (suc fuel) t at p m
      ≡ returned (true, record { buf = bytes; pos = 0 }, held p m)
unfolding get_content
get_content_lem garbage fuel k t bytes at p m v e few room head body =
    let size : get_int (put_int (length bytes)) ≡ length bytes =
      ap get_int (sym (append-nil (put_int (length bytes))))
      ∙ get_int-put_int (length bytes) [] (omega (arith, few)) in
    let int : ltb (length bytes) (2 ^ 31) ≡ true = ground (arith, few) in
    let (r, l) = resize_lem (length bytes) t in
    let start : Reading = record {
      offset = at + 4;
      at = 0;
      bytes = resized t.buf (length bytes);
      page = p;
      manager = m;
    } in
    let loop : get_loop garbage (suc fuel) (length bytes) start
        ≡ returned (record start { at = 0 + suc k; bytes = bytes }) =
      subst
        (λ (n : ℕ).
          get_loop garbage (suc fuel) n start
          ≡ returned (record start { at = 0 + suc k; bytes = bytes }))
        (sym e)
        (get_loop_last garbage fuel k bytes start v e refl (l ∙ e) (omega (arith, room, e))
          (subst (λ (n : ℕ). load (at + 4) n p.block ≡ some bytes) e body)) in
    rw
      (
        read_at_lem at 4 p (put_int (length bytes)) v (omega arith) (omega (arith, room)) head,
        size,
        int,
        r,
        loop,
      )
      refl

-- The page with a stream behind what it holds.
abbrev pub stored : List ℕ → Page → Page
stored bytes p = written bytes (written (put_int (length bytes)) p)

pub stored-IsValid :
    (bytes : List ℕ) (p : Page) → IsValid p → length bytes + 4 ≤ p.space → IsValid (stored bytes p)
stored-IsValid bytes p v h =
    let l = length-put_int (length bytes) in
    let w = written-IsValid (put_int (length bytes)) p v (omega (arith, l, h)) in
    written-IsValid bytes (written (put_int (length bytes)) p) w (omega (arith, l, h))

-- The length and the bytes are where the free space began, and `push` leaves them there.
pub load-stored :
    (bytes : List ℕ) (p : Page)
    → IsValid p
    → length bytes + 4 ≤ p.space
    → let at = p.size - p.space in
      (load at 4 (pushed (stored bytes p)) ≡ some (put_int (length bytes)))
      × (load (at + 4) (length bytes) (pushed (stored bytes p)) ≡ some bytes)
unfolding put_int
load-stored bytes p v h =
    let at = p.size - p.space in
    let head = put_int (length bytes) in
    let l = length-put_int (length bytes) in
    let q = stored bytes p in
    let vq = stored-IsValid bytes p v h in
    let one = written head p in
    let v1 = written-IsValid head p v (omega (arith, l, h)) in
    let next : p.size - (p.space - length head) ≡ at + 4 = omega (arith, l, h, v.space) in
    let room : at + length head ≤ length p.block = omega (arith, l, h, v.space, v.block) in
    let room1 : at + 4 + length bytes ≤ length one.block =
      omega (arith, l, h, v1.space, v1.block) in
    (
      load-pushed q at 4 vq (omega (arith, v.space)) (omega (arith, v.space, h))
          ∙ rw (next, load-replaced_before (at + 4) bytes one.block at 4 room1 (omega arith))
              (load-replaced_same at head p.block room),
      load-pushed q (at + 4) (length bytes) vq (omega (arith, v.space)) (omega (arith, v.space, h))
          ∙ rw next (load-replaced_same (at + 4) bytes one.block room1),
    )

-- A stream that fits the last page of its file is written to it whole, and the page is saved.
pub put_lem :
    (garbage : ℕ → List ℕ) (key : PageKey) (min_unit fuel : ℕ) (t : MemStream) (p : Page)
    (m : Manager)
    → IsValid p
    → get_last_page_no key m.inner ≡ p.pageno
    → m.writable ≡ true
    → p.size ≡ m.inner.page_size
    → p.pageno * p.size < 2 ^ 31
    → 0 < length t.buf
    → length t.buf + 4 ≤ p.space
    → let q = stored t.buf p in
      put garbage key min_unit fuel t (held p m)
      ≡ returned (
        some (p.size - p.space + p.pageno * p.size),
        held
            (record q { block = pushed q; modify = false })
            (record m {
              cache = record m.cache {
                file = put_bytes (p.pageno * p.size) (pushed q) m.cache.file;
              };
            }),
      )
unfolding put put_found Put.put_bytes put_whole start get_page_by_page_no load_page get_space_offset
    get_file_offset
put_lem garbage key min_unit fuel t p m v last w e small pos h =
    let self : (p.pageno == p.pageno) ≡ true = ground arith in
    let some_bytes : (length t.buf == 0) ≡ false = ground (arith, pos) in
    let fits : leb (length t.buf + 4) p.space ≡ true = ground (arith, h) in
    let l = length-put_int (length t.buf) in
    let at : sub16 p.size p.space ≡ p.size - p.space = omega (arith, v.space, v.size) in
    let off : u32 (p.pageno * p.size) ≡ p.pageno * p.size = omega (arith, small) in
    let v1 = written-IsValid (put_int (length t.buf)) p v (omega (arith, l, h)) in
    let first = write_fits (put_int (length t.buf)) p v (omega (arith, l, h)) (omega (arith, h)) in
    let second =
      write_fits t.buf (written (put_int (length t.buf)) p) v1 (omega (arith, l, h))
        (omega (arith, l, h, pos)) in
    let saved = save_lem (stored t.buf p) m (stored-IsValid t.buf p v h) refl w e small in
    rw (last, self, some_bytes, fits, first, second, at, off, saved) refl
