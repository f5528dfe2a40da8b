-- ===== src/Page.antt =====
-- The pages of jni/KvDB/SMDPage.h: a block of `size` bytes with a header (behind a file flag on page
-- 0), the bytes in use, and `space` free bytes at the end. `unsigned short` is a number below 2 ^ 16
-- and `unsigned int` one below 2 ^ 32. `none` is a failed `assert`, or an access that leaves the
-- block.
pub mod Inv
pub mod Head
pub mod Content
pub mod Life
mod Tests
use leveldblib.Prelude.{
  ℕ, ◌+◌, ◌-◌, ◌*◌, ◌%◌, ◌^◌, Bool, true, Option, none, some, List, [], ◌∷◌, ltb, leb, ◌==◌, ◌++◌,
  if◌then◌else◌, length, take, replicate, min,
}
use leveldblib.Value.{put_int, put_short, get_int, get_short}
use leveldblib.Memory.{load, store}

-- `SMDPage` with the fields of its `SMDPageHead`.
pub record Page : Type 0 where
  pub modify : Bool
  pub size : ℕ
  pub pageno : ℕ
  pub block : List ℕ
  pub space : ℕ
  pub reserve1 : ℕ
  pub reserve2 : ℕ
  pub next : ℕ

-- `STORAGE_FLAG`, "SMDTABLE"
abbrev pub storage_flag : List ℕ
storage_flag = 83 ∷ 77 ∷ 68 ∷ 84 ∷ 65 ∷ 66 ∷ 76 ∷ 69 ∷ []

abbrev pub flag_length : ℕ
flag_length = 16

-- `sizeof(SMDPageHead)`
abbrev pub head_size : ℕ
head_size = 12

abbrev pub no_page : ℕ
no_page = 0xffff_ffff

abbrev pub u16 : ℕ → ℕ
u16 n = n % 2 ^ 16

abbrev pub u32 : ℕ → ℕ
u32 n = n % 2 ^ 32

-- `x - y` in `unsigned short`, for `x` and `y` of that type or small constants.
abbrev pub sub16 : ℕ → ℕ → ℕ
sub16 x y = u16 (x + 2 ^ 16 - y)

-- A chain of accesses: `m`, and `k` on its result unless it faults.
infixl 20 ◌>>=◌
abbrev pub ◌>>=◌ {ℓ κ} : {A : Type ℓ} {B : Type κ} → Option A → (A → Option B) → Option B
none >>= k = none
some a >>= k = k a

-- `checkFirstPage`; `strcpy` writes the closing 0 too.
unfoldable pub check_first_page : Page → Option Page
unfolding store
check_first_page p =
    if p.pageno == 0
    then (store 0 (storage_flag ++ (0 ∷ [])) p.block >>= λ buffer.
        some (record p { block = buffer; space = sub16 (sub16 p.size head_size) flag_length }))
    else some p

-- `SMDPage(size, pageno)`
unfoldable pub new : ℕ → ℕ → Option Page
unfolding check_first_page
new size pageno = check_first_page (record {
  modify = true;
  size = size;
  pageno = pageno;
  block = replicate size 0;
  space = sub16 size head_size;
  reserve1 = 0;
  reserve2 = 0;
  next = no_page;
})

-- `reset`; the block keeps its length.
unfoldable pub reset : ℕ → ℕ → Page → Option Page
unfolding check_first_page
reset size pageno p = check_first_page (record {
  modify = true;
  size = size;
  pageno = pageno;
  block = replicate (length p.block) 0;
  space = sub16 size head_size;
  reserve1 = 0;
  reserve2 = 0;
  next = no_page;
})

unfoldable pub free_space : Page → Option Page
unfolding check_first_page
free_space p = check_first_page (record p {
  modify = true;
  space = sub16 p.size head_size;
  block = replicate (length p.block) 0;
})

abbrev pub head_offset : Page → ℕ
head_offset p = if p.pageno == 0 then flag_length else 0

-- A `short` in an `unsigned int`: the sign is extended.
abbrev pub from_short : ℕ → ℕ
from_short n = if ltb n (2 ^ 15) then n else n + (2 ^ 32 - 2 ^ 16)

-- `pop`: the header from the block.
unfoldable pub pop : Page → Option Page
unfolding load
pop p =
    let at = head_offset p in
    load at 4 p.block >>= λ n. load (at + 4) 2 p.block >>= λ s. load (at + 6) 2 p.block >>= λ r1.
    load (at + 10) 2 p.block >>= λ r2. some (record p {
      next = get_int n;
      space = get_short s;
      reserve1 = get_short r1;
      reserve2 = from_short (get_short r2);
    })

-- `push`: the header to the block. The last field written is `reserve1` a second time.
unfoldable pub push : Page → Option Page
unfolding store
push p =
    let at = head_offset p in
    (if p.pageno == 0 then store 0 storage_flag p.block else some p.block) >>= λ b0.
    store at (put_int p.next) b0 >>= λ b1. store (at + 4) (put_short p.space) b1 >>= λ b2.
    store (at + 6) (put_short p.reserve1) b2 >>= λ b3.
    store (at + 10) (put_short p.reserve1) b3 >>= λ b4. some (record p { block = b4 })

unfoldable pub set_modify : Bool → Page → Page
set_modify m p = record p { modify = m }

unfoldable pub set_next_page_no : ℕ → Page → Page
set_next_page_no n p = record p { next = n; modify = true }

unfoldable pub is_last_page : Page → Bool
is_last_page p = p.next == no_page

unfoldable pub get_file_offset : Page → ℕ
get_file_offset p = u32 (p.pageno * p.size)

unfoldable pub get_content_offset : Page → ℕ
get_content_offset p =
    if p.pageno == 0
    then u32 (p.pageno * p.size + head_size + flag_length)
    else u32 (p.pageno * p.size + head_size)

unfoldable pub get_space_offset : Page → ℕ
get_space_offset p = sub16 p.size p.space

-- `getOffsetToEndSize`
unfoldable pub get_offset_to_end_size : ℕ → Page → ℕ
get_offset_to_end_size offset p = p.size - offset % p.size

-- `read`: the number of bytes, and the bytes. The size of a page is not 0.
unfoldable pub read : ℕ → ℕ → Page → Option (ℕ × List ℕ)
unfolding get_space_offset load
read offset sz p =
    let page_offset = offset % p.size in
    let n =
      if ltb (get_space_offset p) (u32 (page_offset + sz))
      then sub16 (get_space_offset p) page_offset
      else sz in
    load page_offset n p.block >>= λ bytes. some (n, bytes)

-- `write(buffer, sz)`, on the bytes of `buffer`: the number of bytes written.
unfoldable pub write : List ℕ → Page → Option (ℕ × Page)
unfolding get_space_offset store
write buffer p =
    let wr = min p.space (length buffer) in
    if p.space == 0
    then some (0, p)
    else store (get_space_offset p) (take wr buffer) p.block >>= λ b.
        some (wr, record p { block = b; space = p.space - wr; modify = true })

-- `write(buffer, sz, offset)`
unfoldable pub write_at : List ℕ → ℕ → Page → Option (ℕ × Page)
unfolding store
write_at buffer offset p =
    let at = offset % p.size in
    if leb (length buffer) (p.size - at)
    then (store at buffer p.block >>= λ b.
        some (length buffer, record p { block = b; modify = true }))
    else none
