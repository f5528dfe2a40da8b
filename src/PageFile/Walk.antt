-- ===== src/PageFile/Walk.antt =====
-- Walking the pages of a file in jni/KvDB/SMDPageFile.cpp and SMDPageFile.h: clearing it, and the
-- offsets of its streams. An `int` offset that is -1 is `none`, and no other is negative.
use leveldblib.Prelude.{
  ℕ, zero, suc, ◌+◌, ◌-◌, ◌*◌, ◌%◌, ◌^◌, Bool, true, false, ◌&&◌, Option, none, some, List, ltb,
  ◌==◌, if◌then◌else◌,
}
use leveldblib.Page.{
  Page, u32, free_space, is_last_page, get_content_offset, get_space_offset, get_file_offset,
}
use leveldblib.PageTable.{PageKey}
use leveldblib.PageManager.{Manager}
use leveldblib.PageFile.{
  Run, returned, endless, lift, ◌>>=◌, State, held, save, get_next, set_to_first_page_file,
}

-- `IsEndOfPageSize`, in `unsigned int`.
unfoldable pub is_end_of_page_size : ℕ → ℕ → Page → Bool
is_end_of_page_size min_unit offset p =
    ltb (u32 ((p.pageno + 1) * p.size + 2 ^ 32 - offset)) min_unit

unfoldable pub get_head_size : Page → ℕ
unfolding get_content_offset get_file_offset
get_head_size p = u32 (get_content_offset p + 2 ^ 32 - get_file_offset p)

module _ (garbage : ℕ → List ℕ) where
  -- One turn of the loop of `clearPage`: whether there is another.
  unfoldable pub clear_turn : Page → Manager → Run (Bool × State)
  unfolding free_space is_last_page get_next
  clear_turn p m = do
    q ← lift (free_space p)
    (q1, m1) ← save q m
    if is_last_page q1 then returned (false, held q1 m1) else get_next garbage (held q1 m1)

  unfoldable pub clear_loop : ℕ → Bool → State → Run State
  unfolding clear_turn
  clear_loop fuel false s = returned s
  clear_loop zero true s = endless
  clear_loop (suc fuel) true s = do
    p ← lift s.page
    (more, t) ← clear_turn p s.manager
    clear_loop fuel more t

  unfoldable pub clear_page : PageKey → ℕ → State → Run (Bool × State)
  unfolding clear_loop set_to_first_page_file
  clear_page key fuel s = do
    (found, t) ← set_to_first_page_file garbage key s
    u ← clear_loop fuel true t
    returned (true, u)

  -- `getNextOffset` behind a stream: the place of the next one, or `none` at the end.
  unfoldable pub next_offset : ℕ → ℕ → Page → Manager → Run (Option ℕ × State)
  unfolding is_last_page get_space_offset is_end_of_page_size get_next get_content_offset
  next_offset min_unit offset p m =
      let next = get_next garbage (held p m) >>= λ (ok, s).
      lift s.page >>= λ q. returned (some (get_content_offset q), s) in
      if is_last_page p && offset % p.size == get_space_offset p
      then returned (none, held p m)
      else if is_end_of_page_size min_unit offset p
      then next
      else returned (some offset, held p m)

  unfoldable pub get_next_offset : PageKey → ℕ → Option ℕ → State → Run (Option ℕ × State)
  unfolding set_to_first_page_file next_offset get_content_offset
  get_next_offset key min_unit none s = do
    (found, t) ← set_to_first_page_file garbage key s
    p ← lift t.page
    returned (some (get_content_offset p), t)
  get_next_offset key min_unit (some offset) s = do
    p ← lift s.page
    next_offset min_unit offset p s.manager

  unfoldable pub get_page_file_begin_offset : PageKey → State → Run (ℕ × State)
  unfolding set_to_first_page_file get_content_offset
  get_page_file_begin_offset key s = begin s.page
    where
      begin : Option Page → Run (ℕ × State)
      begin none = do
        (found, t) ← set_to_first_page_file garbage key s
        p ← lift t.page
        returned (get_content_offset p, t)
      begin (some p) = returned (get_content_offset p, s)

  -- It is the offset of the free space that is compared, not the space.
  unfoldable pub get_page_file_space_offset : ℕ → State → Run (ℕ × State)
  unfolding get_next get_space_offset get_file_offset
  get_page_file_space_offset min_unit s = do
    p ← lift s.page
    (ok, t) ← (if ltb (get_space_offset p) min_unit then get_next garbage s else returned (true, s))
    q ← lift t.page
    returned (u32 (get_space_offset q + get_file_offset q), t)
