-- ===== src/PageFile/Pages/Loop.antt =====
-- jni/KvDB/SMDPageFile.cpp: the loop of `put` behind the length, on a page file that can grow.
use leveldblib.Prelude.{
  ℕ, zero, suc, ◌+◌, ◌^◌, ◌≤◌, ◌<◌, ◌≡◌, refl, true, false, List, [], ◌∷◌, length, drop, min, ltb,
  arith, length-drop,
}
use leveldblib.Page.{Page}
use leveldblib.PageManager.{Manager}
use leveldblib.PageFile.{◌>>=◌}
use leveldblib.PageFile.Put.{Writing, put_loop, put_turn, put_fill}
use leveldblib.PageFile.Put.Growing.{succeeds, Succeeds, >>=-Succeeds, weaker, Growing, none_more}
use leveldblib.PageFile.Put.Turns.{Roomy}
use leveldblib.PageFile.Pages.Filled.{writing, Filled, whole, part, put_fill-Filled}
use leveldblib.PageFile.Pages.Landing.{Lands, whole-Lands, part-Lands}

module _ (garbage : ℕ → List ℕ) (n min_unit size offset : ℕ) where
  -- Where `k` turns of the loop end up.
  abbrev pub Ended : ℕ → Page → Manager → List ℕ → Writing → Type 0
  Ended k c m left v = (v.offset ≡ offset) × Lands n k c m left v

  -- The loop on a page with room.
  abbrev Looping : ℕ → Type 0
  Looping k =
      (left : List ℕ) (c : Page) (m : Manager)
      → Growing n k c m
      → c.reserve1 < 2 ^ 16
      → c.pageno ≤ m.inner.page_cnt
      → 0 < length left
      → length left ≤ k
      → Roomy garbage n min_unit c
      → Succeeds (Ended k c m left) (put_loop garbage min_unit size k left (writing offset c m))

  after_fill :
      (k : ℕ) (left : List ℕ) (c : Page) (m : Manager)
      → min_unit + 16 ≤ n
      → Growing n (suc k) c m
      → c.reserve1 < 2 ^ 16
      → c.pageno ≤ m.inner.page_cnt
      → length left ≤ k + min c.space 1
      → Looping k
      → (x : List ℕ × Writing) → Filled garbage n k offset left c m x
      → Succeeds (Ended (suc k) c m left) (put_loop garbage min_unit size k x.0 x.1)
  unfolding put_loop
  after_fill k left c m room g hr small enough loop _ (whole fits g1) =
      succeeds (refl, whole-Lands n (suc k) offset left c m g (none_more n k _ m g1) hr small fits)
  after_fill k left c m room g hr small enough loop _ (part {q} {m'} over g1 moved) =
      weaker
        (loop (drop c.space left) q m' moved.growing (omega (arith, moved.fresh))
          (omega (arith, moved.number, moved.count)) (omega (arith, length-drop c.space left, over))
          (omega (arith, length-drop c.space left, enough))
          (
            omega (arith, moved.space, room),
            omega (arith, moved.space, moved.growing.size, moved.growing.valid.room),
          ))
        λ v h. (h.0, part-Lands n k left c q m m' v g1 g.valid hr small over moved h.1)

  -- A turn that fills the page, and the turns behind it.
  pub fill_then :
      (k : ℕ) (left : List ℕ) (c : Page) (m : Manager)
      → min_unit + 16 ≤ n
      → Growing n (suc k) c m
      → (c.space ≡ 0 → c.modify ≡ true)
      → c.reserve1 < 2 ^ 16
      → c.pageno ≤ m.inner.page_cnt
      → length left ≤ k + min c.space 1
      → Looping k
      → Succeeds (Ended (suc k) c m left) (
          put_fill garbage size left (writing offset c m) >>= λ x.
          put_loop garbage min_unit size k x.0 x.1)
  fill_then k left c m room g full hr small enough loop =
      >>=-Succeeds (put_fill-Filled garbage n size k offset left c m g full)
        (after_fill k left c m room g hr small enough loop)

  pub put_loop-Ended : (k : ℕ) → min_unit + 16 ≤ n → Looping k
  unfolding put_loop put_turn
  put_loop-Ended k room [] c m g hr small some_bytes enough roomy =
      absurd (omega (arith, some_bytes))
  put_loop-Ended zero room (b ∷ bs) c m g hr small some_bytes enough roomy =
      absurd (omega (arith, enough))
  put_loop-Ended (suc k) room (b ∷ bs) c m g hr small some_bytes enough roomy =
      let fill : ltb c.space min_unit ≡ false = ground (arith, roomy.0) in
      rw fill (
        fill_then k (b ∷ bs) c m room g (λ none_free. absurd (omega (arith, none_free, roomy.1))) hr
          small (omega (arith, enough, roomy.1)) (put_loop-Ended k room))
