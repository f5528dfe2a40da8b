-- ===== src/Page/Tests.antt =====
-- Runs of the pages of jni/KvDB/SMDPage.h, with 40 bytes a page.
use leveldblib.Prelude.{ℕ, ◌≡◌, refl, true, false, some, List, [], ◌∷◌, ◌++◌, replicate, arith}
use leveldblib.Page.{
  Page, no_page, storage_flag, new, check_first_page, get_space_offset, read, write, push, pop,
}
use leveldblib.Value.{put_int, put_short, get_short}
use leveldblib.Memory.{store}
use leveldblib.Page.Inv.{IsValid}
use leveldblib.Page.Head.{pop-push}
use leveldblib.Page.Content.{read-write, read-pop-push-write}
use leveldblib.Page.Life.{built, called, do_push, do_pop, do_write, Reach-Call}

abbrev fresh : Page
fresh = record {
  modify = true;
  size = 40;
  pageno = 1;
  block = replicate 40 0;
  space = 28;
  reserve1 = 7;
  reserve2 = 0;
  next = 5;
}

abbrev other : Page
other = record {
  modify = false;
  size = 40;
  pageno = 9;
  block = replicate 40 1;
  space = 3;
  reserve1 = 0;
  reserve2 = 4;
  next = no_page;
}

fresh-IsValid : IsValid fresh
fresh-IsValid = record { block = refl; room = omega arith; size = omega arith; space = omega arith }

-- A reserve that is negative as a `short`.
abbrev reserved : Page
reserved = record fresh { reserve1 = 0x8001 }

pop-push_example :
    (b : List ℕ) × (push reserved ≡ some (record reserved { block = b }))
    × (pop (record other { pageno = 1; block = b })
        ≡ some (record other {
          pageno = 1;
          block = b;
          next = 5;
          space = 28;
          reserve1 = 0x8001;
          reserve2 = 0xffff_8001;
        }))
pop-push_example =
    pop-push reserved other
      (record { block = refl; room = omega arith; size = omega arith; space = omega arith })
      (omega arith) (omega arith)

read-write_example :
    (q : Page) × (write (1 ∷ 2 ∷ 3 ∷ []) fresh ≡ some (3, q))
    × IsValid q
    × (read 52 3 q ≡ some (3, 1 ∷ 2 ∷ 3 ∷ []))
    × (read 40 12 q ≡ read 40 12 fresh)
read-write_example =
    read-write (1 ∷ 2 ∷ 3 ∷ []) fresh 52 40 12 fresh-IsValid (omega arith) refl (omega arith)

read-pop-push-write_example :
    (q : Page) × (write (1 ∷ 2 ∷ 3 ∷ []) fresh ≡ some (3, q))
    × (b : List ℕ) × (push q ≡ some (record q { block = b }))
    × (s : Page) × (pop (record other { size = 40; pageno = 1; block = b }) ≡ some s)
    × (read 52 3 s ≡ some (3, 1 ∷ 2 ∷ 3 ∷ []))
read-pop-push-write_example =
    read-pop-push-write (1 ∷ 2 ∷ 3 ∷ []) fresh other 52 fresh-IsValid (omega arith) refl
      (omega arith) (omega arith)

-- A new page 0 of 40 bytes.
abbrev page_zero : Page
page_zero = record {
  modify = true;
  size = 40;
  pageno = 0;
  block = storage_flag ++ replicate 32 0;
  space = 12;
  reserve1 = 0;
  reserve2 = 0;
  next = no_page;
}

-- It is written to and pushed.
abbrev page_pushed : Page
page_pushed = record page_zero {
  block =
      storage_flag
      ++ (replicate 8 0
          ++ (255 ∷ 255 ∷ 255 ∷ 255 ∷ 0 ∷ 10 ∷ [] ++ (replicate 6 0 ++ (1 ∷ 2 ∷ replicate 10 0))));
  space = 10;
}

Reach-Call_example :
    (b : Page) × (new 40 0 ≡ some b)
    × IsValid page_pushed
    × (q : Page) × (pop page_pushed ≡ some q)
    × IsValid q
    × (q.size ≡ 40)
unfolding new check_first_page store push write get_space_offset put_int put_short get_short
Reach-Call_example =
    Reach-Call 40 0 (omega arith) (omega arith)
      (called (called (built {p = page_zero} refl) (do_write (1 ∷ 2 ∷ []) (omega arith))) do_push)
      (do_pop (omega arith))
