-- ===== src/FileSystem/Names.antt =====
-- The names of the files of jni/leveldb/util/filesystem/VirtualMemFileSystem.cpp: comparing them,
-- and looking for a file by them.
use leveldblib.Prelude.{
  ℕ, true, false, not, ◌≡◌, refl, sym, ap, ap₂, subst, none, some, List, [], ◌∷◌, ◌++◌,
  if◌then◌else◌, arith, Bool-cases, inl, inr,
}
use leveldblib.Order.{is_none}
use leveldblib.PathParser.{FilePath, Parts}
use leveldblib.MemFile.{MemFile, seek}
use leveldblib.FileSystem.{same_bytes, same_parts, find_file, has_file, rewind_file}

pub same_bytes_refl : (a : FilePath) → same_bytes a a ≡ true
unfolding same_bytes
same_bytes_refl [] = refl
same_bytes_refl (a ∷ rest) = ground (arith, same_bytes_refl rest)

pub same_bytes-eq : (a b : FilePath) → same_bytes a b ≡ true → a ≡ b
unfolding same_bytes
same_bytes-eq [] [] h = refl
same_bytes-eq [] (b ∷ bs) h = absurd (ground (arith, h))
same_bytes-eq (a ∷ rest) [] h = absurd (ground (arith, h))
same_bytes-eq (a ∷ rest) (b ∷ bs) h =
    let e : a ≡ b = ground (arith, h) in
    let t : same_bytes rest bs ≡ true = ground (arith, h) in ap₂ ◌∷◌ e (same_bytes-eq rest bs t)

pub same_parts-eq : (p q : Parts) → same_parts p q ≡ true → p ≡ q
unfolding same_parts
same_parts-eq p q h =
    ap₂ (λ (d n : FilePath). record { dir = d; name = n })
      (same_bytes-eq p.dir q.dir (ground (arith, h)))
      (same_bytes-eq p.name q.name (ground (arith, h)))

pub has_file-find_file :
    (p : Parts) (files : List MemFile) → has_file p files ≡ not (is_none (find_file p files))
unfolding has_file find_file
has_file-find_file p [] = refl
has_file-find_file p (f ∷ files) = elim (Bool-cases (same_parts f.path p)) [
  | inl t ↦ rw t refl
  | inr e ↦ rw e (has_file-find_file p files)
]

-- The file behind the others is found if none of those is.
pub find_file-append :
    (p : Parts) (files : List MemFile) (f : MemFile)
    → has_file p files ≡ false
    → find_file p (files ++ (f ∷ [])) ≡ (if same_parts f.path p then some f else none)
unfolding find_file has_file
find_file-append p [] f h = refl
find_file-append p (g ∷ files) f h = elim (Bool-cases (same_parts g.path p)) [
  | inl t ↦ absurd (ground (arith, h, t))
  | inr e ↦ rw e (find_file-append p files f (ground (arith, h, e)))
]

pub find_file-append_other :
    (p : Parts) (files : List MemFile) (f : MemFile)
    → same_parts f.path p ≡ false
    → find_file p (files ++ (f ∷ [])) ≡ find_file p files
unfolding find_file
find_file-append_other p [] f h = rw h refl
find_file-append_other p (g ∷ files) f h = elim (Bool-cases (same_parts g.path p)) [
  | inl t ↦ rw t refl
  | inr e ↦ rw e (find_file-append_other p files f h)
]

seek_path : (n : ℕ) (f : MemFile) → (seek n f).1.path ≡ f.path
unfolding seek
seek_path n f = ground arith

-- A file that is found has the name that was looked for.
pub find_file-path :
    (p : Parts) (files : List MemFile) (f : MemFile) → find_file p files ≡ some f → f.path ≡ p
unfolding find_file
find_file-path p [] f h = absurd (ground (arith, h))
find_file-path p (g ∷ files) f h = elim (Bool-cases (same_parts g.path p)) [
  | inl t ↦
      let e : g ≡ f = ground (arith, h, t) in
      same_parts-eq f.path p (subst (λ (x : MemFile). same_parts x.path p ≡ true) e t)
  | inr e ↦ find_file-path p files f (ground (arith, h, e))
]

pub find_file-rewind_file :
    (p : Parts) (files : List MemFile) (f : MemFile)
    → find_file p files ≡ some f
    → find_file p (rewind_file p files) ≡ some (seek 0 f).1
unfolding find_file rewind_file
find_file-rewind_file p [] f h = absurd (ground (arith, h))
find_file-rewind_file p (g ∷ files) f h = elim (Bool-cases (same_parts g.path p)) [
  | inl t ↦
      let e : g ≡ f = ground (arith, h, t) in
      rw (t, seek_path 0 g, t) (ap (λ x. some (seek 0 x).1) e)
  | inr e ↦ rw (e, e) (find_file-rewind_file p files f (ground (arith, h, e)))
]

pub find_file-rewind_other :
    (p q : Parts) (files : List MemFile)
    → same_parts q p ≡ false
    → find_file p (rewind_file q files) ≡ find_file p files
unfolding find_file rewind_file
find_file-rewind_other p q [] h = refl
find_file-rewind_other p q (g ∷ files) h = elim (Bool-cases (same_parts g.path q)) [
  | inl t ↦
      let e : same_parts g.path p ≡ false =
        subst (λ (x : Parts). same_parts x p ≡ false) (sym (same_parts-eq g.path q t)) h in
      rw (t, seek_path 0 g, e) refl
  | inr e ↦ rw (e, find_file-rewind_other p q files h) refl
]
