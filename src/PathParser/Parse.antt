-- ===== src/PathParser/Parse.antt =====
-- jni/leveldb/util/PathParser.h: how `parseFilePath` divides a path, and what `formatDir` makes of a
-- directory.
use leveldblib.Prelude.{
  ℕ, suc, ◌+◌, ◌<◌, ◌≡◌, ◌≢◌, refl, sym, subst, true, false, Option, none, some, [], ◌∷◌, ◌++◌,
  length, take, drop, take-append-drop, arith, Option-cases, inl, inr, ◌⊎◌, ◌↔◌,
}
use leveldblib.PathParser.{
  FilePath, slash, Parts, find_last_slash, split_at, parse_formatted, parse_file_path,
  format_file_path, last_or, closed, format_dir,
}
use leveldblib.PathParser.Normal.{IsNormal, format_file_path-IsNormal, format_file_path_of_IsNormal}

abbrev pub NoSlash : FilePath → Type 0
NoSlash [] = Unit {0}
NoSlash (a ∷ path) = (a ≢ slash) × NoSlash path

NoSlash-none : (path : FilePath) → find_last_slash path ≡ none → NoSlash path
unfolding find_last_slash
NoSlash-none [] h = tt
NoSlash-none (a ∷ path) h = elim (Option-cases (find_last_slash path)) [
  | inl e ↦ (ground arith, NoSlash-none path e)
  | inr (i, e) ↦ absurd (ground arith)
]

NoSlash-drop :
    (path : FilePath) (i : ℕ) → find_last_slash path ≡ some i → NoSlash (drop (suc i) path)
unfolding find_last_slash
NoSlash-drop [] i h = tt
NoSlash-drop (a ∷ path) i h = elim (Option-cases (find_last_slash path)) [
  | inl e ↦
      let p : 0 ≡ i = ground arith in subst (λ k. NoSlash (drop k path)) p (NoSlash-none path e)
  | inr (j, e) ↦
      let p : suc j ≡ i = ground arith in
      subst (λ k. NoSlash (drop k path)) p (NoSlash-drop path j e)
]

last_or-take :
    (path : FilePath) (i d : ℕ)
    → find_last_slash path ≡ some i
    → last_or (take (suc i) path) d ≡ slash
unfolding find_last_slash last_or
last_or-take [] i d h = absurd (ground arith)
last_or-take (a ∷ path) i d h = elim (Option-cases (find_last_slash path)) [
  | inl e ↦
      let p : 0 ≡ i = ground arith in
      let q : a ≡ slash = ground arith in subst (λ k. last_or (take k path) a ≡ slash) p q
  | inr (j, e) ↦
      let p : suc j ≡ i = ground arith in
      subst (λ k. last_or (take k path) a ≡ slash) p (last_or-take path j a e)
]

NoSlash-find : (path : FilePath) → NoSlash path → find_last_slash path ≡ none
unfolding find_last_slash
NoSlash-find [] h = refl
NoSlash-find (a ∷ path) h = ground (arith, NoSlash-find path h.1)

IsNormal-prefix : (xs ys : FilePath) → IsNormal (xs ++ ys) → IsNormal xs
IsNormal-prefix [] ys h = tt
IsNormal-prefix (a ∷ []) [] h = h
IsNormal-prefix (a ∷ []) (b ∷ ys) h = h.0
IsNormal-prefix (a ∷ b ∷ xs) ys h = (h.0, h.1, IsNormal-prefix (b ∷ xs) ys h.2)

-- What `parseFilePath` promises of a path with the normal form `out`.
pub record Divides (out : FilePath) (parts : Parts) : Type 0 where
  pub whole : parts.dir ++ parts.name ≡ out
  pub dir_closed : last_or parts.dir 0 ≡ slash
  pub name_plain : NoSlash parts.name

split_at-Divides :
    (out : FilePath) (before : Parts) (o : Option ℕ)
    → find_last_slash out ≡ o
    → (split_at out before o).0 ≡ true
    → Divides out (split_at out before o).1
unfolding split_at
split_at-Divides out before none e h = absurd (ground arith)
split_at-Divides out before (some i) e h =
    let s : suc i ≡ i + 1 = omega arith in
    record {
      whole = take-append-drop (i + 1) out;
      dir_closed = subst (λ k. last_or (take k out) 0 ≡ slash) s (last_or-take out i 0 e);
      name_plain = subst (λ k. NoSlash (drop k out)) s (NoSlash-drop out i e);
    }

parse_formatted-Divides :
    (path : FilePath) (before : Parts) (o : Option FilePath)
    → format_file_path path ≡ o
    → (parse_formatted before o).0 ≡ true
    → (out : FilePath) × (format_file_path path ≡ some out)
      × Divides out (parse_formatted before o).1
unfolding parse_formatted
parse_formatted-Divides path before none e h = absurd (ground arith)
parse_formatted-Divides path before (some out) e h =
    (out, e, split_at-Divides out before (find_last_slash out) refl h)

-- A successful `parseFilePath` divides the path's normal form into a directory that ends in a
-- slash and a name without one.
pub parse_file_path-Divides :
    (path : FilePath) (before : Parts)
    → (parse_file_path path before).0 ≡ true
    → (out : FilePath) × (format_file_path path ≡ some out)
      × Divides out (parse_file_path path before).1
unfolding parse_file_path
parse_file_path-Divides path before h =
    parse_formatted-Divides path before (format_file_path path) refl h

format_dir_of_closed :
    (dir : FilePath)
    → IsNormal dir
    → 1 < length dir
    → last_or dir 0 ≡ slash
    → format_dir dir ≡ some dir
unfolding format_dir closed
format_dir_of_closed dir n l c = ground (arith, format_file_path_of_IsNormal dir n l)

-- If `parseFilePath` succeeds and the directory is not the root, `formatDir` leaves the directory
-- as it is.
pub format_dir-parse_file_path :
    (path : FilePath) (before : Parts)
    → (parse_file_path path before).0 ≡ true
    → 1 < length (parse_file_path path before).1.dir
    → format_dir (parse_file_path path before).1.dir ≡ some (parse_file_path path before).1.dir
format_dir-parse_file_path path before h l =
    let (out, e, d) = parse_file_path-Divides path before h in
    let parts = (parse_file_path path before).1 in
    let n = subst IsNormal (sym d.whole) (format_file_path-IsNormal path e) in
    format_dir_of_closed parts.dir (IsNormal-prefix parts.dir parts.name n) l d.dir_closed

split_at-eq-false :
    (out : FilePath) (before : Parts) (o : Option ℕ)
    → find_last_slash out ≡ o
    → (split_at out before o).0 ≡ false
    → NoSlash out
unfolding split_at
split_at-eq-false out before none e h = NoSlash-none out e
split_at-eq-false out before (some i) e h = absurd (ground arith)

parse_formatted-eq-false :
    (path : FilePath) (before : Parts) (o : Option FilePath)
    → format_file_path path ≡ o
    → (parse_formatted before o).0 ≡ false
    → (format_file_path path ≡ none)
      ⊎ ((out : FilePath) × (format_file_path path ≡ some out) × NoSlash out)
unfolding parse_formatted
parse_formatted-eq-false path before none e h = inl e
parse_formatted-eq-false path before (some out) e h =
    inr (out, e, split_at-eq-false out before (find_last_slash out) refl h)

-- `parseFilePath` fails exactly where the path has no normal form, or one without a slash.
pub parse_file_path-eq-false :
    (path : FilePath) (before : Parts)
    → ((parse_file_path path before).0 ≡ false) ↔ (
        (format_file_path path ≡ none)
        ⊎ ((out : FilePath) × (format_file_path path ≡ some out) × NoSlash out))
unfolding parse_file_path parse_formatted split_at
parse_file_path-eq-false path before = (
  parse_formatted-eq-false path before (format_file_path path) refl,
  elim [ inl e ↦ rw e | inr (out, e, n) ↦ rw (e, NoSlash-find out n) ],
)
