-- ===== src/PathParser/Normal.antt =====
-- jni/leveldb/util/PathParser.h: what the normal form of a path is.
use leveldblib.Prelude.{
  ℕ, ◌<◌, ◌≡◌, ◌≢◌, refl, ap₂, subst, ◌&&◌, some, [], ◌∷◌, map, length, leb, ◌==◌, arith,
  Bool-cases, inl, inr,
}
use leveldblib.PathParser.{FilePath, slash, backslash, forward, squeeze, format_file_path}

-- No backslash, and no two slashes in a row.
abbrev pub IsNormal : FilePath → Type 0
IsNormal [] = Unit {0}
IsNormal (a ∷ []) = a ≢ backslash
IsNormal (a ∷ b ∷ path) = (a ≢ backslash) × (¬ ((a ≡ slash) × (b ≡ slash))) × IsNormal (b ∷ path)

abbrev NoBackslash : FilePath → Type 0
NoBackslash [] = Unit {0}
NoBackslash (a ∷ path) = (a ≢ backslash) × NoBackslash path

map-forward : (path : FilePath) → NoBackslash (map forward path)
unfolding forward
map-forward [] = tt
map-forward (a ∷ path) = (ground arith, map-forward path)

-- What is squeezed begins as before.
squeeze_head : (a : ℕ) (path : FilePath) → (rest : FilePath) × (squeeze (a ∷ path) ≡ a ∷ rest)
unfolding squeeze
squeeze_head a [] = ([], refl)
squeeze_head a (b ∷ path) =
    let (rest, e) = squeeze_head b path in
    elim (Bool-cases (a == slash && b == slash)) [
      | inl t ↦ (rest, ground arith)
      | inr f ↦ (squeeze (b ∷ path), ground arith)
    ]

pub squeeze-IsNormal : (path : FilePath) → NoBackslash path → IsNormal (squeeze path)
unfolding squeeze
squeeze-IsNormal [] h = tt
squeeze-IsNormal (a ∷ []) h = h.0
squeeze-IsNormal (a ∷ b ∷ path) h =
    let (rest, e) = squeeze_head b path in
    let ih = squeeze-IsNormal (b ∷ path) h.1 in
    elim (Bool-cases (a == slash && b == slash)) [
      | inl t ↦ rw t ih
      | inr f ↦ rw f (rw e (h.0, ground arith, rw e at ih))
    ]

-- A normal path is left as it is.
pub squeeze_of_IsNormal : (path : FilePath) → IsNormal path → squeeze path ≡ path
unfolding squeeze
squeeze_of_IsNormal [] h = refl
squeeze_of_IsNormal (a ∷ []) h = refl
squeeze_of_IsNormal (a ∷ b ∷ path) h = ground (arith, squeeze_of_IsNormal (b ∷ path) h.2)

map-forward_of_IsNormal : (path : FilePath) → IsNormal path → map forward path ≡ path
unfolding forward
map-forward_of_IsNormal [] h = refl
map-forward_of_IsNormal (a ∷ []) h = ground arith
map-forward_of_IsNormal (a ∷ b ∷ path) h =
    ap₂ ◌∷◌ (ground arith) (map-forward_of_IsNormal (b ∷ path) h.2)

-- Formatting keeps nothing but the path's normal form: the result of `formatFilePath` is normal,
-- and a normal path of two bytes or more is its own result.
pub format_file_path-IsNormal :
    (path : FilePath) {out : FilePath} → format_file_path path ≡ some out → IsNormal out
unfolding format_file_path
format_file_path-IsNormal path {out} e =
    let n = squeeze-IsNormal (map forward path) (map-forward path) in
    elim (Bool-cases (leb (length path) 1)) [
      | inl t ↦ ground arith
      | inr f ↦ subst IsNormal (ground arith) n
    ]

pub format_file_path_of_IsNormal :
    (path : FilePath) → IsNormal path → 1 < length path → format_file_path path ≡ some path
unfolding format_file_path
format_file_path_of_IsNormal path n h =
    rw (map-forward_of_IsNormal path n, squeeze_of_IsNormal path n) (ground arith)

-- A formatted path of two bytes or more does not change when it is formatted again.
pub format_file_path_twice :
    (path out : FilePath)
    → format_file_path path ≡ some out
    → 1 < length out
    → format_file_path out ≡ some out
format_file_path_twice path out e h =
    format_file_path_of_IsNormal out (format_file_path-IsNormal path e) h
