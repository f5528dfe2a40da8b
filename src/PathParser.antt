-- ===== src/PathParser.antt =====
-- jni/leveldb/util/PathParser.h: normal forms of paths. A path is the list of its bytes. Each
-- method returns its `bool` with the values of its out parameters, which it may set on failure too.
pub mod Normal
pub mod Parse
mod Tests
use leveldblib.Prelude.{
  ℕ, ◌+◌, Bool, true, false, ◌&&◌, Option, none, some, List, [], ◌∷◌, ◌++◌, map, length, take, drop,
  leb, ◌==◌, if◌then◌else◌,
}

abbrev pub FilePath : Type 0
FilePath = List ℕ

abbrev pub slash : ℕ
slash = b'/'

abbrev pub backslash : ℕ
backslash = b'\\'

-- `out[i] = '/'` where it is `'\\'`
unfoldable pub forward : ℕ → ℕ
forward c = if c == backslash then slash else c

-- The second loop, on the bytes from `i` on: of two slashes in a row the first is cut out, and the
-- index stays.
unfoldable pub squeeze : FilePath → FilePath
squeeze [] = []
squeeze (a ∷ []) = a ∷ []
squeeze (a ∷ b ∷ path) =
    let rest = squeeze (b ∷ path) in if a == slash && b == slash then rest else a ∷ rest

-- `none` is the result false, which leaves `out` alone.
unfoldable pub format_file_path : FilePath → Option FilePath
format_file_path path = if leb (length path) 1 then none else some (squeeze (map forward path))

-- `out[out.length() - 1]`; `format_file_path` never gives an empty path.
unfoldable pub last_or : FilePath → ℕ → ℕ
last_or [] d = d
last_or (a ∷ path) d = last_or path a

unfoldable pub closed : FilePath → FilePath
closed path = if last_or path 0 == slash then path else path ++ (slash ∷ [])

unfoldable pub format_dir : FilePath → Option FilePath
format_dir path = elim (format_file_path path) [ none ↦ none | some out ↦ some (closed out) ]

-- `find_last_of('/')`
unfoldable pub find_last_slash : FilePath → Option ℕ
find_last_slash [] = none
find_last_slash (a ∷ path) = elim (find_last_slash path) [
  | some i ↦ some (i + 1)
  | none ↦ if a == slash then some 0 else none
]

-- The out parameters `filePath` and `fileName`.
pub record Parts : Type 0 where
  pub dir : FilePath
  pub name : FilePath

unfoldable pub split_at : FilePath → Parts → Option ℕ → Bool × Parts
split_at path before none = (false, record before { name = path })
split_at path before (some i) = (true, record { dir = take (i + 1) path; name = drop (i + 1) path })

unfoldable pub parse_formatted : Parts → Option FilePath → Bool × Parts
parse_formatted before none = (false, before)
parse_formatted before (some out) = split_at out before (find_last_slash out)

-- `before` is what the out parameters hold at the call.
unfoldable pub parse_file_path : FilePath → Parts → Bool × Parts
unfolding parse_formatted
parse_file_path path before = parse_formatted before (format_file_path path)
