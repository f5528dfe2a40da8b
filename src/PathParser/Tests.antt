-- ===== src/PathParser/Tests.antt =====
-- Runs of jni/leveldb/util/PathParser.h, and its theorems at concrete paths.
use leveldblib.Prelude.{◌≡◌, refl, some, none, true, false, List, ℕ, [], ◌∷◌, arith, ◌↔◌, ◌⊎◌}
use Prim.Native.String.{String}
use Prim.Native.Char.{code}
use leveldblib.PathParser.{
  FilePath, Parts, parse_file_path, format_file_path, format_dir, forward, squeeze, closed, last_or,
  find_last_slash, split_at,
}
use leveldblib.PathParser.Normal.{format_file_path_twice}
use leveldblib.PathParser.Parse.{
  Divides, NoSlash, parse_file_path-Divides, parse_file_path-eq-false, format_dir-parse_file_path,
}

abbrev codes : String → List ℕ
codes String.[] = []
codes (String.◌∷◌ c s) = code c ∷ codes s

abbrev nothing : Parts
nothing = record { dir = []; name = [] }

parser : Unit {0}
unfolding parse_file_path format_file_path format_dir forward squeeze closed last_or find_last_slash
    split_at
parser = tt

format_runs : format_file_path (codes "a\\\\b//c") ≡ some (codes "a/b/c")
unfolding parser
format_runs = refl

parse_runs :
    parse_file_path (codes "/db//x") nothing
    ≡ (true, record { dir = codes "/db/"; name = codes "x" })
unfolding parser
parse_runs = refl

-- The root directory has no normal form.
format_dir_root : format_dir (codes "/") ≡ none
unfolding parser
format_dir_root = refl

format_file_path_twice_example : format_file_path (codes "a/b/c") ≡ some (codes "a/b/c")
unfolding parser
format_file_path_twice_example =
    format_file_path_twice (codes "a\\\\b//c") (codes "a/b/c") refl (omega arith)

parse_file_path-Divides_example :
    (out : FilePath) × (format_file_path (codes "/db//x") ≡ some out)
    × Divides out (parse_file_path (codes "/db//x") nothing).1
unfolding parser
parse_file_path-Divides_example = parse_file_path-Divides (codes "/db//x") nothing refl

format_dir-parse_file_path_example :
    format_dir (parse_file_path (codes "/db//x") nothing).1.dir
    ≡ some (parse_file_path (codes "/db//x") nothing).1.dir
unfolding parser
format_dir-parse_file_path_example =
    format_dir-parse_file_path (codes "/db//x") nothing refl (omega arith)

parse_file_path-eq-false_example : ((parse_file_path (codes "plain") nothing).0 ≡ false) ↔ (
    (format_file_path (codes "plain") ≡ none)
    ⊎ ((out : FilePath) × (format_file_path (codes "plain") ≡ some out) × NoSlash out))
parse_file_path-eq-false_example = parse_file_path-eq-false (codes "plain") nothing
