-- ===== src/Io/Paths.antt =====
-- What the sources use of std::filesystem::path, on POSIX: a path is the list of its bytes, and a
-- slash separates its names.
use mathlib.Core.List.{foldl, reverse}
use ati_tcp_file_transfer.Base.{
  ℕ, ◌==◌, if◌then◌else◌, not, Bool, true, false, ◌&&◌, ◌||◌, bytes_eq,
}
use ati_tcp_file_transfer.Base.{List, [], ◌∷◌, ◌++◌}
use ati_tcp_file_transfer.Io.Files.{FilePath}

abbrev pub slash : ℕ
slash = b'/'

abbrev pub dot : List ℕ
dot = b'.' ∷ []

abbrev pub dot_dot : List ℕ
dot_dot = b'.' ∷ b'.' ∷ []

-- A byte put before the first of the names.
abbrev pub cons_first : ℕ → List (List ℕ) → List (List ℕ)
cons_first b [] = (b ∷ []) ∷ []
cons_first b (name ∷ names) = (b ∷ name) ∷ names

-- The names between the slashes; they are empty where two slashes meet and at either end.
unfoldable pub names_of : FilePath → List (List ℕ)
names_of [] = [] ∷ []
names_of (b ∷ p) = let names = names_of p in if b == slash then [] ∷ names else cons_first b names

-- The names with a slash between any two.
unfoldable pub join : List (List ℕ) → FilePath
join [] = []
join (name ∷ []) = name
join (name ∷ next ∷ names) = name ++ slash ∷ join (next ∷ names)

-- `is_absolute()`
unfoldable pub is_absolute : FilePath → Bool
is_absolute [] = false
is_absolute (b ∷ p) = b == slash

unfoldable pub is_empty : FilePath → Bool
is_empty [] = true
is_empty (b ∷ p) = false

unfoldable pub ends_with_slash : FilePath → Bool
ends_with_slash [] = false
ends_with_slash (b ∷ []) = b == slash
ends_with_slash (b ∷ c ∷ p) = ends_with_slash (c ∷ p)

-- `p / rel` for a relative path that is not empty.
unfoldable pub append : FilePath → FilePath → FilePath
append p rel = if is_empty p || ends_with_slash p then p ++ rel else p ++ slash ∷ rel

-- One name of the path under `lexically_normal`, on the names that are kept, the last one first.
unfoldable pub keep_name : Bool → List (List ℕ) → List ℕ → List (List ℕ)
keep_name absolute kept name =
    if is_empty name || bytes_eq name dot
    then kept
    else if not (bytes_eq name dot_dot)
    then name ∷ kept
    else elim kept [
      | [] ↦ if absolute then [] else name ∷ []
      | top ∷ below ↦ if bytes_eq top dot_dot then name ∷ top ∷ below else below
    ]

unfoldable pub normal_names : FilePath → List (List ℕ)
unfolding keep_name
normal_names p = foldl (keep_name (is_absolute p)) [] (names_of p)

abbrev pub last_name : List (List ℕ) → List ℕ
last_name [] = []
last_name (name ∷ []) = name
last_name (name ∷ next ∷ names) = last_name (next ∷ names)

-- Whether the path names a directory by its last name: none, a dot or two dots.
unfoldable pub is_directory_form : FilePath → Bool
is_directory_form p =
    let name = last_name (names_of p) in is_empty name || bytes_eq name dot || bytes_eq name dot_dot

unfoldable pub top_is_name : List (List ℕ) → Bool
top_is_name [] = false
top_is_name (top ∷ below) = not (bytes_eq top dot_dot)

-- `lexically_normal()`
unfoldable pub lexically_normal : FilePath → FilePath
lexically_normal p =
    let kept = normal_names p in
    let body = join (reverse kept) in
    let ending : FilePath = if is_directory_form p && top_is_name kept then slash ∷ [] else [] in
    if is_empty p
    then []
    else if is_absolute p
    then slash ∷ (body ++ ending)
    else if is_empty body
    then dot
    else body ++ ending

-- `s.rfind(prefix, 0) == 0`
unfoldable pub starts_with : List ℕ → List ℕ → Bool
starts_with [] s = true
starts_with (b ∷ prefix) [] = false
starts_with (b ∷ prefix) (c ∷ s) = b == c && starts_with prefix s
