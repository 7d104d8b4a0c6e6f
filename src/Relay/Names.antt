-- ===== src/Relay/Names.antt =====
-- File names: `isSafeOutputName` of gateway/internal/relay/relay.go, and what it uses of Go's
-- path/filepath and strings on a system whose separator is the slash. A text is its list of bytes.
use one_click_agent.Prelude.{
  Bool, true, false, ◌&&◌, ◌||◌, not, List, [], ◌∷◌, ◌++◌, ◌==◌, if◌then◌else◌, ℕ, ◌+◌,
}
use one_click_agent.Model.{Bytes, bytes_eq}

abbrev pub dot_dot : Bytes
dot_dot = 46 ∷ 46 ∷ []

abbrev pub has_prefix : Bytes → Bytes → Bool
has_prefix [] xs = true
has_prefix (p ∷ ps) [] = false
has_prefix (p ∷ ps) (x ∷ xs) = let rest = has_prefix ps xs in (p == x) && rest

abbrev pub contains : Bytes → Bytes → Bool
contains ps [] = has_prefix ps []
contains ps (x ∷ xs) = let rest = contains ps xs in has_prefix ps (x ∷ xs) || rest

abbrev pub has_suffix : Bytes → Bytes → Bool
has_suffix ps [] = bytes_eq ps []
has_suffix ps (x ∷ xs) = let rest = has_suffix ps xs in bytes_eq ps (x ∷ xs) || rest

abbrev pub is_empty : Bytes → Bool
is_empty [] = true
is_empty (x ∷ xs) = false

abbrev pub prepend : ℕ → List Bytes → List Bytes
prepend x [] = (x ∷ []) ∷ []
prepend x (p ∷ ps) = (x ∷ p) ∷ ps

-- The texts between the slashes.
unfoldable pub split : Bytes → List Bytes
split [] = [] ∷ []
split (x ∷ xs) = let rest = split xs in if x == 47 then [] ∷ rest else prepend x rest

abbrev pub is_dot_dot : Bytes → Bool
is_dot_dot p = bytes_eq p dot_dot

-- `..` takes back the last part, or stays in front of a relative path.
abbrev pub up : Bool → List Bytes → List Bytes
up rooted [] = if rooted then [] else dot_dot ∷ []
up rooted (p ∷ ps) = if is_dot_dot p then dot_dot ∷ p ∷ ps else ps

abbrev pub walk_one : Bool → Bytes → List Bytes → List Bytes
walk_one rooted p stack =
    if is_empty p || bytes_eq p (46 ∷ [])
    then stack
    else (if is_dot_dot p then up rooted stack else p ∷ stack)

-- The parts that remain, the last one first.
unfoldable pub walk : Bool → List Bytes → List Bytes → List Bytes
walk rooted [] stack = stack
walk rooted (p ∷ ps) stack = walk rooted ps (walk_one rooted p stack)

abbrev pub is_rooted : Bytes → Bool
is_rooted name = has_prefix (47 ∷ []) name

-- The parts of a cleaned path, the last one first.
unfoldable pub clean_parts : Bytes → List Bytes
clean_parts name = walk (is_rooted name) (split name) []

-- The parts, given the last one first, with slashes between them.
unfoldable pub join_parts : List Bytes → Bytes → Bytes
join_parts [] rest = rest
join_parts (p ∷ []) rest = p ++ rest
join_parts (p ∷ q ∷ ps) rest = join_parts (q ∷ ps) (47 ∷ p ++ rest)

abbrev pub nonempty_path : Bool → Bytes → Bytes
nonempty_path true path = 47 ∷ path
nonempty_path false [] = 46 ∷ []
nonempty_path false (x ∷ xs) = x ∷ xs

-- `filepath.Clean`.
unfoldable pub clean : Bytes → Bytes
clean name = nonempty_path (is_rooted name) (join_parts (clean_parts name) [])

abbrev pub leaves : Bytes → Bool
leaves cleaned =
    bytes_eq cleaned (46 ∷ [])
    || bytes_eq cleaned dot_dot
    || has_prefix (46 ∷ 46 ∷ 47 ∷ []) cleaned
    || contains (47 ∷ 46 ∷ 46 ∷ 47 ∷ []) cleaned
    || has_suffix (47 ∷ 46 ∷ 46 ∷ []) cleaned

-- The conditions in the order of the code.
unfoldable pub is_safe_output_name : Bytes → Bool
is_safe_output_name name =
    not (is_empty name || contains (92 ∷ []) name || contains (0 ∷ []) name || is_rooted name)
    && not (leaves (clean name))

-- The name that `StageFile` keeps: the last part of the cleaned path.
unfoldable pub safe_name : Bytes → Bytes
safe_name name = elim (clean_parts name) [ [] ↦ 117 ∷ 112 ∷ 108 ∷ 111 ∷ 97 ∷ 100 ∷ [] | p ∷ ps ↦ p ]

-- `strings.EqualFold(filepath.Ext(name), ".zip")`: the name ends in `.zip`, in any case of its
-- letters.
abbrev pub lower : ℕ → ℕ
lower c = if (c == 90) || (c == 73) || (c == 80) then c + 32 else c

abbrev pub lowered : Bytes → Bytes
lowered [] = []
lowered (x ∷ xs) = lower x ∷ lowered xs

abbrev pub is_zip : Bytes → Bool
is_zip name = has_suffix (46 ∷ 122 ∷ 105 ∷ 112 ∷ []) (lowered name)
