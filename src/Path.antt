-- ===== src/Path.antt =====
-- What the code uses of the standard library's `Path` and `str`, on Linux: the components of a path,
-- its parent and last name, and whether bytes are UTF-8.
use ferris_file_system.Prelude.{
  ℕ, zero, suc, Bool, true, false, ◌&&◌, Option, none, some, List, [], ◌∷◌, ◌++◌, ltb, leb, ◌==◌,
  if◌then◌else◌,
}

-- `std::path::Component`. A prefix does not occur on Linux.
pub data Component : Type 0 where
  root_dir cur_dir parent_dir : Component
  normal : List ℕ → Component

abbrev slash : ℕ
slash = 0x2F

abbrev period : ℕ
period = 0x2E

abbrev cons_head : ℕ → List (List ℕ) → List (List ℕ)
cons_head c [] = (c ∷ []) ∷ []
cons_head c (word ∷ words) = (c ∷ word) ∷ words

-- The text between the slashes.
unfoldable pub split : List ℕ → List (List ℕ)
split [] = [] ∷ []
split (c ∷ text) = let rest = split text in if c == slash then [] ∷ rest else cons_head c rest

-- Empty words and `.` are no components, except for a `.` at the start.
unfoldable pub words_components : List (List ℕ) → List Component
words_components [] = []
words_components ([] ∷ words) = words_components words
words_components ((c ∷ []) ∷ words) =
    let rest = words_components words in if c == period then rest else normal (c ∷ []) ∷ rest
words_components ((c ∷ c' ∷ []) ∷ words) =
    let rest = words_components words in
    if (c == period) && (c' == period) then parent_dir ∷ rest else normal (c ∷ c' ∷ []) ∷ rest
words_components ((c ∷ c' ∷ c'' ∷ word) ∷ words) =
    normal (c ∷ c' ∷ c'' ∷ word) ∷ words_components words

-- The component that only the start of a path can have.
unfoldable pub first_component : List (List ℕ) → List Component
first_component [] = []
first_component ([] ∷ []) = []
first_component ([] ∷ word ∷ words) = root_dir ∷ []
first_component ((c ∷ []) ∷ words) = if c == period then cur_dir ∷ [] else []
first_component ((c ∷ c' ∷ word) ∷ words) = []

unfoldable pub components : List ℕ → List Component
unfolding split words_components first_component
components text = first_component (split text) ++ words_components (split text)

-- `Path::parent` and `Path::file_name`.
unfoldable pub parent : List Component → Option (List Component)
parent [] = none
parent (root_dir ∷ []) = none
parent (cur_dir ∷ []) = some []
parent (parent_dir ∷ []) = some []
parent (normal name ∷ []) = some []
parent (c ∷ c' ∷ path) = elim (parent (c' ∷ path)) [ none ↦ none | some rest ↦ some (c ∷ rest) ]

unfoldable pub file_name : List Component → Option (List ℕ)
file_name [] = none
file_name (root_dir ∷ []) = none
file_name (cur_dir ∷ []) = none
file_name (parent_dir ∷ []) = none
file_name (normal name ∷ []) = some name
file_name (c ∷ c' ∷ path) = file_name (c' ∷ path)

-- `path_component_bytes`
unfoldable pub name_bytes : Component → List ℕ
name_bytes root_dir = slash ∷ []
name_bytes cur_dir = period ∷ []
name_bytes parent_dir = period ∷ period ∷ []
name_bytes (normal name) = name

-- `PathBuf::join` of a component that is not the root.
unfoldable pub join : List ℕ → List ℕ → List ℕ
join [] name = name
join (c ∷ path) name = (c ∷ path) ++ slash ∷ name

-- After a byte that starts a character: how many more bytes it has, and the range of the next one.
unfoldable pub character : ℕ → Option (ℕ × ℕ × ℕ)
character b =
    if ltb b 0x80
    then some (0, 0, 0)
    else if ltb b 0xC2
    then none
    else if ltb b 0xE0
    then some (1, 0x80, 0xBF)
    else if b == 0xE0
    then some (2, 0xA0, 0xBF)
    else if b == 0xED
    then some (2, 0x80, 0x9F)
    else if ltb b 0xF0
    then some (2, 0x80, 0xBF)
    else if b == 0xF0
    then some (3, 0x90, 0xBF)
    else if ltb b 0xF4
    then some (3, 0x80, 0xBF)
    else if b == 0xF4
    then some (3, 0x80, 0x8F)
    else none

-- `std::str::from_utf8`, inside a character of which so many bytes are left.
unfoldable pub utf8_from : ℕ → ℕ → ℕ → List ℕ → Bool
unfolding character
utf8_from zero lo hi [] = true
utf8_from (suc k) lo hi [] = false
utf8_from zero lo hi (b ∷ bytes) = elim (character b) [
  | none ↦ false
  | some (k, lo', hi') ↦ utf8_from k lo' hi' bytes
]
utf8_from (suc k) lo hi (b ∷ bytes) = leb lo b && leb b hi && utf8_from k 0x80 0xBF bytes

abbrev pub is_utf8 : List ℕ → Bool
is_utf8 bytes = utf8_from 0 0 0 bytes
