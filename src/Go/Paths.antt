-- ===== src/Go/Paths.antt =====
-- `strings.Split(s, "/")`, and `Clean`, `Join`, `Dir` and `Base` of path/filepath on Unix.
pub mod Parts
pub mod Plain
pub mod Ends
mod Tests
use Prim.Native.Char.{Char}
use Prim.Native.String.{String}
use mathlib.Core.List.{reverse}
use tilt_apiserver.Base.{
  Bool, true, false, ◌||◌, ◌<>◌, code, ◌=~◌, List, [], ◌∷◌, ◌==◌, if◌then◌else◌,
}

-- Puts a character before the first part.
abbrev pub cons_first : Char → List String → List String
cons_first c [] = (String.◌∷◌ c "") ∷ []
cons_first c (part ∷ parts) = (String.◌∷◌ c part) ∷ parts

-- `strings.Split(s, "/")`: never an empty list.
unfoldable pub split : String → List String
split String.[] = "" ∷ []
split (String.◌∷◌ c s) = if code c == 47 then "" ∷ split s else cons_first c (split s)

-- `strings.Join(parts, "/")`
unfoldable pub join_parts : List String → String
join_parts [] = ""
join_parts (part ∷ []) = part
join_parts (part ∷ next ∷ parts) = part <> ("/" <> join_parts (next ∷ parts))

abbrev pub is_rooted : String → Bool
is_rooted String.[] = false
is_rooted (String.◌∷◌ c s) = code c == 47

-- One part of the path against the parts kept so far, the last one first.
pub clean_part : Bool → String → List String → List String
clean_part rooted part [] =
    if part =~ "" || part =~ "."
    then []
    else if part =~ ".."
    then (if rooted then [] else ".." ∷ [])
    else part ∷ []
clean_part rooted part (top ∷ kept) =
    if part =~ "" || part =~ "."
    then top ∷ kept
    else if part =~ ".."
    then (if top =~ ".." then ".." ∷ top ∷ kept else kept)
    else part ∷ top ∷ kept

pub clean_parts : Bool → List String → List String → List String
clean_parts rooted [] kept = kept
clean_parts rooted (part ∷ parts) kept = clean_parts rooted parts (clean_part rooted part kept)

-- A cleaned path from its parts.
unfoldable pub render : Bool → List String → String
unfolding join_parts
render true parts = "/" <> join_parts parts
render false [] = "."
render false (part ∷ parts) = join_parts (part ∷ parts)

-- `filepath.Clean`
unfoldable pub clean : String → String
unfolding split clean_parts clean_part render
clean p = let rooted = is_rooted p in render rooted (reverse (clean_parts rooted (split p) []))

-- `filepath.Join`: empty elements in front are skipped.
unfoldable pub join : List String → String
unfolding join_parts clean
join [] = ""
join (part ∷ parts) =
    let rest = join parts in if part =~ "" then rest else clean (join_parts (part ∷ parts))

-- All parts but the last: what stands before the last separator.
abbrev pub but_last : List String → List String
but_last [] = []
but_last (part ∷ []) = []
but_last (part ∷ next ∷ parts) = part ∷ but_last (next ∷ parts)

-- `path[:i+1]` for `i` the place of the last separator, if there is one
abbrev pub up_to_separator : List String → String
up_to_separator [] = ""
up_to_separator (part ∷ parts) = join_parts (part ∷ parts) <> "/"

-- `filepath.Dir`
unfoldable pub dir : String → String
unfolding split clean join_parts
dir p = clean (up_to_separator (but_last (split p)))

-- The last part that is not empty.
abbrev pub last_part : List String → String
last_part [] = "/"
last_part (part ∷ parts) =
    let rest = last_part parts in if rest =~ "/" then (if part =~ "" then "/" else part) else rest

-- `filepath.Base`
unfoldable pub base : String → String
unfolding split
base p = if p =~ "" then "." else last_part (split p)
