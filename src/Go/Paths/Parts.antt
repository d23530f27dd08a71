-- ===== src/Go/Paths/Parts.antt =====
-- About the parts of joined paths, and what splits and cleans them.
use Prim.Native.String.{String}
use text.Mathlib.TextLemmas.{nil-append, cons-append}
use mathlib.Core.List.{reverse_aux}
use tilt_apiserver.Base.{
  ◌≡◌, refl, ◌∙◌, Bool, true, not, ◌&&◌, ◌<>◌, code, ◌=~◌, List, [], ◌∷◌, ◌++◌, ◌==◌, Bool-cases,
  inl, inr, arith,
}
use tilt_apiserver.Go.Paths.{split, join_parts, clean_part, clean_parts}

-- No separator in the text.
abbrev pub has_no_slash : String → Bool
has_no_slash String.[] = true
has_no_slash (String.◌∷◌ c s) = not (code c == 47) && has_no_slash s

-- A name that `Clean` leaves alone.
abbrev pub is_plain : String → Bool
is_plain s = has_no_slash s && not (s =~ "") && not (s =~ ".") && not (s =~ "..")

unfoldable pub all_plain : List String → Bool
all_plain [] = true
all_plain (part ∷ parts) = is_plain part && all_plain parts

-- A split has a first part.
split-parts : (s : String) → (part : String) × (parts : List String) × (split s ≡ part ∷ parts)
unfolding split
split-parts String.[] = ("", [], refl)
split-parts (String.◌∷◌ c s) =
    let (part, parts, e) = split-parts s in
    elim (Bool-cases (code c == 47)) [
      | inl q ↦ ("", split s, ground (arith, q))
      | inr q ↦ (String.◌∷◌ c part, parts, ground (arith, q, e))
    ]

-- A split at a separator splits both sides.
pub split-append : (a b : String) → split (a <> ("/" <> b)) ≡ split a ++ split b
unfolding split
split-append String.[] b = rw (nil-append, cons-append, nil-append)
split-append (String.◌∷◌ c s) b =
    let (part, parts, e) = split-parts s in
    ground (arith, split-append s b, e, cons-append c s ("/" <> b))

-- A text without a separator is its only part.
pub split-has_no_slash : (s : String) → has_no_slash s ≡ true → split s ≡ s ∷ []
unfolding split
split-has_no_slash String.[] h = refl
split-has_no_slash (String.◌∷◌ c s) h = ground (arith, h, split-has_no_slash s)

-- The parts of joined plain names.
pub split-join_parts :
    (part : String) (parts : List String)
    → all_plain (part ∷ parts) ≡ true
    → split (join_parts (part ∷ parts)) ≡ part ∷ parts
unfolding join_parts all_plain
split-join_parts part [] h = split-has_no_slash part (ground (arith, h))
split-join_parts part (next ∷ parts) h =
    split-append part (join_parts (next ∷ parts))
    ∙ ground (arith, h, split-has_no_slash part, split-join_parts next parts)

-- Plain parts are kept by the cleaning.
pub clean_parts-all_plain :
    (rooted : Bool) (parts kept : List String)
    → all_plain parts ≡ true
    → clean_parts rooted parts kept ≡ reverse_aux parts kept
unfolding clean_parts clean_part all_plain
clean_parts-all_plain rooted [] kept h = refl
clean_parts-all_plain rooted (part ∷ parts) [] h =
    ground (arith, h, clean_parts-all_plain rooted parts (part ∷ []))
clean_parts-all_plain rooted (part ∷ parts) (top ∷ kept) h =
    ground (arith, h, clean_parts-all_plain rooted parts (part ∷ top ∷ kept))

pub clean_parts-append :
    (rooted : Bool) (xs ys kept : List String)
    → clean_parts rooted (xs ++ ys) kept ≡ clean_parts rooted ys (clean_parts rooted xs kept)
unfolding clean_parts
clean_parts-append rooted [] ys kept = refl
clean_parts-append rooted (x ∷ xs) ys kept =
    clean_parts-append rooted xs ys (clean_part rooted x kept)
