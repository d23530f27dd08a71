-- ===== src/Go/Paths/Plain.antt =====
-- About `Clean` and `Join` of paths that are made of plain names.
use Prim.Native.Char.{Char}
use Prim.Native.String.{String}
use text.Mathlib.TextLemmas.{
  nil-append, cons-append, cons≢nil, append-nil as text_append-nil,
  append_assoc as text_append_assoc,
}
use mathlib.Core.List.{reverse_aux, reverse-reverse, append-nil, reverse_aux-append}
use tilt_apiserver.Base.{
  ◌≡◌, refl, sym, ap, ◌∙◌, Bool, true, false, ◌<>◌, ◌=~◌, eq_iff, List, [], ◌∷◌, ◌++◌, Bool-cases,
  inl, inr, arith,
}
use tilt_apiserver.Go.Paths.{
  split, join_parts, is_rooted, clean_parts, clean_part, render, clean, join,
}
use tilt_apiserver.Go.Paths.Parts.{
  is_plain, all_plain, split-append, split-join_parts, clean_parts-all_plain, clean_parts-append,
}

-- The parts in front of the names: a rooted path has an empty one.
abbrev pub front : Bool → List String
front true = "" ∷ []
front false = []

is_rooted-append : (p s : String) → is_rooted p ≡ true → is_rooted (p <> s) ≡ true
is_rooted-append String.[] s h = absurd (ground (arith, h))
is_rooted-append (String.◌∷◌ c p) s h = rw cons-append h

is_rooted-plain : (p s : String) → is_plain p ≡ true → is_rooted (p <> s) ≡ false
is_rooted-plain String.[] s h = absurd (ground (arith, h))
is_rooted-plain (String.◌∷◌ c p) s h = rw cons-append (ground (arith, h))

-- The parts of a path with at least one plain name.
pub split-render_some :
    (rooted : Bool) (part : String) (parts : List String)
    → all_plain (part ∷ parts) ≡ true
    → split (render rooted (part ∷ parts)) ≡ front rooted ++ part ∷ parts
unfolding render split
split-render_some true part parts h =
    let p = join_parts (part ∷ parts) in
    ap split (sym (nil-append ("/" <> p)))
    ∙ split-append "" p
    ∙ ap (λ ps. "" ∷ ps) (split-join_parts part parts h)
split-render_some false part parts h = split-join_parts part parts h

-- Cleaning the parts of a path of plain names gives the names.
clean_parts-split :
    (rooted : Bool) (parts : List String)
    → all_plain parts ≡ true
    → clean_parts rooted (split (render rooted parts)) [] ≡ reverse_aux parts []
unfolding render clean_parts clean_part split
clean_parts-split true [] h = refl
clean_parts-split true (part ∷ parts) h =
    ground
      (arith, split-render_some true part parts h, clean_parts-all_plain true (part ∷ parts) [] h)
clean_parts-split false [] h = refl
clean_parts-split false (part ∷ parts) h =
    ground (arith, split-join_parts part parts h, clean_parts-all_plain false (part ∷ parts) [] h)

is_rooted-render :
    (rooted : Bool) (parts : List String) (s : String)
    → all_plain parts ≡ true
    → is_rooted (render rooted parts <> s) ≡ rooted
unfolding render all_plain join_parts
is_rooted-render true parts s h = rw (cons-append, cons-append)
is_rooted-render false [] s h = rw cons-append
is_rooted-render false (part ∷ []) s h = is_rooted-plain part s (ground (arith, h))
is_rooted-render false (part ∷ next ∷ parts) s h = ground (
  arith,
  text_append_assoc part ("/" <> join_parts (next ∷ parts)) s,
  is_rooted-plain part (("/" <> join_parts (next ∷ parts)) <> s),
  h,
)

cons-not_empty : (c : Char) (s : String) → (String.◌∷◌ c s =~ "") ≡ false
cons-not_empty c s = elim (Bool-cases (String.◌∷◌ c s =~ "")) [
  | inl q ↦ absurd (cons≢nil ((eq_iff (String.◌∷◌ c s) "").0 q))
  | inr q ↦ q
]

plain-not_empty : (p s : String) → is_plain p ≡ true → (p <> s =~ "") ≡ false
plain-not_empty String.[] s h = absurd (ground (arith, h))
plain-not_empty (String.◌∷◌ c p) s h = rw cons-append (cons-not_empty c (p <> s))

pub render-not_empty :
    (rooted : Bool) (parts : List String)
    → all_plain parts ≡ true
    → (render rooted parts =~ "") ≡ false
unfolding render all_plain join_parts
render-not_empty true parts h = rw cons-append (cons-not_empty _ _)
render-not_empty false [] h = refl
render-not_empty false (part ∷ []) h = ground (arith, h)
render-not_empty false (part ∷ next ∷ parts) h =
    plain-not_empty part ("/" <> join_parts (next ∷ parts)) (ground (arith, h))

-- A path whose parts clean to the given names, the last one first.
clean-parts :
    (p : String) (rooted : Bool) (parts : List String)
    → is_rooted p ≡ rooted
    → clean_parts rooted (split p) [] ≡ reverse_aux parts []
    → clean p ≡ render rooted parts
unfolding clean
clean-parts p rooted parts h e = rw (h, e, reverse-reverse)

pub all_plain-append :
    (xs ys : List String) → all_plain xs ≡ true → all_plain ys ≡ true → all_plain (xs ++ ys) ≡ true
unfolding all_plain
all_plain-append [] ys h k = k
all_plain-append (x ∷ xs) ys h k = ground (arith, h, all_plain-append xs ys (ground (arith, h)) k)

pub all_plain-snoc :
    (parts : List String) (name : String)
    → all_plain parts ≡ true
    → is_plain name ≡ true
    → all_plain (parts ++ name ∷ []) ≡ true
unfolding all_plain
all_plain-snoc parts name h k = all_plain-append parts (name ∷ []) h (ground (arith, k))

pub clean-render :
    (rooted : Bool) (parts : List String)
    → all_plain parts ≡ true
    → clean (render rooted parts) ≡ render rooted parts
clean-render rooted parts h =
    clean-parts (render rooted parts) rooted parts
      (ap is_rooted (sym (text_append-nil (render rooted parts)))
        ∙ is_rooted-render rooted parts "" h)
      (clean_parts-split rooted parts h)

clean_parts_empty : (rooted : Bool) (kept : List String) → clean_parts rooted (split "") kept ≡ kept
unfolding split clean_parts clean_part
clean_parts_empty rooted [] = refl
clean_parts_empty rooted (top ∷ kept) = refl

clean-separated :
    (rooted : Bool) (parts total : List String) (rest : String)
    → all_plain parts ≡ true
    → clean_parts rooted (split rest) (reverse_aux parts []) ≡ reverse_aux total []
    → clean (render rooted parts <> ("/" <> rest)) ≡ render rooted total
clean-separated rooted parts total rest h e =
    let p = render rooted parts in
    clean-parts (p <> ("/" <> rest)) rooted total (is_rooted-render rooted parts ("/" <> rest) h) (
      ap (λ ps. clean_parts rooted ps []) (split-append p rest)
      ∙ clean_parts-append rooted (split p) (split rest) []
      ∙ ap (clean_parts rooted (split rest)) (clean_parts-split rooted parts h)
      ∙ e)

-- Plain names behind a clean path.
pub join-render :
    (rooted : Bool) (parts names : List String)
    → all_plain parts ≡ true
    → all_plain names ≡ true
    → join (render rooted parts ∷ names) ≡ render rooted (parts ++ names)
unfolding join join_parts
join-render rooted parts [] h k =
    rw (render-not_empty rooted parts h, append-nil, clean-render rooted parts h)
join-render rooted parts (name ∷ names) h k = rw (render-not_empty rooted parts h) (
    clean-separated rooted parts (parts ++ name ∷ names) (join_parts (name ∷ names)) h (
      ap (λ ps. clean_parts rooted ps (reverse_aux parts [])) (split-join_parts name names k)
      ∙ clean_parts-all_plain rooted (name ∷ names) (reverse_aux parts []) k
      ∙ sym (reverse_aux-append parts (name ∷ names) [])))

pub clean_empty :
    (rooted : Bool) (parts : List String)
    → all_plain parts ≡ true
    → clean (render rooted parts <> "/") ≡ render rooted parts
clean_empty rooted parts h =
    clean-separated rooted parts parts "" h (clean_parts_empty rooted (reverse_aux parts []))

-- An empty name is dropped.
pub join-render_empty :
    (rooted : Bool) (parts : List String)
    → all_plain parts ≡ true
    → join (render rooted parts ∷ "" ∷ []) ≡ render rooted parts
unfolding join join_parts split clean_parts clean_part
join-render_empty rooted parts h = rw (render-not_empty rooted parts h) (clean_empty rooted parts h)
