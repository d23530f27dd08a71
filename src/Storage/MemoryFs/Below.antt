-- ===== src/Storage/MemoryFs/Below.antt =====
-- About object files below a directory, whose names are all plain.
use mathlib.Core.Path.{subst}
use mathlib.Core.List.{append_assoc, append-nil}
use tilt_apiserver.Base.{
  ◌≡◌, refl, sym, ap, ◌∙◌, Bool, true, false, String, ◌=~◌, eq_iff, List, [], ◌∷◌, ◌++◌, some,
  Bool-cases, inl, inr, arith,
}
use tilt_apiserver.Go.Paths.{render, split}
use tilt_apiserver.Go.Paths.Parts.{is_plain, all_plain}
use tilt_apiserver.Go.Paths.Plain.{split-render_some, all_plain-snoc, front}
use tilt_apiserver.Go.Paths.Ends.{dir-render, base-render}
use tilt_apiserver.Storage.Tree.{VersionedData}
use tilt_apiserver.Storage.MemoryFs.{MemoryFs, has_suffix, parts_of}
use tilt_apiserver.Storage.MemoryFs.Files.{location, view}

-- The path is not the root of the file system.
abbrev pub is_below_root : Bool → List String → Bool
is_below_root true [] = false
is_below_root true (part ∷ parts) = true
is_below_root false parts = true

-- The last name is that of an object's file.
unfoldable pub is_json : List String → Bool
is_json [] = false
is_json (name ∷ []) = has_suffix name ".json"
is_json (name ∷ next ∷ names) = is_json (next ∷ names)

render-not_dot :
    (rooted : Bool) (part : String) (parts : List String)
    → all_plain (part ∷ parts) ≡ true
    → (render rooted (part ∷ parts) =~ ".") ≡ false
unfolding split all_plain
render-not_dot true part parts h = elim (Bool-cases (render true (part ∷ parts) =~ ".")) [
  | inr q ↦ q
  | inl q ↦
      let e = ap split ((eq_iff (render true (part ∷ parts)) ".").0 q) in
      absurd (ground (arith, sym e ∙ split-render_some true part parts h))
]
render-not_dot false part parts h = elim (Bool-cases (render false (part ∷ parts) =~ ".")) [
  | inr q ↦ q
  | inl q ↦
      let e = ap split ((eq_iff (render false (part ∷ parts)) ".").0 q) in
      absurd (ground (arith, h, ap all_plain (sym e ∙ split-render_some false part parts h)))
]

parts_of-some :
    (rooted : Bool) (part : String) (parts : List String)
    → all_plain (part ∷ parts) ≡ true
    → parts_of (render rooted (part ∷ parts)) ≡ front rooted ++ part ∷ parts
unfolding parts_of
parts_of-some rooted part parts h =
    ground (arith, render-not_dot rooted part parts h, split-render_some rooted part parts h)

parts_of-here : parts_of (render false []) ≡ []
unfolding parts_of render
parts_of-here = refl

pub parts_of-render :
    (rooted : Bool) (parts : List String) (name : String)
    → all_plain parts ≡ true
    → is_plain name ≡ true
    → is_below_root rooted parts ≡ true
    → parts_of (render rooted (parts ++ name ∷ [])) ≡ parts_of (render rooted parts) ++ name ∷ []
unfolding all_plain
parts_of-render true [] name h k b = absurd (ground (arith, b))
parts_of-render false [] name h k b =
    rw parts_of-here (parts_of-some false name [] (ground (arith, k)))
parts_of-render true (part ∷ parts) name h k b = rw (
  parts_of-some true part (parts ++ name ∷ []) (all_plain-snoc (part ∷ parts) name h k),
  parts_of-some true part parts h,
)
parts_of-render false (part ∷ parts) name h k b = rw (
  parts_of-some false part (parts ++ name ∷ []) (all_plain-snoc (part ∷ parts) name h k),
  parts_of-some false part parts h,
)

pub location-render :
    (rooted : Bool) (parts : List String) (name : String)
    → all_plain parts ≡ true
    → is_plain name ≡ true
    → location (render rooted (parts ++ name ∷ [])) ≡ parts_of (render rooted parts) ++ name ∷ []
unfolding location
location-render rooted parts name h k =
    rw (dir-render rooted parts name h k, base-render rooted parts name h k)

-- An object's file that is stored under plain names, below a directory of plain names that is not
-- the root.
pub record IsBelow (rooted : Bool) (parts names : List String) (v : VersionedData) (s : MemoryFs)
    : Type 0 where
  pub parts_plain : all_plain parts ≡ true
  pub below_root : is_below_root rooted parts ≡ true
  pub names_plain : all_plain names ≡ true
  pub json : is_json names ≡ true
  pub stored : (view s).files (parts_of (render rooted parts) ++ names) ≡ some v

pub IsBelow-same :
    (rooted : Bool) (parts names : List String) (v : VersionedData) (s t : MemoryFs)
    → view t ≡ view s
    → IsBelow rooted parts names v s
    → IsBelow rooted parts names v t
IsBelow-same rooted parts names v s t e h = record {
  parts_plain = h.parts_plain;
  below_root = h.below_root;
  names_plain = h.names_plain;
  json = h.json;
  stored = subst (λ z. z.files (parts_of (render rooted parts) ++ names) ≡ some v) (sym e) h.stored;
}

below_root-snoc :
    (rooted : Bool) (parts : List String) (name : String)
    → is_below_root rooted (parts ++ name ∷ []) ≡ true
below_root-snoc true [] name = refl
below_root-snoc true (part ∷ parts) name = refl
below_root-snoc false parts name = refl

-- The file is below the next directory on the way.
pub IsBelow-next :
    (rooted : Bool) (parts names : List String) (name next : String) (v : VersionedData)
    (s : MemoryFs)
    → IsBelow rooted parts (name ∷ next ∷ names) v s
    → IsBelow rooted (parts ++ name ∷ []) (next ∷ names) v s
unfolding all_plain is_json
IsBelow-next rooted parts names name next v s h =
    let k : is_plain name ≡ true = ground (arith, h.names_plain) in
    record {
      parts_plain = all_plain-snoc parts name h.parts_plain k;
      below_root = below_root-snoc rooted parts name;
      names_plain = ground (arith, h.names_plain);
      json = h.json;
      stored =
          rw (parts_of-render rooted parts name h.parts_plain k h.below_root, append_assoc)
            h.stored;
    }

-- Further plain names below a directory.
pub names-below :
    (rooted : Bool) (parts names : List String)
    → all_plain parts ≡ true
    → all_plain names ≡ true
    → is_below_root rooted parts ≡ true
    → (is_below_root rooted (parts ++ names) ≡ true)
      × (parts_of (render rooted (parts ++ names)) ≡ parts_of (render rooted parts) ++ names)
unfolding all_plain
names-below rooted parts [] h k b =
    rw (append-nil parts, append-nil (parts_of (render rooted parts))) (b, refl)
names-below rooted parts (name ∷ names) h k b =
    let plain : is_plain name ≡ true = ground (arith, k) in
    let (below, e) =
      names-below rooted (parts ++ name ∷ []) names (all_plain-snoc parts name h plain)
        (ground (arith, k)) (below_root-snoc rooted parts name) in
    (
      ap (is_below_root rooted) (sym (append_assoc parts (name ∷ []) names)) ∙ below,
      ap (λ q. parts_of (render rooted q)) (sym (append_assoc parts (name ∷ []) names))
          ∙ e
          ∙ ap (λ q. q ++ names) (parts_of-render rooted parts name h plain b)
          ∙ append_assoc (parts_of (render rooted parts)) (name ∷ []) names,
    )

-- A list of names ends as its last name does.
pub is_json-snoc :
    (names : List String) (name : String) → is_json (names ++ name ∷ []) ≡ has_suffix name ".json"
unfolding is_json
is_json-snoc [] name = refl
is_json-snoc (first ∷ []) name = refl
is_json-snoc (first ∷ next ∷ names) name = is_json-snoc (next ∷ names) name
