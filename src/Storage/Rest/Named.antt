-- ===== src/Storage/Rest/Named.antt =====
-- About the files of named objects, below the root path of a `filepathREST`.
use Prim.Native.String.{String, count}
use text.Mathlib.TextLemmas.{nil-append, cons-append, length-append}
use mathlib.Core.Path.{subst}
use mathlib.Core.List.{Mem, append_assoc, append-nil}
use tilt_apiserver.Base.{
  ◌<◌, ◌≡◌, ◌⊎◌, refl, sym, ap, ◌∙◌, Bool, true, false, ◌<>◌, ◌=~◌, eq_iff, List, [], ◌∷◌, ◌++◌,
  none, some, ok, Bool-cases, inl, inr, arith, if◌then◌else◌,
}
use tilt_apiserver.Go.Paths.{render, join}
use tilt_apiserver.Go.Paths.Parts.{has_no_slash, is_plain, all_plain}
use tilt_apiserver.Go.Paths.Plain.{join-render, join-render_empty, all_plain-append, all_plain-snoc}
use tilt_apiserver.Storage.Tree.{VersionedData}
use tilt_apiserver.Storage.MemoryFs.{MemoryFs, Found, has_suffix, parts_of, read_dir}
use tilt_apiserver.Storage.MemoryFs.Files.{location, view}
use tilt_apiserver.Storage.Rest.Walked.{read_dir-finds}
use tilt_apiserver.Storage.MemoryFs.Below.{
  is_below_root, IsBelow, names-below, is_json-snoc, location-render,
}
use tilt_apiserver.Storage.Rest.{
  FilepathRest, Context, namespace_or_empty, object_file_name, object_dir_name,
}

has_no_slash-append :
    (s t : String) → has_no_slash s ≡ true → has_no_slash t ≡ true → has_no_slash (s <> t) ≡ true
has_no_slash-append String.[] t h k = rw nil-append k
has_no_slash-append (String.◌∷◌ c s) t h k =
    rw cons-append (ground (arith, h, has_no_slash-append s t (ground (arith, h)) k))

json-is_suffix : (name : String) → has_suffix (name <> ".json") ".json" ≡ true
unfolding has_suffix
json-is_suffix String.[] = refl
json-is_suffix (String.◌∷◌ c name) = rw cons-append (ground (arith, json-is_suffix name))

-- A text that is too long to be another.
json-not : (name t : String) → count t < 5 → (name <> ".json" =~ t) ≡ false
json-not name t h = elim (Bool-cases (name <> ".json" =~ t)) [
  | inr q ↦ q
  | inl q ↦
      let e = ap count ((eq_iff (name <> ".json") t).0 q) in
      absurd (ground (arith, h, e, length-append name ".json"))
]

-- A name without a separator gives a plain file name.
json-is_plain : (name : String) → has_no_slash name ≡ true → is_plain (name <> ".json") ≡ true
json-is_plain name h = ground (
  arith,
  has_no_slash-append name ".json" h refl,
  json-not name "" (omega arith),
  json-not name "." (omega arith),
  json-not name ".." (omega arith),
)

-- The names between the root path and the files of a request.
abbrev pub scope : FilepathRest → Context → List String
scope f ctx = if f.namespace_scoped then namespace_or_empty ctx ∷ [] else []

-- The root path is made of plain names and is not the root of the file system, the namespace of the
-- request, if the objects have one, is a plain name, and the object's name holds no separator.
pub record IsNamed (f : FilepathRest) (rooted : Bool) (parts : List String) (ctx : Context)
    (name : String) : Type 0 where
  pub root_path : f.obj_root_path ≡ render rooted parts
  pub parts_plain : all_plain parts ≡ true
  pub below_root : is_below_root rooted parts ≡ true
  pub scope_plain : all_plain (scope f ctx) ≡ true
  pub name_plain : has_no_slash name ≡ true

object_dir_name-scope :
    (f : FilepathRest) (ctx : Context)
    → object_dir_name f ctx ≡ join (f.obj_root_path ∷ scope f ctx)
unfolding object_dir_name
object_dir_name-scope f ctx = elim (Bool-cases f.namespace_scoped) [ inl q ↦ rw q | inr q ↦ rw q ]

object_file_name-scope :
    (f : FilepathRest) (ctx : Context) (name : String)
    → object_file_name f ctx name ≡ join (f.obj_root_path ∷ (scope f ctx ++ (name <> ".json") ∷ []))
unfolding object_file_name
object_file_name-scope f ctx name = elim (Bool-cases f.namespace_scoped) [
  | inl q ↦ rw q
  | inr q ↦ rw q
]

module _ (f : FilepathRest) (rooted : Bool) (parts : List String) (ctx : Context) (name : String)
    (h : IsNamed f rooted parts ctx name) where
  pub object_dir_name-render : object_dir_name f ctx ≡ render rooted (parts ++ scope f ctx)
  object_dir_name-render =
      object_dir_name-scope f ctx
      ∙ ap (λ p. join (p ∷ scope f ctx)) h.root_path
      ∙ join-render rooted parts (scope f ctx) h.parts_plain h.scope_plain

  pub object_file_name-render :
      object_file_name f ctx name ≡ render rooted (parts ++ (scope f ctx ++ (name <> ".json") ∷ []))
  object_file_name-render =
      let names = scope f ctx ++ (name <> ".json") ∷ [] in
      let plain = json-is_plain name h.name_plain in
      object_file_name-scope f ctx name
      ∙ ap (λ p. join (p ∷ names)) h.root_path
      ∙ join-render rooted parts names h.parts_plain
          (all_plain-snoc (scope f ctx) (name <> ".json") h.scope_plain plain)

-- The list of the request is over its namespace, or over every namespace.
abbrev pub Covers : Context → Context → Type 0
Covers lists ctx = (lists.namespace ≡ ctx.namespace) ⊎ (lists.namespace ≡ none)

same_dir :
    (f : FilepathRest) (lists ctx : Context)
    → lists.namespace ≡ ctx.namespace
    → object_dir_name f lists ≡ object_dir_name f ctx
unfolding object_dir_name
same_dir f lists ctx e = ground (arith, e)

-- The directory of every namespace is the root path.
whole_dir :
    (f : FilepathRest) (rooted : Bool) (parts : List String) (lists : Context)
    → f.obj_root_path ≡ render rooted parts
    → all_plain parts ≡ true
    → lists.namespace ≡ none
    → object_dir_name f lists ≡ render rooted parts
unfolding object_dir_name all_plain
whole_dir f rooted parts lists r h e = elim (Bool-cases f.namespace_scoped) [
  | inl q ↦ ground (arith, q, r, e, join-render_empty rooted parts h)
  | inr q ↦ ground (arith, q, r, join-render rooted parts [] h refl, append-nil parts)
]

module _ (f : FilepathRest) (rooted : Bool) (parts : List String) (lists ctx : Context)
    (name : String) (v : VersionedData) (s : MemoryFs) (h : IsNamed f rooted parts ctx name)
    (stored : (view s).files (location (object_file_name f ctx name)) ≡ some v) where
  abbrev file : String
  file = name <> ".json"

  named-location :
      location (object_file_name f ctx name)
      ≡ parts_of (render rooted (parts ++ scope f ctx)) ++ file ∷ []
  named-location =
      ap location (
        object_file_name-render f rooted parts ctx name h
        ∙ ap (render rooted) (sym (append_assoc parts (scope f ctx) (file ∷ []))))
      ∙ location-render rooted (parts ++ scope f ctx) file
          (all_plain-append parts (scope f ctx) h.parts_plain h.scope_plain)
          (json-is_plain name h.name_plain)

  in_namespace-IsBelow : IsBelow rooted (parts ++ scope f ctx) (file ∷ []) v s
  unfolding all_plain
  in_namespace-IsBelow = record {
    parts_plain = all_plain-append parts (scope f ctx) h.parts_plain h.scope_plain;
    below_root =
        (names-below rooted parts (scope f ctx) h.parts_plain h.scope_plain h.below_root).0;
    names_plain = all_plain-snoc [] file refl (json-is_plain name h.name_plain);
    json = is_json-snoc [] file ∙ json-is_suffix name;
    stored = ap (view s).files (sym named-location) ∙ stored;
  }

  in_any-IsBelow : IsBelow rooted parts (scope f ctx ++ file ∷ []) v s
  in_any-IsBelow = record {
    parts_plain = h.parts_plain;
    below_root = h.below_root;
    names_plain = all_plain-snoc (scope f ctx) file h.scope_plain (json-is_plain name h.name_plain);
    json = is_json-snoc (scope f ctx) file ∙ json-is_suffix name;
    stored =
        ap (view s).files (
          sym (
            named-location
            ∙ ap (λ q. q ++ file ∷ [])
                (names-below rooted parts (scope f ctx) h.parts_plain h.scope_plain h.below_root).1
            ∙ append_assoc (parts_of (render rooted parts)) (scope f ctx) (file ∷ [])))
        ∙ stored;
  }

  -- The file of a named object is found by the walk for a list that covers it.
  pub read_dir-named :
      (out : List Found)
      → Covers lists ctx
      → (read_dir (object_dir_name f lists) s).0 ≡ ok out
      → Mem (record { key_path = object_file_name f ctx name; raw = v }) out
  read_dir-named out (inl e) r =
      subst (λ p. Mem {A = Found} (record { key_path = p; raw = v }) out)
        (ap (render rooted) (append_assoc parts (scope f ctx) (file ∷ []))
          ∙ sym (object_file_name-render f rooted parts ctx name h))
        (read_dir-finds rooted (parts ++ scope f ctx) (file ∷ []) v out s in_namespace-IsBelow (
          ap (λ p. (read_dir p s).0)
            (sym (same_dir f lists ctx e ∙ object_dir_name-render f rooted parts ctx name h))
          ∙ r))
  read_dir-named out (inr e) r =
      subst (λ p. Mem {A = Found} (record { key_path = p; raw = v }) out)
        (sym (object_file_name-render f rooted parts ctx name h))
        (read_dir-finds rooted parts (scope f ctx ++ file ∷ []) v out s in_any-IsBelow (
          ap (λ p. (read_dir p s).0)
            (sym (whole_dir f rooted parts lists h.root_path h.parts_plain e))
          ∙ r))
