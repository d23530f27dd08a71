-- ===== src/Builder/Scheme/Types.antt =====
-- What the schemes of the library are relied on for: the types that they know and the
-- conversions that they have.
use tilt_apiserver.Base.{◌≡◌, List, [], ◌∷◌, ◌++◌, ok}
use tilt_apiserver.Builder.Register.{GroupVersion}
use tilt_apiserver.Builder.Scheme.{Conversion, SchemePackage}

-- Every type of the list is in the relation.
abbrev pub Each : {K : Type 0} → (K → Type 0) → List K → Type 0
Each p [] = Unit
Each p (x ∷ xs) = p x × Each p xs

pub Each-map :
    {K : Type 0} (p q : K → Type 0) (xs : List K) → ((x : K) → p x → q x) → Each p xs → Each q xs
Each-map p q [] f h = tt
Each-map p q (x ∷ xs) f (h, hs) = (f x h, Each-map p q xs f hs)

pub Each-append : {K : Type 0} (p : K → Type 0) (xs ys : List K) → Each p (xs ++ ys) → Each p xs
Each-append p [] ys h = tt
Each-append p (x ∷ xs) ys (h, hs) = (h, Each-append p xs ys hs)

-- What a scheme can hold: it knows a type under a version, or converts one type to another.
pub data Fact (K : Type 0) : Type 0 where
  known : GroupVersion → K → Fact K
  converts : K → K → Conversion → Fact K

-- What is relied on: a scheme knows the types that were added under a version and has the
-- conversions that were added, and no operation takes either away.
pub record KnowsTypes (k : SchemePackage) : Type 1 where
  pub Holds : k.Scheme → Fact k.Kind → Type 0
  pub known-added :
      (v : GroupVersion) (kinds : List k.Kind) (s : k.Scheme)
      → Each (λ x. Holds (k.add_known_types v kinds s) (known v x)) kinds
  pub converts-added :
      (a b : k.Kind) (c : Conversion) (s t : k.Scheme)
      → k.add_conversion_func a b c s ≡ ok t
      → Holds t (converts a b c)
  pub added_keeps :
      (w : GroupVersion) (kinds : List k.Kind) (s : k.Scheme) (x : Fact k.Kind)
      → Holds s x
      → Holds (k.add_known_types w kinds s) x
  pub converted_keeps :
      (a b : k.Kind) (c : Conversion) (s t : k.Scheme) (x : Fact k.Kind)
      → k.add_conversion_func a b c s ≡ ok t
      → Holds s x
      → Holds t x
  pub defaulted_keeps :
      (a : k.Kind) (s : k.Scheme) (x : Fact k.Kind)
      → Holds s x
      → Holds (k.add_type_defaulting_func a s) x
  pub ordered_keeps :
      (versions : List GroupVersion) (s t : k.Scheme) (x : Fact k.Kind)
      → k.set_version_priority versions s ≡ ok t
      → Holds s x
      → Holds t x
  pub listed_keeps :
      (w : GroupVersion) (s : k.Scheme) (x : Fact k.Kind)
      → Holds s x
      → Holds (k.add_to_group_version w s) x
