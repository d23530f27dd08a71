-- ===== src/Go/Paths/Ends.antt =====
-- About `Dir` and `Base` of paths that are made of plain names.
use Prim.Native.String.{String}
use text.Mathlib.TextLemmas.{nil-append}
use tilt_apiserver.Base.{
  ◌≡◌, refl, ap, Bool, true, false, ◌=~◌, eq_iff, List, [], ◌∷◌, ◌++◌, Bool-cases, inl, inr, arith,
}
use tilt_apiserver.Go.Paths.{
  split, join_parts, clean_parts, clean_part, render, clean, dir, base, but_last, up_to_separator,
  last_part,
}
use tilt_apiserver.Go.Paths.Parts.{is_plain, all_plain}
use tilt_apiserver.Go.Paths.Plain.{
  front, all_plain-snoc, clean_empty, render-not_empty, split-render_some,
}

but_last-append : (xs : List String) (x : String) → but_last (xs ++ x ∷ []) ≡ xs
but_last-append [] x = refl
but_last-append (y ∷ []) x = refl
but_last-append (y ∷ z ∷ xs) x = ap (λ ps. y ∷ ps) (but_last-append (z ∷ xs) x)

plain-not_slash : (x : String) → is_plain x ≡ true → (x =~ "/") ≡ false
plain-not_slash x h = elim (Bool-cases (x =~ "/")) [
  | inl q ↦ absurd (ground (arith, h, ap is_plain ((eq_iff x "/").0 q)))
  | inr q ↦ q
]

last_part-append :
    (xs : List String) (x : String) → is_plain x ≡ true → last_part (xs ++ x ∷ []) ≡ x
last_part-append [] x h = ground (arith, h)
last_part-append (y ∷ xs) x h = ground (arith, h, plain-not_slash x h, last_part-append xs x h)

split-render :
    (rooted : Bool) (parts : List String) (name : String)
    → all_plain (parts ++ name ∷ []) ≡ true
    → split (render rooted (parts ++ name ∷ [])) ≡ front rooted ++ parts ++ name ∷ []
split-render true [] name h = split-render_some true name [] h
split-render false [] name h = split-render_some false name [] h
split-render true (part ∷ parts) name h = split-render_some true part (parts ++ name ∷ []) h
split-render false (part ∷ parts) name h = split-render_some false part (parts ++ name ∷ []) h

up_to_separator-front :
    (rooted : Bool) (parts : List String)
    → all_plain parts ≡ true
    → clean (up_to_separator (front rooted ++ parts)) ≡ render rooted parts
unfolding render join_parts
up_to_separator-front true [] h = unfold clean split clean_parts clean_part in refl
up_to_separator-front true (part ∷ parts) h = rw nil-append (clean_empty true (part ∷ parts) h)
up_to_separator-front false [] h = unfold clean split clean_parts clean_part in refl
up_to_separator-front false (part ∷ parts) h = clean_empty false (part ∷ parts) h

pub dir-render :
    (rooted : Bool) (parts : List String) (name : String)
    → all_plain parts ≡ true
    → is_plain name ≡ true
    → dir (render rooted (parts ++ name ∷ [])) ≡ render rooted parts
unfolding dir
dir-render rooted parts name h k =
    rw (split-render rooted parts name (all_plain-snoc parts name h k), but_last-append)
      (up_to_separator-front rooted parts h)

pub base-render :
    (rooted : Bool) (parts : List String) (name : String)
    → all_plain parts ≡ true
    → is_plain name ≡ true
    → base (render rooted (parts ++ name ∷ [])) ≡ name
unfolding base
base-render rooted parts name h k =
    let h' = all_plain-snoc parts name h k in
    rw (
      split-render rooted parts name h',
      render-not_empty rooted (parts ++ name ∷ []) h',
      last_part-append (front rooted ++ parts) name k,
    )
