-- ===== src/Builder/Manifest/Copies.antt =====
-- About a copy of a list of manifests and the list that it was made of.
use tilt_apiserver.Base.{
  ℕ, zero, suc, ◌≡◌, ◌≢◌, refl, sym, ap, ◌∙◌, Bool, true, false, List, [], ◌∷◌, some, arith,
}
use tilt_apiserver.Builder.Manifest.{
  Manifest, ManifestList, Heap, Zeros, load, store, make_array, zero_items, copy_items,
  deep_copy_into, deep_copy_list_into, deep_copy_list,
}

-- There is an array at the address.
unfoldable pub is_allocated : {T O : Type 0} → ℕ → Heap T O → Bool
is_allocated a [] = false
is_allocated zero (array ∷ heap) = true
is_allocated (suc a) (array ∷ heap) = is_allocated a heap

module _ {T O L : Type 0} (z : Zeros T O L) where
  -- Every element of a fresh array is overwritten.
  copy_items-all : (items : List (Manifest T O)) → copy_items z items (zero_items z items) ≡ items
  unfolding copy_items zero_items deep_copy_into
  copy_items-all [] = refl
  copy_items-all (m ∷ items) = ap (λ rest. m ∷ rest) (copy_items-all items)

  load-store_same :
      (a : ℕ) (new : List (Manifest T O)) (heap : Heap T O)
      → is_allocated a heap ≡ true
      → load z a (store z a new heap) ≡ new
  unfolding load store is_allocated
  load-store_same a new [] h = absurd (ground (arith, h))
  load-store_same zero new (array ∷ heap) h = refl
  load-store_same (suc a) new (array ∷ heap) h = load-store_same a new heap h

  load-store_other :
      (a b : ℕ) (new : List (Manifest T O)) (heap : Heap T O)
      → a ≢ b
      → load z a (store z b new heap) ≡ load z a heap
  unfolding load store
  load-store_other a b new [] h = refl
  load-store_other zero zero new (array ∷ heap) h = absurd (h refl)
  load-store_other zero (suc b) new (array ∷ heap) h = refl
  load-store_other (suc a) zero new (array ∷ heap) h = refl
  load-store_other (suc a) (suc b) new (array ∷ heap) h =
      load-store_other a b new heap (λ e. h (ap (λ n. suc n) e))

  -- A new array stands at an address of its own, and the others stay.
  load-make :
      (a : ℕ) (fresh : List (Manifest T O)) (heap : Heap T O)
      → is_allocated a heap ≡ true
      → (load z a (make_array z fresh heap).1 ≡ load z a heap) × (a ≢ (make_array z fresh heap).0)
  unfolding load make_array is_allocated
  load-make a fresh [] h = absurd (ground (arith, h))
  load-make zero fresh (array ∷ heap) h = (refl, λ e. absurd (ground (arith, e)))
  load-make (suc a) fresh (array ∷ heap) h =
      let (same, apart) = load-make a fresh heap h in (same, λ e. apart (ground (arith, e)))

  make-is_allocated :
      (fresh : List (Manifest T O)) (heap : Heap T O)
      → is_allocated (make_array z fresh heap).0 (make_array z fresh heap).1 ≡ true
  unfolding make_array is_allocated
  make-is_allocated fresh [] = refl
  make-is_allocated fresh (array ∷ heap) = make-is_allocated fresh heap

  make-load :
      (fresh : List (Manifest T O)) (heap : Heap T O)
      → load z (make_array z fresh heap).0 (make_array z fresh heap).1 ≡ fresh
  unfolding make_array load
  make-load fresh [] = refl
  make-load fresh (array ∷ heap) = make-load fresh heap

  module _ (l : ManifestList T L) (a : ℕ) (heap : Heap T O) (has : l.items ≡ some a)
      (there : is_allocated a heap ≡ true) where
    abbrev source : List (Manifest T O)
    source = load z a heap

    abbrev made : ℕ × Heap T O
    made = make_array z (zero_items z source) heap

    filled : copy_items z source (load z made.0 made.1) ≡ source
    filled = ap (copy_items z source) (make-load (zero_items z source) heap) ∙ copy_items-all source

    copied :
        deep_copy_list z (some l) heap
        ≡ (some (record l { items = some made.0 }), store z made.0 source made.1)
    unfolding deep_copy_list deep_copy_list_into
    copied = ground (arith, has, filled)

    others_stay :
        (c : ℕ)
        → is_allocated c heap ≡ true
        → load z c (store z made.0 source made.1) ≡ load z c heap
    others_stay c h =
        let (same, apart) = load-make c (zero_items z source) heap h in
        load-store_other c made.0 source made.1 apart ∙ same

    filled_there : load z made.0 (store z made.0 source made.1) ≡ source
    filled_there =
        load-store_same made.0 source made.1 (make-is_allocated (zero_items z source) heap)

    -- The copy of a list whose items are at an address has its items at another address, where the
    -- same items stand; its other fields are those of the list, whose items are as before; and
    -- later writes to the items of the one do not change those of the other.
    pub deep_copy_list-apart :
        (b : ℕ) × ((deep_copy_list z (some l) heap).0 ≡ some (record l { items = some b }))
        × (a ≢ b)
        × (load z b (deep_copy_list z (some l) heap).1 ≡ load z a heap)
        × ((c : ℕ)
            → is_allocated c heap ≡ true
            → load z c (deep_copy_list z (some l) heap).1 ≡ load z c heap)
        × ((new : List (Manifest T O))
            → load z a (store z b new (deep_copy_list z (some l) heap).1) ≡ load z a heap)
        × ((new : List (Manifest T O))
            → load z b (store z a new (deep_copy_list z (some l) heap).1) ≡ load z a heap)
    deep_copy_list-apart =
        let (same, apart) = load-make a (zero_items z source) heap there in
        let after = ap (λ r. r.1) copied in
        (
          made.0,
          ap (λ r. r.0) copied,
          apart,
          ap (load z made.0) after ∙ filled_there,
          λ c h. ap (load z c) after ∙ others_stay c h,
          λ new.
              ap (λ t. load z a (store z made.0 new t)) after
              ∙ load-store_other a made.0 new (store z made.0 source made.1) apart
              ∙ others_stay a there,
          λ new.
              ap (λ t. load z made.0 (store z a new t)) after
              ∙ load-store_other made.0 a new (store z made.0 source made.1) (λ e. apart (sym e))
              ∙ filled_there,
        )
