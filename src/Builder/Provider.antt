-- ===== src/Builder/Provider.antt =====
-- pkg/server/builder/storage_provider.go: the provider that is called once, the provider of a status
-- subresource, and the text of several errors. A provider is called with its arguments `A` (the
-- scheme and the getter of options), and may change a state `W`.
pub mod Once
pub mod Shared
use tilt_apiserver.Base.{
  ◌≡◌, ℕ, zero, suc, ◌+◌, Bool, true, false, String, ◌<>◌, List, [], ◌∷◌, ◌++◌, Option, none, some,
  Error, if◌then◌else◌,
}
use tilt_apiserver.Go.Decimal.{format_uint}
use tilt_apiserver.Storage.Provider.{Provided, panicked, nothing, made, failed}

-- `singletonProvider`: whether its `sync.Once` is done, and its fields `storage` and `err`, which
-- are nil at first.
pub record Singleton (S : Type 0) : Type 0 where
  pub done : Bool
  pub result : Provided S

abbrev pub new_singleton : {S : Type 0} → Singleton S
new_singleton = record { done = false; result = nothing }

module _ {A S W : Type 0} where
  -- A provider that panics leaves the fields nil, and the `sync.Once` done.
  unfoldable pub singleton_get :
      (A → W → Provided S × W) → A → Singleton S → W → Provided S × Singleton S × W
  singleton_get provider a s w =
      if s.done
      then (s.result, s, w)
      else (let (r, w') = provider a w in
          elim r [
            | panicked ↦ (panicked, record { done = true; result = nothing }, w')
            | nothing ↦ (nothing, record { done = true; result = nothing }, w')
            | made storage ↦ (made storage, record { done = true; result = made storage }, w')
            | failed e ↦ (failed e, record { done = true; result = failed e }, w')
          ])

-- `StaticHandlerProvider.Get` of rest/rest.go, which returns its storage.
unfoldable pub static_get : {A S W : Type 0} → S → A → W → Provided S × W
static_get storage a w = (made storage, w)

-- `statusStorage`
pub record StatusStorage (U G : Type 0) : Type 0 where
  pub updater : U
  pub getter : G

-- The errors of `statusProvider.Get`, and its type assertions on the storage.
pub record StatusChecks (S U G : Type 0) : Type 0 where
  pub as_updater : S → Option U
  pub as_getter : S → Option G
  pub no_update : S → Error
  pub no_get : S → Error
  pub nil_no_update : Error

module _ {S U G : Type 0} (k : StatusChecks S U G) where
  unfoldable pub status_storage : S → Provided (StatusStorage U G)
  status_storage storage = elim (k.as_updater storage) [
    | none ↦ failed (k.no_update storage)
    | some updater ↦ elim (k.as_getter storage) [
      | none ↦ failed (k.no_get storage)
      | some getter ↦ made (record { updater = updater; getter = getter })
    ]
  ]

  -- A type assertion on a nil storage fails.
  unfoldable pub status_of : Provided S → Provided (StatusStorage U G)
  unfolding status_storage
  status_of panicked = panicked
  status_of nothing = failed k.nil_no_update
  status_of (made storage) = status_storage storage
  status_of (failed e) = failed e

  unfoldable pub status_get :
      {A W : Type 0} → (A → W → Provided S × W) → A → W → Provided (StatusStorage U G) × W
  unfolding status_of
  status_get provider a w = let (r, w') = provider a w in (status_of r, w')

-- `errs.Error`, over the texts of the errors: a line with their number, and a line for each.
abbrev pub count : {A : Type 0} → List A → ℕ
count [] = 0
count (x ∷ xs) = count xs + 1

-- `strings.Join(msgs, "\n")`
unfoldable pub join_lines : List String → String
join_lines [] = ""
join_lines (msg ∷ []) = msg
join_lines (msg ∷ next ∷ msgs) = msg <> ("\n" <> join_lines (next ∷ msgs))

unfoldable pub errs_error : List String → String
unfolding join_lines
errs_error msgs = join_lines ((format_uint (count msgs) <> " errors: ") ∷ msgs)
