-- ===== src/Builder/Register/Status.antt =====
-- About the provider of the status of a resource, and the keys of the map of the providers.
use text.Mathlib.TextLemmas.{append_cancel_left}
use mathlib.Core.Path.{subst}
use tilt_apiserver.Base.{
  ◌≡◌, refl, sym, ◌∙◌, Bool, true, false, ◌&&◌, not, String, ◌<>◌, ◌=~◌, List, [], ◌∷◌, ◌++◌, some,
  none, arith, eq_iff, Bool-cases, inl, inr, if◌then◌else◌,
}
use tilt_apiserver.Builder.Register.{
  GroupVersionResource, same_resource, get_api, set_api, Server, ResourceObject, sub_resource,
  for_group_version_resource, with_resource_and_handler, with_sub_resource_and_handler,
  with_generic_sub_resources, with_subresources, with_resource_storage,
}
use tilt_apiserver.Builder.Register.Lookup.{get-set_api, apis-for, same_resource_refl}

-- A map has each key once.
abbrev pub OneEach : {P : Type 0} → List (GroupVersionResource × P) → Type 0
OneEach [] = Unit
OneEach ((r, p) ∷ apis) = (get_api r apis ≡ none) × OneEach apis

pub same-get_api :
    {P : Type 0} (k r : GroupVersionResource) (apis : List (GroupVersionResource × P))
    → same_resource k r ≡ true
    → get_api k apis ≡ get_api r apis
unfolding get_api
same-get_api k r [] e = refl
same-get_api k r ((h, q) ∷ apis) e = ground (
  arith,
  e,
  same-get_api k r apis e,
  eq_iff k.group r.group,
  eq_iff k.version r.version,
  eq_iff k.resource r.resource,
)

other_sub :
    (r : GroupVersionResource) (name path : String)
    → (name =~ path) ≡ false
    → same_resource (sub_resource r name) (sub_resource r path) ≡ false
other_sub r name path h =
    let e = eq_iff (r.resource <> ("/" <> name)) (r.resource <> ("/" <> path)) in
    elim (Bool-cases (r.resource <> ("/" <> name) =~ (r.resource <> ("/" <> path)))) [
      | inr q ↦ ground (arith, q)
      | inl q ↦
          let behind = append_cancel_left r.resource ("/" <> name) ("/" <> path) (e.0 q) in
          let same = append_cancel_left "/" name path behind in
          absurd (ground (arith, h, (eq_iff name path).1 same))
    ]

module _ {P : Type 0} where
  -- No generic subresource of that name.
  abbrev pub has_no : String → List (String × (P → P)) → Bool
  has_no path [] = true
  has_no path ((name, make) ∷ subs) = not (name =~ path) && has_no path subs

  set_api-OneEach :
      (r : GroupVersionResource) (p : P) (apis : List (GroupVersionResource × P))
      → OneEach apis
      → OneEach (set_api r p apis)
  unfolding set_api get_api
  set_api-OneEach r p [] h = (refl, tt)
  set_api-OneEach r p ((k, q) ∷ apis) (h, hs) = elim (Bool-cases (same_resource k r)) [
    | inl e ↦ rw e (sym (same-get_api k r apis e) ∙ h, hs)
    | inr e ↦ rw e (
      ground (
        arith,
        get-set_api r k p apis,
        h,
        e,
        eq_iff k.group r.group,
        eq_iff k.version r.version,
        eq_iff k.resource r.resource,
        eq_iff r.group k.group,
        eq_iff r.version k.version,
        eq_iff r.resource k.resource,
      ),
      set_api-OneEach r p apis hs,
    )
  ]

  for-OneEach :
      (r : GroupVersionResource) (sp : P) (a : Server P)
      → OneEach a.apis
      → OneEach (for_group_version_resource r sp a).apis
  unfolding for_group_version_resource
  for-OneEach r sp a h = subst OneEach (ground arith) (set_api-OneEach r sp a.apis h)

  generic-OneEach :
      (obj : ResourceObject P) (sp : P) (subs : List (String × (P → P))) (a : Server P)
      → OneEach a.apis
      → OneEach (with_generic_sub_resources obj sp subs a).apis
  unfolding with_generic_sub_resources with_sub_resource_and_handler
  generic-OneEach obj sp [] a h = h
  generic-OneEach obj sp ((name, make) ∷ subs) a h =
      generic-OneEach obj sp subs
        (for_group_version_resource (sub_resource obj.gvr name) (make sp) a)
        (for-OneEach (sub_resource obj.gvr name) (make sp) a h)

  parent-OneEach :
      (obj : ResourceObject P) (sp : P) (a : Server P)
      → OneEach a.apis
      → OneEach (with_resource_and_handler obj sp a).apis
  unfolding with_resource_and_handler
  parent-OneEach obj sp a h =
      for-OneEach obj.gvr sp
        (record a {
          api_scheme = a.api_scheme ++ obj.gvr ∷ [];
          openapi_scheme = a.openapi_scheme ++ obj.gvr ∷ [];
        })
        h

  status-OneEach :
      (obj : ResourceObject P) (status_sp : P) (a : Server P) (b : Bool)
      → OneEach a.apis
      → OneEach (if b then with_sub_resource_and_handler obj "status" status_sp a else a).apis
  unfolding with_sub_resource_and_handler
  status-OneEach obj status_sp a false h = h
  status-OneEach obj status_sp a true h = for-OneEach (sub_resource obj.gvr "status") status_sp a h

  -- A registration keeps each key of the map once.
  pub with_resource_storage-OneEach :
      (obj : ResourceObject P) (sp status_sp : P) (a : Server P)
      → OneEach a.apis
      → OneEach (with_resource_storage obj sp status_sp a).apis
  unfolding with_resource_storage with_subresources
  with_resource_storage-OneEach obj sp status_sp a h =
      generic-OneEach obj sp obj.generic_sub_resources
        (if obj.has_status
          then with_sub_resource_and_handler obj "status" status_sp
              (with_resource_and_handler obj sp a)
          else with_resource_and_handler obj sp a)
        (status-OneEach obj status_sp (with_resource_and_handler obj sp a) obj.has_status
          (parent-OneEach obj sp a h))

  generic-other :
      (obj : ResourceObject P) (path : String) (sp : P) (subs : List (String × (P → P)))
      (a : Server P)
      → has_no path subs ≡ true
      → get_api (sub_resource obj.gvr path) (with_generic_sub_resources obj sp subs a).apis
        ≡ get_api (sub_resource obj.gvr path) a.apis
  unfolding with_generic_sub_resources with_sub_resource_and_handler
  generic-other obj path sp [] a h = refl
  generic-other obj path sp ((name, make) ∷ subs) a h =
      generic-other obj path sp subs
        (for_group_version_resource (sub_resource obj.gvr name) (make sp) a) (ground (arith, h))
      ∙ apis-for (sub_resource obj.gvr name) (sub_resource obj.gvr path) (make sp) a
      ∙ rw (other_sub obj.gvr name path (ground (arith, h))) refl

  status_there :
      (obj : ResourceObject P) (status_sp : P) (a : Server P) (b : Bool)
      → b ≡ true
      → get_api
          (sub_resource obj.gvr "status")
          (if b then with_sub_resource_and_handler obj "status" status_sp a else a).apis
        ≡ some status_sp
  unfolding with_sub_resource_and_handler
  status_there obj status_sp a false e = absurd (ground (arith, e))
  status_there obj status_sp a true e =
      apis-for (sub_resource obj.gvr "status") (sub_resource obj.gvr "status") status_sp a
      ∙ rw (same_resource_refl (sub_resource obj.gvr "status")) refl

  -- The status of a resource is served by its own provider.
  pub with_resource_storage-get_status :
      (obj : ResourceObject P) (sp status_sp : P) (a : Server P)
      → obj.has_status ≡ true
      → has_no "status" obj.generic_sub_resources ≡ true
      → get_api (sub_resource obj.gvr "status") (with_resource_storage obj sp status_sp a).apis
        ≡ some status_sp
  unfolding with_resource_storage with_subresources
  with_resource_storage-get_status obj sp status_sp a s h =
      generic-other obj "status" sp obj.generic_sub_resources
        (if obj.has_status
          then with_sub_resource_and_handler obj "status" status_sp
              (with_resource_and_handler obj sp a)
          else with_resource_and_handler obj sp a)
        h
      ∙ status_there obj status_sp (with_resource_and_handler obj sp a) obj.has_status s
