-- ===== src/Builder/Register/Lookup.antt =====
-- Which provider serves a resource after a registration.
use text.Mathlib.TextLemmas.{length-append}
use Prim.Native.String.{count}
use tilt_apiserver.Base.{
  ◌≡◌, refl, ◌∙◌, Bool, true, false, String, List, [], ◌∷◌, ◌++◌, some, arith, eq_iff, eq_refl,
  ◌<>◌, ◌≢◌, ap, if◌then◌else◌,
}
use tilt_apiserver.Builder.Register.{
  GroupVersionResource, same_resource, get_api, set_api, Server, ResourceObject, sub_resource,
  with_group_version, for_group_version_resource, with_resource_and_handler,
  with_sub_resource_and_handler, with_generic_sub_resources, with_subresources,
  with_resource_storage,
}

slash_count : count "/" ≡ 1
slash_count = refl

longer : (s t : String) → (s <> ("/" <> t)) ≢ s
longer s t e =
    absurd (omega (arith, ap count e, length-append s ("/" <> t), length-append "/" t, slash_count))

pub sub_resource_ne :
    (r : GroupVersionResource) (path : String) → same_resource (sub_resource r path) r ≡ false
sub_resource_ne r path =
    ground (arith, eq_iff (r.resource <> ("/" <> path)) r.resource, longer r.resource path)

pub same_resource_refl : (r : GroupVersionResource) → same_resource r r ≡ true
same_resource_refl r = ground (arith, eq_refl r.group, eq_refl r.version, eq_refl r.resource)

module _ {P : Type 0} where
  pub get-set_api :
      (r s : GroupVersionResource) (p : P) (apis : List (GroupVersionResource × P))
      → get_api s (set_api r p apis) ≡ (if same_resource r s then some p else get_api s apis)
  unfolding get_api set_api
  get-set_api r s p [] = refl
  get-set_api r s p ((k, q) ∷ apis) = ground (
    arith,
    get-set_api r s p apis,
    eq_iff k.group r.group,
    eq_iff k.version r.version,
    eq_iff k.resource r.resource,
    eq_iff k.group s.group,
    eq_iff k.version s.version,
    eq_iff k.resource s.resource,
    eq_iff r.group s.group,
    eq_iff r.version s.version,
    eq_iff r.resource s.resource,
  )

  pub apis-for :
      (r s : GroupVersionResource) (sp : P) (a : Server P)
      → get_api s (for_group_version_resource r sp a).apis
        ≡ (if same_resource r s then some sp else get_api s a.apis)
  unfolding for_group_version_resource
  apis-for r s sp a = ground (
    arith,
    get-set_api r s sp a.apis,
    get-set_api r s sp
        (with_group_version (record { group = r.group; version = r.version }) a).apis,
  )

  apis-generic :
      (obj : ResourceObject P) (sp : P) (subs : List (String × (P → P))) (a : Server P)
      → get_api obj.gvr (with_generic_sub_resources obj sp subs a).apis ≡ get_api obj.gvr a.apis
  unfolding with_generic_sub_resources with_sub_resource_and_handler
  apis-generic obj sp [] a = refl
  apis-generic obj sp ((name, make) ∷ subs) a =
      apis-generic obj sp subs (for_group_version_resource (sub_resource obj.gvr name) (make sp) a)
      ∙ apis-for (sub_resource obj.gvr name) obj.gvr (make sp) a
      ∙ rw (sub_resource_ne obj.gvr name) refl

  apis-status :
      (obj : ResourceObject P) (status_sp : P) (a : Server P) (b : Bool)
      → get_api obj.gvr
          (if b then with_sub_resource_and_handler obj "status" status_sp a else a).apis
        ≡ get_api obj.gvr a.apis
  unfolding with_sub_resource_and_handler
  apis-status obj status_sp a false = refl
  apis-status obj status_sp a true =
      apis-for (sub_resource obj.gvr "status") obj.gvr status_sp a
      ∙ rw (sub_resource_ne obj.gvr "status") refl

  pub apis-parent :
      (obj : ResourceObject P) (sp : P) (a : Server P)
      → get_api obj.gvr (with_resource_and_handler obj sp a).apis ≡ some sp
  unfolding with_resource_and_handler
  apis-parent obj sp a =
      apis-for obj.gvr obj.gvr sp (record a {
        api_scheme = a.api_scheme ++ obj.gvr ∷ [];
        openapi_scheme = a.openapi_scheme ++ obj.gvr ∷ [];
      })
      ∙ rw (same_resource_refl obj.gvr) refl

  -- After a resource is registered with its storage, its own provider serves it: neither an
  -- earlier registration nor one of its subresources stands before it.
  pub with_resource_storage-get_api :
      (obj : ResourceObject P) (sp status_sp : P) (a : Server P)
      → get_api obj.gvr (with_resource_storage obj sp status_sp a).apis ≡ some sp
  unfolding with_resource_storage with_subresources
  with_resource_storage-get_api obj sp status_sp a =
      apis-generic obj sp obj.generic_sub_resources (
        if obj.has_status
        then with_sub_resource_and_handler obj "status" status_sp
            (with_resource_and_handler obj sp a)
        else with_resource_and_handler obj sp a)
      ∙ apis-status obj status_sp (with_resource_and_handler obj sp a) obj.has_status
      ∙ apis-parent obj sp a
