-- ===== src/Builder/Register/Versions.antt =====
-- About the list of the group versions.
use tilt_apiserver.Base.{
  ◌≡◌, ◌∙◌, refl, Bool, true, false, String, List, [], ◌∷◌, ◌++◌, arith, eq_iff, Bool-cases, inl,
  inr, if◌then◌else◌,
}
use tilt_apiserver.Builder.Register.{
  GroupVersion, GroupVersionResource, same_version, has_version, Server, ResourceObject,
  with_group_version, sub_resource, new_server_builder, for_group_version_resource,
  with_resource_and_handler, with_sub_resource_and_handler, with_generic_sub_resources,
  with_resource_storage, group_version,
}

-- No group version stands in the list twice.
abbrev pub Distinct : List GroupVersion → Type 0
Distinct [] = Unit
Distinct (v ∷ versions) = (has_version v versions ≡ false) × Distinct versions

has_version-snoc :
    (v w : GroupVersion) (versions : List GroupVersion)
    → has_version v (versions ++ w ∷ [])
      ≡ (if has_version v versions then true else same_version w v)
has_version-snoc v w [] = ground arith
has_version-snoc v w (u ∷ versions) = ground (arith, has_version-snoc v w versions)

Distinct-snoc :
    (w : GroupVersion) (versions : List GroupVersion)
    → Distinct versions
    → has_version w versions ≡ false
    → Distinct (versions ++ w ∷ [])
Distinct-snoc w [] d h = ground arith
Distinct-snoc w (u ∷ versions) d h = (
  ground (
    arith,
    has_version-snoc u w versions,
    eq_iff w.group u.group,
    eq_iff u.group w.group,
    eq_iff w.version u.version,
    eq_iff u.version w.version,
  ),
  Distinct-snoc w versions d.1 (ground arith),
)

-- The map of the group versions and their list agree, and the list names each once.
pub record IsConsistent {P : Type 0} (a : Server P) : Type 0 where
  pub distinct : Distinct a.ordered_group_versions
  pub agree :
      (v : GroupVersion) → has_version v a.ordered_group_versions ≡ has_version v a.group_versions

module _ {P : Type 0} where
  with_group_version-IsConsistent :
      (v : GroupVersion) (a : Server P) → IsConsistent a → IsConsistent (with_group_version v a)
  unfolding with_group_version
  with_group_version-IsConsistent v a h = elim (Bool-cases (has_version v a.group_versions)) [
    | inl e ↦ rw e h
    | inr e ↦ rw e (record {
      distinct = Distinct-snoc v a.ordered_group_versions h.distinct (h.agree v ∙ e);
      agree = λ u. ground (arith, has_version-snoc u v a.ordered_group_versions, h.agree u);
    })
  ]

  for-IsConsistent :
      (gvr : GroupVersionResource) (sp : P) (a : Server P)
      → IsConsistent a
      → IsConsistent (for_group_version_resource gvr sp a)
  unfolding for_group_version_resource
  for-IsConsistent gvr sp a h =
      let k = with_group_version-IsConsistent (group_version gvr) a h in
      record { distinct = k.distinct; agree = k.agree }

  with_resource-IsConsistent :
      (obj : ResourceObject P) (sp : P) (a : Server P)
      → IsConsistent a
      → IsConsistent (with_resource_and_handler obj sp a)
  unfolding with_resource_and_handler
  with_resource-IsConsistent obj sp a h =
      for-IsConsistent obj.gvr sp _ (record { distinct = h.distinct; agree = h.agree })

  generic-IsConsistent :
      (obj : ResourceObject P) (sp : P) (subs : List (String × (P → P))) (a : Server P)
      → IsConsistent a
      → IsConsistent (with_generic_sub_resources obj sp subs a)
  unfolding with_generic_sub_resources
  generic-IsConsistent obj sp [] a h = h
  generic-IsConsistent obj sp ((name, make) ∷ subs) a h =
      generic-IsConsistent obj sp subs _
        (for-IsConsistent (sub_resource obj.gvr name) (make sp) a h)

  if-IsConsistent :
      (b : Bool) (x y : Server P)
      → IsConsistent x
      → IsConsistent y
      → IsConsistent (if b then x else y)
  if-IsConsistent true x y h k = h
  if-IsConsistent false x y h k = k

  -- Registering a resource, with its status and its generic subresources, keeps each group version
  -- listed once, and the map of the group versions and their list in agreement.
  pub with_resource_storage-IsConsistent :
      (obj : ResourceObject P) (sp status_sp : P) (a : Server P)
      → IsConsistent a
      → IsConsistent (with_resource_storage obj sp status_sp a)
  unfolding with_resource_storage with_sub_resource_and_handler
  with_resource_storage-IsConsistent obj sp status_sp a h =
      let k = with_resource-IsConsistent obj sp a h in
      generic-IsConsistent obj sp obj.generic_sub_resources _ (
        if-IsConsistent obj.has_status _ _
          (for-IsConsistent (sub_resource obj.gvr "status") status_sp _ k) k)

  pub new_server_builder-IsConsistent : IsConsistent {P = P} new_server_builder
  unfolding new_server_builder
  new_server_builder-IsConsistent = record { distinct = tt; agree = λ v. refl }
