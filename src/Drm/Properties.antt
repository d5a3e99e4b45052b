-- ===== src/Drm/Properties.antt =====
-- DRM objects and their properties in src/drm.c: `struct drm_object`, `get_property_value`,
-- `modeset_get_object_properties`, `set_drm_object_property`, `modeset_drm_object_fini`.
pub mod Lookup
pub mod Balance
pub mod Described
use pixel_pilot_rk.Common.{
  ℕ, ℤ, pos, negsuc, signed64, Option, none, some, List, [], ◌∷◌, ◌++◌, String, str_eq,
  if◌then◌else◌, ◌==◌, is_neg,
}
use pixel_pilot_rk.Drm.Kernel.{
  Kernel, World, Reply, ok, fail, Item, Request, PropValue, PropertyRes, ObjectKind, property,
  infos, object_properties,
}
use pixel_pilot_rk.Drm.Kernel.Monad.{M, pure, fault, ◌>>=◌, ◌>>◌, take, give_back, allocate}

-- `props` is NULL or the ids and values; `props_info` has what the kernel said of each.
pub record DrmObject : Type 0 where
  pub id : ℕ
  pub props : Option (List PropValue)
  pub props_info : List (Option PropertyRes)

-- An object of zeroed memory with the given id.
abbrev pub bare : ℕ → DrmObject
bare n = record { id = n; props = none; props_info = [] }

-- -EINVAL
abbrev pub einval : ℤ
einval = negsuc 21

-- `prop_id` of the first entry with the name, 0 if there is none; a NULL entry is followed.
pub data Found : Type 0 where
  null_entry : Found
  prop : ℕ → Found

unfoldable pub find_prop : String → List (Option PropertyRes) → Found
find_prop name [] = prop 0
find_prop name (none ∷ ps) = null_entry
find_prop name (some p ∷ ps) = if str_eq p.name name then prop p.prop_id else find_prop name ps

-- The reply of `drmModeAtomicAddProperty`, and the request after it.
abbrev pub added : Request → Item → Reply ℕ → ℤ × Request
added req item (ok n) = (pos n, req ++ item ∷ [])
added req item (fail e) = (negsuc e, req)

-- Code that follows a pointer.
abbrev pub unless_null : {A B : Type 0} → Option A → M B → M B
unless_null none m = fault
unless_null (some _) m = m

module _ (k : Kernel) where
  value_loop : String → List PropValue → M ℤ
  value_loop name [] = pure (negsuc 0)
  value_loop name (p ∷ ps) = do
    found ← allocate (λ w. k.get_property w p.prop_id) (λ r. property r.prop_id)
    elim found [
      | none ↦ fault
      | some r ↦ (do
        give_back (property r.prop_id)
        if str_eq r.name name then pure (signed64 p.value) else value_loop name ps)
    ]

  -- The value as `int64_t`, -1 if no property has the name.
  unfoldable pub get_property_value : Option (List PropValue) → String → M ℤ
  unfolding value_loop
  get_property_value none name = fault
  get_property_value (some props) name = value_loop name props

  infos_loop : List PropValue → M (List (Option PropertyRes))
  infos_loop [] = pure []
  infos_loop (p ∷ ps) = do
    info ← allocate (λ w. k.get_property w p.prop_id) (λ r. property r.prop_id)
    rest ← infos_loop ps
    pure (info ∷ rest)

  -- `obj` after the call: `props` stays NULL if libdrm has no answer.
  pub get_object_properties : DrmObject → ObjectKind → M DrmObject
  unfolding infos_loop
  get_object_properties obj kind = do
    props ← allocate (λ w. k.get_object_properties w obj.id kind) (λ _. object_properties obj.id)
    elim props [
      | none ↦ pure (record obj { props = none })
      | some ps ↦ (do
        take (infos obj.id)
        info ← infos_loop ps
        pure (record obj { props = some ps; props_info = info }))
    ]

  -- `prop_id` is 0 if no entry has the name.
  pub set_found : ℕ → ℕ → Request → Found → M (ℤ × Request)
  set_found object value req null_entry = fault
  set_found object value req (prop id) =
      let item : Item = record { object = object; prop_id = id; value = value } in
      if id == 0 then pure (einval, req) else λ w.
      some (added req item (k.add_property w req item), w)

  -- The result code, and the request.
  unfoldable pub set_drm_object_property : DrmObject → String → ℕ → Request → M (ℤ × Request)
  unfolding set_found
  set_drm_object_property obj name value req =
      unless_null obj.props (set_found obj.id value req (find_prop name obj.props_info))

-- `drmModeFreeProperty` takes a NULL pointer too.
free_infos : List (Option PropertyRes) → M (Unit {0})
free_infos [] = pure tt
free_infos (none ∷ ps) = free_infos ps
free_infos (some p ∷ ps) = do give_back (property p.prop_id); free_infos ps

pub drm_object_fini : DrmObject → M (Unit {0})
unfolding free_infos
drm_object_fini obj = elim obj.props [
  | none ↦ fault
  | some _ ↦ (do
    free_infos obj.props_info
    give_back (infos obj.id)
    give_back (object_properties obj.id))
]
