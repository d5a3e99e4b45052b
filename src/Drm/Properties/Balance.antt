-- ===== src/Drm/Properties/Balance.antt =====
-- What `modeset_get_object_properties` (src/drm.c) allocates, `modeset_drm_object_fini` frees.
use pixel_pilot_rk.Common.{
  ◌≢◌, signed64, ℕ, ℤ, ◌≡◌, ◌⊎◌, inl, inr, refl, Option, none, some, List, [], ◌∷◌, arith, String,
  if◌then◌else◌, Bool-cases, str_eq,
}
use pixel_pilot_rk.Drm.Kernel.{
  Kernel, World, PropValue, PropertyRes, Resource, property, infos, object_properties, ObjectKind,
}
use pixel_pilot_rk.Drm.Kernel.Monad.{
  Returns, Returns-and_then, Returns-mono, allocate-cases, and_then, acquire_option, pure, ◌>>=◌,
  ◌>>◌, fault, give_back,
}
use pixel_pilot_rk.Drm.Kernel.Ledger.{Gains, Loses, Same, Same-refl}
use pixel_pilot_rk.Drm.Properties.{
  DrmObject, get_property_value, value_loop, infos_loop, get_object_properties, free_infos,
  drm_object_fini,
}

-- Every property id that the kernel lists has a description, as DRM documents.
pub record Describes (k : Kernel) : Type 0 where
  pub described : (w : World) (id : ℕ) → k.get_property w id ≢ none

abbrev pub info_resources : List (Option PropertyRes) → List Resource
info_resources [] = []
info_resources (none ∷ ps) = info_resources ps
info_resources (some p ∷ ps) = property p.prop_id ∷ info_resources ps

-- What an object holds once its properties were read.
abbrev pub object_resources : DrmObject → List Resource
object_resources o = object_properties o.id ∷ infos o.id ∷ info_resources o.props_info

module _ (k : Kernel) where
  infos_step :
      (ps : List PropValue) (w : World)
      → ((v : World) → Returns (infos_loop k ps v) (λ is v'. Gains v v' (info_resources is)))
      → (x : Option PropertyRes)
      → Returns
          (and_then
            (acquire_option (λ r. property r.prop_id) w x)
            (λ info. infos_loop k ps >>= λ rest. pure (info ∷ rest)))
          (λ is w'. Gains w w' (info_resources is))
  infos_step ps w ih none = Returns-and_then (infos_loop k ps w) _ _ _ (ih w) (λ is w' g. g)
  infos_step ps w ih (some p) =
      Returns-and_then (infos_loop k ps _) _ _ _ (ih _) (λ is w' g r. omega (arith, g r))

  infos_loop-Gains :
      (ps : List PropValue) (w : World)
      → Returns (infos_loop k ps w) (λ is w'. Gains w w' (info_resources is))
  unfolding infos_loop
  infos_loop-Gains [] w = Same-refl w
  infos_loop-Gains (p ∷ ps) w = infos_step ps w (infos_loop-Gains ps) (k.get_property w p.prop_id)

  -- `modeset_get_object_properties` holds what belongs to the object's properties, or the properties
  -- stay NULL and it holds nothing new. It leaves the id alone.
  pub get_object_properties-Gains :
      (o : DrmObject) (kind : ObjectKind) (w : World)
      → Returns (get_object_properties k o kind w) (λ o' w'.
        (o'.id ≡ o.id)
        × (((o'.props ≡ none) × Same w w')
            ⊎ ((o'.props ≢ none) × Gains w w' (object_resources o'))))
  unfolding get_object_properties
  get_object_properties-Gains o kind w =
      allocate-cases _ w _ _ _ (k.get_object_properties w o.id kind)
        (λ _. (refl, inl (refl, Same-refl w)))
        λ ps _.
          Returns-and_then (infos_loop k ps _) _ _ _ (infos_loop-Gains ps _)
            (λ is w' g. (refl, inr ((λ e. cc), λ r. omega (arith, g r))))

free_infos-Loses :
    (is : List (Option PropertyRes)) (w : World)
    → Returns (free_infos is w) (λ _ w'. Loses w w' (info_resources is))
unfolding free_infos
free_infos-Loses [] w = Same-refl w
free_infos-Loses (none ∷ is) w = free_infos-Loses is w
free_infos-Loses (some p ∷ is) w =
    Returns-mono (free_infos is _) _ _ (free_infos-Loses is _) (λ _ w' g r. omega (arith, g r))

fini_cases :
    (o : DrmObject) (ps : Option (List PropValue)) (w : World)
    → o.props ≡ ps
    → ps ≢ none
    → Returns (drm_object_fini o w) (λ _ w'. Loses w w' (object_resources o))
unfolding drm_object_fini
fini_cases o none w e h = absurd (h refl)
fini_cases o (some ps) w e h = rw e (
    Returns-and_then (free_infos o.props_info w) _ _ _ (free_infos-Loses o.props_info w)
      (λ _ w' g r. omega (arith, g r)))

-- `modeset_drm_object_fini` gives back exactly what belongs to an object whose properties were read.
pub drm_object_fini-Loses :
    (o : DrmObject) (w : World)
    → o.props ≢ none
    → Returns (drm_object_fini o w) (λ _ w'. Loses w w' (object_resources o))
drm_object_fini-Loses o w h = fini_cases o o.props w refl h

module _ (k : Kernel) (d : Describes k) where
  value_step :
      (name : String) (v : ℕ) (ps : List PropValue) (w : World)
      → ((u : World) → Returns (value_loop k name ps u) (λ _ u'. Same u u'))
      → (x : Option PropertyRes) → x ≢ none
      → Returns {A = ℤ}
          (and_then (acquire_option (λ r. property r.prop_id) w x) (λ found. elim found [
            | none ↦ fault
            | some r ↦ (do
              give_back (property r.prop_id)
              if str_eq r.name name then pure (signed64 v) else value_loop k name ps)
          ]))
          (λ _ w'. Same w w')
  value_step name v ps w ih none h = absurd (h refl)
  value_step name v ps w ih (some r) h = elim (Bool-cases (str_eq r.name name)) [
    | inl e ↦ rw e (λ s. omega arith)
    | inr e ↦
        rw e (Returns-mono (value_loop k name ps _) _ _ (ih _) (λ _ w' g s. omega (arith, g s)))
  ]

  value_loop-Same :
      (name : String) (ps : List PropValue) (w : World)
      → Returns (value_loop k name ps w) (λ _ w'. Same w w')
  unfolding value_loop
  value_loop-Same name [] w = Same-refl w
  value_loop-Same name (p ∷ ps) w =
      value_step name p.value ps w (value_loop-Same name ps) (k.get_property w p.prop_id)
        (d.described w p.prop_id)

-- `get_property_value` frees every property that it looks at, whether it finds the name or not.
pub get_property_value-Same :
    (k : Kernel) (name : String) (props : List PropValue) (w : World)
    → Describes k
    → Returns (get_property_value k (some props) name w) (λ _ w'. Same w w')
unfolding get_property_value
get_property_value-Same k name props w d = value_loop-Same k d name props w
