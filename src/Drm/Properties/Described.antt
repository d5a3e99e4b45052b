-- ===== src/Drm/Properties/Described.antt =====
-- The kernel described each property that `modeset_get_object_properties` (src/drm.c) read.
use pixel_pilot_rk.Common.{◌≢◌, refl, Option, none, some, List, [], ◌∷◌, Every-nil, Every-cons}
use pixel_pilot_rk.Drm.Kernel.{Kernel, World, PropValue, PropertyRes, ObjectKind, property}
use pixel_pilot_rk.Drm.Kernel.Monad.{
  Returns, Returns-and_then, allocate-cases, and_then, acquire_option, pure, ◌>>=◌,
}
use pixel_pilot_rk.Drm.Properties.{DrmObject, infos_loop, get_object_properties}
use pixel_pilot_rk.Drm.Properties.Balance.{Describes}
use pixel_pilot_rk.Drm.Properties.Lookup.{NoNull}

module _ (k : Kernel) (d : Describes k) where
  described_step :
      (ps : List PropValue) (w : World)
      → ((v : World) → Returns (infos_loop k ps v) (λ is _. NoNull is))
      → (x : Option PropertyRes) → x ≢ none
      → Returns
          (and_then
            (acquire_option (λ r. property r.prop_id) w x)
            (λ info. infos_loop k ps >>= λ rest. pure (info ∷ rest)))
          (λ is _. NoNull is)
  described_step ps w ih none h = absurd (h refl)
  described_step ps w ih (some p) h =
      Returns-and_then (infos_loop k ps _) _ _ _ (ih _) (λ is _ g. Every-cons _ (some p) is h g)

  infos_loop-NoNull :
      (ps : List PropValue) (w : World) → Returns (infos_loop k ps w) (λ is _. NoNull is)
  unfolding infos_loop
  infos_loop-NoNull [] w = Every-nil _
  infos_loop-NoNull (p ∷ ps) w =
      described_step ps w (infos_loop-NoNull ps) (k.get_property w p.prop_id)
        (d.described w p.prop_id)

  pub get_object_properties-NoNull :
      (o : DrmObject) (kind : ObjectKind) (w : World)
      → Returns (get_object_properties k o kind w) (λ o' _. o'.props ≢ none → NoNull o'.props_info)
  unfolding get_object_properties
  get_object_properties-NoNull o kind w =
      allocate-cases _ w _ _ _ (k.get_object_properties w o.id kind) (λ _ h. absurd (h refl))
        λ ps _. Returns-and_then (infos_loop k ps _) _ _ _ (infos_loop-NoNull ps _) (λ is _ g _. g)
