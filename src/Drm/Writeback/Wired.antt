-- ===== src/Drm/Writeback/Wired.antt =====
-- The states of the writeback connector (src/drm.c) through any sequence of calls.
use pixel_pilot_rk.Common.{
  ◌≡◌, ◌≢◌, inl, inr, refl, ℤ, pos, is_neg, Bool, true, false, not, none, some, [], if◌then◌else◌,
  Bool-cases, subst,
}
use pixel_pilot_rk.Drm.Kernel.{Kernel, World}
use pixel_pilot_rk.Drm.Kernel.Monad.{Returns, pure, allocate}
use pixel_pilot_rk.Drm.Kernel.Ensures.{Ensures, Ensures-and_then, Ensures-if_null, Ensures-mono}
use pixel_pilot_rk.Drm.Properties.{get_property_value, set_drm_object_property}
use pixel_pilot_rk.Drm.Properties.Balance.{Describes}
use pixel_pilot_rk.Drm.State.{Output}
use pixel_pilot_rk.Drm.Fit.{Ratio}
use pixel_pilot_rk.Drm.Commit.{perform_modeset}
use pixel_pilot_rk.Drm.Writeback.{
  find_writeback, attach, attach_writeback, detach, detach_writeback, detach_commit, enodev,
  enabled, attached, alloc_request, osd_request,
}
use pixel_pilot_rk.Drm.Writeback.Found.{FoundWriteback, find_writeback-FoundWriteback}

-- Only an available connector is enabled, and an available one has its properties.
pub record IsWired (out : Output) : Type 0 where
  pub available : out.wb_enabled ≡ true → out.wb_available ≡ true
  pub known : out.wb_available ≡ true → out.wb_connector.props ≢ none

-- A call changes the connector's state only in `wb_enabled`.
abbrev Keeps : Output → Output → Type 0
Keeps out o = (b : Bool) × (o ≡ enabled out b)

attached-Keeps : (out : Output) (c : ℤ) → Keeps out (attached out c).1
attached-Keeps out c = elim (Bool-cases (is_neg c)) [
  | inl t ↦ rw t (false, refl)
  | inr f ↦ rw f (true, refl)
]

module _ (k : Kernel) where
  attach-Keeps :
      (round : Ratio → Ratio) (out : Output) (stretch : Bool) (w : World)
      → Ensures (attach k round out stretch w) (λ r. Keeps out r.1)
  unfolding attach
  attach-Keeps round out stretch w = Ensures-and_then (allocate (alloc_request k) _ w) _ _ λ req v.
      Ensures-if_null req _ _ v _ (false, refl)
        (Ensures-and_then (get_property_value k out.osd_plane.props "zpos" v) _ _ λ zpos v'.
          Ensures-and_then
            (perform_modeset k round (enabled out true) (osd_request out zpos stretch) [] v') _ _
            λ (c, _) v''. attached-Keeps out c)

  Keeps-IsWired : (out o : Output) → IsWired out → out.wb_available ≡ true → Keeps out o → IsWired o
  Keeps-IsWired out o h a (b, e) = rw e (record { available = λ _. a; known = h.known })

  attach-cases :
      (round : Ratio → Ratio) (out : Output) (stretch : Bool) (w : World) (a b : Bool)
      → out.wb_available ≡ a
      → IsWired out
      → Ensures
          ((if not a
              then pure (enodev, out)
              else if b
              then pure (pos 0, out)
              else attach k round out stretch)
            w)
          (λ r. IsWired r.1)
  attach-cases round out stretch w false b e h = h
  attach-cases round out stretch w true true e h = h
  attach-cases round out stretch w true false e h =
      Ensures-mono (attach k round out stretch w) _ _ (attach-Keeps round out stretch w)
        (λ r q. Keeps-IsWired out r.1 h e q)

  attach_writeback-IsWired :
      (round : Ratio → Ratio) (out : Output) (stretch : Bool) (w : World)
      → IsWired out
      → Ensures (attach_writeback k round out stretch w) (λ r. IsWired r.1)
  unfolding attach_writeback
  attach_writeback-IsWired round out stretch w h =
      attach-cases round out stretch w out.wb_available out.wb_enabled refl h

  detach-Keeps : (out : Output) (w : World) → Ensures (detach k out w) (λ o. Keeps out o)
  unfolding detach
  detach-Keeps out w = Ensures-and_then (allocate (alloc_request k) _ w) _ _ λ req v.
      Ensures-if_null req _ _ v _ (false, refl)
        (Ensures-and_then (set_drm_object_property k out.wb_connector "CRTC_ID" 0 [] v) _ _
          λ set v'. Ensures-and_then (detach_commit k set v') _ _ λ _ v''. (false, refl))

  detach-cases :
      (out : Output) (w : World) (a : Bool)
      → out.wb_available ≡ a
      → IsWired out
      → Ensures ((if not a then pure out else detach k out) w) IsWired
  detach-cases out w false e h = h
  detach-cases out w true e h =
      Ensures-mono (detach k out w) _ _ (detach-Keeps out w) (λ o q. Keeps-IsWired out o h e q)

  detach_writeback-IsWired :
      (out : Output) (w : World) → IsWired out → Ensures (detach_writeback k out w) IsWired
  unfolding detach_writeback
  detach_writeback-IsWired out w h = detach-cases out w out.wb_available refl h

-- The states of an output through any calls of the three functions that return.
pub data Reached (k : Kernel) (round : Ratio → Ratio) (start : Output)
    : Output → World → Type 0 where
  begun : (w : World) → Reached k round start start w
  found :
      {o : Output} {w : World} (c : ℤ) (o' : Output) (w' : World)
      → Reached k round start o w
      → find_writeback k o w ≡ some ((c, o'), w')
      → Reached k round start o' w'
  attaching :
      {o : Output} {w : World} (stretch : Bool) (c : ℤ) (o' : Output) (w' : World)
      → Reached k round start o w
      → attach_writeback k round o stretch w ≡ some ((c, o'), w')
      → Reached k round start o' w'
  detaching :
      {o : Output} {w : World} (o' : Output) (w' : World)
      → Reached k round start o w
      → detach_writeback k o w ≡ some (o', w')
      → Reached k round start o' w'

Found-IsWired :
    (w : World) (c : ℤ) (o : Output) (w' : World) → FoundWriteback w (c, o) w' → IsWired o
Found-IsWired w c o w' (n, inl (z, a, p, g)) = record { available = λ e. a; known = λ _. p }
Found-IsWired w c o w' (n, inr (z, a, g)) = record {
  available = λ e. absurd (cc);
  known = λ e. absurd (cc);
}

-- Through any sequence of finding, attaching and detaching, from an output in which it holds: a
-- writeback connector is enabled only while it is available, and available only with its properties
-- known.
pub Reached-IsWired :
    (k : Kernel) (round : Ratio → Ratio) (start o : Output) (w : World)
    → Describes k
    → IsWired start
    → Reached k round start o w
    → IsWired o
Reached-IsWired k round start o w d h (begun _) = h
Reached-IsWired k round start o w d h (found {o = p} {w = v} c o' w' r e) =
    Found-IsWired v c o' w'
      (subst (λ x. Returns x (FoundWriteback v)) e (find_writeback-FoundWriteback k p v d))
Reached-IsWired k round start o w d h (attaching {o = p} {w = v} stretch c o' w' r e) =
    subst (λ x. Ensures x (λ q. IsWired q.1)) e
      (attach_writeback-IsWired k round p stretch v (Reached-IsWired k round start p v d h r))
Reached-IsWired k round start o w d h (detaching {o = p} {w = v} o' w' r e) =
    subst (λ x. Ensures x IsWired) e
      (detach_writeback-IsWired k p v (Reached-IsWired k round start p v d h r))
