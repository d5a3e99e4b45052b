-- ===== src/Encoder/Stream/Cadence.antt =====
-- The keyframes that `maybe_request_idr` (src/encoder/video_encoder.cpp) asks for.
use pixel_pilot_rk.Common.{
  ℕ, ◌+◌, ◌-◌, ◌≡◌, ◌≤◌, ◌<◌, ◌⊎◌, inl, inr, refl, Bool, true, false, ◌||◌, ◌∷◌, ltb, leb,
  if◌then◌else◌, arith, Bool-cases,
}
use pixel_pilot_rk.Encoder.Calls.{Calls, World, Leaves, Leaves-if, idr_requested}
use pixel_pilot_rk.Encoder.Mpp.{request_idr}
use pixel_pilot_rk.Encoder.Stream.{VideoEncoder, maybe_request_idr, is_due, keyframe_interval_ms}

-- Nobody asked and nothing was done, or MPP, if there is a context, was asked for an IDR frame now.
abbrev pub Requested : Bool → ℕ → VideoEncoder → World → VideoEncoder → World → Type 0
Requested asked pts s w s' w' =
    ((s.idr_requested ≡ false) × (asked ≡ false) × (s' ≡ s) × (w' ≡ w))
    ⊎ ((s'.last_idr_pts_ms ≡ pts)
        × (s'.idr_requested ≡ false)
        × (w' ≡ (if s.encoder.ctx then idr_requested ∷ w else w)))

not_due :
    (a b : Bool) (pts last : ℕ)
    → (a || b || ltb pts last || leb keyframe_interval_ms (pts - last)) ≡ false
    → (a ≡ false) × (b ≡ false) × (last ≤ pts) × (pts < last + keyframe_interval_ms)
not_due true b pts last e = cc
not_due false true pts last e = cc
not_due false false pts last e = ground arith

-- Behind `maybe_request_idr` of a frame at `pts`, the last request was at `pts` or less than
-- `keyframe_interval_ms` before it. A pending request of this or another thread is not passed over;
-- where one is made, MPP is asked once.
pub maybe_request_idr-Requested :
    (io : Calls) (pts : ℕ) (s : VideoEncoder) (w : World)
    → Leaves (maybe_request_idr io pts s w) (λ s' w'.
      (s'.last_idr_pts_ms ≤ pts)
      × (pts < s'.last_idr_pts_ms + keyframe_interval_ms)
      × Requested (io.request_keyframe w) pts s w s' w')
unfolding maybe_request_idr request_idr
maybe_request_idr-Requested io pts s w =
    let P = λ (s' : VideoEncoder) (w' : World).
      (s'.last_idr_pts_ms ≤ pts)
      × (pts < s'.last_idr_pts_ms + keyframe_interval_ms)
      × Requested (io.request_keyframe w) pts s w s' w' in
    Leaves-if (is_due io (io.request_keyframe w) pts s) _ _ w P
      (λ _. elim (Bool-cases s.encoder.ctx) [
        | inl c ↦ rw c (omega arith, omega arith, inr (refl, refl, refl))
        | inr c ↦ rw c (omega arith, omega arith, inr (refl, refl, refl))
      ])
      (λ e.
        let (a, b, l, i) =
          not_due s.idr_requested (io.request_keyframe w) pts s.last_idr_pts_ms e in
        (l, i, inl (a, b, refl, refl)))
