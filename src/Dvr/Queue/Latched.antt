-- ===== src/Dvr/Queue/Latched.antt =====
-- "Disabled is a latch" (src/dvr/dvr_common.h).
use pixel_pilot_rk.Common.{◌≡◌, refl, ap, ◌∙◌, inl, inr}
use pixel_pilot_rk.Dvr.Queue.{
  Shared, disabled, enqueue, drop_units, clear_queue, reset_overflow, begin_recording,
  end_recording, disable, set_armed, set_stalled, to_recording, to_idle,
}
use pixel_pilot_rk.Dvr.Queue.Steps.{
  Step, posted, delivered, taken, dropped, cleared, reset, began, ended, latched, armed, stalled,
  Run, here, next, on_access_unit-cases, take_front-cases,
}

Step-latched : {s t : Shared} → Step s t → s.dvr_state ≡ disabled → t.dvr_state ≡ disabled
unfolding enqueue drop_units clear_queue reset_overflow begin_recording end_recording disable
    set_armed set_stalled
Step-latched (posted s c) h = h
Step-latched (delivered s a d p k l) h = elim (on_access_unit-cases a d p k s) [
  | inl same ↦ ap (λ x. x.dvr_state) same ∙ h
  | inr (inl full) ↦ ap (λ x. x.dvr_state) full ∙ h
  | inr (inr (fits, queued)) ↦ ap (λ x. x.dvr_state) queued ∙ h
]
Step-latched (taken s rpc s' e) h =
    let (rest, (there, left)) = take_front-cases s rpc s' e in ap (λ x. x.dvr_state) left ∙ h
Step-latched (dropped s) h = h
Step-latched (cleared s) h = h
Step-latched (reset s) h = h
Step-latched (began s) h = ap to_recording h
Step-latched (ended s) h = ap to_idle h
Step-latched (latched s) h = refl
Step-latched (armed s on) h = h
Step-latched (stalled s on) h = h

-- Once the recorder is disabled, no sequence of what its threads do, in whatever order, leaves that state.
pub Run-latched : {s t : Shared} → Run s t → s.dvr_state ≡ disabled → t.dvr_state ≡ disabled
Run-latched here h = h
Run-latched (next r step) h = Step-latched step (Run-latched r h)
