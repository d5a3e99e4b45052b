-- ===== src/Encoder/Loop/Held.antt =====
-- What the thread of `VideoEncoder` (src/encoder/video_encoder.cpp) holds between its turns.
use pixel_pilot_rk.Common.{
  ℕ, ◌≡◌, ◌≤◌, ◌<◌, refl, ◌∙◌, sym, subst, Bool, true, false, not, ◌&&◌, Option, none, some, ◌∷◌,
  leb, ◌==◌, if◌then◌else◌, arith,
}
use pixel_pilot_rk.Encoder.Calls.{
  Calls, World, pure, Leaves, Leaves-if, Resource, commanded, ticked, encoder_failed,
}
use pixel_pilot_rk.Encoder.Mpp.Held.{none_held, closed_held}
use pixel_pilot_rk.Encoder.Queue.{
  Frame, Action, set_params, rebuild, posted, Task, frame_task, run_task, shutdown_task,
}
use pixel_pilot_rk.Encoder.Queue.Held.{frame_held, task_held, neg_slot, release_wb_frame-Moves}
use pixel_pilot_rk.Encoder.Stream.{
  VideoEncoder, RecordingMode, encode, drain_pending, recompute_wants_frames, load_wants_frames,
}
use pixel_pilot_rk.Encoder.Stream.Kept.{
  Kept, Kept-log, Kept-trans, drain_pending-Keeps, recompute_wants_frames-Keeps,
}
use pixel_pilot_rk.Encoder.Stream.Held.{held, Takes, Kept-Takes, Fits, encode-Takes}
use pixel_pilot_rk.Encoder.Stream.Streak.{encode-Advances}
use pixel_pilot_rk.Encoder.Session.{ensure_encoder, teardown, tell, max_init_attempts}
use pixel_pilot_rk.Encoder.Session.Held.{ensure_encoder-Bounded, tell-Still}
use pixel_pilot_rk.Encoder.Session.Started.{teardown-TornDown}
use pixel_pilot_rk.Encoder.Loop.{
  perform, report_streak, encode_ready, frame_turn, give_back, dispatch, max_frame_error_streak,
}

-- Both counters of failures are within their limits.
abbrev pub IsGood : VideoEncoder → Type 0
IsGood s = (s.init_attempts ≤ max_init_attempts) × (s.frame_error_streak < max_frame_error_streak)

abbrev pub Turned : VideoEncoder → World → (Resource → ℕ) → VideoEncoder → World → Type 0
Turned s w n s' w' = (s'.mode ≡ s.mode) × IsGood s' × Takes s w n s' w'

Kept-Turned :
    (s : VideoEncoder) (w : World) (s' : VideoEncoder) (w' : World)
    → IsGood s
    → Kept (s, w) (s', w')
    → Turned s w none_held s' w'
Kept-Turned s w s' w' (l, f) k =
    let a = k.attempts in
    let b = k.streak in (k.mode, (omega (arith, a, l), omega (arith, b, f)), Kept-Takes s w s' w' k)

-- Behind the label `end` nothing is held.
abbrev pub Dispatched : VideoEncoder → World → (Resource → ℕ) → Bool × VideoEncoder → World → Type 0
Dispatched s w n (over, s') w' = (over ≡ true → (r : Resource) → held s' r ≡ 0) × Turned s w n s' w'

abbrev pub first_held : Option Task → Resource → ℕ
first_held none r = 0
first_held (some task) r = task_held task r

abbrev pub TaskFits : RecordingMode → Task → Type 0
TaskFits mode (frame_task info) = Fits mode info
TaskFits mode _ = Unit

abbrev pub FirstFits : RecordingMode → Option Task → Type 0
FirstFits mode none = Unit
FirstFits mode (some task) = TaskFits mode task

module _ (io : Calls) where
  perform-Turned :
      (action : Action) (s : VideoEncoder) (w : World)
      → IsGood s
      → Leaves (perform io action s w) (Turned s w none_held)
  unfolding perform
  perform-Turned (set_params x y) s w g =
      Leaves-if (x == s.video_frm_width && y == s.video_frm_height) _ _ w (Turned s w none_held)
        (λ _. (refl, g, λ r. omega arith)) (λ _. (refl, g, λ r. omega arith))
  perform-Turned rebuild s w g = (refl, g, λ r. omega arith)
  perform-Turned (posted n) s w g =
      let v : World = commanded n ∷ w in
      let k : Kept (s, w) (s, v) = Kept-log s (λ r. (omega arith, omega arith)) in
      let m = (if io.stops v n then drain_pending io s else pure s) v in
      let h : Kept (s, v) m =
        Leaves-if (io.stops v n) _ _ v (λ t u. Kept (s, v) (t, u)) (λ _. drain_pending-Keeps io s v)
          (λ _. Kept-log s (λ r. (refl, refl))) in
      Kept-Turned s w m.0 m.1 g (Kept-trans k h)

  report_streak-Turned :
      (s : VideoEncoder) (w : World)
      → s.init_attempts ≤ max_init_attempts
      → Leaves (report_streak io s w) (Turned s w none_held)
  unfolding report_streak
  report_streak-Turned s w l =
      let v = (tell (λ c. encoder_failed c) io.consumers w).1 in
      let g = tell-Still (λ c. encoder_failed c) io.consumers w (λ c r. (refl, refl)) in
      let reset : VideoEncoder = record s { frame_error_streak = 0 } in
      Leaves-if (leb max_frame_error_streak s.frame_error_streak) _ _ w (Turned s w none_held)
        (λ _.
          let k = recompute_wants_frames-Keeps io reset v in
          let m = recompute_wants_frames io reset v in
          let (mo, good, t) = Kept-Turned reset v m.0 m.1 (l, omega arith) k in
          (mo, good, λ r. omega (arith, t r, (g r).0, (g r).1)))
        (λ e. (refl, (l, ground (arith, e)), λ r. omega arith))

  encode_ready-Turned :
      (info : Frame) (ready : Bool) (s : VideoEncoder) (w : World)
      → IsGood s
      → Fits s.mode info
      → Leaves (encode_ready io info ready s w) (Turned s w (frame_held info))
  unfolding encode_ready
  encode_ready-Turned info false s w g f =
      (refl, g, λ r. omega (arith, release_wb_frame-Moves info w r))
  encode_ready-Turned info true s w (l, st) f =
      let m = encode io info s w in
      let (mo, at, _) = encode-Advances io info s w in
      let t = encode-Takes io info s w f in
      let (mo', good, t') = report_streak-Turned m.0 m.1 (omega (arith, at, l)) in
      (mo' ∙ mo, good, λ r. omega (arith, t r, t' r))

  frame_turn-Turned :
      (info : Frame) (s : VideoEncoder) (w : World)
      → IsGood s
      → Fits s.mode info
      → Leaves (frame_turn io info s w) (Turned s w (frame_held info))
  unfolding frame_turn load_wants_frames
  frame_turn-Turned info s w (l, st) f =
      Leaves-if (not (load_wants_frames io s w).0) _ _ w (Turned s w (frame_held info))
        (λ _. (refl, (l, st), λ r. omega (arith, release_wb_frame-Moves info w r)))
        (λ _.
          let m = ensure_encoder io s w in
          let (_, at, mo, st', t) = ensure_encoder-Bounded io s w l in
          let fits = subst (λ mode. Fits mode info) (sym mo) f in
          let (mo', good, t') =
            encode_ready-Turned info m.0.0 m.0.1 m.1 (at, omega (arith, st, st')) fits in
          (mo' ∙ mo, good, λ r. omega (arith, t r, t' r)))

  give_back-Turned :
      (s : VideoEncoder) (w : World) → IsGood s → Leaves (give_back io s w) (Turned s w none_held)
  unfolding give_back load_wants_frames
  give_back-Turned s w (l, st) =
      Leaves-if (not (load_wants_frames io s w).0 && s.encoder.ctx) _ _ w (Turned s w none_held)
        (λ _.
          let (_, _, (mo, at, st'), t) = teardown-TornDown io s w in
          (mo, (omega (arith, at, l), omega (arith, st, st')), t))
        (λ _. (refl, (l, st), λ r. omega arith))

  pub dispatch-Dispatched :
      (task : Option Task) (s : VideoEncoder) (w : World)
      → IsGood s
      → FirstFits s.mode task
      → Leaves (dispatch io task s w) (Dispatched s w (first_held task))
  unfolding dispatch
  dispatch-Dispatched none s w (l, st) f =
      let g = tell-Still (λ c. ticked c) io.consumers w (λ c r. (refl, refl)) in
      ((λ e. cc), (refl, (l, st), λ r. omega (arith, (g r).0, (g r).1)))
  dispatch-Dispatched (some shutdown_task) s w (l, st) f =
      let g = tell-Still (λ c. ticked c) io.consumers w (λ c r. (refl, refl)) in
      let v = (tell (λ c. ticked c) io.consumers w).1 in
      let m = teardown io s v in
      let (closed, neg, (mo, at, st'), t) = teardown-TornDown io s v in
      (
        (λ _ r.
            omega (arith, closed_held m.0.encoder r closed, neg_slot m.0.wb_pending_index r neg)),
        (
          mo,
          (omega (arith, at, l), omega (arith, st, st')),
          λ r. omega (arith, t r, (g r).0, (g r).1),
        ),
      )
  dispatch-Dispatched (some (run_task action)) s w good f =
      let g = tell-Still (λ c. ticked c) io.consumers w (λ c r. (refl, refl)) in
      let v = (tell (λ c. ticked c) io.consumers w).1 in
      let m = perform io action s v in
      let (mo, good1, t) = perform-Turned action s v good in
      let n = recompute_wants_frames io m.0 m.1 in
      let k = recompute_wants_frames-Keeps io m.0 m.1 in
      let (mo2, good2, t2) = Kept-Turned m.0 m.1 n.0 n.1 good1 k in
      let (mo3, good3, t3) = give_back-Turned n.0 n.1 good2 in
      ((λ e. cc), (mo3 ∙ mo2 ∙ mo, good3, λ r. omega (arith, t r, t2 r, t3 r, (g r).0, (g r).1)))
  dispatch-Dispatched (some (frame_task info)) s w good f =
      let g = tell-Still (λ c. ticked c) io.consumers w (λ c r. (refl, refl)) in
      let v = (tell (λ c. ticked c) io.consumers w).1 in
      let m = frame_turn io info s v in
      let (mo, good1, t) = frame_turn-Turned info s v good f in
      let (mo2, good2, t2) = give_back-Turned m.0 m.1 good1 in
      ((λ e. cc), (mo2 ∙ mo, good2, λ r. omega (arith, t r, t2 r, (g r).0, (g r).1)))
