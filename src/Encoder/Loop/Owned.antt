-- ===== src/Encoder/Loop/Owned.antt =====
-- Who holds the writeback slots, the fences and the buffers while the threads of src/encoder run: the
-- steps of all threads, in any order.
use pixel_pilot_rk.Common.{
  ℕ, ◌+◌, ◌≡◌, refl, sym, ◌∙◌, subst, Bool, true, false, List, [], ◌∷◌, arith, All,
}
use pixel_pilot_rk.Encoder.Calls.{Calls, World, Leaves, Leaves-if, Resource}
use pixel_pilot_rk.Encoder.Calls.Ledger.{Moves}
use pixel_pilot_rk.Encoder.Queue.{
  Frame, Task, run_task, shutdown_task, frame, writeback_frame, enqueue, post, set_video_params,
  restart, shutdown, posted, set_params, rebuild,
}
use pixel_pilot_rk.Encoder.Queue.Held.{
  IsTap, frame_held, queue_held, task_held, frame-held, tap_held, writeback_frame-Moves,
  enqueue-Moves,
}
use pixel_pilot_rk.Encoder.Queue.Tasks.{frame-All, writeback_frame-All, enqueue-All}
use pixel_pilot_rk.Encoder.Mpp.Held.{none_held}
use pixel_pilot_rk.Encoder.Stream.{RecordingMode, video_only, video_with_osd_writeback}
use pixel_pilot_rk.Encoder.Stream.Held.{held, Fits}
use pixel_pilot_rk.Encoder.Loop.{
  System, Step, framed, captured, commanding, sizing, restarting, shutting, turn, first, behind,
  with_queue, take_turn, step, run,
}
use pixel_pilot_rk.Encoder.Loop.Held.{IsGood, TaskFits, FirstFits, first_held, dispatch-Dispatched}

abbrev pub system_held : System → Resource → ℕ
system_held y r = queue_held y.queue r + held y.venc r

-- What a step brings: the fence and the slot of the frame that is handed over.
abbrev pub arrival : Step → Resource → ℕ
arrival (framed info) r = frame_held info r
arrival (captured info) r = frame_held info r
arrival (commanding n) r = 0
arrival (sizing x y) r = 0
arrival restarting r = 0
arrival shutting r = 0
arrival turn r = 0

abbrev pub arrivals : List Step → Resource → ℕ
arrivals [] r = 0
arrivals (a ∷ steps) r = arrival a r + arrivals steps r

-- The decode tap's frames have neither fence nor slot, and captured ones come only in writeback mode
-- (or have neither as well).
abbrev pub StepFits : RecordingMode → Step → Type 0
StepFits mode (framed info) = IsTap info
StepFits mode (captured info) = Fits mode info
StepFits mode _ = Unit

-- The mode is the one it was built with, the counters of failures are within their limits, the queue has
-- frames of that mode, and a thread that has ended holds nothing.
pub record IsSound (mode : RecordingMode) (y : System) : Type 0 where
  pub same_mode : y.venc.mode ≡ mode
  pub good : IsGood y.venc
  pub fitting : All (TaskFits mode) y.queue
  pub closed : y.ended ≡ true → (r : Resource) → held y.venc r ≡ 0

pub with_tasks :
    (mode : RecordingMode) (y : System) (queue : List Task)
    → IsSound mode y
    → All (TaskFits mode) queue
    → IsSound mode (record y { queue = queue })
with_tasks mode y queue h f = record {
  same_mode = h.same_mode;
  good = h.good;
  fitting = f;
  closed = h.closed;
}

TapFits : (mode : RecordingMode) (info : Frame) → IsTap info → Fits mode info
TapFits video_only info t = t
TapFits video_with_osd_writeback info t = tt

first_tasks :
    (mode : RecordingMode) (q : List Task)
    → All (TaskFits mode) q
    → FirstFits mode (first q) × All (TaskFits mode) (behind q)
first_tasks mode [] h = (tt, tt)
first_tasks mode (task ∷ q) h = h

first_held-behind :
    (q : List Task) (r : Resource)
    → queue_held q r ≡ first_held (first q) r + queue_held (behind q) r
first_held-behind [] r = refl
first_held-behind (task ∷ q) r = refl

module _ (io : Calls) (mode : RecordingMode) where
  abbrev pub Stepped : System → (Resource → ℕ) → World → System → World → Type 0
  Stepped y n w y' w' = IsSound mode y' × Moves w (λ r. system_held y r + n r) w' (system_held y')

  take_turn-Stepped :
      (y : System) (w : World) → IsSound mode y → Leaves (take_turn io y w) (Stepped y none_held w)
  unfolding take_turn
  take_turn-Stepped y w h =
      Leaves-if y.ended _ _ w (Stepped y none_held w) (λ _. (h, λ r. omega arith))
        (λ _.
          let (f, rest) = first_tasks mode y.queue h.fitting in
          let f' = subst (λ x. FirstFits x (first y.queue)) (sym h.same_mode) f in
          let (closed, (mo, good, t)) = dispatch-Dispatched io (first y.queue) y.venc w h.good f' in
          (
            record { same_mode = mo ∙ h.same_mode; good = good; fitting = rest; closed = closed },
            λ r. omega (arith, t r, first_held-behind y.queue r),
          ))

  queued-Stepped :
      (y : System) (task : Task) (drop : Bool) (w : World)
      → ((r : Resource) → task_held task r ≡ 0)
      → TaskFits mode task
      → IsSound mode y
      → Leaves (with_queue y (enqueue task drop y.queue) w) (Stepped y none_held w)
  queued-Stepped y task drop w z f h =
      let q = enqueue task drop y.queue w in
      let g = enqueue-Moves task drop y.queue w in
      let fits = enqueue-All (TaskFits mode) task drop y.queue w f h.fitting in
      (with_tasks mode y q.0 h fits, λ r. omega (arith, g r, z r))

  pub step-Stepped :
      (a : Step) (y : System) (w : World)
      → StepFits mode a
      → IsSound mode y
      → Leaves (step io a y w) (Stepped y (arrival a) w)
  unfolding step post set_video_params restart shutdown
  step-Stepped (framed info) y w t h =
      let fits = frame-All (TaskFits mode) info y.queue (TapFits mode info t) h.fitting in
      (
        with_tasks mode y (frame info y.queue) h fits,
        λ r. omega (arith, frame-held info y.queue r t, tap_held info r t),
      )
  step-Stepped (captured info) y w f h =
      let q = writeback_frame info y.queue w in
      let fits = writeback_frame-All (TaskFits mode) info y.queue w f h.fitting in
      let g = writeback_frame-Moves info y.queue w in
      (with_tasks mode y q.0 h fits, λ r. omega (arith, g r))
  step-Stepped (commanding n) y w f h =
      queued-Stepped y (run_task (posted n)) false w (λ r. refl) tt h
  step-Stepped (sizing a b) y w f h =
      queued-Stepped y (run_task (set_params a b)) true w (λ r. refl) tt h
  step-Stepped restarting y w f h = queued-Stepped y (run_task rebuild) true w (λ r. refl) tt h
  step-Stepped shutting y w f h = queued-Stepped y shutdown_task true w (λ r. refl) tt h
  step-Stepped turn y w f h = take_turn-Stepped y w h

  -- Whatever the threads do and in whatever order, if each frame is of the kind that the mode captures:
  -- of the slots, fences and imported buffers that were there or came, and of the contexts and
  -- configurations that were made, each is still in the queue or with the encoder, or was given back
  -- exactly once; an encoder's thread that has ended holds none; and the counters of failures are
  -- within their limits.
  pub run-Stepped :
      (steps : List Step) (y : System) (w : World)
      → All (StepFits mode) steps
      → IsSound mode y
      → Leaves (run io steps y w) (Stepped y (arrivals steps) w)
  unfolding run
  run-Stepped [] y w f h = (h, λ r. omega arith)
  run-Stepped (a ∷ steps) y w f h =
      let m = step io a y w in
      let (h', g) = step-Stepped a y w f.0 h in
      let (h2, g2) = run-Stepped steps m.0 m.1 f.1 h' in (h2, λ r. omega (arith, g r, g2 r))
