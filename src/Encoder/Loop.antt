-- ===== src/Encoder/Loop.antt =====
-- The thread of `VideoEncoder` (src/encoder/video_encoder.cpp), `loop`, and what the other threads do to
-- its queue between its turns.
pub mod Held
pub mod Owned
pub mod Stopped
pub mod Pending
pub mod Ended
use pixel_pilot_rk.Common.{
  ℕ, ◌+◌, Bool, true, false, not, ◌&&◌, Option, none, some, List, [], ◌∷◌, leb, ◌==◌, if◌then◌else◌,
}
use pixel_pilot_rk.Encoder.Calls.{
  Calls, M, pure, ◌>>=◌, ◌>>◌, ask, note, ticked, commanded, encoder_failed,
}
use pixel_pilot_rk.Encoder.Queue.{
  Frame, Action, set_params, rebuild, posted, Task, frame_task, run_task, shutdown_task, frame,
  writeback_frame, post, set_video_params, restart, shutdown, release_wb_frame,
}
use pixel_pilot_rk.Encoder.Stream.{
  VideoEncoder, encode, drain_pending, recompute_wants_frames, load_wants_frames,
}
use pixel_pilot_rk.Encoder.Session.{ensure_encoder, teardown, tell}

-- MAX_FRAME_ERROR_STREAK
abbrev pub max_frame_error_streak : ℕ
max_frame_error_streak = 60

-- The queue and the thread's own state; `ended` is behind the label `end`.
pub record System : Type 0 where
  pub queue : List Task
  pub venc : VideoEncoder
  pub ended : Bool

-- One thing that a thread does: what the mutex guards of each, and a turn of `loop`.
pub data Step : Type 0 where
  framed captured : Frame → Step
  commanding : ℕ → Step
  sizing : ℕ → ℕ → Step
  restarting shutting turn : Step

abbrev pub first : List Task → Option Task
first [] = none
first (task ∷ _) = some task

abbrev pub behind : List Task → List Task
behind [] = []
behind (_ ∷ rest) = rest

abbrev pub with_queue : System → M (List Task) → M System
with_queue y change = do queue ← change; pure (record y { queue = queue })

module _ (io : Calls) where
  -- The functions that `set_video_params` and `restart` queue, and a posted one, which may call
  -- `drain_pending`.
  pub perform : Action → VideoEncoder → M VideoEncoder
  perform (set_params w h) s =
      if w == s.video_frm_width && h == s.video_frm_height
      then pure s
      else pure (record s { video_frm_width = w; video_frm_height = h; geometry_dirty = true })
  perform rebuild s = pure (record s { geometry_dirty = true })
  perform (posted n) s = do
    note (commanded n)
    stopping ← ask (λ w. io.stops w n)
    (if stopping then drain_pending io s else pure s)

  -- Behind `encode`: a streak of lost frames that is too long is reported, and begins anew.
  pub report_streak : VideoEncoder → M VideoEncoder
  report_streak s =
      if leb max_frame_error_streak s.frame_error_streak
      then (do
        tell (λ c. encoder_failed c) io.consumers
        recompute_wants_frames io (record s { frame_error_streak = 0 }))
      else pure s

  -- A frame's turn behind `ensure_encoder`.
  pub encode_ready : Frame → Bool → VideoEncoder → M VideoEncoder
  encode_ready info is_ready s =
      if not is_ready
      then (do release_wb_frame info; pure s)
      else (do s' ← encode io info s; report_streak s')

  pub frame_turn : Frame → VideoEncoder → M VideoEncoder
  frame_turn info s = do
    wanted ← load_wants_frames io s
    (if not wanted
        then (do release_wb_frame info; pure s)
        else (do (is_ready, s') ← ensure_encoder io s; encode_ready info is_ready s'))

  -- The end of a turn.
  pub give_back : VideoEncoder → M VideoEncoder
  give_back s = do
    wanted ← load_wants_frames io s
    (if not wanted && s.encoder.ctx then teardown io s else pure s)

  -- A turn with what was in the queue, if anything; true behind the label `end`.
  pub dispatch : Option Task → VideoEncoder → M (Bool × VideoEncoder)
  dispatch task s = do
    tell (λ c. ticked c) io.consumers
    elim task [
      | none ↦ pure (false, s)
      | some shutdown_task ↦ (do s' ← teardown io s; pure (true, s'))
      | some (run_task action) ↦ (do
        s' ← perform action s
        s'' ← recompute_wants_frames io s'
        s3 ← give_back s''
        pure (false, s3))
      | some (frame_task info) ↦ (do s' ← frame_turn info s; s'' ← give_back s'; pure (false, s''))
    ]

  pub take_turn : System → M System
  take_turn y = if y.ended then pure y else (do
    (over, s) ← dispatch (first y.queue) y.venc
    pure (record { queue = behind y.queue; venc = s; ended = over }))

  pub step : Step → System → M System
  step (framed info) y = pure (record y { queue = frame info y.queue })
  step (captured info) y = with_queue y (writeback_frame info y.queue)
  step (commanding n) y = with_queue y (post n y.queue)
  step (sizing w h) y = with_queue y (set_video_params w h y.queue)
  step restarting y = with_queue y (restart y.queue)
  step shutting y = with_queue y (shutdown y.queue)
  step turn y = take_turn y

  pub run : List Step → System → M System
  run [] y = pure y
  run (a ∷ rest) y = do y' ← step a y; run rest y'
