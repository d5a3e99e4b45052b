-- ===== src/Encoder/Stream/Streak.antt =====
-- The counters of failures through `encode` (src/encoder/video_encoder.cpp).
use pixel_pilot_rk.Common.{◌+◌, ◌≡◌, ◌≤◌, refl, ◌∙◌, is_zero, not, arith, Bool-cases, inl, inr}
use pixel_pilot_rk.Encoder.Calls.{Calls, World, Leaves, Leaves-if}
use pixel_pilot_rk.Encoder.Mpp.{submit, sync_strides}
use pixel_pilot_rk.Encoder.Queue.{Frame}
use pixel_pilot_rk.Encoder.Stream.{
  VideoEncoder, RecordingMode, video_only, video_with_osd_writeback, drain_to_consumers,
  maybe_request_idr, import_frame, submit_wb, import_wb, release_pending, encode_captured,
  wait_fence, encode_wb, submit_tap, import_tap, differs, sync_frame, encode_tap, encode_as, encode,
}
use pixel_pilot_rk.Encoder.Stream.Kept.{drain_to_consumers-Keeps}
use pixel_pilot_rk.Encoder.Stream.Held.{
  Settled, Settled-refl, maybe_request_idr-Keeps, release_pending-Takes,
}

-- At most one more frame is lost.
abbrev pub Advances : VideoEncoder → VideoEncoder → Type 0
Advances s t =
    (t.mode ≡ s.mode)
    × (t.init_attempts ≡ s.init_attempts)
    × (t.frame_error_streak ≤ s.frame_error_streak + 1)

Settled-Advances : (s t u : VideoEncoder) → Settled s t → Advances t u → Advances s u
Settled-Advances s t u (m, a, f) (m', a', f') = (m' ∙ m, a' ∙ a, omega (arith, f, f'))

module _ (io : Calls) where
  submit_wb-Advances :
      (info : Frame) (s : VideoEncoder) (w : World)
      → Leaves (submit_wb io info s w) (λ t _. Advances s t)
  unfolding submit_wb
  submit_wb-Advances info s w =
      let m = maybe_request_idr io info.pts s w in
      let k = maybe_request_idr-Keeps io info.pts s w in
      let n = submit io info.pts m.1 in
      let b : (m.0.frame_error_streak ≡ s.frame_error_streak) = k.streak in
      Leaves-if (is_zero n.0) _ _ _ (λ t _. Advances s t) (λ _. (k.mode, k.attempts, omega arith))
        (λ _. (k.mode, k.attempts, omega (arith, b)))

  import_wb-Advances :
      (info : Frame) (s : VideoEncoder) (w : World)
      → Leaves (import_wb io info s w) (λ t _. Advances s t)
  unfolding import_wb import_frame
  import_wb-Advances info s w =
      elim (Bool-cases (io.mpp_buffer_import w info.prime_fd info.buf_size)) [
        | inl made ↦ rw made (submit_wb-Advances info s _)
        | inr failed ↦ rw failed (refl, refl, omega arith)
      ]

  encode_wb-Advances :
      (info : Frame) (s : VideoEncoder) (w : World)
      → Leaves (encode_wb io info s w) (λ t _. Advances s t)
  unfolding encode_wb encode_captured
  encode_wb-Advances info s w =
      let m = wait_fence io info.fence_fd w in
      Leaves-if (not m.0) _ _ m.1 (λ t _. Advances s t) (λ _. (refl, refl, omega arith))
        (λ _.
          let k = drain_to_consumers-Keeps io s m.1 in
          let d = drain_to_consumers io s m.1 in
          let n = release_pending io d.0 d.1 in
          let u = import_wb io info n.0 n.1 in
          let (_, settled, _) = release_pending-Takes io d.0 d.1 in
          Settled-Advances s d.0 u.0 (k.mode, k.attempts, k.streak)
            (Settled-Advances d.0 n.0 u.0 settled (import_wb-Advances info n.0 n.1)))

  submit_tap-Advances :
      (info : Frame) (s : VideoEncoder) (w : World)
      → Leaves (submit_tap io info s w) (λ t _. Advances s t)
  unfolding submit_tap
  submit_tap-Advances info s w =
      let m = maybe_request_idr io info.pts s w in
      let k = maybe_request_idr-Keeps io info.pts s w in
      let n = submit io info.pts m.1 in
      let b : (m.0.frame_error_streak ≡ s.frame_error_streak) = k.streak in
      Leaves-if (is_zero n.0) _ _ _ (λ t _. Advances s t) (λ _. (k.mode, k.attempts, omega arith))
        (λ _. (k.mode, k.attempts, omega (arith, b)))

  import_tap-Advances :
      (info : Frame) (s : VideoEncoder) (w : World)
      → Leaves (import_tap io info s w) (λ t _. Advances s t)
  unfolding import_tap import_frame
  import_tap-Advances info s w =
      elim (Bool-cases (io.mpp_buffer_import w info.prime_fd info.buf_size)) [
        | inl made ↦ rw made (submit_tap-Advances info s _)
        | inr failed ↦ rw failed (refl, refl, omega arith)
      ]

  encode_tap-Advances :
      (info : Frame) (s : VideoEncoder) (w : World)
      → Leaves (encode_tap io info s w) (λ t _. Advances s t)
  unfolding encode_tap sync_frame sync_strides
  encode_tap-Advances info s w =
      let k = drain_to_consumers-Keeps io s w in
      let d = drain_to_consumers io s w in
      let n = sync_frame io info d.0 d.1 in
      let u = import_tap io info n.0 n.1 in
      let settled : Leaves n (λ t _. Settled d.0 t) =
        Leaves-if (differs io info d.0) _ _ d.1 (λ t _. Settled d.0 t) (λ _. Settled-refl d.0)
          (λ _. Settled-refl d.0) in
      Settled-Advances s d.0 u.0 (k.mode, k.attempts, k.streak)
        (Settled-Advances d.0 n.0 u.0 settled (import_tap-Advances info n.0 n.1))

  by_mode :
      (mode : RecordingMode) (info : Frame) (s : VideoEncoder) (w : World)
      → Leaves (encode_as io mode info s w) (λ t _. Advances s t)
  by_mode video_only info s w = encode_tap-Advances info s w
  by_mode video_with_osd_writeback info s w = encode_wb-Advances info s w

  pub encode-Advances :
      (info : Frame) (s : VideoEncoder) (w : World)
      → Leaves (encode io info s w) (λ t _. Advances s t)
  unfolding encode
  encode-Advances info s w = by_mode s.mode info s w
