-- ===== src/Encoder/Stream/Held.antt =====
-- Writeback slots, fences and imported buffers through `encode` (src/encoder/video_encoder.cpp).
use pixel_pilot_rk.Common.{
  ℕ, ◌+◌, ◌≡◌, refl, ap, ◌∙◌, ℤ, pos, negsuc, is_neg, is_zero, true, false, not, ◌∷◌, arith,
  Bool-cases, inl, inr,
}
use pixel_pilot_rk.Encoder.Calls.{
  Calls, World, Leaves, Leaves-if, Resource, buffer, acquire, idr_requested,
}
use pixel_pilot_rk.Encoder.Calls.Ledger.{one, Moves}
use pixel_pilot_rk.Encoder.Mpp.{request_idr, submit, sync_strides}
use pixel_pilot_rk.Encoder.Mpp.Held.{mpp_held, none_held}
use pixel_pilot_rk.Encoder.Queue.{Frame}
use pixel_pilot_rk.Encoder.Queue.Held.{
  slot_held, fence_held, frame_held, IsTap, tap_held, neg_slot, pp_wb_release-Moves,
  close_fence-Moves,
}
use pixel_pilot_rk.Encoder.Stream.{
  VideoEncoder, RecordingMode, video_only, video_with_osd_writeback, drain_to_consumers, is_due,
  maybe_request_idr, import_frame, submit_wb, import_wb, release_pending, encode_captured,
  wait_fence, encode_wb, submit_tap, import_tap, differs, sync_frame, encode_tap, encode_as, encode,
}
use pixel_pilot_rk.Encoder.Stream.Kept.{
  Kept, Keeps, Kept-log, Kept-state, Kept-trans, pure-Keeps, drain_to_consumers-Keeps,
}

-- What the encoder holds: the pending slot, and MPP's context and configuration.
abbrev pub held : VideoEncoder → Resource → ℕ
held s r = slot_held s.wb_pending_index r + mpp_held s.encoder r

-- From `s` and what else was held, `n`, to the state that is left.
abbrev pub Takes : VideoEncoder → World → (Resource → ℕ) → VideoEncoder → World → Type 0
Takes s w n s' w' = Moves w (λ r. held s r + n r) w' (held s')

-- The mode and the counters of failures stay.
abbrev pub Settled : VideoEncoder → VideoEncoder → Type 0
Settled s s' =
    (s'.mode ≡ s.mode)
    × (s'.init_attempts ≡ s.init_attempts)
    × (s'.frame_error_streak ≡ s.frame_error_streak)

pub Settled-refl : (s : VideoEncoder) → Settled s s
Settled-refl s = (refl, refl, refl)

pub Settled-trans : (s t u : VideoEncoder) → Settled s t → Settled t u → Settled s u
Settled-trans s t u (m, a, f) (m', a', f') = (m' ∙ m, a' ∙ a, f' ∙ f)

pub Kept-Takes :
    (s : VideoEncoder) (w : World) (s' : VideoEncoder) (w' : World)
    → Kept (s, w) (s', w')
    → Takes s w none_held s' w'
Kept-Takes s w s' w' k r =
    let p = ap (λ z. slot_held z r) k.pending in
    let e = ap (λ m. mpp_held m r) k.encoder in let g = k.still r in omega (arith, p, e, g.0, g.1)

-- A frame that may be given to the mode: the decode tap's path does not look at a fence or a slot.
abbrev pub Fits : RecordingMode → Frame → Type 0
Fits video_only info = IsTap info
Fits video_with_osd_writeback info = Unit

module _ (io : Calls) where
  pub maybe_request_idr-Keeps : (pts : ℕ) → Keeps (maybe_request_idr io pts)
  unfolding maybe_request_idr request_idr
  maybe_request_idr-Keeps pts s w =
      Leaves-if (is_due io (io.request_keyframe w) pts s) _ _ w (λ t u. Kept (s, w) (t, u))
        (λ _.
          let due : VideoEncoder = record s { last_idr_pts_ms = pts; idr_requested = false } in
          Leaves-if (not s.encoder.ctx) (λ v. (tt, v)) (λ v. (tt, idr_requested ∷ v)) w
            (λ _ u. Kept (s, w) (due, u)) (λ _. Kept-state s due w refl refl refl refl refl)
            (λ _.
              Kept-trans (Kept-log s (λ r. (omega arith, omega arith)))
                (Kept-state s due _ refl refl refl refl refl)))
        (λ _. pure-Keeps s w)

  submit-Still :
      (pts : ℕ) (w : World) → Leaves (submit io pts w) (λ _ w'. Moves w none_held w' none_held)
  unfolding submit
  submit-Still pts w =
      Leaves-if (is_zero (io.encode_put_frame w pts)) _ _ w (λ _ w'. Moves w none_held w' none_held)
        (λ _ r. omega arith) (λ _ r. omega arith)

  submit_wb-Takes :
      (info : Frame) (s : VideoEncoder) (w : World)
      → is_neg s.wb_pending_index ≡ true
      → Leaves
          (submit_wb io info s w)
          (Takes s w (λ r. one r (buffer info.prime_fd) + slot_held info.wb_index r))
  unfolding submit_wb
  submit_wb-Takes info s w e =
      let m = maybe_request_idr io info.pts s w in
      let kept = maybe_request_idr-Keeps info.pts s w in
      let k = Kept-Takes s w m.0 m.1 kept in
      let n = submit io info.pts m.1 in
      let g = submit-Still info.pts m.1 in
      let q : (r : Resource) → slot_held m.0.wb_pending_index r ≡ 0 =
        λ r. ap (λ z. slot_held z r) kept.pending ∙ neg_slot s.wb_pending_index r e in
      Leaves-if (is_zero n.0) _ _ _
        (Takes s w (λ r. one r (buffer info.prime_fd) + slot_held info.wb_index r))
        (λ _ r. omega (arith, k r, g r, q r))
        (λ _ r. omega (arith, k r, g r, q r, pp_wb_release-Moves info.wb_index _ r))

  import_wb-Takes :
      (info : Frame) (s : VideoEncoder) (w : World)
      → is_neg s.wb_pending_index ≡ true
      → Leaves (import_wb io info s w) (Takes s w (slot_held info.wb_index))
  unfolding import_wb import_frame
  import_wb-Takes info s w e =
      elim (Bool-cases (io.mpp_buffer_import w info.prime_fd info.buf_size)) [
        | inl made ↦
            rw made
              (λ r. omega (arith, submit_wb-Takes info s (acquire (buffer info.prime_fd) ∷ w) e r))
        | inr failed ↦ rw failed (λ r. omega (arith, pp_wb_release-Moves info.wb_index w r))
      ]

  pub release_pending-Takes :
      (s : VideoEncoder) (w : World)
      → Leaves
          (release_pending io s w)
          (λ s' w'. (is_neg s'.wb_pending_index ≡ true) × Settled s s' × Takes s w none_held s' w')
  unfolding release_pending
  release_pending-Takes s w =
      Leaves-if (is_neg s.wb_pending_index) _ _ w
        (λ s' w'. (is_neg s'.wb_pending_index ≡ true) × Settled s s' × Takes s w none_held s' w')
        (λ e. (e, Settled-refl s, λ r. omega arith))
        (λ _.
          (refl, Settled-refl s, λ r. omega (arith, pp_wb_release-Moves s.wb_pending_index w r)))

  encode_captured-Takes :
      (info : Frame) (s : VideoEncoder) (w : World)
      → Leaves (encode_captured io info s w) (Takes s w (slot_held info.wb_index))
  unfolding encode_captured
  encode_captured-Takes info s w r =
      let m = drain_to_consumers io s w in
      let k = Kept-Takes s w m.0 m.1 (drain_to_consumers-Keeps io s w) in
      let n = release_pending io m.0 m.1 in
      let (e, _, h) = release_pending-Takes m.0 m.1 in
      omega (arith, k r, h r, import_wb-Takes info n.0 n.1 e r)

  wait_fence-Moves :
      (z : ℤ) (w : World) → Leaves (wait_fence io z w) (λ _ w'. Moves w (fence_held z) w' none_held)
  wait_fence-Moves (pos fd) w r = close_fence-Moves (pos fd) w r
  wait_fence-Moves (negsuc n) w r = omega arith

  encode_wb-Takes :
      (info : Frame) (s : VideoEncoder) (w : World)
      → Leaves (encode_wb io info s w) (Takes s w (frame_held info))
  unfolding encode_wb
  encode_wb-Takes info s w =
      let m = wait_fence io info.fence_fd w in
      let g = wait_fence-Moves info.fence_fd w in
      Leaves-if (not m.0) _ _ m.1 (Takes s w (frame_held info))
        (λ _ r. omega (arith, g r, pp_wb_release-Moves info.wb_index m.1 r))
        (λ _ r. omega (arith, g r, encode_captured-Takes info s m.1 r))

  submit_tap-Takes :
      (info : Frame) (s : VideoEncoder) (w : World)
      → Leaves (submit_tap io info s w) (Takes s w (λ r. one r (buffer info.prime_fd)))
  unfolding submit_tap
  submit_tap-Takes info s w =
      let m = maybe_request_idr io info.pts s w in
      let k = Kept-Takes s w m.0 m.1 (maybe_request_idr-Keeps info.pts s w) in
      let n = submit io info.pts m.1 in
      let g = submit-Still info.pts m.1 in
      Leaves-if (is_zero n.0) _ _ _ (Takes s w (λ r. one r (buffer info.prime_fd)))
        (λ _ r. omega (arith, k r, g r)) (λ _ r. omega (arith, k r, g r))

  import_tap-Takes :
      (info : Frame) (s : VideoEncoder) (w : World)
      → Leaves (import_tap io info s w) (Takes s w none_held)
  unfolding import_tap import_frame
  import_tap-Takes info s w =
      elim (Bool-cases (io.mpp_buffer_import w info.prime_fd info.buf_size)) [
        | inl made ↦
            rw made
              (λ r. omega (arith, submit_tap-Takes info s (acquire (buffer info.prime_fd) ∷ w) r))
        | inr failed ↦ rw failed (λ r. omega arith)
      ]

  sync_frame-Takes :
      (info : Frame) (s : VideoEncoder) (w : World)
      → Leaves (sync_frame io info s w) (Takes s w none_held)
  unfolding sync_frame sync_strides
  sync_frame-Takes info s w =
      Leaves-if (differs io info s) _ _ w (Takes s w none_held) (λ _ r. omega arith)
        (λ _ r. omega arith)

  encode_tap-Takes :
      (info : Frame) (s : VideoEncoder) (w : World)
      → Leaves (encode_tap io info s w) (Takes s w none_held)
  unfolding encode_tap
  encode_tap-Takes info s w r =
      let m = drain_to_consumers io s w in
      let k = Kept-Takes s w m.0 m.1 (drain_to_consumers-Keeps io s w) in
      let n = sync_frame io info m.0 m.1 in
      omega (arith, k r, sync_frame-Takes info m.0 m.1 r, import_tap-Takes info n.0 n.1 r)

  by_mode :
      (mode : RecordingMode) (info : Frame) (s : VideoEncoder) (w : World)
      → Fits mode info
      → Leaves (encode_as io mode info s w) (Takes s w (frame_held info))
  by_mode video_only info s w t r = omega (arith, encode_tap-Takes info s w r, tap_held info r t)
  by_mode video_with_osd_writeback info s w t r = encode_wb-Takes info s w r

  -- `encode` gives back, once, each slot, fence and imported buffer that it was given or took, but the
  -- slot that it leaves pending.
  pub encode-Takes :
      (info : Frame) (s : VideoEncoder) (w : World)
      → Fits s.mode info
      → Leaves (encode io info s w) (Takes s w (frame_held info))
  unfolding encode
  encode-Takes info s w = by_mode s.mode info s w
