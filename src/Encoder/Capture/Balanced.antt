-- ===== src/Encoder/Capture/Balanced.antt =====
-- The pool's slots and the fences from the display thread (src/main.cpp) through the encoder.
use pixel_pilot_rk.Common.{
  ℕ, ◌+◌, ◌≡◌, ◌<◌, refl, ℤ, pos, negsuc, Bool, true, false, not, ◌&&◌, Option, none, some, List,
  [], ◌∷◌, leb, if◌then◌else◌, arith, All,
}
use pixel_pilot_rk.Encoder.Calls.{Calls, World, Leaves, Leaves-if, Resource, slot}
use pixel_pilot_rk.Encoder.Calls.Ledger.{one, Moves}
use pixel_pilot_rk.Encoder.Mpp.Held.{none_held}
use pixel_pilot_rk.Encoder.Queue.{writeback_frame, wb_buf_count}
use pixel_pilot_rk.Encoder.Queue.Held.{
  slot_held, fence_held, writeback_frame-Moves, close_fence-Moves,
}
use pixel_pilot_rk.Encoder.Queue.Tasks.{writeback_frame-All}
use pixel_pilot_rk.Encoder.Stream.{load_wants_frames, video_with_osd_writeback}
use pixel_pilot_rk.Encoder.Loop.{System, step}
use pixel_pilot_rk.Encoder.Loop.Held.{TaskFits}
use pixel_pilot_rk.Encoder.Loop.Owned.{
  IsSound, StepFits, system_held, arrival, with_tasks, step-Stepped,
}
use pixel_pilot_rk.Encoder.Capture.{
  Screen, Capturing, max_commit_fails, slots, captured_frame, reserve, arm_slot, take_fence,
  failed_commit, hand_over, commit_slot, capture, Act, shown, threads, act, pipeline,
}

abbrev pub reserved_held : Option ℕ → Resource → ℕ
reserved_held none r = 0
reserved_held (some i) r = one r (slot i)

abbrev pub InPool : Option ℕ → Type 0
InPool none = Unit
InPool (some i) = i < wb_buf_count

slot-in_pool : (i : ℕ) (r : Resource) → i < wb_buf_count → slot_held (pos i) r ≡ one r (slot i)
slot-in_pool i r l = ground arith

-- The frames that other code hands over, by `writeback_frame` or `frame`, beside those of the display.
abbrev pub act_arrivals : List Act → Resource → ℕ
act_arrivals [] r = 0
act_arrivals (shown pts has_frame ∷ rest) r = act_arrivals rest r
act_arrivals (threads a ∷ rest) r = arrival a r + act_arrivals rest r

abbrev pub ActFits : Act → Type 0
ActFits (shown pts has_frame) = Unit
ActFits (threads a) = StepFits video_with_osd_writeback a

-- While captures are on, fewer than `max_commit_fails` commits in a row have failed.
abbrev pub IsLatched : Capturing → Type 0
IsLatched s = s.dvr_wb_mode ≡ true → s.wb_commit_fails < max_commit_fails

module _ (io : Calls) (d : Screen) where
  reserve-Moves :
      (is : List ℕ) (w : World)
      → All (λ i. i < wb_buf_count) is
      → Leaves (reserve io d is w) (λ o w'. InPool o × Moves w none_held w' (reserved_held o))
  unfolding reserve
  reserve-Moves [] w l = (tt, λ r. omega arith)
  reserve-Moves (i ∷ rest) w l =
      Leaves-if (d.wb_busy w i) _ _ w (λ o w'. InPool o × Moves w none_held w' (reserved_held o))
        (λ _. reserve-Moves rest w l.1) (λ _. (l.0, λ r. omega arith))

  arm_slot-Moves :
      (o : Option ℕ) (w : World)
      → InPool o
      → Leaves
          (arm_slot io d o w)
          (λ o' w'. InPool o' × Moves w (reserved_held o) w' (reserved_held o'))
  unfolding arm_slot
  arm_slot-Moves none w p = (tt, λ r. omega arith)
  arm_slot-Moves (some i) w p =
      Leaves-if (not (d.arm w i)) _ _ w
        (λ o' w'. InPool o' × Moves w (reserved_held (some i)) w' (reserved_held o'))
        (λ _. (tt, λ r. omega arith)) (λ _. (p, λ r. omega arith))

  take_fence-Moves :
      (z : ℤ) (w : World)
      → Leaves (take_fence io d z w) (λ _ w'. Moves w none_held w' (fence_held z))
  take_fence-Moves (pos fd) w r = omega arith
  take_fence-Moves (negsuc n) w r = omega arith

  counted-IsLatched :
      (b : Bool) (n : ℕ) (s : Capturing)
      → leb max_commit_fails n ≡ b
      → IsLatched (
          if b
          then record { dvr_wb_mode = false; wb_commit_fails = n; dvr_disabled = true }
          else record s { wb_commit_fails = n })
  counted-IsLatched true n s e = λ f. cc
  counted-IsLatched false n s e = λ _. ground (arith, e)

  failed-IsLatched : (s : Capturing) → IsLatched s → IsLatched (failed_commit io d s)
  failed-IsLatched s l =
      counted-IsLatched (leb max_commit_fails (s.wb_commit_fails + 1)) (s.wb_commit_fails + 1) s
        refl

  -- The state behind an act.
  abbrev pub Acted :
      Capturing → System → World → (Resource → ℕ) → Capturing × System → World → Type 0
  Acted s y w n (s', y') w' =
      IsLatched s'
      × IsSound video_with_osd_writeback y'
      × Moves w (λ r. system_held y r + n r) w' (system_held y')

  hand_over-Acted :
      (pts i : ℕ) (done : Bool) (out_fence : ℤ) (s : Capturing) (y : System) (w : World)
      → i < wb_buf_count
      → IsLatched s
      → IsSound video_with_osd_writeback y
      → Leaves (hand_over io d pts i done out_fence s y w) (Acted s y w (reserved_held (some i)))
  unfolding hand_over
  hand_over-Acted pts i true out_fence s y w p l t =
      let v = (take_fence io d out_fence w).1 in
      let g = take_fence-Moves out_fence w in
      let f = captured_frame d pts i out_fence in
      let q = writeback_frame f y.queue v in
      let m = writeback_frame-Moves f y.queue v in
      let fits = writeback_frame-All (TaskFits video_with_osd_writeback) f y.queue v tt t.fitting in
      (
        (λ _. omega arith),
        with_tasks video_with_osd_writeback y q.0 t fits,
        λ r. omega (arith, g r, m r, slot-in_pool i r p),
      )
  hand_over-Acted pts i false out_fence s y w p l t =
      let v = (take_fence io d out_fence w).1 in
      let g = take_fence-Moves out_fence w in
      let c = close_fence-Moves out_fence v in
      (failed-IsLatched s l, t, λ r. omega (arith, g r, c r))

  commit_slot-Acted :
      (pts : ℕ) (o : Option ℕ) (s : Capturing) (y : System) (w : World)
      → InPool o
      → IsLatched s
      → IsSound video_with_osd_writeback y
      → Leaves (commit_slot io d pts o s y w) (Acted s y w (reserved_held o))
  unfolding commit_slot
  commit_slot-Acted pts none s y w p l t = (l, t, λ r. omega arith)
  commit_slot-Acted pts (some i) s y w p l t =
      hand_over-Acted pts i (d.commit w).0 (d.commit w).1 s y w p l t

  pool-InPool : All (λ i. i < wb_buf_count) slots
  pool-InPool =
      (omega arith, (omega arith, (omega arith, (omega arith, (omega arith, (omega arith, tt))))))

  capture-Acted :
      (pts : ℕ) (has_frame : Bool) (s : Capturing) (y : System) (w : World)
      → IsLatched s
      → IsSound video_with_osd_writeback y
      → Leaves (capture io d pts has_frame s y w) (Acted s y w none_held)
  unfolding capture load_wants_frames
  capture-Acted pts has_frame s y w l t =
      Leaves-if (s.dvr_wb_mode && (load_wants_frames io y.venc w).0 && has_frame) _ _ w
        (Acted s y w none_held)
        (λ _.
          let m = reserve io d slots w in
          let (p, g) = reserve-Moves slots w pool-InPool in
          let n = arm_slot io d m.0 m.1 in
          let (p', g') = arm_slot-Moves m.0 m.1 p in
          let (l', t', e) = commit_slot-Acted pts n.0 s y n.1 p' l t in
          (l', t', λ r. omega (arith, g r, g' r, e r)))
        (λ _. (l, t, λ r. omega arith))

  -- Whatever the display, the encoder's thread and the control threads do in turn, in writeback mode: of
  -- the slots that the display reserves and the fences that its commits make, and of all that the
  -- encoder takes, each is in the queue or with the encoder, or was given back exactly once, also where
  -- arming or the commit fails; and while captures are on, fewer than `max_commit_fails` commits in a row
  -- have failed.
  pub pipeline-Acted :
      (acts : List Act) (s : Capturing) (y : System) (w : World)
      → All ActFits acts
      → IsLatched s
      → IsSound video_with_osd_writeback y
      → Leaves (pipeline io d acts s y w) (Acted s y w (act_arrivals acts))
  unfolding pipeline act
  pipeline-Acted [] s y w f l t = (l, t, λ r. omega arith)
  pipeline-Acted (shown pts has_frame ∷ rest) s y w f l t =
      let m = capture io d pts has_frame s y w in
      let (l', t', g) = capture-Acted pts has_frame s y w l t in
      let (l2, t2, g2) = pipeline-Acted rest m.0.0 m.0.1 m.1 f.1 l' t' in
      (l2, t2, λ r. omega (arith, g r, g2 r))
  pipeline-Acted (threads a ∷ rest) s y w f l t =
      let m = step io a y w in
      let (t', g) = step-Stepped io video_with_osd_writeback a y w f.0 t in
      let (l2, t2, g2) = pipeline-Acted rest s m.0 m.1 f.1 l t' in
      (l2, t2, λ r. omega (arith, g r, g2 r))
