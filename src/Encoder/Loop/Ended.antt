-- ===== src/Encoder/Loop/Ended.antt =====
-- The thread of `VideoEncoder` (src/encoder/video_encoder.cpp) ends behind `shutdown`.
use pixel_pilot_rk.Common.{
  ℕ, zero, suc, ◌≡◌, ◌≤◌, ◌<◌, ◌⊎◌, inl, inr, refl, Bool, true, false, List, [], ◌∷◌, length, arith,
}
use pixel_pilot_rk.Encoder.Calls.{Calls, World, Leaves, Leaves-if}
use pixel_pilot_rk.Encoder.Queue.{
  Task, frame_task, run_task, shutdown_task, enqueue, post, set_video_params, restart, shutdown,
  posted, set_params, rebuild,
}
use pixel_pilot_rk.Encoder.Queue.Due.{
  IsDue, IsDue-enqueue, IsDue-frame, IsDue-writeback_frame, IsDue-shutdown,
}
use pixel_pilot_rk.Encoder.Loop.{
  System, Step, framed, captured, commanding, sizing, restarting, shutting, turn, dispatch, first,
  behind, with_queue, take_turn, step, run,
}

-- The turns of the thread.
abbrev pub turns : List Step → ℕ
turns [] = 0
turns (turn ∷ steps) = suc (turns steps)
turns (framed info ∷ steps) = turns steps
turns (captured info ∷ steps) = turns steps
turns (commanding n ∷ steps) = turns steps
turns (sizing x y ∷ steps) = turns steps
turns (restarting ∷ steps) = turns steps
turns (shutting ∷ steps) = turns steps

module _ (io : Calls) where
  -- It has ended, or a shutdown is among the first `n` tasks.
  abbrev pub Ending : ℕ → System → Type 0
  Ending n y = (y.ended ≡ true) ⊎ IsDue n y.queue

  dispatch-Ending :
      (n : ℕ) (q : List Task) (y : System) (w : World)
      → IsDue (suc n) q
      → Leaves (dispatch io (first q) y.venc w) (λ r _. (r.0 ≡ true) ⊎ IsDue n (behind q))
  unfolding dispatch
  dispatch-Ending n [] y w d = absurd d
  dispatch-Ending n (shutdown_task ∷ q) y w d = inl refl
  dispatch-Ending n (frame_task info ∷ q) y w d = inr d
  dispatch-Ending n (run_task action ∷ q) y w d = inr d

  take_turn-Ending :
      (n : ℕ) (y : System) (w : World)
      → Ending (suc n) y
      → Leaves (take_turn io y w) (λ y' _. Ending n y')
  unfolding take_turn
  take_turn-Ending n y w e =
      Leaves-if y.ended _ _ w (λ y' _. Ending n y') (λ over. inl over)
        (λ going. elim e [ inl over ↦ absurd (cc) | inr d ↦ dispatch-Ending n y.queue y w d ])

  queued-Ending :
      (n : ℕ) (y : System) (task : Task) (drop : Bool) (w : World)
      → Ending n y
      → Leaves (with_queue y (enqueue task drop y.queue) w) (λ y' _. Ending n y')
  queued-Ending n y task drop w (inl over) = inl over
  queued-Ending n y task drop w (inr d) = inr (IsDue-enqueue n task drop y.queue w d)

  -- A thread that is ending and has its turns comes to its end.
  run-Ending :
      (steps : List Step) (n : ℕ) (y : System) (w : World)
      → Ending n y
      → n ≤ turns steps
      → Leaves (run io steps y w) (λ y' _. y'.ended ≡ true)
  unfolding run step post set_video_params restart shutdown
  run-Ending [] n y w (inl over) l = over
  run-Ending [] zero y w (inr d) l = absurd d
  run-Ending [] (suc n) y w (inr d) l = absurd (omega arith)
  run-Ending (turn ∷ steps) zero y w e l =
      let m = take_turn io y w in
      run-Ending steps 0 m.0 m.1
        (take_turn-Ending 0 y w (elim e [ inl over ↦ inl over | inr d ↦ absurd d ])) (omega arith)
  run-Ending (turn ∷ steps) (suc n) y w e l =
      let m = take_turn io y w in
      run-Ending steps n m.0 m.1 (take_turn-Ending n y w e) (omega (arith, l))
  run-Ending (framed info ∷ steps) n y w e l =
      run-Ending steps n _ w
        (elim e [ inl over ↦ inl over | inr d ↦ inr (IsDue-frame n info y.queue d) ]) l
  run-Ending (captured info ∷ steps) n y w e l =
      run-Ending steps n _ _
        (elim e [ inl over ↦ inl over | inr d ↦ inr (IsDue-writeback_frame n info y.queue w d) ]) l
  run-Ending (commanding k ∷ steps) n y w e l =
      run-Ending steps n _ _ (queued-Ending n y (run_task (posted k)) false w e) l
  run-Ending (sizing a b ∷ steps) n y w e l =
      run-Ending steps n _ _ (queued-Ending n y (run_task (set_params a b)) true w e) l
  run-Ending (restarting ∷ steps) n y w e l =
      run-Ending steps n _ _ (queued-Ending n y (run_task rebuild) true w e) l
  run-Ending (shutting ∷ steps) n y w e l =
      run-Ending steps n _ _ (queued-Ending n y shutdown_task true w e) l

  -- Behind `shutdown` the thread ends, whatever else is queued meanwhile, once it has had more turns than
  -- there were tasks in the queue.
  pub run-shutdown :
      (steps : List Step) (y : System) (w : World)
      → length y.queue < turns steps
      → Leaves (run io (shutting ∷ steps) y w) (λ y' _. y'.ended ≡ true)
  unfolding run step
  run-shutdown steps y w l =
      run-Ending steps (suc (length y.queue)) _ _ (inr (IsDue-shutdown y.queue w))
        (omega (arith, l))
