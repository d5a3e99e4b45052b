-- ===== src/Dvr/Recorder/Turns/Ended.antt =====
-- The recorder's thread (src/dvr/dvr.cpp) from its beginning to its end, among the other threads.
use pixel_pilot_rk.Common.{
  ◌≡◌, inl, inr, refl, ◌∙◌, Bool, true, false, not, ◌&&◌, none, some, List, [], ◌∷◌, ◌++◌,
}
use pixel_pilot_rk.Dvr.Files.{World, M, Leaves, Leaves-if}
use pixel_pilot_rk.Dvr.Queue.{Rpc}
use pixel_pilot_rk.Dvr.Recorder.{Recorder, Host, is_some, is_disabled}
use pixel_pilot_rk.Dvr.Recorder.Turns.{
  Outside, asked_to_stop, latched, overflowed, stuck, Input, waited, took, outside, meddled,
  stop_if_armed, finish_storage_work, turn, wind_up, end_or, loop, check_status, is_shutdown,
  is_disable,
}
use pixel_pilot_rk.Dvr.Recorder.Stopped.{IsTidy, to_idle-disabled, opposed}
use pixel_pilot_rk.Dvr.Recorder.Named.{IsNamed}
use pixel_pilot_rk.Dvr.Recorder.Turns.Named.{loop-IsNamed}
use pixel_pilot_rk.Dvr.Recorder.Turns.Tidy.{
  turn-IsTidy, stop_if_armed-IsTidy, finish_storage_work-IsTidy,
}

-- Not recording, and no file is open or named.
abbrev pub IsOver : Recorder → Type 0
IsOver r =
    (r.recording_armed ≡ false) × (r.writer.is_open ≡ false) × (is_some r.current_filename ≡ false)

meddled-IsTidy : (o : Outside) (r : Recorder) → IsTidy r → IsTidy (meddled o r)
unfolding meddled
meddled-IsTidy asked_to_stop r t = record {
  named = t.named;
  closed = t.closed;
  attempts = elim t.attempts [ inl d ↦ inl (to_idle-disabled r.dvr_state ∙ d) | inr l ↦ inr l ];
}
meddled-IsTidy latched r t = record { named = t.named; closed = t.closed; attempts = inl refl }
meddled-IsTidy overflowed r t = record { named = t.named; closed = t.closed; attempts = t.attempts }
meddled-IsTidy stuck r t = record { named = t.named; closed = λ _ e. cc; attempts = inl refl }

module _ (h : Host) where
  wind_up-IsOver :
      (r : Recorder) (w : World) → IsTidy r → Leaves (wind_up h r w) (λ r' _. IsTidy r' × IsOver r')
  unfolding wind_up
  wind_up-IsOver r w t =
      let m = stop_if_armed h r w in
      let (t1, a1) = stop_if_armed-IsTidy h r w t in
      let n = finish_storage_work h m.0 m.1 in
      let (t2, x) = finish_storage_work-IsTidy h m.0 m.1 t1 in
      elim x [
        | inl (a, s) ↦ let o = t2.closed (a ∙ a1) s in (t2, (a ∙ a1, o, t2.named ∙ o))
        | inr (a, o) ↦ (t2, (a, o, t2.named ∙ o))
      ]

  abbrev TidyEnd : Bool × Recorder → Type 0
  TidyEnd (over, r) = IsTidy r × (over ≡ true → IsOver r)

  end_or-Tidy :
      (over : Bool) (r : Recorder) (next : Recorder → M (Bool × Recorder)) (w : World)
      → IsTidy r
      → ((r : Recorder) (w : World) → IsTidy r → Leaves (next r w) (λ x _. TidyEnd x))
      → Leaves (end_or h over r next w) (λ x _. TidyEnd x)
  unfolding end_or
  end_or-Tidy true r next w t f = let (t', o) = wind_up-IsOver r w t in (t', λ _. o)
  end_or-Tidy false r next w t f = f r w t

  loop-Tidy :
      (inputs : List Input) (r : Recorder) (w : World)
      → IsTidy r
      → Leaves (loop h inputs r w) (λ x _. TidyEnd x)
  unfolding loop
  loop-Tidy [] r w t = (t, λ e. cc)
  loop-Tidy (waited ∷ rest) r w t =
      let m = turn h none r w in
      end_or-Tidy m.0.0 m.0.1 (loop h rest) m.1 (turn-IsTidy h none r w t) (loop-Tidy rest)
  loop-Tidy (took rpc ∷ rest) r w t =
      let m = turn h (some rpc) r w in
      end_or-Tidy m.0.0 m.0.1 (loop h rest) m.1 (turn-IsTidy h (some rpc) r w t) (loop-Tidy rest)
  loop-Tidy (outside o ∷ rest) r w t = loop-Tidy rest (meddled o r) w (meddled-IsTidy o r t)

  abbrev pub LoopTidy : Bool × Recorder → World → Type 0
  LoopTidy (over, r) w = IsTidy r × IsNamed r w × (over ≡ true → IsOver r)

  -- If it is so at first, then whatever commands the recorder takes, whatever the other threads do between
  -- its turns, and however the disk, the clock and the mounts answer: the name that the recorder keeps is the path of the file
  -- that is open by the calls made, and it keeps none if none is open; while the recorder is neither
  -- recording nor stalled no file is open; fewer than `max_open_attempts` failed openings are counted
  -- unless it is disabled; and once the thread has ended it is not recording and its file is closed.
  pub loop-LoopTidy :
      (inputs : List Input) (r : Recorder) (w : World)
      → IsTidy r
      → IsNamed r w
      → Leaves (loop h inputs r w) LoopTidy
  loop-LoopTidy inputs r w t n =
      let (tidy, over) = loop-Tidy inputs r w t in (tidy, loop-IsNamed h inputs r w n, over)

  shutdown-ends :
      (rpc : Rpc) (r : Recorder) (w : World)
      → is_shutdown h rpc.command ≡ true
      → Leaves (turn h (some rpc) r w) (λ x _. x.0 ≡ true)
  unfolding turn
  shutdown-ends rpc r w e =
      let m = check_status h false r w in
      Leaves-if {A = Bool × Recorder}
        (is_disabled m.0.dvr_state
          && not (is_shutdown h rpc.command)
          && not (is_disable h rpc.command))
        _ _ m.1 (λ x _. x.0 ≡ true) (λ _. refl)
        (λ _.
          Leaves-if {A = Bool × Recorder} (is_shutdown h rpc.command) _ _ m.1 (λ x _. x.0 ≡ true)
            (λ _. refl) (λ f. absurd (opposed (is_shutdown h rpc.command) e f)))

  over_or :
      (over : Bool) (r : Recorder) (next : Recorder → M (Bool × Recorder)) (w : World)
      → ((r : Recorder) (w : World) → Leaves (next r w) (λ x _. x.0 ≡ true))
      → Leaves (end_or h over r next w) (λ x _. x.0 ≡ true)
  unfolding end_or
  over_or true r next w f = refl
  over_or false r next w f = f r w

  over_at_once :
      (over : Bool) (r : Recorder) (next : Recorder → M (Bool × Recorder)) (w : World)
      → over ≡ true
      → Leaves (end_or h over r next w) (λ x _. x.0 ≡ true)
  unfolding end_or
  over_at_once true r next w e = refl
  over_at_once false r next w e = cc

  loop-over :
      (inputs rest : List Input) (rpc : Rpc) (r : Recorder) (w : World)
      → is_shutdown h rpc.command ≡ true
      → Leaves (loop h (inputs ++ (took rpc ∷ rest)) r w) (λ x _. x.0 ≡ true)
  unfolding loop
  loop-over [] rest rpc r w e =
      let m = turn h (some rpc) r w in
      over_at_once m.0.0 m.0.1 (loop h rest) m.1 (shutdown-ends rpc r w e)
  loop-over (waited ∷ inputs) rest rpc r w e =
      let m = turn h none r w in
      over_or m.0.0 m.0.1 (loop h (inputs ++ (took rpc ∷ rest))) m.1
        (λ r w. loop-over inputs rest rpc r w e)
  loop-over (took other ∷ inputs) rest rpc r w e =
      let m = turn h (some other) r w in
      over_or m.0.0 m.0.1 (loop h (inputs ++ (took rpc ∷ rest))) m.1
        (λ r w. loop-over inputs rest rpc r w e)
  loop-over (outside o ∷ inputs) rest rpc r w e = loop-over inputs rest rpc (meddled o r) w e

  -- A shutdown that the recorder's thread takes from its queue ends it, if nothing did before, whatever
  -- came before and comes behind: the loop is over, and the recorder neither records nor has a file.
  pub loop-shutdown :
      (inputs rest : List Input) (rpc : Rpc) (r : Recorder) (w : World)
      → is_shutdown h rpc.command ≡ true
      → IsTidy r
      → Leaves (loop h (inputs ++ (took rpc ∷ rest)) r w) (λ x _. (x.0 ≡ true) × IsOver x.1)
  loop-shutdown inputs rest rpc r w e t =
      let over = loop-over inputs rest rpc r w e in
      let (_, f) = loop-Tidy (inputs ++ (took rpc ∷ rest)) r w t in (over, f over)
