-- ===== src/Dvr/Recorder/Stopped.antt =====
-- What `finalize_current_file`, `stop` and `fail` of the recorder (src/dvr/dvr.cpp) leave.
use pixel_pilot_rk.Common.{
  ◌≡◌, ◌<◌, ◌⊎◌, inl, inr, refl, sym, ap, ◌∙◌, subst, Bool, true, false, not, ◌&&◌, arith,
}
use pixel_pilot_rk.Dvr.Files.{World, Leaves, Leaves-if}
use pixel_pilot_rk.Dvr.Writer.Opened.{close_file-open}
use pixel_pilot_rk.Dvr.Queue.{DvrState, idle, recording, disabled, to_idle}
use pixel_pilot_rk.Dvr.Recorder.{
  Recorder, Host, is_some, is_disabled, finalize_current_file, stopping, stop, fail,
  max_open_attempts,
}

-- The file that is open has a name, and only it; one that is not armed and not stalled has none open; the
-- failed attempts to open one stay within their limit, unless the recorder is disabled.
pub record IsTidy (r : Recorder) : Type 0 where
  pub named : is_some r.current_filename ≡ r.writer.is_open
  pub closed : r.recording_armed ≡ false → r.stalled ≡ false → r.writer.is_open ≡ false
  pub attempts : (is_disabled r.dvr_state ≡ true) ⊎ (r.open_attempts < max_open_attempts)

-- What finalizing leaves.
pub record Finalized (r r' : Recorder) : Type 0 where
  pub shut : r'.writer.is_open ≡ false
  pub unnamed : is_some r'.current_filename ≡ false
  pub armed : r'.recording_armed ≡ r.recording_armed
  pub stalled : r'.stalled ≡ r.stalled
  pub state : r'.dvr_state ≡ r.dvr_state
  pub attempts : r'.open_attempts ≡ r.open_attempts
  pub pending : r'.pending_open ≡ r.pending_open

pub to_idle-disabled : (st : DvrState) → is_disabled (to_idle st) ≡ is_disabled st
to_idle-disabled idle = refl
to_idle-disabled recording = refl
to_idle-disabled disabled = refl

pub neither : (a b : Bool) → (not a && not b) ≡ true → (a ≡ false) × (b ≡ false)
neither true b e = cc
neither false true e = cc
neither false false e = (refl, refl)

pub refuted : (b : Bool) → not b ≡ true → b ≡ false
refuted true e = cc
refuted false e = refl

pub affirmed : (b : Bool) → not b ≡ false → b ≡ true
affirmed true e = refl
affirmed false e = cc

pub opposed : (b : Bool) → b ≡ true → b ≡ false → ⊥
opposed true e f = cc
opposed false e f = cc

module _ (h : Host) where
  pub finalize_current_file-Finalized :
      (r : Recorder) (w : World) → Leaves (finalize_current_file h r w) (λ r' _. Finalized r r')
  unfolding finalize_current_file
  finalize_current_file-Finalized r w =
      Leaves-if (not r.writer.is_open && not (is_some r.current_filename)) _ _ w
        (λ r' _. Finalized r r')
        (λ e.
          let (a, b) = neither r.writer.is_open (is_some r.current_filename) e in
          record {
            shut = a;
            unnamed = b;
            armed = refl;
            stalled = refl;
            state = refl;
            attempts = refl;
            pending = refl;
          })
        (λ _. record {
          shut = close_file-open h.files r.writer w;
          unnamed = refl;
          armed = refl;
          stalled = refl;
          state = refl;
          attempts = refl;
          pending = refl;
        })

  -- What `stop` leaves.
  abbrev pub Stopped : Recorder → Recorder → Type 0
  Stopped r r' =
      (r'.recording_armed ≡ false)
      × (r'.writer.is_open ≡ false)
      × (is_some r'.current_filename ≡ false)
      × (r'.stalled ≡ r.stalled)
      × (is_disabled r'.dvr_state ≡ is_disabled r.dvr_state)
      × (r'.open_attempts ≡ r.open_attempts)

  pub stop-Stopped : (r : Recorder) (w : World) → Leaves (stop h r w) (λ r' _. Stopped r r')
  unfolding stop
  stop-Stopped r w =
      let f = finalize_current_file-Finalized (stopping h r) w in
      (
        f.armed,
        f.shut,
        f.unnamed,
        f.stalled,
        ap (λ st. is_disabled st) f.state ∙ to_idle-disabled r.dvr_state,
        f.attempts,
      )

  pub Stopped-IsTidy :
      (r r' : Recorder)
      → (is_disabled r.dvr_state ≡ true) ⊎ (r.open_attempts < max_open_attempts)
      → Stopped r r'
      → IsTidy r'
  Stopped-IsTidy r r' b (a, s, n, st, d, at) = record {
    named = n ∙ sym s;
    closed = λ _ _. s;
    attempts = elim b [ inl x ↦ inl (d ∙ x) | inr l ↦ inr (omega (arith, at, l)) ];
  }

  -- `fail` leaves all alone if it is fatal and the recorder is disabled; else the recorder is stopped,
  -- and disabled if it is fatal.
  abbrev pub Failed : Bool → Recorder → Recorder → Type 0
  Failed fatal r r' =
      ((fatal ≡ true) × (is_disabled r.dvr_state ≡ true) × (r' ≡ r))
      ⊎ ((r'.recording_armed ≡ false)
          × (r'.writer.is_open ≡ false)
          × (is_some r'.current_filename ≡ false)
          × ((fatal ≡ true) × (is_disabled r'.dvr_state ≡ true)
              ⊎ (fatal ≡ false)
                × (is_disabled r'.dvr_state ≡ is_disabled r.dvr_state)
                × (r'.open_attempts ≡ r.open_attempts)))

  pub fail-Failed :
      (fatal : Bool) (r : Recorder) (w : World)
      → Leaves (fail h fatal r w) (λ r' _. Failed fatal r r')
  unfolding fail
  fail-Failed true r w =
      Leaves-if (is_disabled r.dvr_state) _ _ w (λ r' _. Failed true r r')
        (λ e. inl (refl, e, refl))
        (λ _. let (a, s, n, st, d, at) = stop-Stopped r w in inr (a, s, n, inl (refl, refl)))
  fail-Failed false r w =
      let (a, s, n, st, d, at) = stop-Stopped r w in inr (a, s, n, inr (refl, d, at))

  pub Failed-IsTidy : (fatal : Bool) (r r' : Recorder) → IsTidy r → Failed fatal r r' → IsTidy r'
  Failed-IsTidy fatal r r' t (inl (_, _, e)) = subst IsTidy (sym e) t
  Failed-IsTidy fatal r r' t (inr (a, s, n, x)) = record {
    named = n ∙ sym s;
    closed = λ _ _. s;
    attempts = elim x [
      | inl (_, d) ↦ inl d
      | inr (_, d, at) ↦ elim t.attempts [
        | inl y ↦ inl (d ∙ y)
        | inr l ↦ inr (omega (arith, at, l))
      ]
    ];
  }
