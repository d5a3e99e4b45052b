-- ===== src/Dvr/Queue/Steps.antt =====
-- The threads of src/dvr/dvr.cpp in any order.
use pixel_pilot_rk.Common.{
  ℕ, ◌+◌, ◌%◌, ◌<◌, ◌≤◌, ◌^◌, ◌≡◌, ◌⊎◌, inl, inr, refl, ap, sym, ◌∙◌, Bool, true, not, ◌||◌, ◌==◌,
  ltb, some, List, [], ◌∷◌, ◌++◌, length, arith, Bool-cases,
}
use mathlib.Core.Option.{some-injective}
use pixel_pilot_rk.Dvr.Queue.{
  Command, Rpc, Shared, request, enqueue, on_access_unit, take_front, drop_units, clear_queue,
  reset_overflow, begin_recording, end_recording, disable, set_armed, set_stalled, front, without,
  max_queue_bytes, rpc_au,
}

-- `len` is an `int`.
pub data Step : Shared → Shared → Type 0 where
  posted : (s : Shared) (c : Command) → Step s (enqueue (request c) s)
  delivered :
      (s : Shared) (armed_before : Bool) (bytes : List ℕ) (pts_ms : ℕ) (keyframe : Bool)
      → length bytes < 2 ^ 31
      → Step s (on_access_unit armed_before bytes pts_ms keyframe s)
  taken : (s : Shared) (rpc : Rpc) (s' : Shared) → take_front s ≡ some (rpc, s') → Step s s'
  dropped : (s : Shared) → Step s (drop_units s)
  cleared : (s : Shared) → Step s (clear_queue s)
  reset : (s : Shared) → Step s (reset_overflow s)
  began : (s : Shared) → Step s (begin_recording s)
  ended : (s : Shared) → Step s (end_recording s)
  latched : (s : Shared) → Step s (disable s)
  armed : (s : Shared) (on : Bool) → Step s (set_armed on s)
  stalled : (s : Shared) (on : Bool) → Step s (set_stalled on s)

pub data Run (s : Shared) : Shared → Type 0 where
  here : Run s s
  next : {t u : Shared} → Run s t → Step t u → Run s u

abbrev pub unit : List ℕ → ℕ → Bool → Rpc
unit bytes pts_ms keyframe = record {
  command = rpc_au;
  bytes = bytes;
  pts_ms = pts_ms;
  keyframe = keyframe;
}

abbrev pub pushed : List ℕ → ℕ → Bool → Shared → Shared
pushed bytes pts_ms keyframe s = record s {
  queue_bytes = (s.queue_bytes + length bytes) % 2 ^ 64;
  queue = s.queue ++ (unit bytes pts_ms keyframe ∷ []);
}

-- An access unit is not wanted, does not fit, or is queued.
pub on_access_unit-cases :
    (armed_before : Bool) (bytes : List ℕ) (pts_ms : ℕ) (keyframe : Bool) (s : Shared)
    → on_access_unit armed_before bytes pts_ms keyframe s ≡ s
      ⊎ (on_access_unit armed_before bytes pts_ms keyframe s ≡ record s { queue_overflow = true }
          ⊎ ((s.queue_bytes + length bytes) % 2 ^ 64 ≤ max_queue_bytes
              × on_access_unit armed_before bytes pts_ms keyframe s
                ≡ pushed bytes pts_ms keyframe s))
unfolding on_access_unit
on_access_unit-cases armed_before bytes pts_ms keyframe s =
    elim (Bool-cases (not armed_before || length bytes == 0 || not s.recording_armed)) [
      | inl unwanted ↦ inl (rw unwanted refl)
      | inr wanted ↦
          elim (Bool-cases (ltb max_queue_bytes ((s.queue_bytes + length bytes) % 2 ^ 64))) [
            | inl full ↦ inr (inl (rw (wanted, full) refl))
            | inr fits ↦ inr (inr (ground arith, rw (wanted, fits) refl))
          ]
    ]

front-cases :
    (q : List Rpc) (s : Shared) (rpc : Rpc) (s' : Shared)
    → front q s ≡ some (rpc, s')
    → (rest : List Rpc) × (q ≡ rpc ∷ rest × s' ≡ without rpc rest s)
front-cases [] s rpc s' e = absurd cc
front-cases (r ∷ rest) s rpc s' e =
    let same = some-injective (r, without r rest s) (rpc, s') e in
    let r' : r ≡ rpc = ap (λ x. x.0) same in
    (rest, (ap (λ x. x ∷ rest) r', sym (ap (λ x. x.1) same) ∙ ap (λ x. without x rest s) r'))

pub take_front-cases :
    (s : Shared) (rpc : Rpc) (s' : Shared)
    → take_front s ≡ some (rpc, s')
    → (rest : List Rpc) × (s.queue ≡ rpc ∷ rest × s' ≡ without rpc rest s)
unfolding take_front
take_front-cases s rpc s' e = front-cases s.queue s rpc s' e
