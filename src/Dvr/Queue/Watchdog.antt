-- ===== src/Dvr/Queue/Watchdog.antt =====
-- The watch on the recorder's thread (src/dvr/dvr.cpp): `busy_since_ms_`, which the thread stores while it
-- works, and `on_tick`, which another thread calls.
use pixel_pilot_rk.Common.{
  ℕ, ◌-◌, ◌≤◌, ◌≡◌, ◌≢◌, refl, ◌⊎◌, inl, inr, Bool, true, false, ◌||◌, List, [], ◌∷◌, ltb, ◌==◌,
  if◌then◌else◌, Bool-cases, All, arith,
}
use pixel_pilot_rk.Dvr.Queue.{
  Rpc, Shared, DvrState, idle, recording, disabled, is_au, drop_units, without_units, disable,
  set_armed, set_stalled,
}
use pixel_pilot_rk.Dvr.Queue.Steps.{Run, here, next, dropped, latched, armed}
use pixel_pilot_rk.Dvr.Queue.Steps
use pixel_pilot_rk.Dvr.Recorder.{
  Notice, consumers_changed, recording_fact, status_fact, is_disabled,
}

-- STORAGE_TIMEOUT_MS
abbrev pub storage_timeout_ms : ℕ
storage_timeout_ms = 5000

-- The notices stand newest first.
pub record Watched : Type 0 where
  pub busy_since_ms : ℕ
  pub shared : Shared
  pub notices : List Notice

-- `loop` before it works, and `finish_storage_work` behind.
pub busy_from : ℕ → Watched → Watched
busy_from now w = record w { busy_since_ms = now }

pub no_longer_busy : Watched → Watched
no_longer_busy w = record w { busy_since_ms = 0 }

abbrev pub given_up : Shared → Shared
given_up s = drop_units (set_armed false (disable (set_stalled true s)))

-- `exchange` leaves `stalled_` true if it was.
unfoldable pub on_tick : ℕ → Watched → Watched
unfolding drop_units set_armed disable set_stalled
on_tick now w =
    if w.busy_since_ms == 0
      || (ltb (now - w.busy_since_ms) storage_timeout_ms
          || (is_disabled w.shared.dvr_state || w.shared.stalled))
    then w
    else record w {
      shared = given_up w.shared;
      notices = status_fact 0 ∷ recording_fact false ∷ consumers_changed ∷ w.notices;
    }

-- The thread has worked for the time limit or longer, and the recorder is on.
abbrev pub IsStuck : ℕ → Watched → Type 0
IsStuck now w =
    (w.busy_since_ms ≢ 0)
    × (storage_timeout_ms ≤ now - w.busy_since_ms)
    × (w.shared.dvr_state ≢ disabled)
    × (w.shared.stalled ≡ false)

abbrev pub Queued : Rpc → List Rpc → Type 0
Queued rpc [] = ⊥
Queued rpc (first ∷ rest) = (first ≡ rpc) ⊎ Queued rpc rest

abbrev pub IsCommand : Rpc → Type 0
IsCommand rpc = is_au rpc.command ≡ false

without_units-IsCommand : (q : List Rpc) → All IsCommand (without_units q)
unfolding without_units
without_units-IsCommand [] = tt
without_units-IsCommand (rpc ∷ rest) = elim (Bool-cases (is_au rpc.command)) [
  | inl au ↦ rw au (without_units-IsCommand rest)
  | inr command ↦ rw command (command, without_units-IsCommand rest)
]

Queued-without_units :
    (rpc : Rpc) (q : List Rpc) → IsCommand rpc → Queued rpc q → Queued rpc (without_units q)
unfolding without_units
Queued-without_units rpc [] c h = h
Queued-without_units rpc (first ∷ rest) c h = elim (Bool-cases (is_au first.command)) [
  | inl au ↦
      rw au (elim h [ inl e ↦ absurd (cc) | inr later ↦ Queued-without_units rpc rest c later ])
  | inr command ↦
      rw command
        (elim h [ inl e ↦ inl e | inr later ↦ inr (Queued-without_units rpc rest c later) ])
]

-- What is left of a recorder that was given up.
pub record GivenUp (s t : Shared) : Type 0 where
  pub steps : Run s t
  pub off : t.dvr_state ≡ disabled
  pub unarmed : t.recording_armed ≡ false
  pub stalled : t.stalled ≡ true
  pub commands : All IsCommand t.queue
  pub kept : (rpc : Rpc) → IsCommand rpc → Queued rpc s.queue → Queued rpc t.queue

given_up-GivenUp : (s : Shared) → GivenUp s (given_up s)
unfolding drop_units set_armed disable set_stalled
given_up-GivenUp s = record {
  steps =
      next (next (next (next here (Steps.stalled s true)) (latched _)) (armed _ false)) (dropped _);
  off = refl;
  unarmed = refl;
  stalled = refl;
  commands = without_units-IsCommand s.queue;
  kept = λ rpc c h. Queued-without_units rpc s.queue c h;
}

off_or_not : (st : DvrState) → (is_disabled st ≡ true) ⊎ (st ≢ disabled)
off_or_not idle = inr (λ e. cc)
off_or_not recording = inr (λ e. cc)
off_or_not disabled = inl refl

on_when_off : (st : DvrState) → is_disabled st ≡ true → (st ≢ disabled) → ⊥
on_when_off idle e h = absurd (cc)
on_when_off recording e h = absurd (cc)
on_when_off disabled e h = h refl

on_then_false : (st : DvrState) → st ≢ disabled → is_disabled st ≡ false
on_then_false idle h = refl
on_then_false recording h = refl
on_then_false disabled h = absurd (h refl)

-- The test of `on_tick`, by its four parts.
stuck_or_not :
    (busy gone : ℕ) (st : DvrState) (over : Bool) (b : Bool)
    → (busy == 0 || (ltb gone storage_timeout_ms || (is_disabled st || over))) ≡ b
    → ((b ≡ false) × (busy ≢ 0) × (storage_timeout_ms ≤ gone) × (st ≢ disabled) × (over ≡ false))
      ⊎ ((b ≡ true)
          × (¬ ((busy ≢ 0) × (storage_timeout_ms ≤ gone) × (st ≢ disabled) × (over ≡ false))))
stuck_or_not busy gone st over b e = elim (Bool-cases (busy == 0)) [
  | inl z ↦ inr (ground (arith, z), λ (n, _, _, _). n (ground (arith, z)))
  | inr nz ↦ elim (Bool-cases (ltb gone storage_timeout_ms)) [
    | inl early ↦ inr (ground (arith, nz, early), λ (_, l, _, _). ground (arith, early, l))
    | inr late ↦ elim (off_or_not st) [
      | inl off ↦ inr (ground (arith, nz, late, off), λ (_, _, o, _). absurd (on_when_off st off o))
      | inr on ↦ elim (Bool-cases over) [
        | inl gone_up ↦ inr (ground (arith, nz, late, gone_up), λ (_, _, _, n). cc)
        | inr not_yet ↦ inl (
          ground (arith, nz, late, on_then_false st on, not_yet),
          (λ z. ground (arith, nz, z)),
          ground (arith, late),
          on,
          not_yet,
        )
      ]
    ]
  ]
]

-- `on_tick` gives the recorder up exactly if its thread has worked for 5 seconds or longer, and it is
-- neither disabled nor given up: by steps that the threads take in any order, it ends disabled and not
-- armed, with no access unit in its queue and every command that was there. Otherwise nothing changes.
pub on_tick-GivesUp :
    (now : ℕ) (w : Watched)
    → (IsStuck now w × GivenUp w.shared (on_tick now w).shared)
      ⊎ ((¬ IsStuck now w) × (on_tick now w ≡ w))
unfolding on_tick
on_tick-GivesUp now w =
    let e =
      stuck_or_not w.busy_since_ms (now - w.busy_since_ms) w.shared.dvr_state w.shared.stalled _
        refl in
    elim e [
      | inl (n, b, l, o, f) ↦ rw n (inl ((b, l, o, f), given_up-GivenUp w.shared))
      | inr (y, calm) ↦ rw y (inr (calm, refl))
    ]
