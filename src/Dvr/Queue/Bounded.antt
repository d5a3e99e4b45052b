-- ===== src/Dvr/Queue/Bounded.antt =====
-- The bytes in the queue of src/dvr/dvr.cpp.
use pixel_pilot_rk.Common.{
  ℕ, ◌+◌, ◌%◌, ◌<◌, ◌≤◌, ◌^◌, ◌≡◌, inl, inr, refl, ap, sym, ◌∙◌, subst, Bool, true, ◌||◌, ◌==◌,
  List, [], ◌∷◌, ◌++◌, length, arith, All, All-append, Bool-cases,
}
use pixel_pilot_rk.Dvr.Queue.{
  Shared, Rpc, Command, request, enqueue, without, without_units, is_au, drop_units, clear_queue,
  reset_overflow, begin_recording, end_recording, disable, set_armed, set_stalled, new_dvr,
  max_queue_bytes,
}
use pixel_pilot_rk.Dvr.Queue.Steps.{
  Step, posted, delivered, taken, dropped, cleared, reset, began, ended, latched, armed, stalled,
  Run, here, next, on_access_unit-cases, take_front-cases, pushed, unit,
}

pub bytes_in : List Rpc → ℕ
bytes_in [] = 0
bytes_in (rpc ∷ rest) = length rpc.bytes + bytes_in rest

-- Only access units have bytes.
abbrev pub IsPlain : Rpc → Type 0
IsPlain rpc = (is_au rpc.command || length rpc.bytes == 0) ≡ true

-- `queue_bytes_` counts the bytes in the queue, and they are `max_queue_bytes` at most.
pub record IsQueue (s : Shared) : Type 0 where
  pub counted : s.queue_bytes ≡ bytes_in s.queue
  pub bounded : s.queue_bytes ≤ max_queue_bytes
  pub plain : All IsPlain s.queue

bytes_in-append : (q r : List Rpc) → bytes_in (q ++ r) ≡ bytes_in q + bytes_in r
unfolding bytes_in
bytes_in-append [] r = omega arith
bytes_in-append (rpc ∷ q) r = omega (arith, bytes_in-append q r)

bytes_in-without_units : (q : List Rpc) → All IsPlain q → bytes_in (without_units q) ≡ 0
unfolding bytes_in without_units
bytes_in-without_units [] h = refl
bytes_in-without_units (rpc ∷ q) h =
    let rest = bytes_in-without_units q h.1 in
    let first = h.0 in
    elim (Bool-cases (is_au rpc.command)) [
      | inl au ↦ rw au rest
      | inr command ↦
          let none : length rpc.bytes ≡ 0 = ground (arith, first) in rw command (omega arith)
    ]

IsPlain-without_units : (q : List Rpc) → All IsPlain q → All IsPlain (without_units q)
unfolding without_units
IsPlain-without_units [] h = tt
IsPlain-without_units (rpc ∷ q) h = elim (Bool-cases (is_au rpc.command)) [
  | inl au ↦ rw au (IsPlain-without_units q h.1)
  | inr command ↦ rw command (h.0, IsPlain-without_units q h.1)
]

IsQueue-pushed :
    (bytes : List ℕ) (pts_ms : ℕ) (keyframe : Bool) (s : Shared)
    → length bytes < 2 ^ 31
    → (s.queue_bytes + length bytes) % 2 ^ 64 ≤ max_queue_bytes
    → IsQueue s
    → IsQueue (pushed bytes pts_ms keyframe s)
unfolding bytes_in
IsQueue-pushed bytes pts_ms keyframe s l f h = record {
  counted =
      omega
        (arith, h.counted, h.bounded, bytes_in-append s.queue (unit bytes pts_ms keyframe ∷ []));
  bounded = f;
  plain = All-append IsPlain s.queue (unit bytes pts_ms keyframe ∷ []) h.plain (refl, tt);
}

IsQueue-without :
    (rpc : Rpc) (rest : List Rpc) (s : Shared)
    → s.queue ≡ rpc ∷ rest
    → IsQueue s
    → IsQueue (without rpc rest s)
unfolding bytes_in
IsQueue-without rpc rest s e h =
    let sum : s.queue_bytes ≡ length rpc.bytes + bytes_in rest =
      h.counted ∙ ap (λ q. bytes_in q) e in
    let all : All IsPlain (rpc ∷ rest) = subst (λ q. All IsPlain q) e h.plain in
    record { counted = omega (arith, h.bounded); bounded = omega (arith, h.bounded); plain = all.1 }

request-IsPlain : (c : Command) → IsPlain (request c)
request-IsPlain c = elim (Bool-cases (is_au c)) [ inl au ↦ rw au refl | inr other ↦ rw other refl ]

Step-IsQueue : {s t : Shared} → Step s t → IsQueue s → IsQueue t
unfolding bytes_in enqueue drop_units clear_queue reset_overflow begin_recording end_recording
    disable set_armed set_stalled
Step-IsQueue (posted s c) h = record {
  counted = omega (arith, h.counted, h.bounded, bytes_in-append s.queue (request c ∷ []));
  bounded = omega (arith, h.bounded);
  plain = All-append IsPlain s.queue (request c ∷ []) h.plain (request-IsPlain c, tt);
}
Step-IsQueue (delivered s a d p k l) h = elim (on_access_unit-cases a d p k s) [
  | inl same ↦ subst IsQueue (sym same) h
  | inr (inl full) ↦
      subst IsQueue (sym full)
        (record { counted = h.counted; bounded = h.bounded; plain = h.plain })
  | inr (inr (fits, queued)) ↦ subst IsQueue (sym queued) (IsQueue-pushed d p k s l fits h)
]
Step-IsQueue (taken s rpc s' e) h =
    let (rest, (there, left)) = take_front-cases s rpc s' e in
    subst IsQueue (sym left) (IsQueue-without rpc rest s there h)
Step-IsQueue (dropped s) h = record {
  counted = sym (bytes_in-without_units s.queue h.plain);
  bounded = omega arith;
  plain = IsPlain-without_units s.queue h.plain;
}
Step-IsQueue (cleared s) h = record { counted = refl; bounded = omega arith; plain = tt }
Step-IsQueue (reset s) h = record { counted = h.counted; bounded = h.bounded; plain = h.plain }
Step-IsQueue (began s) h = record { counted = h.counted; bounded = h.bounded; plain = h.plain }
Step-IsQueue (ended s) h = record { counted = h.counted; bounded = h.bounded; plain = h.plain }
Step-IsQueue (latched s) h = record { counted = h.counted; bounded = h.bounded; plain = h.plain }
Step-IsQueue (armed s on) h = record { counted = h.counted; bounded = h.bounded; plain = h.plain }
Step-IsQueue (stalled s on) h = record { counted = h.counted; bounded = h.bounded; plain = h.plain }

new_dvr-IsQueue : IsQueue new_dvr
unfolding new_dvr bytes_in
new_dvr-IsQueue = record { counted = refl; bounded = omega arith; plain = tt }

-- Whatever the threads do from the beginning on, and in whatever order, `queue_bytes` is the number of
-- bytes in the queue, which is 32 MiB at most, and no command in it has bytes.
pub Run-IsQueue : {t : Shared} → Run new_dvr t → IsQueue t
Run-IsQueue here = new_dvr-IsQueue
Run-IsQueue (next r step) = Step-IsQueue step (Run-IsQueue r)
