-- ===== src/Dvr/Queue.antt =====
-- The queue of the recorder's thread and its states (src/dvr/dvr.cpp, dvr.h, dvr_common.h): what the
-- encoder's thread, the main thread and the recorder's own do between them. Each function here is what one of them
-- does at once, in a section under the mutex or by one atomic operation.
pub mod Steps
pub mod Bounded
pub mod Latched
pub mod Senders
pub mod Watchdog
mod Tests
use pixel_pilot_rk.Common.{
  ℕ, ◌+◌, ◌-◌, ◌*◌, ◌%◌, ◌^◌, Bool, true, false, not, ◌&&◌, ◌||◌, Option, none, some, List, [], ◌∷◌,
  ◌++◌, ltb, ◌==◌, if◌then◌else◌, length,
}

pub data Command : Type 0 where
  rpc_au rpc_start rpc_stop rpc_toggle rpc_disable rpc_rotate rpc_fail rpc_shutdown : Command

-- `dvr_rpc`, without its text.
pub record Rpc : Type 0 where
  pub command : Command
  pub bytes : List ℕ
  pub pts_ms : ℕ
  pub keyframe : Bool

pub data DvrState : Type 0 where
  idle recording disabled : DvrState

-- `queue_` has its front first.
pub record Shared : Type 0 where
  pub queue : List Rpc
  pub queue_bytes : ℕ
  pub queue_overflow : Bool
  pub recording_armed : Bool
  pub dvr_state : DvrState
  pub stalled : Bool

pub new_dvr : Shared
new_dvr = record {
  queue = [];
  queue_bytes = 0;
  queue_overflow = false;
  recording_armed = false;
  dvr_state = idle;
  stalled = false;
}

-- MAX_QUEUE_BYTES
abbrev pub max_queue_bytes : ℕ
max_queue_bytes = 32 * 1024 * 1024

-- A command without data, as `{ .command = c }` makes it.
abbrev pub request : Command → Rpc
request c = record { command = c; bytes = []; pts_ms = 0; keyframe = false }

pub enqueue : Rpc → Shared → Shared
enqueue rpc s = record s {
  queue = s.queue ++ (rpc ∷ []);
  queue_bytes = (s.queue_bytes + length rpc.bytes) % 2 ^ 64;
}

-- `on_access_unit` of `AccessUnit` with `len` bytes; `armed_before` is the first read of
-- `recording_armed`, before the mutex is taken.
pub on_access_unit : Bool → List ℕ → ℕ → Bool → Shared → Shared
on_access_unit armed_before bytes pts_ms keyframe s =
    if not armed_before || length bytes == 0 || not s.recording_armed
    then s
    else if ltb max_queue_bytes ((s.queue_bytes + length bytes) % 2 ^ 64)
    then record s { queue_overflow = true }
    else record s {
      queue_bytes = (s.queue_bytes + length bytes) % 2 ^ 64;
      queue =
          s.queue
          ++ ((record { command = rpc_au; bytes = bytes; pts_ms = pts_ms; keyframe = keyframe })
              ∷ []);
    }

abbrev pub without : Rpc → List Rpc → Shared → Shared
without rpc rest s = record s {
  queue = rest;
  queue_bytes = (s.queue_bytes + (2 ^ 64 - length rpc.bytes)) % 2 ^ 64;
}

abbrev pub front : List Rpc → Shared → Option (Rpc × Shared)
front [] s = none
front (rpc ∷ rest) s = some (rpc, without rpc rest s)

-- The front of the queue, in `loop`.
pub take_front : Shared → Option (Rpc × Shared)
take_front s = front s.queue s

abbrev pub is_au : Command → Bool
is_au rpc_au = true
is_au _ = false

pub without_units : List Rpc → List Rpc
without_units [] = []
without_units (rpc ∷ rest) =
    let kept = without_units rest in if is_au rpc.command then kept else rpc ∷ kept

-- The queue part of the watchdog, `on_tick`.
pub drop_units : Shared → Shared
unfolding without_units
drop_units s = record s { queue = without_units s.queue; queue_bytes = 0; queue_overflow = false }

-- The end of `loop`.
pub clear_queue : Shared → Shared
clear_queue s = record s { queue = []; queue_bytes = 0; queue_overflow = false }

-- In `stop`, and in `handle_access_unit`, which reads it first.
pub reset_overflow : Shared → Shared
reset_overflow s = record s { queue_overflow = false }

-- `compare_exchange_strong` in `start`, and in `stop`, `stop_recording` and `shutdown`.
abbrev pub to_recording : DvrState → DvrState
to_recording idle = recording
to_recording st = st

abbrev pub to_idle : DvrState → DvrState
to_idle recording = idle
to_idle st = st

pub begin_recording : Shared → Shared
begin_recording s = record s { dvr_state = to_recording s.dvr_state }

pub end_recording : Shared → Shared
end_recording s = record s { dvr_state = to_idle s.dvr_state }

-- `disable`, `fail` and `on_tick`.
pub disable : Shared → Shared
disable s = record s { dvr_state = disabled }

pub set_armed : Bool → Shared → Shared
set_armed on s = record s { recording_armed = on }

pub set_stalled : Bool → Shared → Shared
set_stalled on s = record s { stalled = on }
