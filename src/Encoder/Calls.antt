-- ===== src/Encoder/Calls.antt =====
-- What src/encoder asks of others: MPP, the kernel's `poll`, the consumers of the stream, and the flags
-- that other threads store. Each is a field of the parameter `Calls`, and may answer as it likes, by
-- all that was done before. The log keeps what was taken and given back, and what the consumers got.
pub mod Ledger
use pixel_pilot_rk.Common.{ℕ, ℤ, ◌≡◌, refl, Bool, true, false, Option, List, ◌∷◌, if◌then◌else◌}

-- What is taken and given back: a slot of the writeback pool, the capture's fence, a buffer that MPP
-- imported, by its descriptor, and MPP's context and configuration.
pub data Resource : Type 0 where
  slot fence buffer : ℕ → Resource
  context config : Resource

pub data Event : Type 0 where
  acquire release : Resource → Event
  -- `mpp_enc_cfg_set_s32`: width, height, strides, rate and bitrate
  configured : ℕ → ℕ → ℕ → ℕ → ℕ → ℕ → Event
  strides_synced : ℕ → ℕ → Event
  -- a frame with its `pts` that MPP took, and the empty frame that ends a stream
  submitted : ℕ → Event
  eos_submitted idr_requested : Event
  -- the consumer, the bytes, the `pts` and whether it is a keyframe
  access_unit : ℕ → List ℕ → ℕ → Bool → Event
  encoder_reset : ℕ → ℕ → ℕ → Event
  encoder_failed ticked commanded : ℕ → Event

-- Newest first.
abbrev pub World : Type 0
World = List Event

-- What `encode_get_packet` answers: no packet yet, an error, or a packet, which may end the stream.
pub data Answer : Type 0 where
  timeout failed : Answer
  packet : List ℕ → Bool → Answer

pub record Calls : Type 0 where
  -- 0 is success
  pub mpp_create : World → ℤ
  pub mpp_init : World → ℤ
  pub mpp_enc_cfg_init : World → ℤ
  -- `MPP_ENC_GET_CFG`, `MPP_ENC_SET_CFG`, `MPP_ENC_SET_HEADER_MODE` and `MPP_SET_OUTPUT_TIMEOUT` of `init`
  pub get_cfg : World → ℤ
  pub set_cfg : World → ℤ
  pub set_header_mode : World → ℤ
  pub set_output_timeout : World → ℤ
  pub encode_put_frame : World → ℕ → ℤ
  -- the answers of `encode_get_packet` up to the end of the loop that asks for them
  pub answers : World → List Answer
  -- whether `mpp_buffer_import` of a descriptor and a size succeeds with a buffer
  pub mpp_buffer_import : World → ℕ → ℕ → Bool
  pub poll : World → ℕ → ℤ
  -- the consumers that were added, and whether one is active
  pub consumers : List ℕ
  pub active : World → ℕ → Bool
  -- whether a consumer, at an access unit, or a posted command calls `drain_pending`
  pub stops : World → ℕ → Bool
  -- what another thread stored in `wants_frames_` by `consumers_changed` since the last access, if any
  pub consumers_changed : World → Option Bool
  -- whether another thread called `request_keyframe` since `idr_requested` was read last
  pub request_keyframe : World → Bool

abbrev pub M : Type 0 → Type 0
M A = World → A × World

abbrev pub pure : {A : Type 0} → A → M A
pure a w = (a, w)

abbrev pub and_then : {A B : Type 0} → A × World → (A → M B) → B × World
and_then (a, w) f = f a w

infixl 5 ◌>>=◌ ◌>>◌
abbrev pub ◌>>=◌ : {A B : Type 0} → M A → (A → M B) → M B
◌>>=◌ m f w = and_then (m w) f

abbrev pub ◌>>◌ : {A B : Type 0} → M A → M B → M B
◌>>◌ m n w = and_then (m w) (λ _. n)

abbrev pub ask : {A : Type 0} → (World → A) → M A
ask f w = (f w, w)

abbrev pub note : Event → M (Unit {0})
note e w = (tt, e ∷ w)

-- What the code returns and leaves is so.
abbrev pub Leaves : {A : Type 0} → A × World → (A → World → Type 0) → Type 0
Leaves (a, w) P = P a w

pub Leaves-and_then :
    {A B : Type 0} (m : A × World) (f : A → M B) (P : A → World → Type 0) (Q : B → World → Type 0)
    → Leaves m P
    → ((a : A) (w : World) → P a w → Leaves (f a w) Q)
    → Leaves (and_then m f) Q
Leaves-and_then (a, w) f P Q h g = g a w h

pub Leaves-mono :
    {A : Type 0} (m : A × World) (P Q : A → World → Type 0)
    → Leaves m P
    → ((a : A) (w : World) → P a w → Q a w)
    → Leaves m Q
Leaves-mono (a, w) P Q h g = g a w h

pub Leaves-if :
    {A : Type 0} (b : Bool) (m n : M A) (w : World) (Q : A → World → Type 0)
    → (b ≡ true → Leaves (m w) Q)
    → (b ≡ false → Leaves (n w) Q)
    → Leaves ((if b then m else n) w) Q
Leaves-if true m n w Q h g = h refl
Leaves-if false m n w Q h g = g refl
