-- ===== src/Codec/Polling/Yields.antt =====
-- Results of code that may read outside a buffer (src/rtp_codec_detector.cpp).
use pixel_pilot_rk.Common.{◌≡◌, refl, Bool, true, false, Option, none, some}
use pixel_pilot_rk.Codec.{◌>>=◌}

-- There is a result, and it is so.
abbrev pub Yields : {A : Type 0} → Option A → (A → Type 0) → Type 0
Yields none P = ⊥
Yields (some a) P = P a

pub Yields->>= :
    {A B : Type 0} (m : Option A) (f : A → Option B) (P : A → Type 0) (Q : B → Type 0)
    → Yields m P
    → ((a : A) → P a → Yields (f a) Q)
    → Yields (m >>= f) Q
Yields->>= none f P Q h g = absurd h
Yields->>= (some a) f P Q h g = g a h

pub Yields-mono :
    {A : Type 0} (m : Option A) (P Q : A → Type 0) → Yields m P → ((a : A) → P a → Q a) → Yields m Q
Yields-mono none P Q h g = absurd h
Yields-mono (some a) P Q h g = g a h

-- Both ways on from a test and from what a call may return.
module _ {B : Type 0} (Q : B → Type 0) where
  pub Yields-branch :
      (b : Bool) (m n : Option B)
      → (b ≡ true → Yields m Q)
      → (b ≡ false → Yields n Q)
      → Yields (elim b [ true ↦ m | false ↦ n ]) Q
  Yields-branch true m n h g = h refl
  Yields-branch false m n h g = g refl

  pub Yields-given :
      {A : Type 0} (o : Option A) (m : Option B) (f : A → Option B)
      → (o ≡ none → Yields m Q)
      → ((a : A) → o ≡ some a → Yields (f a) Q)
      → Yields (elim o [ none ↦ m | some a ↦ f a ]) Q
  Yields-given none m f h g = h refl
  Yields-given (some a) m f h g = g a refl
