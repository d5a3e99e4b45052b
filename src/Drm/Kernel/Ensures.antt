-- ===== src/Drm/Kernel/Ensures.antt =====
-- What holds of a result unless the code faults.
use pixel_pilot_rk.Common.{Option, none, some, ◌∷◌}
use pixel_pilot_rk.Drm.Kernel.{World, Resource, acquire}
use pixel_pilot_rk.Drm.Kernel.Monad.{M, Returns, and_then, acquire_option, if_null}

-- If the code does not fault, what it returns is so.
abbrev pub Ensures : {A : Type 0} → Option (A × World) → (A → Type 0) → Type 0
Ensures none P = Unit {0}
Ensures (some (a, w)) P = P a

pub Ensures-and_then :
    {A B : Type 0} (m : Option (A × World)) (f : A → M B) (Q : B → Type 0)
    → ((a : A) (w : World) → Ensures (f a w) Q)
    → Ensures (and_then m f) Q
Ensures-and_then none f Q h = tt
Ensures-and_then (some (a, w)) f Q h = h a w

pub Ensures-if_null :
    {A B : Type 0} (x : Option A) (m n : M B) (w : World) (Q : B → Type 0)
    → Ensures (m w) Q
    → Ensures (n w) Q
    → Ensures (if_null x m n w) Q
Ensures-if_null none m n w Q h k = h
Ensures-if_null (some x) m n w Q h k = k

pub Ensures-mono :
    {A : Type 0} (m : Option (A × World)) (P Q : A → Type 0)
    → Ensures m P
    → ((a : A) → P a → Q a)
    → Ensures m Q
Ensures-mono none P Q h g = tt
Ensures-mono (some (a, w)) P Q h g = g a h

-- A first part that does not fault, with what it ensures.
pub Ensures-after :
    {A B : Type 0} (m : Option (A × World)) (f : A → M B) (P : A → World → Type 0) (Q : B → Type 0)
    → Returns m P
    → ((a : A) (w : World) → P a w → Ensures (f a w) Q)
    → Ensures (and_then m f) Q
Ensures-after none f P Q h g = absurd h
Ensures-after (some (a, w)) f P Q h g = g a w h

-- The same, with what the first part ensures.
pub Ensures-bind :
    {A B : Type 0} (m : Option (A × World)) (f : A → M B) (P : A → Type 0) (Q : B → Type 0)
    → Ensures m P
    → ((a : A) (w : World) → P a → Ensures (f a w) Q)
    → Ensures (and_then m f) Q
Ensures-bind none f P Q h g = tt
Ensures-bind (some (a, w)) f P Q h g = g a w h

-- An allocating call, and what follows NULL and an answer.
module _ {A B : Type 0} (r : A → Resource) (w : World) (g : M B) (f : A → M B) where
  pub Ensures-allocate :
      (Q : B → Type 0) (x : Option A)
      → Ensures (g w) Q
      → ((a : A) → Ensures (f a (acquire (r a) ∷ w)) Q)
      → Ensures (and_then (acquire_option r w x) (λ y. elim y [ none ↦ g | some a ↦ f a ])) Q
  Ensures-allocate Q none h l = h
  Ensures-allocate Q (some a) h l = l a

pub Returns-Ensures :
    {A : Type 0} (m : Option (A × World)) (P : A → World → Type 0) (Q : A → Type 0)
    → Returns m P
    → Ensures m Q
    → Returns m (λ a w. P a w × Q a)
Returns-Ensures none P Q h g = h
Returns-Ensures (some (a, w)) P Q h g = (h, g)
