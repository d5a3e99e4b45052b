-- ===== src/Drm/Kernel/Monad.antt =====
-- Code that calls the kernel, passes on its log, and may fault.
use pixel_pilot_rk.Common.{ℕ, ◌≡◌, ◌≢◌, refl, Option, none, some, ◌∷◌}
use pixel_pilot_rk.Drm.Kernel.{World, Resource, acquire, release, Reply, ok, fail}

-- `none` is a fault: a NULL pointer is followed, or an assertion fails.
abbrev pub M : Type 0 → Type 0
M A = World → Option (A × World)

abbrev pub pure : {A : Type 0} → A → M A
pure a w = some (a, w)

abbrev pub fault : {A : Type 0} → M A
fault w = none

abbrev pub and_then : {A B : Type 0} → Option (A × World) → (A → M B) → Option (B × World)
and_then none f = none
and_then (some (a, w)) f = f a w

infixl 5 ◌>>=◌ ◌>>◌
abbrev pub ◌>>=◌ : {A B : Type 0} → M A → (A → M B) → M B
◌>>=◌ m f w = and_then (m w) f

abbrev pub ◌>>◌ : {A B : Type 0} → M A → M B → M B
◌>>◌ m n w = and_then (m w) (λ _. n)

-- A call that acquires, gives back, or only asks.
abbrev pub take : Resource → M (Unit {0})
take r w = some (tt, acquire r ∷ w)

abbrev pub give_back : Resource → M (Unit {0})
give_back r w = some (tt, release r ∷ w)

abbrev pub ask : {A : Type 0} → (World → A) → M A
ask f w = some (f w, w)

-- A call that acquires what its answer names, if it succeeds.
abbrev pub acquire_reply :
    {A : Type 0} → (A → Resource) → World → Reply A → Option (Reply A × World)
acquire_reply r w (ok a) = some (ok a, acquire (r a) ∷ w)
acquire_reply r w (fail e) = some (fail e, w)

abbrev pub ask_for : {A : Type 0} → (World → Reply A) → (A → Resource) → M (Reply A)
ask_for f r w = acquire_reply r w (f w)

abbrev pub acquire_option :
    {A : Type 0} → (A → Resource) → World → Option A → Option (Option A × World)
acquire_option r w none = some (none, w)
acquire_option r w (some a) = some (some a, acquire (r a) ∷ w)

-- A call that allocates its answer, or returns NULL.
abbrev pub allocate : {A : Type 0} → (World → Option A) → (A → Resource) → M (Option A)
allocate f r w = acquire_option r w (f w)

-- The code runs to its end, and what it returns and leaves is so.
abbrev pub Returns : {A : Type 0} → Option (A × World) → (A → World → Type 0) → Type 0
Returns none P = ⊥
Returns (some (a, w)) P = P a w

pub Returns-and_then :
    {A B : Type 0} (m : Option (A × World)) (f : A → M B) (P : A → World → Type 0)
    (Q : B → World → Type 0)
    → Returns m P
    → ((a : A) (w : World) → P a w → Returns (f a w) Q)
    → Returns (and_then m f) Q
Returns-and_then none f P Q h g = absurd h
Returns-and_then (some (a, w)) f P Q h g = g a w h

-- The same, with the result of the first part at hand.
pub Returns-and_then_eq :
    {A B : Type 0} (m : Option (A × World)) (f : A → M B) (P : A → World → Type 0)
    (Q : B → World → Type 0)
    → Returns m P
    → ((a : A) (w : World) → m ≡ some (a, w) → P a w → Returns (f a w) Q)
    → Returns (and_then m f) Q
Returns-and_then_eq none f P Q h g = absurd h
Returns-and_then_eq (some (a, w)) f P Q h g = g a w refl h

pub Returns-mono :
    {A : Type 0} (m : Option (A × World)) (P Q : A → World → Type 0)
    → Returns m P
    → ((a : A) (w : World) → P a w → Q a w)
    → Returns m Q
Returns-mono none P Q h g = absurd h
Returns-mono (some (a, w)) P Q h g = g a w h

-- A call that may fail, and what follows each answer.
module _ {A B : Type 0} (r : A → Resource) (w : World) (f : A → M B) (g : ℕ → M B) where
  pub ask_for-cases :
      (Q : B → World → Type 0) (x : Reply A)
      → ((a : A) → Returns (f a (acquire (r a) ∷ w)) Q)
      → ((e : ℕ) → Returns (g e w) Q)
      → Returns (and_then (acquire_reply r w x) (λ y. elim y [ ok a ↦ f a | fail e ↦ g e ])) Q
  ask_for-cases Q (ok a) h k = h a
  ask_for-cases Q (fail e) h k = k e

  -- The same, with the answer at hand.
  pub ask_for-cases_eq :
      (Q : B → World → Type 0) (x : Reply A)
      → ((a : A) → x ≡ ok a → Returns (f a (acquire (r a) ∷ w)) Q)
      → ((e : ℕ) → Returns (g e w) Q)
      → Returns (and_then (acquire_reply r w x) (λ y. elim y [ ok a ↦ f a | fail e ↦ g e ])) Q
  ask_for-cases_eq Q (ok a) h k = h a refl
  ask_for-cases_eq Q (fail e) h k = k e

  pub ask-cases :
      (Q : B → World → Type 0) (x : Reply A)
      → ((a : A) → Returns (f a w) Q)
      → ((e : ℕ) → Returns (g e w) Q)
      → Returns (and_then (some (x, w)) (λ y. elim y [ ok a ↦ f a | fail e ↦ g e ])) Q
  ask-cases Q (ok a) h k = h a
  ask-cases Q (fail e) h k = k e

  -- The same, with the answer at hand.
  pub ask-cases_eq :
      (Q : B → World → Type 0) (x : Reply A)
      → ((a : A) → x ≡ ok a → Returns (f a w) Q)
      → ((e : ℕ) → x ≡ fail e → Returns (g e w) Q)
      → Returns (and_then (some (x, w)) (λ y. elim y [ ok a ↦ f a | fail e ↦ g e ])) Q
  ask-cases_eq Q (ok a) h k = h a refl
  ask-cases_eq Q (fail e) h k = k e refl

-- An allocating call, and what follows NULL and an answer.
module _ {A B : Type 0} (r : A → Resource) (w : World) (g : M B) (f : A → M B) where
  pub allocate-cases :
      (Q : B → World → Type 0) (x : Option A)
      → (x ≡ none → Returns (g w) Q)
      → ((a : A) → x ≡ some a → Returns (f a (acquire (r a) ∷ w)) Q)
      → Returns (and_then (acquire_option r w x) (λ y. elim y [ none ↦ g | some a ↦ f a ])) Q
  allocate-cases Q none h k = h refl
  allocate-cases Q (some a) h k = k a refl

-- `if (!p) … else …`
abbrev pub if_null : {A B : Type 0} → Option A → M B → M B → M B
if_null none m n = m
if_null (some _) m n = n

pub if_null-cases :
    {A B : Type 0} (x : Option A) (m n : M B) (P : M B → Type 0)
    → (x ≡ none → P m)
    → (x ≢ none → P n)
    → P (if_null x m n)
if_null-cases none m n P h k = h refl
if_null-cases (some x) m n P h k = k (λ e. cc)

pub allocate-null :
    {A B : Type 0} (r : A → Resource) (w : World) (m n : M B) (Q : B → World → Type 0)
    (x : Option A)
    → (x ≡ none → Returns (m w) Q)
    → ((a : A) → x ≡ some a → Returns (n (acquire (r a) ∷ w)) Q)
    → Returns (and_then (acquire_option r w x) (λ y. if_null y m n)) Q
allocate-null r w m n Q none h k = h refl
allocate-null r w m n Q (some a) h k = k a refl
