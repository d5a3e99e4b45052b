-- ===== src/Dvr/Files.antt =====
-- The calls of the C library and of the clock that src/dvr/ts_writer.cpp makes. They are not part of
-- the repository: each is a field of the parameter `Files`, and may answer as it likes, by all that
-- was called before. The log keeps what reaches the file.
use pixel_pilot_rk.Common.{
  ℕ, ◌≡◌, refl, Bool, true, false, Option, none, some, List, [], ◌∷◌, ◌++◌, String, if◌then◌else◌,
}

pub data Event : Type 0 where
  -- `fopen` with mode "w" makes the file empty
  opened : String → Event
  synced_dir : String → Event
  wrote : List ℕ → Event
  flushed synced closed : Event

-- Newest first.
abbrev pub World : Type 0
World = List Event

pub record Files : Type 0 where
  pub fopen : World → String → Bool
  -- the directory of the path can be opened
  pub open_dir : World → String → Bool
  -- how many of the bytes are written
  pub fwrite : World → List ℕ → ℕ
  pub fflush : World → Bool
  pub fdatasync : World → Bool
  pub fclose : World → Bool
  pub monotonic_ms : World → ℕ

abbrev pub M : Type 0 → Type 0
M A = World → A × World

abbrev pub pure : {A : Type 0} → A → M A
pure a w = (a, w)

abbrev pub and_then : {A B : Type 0} → A × World → (A → M B) → B × World
and_then (a, w) f = f a w

infixl 5 ◌>>=◌ ◌>>◌
abbrev pub ◌>>=◌ : {A B : Type 0} → M A → (A → M B) → M B
◌>>=◌ m f w = and_then (m w) f

abbrev pub ◌>>◌ : {A B : Type 0} → M A → M B → M B
◌>>◌ m n w = and_then (m w) (λ _. n)

abbrev pub ask : {A : Type 0} → (World → A) → M A
ask f w = (f w, w)

abbrev pub note : Event → M (Unit {0})
note e w = (tt, e ∷ w)

-- The bytes of the file that was opened last.
abbrev pub contents : World → List ℕ
contents [] = []
contents (opened path ∷ w) = []
contents (wrote bytes ∷ w) = contents w ++ bytes
contents (synced_dir path ∷ w) = contents w
contents (flushed ∷ w) = contents w
contents (synced ∷ w) = contents w
contents (closed ∷ w) = contents w

-- The path of the file that is open, by the log.
abbrev pub open_path : World → Option String
open_path [] = none
open_path (opened path ∷ w) = some path
open_path (closed ∷ w) = none
open_path (synced_dir path ∷ w) = open_path w
open_path (wrote bytes ∷ w) = open_path w
open_path (flushed ∷ w) = open_path w
open_path (synced ∷ w) = open_path w

-- What the code returns and leaves is so.
abbrev pub Leaves : {A : Type 0} → A × World → (A → World → Type 0) → Type 0
Leaves (a, w) P = P a w

pub Leaves-if :
    {A : Type 0} (b : Bool) (m n : M A) (w : World) (Q : A → World → Type 0)
    → (b ≡ true → Leaves (m w) Q)
    → (b ≡ false → Leaves (n w) Q)
    → Leaves ((if b then m else n) w) Q
Leaves-if true m n w Q h g = h refl
Leaves-if false m n w Q h g = g refl
