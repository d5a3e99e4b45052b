-- ===== src/Encoder/Calls/Ledger.antt =====
-- Who holds what by a log of src/encoder: each resource is counted.
use pixel_pilot_rk.Common.{ℕ, ◌+◌, ◌≡◌, [], ◌∷◌, ite, ℕ_discrete}
use pixel_pilot_rk.Encoder.Calls.{Resource, Event, World, acquire, release}

Resource-discrete : Discrete Resource
Resource-discrete = hlevel ℕ_discrete

-- 1 if the two are the same, else 0.
unfoldable pub one : Resource → Resource → ℕ
unfolding Resource-discrete
one r s = ite (Resource-discrete r s) 1 0

abbrev pub taken_by : Resource → Event → ℕ
taken_by r (acquire s) = one r s
taken_by r _ = 0

abbrev pub given_by : Resource → Event → ℕ
given_by r (release s) = one r s
given_by r _ = 0

abbrev pub taken : Resource → World → ℕ
taken r [] = 0
taken r (e ∷ w) = taken_by r e + taken r w

abbrev pub given : Resource → World → ℕ
given r [] = 0
given r (e ∷ w) = given_by r e + given r w

-- Code that had `n` at the log `w`, counted by resource, has `n'` at `w'`: all else that it took it gave
-- back, and each of the rest it gave back once.
abbrev pub Moves : World → (Resource → ℕ) → World → (Resource → ℕ) → Type 0
Moves w n w' n' = (r : Resource) → taken r w' + given r w + n r ≡ taken r w + given r w' + n' r

-- Nothing was taken or given back.
abbrev pub Still : World → World → Type 0
Still w w' = (r : Resource) → (taken r w' ≡ taken r w) × (given r w' ≡ given r w)
