-- ===== src/Drm/Kernel/Ledger.antt =====
-- What a log says of who holds what: each resource is counted, so that a leak and a double free both
-- show.
use pixel_pilot_rk.Common.{ℕ, ◌+◌, ◌≡◌, List, [], ◌∷◌, ◌++◌, arith, ite, ℕ_discrete}
use pixel_pilot_rk.Drm.Kernel.{World, Resource, acquire, release, committed}

Resource-discrete : Discrete Resource
Resource-discrete = hlevel ℕ_discrete

-- 1 if the two are the same, else 0.
unfoldable pub one : Resource → Resource → ℕ
unfolding Resource-discrete
one r s = ite (Resource-discrete r s) 1 0

abbrev pub acquired : Resource → World → ℕ
acquired r [] = 0
acquired r (acquire s ∷ w) = one r s + acquired r w
acquired r (release s ∷ w) = acquired r w
acquired r (committed flags items ∷ w) = acquired r w

abbrev pub released : Resource → World → ℕ
released r [] = 0
released r (acquire s ∷ w) = released r w
released r (release s ∷ w) = one r s + released r w
released r (committed flags items ∷ w) = released r w

abbrev pub tally : Resource → List Resource → ℕ
tally r [] = 0
tally r (s ∷ ss) = one r s + tally r ss

-- From the log `w` to the log `w'` the process came to hold `rs` more, each as often as it stands
-- there, and nothing else.
abbrev pub Gains : World → World → List Resource → Type 0
Gains w w' rs =
    (r : Resource) → acquired r w' + released r w ≡ acquired r w + released r w' + tally r rs

abbrev pub Loses : World → World → List Resource → Type 0
Loses w w' rs = Gains w' w rs

-- Whatever was acquired on the way was given back, once.
abbrev pub Same : World → World → Type 0
Same w w' = Gains w w' []

pub tally-append :
    (r : Resource) (rs ss : List Resource) → tally r (rs ++ ss) ≡ tally r rs + tally r ss
tally-append r [] ss = omega arith
tally-append r (s ∷ rs) ss = omega (arith, tally-append r rs ss)

pub Gains-trans :
    (u v w : World) (rs ss : List Resource) → Gains u v rs → Gains v w ss → Gains u w (rs ++ ss)
Gains-trans u v w rs ss g h r = omega (arith, g r, h r, tally-append r rs ss)

pub Same-refl : (w : World) → Same w w
Same-refl w r = omega arith

pub Same-trans : (u v w : World) → Same u v → Same v w → Same u w
Same-trans u v w g h r = omega (arith, g r, h r)

pub Gains-Loses : (u v w : World) (rs : List Resource) → Gains u v rs → Loses v w rs → Same u w
Gains-Loses u v w rs g h r = omega (arith, g r, h r)
