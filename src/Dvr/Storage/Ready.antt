-- ===== src/Dvr/Storage/Ready.antt =====
-- When src/dvr/storage_guard.cpp lets a recording begin, and whether the checks made while it runs agree.
use pixel_pilot_rk.Common.{
  ℕ, ◌≡◌, refl, ap, ◌∙◌, inl, inr, Bool, true, false, not, ◌&&◌, ◌||◌, Option, none, some, ltb, leb,
  if◌then◌else◌, arith, Bool-cases,
}
use pixel_pilot_rk.Dvr.Storage.{
  Mounts, Guard, Reason, not_mounted, free_bytes, device_id, is_external_mount, mount_ok, enough_or,
  mounted_or, is_ready, has_enough_free,
}

-- The checks of the hot path: the device is there, the mount is, and the free space suffices.
abbrev pub enough : Guard → Option ℕ → Bool
enough g none = false
enough g (some free) = has_enough_free g free

abbrev pub there : Option ℕ → Bool
there none = false
there (some dev) = true

abbrev pub is_none : Option Reason → Bool
is_none none = true
is_none (some r) = false

unless_missing :
    (required mounted : Bool) (r : Option Reason)
    → is_none (if required && not mounted then some not_mounted else r)
      ≡ ((not required || mounted) && is_none r)
unless_missing true true r = refl
unless_missing true false r = refl
unless_missing false mounted r = refl

module _ (m : Mounts) (g : Guard) where
  enough_or-enough : (free : Option ℕ) → is_none (enough_or m g free) ≡ enough g free
  unfolding has_enough_free
  enough_or-enough none = refl
  enough_or-enough (some free) = elim (Bool-cases (ltb free g.min_free_bytes)) [
    | inl low ↦ let few : leb g.min_free_bytes free ≡ false = ground arith in rw (low, few) refl
    | inr fine ↦ let many : leb g.min_free_bytes free ≡ true = ground arith in rw (fine, many) refl
  ]

  mounted_or-checks :
      (dev : Option ℕ)
      → is_none (mounted_or m g dev) ≡ (there dev && mount_ok m g && enough g (free_bytes m g))
  unfolding mount_ok
  mounted_or-checks none = refl
  mounted_or-checks (some dev) =
      unless_missing g.require_mount (is_external_mount m g) (enough_or m g (free_bytes m g))
      ∙ ap (λ b. mount_ok m g && b) (enough_or-enough (free_bytes m g))

-- A recording may begin exactly if `device_id` answers, `mount_ok` holds, and `free_bytes` answers with
-- what `has_enough_free` accepts: the check at the start is the conjunction of those made while it runs.
pub is_ready-checks :
    (m : Mounts) (g : Guard)
    → is_none (is_ready m g) ≡ (there (device_id m g) && mount_ok m g && enough g (free_bytes m g))
unfolding device_id is_ready
is_ready-checks m g = mounted_or-checks m g (m.stat g.recording_dir)
