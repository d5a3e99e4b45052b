-- ===== src/Dvr/Status.antt =====
-- The watch on the storage: `Dvr::update_storage_status` (src/dvr/dvr.cpp). `file_active()` is read
-- more than once, and is taken to answer the same until the function itself stops the recording: after
-- a call of `fail` it is not read again. The state and the settings that the function does not change
-- are `Session`.
pub mod Lost
use pixel_pilot_rk.Common.{
  ℕ, ◌-◌, ◌*◌, ◌/◌, Bool, true, false, not, ◌&&◌, ◌||◌, Option, none, some, List, [], ◌∷◌, ◌++◌,
  ltb, leb, ◌==◌, if◌then◌else◌,
}
use pixel_pilot_rk.Dvr.Storage.{
  Mounts, Guard, mount_ok, device_id, space_bytes, free_bytes, has_enough_free,
}

-- STORAGE_CHECK_INTERVAL_MS
abbrev pub storage_check_interval_ms : ℕ
storage_check_interval_ms = 3000

pub record Session : Type 0 where
  pub file_active : Bool
  pub session_dev : ℕ
  pub session_dev_known : Bool
  pub session_free_at_start : ℕ
  pub session_free_known : Bool
  -- `writer.size()`
  pub written : ℕ

pub record Status : Type 0 where
  pub last_storage_check_ms : ℕ
  pub storage_status_dev : ℕ
  pub storage_status_dev_known : Bool
  pub storage_total_bytes : ℕ
  pub storage_total_known : Bool

-- The calls of `fail` by their reasons, of which the first two are fatal, and the facts for the OSD.
pub data Report : Type 0 where
  no_longer_mounted was_removed low_free_space : Report
  storage_available_bytes storage_status : ℕ → Report

abbrev pub only_if : Bool → Report → List Report
only_if b r = if b then r ∷ [] else []

abbrev pub forgotten : Status → Status
forgotten st = record st { storage_status_dev_known = false; storage_total_known = false }

module _ (m : Mounts) (g : Guard) (a : Session) where
  abbrev pub low_space : Status → ℕ → Bool
  low_space st available =
      leb available g.min_free_bytes
      || (ltb 0 st.storage_total_bytes && ltb available (st.storage_total_bytes / 10))

  abbrev pub report_space : Status → ℕ → Status × List Report
  report_space st available = (
    st,
    only_if (a.file_active && a.session_free_known && not (has_enough_free g available))
          low_free_space
        ++ (storage_available_bytes
              (if ltb g.min_free_bytes available then available - g.min_free_bytes else 0)
            ∷ storage_status (if low_space st available then 2 else 1)
            ∷ []),
  )

  abbrev pub measured : Status → ℕ → Option (ℕ × ℕ) → Status × List Report
  measured st now_dev none = (st, storage_status 0 ∷ [])
  measured st now_dev (some (available, total)) =
      report_space
        (record st {
          storage_total_bytes = total;
          storage_status_dev = now_dev;
          storage_status_dev_known = true;
          storage_total_known = true;
        })
        available

  abbrev pub asked : Status → Option ℕ → Status × List Report
  asked st none = (st, storage_status 0 ∷ [])
  asked st (some available) = report_space st available

  abbrev pub is_same : ℕ → Bool
  is_same now_dev = a.session_dev_known && now_dev == a.session_dev

  abbrev pub estimate : ℕ
  estimate =
      if ltb a.written a.session_free_at_start then a.session_free_at_start - a.written else 0

  pub check_space : Status → ℕ → Status × List Report
  check_space st now_dev =
      let is_new : Bool =
        not st.storage_status_dev_known || not (now_dev == st.storage_status_dev) in
      if is_new || not st.storage_total_known
      then measured st now_dev (space_bytes m g)
      else if a.file_active && a.session_free_known && is_same now_dev
      then report_space st estimate
      else asked st (free_bytes m g)

  pub check_device : Status → Option ℕ → Status × List Report
  unfolding check_space
  check_device st none = (
    forgotten st,
    only_if (a.file_active && a.session_dev_known) was_removed ++ (storage_status 0 ∷ []),
  )
  check_device st (some now_dev) =
      if a.file_active && a.session_dev_known && not (is_same now_dev)
      then (st, was_removed ∷ storage_status 0 ∷ [])
      else check_space st now_dev

  pub check_storage : Status → Status × List Report
  unfolding check_device
  check_storage st =
      if not (mount_ok m g)
      then (forgotten st, only_if a.file_active no_longer_mounted ++ (storage_status 0 ∷ []))
      else check_device st (device_id m g)

  unfoldable pub update_storage_status : Bool → ℕ → Status → Status × List Report
  unfolding check_storage
  update_storage_status force_update now_ms st =
      if not force_update && ltb (now_ms - st.last_storage_check_ms) storage_check_interval_ms
      then (st, [])
      else check_storage (record st { last_storage_check_ms = now_ms })
