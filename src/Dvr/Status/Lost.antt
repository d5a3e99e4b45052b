-- ===== src/Dvr/Status/Lost.antt =====
-- When src/dvr/dvr.cpp gives the storage up.
use pixel_pilot_rk.Common.{
  ℕ, ◌-◌, ◌≡◌, refl, inl, inr, Bool, true, false, not, ◌&&◌, ◌||◌, Option, none, some, List, [],
  ◌∷◌, ◌++◌, ltb, leb, ◌==◌, if◌then◌else◌, Bool-cases, arith,
}
use pixel_pilot_rk.Dvr.Storage.{
  Mounts, Guard, mount_ok, device_id, space_bytes, free_bytes, has_enough_free,
}
use pixel_pilot_rk.Dvr.Status.{
  Session, Status, Report, no_longer_mounted, was_removed, storage_status, only_if, forgotten,
  report_space, measured, asked, is_same, estimate, check_space, check_device, check_storage,
  update_storage_status, storage_check_interval_ms,
}

abbrev pub is_fatal : Report → Bool
is_fatal no_longer_mounted = true
is_fatal was_removed = true
is_fatal _ = false

pub gives_up : List Report → Bool
gives_up [] = false
gives_up (r ∷ rs) = is_fatal r || gives_up rs

-- A recording's storage is not mounted, has no device, or is on another device than at its start.
abbrev pub is_other : Session → Option ℕ → Bool
is_other a none = true
is_other a (some dev) = not (dev == a.session_dev)

pub is_lost : Mounts → Guard → Session → Bool
is_lost m g a =
    a.file_active && (not (mount_ok m g) || (a.session_dev_known && is_other a (device_id m g)))

removed_none :
    (active known : Bool)
    → gives_up (only_if (active && known) was_removed ++ (storage_status 0 ∷ []))
      ≡ (active && (known && true))
unfolding gives_up
removed_none true true = refl
removed_none true false = refl
removed_none false known = refl

removed_other :
    (active known same : Bool) (st : Status) (rest : Status × List Report)
    → gives_up rest.1 ≡ false
    → gives_up
        (if active && known && not (known && same)
          then (st, was_removed ∷ storage_status 0 ∷ [])
          else rest).1
      ≡ (active && (known && not same))
unfolding gives_up
removed_other true true true st rest h = h
removed_other true true false st rest h = refl
removed_other true false same st rest h = h
removed_other false known same st rest h = h

unmounted :
    (active mounted other : Bool) (st : Status) (rest : Status × List Report)
    → gives_up rest.1 ≡ (active && other)
    → gives_up
        (if not mounted
          then (st, only_if active no_longer_mounted ++ (storage_status 0 ∷ []))
          else rest).1
      ≡ (active && (not mounted || other))
unfolding gives_up
unmounted true true other st rest h = h
unmounted false true other st rest h = h
unmounted true false other st rest h = refl
unmounted false false other st rest h = refl

module _ (m : Mounts) (g : Guard) (a : Session) where
  report_space-fatal : (st : Status) (n : ℕ) → gives_up (report_space m g a st n).1 ≡ false
  unfolding gives_up
  report_space-fatal st n =
      elim (Bool-cases (a.file_active && a.session_free_known && not (has_enough_free g n))) [
        | inl low ↦ rw low refl
        | inr fine ↦ rw fine refl
      ]

  measured-fatal :
      (st : Status) (dev : ℕ) (space : Option (ℕ × ℕ))
      → gives_up (measured m g a st dev space).1 ≡ false
  unfolding gives_up
  measured-fatal st dev none = refl
  measured-fatal st dev (some (n, total)) =
      report_space-fatal
        (record st {
          storage_total_bytes = total;
          storage_status_dev = dev;
          storage_status_dev_known = true;
          storage_total_known = true;
        })
        n

  asked-fatal : (st : Status) (free : Option ℕ) → gives_up (asked m g a st free).1 ≡ false
  unfolding gives_up
  asked-fatal st none = refl
  asked-fatal st (some n) = report_space-fatal st n

  check_space-fatal : (st : Status) (dev : ℕ) → gives_up (check_space m g a st dev).1 ≡ false
  unfolding check_space
  check_space-fatal st dev =
      elim (Bool-cases (
        (not st.storage_status_dev_known || not (dev == st.storage_status_dev))
        || not st.storage_total_known)) [
          | inl fresh ↦ rw fresh (measured-fatal st dev (space_bytes m g))
          | inr known ↦
              elim (Bool-cases (a.file_active && a.session_free_known && is_same m g a dev)) [
                | inl same ↦ rw (known, same) (report_space-fatal st (estimate m g a))
                | inr other ↦ rw (known, other) (asked-fatal st (free_bytes m g))
              ]
        ]

  check_device-fatal :
      (st : Status) (dev : Option ℕ)
      → gives_up (check_device m g a st dev).1
        ≡ (a.file_active && (a.session_dev_known && is_other a dev))
  unfolding check_device gives_up
  check_device-fatal st none = removed_none a.file_active a.session_dev_known
  check_device-fatal st (some dev) =
      removed_other a.file_active a.session_dev_known (dev == a.session_dev) st
        (check_space m g a st dev) (check_space-fatal st dev)

  check_storage-fatal : (st : Status) → gives_up (check_storage m g a st).1 ≡ is_lost m g a
  unfolding check_storage is_lost
  check_storage-fatal st =
      unmounted a.file_active (mount_ok m g) (a.session_dev_known && is_other a (device_id m g))
        (forgotten st) (check_device m g a st (device_id m g))
        (check_device-fatal st (device_id m g))

-- A check calls `fail` as fatal exactly if it is due, or forced, and a recording runs whose storage is not
-- mounted any more, or whose device was known at its start and is now another, or is not to be had.
pub update_storage_status-gives_up :
    (m : Mounts) (g : Guard) (a : Session) (force_update : Bool) (now_ms : ℕ) (st : Status)
    → gives_up (update_storage_status m g a force_update now_ms st).1 ≡ (
        (force_update || leb storage_check_interval_ms (now_ms - st.last_storage_check_ms))
        && is_lost m g a)
unfolding update_storage_status gives_up
update_storage_status-gives_up m g a true now_ms st =
    check_storage-fatal m g a (record st { last_storage_check_ms = now_ms })
update_storage_status-gives_up m g a false now_ms st =
    elim (Bool-cases (ltb (now_ms - st.last_storage_check_ms) storage_check_interval_ms)) [
      | inl early ↦
          let not_due : leb storage_check_interval_ms (now_ms - st.last_storage_check_ms) ≡ false =
            ground arith in
          rw (early, not_due) refl
      | inr late ↦
          let due : leb storage_check_interval_ms (now_ms - st.last_storage_check_ms) ≡ true =
            ground arith in
          rw (late, due) (check_storage-fatal m g a (record st { last_storage_check_ms = now_ms }))
    ]
