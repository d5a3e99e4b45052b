-- ===== src/Dvr/Storage.antt =====
-- The storage of the recordings: `StorageGuard` (src/dvr/storage_guard.cpp). `stat`, `statvfs` and
-- `statfs` of the C library are the parameter `Mounts`, and have no result where they fail.
pub mod Ready
use pixel_pilot_rk.Common.{
  ℕ, ◌+◌, ◌-◌, ◌*◌, ◌/◌, ◌%◌, ◌^◌, Bool, true, false, not, ◌&&◌, ◌||◌, Option, none, some, List, [],
  ◌∷◌, String, ltb, leb, ◌==◌, if◌then◌else◌,
}

-- `struct statvfs`
pub record Vfs : Type 0 where
  pub f_frsize : ℕ
  pub f_bavail : ℕ
  pub f_blocks : ℕ

pub record Mounts : Type 0 where
  -- `st_dev`
  pub stat : String → Option ℕ
  pub statvfs : String → Option Vfs
  -- `f_type`
  pub statfs : String → Option ℕ

-- `StorageGuard`
pub record Guard : Type 0 where
  pub recording_dir : String
  pub min_free_bytes : ℕ
  pub require_mount : Bool

-- FAT32_FILE_SIZE_CAP, MSDOS_SUPER_MAGIC
abbrev pub fat32_file_size_cap : ℕ
fat32_file_size_cap = 4 * 2 ^ 30 - 128 * 2 ^ 20

abbrev pub msdos_super_magic : ℕ
msdos_super_magic = 0x4d44

-- The texts of `reason`, by what they say; the last has the MiB that are free and those that are needed.
pub data Reason : Type 0 where
  does_not_exist not_mounted cannot_read_free_space : Reason
  low_free_space : ℕ → ℕ → Reason

-- The products of two `uint64_t`.
abbrev pub bytes_of : Option Vfs → Option ℕ
bytes_of none = none
bytes_of (some vfs) = some (vfs.f_frsize * vfs.f_bavail % 2 ^ 64)

abbrev pub space_of : Option Vfs → Option (ℕ × ℕ)
space_of none = none
space_of (some vfs) =
    some (vfs.f_frsize * vfs.f_bavail % 2 ^ 64, vfs.f_frsize * vfs.f_blocks % 2 ^ 64)

abbrev pub differ : Option ℕ → Option ℕ → Bool
differ (some dir) (some root) = not (dir == root)
differ _ _ = false

abbrev pub cap_of : Option ℕ → ℕ
cap_of none = fat32_file_size_cap
cap_of (some f_type) = if f_type % 2 ^ 32 == msdos_super_magic then fat32_file_size_cap else 0

module _ (m : Mounts) (g : Guard) where
  unfoldable pub free_bytes : Option ℕ
  free_bytes = bytes_of (m.statvfs g.recording_dir)

  pub space_bytes : Option (ℕ × ℕ)
  space_bytes = space_of (m.statvfs g.recording_dir)

  unfoldable pub device_id : Option ℕ
  device_id = m.stat g.recording_dir

  unfoldable pub is_external_mount : Bool
  is_external_mount = differ (m.stat g.recording_dir) (m.stat "/")

  pub file_size_cap : ℕ
  file_size_cap = cap_of (m.statfs g.recording_dir)

  unfoldable pub mount_ok : Bool
  unfolding is_external_mount
  mount_ok = not g.require_mount || is_external_mount

  abbrev pub enough_or : Option ℕ → Option Reason
  enough_or none = some cannot_read_free_space
  enough_or (some available) =
      if ltb available g.min_free_bytes
      then some (low_free_space (available / (1024 * 1024)) (g.min_free_bytes / (1024 * 1024)))
      else none

  abbrev pub mounted_or : Option ℕ → Option Reason
  mounted_or none = some does_not_exist
  mounted_or (some dev) =
      if g.require_mount && not is_external_mount then some not_mounted else enough_or free_bytes

  -- No reason is `true`.
  unfoldable pub is_ready : Option Reason
  unfolding is_external_mount free_bytes
  is_ready = mounted_or (m.stat g.recording_dir)

unfoldable pub has_enough_free : Guard → ℕ → Bool
has_enough_free g free_bytes_estimate = leb g.min_free_bytes free_bytes_estimate
