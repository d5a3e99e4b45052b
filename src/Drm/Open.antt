-- ===== src/Drm/Open.antt =====
-- Opening the device: `modeset_open` (src/drm.c).
pub mod Opened
use pixel_pilot_rk.Common.{ℕ, ℤ, pos, negsuc, String, if◌then◌else◌, ◌==◌}
use pixel_pilot_rk.Drm.Kernel.{Kernel, Reply, ok, fail, file}
use pixel_pilot_rk.Drm.Kernel.Monad.{M, pure, ◌>>=◌, ◌>>◌, give_back, ask, ask_for}

-- -EOPNOTSUPP
abbrev pub eopnotsupp : ℤ
eopnotsupp = negsuc 94

-- DRM_CLIENT_CAP_UNIVERSAL_PLANES, DRM_CLIENT_CAP_ATOMIC, DRM_CLIENT_CAP_WRITEBACK_CONNECTORS
abbrev pub cap_universal_planes : ℕ
cap_universal_planes = 2

abbrev pub cap_atomic : ℕ
cap_atomic = 3

abbrev pub cap_writeback_connectors : ℕ
cap_writeback_connectors = 5

-- DRM_CAP_DUMB_BUFFER and DRM_CAP_CRTC_IN_VBLANK_EVENT
abbrev pub cap_dumb_buffer : ℕ
cap_dumb_buffer = 1

abbrev pub cap_crtc_in_vblank_event : ℕ
cap_crtc_in_vblank_event = 18

-- The result code and `*out`, of which `out` is the value before the call.
module _ (k : Kernel) (out : ℤ) where
  pub refuse : ℕ → M (ℤ × ℤ)
  refuse fd = do give_back (file fd); pure (eopnotsupp, out)

  pub check_vblank : ℕ → M (ℤ × ℤ)
  unfolding refuse
  check_vblank fd = do
    r ← ask (λ w. k.get_cap w cap_crtc_in_vblank_event)
    elim r [ ok cap ↦ if cap == 0 then refuse fd else pure (pos 0, pos fd) | fail e ↦ refuse fd ]

  pub check_dumb : ℕ → M (ℤ × ℤ)
  unfolding check_vblank refuse
  check_dumb fd = do
    r ← ask (λ w. k.get_cap w cap_dumb_buffer)
    elim r [ ok cap ↦ if cap == 0 then refuse fd else check_vblank fd | fail e ↦ refuse fd ]

  -- A failure of the writeback capability is not fatal.
  pub set_writeback : ℕ → M (ℤ × ℤ)
  unfolding check_dumb
  set_writeback fd = do _ ← ask (λ w. k.set_client_cap w cap_writeback_connectors); check_dumb fd

  pub set_atomic : ℕ → M (ℤ × ℤ)
  unfolding set_writeback
  set_atomic fd = do
    r ← ask (λ w. k.set_client_cap w cap_atomic)
    elim r [ ok _ ↦ set_writeback fd | fail e ↦ pure (negsuc e, out) ]

  pub set_planes : ℕ → M (ℤ × ℤ)
  unfolding set_atomic
  set_planes fd = do
    r ← ask (λ w. k.set_client_cap w cap_universal_planes)
    elim r [ ok _ ↦ set_atomic fd | fail e ↦ pure (negsuc e, out) ]

  pub modeset_open : String → M (ℤ × ℤ)
  unfolding set_planes
  modeset_open node = do
    r ← ask_for (λ w. k.open_node w node) file
    elim r [ ok fd ↦ set_planes fd | fail e ↦ pure (negsuc e, out) ]
