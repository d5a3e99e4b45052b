-- ===== src/Drm/Tests/Session.antt =====
-- Opening, restoring and listing (src/drm.c): runs, and the theorems at concrete inputs.
use pixel_pilot_rk.Common.{◌≡◌, ◌≢◌, refl, negsuc, Option, none, some, [], ◌∷◌, arith, All, subst}
use pixel_pilot_rk.Drm.Modes.{Request}
use pixel_pilot_rk.Drm.Kernel.{Connector}
use pixel_pilot_rk.Drm.Kernel.Monad.{Returns}
use pixel_pilot_rk.Drm.Open.{modeset_open}
use pixel_pilot_rk.Drm.Open.Opened.{Opened, modeset_open-Opened}
use pixel_pilot_rk.Drm.Restore.{restore_planes_zpos}
use pixel_pilot_rk.Drm.Restore.Restored.{Restored, Restorable, restore_planes_zpos-Restored}
use pixel_pilot_rk.Drm.Listing.{line, print_loop}
use pixel_pilot_rk.Drm.Listing.Distinct.{HasRates}
use pixel_pilot_rk.Drm.Tests.{
  sample_kernel, sample_kernel-Describes, sample_object-IsRead, sample_output, mode,
}

abbrev unset : Request
unset = record { width = 0; height = 0; refresh = 0 }

-- A mode that only differs in its flags from the one before it is not printed again.
print_run :
    print_loop unset (mode 1920 1080 60 0 0 ∷ mode 1920 1080 60 16 0 ∷ mode 1280 720 60 0 0 ∷ [])
    ≡ (line (mode 1920 1080 60 0 0) ∷ line (mode 1280 720 60 0 0) ∷ [], line (mode 1280 720 60 0 0))
unfolding print_loop
print_run = refl

modeset_open-Opened_example :
    Returns
      (modeset_open sample_kernel (negsuc 0) "/dev/dri/card0" [])
      (Opened sample_kernel (negsuc 0) [])
modeset_open-Opened_example = modeset_open-Opened sample_kernel (negsuc 0) "/dev/dri/card0" []

sample-Restorable : Restorable sample_kernel sample_output
sample-Restorable = record {
  describes = sample_kernel-Describes;
  connector = sample_object-IsRead 60;
  crtc = sample_object-IsRead 41;
  osd_plane = sample_object-IsRead 32;
  video_plane = sample_object-IsRead 31;
  wb_connector = λ _. sample_object-IsRead 61;
}

restore_planes_zpos-Restored_example :
    Returns
      (restore_planes_zpos sample_kernel (λ x. x) sample_output [])
      (Restored sample_kernel (λ x. x) sample_output [])
restore_planes_zpos-Restored_example =
    restore_planes_zpos-Restored sample_kernel (λ x. x) sample_output [] sample-Restorable

abbrev Rated : Option Connector → Type 0
Rated none = Unit
Rated (some conn) = All (λ m. m.vrefresh ≢ 0) conn.modes

sample_kernel-HasRates : HasRates sample_kernel
sample_kernel-HasRates = record {
  rates = λ w c conn e. subst Rated e (
    (λ z. omega arith),
    ((λ z. omega arith), ((λ z. omega arith), ((λ z. omega arith), ((λ z. omega arith), tt)))),
  );
}
