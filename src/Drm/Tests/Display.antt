-- ===== src/Drm/Tests/Display.antt =====
-- The theorems on commits and on the writeback connector (src/drm.c) at concrete inputs.
use pixel_pilot_rk.Common.{◌≡◌, refl, pos, true, false, [], arith}
use pixel_pilot_rk.Drm.Kernel.Monad.{Returns}
use pixel_pilot_rk.Drm.Properties.{find_prop, get_property_value, set_drm_object_property}
use pixel_pilot_rk.Drm.Fit.{fit}
use pixel_pilot_rk.Drm.Fit.Inside.{Inside, fit-Inside}
use pixel_pilot_rk.Drm.Commit.{
  PlaneRequest, set_all, atomic_commit, settings, prepare_commit, perform_modeset,
}
use pixel_pilot_rk.Drm.Commit.Prepared.{Readable}
use pixel_pilot_rk.Drm.Commit.Performed.{Performs, perform_modeset-Performs}
use pixel_pilot_rk.Drm.Writeback.{attach_writeback}
use pixel_pilot_rk.Drm.Writeback.Attached.{Ready, AttachOutcome, attach_writeback-AttachOutcome}
use pixel_pilot_rk.Drm.Writeback.{check_writeback}
use pixel_pilot_rk.Drm.Writeback.Checked.{Checked, check_writeback-Checked}
use pixel_pilot_rk.Drm.Writeback.Wired.{attaching, IsWired, begun, Reached-IsWired}
use pixel_pilot_rk.Drm.Tests.{
  sample_kernel, sample_kernel-Describes, sample_object, sample_object-IsRead, sample_output,
  exact-IsRounding,
}

-- A 4:3 picture on a 16:9 display is as high as the display, between two bars of 240 pixels.
fit_runs :
    (fit (λ x. x) 1920 1080 640 480 false ≡ record { x = 240; y = 0; w = 1440; h = 1080 })
    × (fit (λ x. x) 1920 1080 1920 800 false ≡ record { x = 0; y = 140; w = 1920; h = 800 })
    × (fit (λ x. x) 1920 1080 640 480 true ≡ record { x = 0; y = 0; w = 1920; h = 1080 })
unfolding fit
fit_runs = (refl, refl, refl)

fit-Inside_example : Inside 1920 1080 (fit (λ x. x) 1920 1080 640 480 false)
fit-Inside_example =
    fit-Inside (λ x. x) 1920 1080 640 480 exact-IsRounding (omega arith) (omega arith) (omega arith)
      (omega arith) (omega arith) (omega arith)

abbrev osd_modeset : PlaneRequest
osd_modeset = record {
  plane = sample_object 32;
  fb_id = pos 21;
  width = 1920;
  height = 1080;
  zpos = pos 2;
  stretch = false;
}

sample-Readable : Readable sample_output osd_modeset
sample-Readable = record {
  connector = sample_object-IsRead 60;
  crtc = sample_object-IsRead 41;
  plane = sample_object-IsRead 32;
  writeback = λ _. sample_object-IsRead 61;
}

sample-Ready : Ready sample_output
sample-Ready = record {
  connector = sample_object-IsRead 60;
  crtc = sample_object-IsRead 41;
  osd_plane = sample_object-IsRead 32;
  wb_connector = sample_object-IsRead 61;
}

perform_modeset-Performs_example :
    Returns
      (perform_modeset sample_kernel (λ x. x) sample_output osd_modeset [] [])
      (Performs (settings (λ x. x) sample_output osd_modeset) [] [])
perform_modeset-Performs_example =
    perform_modeset-Performs sample_kernel (λ x. x) sample_output osd_modeset [] [] sample-Readable

attach_writeback-AttachOutcome_example :
    Returns
      (attach_writeback sample_kernel (λ x. x) sample_output false [])
      (AttachOutcome (λ x. x) sample_output false [])
attach_writeback-AttachOutcome_example =
    attach_writeback-AttachOutcome sample_kernel (λ x. x) sample_output false []
      sample_kernel-Describes sample-Ready

check_writeback-Checked_example :
    Returns
      (check_writeback sample_kernel (record sample_output { wb_enabled = true }) 21 65536 [])
      (Checked (record sample_output { wb_enabled = true }) 21 65536 [])
check_writeback-Checked_example =
    check_writeback-Checked sample_kernel (record sample_output { wb_enabled = true }) 21 65536 []
      (sample_object-IsRead 32) (sample_object-IsRead 61)

sample-IsWired : IsWired sample_output
sample-IsWired = record { available = λ e. refl; known = λ e. (sample_object-IsRead 61).0 }

-- An attachment that the kernel accepts.
Reached-IsWired_example : IsWired (record sample_output { wb_enabled = true })
unfolding attach_writeback find_prop perform_modeset prepare_commit set_all settings
    set_drm_object_property get_property_value fit atomic_commit
Reached-IsWired_example =
    Reached-IsWired sample_kernel (λ x. x) sample_output
      (record sample_output { wb_enabled = true }) _ sample_kernel-Describes sample-IsWired
      (attaching false (pos 0) _ _ (begun []) refl)
