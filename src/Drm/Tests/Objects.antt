-- ===== src/Drm/Tests/Objects.antt =====
-- The theorems on objects, CRTCs, planes and set-up (src/drm.c) at concrete inputs.
use pixel_pilot_rk.Common.{◌≡◌, refl, pos, some, List, [], ◌∷◌}
use pixel_pilot_rk.Drm.Kernel.{acquire, release, property}
use pixel_pilot_rk.Drm.Kernel.Monad.{Returns}
use pixel_pilot_rk.Drm.Properties.{get_property_value}
use pixel_pilot_rk.Drm.State.{zeroed}
use pixel_pilot_rk.Drm.Crtc.{find_crtc}
use pixel_pilot_rk.Drm.Crtc.Found.{FoundCrtc, find_crtc-FoundCrtc}
use pixel_pilot_rk.Drm.Planes.{is_usable}
use pixel_pilot_rk.Drm.Planes.First.{HasPlanes}
use pixel_pilot_rk.Drm.Output.Shared.{GoesOnWith, create_planes-shared}
use pixel_pilot_rk.Drm.Output.{create_planes, create_objects, setup_objects, setup_framebuffers}
use pixel_pilot_rk.Drm.Output.Objects.{SetupObjects, setup_objects-SetupObjects}
use pixel_pilot_rk.Drm.Output.Framebuffers.{SetupFramebuffers, setup_framebuffers-Setup}
use pixel_pilot_rk.Drm.Tests.{sample_kernel, sample_planes, sample_output, sample_modes}
use pixel_pilot_rk.Drm.Kernel.{Resources, Connector, PropValue}

abbrev two_crtcs : Resources
two_crtcs = record { crtcs = 41 ∷ 42 ∷ []; connectors = 61 ∷ [] }

abbrev panel : Connector
panel = record {
  connector_id = 60;
  encoder_id = 71;
  connector_type = 11;
  connection = 1;
  encoders = 71 ∷ [];
  modes = sample_modes;
}

abbrev one_property : List PropValue
one_property = record { prop_id = 16; value = 2 } ∷ []

zpos_run :
    get_property_value sample_kernel (some one_property) "zpos" []
    ≡ some (pos 2, release (property 16) ∷ acquire (property 16) ∷ [])
unfolding get_property_value
zpos_run = refl

find_crtc-FoundCrtc_example :
    Returns
      (find_crtc sample_kernel two_crtcs panel (zeroed 60) [])
      (FoundCrtc sample_kernel two_crtcs panel (zeroed 60) [])
find_crtc-FoundCrtc_example = find_crtc-FoundCrtc sample_kernel two_crtcs panel (zeroed 60) []

sample_kernel-HasPlanes : HasPlanes sample_kernel (31 ∷ 32 ∷ []) sample_planes
sample_kernel-HasPlanes = record { listed = λ w. refl; steady = λ w id. refl }

create_planes-shared_example : GoesOnWith (create_planes sample_kernel sample_output []) [] (
    create_objects sample_kernel (record sample_output {
      video_plane = record sample_output.video_plane { id = 31 };
      osd_plane = record sample_output.osd_plane { id = 31 };
    }))
unfolding is_usable
create_planes-shared_example =
    create_planes-shared sample_kernel sample_output (31 ∷ 32 ∷ []) sample_planes 0 31
      sample_kernel-HasPlanes refl [] (_, refl, refl) (_, refl, refl) (λ i n g lt. elim lt [ ])

setup_objects-SetupObjects_example :
    Returns (setup_objects sample_kernel (zeroed 60) []) (SetupObjects [])
setup_objects-SetupObjects_example = setup_objects-SetupObjects sample_kernel (zeroed 60) []

setup_framebuffers-Setup_example :
    Returns (setup_framebuffers sample_kernel sample_output []) (SetupFramebuffers sample_output [])
setup_framebuffers-Setup_example = setup_framebuffers-Setup sample_kernel sample_output []
