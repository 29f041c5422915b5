-- ===== src/Detector/Tests.antt =====
-- The theorem on detector.py at a switch that stops answering.
use aruba_network_agent.Prelude.{◌≡◌, refl, some, List, [], ◌∷◌, ◌==◌, string_Eq, if◌then◌else◌}
use aruba_network_agent.Prelude.Dict.{get}
use aruba_network_agent.Prelude.Text.{codes, same_text, starts_with, strip, is_infix, lower}
use aruba_network_agent.Detector.{
  aruba_cx, Probe, vendor_for_oid, by_prefix, by_keyword, classify, first_profile,
  detect_with_profile, DetectorCall, detected, invalidated, detector_run,
}
use aruba_network_agent.Detector.Cached.{cached_until_invalidated}

abbrev cx : Probe
cx profile = if profile == "core" then (codes ".1.3.6.1.4.1.47196.4.1", []) else ([], [])

abbrev silent : Probe
silent profile = ([], [])

abbrev calls : List DetectorCall
calls = detected silent ("core" ∷ []) "10.0.0.2" ∷ invalidated "10.0.0.2" ∷ []

cx-first_profile : first_profile cx ("default" ∷ "core" ∷ []) ≡ some (aruba_cx, "core")
unfolding first_profile classify vendor_for_oid by_prefix by_keyword same_text starts_with strip
    is_infix lower
cx-first_profile = refl

cached_until_invalidated_example :
    let first = detect_with_profile cx ("default" ∷ "core" ∷ []) "10.0.0.1" [] in
    (first.1 ≡ some (aruba_cx, "core"))
    × ((detect_with_profile silent ("core" ∷ []) "10.0.0.1" (detector_run calls first.0)).1
        ≡ some (aruba_cx, "core"))
cached_until_invalidated_example =
    cached_until_invalidated cx silent ("default" ∷ "core" ∷ []) ("core" ∷ []) "10.0.0.1" calls []
      (aruba_cx, "core") (refl, tt) (unfold get in refl) cx-first_profile
