-- ===== src/Detector/Cached.antt =====
-- The cache of detector.py.
use aruba_network_agent.Prelude.{
  String, ◌≡◌, false, none, some, List, [], ◌∷◌, ◌==◌, ==_iff, ==_self, string_Eq, arith,
  Option-cases, inl, inr,
}
use aruba_network_agent.Prelude.Dict.{get, get-put, get-remove}
use aruba_network_agent.Detector.{
  Vendor, Probe, first_profile, Cache, detect_with_profile, invalidate, DetectorCall, detected,
  invalidated, detector_step, detector_run,
}

-- No call drops the host.
abbrev pub IsKept : String → List DetectorCall → Type 0
IsKept host [] = Unit
IsKept host (detected probe profiles other ∷ cs) = IsKept host cs
IsKept host (invalidated other ∷ cs) = ((other == host) ≡ false) × IsKept host cs

detected-get :
    (probe : Probe) (profiles : List String) (other host : String) (cache : Cache)
    (r : Vendor × String)
    → get host cache ≡ some r
    → get host (detect_with_profile probe profiles other cache).0 ≡ some r
unfolding detect_with_profile
detected-get probe profiles other host cache r h = elim (Option-cases (get other cache)) [
  | inr (c, e) ↦ ground arith
  | inl e ↦ elim (Option-cases (first_profile probe profiles)) [
    | inl f ↦ ground arith
    | inr (found, f) ↦ ground (arith, get-put other host found cache, ==_iff other host)
  ]
]

detector_run-get :
    (cs : List DetectorCall) (host : String) (cache : Cache) (r : Vendor × String)
    → IsKept host cs
    → get host cache ≡ some r
    → get host (detector_run cs cache) ≡ some r
unfolding detector_run detector_step
detector_run-get [] host cache r k h = h
detector_run-get (detected probe profiles other ∷ cs) host cache r k h =
    detector_run-get cs host (detect_with_profile probe profiles other cache).0 r k
      (detected-get probe profiles other host cache r h)
detector_run-get (invalidated other ∷ cs) host cache r k h =
    detector_run-get cs host (invalidate other cache) r k.1 (
      unfold invalidate in
      let there = get-remove other host cache in let apart = k.0 in ground arith)

detect-get :
    (probe : Probe) (profiles : List String) (host : String) (cache : Cache) (r : Vendor × String)
    → (detect_with_profile probe profiles host cache).1 ≡ some r
    → get host (detect_with_profile probe profiles host cache).0 ≡ some r
unfolding detect_with_profile
detect-get probe profiles host cache r h = elim (Option-cases (get host cache)) [
  | inr (c, e) ↦ ground arith
  | inl e ↦ elim (Option-cases (first_profile probe profiles)) [
    | inl f ↦ ground arith
    | inr (found, f) ↦ ground (arith, get-put host host found cache, ==_self host)
  ]
]

again :
    (probe : Probe) (profiles : List String) (host : String) (cache : Cache) (r : Vendor × String)
    → get host cache ≡ some r
    → (detect_with_profile probe profiles host cache).1 ≡ some r
unfolding detect_with_profile
again probe profiles host cache r h = ground arith

-- A host that is not in the cache gets the vendor of the first profile whose answers classify it, where
-- there is one, and then every later detection gives the same vendor and profile, whatever the device
-- answers by then and whatever other hosts are detected or dropped, as long as the host itself is not
-- dropped.
pub cached_until_invalidated :
    (probe later : Probe) (profiles others : List String) (host : String) (cs : List DetectorCall)
    (cache : Cache) (r : Vendor × String)
    → IsKept host cs
    → get host cache ≡ none
    → first_profile probe profiles ≡ some r
    → let first = detect_with_profile probe profiles host cache in
      (first.1 ≡ some r)
      × ((detect_with_profile later others host (detector_run cs first.0)).1 ≡ some r)
cached_until_invalidated probe later profiles others host cs cache r kept fresh found =
    let first : (detect_with_profile probe profiles host cache).1 ≡ some r =
      unfold detect_with_profile in ground arith in
    let cached = detect-get probe profiles host cache r first in
    (
      first,
      again later others host (detector_run cs (detect_with_profile probe profiles host cache).0) r
          (detector_run-get cs host (detect_with_profile probe profiles host cache).0 r kept
            cached),
    )
