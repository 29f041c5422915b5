-- ===== src/Detector.antt =====
-- The vendor of a device, aruba_agent/drivers/detector.py. What a device answers under a profile is an
-- argument; a text is its code points, and one that is missing is empty. The proof is below.
pub mod Cached
pub mod Tests
use aruba_network_agent.Prelude.{
  ℕ, String, Bool, true, false, ◌||◌, Option, none, some, List, [], ◌∷◌, ◌++◌, ◌==◌, string_Eq,
  nat_eq, if◌then◌else◌,
}
use aruba_network_agent.Prelude.Dict.{Dict, get, put, remove}
use aruba_network_agent.Prelude.Text.{text_Eq, codes, starts_with, is_infix, strip, lower}

pub data Vendor : Type 0 where
  aruba_cx aruba_os aruba_aos8 cisco_ios arista_eos : Vendor

-- `_PREFIX_TO_VENDOR`, the longest first
abbrev pub prefix_to_vendor : List (List ℕ × Vendor)
prefix_to_vendor =
    (codes "1.3.6.1.4.1.47196", aruba_cx)
    ∷ (codes "1.3.6.1.4.1.14823", aruba_os)
    ∷ (codes "1.3.6.1.4.1.30065", arista_eos)
    ∷ (codes "1.3.6.1.4.1.11", aruba_os)
    ∷ (codes "1.3.6.1.4.1.9", cisco_ios)
    ∷ []

-- `_DESCR_KEYWORDS`
abbrev pub descr_keywords : List (List ℕ × Vendor)
descr_keywords =
    (codes "ArubaOS-CX", aruba_cx)
    ∷ (codes "Aruba JL", aruba_cx)
    ∷ (codes "ProCurve", aruba_os)
    ∷ (codes "HP J", aruba_os)
    ∷ (codes "Wireless Operating System", aruba_aos8)
    ∷ (codes "ArubaMM", aruba_aos8)
    ∷ (codes "Aruba9240", aruba_aos8)
    ∷ (codes "Aruba9004", aruba_aos8)
    ∷ (codes "Mobility Controller", aruba_aos8)
    ∷ (codes "Mobility Conductor", aruba_aos8)
    ∷ (codes "Aruba", aruba_os)
    ∷ (codes "Cisco IOS", cisco_ios)
    ∷ (codes "Cisco Internetwork", cisco_ios)
    ∷ (codes "Cisco Nexus", cisco_ios)
    ∷ (codes "Arista Networks", arista_eos)
    ∷ (codes "EOS-", arista_eos)
    ∷ []

-- `s.lstrip(".")`
abbrev pub without_dots : List ℕ → List ℕ
without_dots [] = []
without_dots (c ∷ s) = let rest = without_dots s in if nat_eq c b'.' then rest else c ∷ s

-- The loop over the prefixes
unfoldable pub by_prefix : List ℕ → List (List ℕ × Vendor) → Option Vendor
unfolding starts_with
by_prefix oid [] = none
by_prefix oid (e ∷ table) =
    if oid == e.0 || starts_with (e.0 ++ codes ".") oid then some e.1 else by_prefix oid table

-- `vendor_for_oid`; an empty text matches no prefix.
unfoldable pub vendor_for_oid : List ℕ → Option Vendor
unfolding by_prefix strip
vendor_for_oid sys_object_id = by_prefix (without_dots (strip sys_object_id)) prefix_to_vendor

-- The loop over the keywords
unfoldable pub by_keyword : List ℕ → List (List ℕ × Vendor) → Option Vendor
unfolding is_infix lower
by_keyword descr [] = none
by_keyword descr (e ∷ table) =
    if is_infix (lower e.0) (lower descr) then some e.1 else by_keyword descr table

-- What a device answers under a profile: its object id and its description.
abbrev pub Probe : Type 0
Probe = String → List ℕ × List ℕ

-- The body of the loop over the profiles
unfoldable pub classify : Probe → String → Option Vendor
unfolding vendor_for_oid by_keyword
classify probe profile = elim (vendor_for_oid (probe profile).0) [
  | some vendor ↦ some vendor
  | none ↦ by_keyword (probe profile).1 descr_keywords
]

-- The loop over the profiles, in the order of the registry
unfoldable pub first_profile : Probe → List String → Option (Vendor × String)
unfolding classify
first_profile probe [] = none
first_profile probe (profile ∷ profiles) = elim (classify probe profile) [
  | some vendor ↦ some (vendor, profile)
  | none ↦ first_profile probe profiles
]

abbrev pub Cache : Type 0
Cache = Dict String (Vendor × String)

unfoldable pub detect_with_profile :
    Probe → List String → String → Cache → Cache × Option (Vendor × String)
unfolding first_profile
detect_with_profile probe profiles host cache = elim (get host cache) [
  | some cached ↦ (cache, some cached)
  | none ↦ elim (first_profile probe profiles) [
    | none ↦ (cache, none)
    | some found ↦ (put host found cache, some found)
  ]
]

unfoldable pub detect : Probe → List String → String → Cache → Cache × Option Vendor
unfolding detect_with_profile
detect probe profiles host cache =
    let r = detect_with_profile probe profiles host cache in
    elim r.1 [ none ↦ (r.0, none) | some found ↦ (r.0, some found.0) ]

unfoldable pub invalidate : String → Cache → Cache
invalidate host cache = remove host cache

-- The calls of the pollers and of the drivers' factory.
pub data DetectorCall : Type 0 where
  detected : Probe → List String → String → DetectorCall
  invalidated : String → DetectorCall

unfoldable pub detector_step : DetectorCall → Cache → Cache
unfolding detect_with_profile invalidate
detector_step (detected probe profiles host) cache =
    (detect_with_profile probe profiles host cache).0
detector_step (invalidated host) cache = invalidate host cache

unfoldable pub detector_run : List DetectorCall → Cache → Cache
unfolding detector_step
detector_run [] cache = cache
detector_run (c ∷ cs) cache = detector_run cs (detector_step c cache)
