-- ===== src/Thresholds/Engine.antt =====
-- `ThresholdEvaluator` of thresholds.py. The numbers are Python floats, a parameter: a type with the
-- comparisons that the rules make.
use aruba_network_agent.Prelude.{
  ℕ, ◌+◌, String, Bool, true, false, not, ◌&&◌, ◌||◌, Option, none, some, List, [], ◌∷◌, ◌++◌, ◌==◌,
  string_Eq, pair_Eq, leb, if◌then◌else◌,
}
use aruba_network_agent.Prelude.Dict.{Dict, get, put, remove}

-- The comparisons of floats.
pub record Comparison (V : Type 0) : Type 0 where
  pub less : V → V → Bool
  pub less_eq : V → V → Bool

-- The keys of `_OPS`, and any other text.
pub data Operator : Type 0 where
  above at_least below at_most unknown : Operator

-- A rule; `value` and `duration` are `none` where `float` or `int` raises, and the scopes are the
-- lists that `_csv` makes of them.
pub record Rule (V : Type 0) : Type 0 where
  pub name : String
  pub enabled : Bool
  pub metric : String
  pub operator : Operator
  pub value : Option V
  pub duration : Option ℕ
  pub included : List String
  pub excluded : List String
  pub severity : String

-- A sample; `value` is `none` where it is missing or `float` raises.
pub record Sample (V : Type 0) : Type 0 where
  pub device : String
  pub host : String
  pub metric : String
  pub instance_name : String
  pub value : Option V

-- (rule, device, instance)
abbrev pub Key : Type 0
Key = String × (String × String)

pub record Breach (V : Type 0) : Type 0 where
  pub since : ℕ
  pub alerted : Bool
  pub value : V
  pub severity : String

pub data EventType : Type 0 where
  fire clear : EventType

-- An event, less the texts that repeat the rule.
pub record AlertEvent (V : Type 0) : Type 0 where
  pub type : EventType
  pub rule : String
  pub metric : String
  pub device : String
  pub host : String
  pub instance_name : String
  pub value : V
  pub severity : String
  pub time : ℕ

abbrev pub is_fire : EventType → Bool
is_fire fire = true
is_fire clear = false

-- `_host_in`, over the test of `ipaddress` that a host is in a network, false on a `ValueError`
unfoldable pub host_in : (String → String → Bool) → String → String → List String → Bool
host_in in_network name host [] = false
host_in in_network name host (p ∷ ps) =
    (p == name || p == host || in_network host p) || host_in in_network name host ps

abbrev pub is_unknown : Operator → Bool
is_unknown unknown = true
is_unknown _ = false

abbrev pub is_empty {ℓ} : {A : Type ℓ} → List A → Bool
is_empty [] = true
is_empty (x ∷ xs) = false

-- `match_scope`
unfoldable pub match_scope :
    (String → String → Bool) → String → String → List String → List String → Bool
unfolding host_in
match_scope in_network name host included excluded =
    if not (is_empty excluded) && host_in in_network name host excluded
    then false
    else is_empty included || host_in in_network name host included

abbrev pub Breaches : Type 0 → Type 0
Breaches V = Dict Key (Breach V)

module _ {V : Type 0} ⦃order : Comparison V⦄ where
  -- `_OPS`
  unfoldable pub holds : Operator → V → V → Bool
  holds above a b = order.less b a
  holds at_least a b = order.less_eq b a
  holds below a b = order.less a b
  holds at_most a b = order.less_eq a b
  holds unknown a b = false

  -- `_event`
  abbrev pub event_of : EventType → Rule V → Sample V → V → ℕ → AlertEvent V
  event_of type r s v now = record {
    type = type;
    rule = r.name;
    metric = r.metric;
    device = s.device;
    host = s.host;
    instance_name = s.instance_name;
    value = v;
    severity = r.severity;
    time = now;
  }

  abbrev pub key_of : Rule V → Sample V → Key
  key_of r s = (r.name, (s.device, s.instance_name))

  -- The breach of a key with the new value, a new one where there is none.
  abbrev pub noted : ℕ → Rule V → V → Option (Breach V) → Breach V
  noted now r v none = record { since = now; alerted = false; value = v; severity = r.severity }
  noted now r v (some b) = record b { value = v }

  abbrev pub was_alerted : Option (Breach V) → Bool
  was_alerted none = false
  was_alerted (some b) = b.alerted

  -- A sample over or under its threshold.
  unfoldable pub judge_sample :
      ℕ → Rule V → ℕ → Sample V → V → Bool → Breaches V → Breaches V × List (AlertEvent V)
  judge_sample now r dur s v true d =
      let k = key_of r s in
      let b = noted now r v (get k d) in
      if not b.alerted && leb (b.since + dur) now
      then (put k (record b { alerted = true }) d, event_of fire r s v now ∷ [])
      else (put k b d, [])
  judge_sample now r dur s v false d =
      let k = key_of r s in
      (remove k d, if was_alerted (get k d) then event_of clear r s v now ∷ [] else [])

  -- The body of the inner loop.
  unfoldable pub visit :
      (String → String → Bool)
      → ℕ
      → Rule V
      → V
      → ℕ
      → Sample V
      → Breaches V
      → Breaches V × List (AlertEvent V)
  unfolding judge_sample holds match_scope
  visit in_network now r limit dur s d =
      if match_scope in_network s.device s.host r.included r.excluded
      then elim s.value [
        | none ↦ (d, [])
        | some v ↦ judge_sample now r dur s v (holds r.operator v limit) d
      ]
      else (d, [])

  unfoldable pub visit_each :
      (String → String → Bool)
      → ℕ
      → Rule V
      → V
      → ℕ
      → List (Sample V)
      → Breaches V
      → Breaches V × List (AlertEvent V)
  unfolding visit
  visit_each in_network now r limit dur [] d = (d, [])
  visit_each in_network now r limit dur (s ∷ rest) d =
      let one = visit in_network now r limit dur s d in
      let more = visit_each in_network now r limit dur rest one.0 in (more.0, one.1 ++ more.1)

  -- The samples by their metric: `by_metric.setdefault(s.get("metric"), []).append(s)`
  abbrev pub or_no_samples : Option (List (Sample V)) → List (Sample V)
  or_no_samples none = []
  or_no_samples (some ss) = ss

  unfoldable pub group :
      List (Sample V) → Dict String (List (Sample V)) → Dict String (List (Sample V))
  group [] d = d
  group (s ∷ rest) d = group rest (put s.metric (or_no_samples (get s.metric d) ++ s ∷ []) d)

  -- A rule that is turned off, has no known operator, or has no number is passed over.
  unfoldable pub eval_rule :
      (String → String → Bool)
      → ℕ
      → Dict String (List (Sample V))
      → Rule V
      → Breaches V
      → Breaches V × List (AlertEvent V)
  unfolding visit_each
  eval_rule in_network now by_metric r d =
      if not r.enabled || is_unknown r.operator then (d, []) else elim r.value [
        | none ↦ (d, [])
        | some limit ↦ elim r.duration [
          | none ↦ (d, [])
          | some dur ↦
              visit_each in_network now r limit dur (or_no_samples (get r.metric by_metric)) d
        ]
      ]

  unfoldable pub eval_rules :
      (String → String → Bool)
      → ℕ
      → Dict String (List (Sample V))
      → List (Rule V)
      → Breaches V
      → Breaches V × List (AlertEvent V)
  unfolding eval_rule
  eval_rules in_network now by_metric [] d = (d, [])
  eval_rules in_network now by_metric (r ∷ rest) d =
      let one = eval_rule in_network now by_metric r d in
      let more = eval_rules in_network now by_metric rest one.0 in (more.0, one.1 ++ more.1)

  -- `evaluate`
  unfoldable pub evaluate :
      (String → String → Bool)
      → ℕ
      → List (Rule V)
      → List (Sample V)
      → Breaches V
      → Breaches V × List (AlertEvent V)
  unfolding group eval_rules
  evaluate in_network now rules samples d = eval_rules in_network now (group samples []) rules d

  -- `active_alerts`: the breaches that have fired, with their keys.
  unfoldable pub active_alerts : Breaches V → List (Key × Breach V)
  active_alerts [] = []
  active_alerts (e ∷ d) = let rest = active_alerts d in if e.1.alerted then e ∷ rest else rest
