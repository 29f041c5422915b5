-- ===== src/Thresholds/Alternation.antt =====
-- The events that `evaluate` of thresholds.py appends, seen for one key.
use aruba_network_agent.Prelude.{
  ℕ, String, ◌≡◌, refl, subst, Bool, true, false, not, ◌||◌, Option, none, some, List, [], ◌∷◌,
  ◌++◌, ◌==◌, string_Eq, pair_Eq, arith, keep, ==_iff, Bool-cases, inl, inr,
}
use aruba_network_agent.Prelude.Dict.{Dict, get, get-put, get-remove}
use aruba_network_agent.Thresholds.{
  Comparison, Rule, Sample, Key, AlertEvent, is_fire, Breaches, key_of, was_alerted, noted,
  judge_sample, visit, visit_each, eval_rule, eval_rules, evaluate, group, is_unknown,
  or_no_samples, match_scope, holds,
}

-- The events go from firing or not to firing or not, each one a change.
abbrev pub Alternates : {V : Type 0} → Bool → List (AlertEvent V) → Bool → Type 0
Alternates before [] after = before ≡ after
Alternates before (e ∷ rest) after =
    (is_fire e.type ≡ not before) × Alternates (is_fire e.type) rest after

abbrev pub event_key : {V : Type 0} → AlertEvent V → Key
event_key e = (e.rule, (e.device, e.instance_name))

abbrev pub events_of : {V : Type 0} → Key → List (AlertEvent V) → List (AlertEvent V)
events_of k es = keep (λ e. event_key e == k) es

pub Alternates-append :
    {V : Type 0} (p : AlertEvent V → Bool) (es fs : List (AlertEvent V)) (a b c : Bool)
    → Alternates a (keep p es) b
    → Alternates b (keep p fs) c
    → Alternates a (keep p (es ++ fs)) c
Alternates-append p [] fs a b c h g = rw h g
Alternates-append p (e ∷ es) fs a b c h g =
    go (p e) refl (λ a' h'. Alternates-append p es fs a' b c h' g)
  where
    go :
        (x : Bool)
        → p e ≡ x
        → ((a' : Bool) → Alternates a' (keep p es) b → Alternates a' (keep p (es ++ fs)) c)
        → Alternates a (keep p (e ∷ es ++ fs)) c
    go true x rest =
        let h' : (is_fire e.type ≡ not a) × Alternates (is_fire e.type) (keep p es) b =
          subst (λ y. Alternates a (elim y [ true ↦ e ∷ keep p es | false ↦ keep p es ]) b) x h in
        rw x (h'.0, rest (is_fire e.type) h'.1)
    go false x rest = rw x (
        rest a
          (subst (λ y. Alternates a (elim y [ true ↦ e ∷ keep p es | false ↦ keep p es ]) b) x h))

module _ {V : Type 0} ⦃order : Comparison V⦄ where
  abbrev pub firing : Key → Breaches V → Bool
  firing k d = was_alerted (get k d)

  judge_sample-Alternates :
      (k : Key) (now : ℕ) (r : Rule V) (dur : ℕ) (s : Sample V) (v : V) (over : Bool)
      (d : Breaches V)
      → let x = judge_sample now r dur s v over d in
        Alternates (firing k d) (events_of k x.1) (firing k x.0)
  judge_sample-Alternates k now r dur s v true d =
      let j = key_of r s in
      let b = noted now r v (get j d) in
      let one = get-put j k (record b { alerted = true }) d in
      let two = get-put j k b d in
      unfold judge_sample in
      elim (Bool-cases (j == k)) [
        | inl e ↦ let same = (==_iff j k).0 e in ground arith
        | inr e ↦ ground arith
      ]
  judge_sample-Alternates k now r dur s v false d =
      let j = key_of r s in
      let one = get-remove j k d in
      unfold judge_sample in
      elim (Bool-cases (j == k)) [
        | inl e ↦ let same = (==_iff j k).0 e in ground arith
        | inr e ↦ ground arith
      ]

  visit-Alternates :
      (in_network : String → String → Bool) (k : Key) (now : ℕ) (r : Rule V) (limit : V) (dur : ℕ)
      (s : Sample V) (d : Breaches V)
      → let x = visit in_network now r limit dur s d in
        Alternates (firing k d) (events_of k x.1) (firing k x.0)
  visit-Alternates in_network k now r limit dur s d = go s.value refl
    where
      go :
          (value : Option V)
          → s.value ≡ value
          → let x = visit in_network now r limit dur s d in
            Alternates (firing k d) (events_of k x.1) (firing k x.0)
      go none e = unfold visit in ground arith
      go (some v) e =
          let step = judge_sample-Alternates k now r dur s v (holds r.operator v limit) d in
          unfold visit in
          elim (Bool-cases (match_scope in_network s.device s.host r.included r.excluded)) [
            | inl m ↦ rw (m, e) step
            | inr m ↦ rw m refl
          ]

  visit_each-Alternates :
      (in_network : String → String → Bool) (k : Key) (now : ℕ) (r : Rule V) (limit : V) (dur : ℕ)
      (ss : List (Sample V)) (d : Breaches V)
      → let x = visit_each in_network now r limit dur ss d in
        Alternates (firing k d) (events_of k x.1) (firing k x.0)
  unfolding visit_each
  visit_each-Alternates in_network k now r limit dur [] d = refl
  visit_each-Alternates in_network k now r limit dur (s ∷ ss) d =
      let one = visit in_network now r limit dur s d in
      let more = visit_each in_network now r limit dur ss one.0 in
      Alternates-append (λ e. event_key e == k) one.1 more.1 (firing k d) (firing k one.0)
        (firing k more.0) (visit-Alternates in_network k now r limit dur s d)
        (visit_each-Alternates in_network k now r limit dur ss one.0)

  eval_rule-Alternates :
      (in_network : String → String → Bool) (k : Key) (now : ℕ)
      (by_metric : Dict String (List (Sample V))) (r : Rule V) (d : Breaches V)
      → let x = eval_rule in_network now by_metric r d in
        Alternates (firing k d) (events_of k x.1) (firing k x.0)
  unfolding eval_rule
  eval_rule-Alternates in_network k now by_metric r d =
      elim (Bool-cases (not r.enabled || is_unknown r.operator)) [
        | inl off ↦ rw off refl
        | inr on ↦ rw on (go r.value r.duration)
      ]
    where
      go :
          (value : Option V) (duration : Option ℕ)
          → let x = elim value as (λ _. Breaches V × List (AlertEvent V)) [
            | none ↦ (d, [])
            | some limit ↦ elim duration [
              | none ↦ (d, [])
              | some dur ↦
                  visit_each in_network now r limit dur (or_no_samples (get r.metric by_metric)) d
            ]
          ] in
            Alternates (firing k d) (events_of k x.1) (firing k x.0)
      go none duration = refl
      go (some limit) none = refl
      go (some limit) (some dur) =
          visit_each-Alternates in_network k now r limit dur
            (or_no_samples (get r.metric by_metric)) d

  eval_rules-Alternates :
      (in_network : String → String → Bool) (k : Key) (now : ℕ)
      (by_metric : Dict String (List (Sample V))) (rs : List (Rule V)) (d : Breaches V)
      → let x = eval_rules in_network now by_metric rs d in
        Alternates (firing k d) (events_of k x.1) (firing k x.0)
  unfolding eval_rules
  eval_rules-Alternates in_network k now by_metric [] d = refl
  eval_rules-Alternates in_network k now by_metric (r ∷ rs) d =
      let one = eval_rule in_network now by_metric r d in
      let more = eval_rules in_network now by_metric rs one.0 in
      Alternates-append (λ e. event_key e == k) one.1 more.1 (firing k d) (firing k one.0)
        (firing k more.0) (eval_rule-Alternates in_network k now by_metric r d)
        (eval_rules-Alternates in_network k now by_metric rs one.0)

  -- One evaluation: the events of a rule, device and instance alternate, from whether its alert was
  -- active before to whether it is active after.
  pub evaluate-Alternates :
      (in_network : String → String → Bool) (k : Key) (now : ℕ) (rs : List (Rule V))
      (ss : List (Sample V)) (d : Breaches V)
      → let x = evaluate in_network now rs ss d in
        Alternates (firing k d) (events_of k x.1) (firing k x.0)
  unfolding evaluate
  evaluate-Alternates in_network k now rs ss d =
      eval_rules-Alternates in_network k now (group ss []) rs d
