-- ===== src/Thresholds/Sustained.antt =====
-- `evaluate` of thresholds.py on the readings of one source under one rule.
use aruba_network_agent.Prelude.{
  ℕ, ◌+◌, ◌≤◌, String, ◌≡◌, refl, Bool, true, false, ◌||◌, Option, none, some, List, [], ◌∷◌,
  string_Eq, pair_Eq, leb, arith, ==_iff, ==_self,
}
use aruba_network_agent.Prelude.Dict.{get, put, get-remove, get-put_self}
use aruba_network_agent.Thresholds.{
  Comparison, Rule, Sample, Key, Breach, Breaches, key_of, was_alerted, noted, judge_sample, visit,
  visit_each, eval_rule, eval_rules, evaluate, group, is_unknown, match_scope, holds,
}
use aruba_network_agent.Thresholds.Alternation.{firing}

-- Since when the readings, each with whether it breaches, have been in breach.
abbrev pub breach_start : Option ℕ → List (ℕ × Bool) → Option ℕ
breach_start start [] = start
breach_start start ((t, false) ∷ rest) = breach_start none rest
breach_start none ((t, true) ∷ rest) = breach_start (some t) rest
breach_start (some u) ((t, true) ∷ rest) = breach_start (some u) rest

-- The time of the last reading.
abbrev pub last_time : ℕ → List (ℕ × Bool) → ℕ
last_time t [] = t
last_time t (r ∷ rest) = last_time r.0 rest

abbrev pub is_sustained : ℕ → ℕ → Option ℕ → Bool
is_sustained dur now none = false
is_sustained dur now (some start) = leb (start + dur) now

-- Readings that do not go back in time.
abbrev pub InOrder : ℕ → List (ℕ × Bool) → Type 0
InOrder t [] = Unit
InOrder t (r ∷ rest) = (t ≤ r.0) × InOrder r.0 rest

abbrev next_start : ℕ → Bool → Option ℕ → Option ℕ
next_start t over start = breach_start start ((t, over) ∷ [])

breach_start-cons :
    (start : Option ℕ) (t : ℕ) (over : Bool) (rest : List (ℕ × Bool))
    → breach_start start ((t, over) ∷ rest) ≡ breach_start (next_start t over start) rest
breach_start-cons start t false rest = refl
breach_start-cons none t true rest = refl
breach_start-cons (some u) t true rest = refl

module _ {V : Type 0} ⦃order : Comparison V⦄ where
  abbrev pub sample_with : Sample V → V → Sample V
  sample_with s v = record s { value = some v }

  -- The readings of one sample source under one rule.
  unfoldable pub readings : Rule V → V → List (ℕ × V) → List (ℕ × Bool)
  readings r limit [] = []
  readings r limit (o ∷ rest) = (o.0, holds r.operator o.1 limit) ∷ readings r limit rest

  -- One evaluation for each observation, with the one rule and the one sample.
  unfoldable pub observe_each :
      (String → String → Bool) → Rule V → Sample V → List (ℕ × V) → Breaches V → Breaches V
  unfolding evaluate
  observe_each in_network r s [] d = d
  observe_each in_network r s (o ∷ rest) d =
      observe_each in_network r s rest
        (evaluate in_network o.0 (r ∷ []) (sample_with s o.1 ∷ []) d).0

  -- What the evaluator holds of a key, by the start of the breach and the time of the last reading.
  abbrev Tracks : ℕ → Option ℕ → ℕ → Option (Breach V) → Type 0
  Tracks dur none now none = Unit
  Tracks dur none now (some b) = ⊥
  Tracks dur (some start) now none = ⊥
  Tracks dur (some start) now (some b) = (b.since ≡ start) × (b.alerted ≡ leb (start + dur) now)

  Tracks-firing :
      (dur : ℕ) (start : Option ℕ) (now : ℕ) (o : Option (Breach V))
      → Tracks dur start now o
      → was_alerted o ≡ is_sustained dur now start
  Tracks-firing dur none now none h = refl
  Tracks-firing dur none now (some b) h = elim h [ ]
  Tracks-firing dur (some start) now none h = elim h [ ]
  Tracks-firing dur (some start) now (some b) h = h.1

  -- A breach that is noted fires as soon as it has lasted.
  abbrev settled : ℕ → ℕ → Breach V → Breach V
  settled now dur b = record b { alerted = b.alerted || leb (b.since + dur) now }

  get-judge_sample :
      (now : ℕ) (r : Rule V) (dur : ℕ) (s : Sample V) (v : V) (d : Breaches V)
      → get (key_of r s) (judge_sample now r dur s v true d).0
        ≡ some (settled now dur (noted now r v (get (key_of r s) d)))
  unfolding judge_sample
  get-judge_sample now r dur s v d =
      let k = key_of r s in
      let b = noted now r v (get k d) in
      ground (arith, get-put_self k (record b { alerted = true }) d, get-put_self k b d)

  judge_sample-Tracks :
      (t now : ℕ) (r : Rule V) (dur : ℕ) (s : Sample V) (v : V) (over : Bool) (start : Option ℕ)
      (d : Breaches V)
      → t ≤ now
      → Tracks dur start t (get (key_of r s) d)
      → Tracks dur
          (next_start now over start)
          now
          (get (key_of r s) (judge_sample now r dur s v over d).0)
  judge_sample-Tracks t now r dur s v false start d le h =
      let k = key_of r s in
      let gone : get k (judge_sample now r dur s v false d).0 ≡ none =
        unfold judge_sample in ground (arith, get-remove k k d, ==_self k) in
      rw gone (over_at start)
    where
      over_at : (start : Option ℕ) → Tracks dur (next_start now false start) now none
      over_at none = tt
      over_at (some u) = tt
  judge_sample-Tracks t now r dur s v true start d le h = go start (get k d) refl h
    where
      k : Key
      k = key_of r s

      go :
          (start : Option ℕ) (o : Option (Breach V))
          → get k d ≡ o
          → Tracks dur start t o
          → Tracks dur (next_start now true start) now (get k (judge_sample now r dur s v true d).0)
      go none none e h = rw (get-judge_sample now r dur s v d, e) (refl, refl)
      go none (some b) e h = elim h [ ]
      go (some u) none e h = elim h [ ]
      go (some u) (some b) e h = rw (get-judge_sample now r dur s v d, e) (h.0, ground arith)

  -- A rule that is in force on the samples of a source.
  pub record IsLive (in_network : String → String → Bool) (r : Rule V) (limit : V) (dur : ℕ)
      (s : Sample V) : Type 0 where
    pub enabled : r.enabled ≡ true
    pub known : is_unknown r.operator ≡ false
    pub limited : r.value ≡ some limit
    pub lasting : r.duration ≡ some dur
    pub measured : s.metric ≡ r.metric
    pub in_scope : match_scope in_network s.device s.host r.included r.excluded ≡ true

  -- What `evaluate` does with one rule and one sample that are in order.
  evaluate-one :
      (in_network : String → String → Bool) (now : ℕ) (r : Rule V) (limit : V) (dur : ℕ)
      (s : Sample V) (v : V) (d : Breaches V)
      → IsLive in_network r limit dur s
      → (evaluate in_network now (r ∷ []) (sample_with s v ∷ []) d).0
        ≡ (judge_sample now r dur (sample_with s v) v (holds r.operator v limit) d).0
  unfolding evaluate eval_rules eval_rule group visit_each visit get put
  evaluate-one in_network now r limit dur s v d live =
      let on = live.enabled in
      let known = live.known in
      let val = live.limited in
      let span = live.lasting in
      let same = live.measured in
      let scope = live.in_scope in ground (arith, ==_iff s.metric r.metric, ==_self r.metric)

  observe_each-Tracks :
      (in_network : String → String → Bool) (r : Rule V) (limit : V) (dur : ℕ) (s : Sample V)
      (os : List (ℕ × V)) (t : ℕ) (start : Option ℕ) (d : Breaches V)
      → IsLive in_network r limit dur s
      → InOrder t (readings r limit os)
      → Tracks dur start t (get (key_of r s) d)
      → Tracks dur
          (breach_start start (readings r limit os))
          (last_time t (readings r limit os))
          (get (key_of r s) (observe_each in_network r s os d))
  unfolding readings observe_each
  observe_each-Tracks in_network r limit dur s [] t start d live o h = h
  observe_each-Tracks in_network r limit dur s ((now, v) ∷ os) t start d live o h =
      let over = holds r.operator v limit in
      let step = judge_sample-Tracks t now r dur (sample_with s v) v over start d o.0 h in
      let d' = (evaluate in_network now (r ∷ []) (sample_with s v ∷ []) d).0 in
      let next : Tracks dur (next_start now over start) now (get (key_of r s) d') =
        rw (evaluate-one in_network now r limit dur s v d live) step in
      rw (breach_start-cons start now over (readings r limit os)) (
        observe_each-Tracks in_network r limit dur s os now (next_start now over start) d' live o.1
          next)

  -- With a rule in force on a source of samples, times that do not go back and no earlier breach,
  -- the alert is active exactly when the last readings are in breach and the first of them is at
  -- least the rule's duration before the last.
  pub firing_iff_sustained :
      (in_network : String → String → Bool) (r : Rule V) (limit : V) (dur : ℕ) (s : Sample V)
      (os : List (ℕ × V)) (d : Breaches V)
      → IsLive in_network r limit dur s
      → InOrder 0 (readings r limit os)
      → get (key_of r s) d ≡ none
      → firing (key_of r s) (observe_each in_network r s os d)
        ≡ is_sustained dur
            (last_time 0 (readings r limit os))
            (breach_start none (readings r limit os))
  firing_iff_sustained in_network r limit dur s os d live o fresh =
      Tracks-firing dur (breach_start none (readings r limit os))
        (last_time 0 (readings r limit os)) (get (key_of r s) (observe_each in_network r s os d))
        (observe_each-Tracks in_network r limit dur s os 0 none d live o (rw fresh tt))
