-- ===== src/Traps/Rate.antt =====
-- `_rate_ok` of trap_receiver.py over the traps that arrive.
use mathlib.Core.List.{append-nil}
use aruba_network_agent.Prelude.{
  ℕ, ◌+◌, ◌≤◌, String, ◌≡◌, refl, subst, ◌⊎◌, true, false, some, List, [], ◌∷◌, ◌++◌, ltb, length,
  All, ◌==◌, ==_iff, string_Eq, pair_Eq, arith, Bool-cases, Option-cases, inl, inr, if◌then◌else◌,
}
use aruba_network_agent.Prelude.Dict.{Dict, get, put, get-put, IsUnique, put-IsUnique}
use aruba_network_agent.State.{AgentState}
use aruba_network_agent.Prelude.Text.{text_Eq}
use aruba_network_agent.Traps.{
  TrapKey, Doc, Receiver, Binding, prune, rate_ok, email, handle_trap, or_zero, should_alert,
  classify_trap, host_to_switch,
}
use aruba_network_agent.Traps.Spaced.{
  key_of_doc, times, IsSpaced, All-snoc, IsSpaced-snoc, All-map, times-append, get-prune,
  prune-IsUnique,
}

-- Up to a time, for a window: the emails for each key are spaced, and each is a window ago or not
-- after the last entry of its key.
record IsLimited (window now : ℕ) (r : Receiver) : Type 0 where
  same : r.alert_dedup ≡ window
  unique : IsUnique r.recent
  spaced : (k : TrapKey) → IsSpaced window (times k r.sent)
  recorded :
      (k : TrapKey)
      → All (λ u. (u + window ≤ now) ⊎ (u ≤ or_zero (get k r.recent))) (times k r.sent)

later-IsLimited :
    (window now later : ℕ) (r : Receiver)
    → now ≤ later
    → IsLimited window now r
    → IsLimited window later r
later-IsLimited window now later r le h = record {
  same = h.same;
  unique = h.unique;
  spaced = h.spaced;
  recorded = λ k.
      All-map (λ u. (u + window ≤ now) ⊎ (u ≤ or_zero (get k r.recent)))
        (λ u. (u + window ≤ later) ⊎ (u ≤ or_zero (get k r.recent)))
        (λ u x. elim x [ inl old ↦ inl (omega arith) | inr new ↦ inr new ]) (times k r.sent)
        (h.recorded k);
}

-- What `_rate_ok` leaves of another key's entry when it lets an email pass: the entry, unless that is
-- out of the window.
passed-recent :
    (window now : ℕ) (j k : TrapKey) (recent : Dict TrapKey ℕ) (u : ℕ)
    → IsUnique recent
    → (j == k) ≡ false
    → (u + window ≤ now) ⊎ (u ≤ or_zero (get k recent))
    → let put' = put j now recent in
      (u + window ≤ now)
      ⊎ (u ≤ or_zero (get k (if ltb 5000 (length put') then prune now window put' else put')))
passed-recent window now j k recent u un e h =
    let put' = put j now recent in
    let at_put = get-put j k now recent in
    let at_prune = get-prune k now window put' (put-IsUnique j now recent un) in
    elim (Option-cases (get k recent)) [ inl o ↦ ground arith | inr (v, o) ↦ ground arith ]

-- The entry of the email's own key is its time.
own-recent :
    (window now : ℕ) (j k : TrapKey) (recent : Dict TrapKey ℕ)
    → IsUnique recent
    → (j == k) ≡ true
    → let put' = put j now recent in
      get k (if ltb 5000 (length put') then prune now window put' else put') ≡ some now
own-recent window now j k recent un e =
    let put' = put j now recent in
    let at_put = get-put j k now recent in
    let at_prune = get-prune k now window put' (put-IsUnique j now recent un) in ground arith

new-IsUnique :
    (window now : ℕ) (j : TrapKey) (recent : Dict TrapKey ℕ)
    → IsUnique recent
    → let put' = put j now recent in
      IsUnique (if ltb 5000 (length put') then prune now window put' else put')
new-IsUnique window now j recent un =
    let put' = put j now recent in
    let h = put-IsUnique j now recent un in
    elim (Bool-cases (ltb 5000 (length put'))) [
      | inl e ↦ rw e (prune-IsUnique now window put' h)
      | inr e ↦ rw e h
    ]

-- What an email adds to the times of a key.
email-times :
    (window now : ℕ) (doc : Doc) (k : TrapKey) (r : Receiver)
    → doc.time ≡ now
    → IsLimited window now r
    → or_zero (get (key_of_doc doc) r.recent) + window ≤ now
    → let put' = put (key_of_doc doc) now r.recent in
      let recent = if ltb 5000 (length put') then prune now window put' else put' in
      let ts = times k (r.sent ++ doc ∷ []) in
      IsSpaced window ts × All (λ u. (u + window ≤ now) ⊎ (u ≤ or_zero (get k recent))) ts
email-times window now doc k r at_now h free = elim (Bool-cases (key_of_doc doc == k)) [
  | inl e ↦
      let same = (==_iff (key_of_doc doc) k).0 e in
      let ts = times k r.sent in
      let bound : or_zero (get k r.recent) + window ≤ now =
        subst (λ x. or_zero (get x r.recent) + window ≤ now) same free in
      let old : All (λ u. u + window ≤ now) ts =
        All-map (λ u. (u + window ≤ now) ⊎ (u ≤ or_zero (get k r.recent))) (λ u. u + window ≤ now)
          (λ u x. elim x [ inl y ↦ y | inr y ↦ omega (arith, bound) ]) ts (h.recorded k) in
      let recent =
        if ltb 5000 (length (put (key_of_doc doc) now r.recent))
        then prune now window (put (key_of_doc doc) now r.recent)
        else put (key_of_doc doc) now r.recent in
      let own = own-recent window now (key_of_doc doc) k r.recent h.unique e in
      rw (times-append k r.sent doc, e, at_now)
        (
          IsSpaced-snoc window ts now (h.spaced k) old,
          All-snoc (λ u. (u + window ≤ now) ⊎ (u ≤ or_zero (get k recent))) ts now
              (All-map (λ u. u + window ≤ now)
                (λ u. (u + window ≤ now) ⊎ (u ≤ or_zero (get k recent))) (λ u y. inl y) ts old)
              (inr (rw own (omega arith))),
        )
  | inr e ↦
      let ts = times k r.sent in
      let recent =
        if ltb 5000 (length (put (key_of_doc doc) now r.recent))
        then prune now window (put (key_of_doc doc) now r.recent)
        else put (key_of_doc doc) now r.recent in
      rw (times-append k r.sent doc, e, append-nil ts)
        (
          h.spaced k,
          All-map (λ u. (u + window ≤ now) ⊎ (u ≤ or_zero (get k r.recent)))
              (λ u. (u + window ≤ now) ⊎ (u ≤ or_zero (get k recent)))
              (λ u x. passed-recent window now (key_of_doc doc) k r.recent u h.unique e x) ts
              (h.recorded k),
        )
]

email-IsLimited :
    (window now : ℕ) (doc : Doc) (r : Receiver)
    → doc.time ≡ now
    → IsLimited window now r
    → IsLimited window now (email now doc r)
unfolding email rate_ok
email-IsLimited window now doc r at_now h =
    elim (Bool-cases (ltb now (or_zero (get (key_of_doc doc) r.recent) + r.alert_dedup))) [
      | inl e ↦ rw e h
      | inr e ↦
          let free : or_zero (get (key_of_doc doc) r.recent) + window ≤ now =
            subst (λ w. or_zero (get (key_of_doc doc) r.recent) + w ≤ now) h.same (ground arith) in
          rw (e, h.same)
            (record {
              same = refl;
              unique = new-IsUnique window now (key_of_doc doc) r.recent h.unique;
              spaced = λ k. (email-times window now doc k r at_now h free).0;
              recorded = λ k. (email-times window now doc k r at_now h free).1;
            })
    ]

-- A trap: its time, its source, its OID, bindings and name hint, and the registry at that time.
pub record Arrival : Type 0 where
  pub time : ℕ
  pub source_ip : String
  pub trap_oid : List ℕ
  pub varbinds : List Binding
  pub name_hint : List ℕ
  pub state : AgentState

unfoldable pub arrive : List Arrival → Receiver → Receiver
unfolding handle_trap
arrive [] r = r
arrive (a ∷ rest) r =
    arrive rest (handle_trap a.time a.source_ip a.trap_oid a.varbinds a.name_hint a.state r).0

-- The clock does not go back, from `now` on.
abbrev pub InOrder : ℕ → List Arrival → Type 0
InOrder now [] = Unit
InOrder now (a ∷ rest) = (now ≤ a.time) × InOrder a.time rest

handle_trap-IsLimited :
    (window now : ℕ) (ip : String) (oid : List ℕ) (bs : List Binding) (hint : List ℕ)
    (s : AgentState) (r : Receiver)
    → IsLimited window now r
    → IsLimited window now (handle_trap now ip oid bs hint s r).0
unfolding handle_trap
handle_trap-IsLimited window now ip oid bs hint s r h =
    let trap = classify_trap oid bs hint in
    let doc : Doc = record {
      time = now;
      source_ip = ip;
      switch = host_to_switch ip s;
      trap = trap;
      varbinds = bs;
    } in
    let kept_doc : Receiver = record r { stored = r.stored ++ doc ∷ [] } in
    let here : IsLimited window now kept_doc = record {
      same = h.same;
      unique = h.unique;
      spaced = h.spaced;
      recorded = h.recorded;
    } in
    elim (Bool-cases (should_alert trap r.alert_policy)) [
      | inl e ↦ rw e (email-IsLimited window now doc kept_doc refl here)
      | inr e ↦ rw e here
    ]

arrive-IsSpaced :
    (arrivals : List Arrival) (window now : ℕ) (k : TrapKey) (r : Receiver)
    → InOrder now arrivals
    → IsLimited window now r
    → IsSpaced window (times k (arrive arrivals r).sent)
unfolding arrive
arrive-IsSpaced [] window now k r o h = h.spaced k
arrive-IsSpaced (a ∷ rest) window now k r o h =
    arrive-IsSpaced rest window a.time k
      (handle_trap a.time a.source_ip a.trap_oid a.varbinds a.name_hint a.state r).0 o.1
      (handle_trap-IsLimited window a.time a.source_ip a.trap_oid a.varbinds a.name_hint a.state r
        (later-IsLimited window now a.time r o.0 h))

-- Over any traps at times that do not go back, from a receiver that has sent nothing and has no
-- entries, the emails for one switch and trap name are at least the dedup window apart, however many
-- entries are pruned.
pub emails_apart :
    (arrivals : List Arrival) (k : TrapKey) (r : Receiver)
    → InOrder 0 arrivals
    → r.sent ≡ []
    → r.recent ≡ []
    → IsSpaced r.alert_dedup (times k (arrive arrivals r).sent)
emails_apart arrivals k r o none_sent none_recent =
    arrive-IsSpaced arrivals r.alert_dedup 0 k r o (record {
      same = refl;
      unique = rw none_recent tt;
      spaced = λ j. rw none_sent tt;
      recorded = λ j. rw none_sent tt;
    })
