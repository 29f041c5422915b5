-- ===== src/Poller/Dedup.antt =====
-- The dedup window of `_maybe_send_alert` against the alerts that a monitor raised before.
use aruba_network_agent.Prelude.{
  ℕ, String, string_Eq, false, Option-cases, ◌+◌, ◌≤◌, ◌<◌, ◌≡◌, refl, ap, ◌∙◌, Bool, true, not,
  ◌&&◌, Option, none, some, List, [], ◌∷◌, arith, leb, if◌then◌else◌, Bool-cases, inl, inr,
}
use aruba_network_agent.Prelude.Dict.{get, get-put}
use aruba_network_agent.State.{AgentState, alerts_suppressed}
use aruba_network_agent.State.Mute.{holds_at}
use aruba_network_agent.Poller.Data.{Monitor, Kind, Alert, kind_eq, kind_Eq}
use aruba_network_agent.Poller.Alerts.{is_recent, dedup, deliver, maybe_send_alert}

-- The alerts that a monitor raises, in order, each with its time and the registry at that time, which
-- other threads change in between.
abbrev pub Raised : Type 0
Raised = List (ℕ × Alert × AgentState)

unfoldable pub after : Raised → Monitor → Monitor
after [] m = m
after (r ∷ rest) m = after rest (maybe_send_alert r.0 r.1 m r.2).monitor

-- A switch is mute at a time if the registry has it muted until later, or with no end.
abbrev pub is_mute : ℕ → String → AgentState → Bool
is_mute now name s = elim (get name s.switches) [
  | none ↦ false
  | some sw ↦ sw.alerts_muted && holds_at now sw.mute_until
]

-- Those of them that no mute stops: their times and kinds.
abbrev pub Heard : Type 0
Heard = List (ℕ × Kind)

abbrev pub heard : String → Raised → Heard
heard name [] = []
heard name (r ∷ rest) =
    let others = heard name rest in
    if is_mute r.0 name r.2 then others else (r.0, r.1.kind) ∷ others

-- The times do not go back, from `t` on and up to `now`.
abbrev Ordered : ℕ → Heard → ℕ → Type 0
Ordered t [] now = t ≤ now
Ordered t (a ∷ rest) now = (t ≤ a.0) × Ordered a.0 rest now

abbrev pub InTime : ℕ → Raised → ℕ → Type 0
InTime t [] now = t ≤ now
InTime t (r ∷ rest) now = (t ≤ r.0) × InTime r.0 rest now

-- No alert of the kind within the window before `now`.
abbrev pub is_quiet : ℕ → ℕ → Kind → Heard → Bool
is_quiet window now k [] = true
is_quiet window now k (a ∷ rest) =
    (if kind_Eq.test a.1 k then leb (a.0 + window) now else true) && is_quiet window now k rest

-- The last time of a kind in a history, or what was there before.
abbrev last_time : Kind → Option ℕ → Heard → Option ℕ
last_time k t [] = t
last_time k t (a ∷ rest) = last_time k (if kind_Eq.test a.1 k then some a.0 else t) rest

get-dedup :
    (now : ℕ) (j k : Kind) (m : Monitor)
    → 0 < m.alert_dedup
    → let m' = (dedup now j m).0 in
      (get k m'.last_alert ≡ (if kind_Eq.test j k then some now else get k m.last_alert))
      × (m'.alert_dedup ≡ m.alert_dedup)
      × (m'.name ≡ m.name)
      × (m'.has_batcher ≡ m.has_batcher)
unfolding dedup
get-dedup now j k m pos =
    (ground (arith, get-put j k now m.last_alert), ground arith, ground arith, ground arith)

suppressed-is_mute :
    (now : ℕ) (name : String) (s : AgentState)
    → (alerts_suppressed now name s).1 ≡ is_mute now name s
unfolding alerts_suppressed
suppressed-is_mute now name s = elim (Option-cases (get name s.switches)) [
  | inl e ↦ ground arith
  | inr (sw, e) ↦ elim (Option-cases sw.mute_until) [
    | inl n ↦ ground arith
    | inr (t, n) ↦ ground arith
  ]
]

-- What an alert leaves of the monitor
one_alert :
    (now : ℕ) (a : Alert) (s : AgentState) (k : Kind) (m : Monitor)
    → 0 < m.alert_dedup
    → let m' = (maybe_send_alert now a m s).monitor in
      (get k m'.last_alert ≡ (
        if is_mute now m.name s
        then get k m.last_alert
        else if kind_Eq.test a.kind k
        then some now
        else get k m.last_alert))
      × (m'.alert_dedup ≡ m.alert_dedup)
      × (m'.name ≡ m.name)
      × (m'.has_batcher ≡ m.has_batcher)
unfolding maybe_send_alert
one_alert now a s k m pos =
    let muted = suppressed-is_mute now m.name s in
    let gate = get-dedup now a.kind k m pos in ground arith

get-after :
    (h : Raised) (k : Kind) (m : Monitor)
    → 0 < m.alert_dedup
    → let m' = after h m in
      (get k m'.last_alert ≡ last_time k (get k m.last_alert) (heard m.name h))
      × (m'.alert_dedup ≡ m.alert_dedup)
      × (m'.name ≡ m.name)
      × (m'.has_batcher ≡ m.has_batcher)
unfolding after
get-after [] k m pos = (refl, refl, refl, refl)
get-after ((t, a, s) ∷ h) k m pos =
    let m' = (maybe_send_alert t a m s).monitor in
    let one = one_alert t a s k m pos in
    let rest = get-after h k m' (rw one.1 pos) in
    let names = ap (λ n. last_time k (get k m'.last_alert) (heard n h)) one.2 in
    (
      rest.0
          ∙ names
          ∙ elim (Bool-cases (is_mute t m.name s)) [ inl e ↦ ground arith | inr e ↦ ground arith ],
      rest.1 ∙ one.1,
      rest.2 ∙ one.2,
      rest.3 ∙ one.3,
    )

Ordered-le : (s t : ℕ) (h : Heard) (now : ℕ) → s ≤ t → Ordered t h now → Ordered s h now
Ordered-le s t [] now le o = omega arith
Ordered-le s t (a ∷ h) now le o = (omega arith, o.1)

-- In an ordered history the last time decides.
quiet-last_time :
    (window now : ℕ) (k : Kind) (h : Heard) (last : ℕ)
    → Ordered last h now
    → not (is_recent window now (last_time k (some last) h))
      ≡ (leb (last + window) now && is_quiet window now k h)
quiet-last_time window now k [] last o = ground arith
quiet-last_time window now k ((t, j) ∷ h) last o =
    let same = quiet-last_time window now k h t o.1 in
    let other = quiet-last_time window now k h last (Ordered-le last t h now o.0 o.1) in
    elim (Bool-cases (kind_eq j k)) [ inl e ↦ rw e (ground arith) | inr e ↦ rw e (ground arith) ]

quiet-last_time-none :
    (window now : ℕ) (k : Kind) (h : Heard) (t : ℕ)
    → Ordered t h now
    → not (is_recent window now (last_time k none h)) ≡ is_quiet window now k h
quiet-last_time-none window now k [] t o = refl
quiet-last_time-none window now k ((u, j) ∷ h) t o =
    let same = quiet-last_time window now k h u o.1 in
    let other = quiet-last_time-none window now k h u o.1 in
    elim (Bool-cases (kind_eq j k)) [ inl e ↦ rw e same | inr e ↦ rw e other ]

heard-Ordered :
    (name : String) (h : Raised) (t now : ℕ) → InTime t h now → Ordered t (heard name h) now
heard-Ordered name [] t now o = o
heard-Ordered name (r ∷ h) t now o =
    let rest = heard-Ordered name h r.0 now o.1 in
    let earlier = Ordered-le t r.0 (heard name h) now o.0 rest in
    elim (Bool-cases (is_mute r.0 name r.2)) [ inl e ↦ rw e earlier | inr e ↦ rw e (o.0, rest) ]

-- With a window, no earlier alert of the kind, and times that do not go back: an alert is sent, to the
-- batcher if there is one, exactly when the switch is not mute and no alert of its kind that was raised
-- while the switch was not mute, sent or held back, is less than the window old.
pub sent_iff_quiet :
    (h : Raised) (start now : ℕ) (a : Alert) (m : Monitor) (s : AgentState)
    → 0 < m.alert_dedup
    → get a.kind m.last_alert ≡ none
    → InTime start h now
    → (maybe_send_alert now a (after h m) s).sent ≡ (
        if not (is_mute now m.name s) && is_quiet m.alert_dedup now a.kind (heard m.name h)
        then deliver m a ∷ []
        else [])
unfolding maybe_send_alert
sent_iff_quiet h start now a m s pos fresh o =
    let m' = after h m in
    let (found, window, name, batcher) = get-after h a.kind m pos in
    let muted = suppressed-is_mute now m'.name s in
    let quiet =
      quiet-last_time-none m.alert_dedup now a.kind (heard m.name h) start
        (heard-Ordered m.name h start now o) in
    unfold dedup in ground arith
