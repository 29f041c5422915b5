-- ===== src/Batcher.antt =====
-- The alert batcher, aruba_agent/alert_batcher.py: one email for the events of a kind that fall into
-- one window. The proofs are in the modules below.
pub mod Delivery
pub mod Timers
pub mod Tests
use aruba_network_agent.Prelude.{
  ℕ, String, Bool, Option, none, some, List, [], ◌∷◌, ◌++◌, map, ◌==◌, string_Eq, ltb, length,
  if◌then◌else◌,
}
use aruba_network_agent.Prelude.Dict.{Dict, get, put, remove, contains, keys}

-- An event: the label of its switch and the text for it.
abbrev pub Event : Type 0
Event = String × String

-- An email as it is handed to the notifier: its kind, and the events in it.
pub record Mail : Type 0 where
  pub kind : String
  pub entries : List Event

-- `timers` has a kind while its window is open. `sent` is what the notifier was handed, oldest first.
pub record Batcher : Type 0 where
  pub window : ℕ
  pub pending : Dict String (List Event)
  pub timers : Dict String (Unit {0})
  pub sent : List Mail

-- `__init__`; a negative window counts as 0
unfoldable pub new : ℕ → Batcher
new window = record { window = window; pending = []; timers = []; sent = [] }

-- `_subject`: the word and the one label, or the word and the number of switches.
pub data Subject : Type 0 where
  one_switch : String → String → Subject
  many_switches : ℕ → String → Subject

abbrev pub word : String → String
word kind = if kind == "restored" then "RESTORED" else "DOWN"

unfoldable pub subject : Mail → Subject
subject m = elim m.entries [
  | [] ↦ many_switches 0 (word m.kind)
  | e ∷ rest ↦ elim rest [
    | [] ↦ one_switch (word m.kind) e.0
    | f ∷ more ↦ many_switches (length m.entries) (word m.kind)
  ]
]

-- The blocks of the body, which are joined by the separator.
unfoldable pub blocks : Mail → List String
blocks m = map (λ e. e.1) m.entries

-- `_send`
unfoldable pub send : String → List Event → Batcher → Batcher
send kind entries b = record b { sent = b.sent ++ record { kind = kind; entries = entries } ∷ [] }

abbrev pub or_none : Option (List Event) → List Event
or_none none = []
or_none (some es) = es

-- `add`
unfoldable pub add : String → Event → Batcher → Batcher
unfolding send
add kind e b =
    if ltb 0 b.window
    then record b {
      pending = put kind (or_none (get kind b.pending) ++ e ∷ []) b.pending;
      timers = if contains kind b.timers then b.timers else put kind tt b.timers;
    }
    else send kind (e ∷ []) b

-- `_flush`
unfoldable pub flush : String → Batcher → Batcher
unfolding send
flush kind b =
    let rest = record b { pending = remove kind b.pending; timers = remove kind b.timers } in
    elim (or_none (get kind b.pending)) [ [] ↦ rest | e ∷ es ↦ send kind (e ∷ es) rest ]

unfoldable pub flush_each : List String → Batcher → Batcher
unfolding flush
flush_each [] b = b
flush_each (kind ∷ kinds) b = flush_each kinds (flush kind b)

-- `flush_all`. It takes the lock once to clear the timers and once for each kind; the model takes a call
-- of it as one step, with nothing in between. No part of the agent calls it, at shutdown neither.
unfoldable pub flush_all : Batcher → Batcher
unfolding flush_each
flush_all b = flush_each (keys b.pending) (record b { timers = [] })

-- What happens to a batcher: an event is added, a timer fires (perhaps late, after a `flush_all`
-- that came before it), `flush_all` is called.
pub data Action : Type 0 where
  added : String → Event → Action
  fired : String → Action
  flushed_all : Action

unfoldable pub act : Action → Batcher → Batcher
unfolding add flush flush_all
act (added kind e) b = add kind e b
act (fired kind) b = flush kind b
act flushed_all b = flush_all b

unfoldable pub run : List Action → Batcher → Batcher
run [] b = b
run (a ∷ rest) b = run rest (act a b)
