-- ===== src/Batcher/Timers.antt =====
-- alert_batcher.py: `_timers` against the kinds of `_pending`, through adds, timers and calls of `flush_all`.
use aruba_network_agent.Prelude.{
  ℕ, String, ◌≡◌, refl, sym, ◌∙◌, Bool, false, not, ◌&&◌, ◌||◌, none, List, [], ◌∷◌, ◌++◌, arith,
  ◌==◌, string_Eq, ==_iff, if◌then◌else◌,
}
use aruba_network_agent.Prelude.Dict.{Dict, get, remove, contains, keys, get-remove, contains-put}
use aruba_network_agent.Batcher.{
  Event, Batcher, new, add, flush, flush_each, flush_all, Action, added, fired, flushed_all, act,
  run,
}
use aruba_network_agent.Batcher.Delivery.{waiting, flush-pending}

-- A kind waits exactly while its window is open.
pub record IsArmed (b : Batcher) : Type 0 where
  pub armed : (kind : String) → contains kind b.timers ≡ contains kind b.pending

abbrev mem : String → List String → Bool
mem k [] = false
mem k (j ∷ js) = j == k || mem k js

flush-timers : (j : String) (b : Batcher) → (flush j b).timers ≡ remove j b.timers
flush-timers j b = go (waiting j b) refl
  where
    go : (es : List Event) → waiting j b ≡ es → (flush j b).timers ≡ remove j b.timers
    go [] h = unfold flush in ground arith
    go (e ∷ es) h = unfold flush in ground arith

contains-remove {ℓ} :
    {V : Type ℓ} (k j : String) (d : Dict String V)
    → contains j (remove k d) ≡ (not (k == j) && contains j d)
unfolding contains
contains-remove k j d = ground (arith, get-remove k j d)

flush-IsArmed : (j : String) (b : Batcher) → IsArmed b → IsArmed (flush j b)
flush-IsArmed j b h = record {
  armed = λ kind.
      let t = contains-remove j kind b.timers in
      let p = contains-remove j kind b.pending in
      let same = h.armed kind in ground (arith, flush-timers j b, flush-pending j b);
}

add-IsArmed : (j : String) (e : Event) (b : Batcher) → IsArmed b → IsArmed (add j e b)
unfolding add
add-IsArmed j e b h = record {
  armed = λ kind.
      let t = contains-put j kind tt b.timers in
      let p = contains-put j kind (waiting j b ++ e ∷ []) b.pending in
      let same = h.armed kind in let own = h.armed j in ground (arith, ==_iff j kind);
}

get-flush_each :
    (kinds : List String) (b : Batcher) (k : String)
    → get k (flush_each kinds b).pending ≡ (if mem k kinds then none else get k b.pending)
unfolding flush_each
get-flush_each [] b k = refl
get-flush_each (j ∷ kinds) b k =
    ground (arith, get-flush_each kinds (flush j b) k, flush-pending j b, get-remove j k b.pending)

get-none_of_mem :
    (d : Dict String (List Event)) (k : String) → mem k (keys d) ≡ false → get k d ≡ none
unfolding get
get-none_of_mem [] k h = refl
get-none_of_mem (e ∷ d) k h = ground (arith, get-none_of_mem d k)

pub flush_all-pending : (b : Batcher) (k : String) → get k (flush_all b).pending ≡ none
unfolding flush_all
flush_all-pending b k = ground (
  arith,
  get-flush_each (keys b.pending) (record b { timers = [] }) k,
  get-none_of_mem b.pending k,
)

flush_each-timers :
    (kinds : List String) (b : Batcher) → b.timers ≡ [] → (flush_each kinds b).timers ≡ []
unfolding flush_each
flush_each-timers [] b h = h
flush_each-timers (j ∷ kinds) b h =
    flush_each-timers kinds (flush j b) (flush-timers j b ∙ (unfold remove in rw h refl))

contains-none {ℓ} :
    {V : Type ℓ} (d : Dict String V) (k : String) → get k d ≡ none → contains k d ≡ false
unfolding contains
contains-none d k h = ground arith

contains-empty {ℓ} : {V : Type ℓ} (d : Dict String V) (k : String) → d ≡ [] → contains k d ≡ false
contains-empty d k h = contains-none d k (rw h (unfold get in refl))

flush_all-IsArmed : (b : Batcher) → IsArmed (flush_all b)
flush_all-IsArmed b = record {
  armed = λ kind.
      let t : (flush_all b).timers ≡ [] =
        unfold flush_all in flush_each-timers (keys b.pending) (record b { timers = [] }) refl in
      contains-empty (flush_all b).timers kind t
      ∙ sym (contains-none (flush_all b).pending kind (flush_all-pending b kind));
}

act-IsArmed : (a : Action) (b : Batcher) → IsArmed b → IsArmed (act a b)
unfolding act
act-IsArmed (added j e) b h = add-IsArmed j e b h
act-IsArmed (fired j) b h = flush-IsArmed j b h
act-IsArmed flushed_all b h = flush_all-IsArmed b

IsArmed-from : (acts : List Action) (b : Batcher) → IsArmed b → IsArmed (run acts b)
unfolding run
IsArmed-from [] b h = h
IsArmed-from (a ∷ rest) b h = IsArmed-from rest (act a b) (act-IsArmed a b h)

new-IsArmed : (window : ℕ) → IsArmed (new window)
unfolding new contains get
new-IsArmed window = record { armed = λ kind. refl }

-- However adds, timers and calls of `flush_all` come, at any window: the timer of a kind is armed exactly
-- while events of that kind wait.
pub run-IsArmed : (window : ℕ) (acts : List Action) → IsArmed (run acts (new window))
run-IsArmed window acts = IsArmed-from acts (new window) (new-IsArmed window)
