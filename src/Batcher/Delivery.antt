-- ===== src/Batcher/Delivery.antt =====
-- alert_batcher.py: what is sent and what waits, against what `add` was given.
use mathlib.Core.List.{append-nil, append_assoc}
use aruba_network_agent.Prelude.{
  ℕ, String, ◌≡◌, refl, sym, ap, ◌∙◌, List, [], ◌∷◌, ◌++◌, arith, ◌==◌, string_Eq, ==_iff, ltb,
  if◌then◌else◌, Bool-cases, inl, inr,
}
use aruba_network_agent.Prelude.Dict.{get, remove, keys, get-put, get-remove}
use aruba_network_agent.Batcher.{
  Event, Mail, Batcher, new, or_none, add, flush, flush_each, flush_all, Action, added, fired,
  flushed_all, act, run,
}

-- The events of a kind in the emails, in the order in which they went out.
abbrev pub delivered : String → List Mail → List Event
delivered kind [] = []
delivered kind (m ∷ ms) =
    if m.kind == kind then m.entries ++ delivered kind ms else delivered kind ms

abbrev pub waiting : String → Batcher → List Event
waiting kind b = or_none (get kind b.pending)

-- The events of a kind that the actions add.
abbrev pub added_events : String → List Action → List Event
added_events kind [] = []
added_events kind (added j e ∷ rest) =
    if j == kind then e ∷ added_events kind rest else added_events kind rest
added_events kind (fired j ∷ rest) = added_events kind rest
added_events kind (flushed_all ∷ rest) = added_events kind rest

delivered-append :
    (kind : String) (ms : List Mail) (m : Mail)
    → delivered kind (ms ++ m ∷ [])
      ≡ delivered kind ms ++ (if m.kind == kind then m.entries else [])
delivered-append kind [] m = elim (Bool-cases (m.kind == kind)) [
  | inl e ↦ rw e (append-nil m.entries)
  | inr e ↦ rw e refl
]
delivered-append kind (n ∷ ms) m = elim (Bool-cases (n.kind == kind)) [
  | inl e ↦ rw e (rw (delivered-append kind ms m) (sym (append_assoc n.entries _ _)))
  | inr e ↦ rw e (delivered-append kind ms m)
]

-- What was sent of a kind and what waits, as one list.
abbrev pub total : String → Batcher → List Event
total kind b = delivered kind b.sent ++ waiting kind b

-- What a flush sends, by what waits.
flush-sent :
    (j : String) (b : Batcher)
    → (flush j b).sent ≡ elim (waiting j b) [
      | [] ↦ b.sent
      | e ∷ es ↦ b.sent ++ record { kind = j; entries = e ∷ es } ∷ []
    ]
flush-sent j b = go (waiting j b) refl
  where
    go :
        (es : List Event)
        → waiting j b ≡ es
        → (flush j b).sent ≡ elim (waiting j b) [
          | [] ↦ b.sent
          | e ∷ es ↦ b.sent ++ record { kind = j; entries = e ∷ es } ∷ []
        ]
    go [] h = unfold flush in ground arith
    go (e ∷ es) h = unfold flush in ground arith

pub flush-pending : (j : String) (b : Batcher) → (flush j b).pending ≡ remove j b.pending
flush-pending j b = go (waiting j b) refl
  where
    go : (es : List Event) → waiting j b ≡ es → (flush j b).pending ≡ remove j b.pending
    go [] h = unfold flush in ground arith
    go (e ∷ es) h = unfold flush in ground arith

flush-delivered :
    (j kind : String) (b : Batcher)
    → delivered kind (flush j b).sent
      ≡ delivered kind b.sent ++ (if j == kind then waiting j b else [])
flush-delivered j kind b = go (waiting j b) refl
  where
    go :
        (es : List Event)
        → waiting j b ≡ es
        → delivered kind (flush j b).sent
          ≡ delivered kind b.sent ++ (if j == kind then waiting j b else [])
    go [] h = ground (arith, flush-sent j b, append-nil (delivered kind b.sent))
    go (e ∷ es) h = ground (
      arith,
      flush-sent j b,
      delivered-append kind b.sent (record { kind = j; entries = e ∷ es }),
    )

flush-total : (j kind : String) (b : Batcher) → total kind (flush j b) ≡ total kind b
flush-total j kind b =
    let d = flush-delivered j kind b in
    let p = flush-pending j b in
    let g = get-remove j kind b.pending in
    elim (Bool-cases (j == kind)) [
      | inl e ↦ ground (arith, ==_iff j kind, append-nil (delivered kind b.sent ++ waiting j b))
      | inr e ↦ ground (arith, append-nil (delivered kind b.sent))
    ]

-- Without a window nothing waits.
abbrev pub IsDirect : Batcher → Type 0
IsDirect b = b.window ≡ 0 → b.pending ≡ []

add-total :
    (j kind : String) (e : Event) (b : Batcher)
    → IsDirect b
    → total kind (add j e b) ≡ total kind b ++ (if j == kind then e ∷ [] else [])
add-total j kind e b direct = elim (Bool-cases (ltb 0 b.window)) [
  | inl w ↦
      let p = get-put j kind (waiting j b ++ e ∷ []) b.pending in
      unfold add in
      ground (
        arith,
        ==_iff j kind,
        append_assoc (delivered kind b.sent) (waiting j b) (e ∷ []),
        append-nil (total kind b),
      )
  | inr w ↦
      let none_waits : b.pending ≡ [] = direct (ground arith) in
      unfold add get in
      ground (
        arith,
        delivered-append kind b.sent (record { kind = j; entries = e ∷ [] }),
        append-nil (delivered kind b.sent),
        append-nil (delivered kind b.sent ++ (if j == kind then e ∷ [] else [])),
      )
]

flush_each-total :
    (kinds : List String) (kind : String) (b : Batcher)
    → total kind (flush_each kinds b) ≡ total kind b
unfolding flush_each
flush_each-total [] kind b = refl
flush_each-total (j ∷ kinds) kind b = flush_each-total kinds kind (flush j b) ∙ flush-total j kind b

act-total :
    (a : Action) (kind : String) (b : Batcher)
    → IsDirect b
    → total kind (act a b) ≡ total kind b ++ added_events kind (a ∷ [])
unfolding act
act-total (added j e) kind b direct = add-total j kind e b direct
act-total (fired j) kind b direct = flush-total j kind b ∙ sym (append-nil (total kind b))
act-total flushed_all kind b direct =
    unfold flush_all in
    (flush_each-total (keys b.pending) kind (record b { timers = [] })
      ∙ sym (append-nil (total kind b)))

flush-IsDirect : (j : String) (b : Batcher) → IsDirect b → IsDirect (flush j b)
flush-IsDirect j b direct = go (waiting j b) refl
  where
    go : (es : List Event) → waiting j b ≡ es → IsDirect (flush j b)
    go [] h = unfold flush remove in ground arith
    go (e ∷ es) h = unfold flush remove in ground arith

flush_each-IsDirect :
    (kinds : List String) (b : Batcher) → IsDirect b → IsDirect (flush_each kinds b)
unfolding flush_each
flush_each-IsDirect [] b direct = direct
flush_each-IsDirect (j ∷ kinds) b direct =
    flush_each-IsDirect kinds (flush j b) (flush-IsDirect j b direct)

pub act-IsDirect : (a : Action) (b : Batcher) → IsDirect b → IsDirect (act a b)
unfolding act
act-IsDirect (added j e) b direct = unfold add in ground arith
act-IsDirect (fired j) b direct = flush-IsDirect j b direct
act-IsDirect flushed_all b direct =
    unfold flush_all in flush_each-IsDirect (keys b.pending) (record b { timers = [] }) direct

added_events-cons :
    (kind : String) (a : Action) (rest : List Action)
    → added_events kind (a ∷ rest) ≡ added_events kind (a ∷ []) ++ added_events kind rest
added_events-cons kind (added j e) rest = ground arith
added_events-cons kind (fired j) rest = refl
added_events-cons kind flushed_all rest = refl

run-total :
    (acts : List Action) (kind : String) (b : Batcher)
    → IsDirect b
    → total kind (run acts b) ≡ total kind b ++ added_events kind acts
unfolding run
run-total [] kind b direct = sym (append-nil (total kind b))
run-total (a ∷ rest) kind b direct =
    run-total rest kind (act a b) (act-IsDirect a b direct)
    ∙ ap (λ x. x ++ added_events kind rest) (act-total a kind b direct)
    ∙ append_assoc (total kind b) (added_events kind (a ∷ [])) (added_events kind rest)
    ∙ ap (λ x. total kind b ++ x) (sym (added_events-cons kind a rest))

-- Whatever the window, and however adds, timers and calls of `flush_all` come, the events of a kind in the
-- emails, followed by those that wait, are the events of that kind that were added, in their order.
pub nothing_lost :
    (window : ℕ) (acts : List Action) (kind : String)
    → let b = run acts (new window) in
      delivered kind b.sent ++ waiting kind b ≡ added_events kind acts
nothing_lost window acts kind =
    run-total acts kind (new window) (λ _. unfold new in refl) ∙ (unfold new get in refl)
