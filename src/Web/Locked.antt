-- ===== src/Web/Locked.antt =====
-- `_LoginRateLimiter` of web/app.py against a count of the failures.
use aruba_network_agent.Prelude.{
  ℕ, ◌+◌, ◌≤◌, String, ◌≡◌, ◌∙◌, ap, refl, Bool, false, not, ◌&&◌, ◌||◌, List, [], ◌∷◌, ◌++◌, leb,
  length, length-append, All, ◌==◌, ==_iff, string_Eq, arith, Bool-cases, inl, inr, if◌then◌else◌,
}
use aruba_network_agent.Prelude.Dict.{Dict, get, put, remove, get-put, get-put_self, get-remove}
use aruba_network_agent.Web.{
  Limiter, LimiterCall, checked, failed, succeeded, prune, deque, prune_at, append_at, is_locked,
  limiter_step, limiter_run, record_failure, record_success,
}

-- Whether a later sign-in of the key forgives its failures; `key` reads the address or the user name.
abbrev pub forgiven : (String → String → String) → String → List LimiterCall → Bool
forgiven key k [] = false
forgiven key k (succeeded now ip u ∷ cs) = key ip u == k || forgiven key k cs
forgiven key k (checked now ip u ∷ cs) = forgiven key k cs
forgiven key k (failed now ip u ∷ cs) = forgiven key k cs

-- The failures of the key within the window before `now` that no later sign-in forgives.
abbrev pub recent_failures : (String → String → String) → ℕ → ℕ → String → List LimiterCall → ℕ
recent_failures key window now k [] = 0
recent_failures key window now k (failed t ip u ∷ cs) =
    recent_failures key window now k cs
    + (if key ip u == k && leb now (t + window) && not (forgiven key k cs) then 1 else 0)
recent_failures key window now k (checked t ip u ∷ cs) = recent_failures key window now k cs
recent_failures key window now k (succeeded t ip u ∷ cs) = recent_failures key window now k cs

abbrev pub by_ip : String → String → String
by_ip ip u = ip

abbrev pub by_name : String → String → String
by_name ip u = u

abbrev time_of : LimiterCall → ℕ
time_of (checked now ip u) = now
time_of (failed now ip u) = now
time_of (succeeded now ip u) = now

-- The clock does not go back, from `now` to `later`.
abbrev pub InOrder : ℕ → List LimiterCall → ℕ → Type 0
InOrder now [] later = now ≤ later
InOrder now (c ∷ cs) later = (now ≤ time_of c) × InOrder (time_of c) cs later

InOrder-le : (now : ℕ) (cs : List LimiterCall) (later : ℕ) → InOrder now cs later → now ≤ later
InOrder-le now [] later h = h
InOrder-le now (c ∷ cs) later h = let rest = InOrder-le (time_of c) cs later h.1 in ground arith

prune-prune :
    (window t later : ℕ) (ts : List ℕ)
    → t ≤ later
    → prune window later (prune window t ts) ≡ prune window later ts
unfolding prune
prune-prune window t later [] le = refl
prune-prune window t later (x ∷ ts) le = ground (arith, prune-prune window t later ts le)

prune-All :
    (window t now : ℕ) (ts : List ℕ)
    → All (λ x. x ≤ now) ts
    → All (λ x. x ≤ now) (prune window t ts)
unfolding prune
prune-All window t now [] h = tt
prune-All window t now (x ∷ ts) h = ground (arith, prune-All window t now ts h.1)

append-All :
    (now later : ℕ) (ts : List ℕ)
    → All (λ x. x ≤ now) ts
    → now ≤ later
    → All (λ x. x ≤ later) ts × All (λ x. x ≤ later) (ts ++ later ∷ [])
append-All now later [] h le = (tt, (omega arith, tt))
append-All now later (x ∷ ts) h le =
    let rest = append-All now later ts h.1 le in
    ((omega (arith, h.0), rest.0), (omega (arith, h.0), rest.1))

length-append-prune :
    (window t later : ℕ) (ts : List ℕ)
    → All (λ x. x ≤ t) ts
    → length (prune window later (ts ++ t ∷ []))
      ≡ length (prune window later ts) + (if leb later (t + window) then 1 else 0)
unfolding prune
length-append-prune window t later [] h = ground arith
length-append-prune window t later (x ∷ ts) h =
    ground (arith, length-append-prune window t later ts h.1, length-append ts (t ∷ []))

-- A call as it changes one of the two dictionaries.
abbrev table_step :
    (String → String → String) → ℕ → LimiterCall → Dict String (List ℕ) → Dict String (List ℕ)
table_step key window (checked t ip u) d = prune_at window t (key ip u) d
table_step key window (failed t ip u) d = append_at t (key ip u) d
table_step key window (succeeded t ip u) d = remove (key ip u) d

abbrev table_run :
    (String → String → String) → ℕ → List LimiterCall → Dict String (List ℕ) → Dict String (List ℕ)
table_run key window [] d = d
table_run key window (c ∷ cs) d = table_run key window cs (table_step key window c d)

limiter_run-tables :
    (cs : List LimiterCall) (l : Limiter)
    → let r = limiter_run cs l in
      (r.max ≡ l.max)
      × (r.window ≡ l.window)
      × (r.by_ip ≡ table_run by_ip l.window cs l.by_ip)
      × (r.by_user ≡ table_run by_name l.window cs l.by_user)
unfolding limiter_run limiter_step is_locked record_failure record_success
limiter_run-tables [] l = (refl, refl, refl, refl)
limiter_run-tables (checked t ip u ∷ cs) l = limiter_run-tables cs (limiter_step (checked t ip u) l)
limiter_run-tables (failed t ip u ∷ cs) l = limiter_run-tables cs (limiter_step (failed t ip u) l)
limiter_run-tables (succeeded t ip u ∷ cs) l =
    limiter_run-tables cs (limiter_step (succeeded t ip u) l)

deque-put :
    (k j : String) (ts : List ℕ) (d : Dict String (List ℕ))
    → deque k (put j ts d) ≡ (if j == k then ts else deque k d)
deque-put k j ts d = ground (arith, get-put j k ts d)

deque-remove :
    (k j : String) (d : Dict String (List ℕ))
    → deque k (remove j d) ≡ (if j == k then [] else deque k d)
deque-remove k j d = ground (arith, get-remove j k d)

-- What a call leaves of the key's times, counted at a later time.
table_step-count :
    (key : String → String → String) (window later : ℕ) (k : String) (c : LimiterCall)
    (d : Dict String (List ℕ))
    → All (λ x. x ≤ time_of c) (deque k d)
    → time_of c ≤ later
    → let left = deque k (table_step key window c d) in
      let count = length (prune window later (deque k d)) in
      All (λ x. x ≤ time_of c) left
      × (length (prune window later left)
          ≡ recent_failures key window later k (c ∷ [])
            + (if forgiven key k (c ∷ []) then 0 else count))
table_step-count key window later k (checked t ip u) d h le =
    let there = deque-put k (key ip u) (prune window t (deque (key ip u) d)) d in
    elim (Bool-cases (key ip u == k)) [
      | inl e ↦
          let same = (==_iff (key ip u) k).0 e in
          rw (there, e, same)
            (
              prune-All window t t (deque k d) h,
              ground (arith, prune-prune window t later (deque k d) le),
            )
      | inr e ↦ rw (there, e) (h, ground arith)
    ]
table_step-count key window later k (failed t ip u) d h le =
    let there = deque-put k (key ip u) (deque (key ip u) d ++ t ∷ []) d in
    elim (Bool-cases (key ip u == k)) [
      | inl e ↦
          let same = (==_iff (key ip u) k).0 e in
          rw (there, e, same)
            (
              (append-All t t (deque k d) h (omega arith)).1,
              ground (arith, length-append-prune window t later (deque k d) h),
            )
      | inr e ↦ rw (there, e) (h, ground arith)
    ]
table_step-count key window later k (succeeded t ip u) d h le =
    let there = deque-remove k (key ip u) d in
    elim (Bool-cases (key ip u == k)) [
      | inl e ↦ rw (there, e) (tt, unfold prune in ground arith)
      | inr e ↦ rw (there, e) (h, ground arith)
    ]

time-All :
    (now later : ℕ) (ts : List ℕ) → All (λ x. x ≤ now) ts → now ≤ later → All (λ x. x ≤ later) ts
time-All now later ts h le = (append-All now later ts h le).0

-- What a first call adds to the failures that are counted.
recent_failures-cons :
    (key : String → String → String) (window later : ℕ) (k : String) (c : LimiterCall)
    (cs : List LimiterCall)
    → (recent_failures key window later k (c ∷ cs)
        ≡ recent_failures key window later k cs
          + (if forgiven key k cs then 0 else recent_failures key window later k (c ∷ [])))
      × (forgiven key k (c ∷ cs) ≡ (forgiven key k (c ∷ []) || forgiven key k cs))
recent_failures-cons key window later k (checked t ip u) cs = ground arith
recent_failures-cons key window later k (failed t ip u) cs = ground arith
recent_failures-cons key window later k (succeeded t ip u) cs = ground arith

chain :
    (x m n r r' rc : ℕ) (fc f1 f : Bool)
    → x ≡ r + (if f then 0 else m)
    → m ≡ r' + (if f1 then 0 else n)
    → rc ≡ r + (if f then 0 else r')
    → fc ≡ (f1 || f)
    → x ≡ rc + (if fc then 0 else n)
chain x m n r r' rc fc f1 f a b c d = ground arith

table_run-count :
    (key : String → String → String) (window now later : ℕ) (k : String) (cs : List LimiterCall)
    (d : Dict String (List ℕ))
    → All (λ x. x ≤ now) (deque k d)
    → InOrder now cs later
    → length (prune window later (deque k (table_run key window cs d)))
      ≡ recent_failures key window later k cs
        + (if forgiven key k cs then 0 else length (prune window later (deque k d)))
table_run-count key window now later k [] d h o = omega arith
table_run-count key window now later k (c ∷ cs) d h o =
    let le = InOrder-le (time_of c) cs later o.1 in
    let step =
      table_step-count key window later k c d (time-All now (time_of c) (deque k d) h o.0) le in
    let rest =
      table_run-count key window (time_of c) later k cs (table_step key window c d) step.0 o.1 in
    let here = step.1 in
    let cons = recent_failures-cons key window later k c cs in
    chain _ _ _ _ _ _ _ (forgiven key k (c ∷ [])) (forgiven key k cs) rest here cons.0 cons.1

is_locked-length :
    (now : ℕ) (ip u : String) (l : Limiter)
    → (is_locked now ip u l).1 ≡ (
        leb l.max (length (prune l.window now (deque ip l.by_ip)))
        || leb l.max (length (prune l.window now (deque u l.by_user))))
unfolding is_locked
is_locked-length now ip u l =
    let ips = get-put_self ip (prune l.window now (deque ip l.by_ip)) l.by_ip in
    let users = get-put_self u (prune l.window now (deque u l.by_user)) l.by_user in ground arith

-- From a limiter with no entries, after any calls at times that do not go back: an address and a user
-- name are locked out exactly if the failures of either within the window, those not counted that a
-- later sign-in from the address or of the name forgives, reach the limit.
pub locked_iff_failures :
    (cs : List LimiterCall) (now : ℕ) (ip u : String) (l : Limiter)
    → l.by_ip ≡ []
    → l.by_user ≡ []
    → InOrder 0 cs now
    → (is_locked now ip u (limiter_run cs l)).1 ≡ (
        leb l.max (recent_failures by_ip l.window now ip cs)
        || leb l.max (recent_failures by_name l.window now u cs))
unfolding get prune
locked_iff_failures cs now ip u l no_ip no_user o =
    let r = limiter_run cs l in
    let tables = limiter_run-tables cs l in
    let ips = table_run-count by_ip l.window 0 now ip cs [] tt o in
    let users = table_run-count by_name l.window 0 now u cs [] tt o in
    let locked = is_locked-length now ip u r in
    let ip_start : r.by_ip ≡ table_run by_ip l.window cs [] =
      tables.2 ∙ ap (table_run by_ip l.window cs) no_ip in
    let user_start : r.by_user ≡ table_run by_name l.window cs [] =
      tables.3 ∙ ap (table_run by_name l.window cs) no_user in
    let max = tables.0 in
    let window = tables.1 in
    rw (locked, max, window, ip_start, user_start, ips, users) (ground arith)
