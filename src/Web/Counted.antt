-- ===== src/Web/Counted.antt =====
-- The counters of web/app.py against its audit log, over any visits.
use aruba_network_agent.Prelude.{
  ℕ, ◌+◌, String, ◌≡◌, refl, Bool, not, ◌&&◌, none, some, List, [], ◌∷◌, ◌++◌, string_Eq, arith,
  Bool-cases, ◌==◌, Option-cases, inl, inr,
}
use aruba_network_agent.Prelude.Dict.{get, get-put}
use aruba_network_agent.LocalAuth.{get_passkey, find_user_by_credential_id}
use aruba_network_agent.Metrics.{Counters, inc}
use aruba_network_agent.Web.{
  Backends, Session, Server, AuditEntry, login_throttled, login_failed, password_ok_awaiting_2fa,
  login_2fa_failed, login_success, logged_out, password_changed, unknown_credential,
  username_mismatch, assertion_refused, Method, no_method, local, radius, Form, login_form,
  second_form, logout_link, password_form, passkey_begin, passkey_complete, Visit, sends, elsewhere,
  Site, handle, cookie_at, visit, settle_login, login_post, login_2fa_post, logout,
  change_password_post, login_passkey_begin, login_passkey_complete, settle_passkey,
  verify_authentication, is_locked, check_password, next_url,
}
use aruba_network_agent.Web.Earned.{Witnessed, watch}

-- The events that a counter counts.
abbrev is_success : AuditEntry → ℕ
is_success (login_success u) = 1
is_success _ = 0

abbrev is_failure : AuditEntry → ℕ
is_failure (login_failed u) = 1
is_failure (login_2fa_failed u) = 1
is_failure (assertion_refused u) = 1
is_failure _ = 0

abbrev is_throttled : AuditEntry → ℕ
is_throttled (login_throttled u) = 1
is_throttled _ = 0

abbrev tally : (AuditEntry → ℕ) → List AuditEntry → ℕ
tally p [] = 0
tally p (e ∷ es) = p e + tally p es

-- The three counters count the sign-ins, the failures and the refusals to try of the audit log.
abbrev pub IsCounted : Counters → List AuditEntry → Type 0
IsCounted d es =
    (get "login_success_total" d ≡ some (tally is_success es))
    × (get "login_failures_total" d ≡ some (tally is_failure es))
    × (get "login_throttled_total" d ≡ some (tally is_throttled es))

tally-append :
    (p : AuditEntry → ℕ) (es : List AuditEntry) (e : AuditEntry)
    → tally p (es ++ e ∷ []) ≡ tally p es + p e
tally-append p [] e = omega arith
tally-append p (x ∷ es) e = omega (arith, tally-append p es e)

-- An entry that no counter counts.
note-IsCounted :
    (d : Counters) (es : List AuditEntry) (e : AuditEntry)
    → is_success e ≡ 0
    → is_failure e ≡ 0
    → is_throttled e ≡ 0
    → IsCounted d es
    → IsCounted d (es ++ e ∷ [])
note-IsCounted d es e s f t h = ground (
  arith,
  tally-append is_success es e,
  tally-append is_failure es e,
  tally-append is_throttled es e,
)

success-IsCounted :
    (d : Counters) (es : List AuditEntry) (u : String)
    → IsCounted d es
    → IsCounted (inc "login_success_total" d) (es ++ login_success u ∷ [])
unfolding inc
success-IsCounted d es u h = ground (
  arith,
  tally-append is_success es (login_success u),
  tally-append is_failure es (login_success u),
  tally-append is_throttled es (login_success u),
  get-put "login_success_total" "login_success_total" (tally is_success es + 1) d,
  get-put "login_success_total" "login_failures_total" (tally is_success es + 1) d,
  get-put "login_success_total" "login_throttled_total" (tally is_success es + 1) d,
)

failure-IsCounted :
    (d : Counters) (es : List AuditEntry) (e : AuditEntry)
    → is_success e ≡ 0
    → is_failure e ≡ 1
    → is_throttled e ≡ 0
    → IsCounted d es
    → IsCounted (inc "login_failures_total" d) (es ++ e ∷ [])
unfolding inc
failure-IsCounted d es e s f t h = ground (
  arith,
  tally-append is_success es e,
  tally-append is_failure es e,
  tally-append is_throttled es e,
  get-put "login_failures_total" "login_success_total" (tally is_failure es + 1) d,
  get-put "login_failures_total" "login_failures_total" (tally is_failure es + 1) d,
  get-put "login_failures_total" "login_throttled_total" (tally is_failure es + 1) d,
)

throttled-IsCounted :
    (d : Counters) (es : List AuditEntry) (u : String)
    → IsCounted d es
    → IsCounted (inc "login_throttled_total" d) (es ++ login_throttled u ∷ [])
unfolding inc
throttled-IsCounted d es u h = ground (
  arith,
  tally-append is_success es (login_throttled u),
  tally-append is_failure es (login_throttled u),
  tally-append is_throttled es (login_throttled u),
  get-put "login_throttled_total" "login_success_total" (tally is_throttled es + 1) d,
  get-put "login_throttled_total" "login_failures_total" (tally is_throttled es + 1) d,
  get-put "login_throttled_total" "login_throttled_total" (tally is_throttled es + 1) d,
)

abbrev Counted : Server → Type 0
Counted sv = IsCounted sv.counters sv.audit

settle_login-Counted :
    (now : ℕ) (ip u : String) (next : List ℕ) (method : Method) (must : Bool) (session : Session)
    (sv : Server)
    → Counted sv
    → Counted (settle_login now ip u next method must session sv).server
unfolding settle_login
settle_login-Counted now ip u next no_method must session sv h =
    failure-IsCounted sv.counters sv.audit (login_failed u) refl refl refl h
settle_login-Counted now ip u next local must session sv h =
    let waits = note-IsCounted sv.counters sv.audit (password_ok_awaiting_2fa u) refl refl refl h in
    let done = success-IsCounted sv.counters sv.audit u h in ground arith
settle_login-Counted now ip u next radius must session sv h =
    success-IsCounted sv.counters sv.audit u h

login_post-Counted :
    (b : Backends) (now : ℕ) (ip u : String) (password next : List ℕ) (session : Session)
    (sv : Server)
    → Counted sv
    → Counted (login_post b now ip u password next session sv).server
unfolding login_post
login_post-Counted b now ip u password next session sv h =
    let lock = is_locked now ip u sv.limiter in
    let seen = record sv { limiter = lock.0 } in
    let r = check_password b now u password seen.auth in
    let throttled = throttled-IsCounted sv.counters sv.audit u h in
    let settled =
      settle_login-Counted now ip u (next_url next) r.1 r.2 session (record seen { auth = r.0 })
        h in
    ground arith

login_2fa_post-Counted :
    (b : Backends) (now : ℕ) (code recovery next : List ℕ) (session : Session) (sv : Server)
    → Counted sv
    → Counted (login_2fa_post b now code recovery next session sv).server
unfolding login_2fa_post
login_2fa_post-Counted b now code recovery next session sv h =
    let u = session.pending_user in
    let failed = failure-IsCounted sv.counters sv.audit (login_2fa_failed u) refl refl refl h in
    let done = success-IsCounted sv.counters sv.audit u h in ground arith

settle_passkey-Counted :
    (b : Backends) (now : ℕ) (host : String) (challenge : List ℕ) (id assertion owner : String)
    (session : Session) (sv : Server)
    → Counted sv
    → Counted (settle_passkey b now host challenge id assertion owner session sv).server
unfolding settle_passkey
settle_passkey-Counted b now host challenge id assertion owner session sv h =
    let failed =
      failure-IsCounted sv.counters sv.audit (assertion_refused owner) refl refl refl h in
    let done = success-IsCounted sv.counters sv.audit owner h in
    elim (Option-cases (get_passkey owner id sv.auth)) [
      | inl e ↦ ground arith
      | inr (p, e) ↦ elim (Option-cases (verify_authentication b host challenge assertion p)) [
        | inl f ↦ ground arith
        | inr (n, f) ↦ ground arith
      ]
    ]

login_passkey_complete-Counted :
    (b : Backends) (now : ℕ) (host id assertion : String) (session : Session) (sv : Server)
    → Counted sv
    → Counted (login_passkey_complete b now host id assertion session sv).server
unfolding login_passkey_complete
login_passkey_complete-Counted b now host id assertion session sv h =
    let popped = record session { pk_challenge = none; pk_username = "" } in
    let unknown = note-IsCounted sv.counters sv.audit unknown_credential refl refl refl h in
    elim (Option-cases session.pk_challenge) [
      | inl e ↦ rw e h
      | inr (challenge, e) ↦ elim (Bool-cases (id == "")) [
        | inl f ↦ rw (e, f) h
        | inr f ↦ elim (Option-cases (find_user_by_credential_id id sv.auth)) [
          | inl g ↦ rw (e, f, g) unknown
          | inr (owner, g) ↦
              let other =
                note-IsCounted sv.counters sv.audit (username_mismatch session.pk_username owner)
                  refl refl refl h in
              let settled =
                settle_passkey-Counted b now host challenge id assertion owner popped sv h in
              elim (Bool-cases
                (not (session.pk_username == "") && not (session.pk_username == owner))) [
                  | inl x ↦ rw (e, f, g, x) other
                  | inr x ↦ rw (e, f, g, x) settled
                ]
        ]
      ]
    ]

handle-Counted :
    (b : Backends) (form : Form) (session : Session) (sv : Server)
    → Counted sv
    → Counted (handle b form session sv).server
unfolding handle logout change_password_post login_passkey_begin
handle-Counted b (login_form now ip u password next) session sv h =
    login_post-Counted b now ip u password next session sv h
handle-Counted b (second_form now code recovery next) session sv h =
    login_2fa_post-Counted b now code recovery next session sv h
handle-Counted b logout_link session sv h =
    let out = note-IsCounted sv.counters sv.audit (logged_out session.user) refl refl refl h in
    ground arith
handle-Counted b (password_form now salt current new confirm) session sv h =
    let u = session.user in
    let changed = note-IsCounted sv.counters sv.audit (password_changed u) refl refl refl h in
    ground arith
handle-Counted b (passkey_begin challenge username) session sv h = h
handle-Counted b (passkey_complete now host id assertion) session sv h =
    login_passkey_complete-Counted b now host id assertion session sv h

-- Over any visits, the counters of sign-ins, of failures and of refusals to try stay the numbers of
-- the entries in the audit log that they count: a sign-in by any route; a bad password, second factor
-- or assertion; a lockout.
pub counters_match_audit :
    (b : Backends) (vs : List Visit) (site : Site) (seen : List Witnessed)
    → IsCounted site.server.counters site.server.audit
    → let sv = (watch b vs site seen).0.server in IsCounted sv.counters sv.audit
unfolding watch
counters_match_audit b [] site seen h = h
counters_match_audit b (sends n form ∷ vs) site seen h =
    counters_match_audit b vs (visit b (sends n form) site) ((site, sends n form) ∷ seen)
      (unfold visit in handle-Counted b form (cookie_at site.cookies n) site.server h)
counters_match_audit b (elsewhere request ∷ vs) site seen h =
    counters_match_audit b vs (visit b (elsewhere request) site) ((site, elsewhere request) ∷ seen)
      (unfold visit in h)
