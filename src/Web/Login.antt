-- ===== src/Web/Login.antt =====
-- The routes of web/app.py that sign a user in and out. A form's user name and code are as `strip`
-- leaves them; `now` is the clock.
use aruba_network_agent.Prelude.{
  ℕ, String, Bool, false, not, ◌&&◌, ◌||◌, none, some, List, [], ◌∷◌, ◌++◌, ◌==◌, string_Eq,
  if◌then◌else◌,
}
use aruba_network_agent.Prelude.Text.{codes, starts_with}
use aruba_network_agent.LocalAuth.{
  AuthStore, is_nil, authenticate, must_change_password, totp_enabled, get_totp_secret,
  consume_recovery_code,
}
use aruba_network_agent.Metrics.{inc}
use aruba_network_agent.Web.Throttle.{is_locked, record_failure, record_success}
use aruba_network_agent.Web.Data.{
  Method, no_method, local, radius, Session, empty_session, signed_in, AuditEntry, login_throttled,
  login_failed, password_ok_awaiting_2fa, login_2fa_failed, login_success, logged_out, Server,
  login_page, second_page, change_page, path, Response, status, redirect, Answer, Backends,
}

-- `url_for("dashboard")`
abbrev pub dashboard : List ℕ
dashboard = codes "/"

-- The target after a sign-in: the form's, if it is a path within the application.
unfoldable pub next_url : List ℕ → List ℕ
unfolding starts_with
next_url next =
    let url = if is_nil next then dashboard else next in
    if not (starts_with (codes "/") url) || starts_with (codes "//") url then dashboard else url

abbrev pub note : AuditEntry → Server → Server
note e sv = record sv { audit = sv.audit ++ e ∷ [] }

abbrev pub count : String → Server → Server
count name sv = record sv { counters = inc name sv.counters }

abbrev pub after_login : Bool → List ℕ → Response
after_login must_change next = if must_change then redirect change_page else redirect (path next)

-- What the backends say of a name and password: the method, and whether the password must change.
unfoldable pub check_password :
    Backends → ℕ → String → List ℕ → AuthStore → AuthStore × Method × Bool
unfolding authenticate must_change_password
check_password b now username password auth =
    let r = authenticate b.scrypt now username password auth in
    if b.local_auth_enabled && r.1
    then (r.0, local, must_change_password username r.0)
    else if b.radius_configured && b.radius_accepts now username password
    then (auth, radius, false)
    else (auth, no_method, false)

-- The part of `login_post` after the backends have answered.
unfoldable pub settle_login :
    ℕ → String → String → List ℕ → Method → Bool → Session → Server → Answer
unfolding record_failure record_success inc totp_enabled
settle_login now ip username next no_method must_change session sv = record {
  server = count "login_failures_total" (
      note (login_failed username)
        (record sv { limiter = record_failure now ip username sv.limiter }));
  session = session;
  response = redirect login_page;
}
settle_login now ip username next local must_change session sv =
    let cleared = record sv { limiter = record_success ip username sv.limiter } in
    if totp_enabled username sv.auth
    then record {
      server = note (password_ok_awaiting_2fa username) cleared;
      session = record empty_session { pending_user = username; pending_must_change = must_change };
      response = redirect second_page;
    }
    else record {
      server = note (login_success username) (count "login_success_total" cleared);
      session = signed_in username local must_change;
      response = after_login must_change next;
    }
settle_login now ip username next radius must_change session sv =
    let cleared = record sv { limiter = record_success ip username sv.limiter } in
    record {
      server = note (login_success username) (count "login_success_total" cleared);
      session = signed_in username radius must_change;
      response = after_login must_change next;
    }

unfoldable pub login_post :
    Backends → ℕ → String → String → List ℕ → List ℕ → Session → Server → Answer
unfolding is_locked next_url check_password settle_login
login_post b now ip username password next session sv =
    let lock = is_locked now ip username sv.limiter in
    let seen = record sv { limiter = lock.0 } in
    let refused : Answer = record {
      server = seen;
      session = session;
      response = redirect login_page;
    } in
    if lock.1
    then record {
      server = count "login_throttled_total" (note (login_throttled username) seen);
      session = session;
      response = status 429;
    }
    else if username == "" || is_nil password
    then refused
    else if not b.local_auth_enabled && not b.radius_configured
    then refused
    else let r = check_password b now username password seen.auth in
      settle_login now ip username (next_url next) r.1 r.2 session (record seen { auth = r.0 })

-- The two ways to pass the second factor: a code of the app, and a recovery code.
unfoldable pub check_second : Backends → ℕ → String → List ℕ → List ℕ → AuthStore → AuthStore × Bool
unfolding get_totp_secret consume_recovery_code
check_second b now username code recovery auth =
    if not (is_nil code)
    then (
      auth,
      elim (get_totp_secret username auth) [
        | none ↦ false
        | some secret ↦ not (secret == "") && b.totp_verify now secret code
      ],
    )
    else if not (is_nil recovery)
    then consume_recovery_code b.scrypt username recovery auth
    else (auth, false)

unfoldable pub login_2fa_post : Backends → ℕ → List ℕ → List ℕ → List ℕ → Session → Server → Answer
unfolding next_url check_second inc
login_2fa_post b now code recovery next session sv =
    let username = session.pending_user in
    let r = check_second b now username code recovery sv.auth in
    let checked = record sv { auth = r.0 } in
    if username == ""
    then record { server = sv; session = session; response = redirect login_page }
    else if not r.1
    then record {
      server = count "login_failures_total" (note (login_2fa_failed username) checked);
      session = session;
      response = redirect second_page;
    }
    else record {
      server = note (login_success username) (count "login_success_total" checked);
      session = signed_in username local session.pending_must_change;
      response = after_login session.pending_must_change (next_url next);
    }

unfoldable pub logout : Session → Server → Answer
logout session sv = record {
  server = if session.user == "" then sv else note (logged_out session.user) sv;
  session = empty_session;
  response = redirect login_page;
}
