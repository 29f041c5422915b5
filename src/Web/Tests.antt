-- ===== src/Web/Tests.antt =====
-- The theorems on web/app.py at a user with a second factor, whose code is 123456.
use aruba_network_agent.Prelude.{
  ◌≡◌, refl, true, false, not, ◌||◌, none, some, List, [], ◌∷◌, string_Eq, nat_eq, leb, length,
  arith, if◌then◌else◌,
}
use aruba_network_agent.Prelude.Dict.{get, put}
use aruba_network_agent.Prelude.Text.{codes, same_text, strip, drop, starts_with}
use aruba_network_agent.LocalAuth.{
  Scrypt, encoded, User, new_user, authenticate, verify_password, must_change_password,
  totp_enabled, get_totp_secret, save_users,
}
use aruba_network_agent.ApiTokens.{Token, TokenStore, revoke, answer_each, is_listed}
use aruba_network_agent.Metrics.{no_counts}
use aruba_network_agent.Web.{
  LimiterCall, checked, failed, succeeded, login_limiter, limiter_run, is_locked, Session,
  empty_session, Server, Backends, login_form, second_form, Visit, sends, Site, visit, handle,
  cookie_at, login_post, next_url, check_password, settle_login, login_2fa_post, check_second,
  prune, require_login, as_user, exempt, require_session_or_scope,
}
use aruba_network_agent.Web.Locked.{InOrder, by_ip, by_name, recent_failures, locked_iff_failures}
use aruba_network_agent.Web.Earned.{watch, proved, views_are_earned}
use aruba_network_agent.Web.Counted.{IsCounted, counters_match_audit}
use aruba_network_agent.Web.Scoped.{serves, IsBacked, revoked_token_refused}
use aruba_network_agent.Web.Guesses.{Guess, guess_each, guesses_are_free}

abbrev by_length : Scrypt
by_length cost password salt = if nat_eq (length password) 8 then "eight" else "other"

abbrev services : Backends
services = record {
  scrypt = by_length;
  local_auth_enabled = true;
  radius_configured = false;
  radius_accepts = λ now u password. false;
  totp_verify = λ now secret code. same_text code (codes "123456");
  assertion_verify = λ host challenge assertion key old. none;
}

abbrev ops : User
ops = record (new_user 1 "ops" (encoded 16384 "s" "eight") false) { totp_secret = some "JBSW" }

abbrev server : Server
server = record {
  auth = record { users = ("ops", ops) ∷ []; file = ops ∷ [] };
  limiter = login_limiter;
  counters = no_counts;
  audit = [];
}

abbrev site : Site
site = record { server = server; cookies = [] }

abbrev visits : List Visit
visits =
    sends 0 (login_form 10 "10.0.0.9" "ops" (codes "operator") (codes "/topology"))
    ∷ sends 0 (second_form 20 (codes "123456") [] (codes "/topology"))
    ∷ []

ops_signed_in :
    require_login
      (codes "/topology")
      "topology"
      (cookie_at (watch services visits site []).0.cookies 0)
    ≡ as_user "ops"
unfolding require_login starts_with cookie_at watch visit handle login_post is_locked prune
    check_password authenticate verify_password must_change_password save_users settle_login
    totp_enabled get put login_2fa_post check_second get_totp_secret next_url same_text
ops_signed_in = refl

views_are_earned_example :
    let r = watch services visits site [] in
    let cookie = cookie_at r.0.cookies 0 in
    (cookie.user ≡ "ops")
    × (proved services r.1 "ops" ≡ true)
    × ((not cookie.must_change || is_listed "topology" exempt) ≡ true)
views_are_earned_example =
    views_are_earned services visits site 0 (codes "/topology") "topology" "ops" refl ops_signed_in

counters_match_audit_example :
    let sv = (watch services visits site []).0.server in IsCounted sv.counters sv.audit
counters_match_audit_example =
    counters_match_audit services visits site [] (unfold get in (refl, refl, refl))

abbrev calls : List LimiterCall
calls =
    failed 100 "10.0.0.9" "ops"
    ∷ failed 200 "10.0.0.9" "root"
    ∷ checked 1050 "10.0.0.9" "ops"
    ∷ failed 1060 "10.0.0.8" "ops"
    ∷ succeeded 1070 "10.0.0.8" "admin"
    ∷ []

calls-InOrder : InOrder 0 calls 1080
calls-InOrder = ground arith

locked_iff_failures_example :
    (is_locked 1080 "10.0.0.9" "ops" (limiter_run calls login_limiter)).1 ≡ (
      leb 5 (recent_failures by_ip 900 1080 "10.0.0.9" calls)
      || leb 5 (recent_failures by_name 900 1080 "ops" calls))
locked_iff_failures_example =
    locked_iff_failures calls 1080 "10.0.0.9" "ops" login_limiter refl refl calls-InOrder

abbrev scraper : Token
scraper = record {
  id = "tok_1";
  name = "scraper";
  scopes = "state.read" ∷ [];
  hash = encoded 16384 "s" "eight";
  created = 1;
  created_by = "ops";
  last_used = none;
}

abbrev one_token : TokenStore
one_token = record { tokens = ("tok_1", scraper) ∷ []; file = scraper ∷ [] }

revoked_token_refused_example :
    let after = answer_each by_length [] (revoke "tok_1" one_token).0 in
    let header = codes "Bearer aat_abcd" in
    let verdict =
      (require_session_or_scope by_length 9 "state.read" header empty_session after).1 in
    (serves "tok_1" verdict ≡ false)
    × IsBacked by_length 9 "state.read" (strip (drop 7 header)) empty_session after verdict
revoked_token_refused_example =
    revoked_token_refused by_length "tok_1" [] 9 "state.read" (codes "Bearer aat_abcd")
      empty_session one_token tt

abbrev waiting : Session
waiting = record empty_session { pending_user = "ops" }

abbrev guesses : List Guess
guesses = (1, codes "111111") ∷ (2, codes "222222") ∷ []

guesses_are_free_example :
    let after = guess_each services guesses waiting server in
    (after.limiter ≡ server.limiter)
    × ((login_2fa_post services 3 (codes "123456") [] (codes "/") waiting after).session.user
        ≡ "ops")
guesses_are_free_example =
    guesses_are_free services guesses 3 (codes "123456") (codes "/") "JBSW" waiting server
      (refl, (refl, tt)) refl refl (unfold get_totp_secret get in refl) refl
      (unfold same_text in refl)
