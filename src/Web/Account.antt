-- ===== src/Web/Account.antt =====
-- The password form and the sign-in with a passkey of web/app.py, over the check of an assertion in
-- aruba_agent/passkeys.py.
use aruba_network_agent.Prelude.{
  ℕ, String, Bool, true, false, not, ◌&&◌, ◌||◌, Option, none, some, List, ◌==◌, string_Eq, ltb,
  leb, length, nat_eq, if◌then◌else◌,
}
use aruba_network_agent.Prelude.Text.{same_text}
use aruba_network_agent.LocalAuth.{
  Passkey, authenticate, must_change_password, change_password, get_passkey,
  update_passkey_after_use, find_user_by_credential_id,
}
use aruba_network_agent.Metrics.{inc}
use aruba_network_agent.Web.Data.{
  Method, no_method, local, radius, Session, signed_in, login_success, password_changed,
  unknown_credential, username_mismatch, assertion_refused, Server, change_page, path, status,
  redirect, Answer, Backends,
}
use aruba_network_agent.Web.Login.{dashboard, note, count}

abbrev pub is_local : Method → Bool
is_local no_method = false
is_local local = true
is_local radius = false

-- `change_password_post`, with the salt that the store draws
unfoldable pub change_password_post :
    Backends → ℕ → String → List ℕ → List ℕ → List ℕ → Session → Server → Answer
unfolding authenticate change_password same_text
change_password_post b now salt current new confirm session sv =
    let username = session.user in
    let r = authenticate b.scrypt now username current sv.auth in
    let known = record sv { auth = r.0 } in
    let w = change_password b.scrypt salt username new r.0 in
    if not (is_local session.auth_method)
    then record { server = sv; session = session; response = redirect (path dashboard) }
    else if not r.1
    then record { server = known; session = session; response = redirect change_page }
    else if not (same_text new confirm) || ltb (length new) 8 || same_text new current
    then record { server = known; session = session; response = redirect change_page }
    else if not w.1
    then record {
      server = record known { auth = w.0 };
      session = session;
      response = redirect change_page;
    }
    else record {
      server = note (password_changed username) (record known { auth = w.0 });
      session = record session { must_change = false };
      response = redirect (path dashboard);
    }

-- `passkeys.verify_authentication`: the new count, or `none` where it raises.
unfoldable pub verify_authentication : Backends → String → List ℕ → String → Passkey → Option ℕ
verify_authentication b host challenge assertion p =
    elim (b.assertion_verify host challenge assertion p.public_key p.sign_count) [
      | none ↦ none
      | some new_count ↦
          if nat_eq new_count 0 && nat_eq p.sign_count 0
          then some new_count
          else if leb new_count p.sign_count
          then none
          else some new_count
    ]

-- `login_passkey_begin`, with the challenge that is drawn
unfoldable pub login_passkey_begin : List ℕ → String → Session → Server → Answer
login_passkey_begin challenge username session sv = record {
  server = sv;
  session = record session { pk_challenge = some challenge; pk_username = username };
  response = status 200;
}

-- `login_passkey_complete` once the credential has an owner
unfoldable pub settle_passkey :
    Backends → ℕ → String → List ℕ → String → String → String → Session → Server → Answer
unfolding get_passkey verify_authentication update_passkey_after_use must_change_password inc
settle_passkey b now host challenge credential_id assertion owner session sv =
    elim (get_passkey owner credential_id sv.auth) [
      | none ↦ record { server = sv; session = session; response = status 500 }
      | some p ↦ elim (verify_authentication b host challenge assertion p) [
        | none ↦ record {
          server = count "login_failures_total" (note (assertion_refused owner) sv);
          session = session;
          response = status 401;
        }
        | some new_count ↦
            let auth = (update_passkey_after_use now owner credential_id new_count sv.auth).0 in
            let used = record sv { auth = auth } in
            record {
              server = note (login_success owner) (count "login_success_total" used);
              session = signed_in owner local (must_change_password owner auth);
              response = status 200;
            }
      ]
    ]

-- `login_passkey_complete`; the challenge is taken out of the session first, and it was encoded by
-- the server, so that it decodes.
unfoldable pub login_passkey_complete :
    Backends → ℕ → String → String → String → Session → Server → Answer
unfolding find_user_by_credential_id settle_passkey
login_passkey_complete b now host credential_id assertion session sv =
    let popped = record session { pk_challenge = none; pk_username = "" } in
    elim session.pk_challenge [
      | none ↦ record { server = sv; session = popped; response = status 400 }
      | some challenge ↦
          if credential_id == ""
          then record { server = sv; session = popped; response = status 400 }
          else elim (find_user_by_credential_id credential_id sv.auth) [
            | none ↦ record {
              server = note unknown_credential sv;
              session = popped;
              response = status 401;
            }
            | some owner ↦
                if not (session.pk_username == "") && not (session.pk_username == owner)
                then record {
                  server = note (username_mismatch session.pk_username owner) sv;
                  session = popped;
                  response = status 401;
                }
                else settle_passkey b now host challenge credential_id assertion owner popped sv
          ]
    ]
