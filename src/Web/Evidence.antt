-- ===== src/Web/Evidence.antt =====
-- What counts as proof of a user's identity in a request to web/app.py, said on the stored hashes,
-- secrets and passkeys, and what the routes that sign in make of it.
use aruba_network_agent.Prelude.{
  ℕ, String, ◌≡◌, ◌⊎◌, Bool, true, false, not, ◌&&◌, ◌||◌, none, some, List, ◌==◌, string_Eq, arith,
  Option-cases, inl, inr, if◌then◌else◌,
}
use aruba_network_agent.Prelude.Dict.{get, get-put_self}
use aruba_network_agent.LocalAuth.{
  verify_password, AuthStore, is_nil, or_nil, normalized, first_match, save_users, authenticate,
  totp_enabled, get_totp_secret, consume_recovery_code, get_passkey, find_user_by_credential_id,
  is_there,
}
use aruba_network_agent.Web.{
  Backends, Session, Server, login_post, settle_login, check_password, check_second, login_2fa_post,
  login_passkey_complete, settle_passkey, verify_authentication, no_method, local, radius,
}

-- The password verifies against the user's stored hash.
abbrev pub knows_password : Backends → String → List ℕ → AuthStore → Bool
knows_password b u password auth =
    b.local_auth_enabled
    && (not (u == "" || is_nil password) && elim (get u auth.users) [
      | none ↦ false
      | some x ↦ verify_password b.scrypt password x.password_hash
    ])

abbrev pub knows_radius : Backends → ℕ → String → List ℕ → Bool
knows_radius b now u password = b.radius_configured && b.radius_accepts now u password

-- The user has a second factor.
abbrev pub is_enrolled : String → AuthStore → Bool
is_enrolled u auth = elim (get u auth.users) [
  | none ↦ false
  | some x ↦ elim x.totp_secret [ none ↦ false | some secret ↦ not (secret == "") ]
]

-- A code for the user's secret, or a recovery code that a stored hash verifies.
abbrev pub knows_second : Backends → ℕ → String → List ℕ → List ℕ → AuthStore → Bool
knows_second b now u code recovery auth = elim (get u auth.users) [
  | none ↦ false
  | some x ↦
      if is_nil code
      then not (is_nil recovery)
        && is_there (first_match b.scrypt (normalized recovery) (or_nil x.totp_recovery))
      else elim x.totp_secret [
        | none ↦ false
        | some secret ↦ not (secret == "") && b.totp_verify now secret code
      ]
]

-- An assertion that the passkey with the id accepts, for the user who owns it.
abbrev pub has_passkey : Backends → String → List ℕ → String → String → String → AuthStore → Bool
has_passkey b host challenge id assertion u auth = elim (get_passkey u id auth) [
  | none ↦ false
  | some p ↦ is_there (b.assertion_verify host challenge assertion p.public_key p.sign_count)
]

authenticate-knows :
    (b : Backends) (now : ℕ) (u : String) (password : List ℕ) (auth : AuthStore)
    → b.local_auth_enabled ≡ true
    → (authenticate b.scrypt now u password auth).1 ≡ knows_password b u password auth
unfolding authenticate
authenticate-knows b now u password auth on = ground arith

authenticate-is_enrolled :
    (b : Backends) (now : ℕ) (u : String) (password : List ℕ) (auth : AuthStore)
    → is_enrolled u (authenticate b.scrypt now u password auth).0 ≡ is_enrolled u auth
unfolding authenticate save_users
authenticate-is_enrolled b now u password auth = elim (Option-cases (get u auth.users)) [
  | inl e ↦ ground arith
  | inr (x, e) ↦ ground (arith, get-put_self u (record x { last_login = some now }) auth.users)
]

check_password-cases :
    (b : Backends) (now : ℕ) (u : String) (password : List ℕ) (auth : AuthStore)
    → let r = check_password b now u password auth in
      (r.1 ≡ no_method)
      ⊎ ((r.1 ≡ radius) × (knows_radius b now u password ≡ true))
      ⊎ ((r.1 ≡ local)
          × (knows_password b u password auth ≡ true)
          × (is_enrolled u r.0 ≡ is_enrolled u auth))
unfolding check_password
check_password-cases b now u password auth =
    let known = authenticate-knows b now u password auth in
    let same = authenticate-is_enrolled b now u password auth in ground arith

-- After `login_post` the session is as it was, or it is the user's, who then gave a password of the
-- RADIUS server or one that is enough, or it waits for a second factor after the right password.
pub login_post-session :
    (b : Backends) (now : ℕ) (ip u : String) (password next : List ℕ) (session : Session)
    (sv : Server)
    → let s = (login_post b now ip u password next session sv).session in
      let enough =
        knows_radius b now u password
        || (knows_password b u password sv.auth && not (is_enrolled u sv.auth)) in
      (s ≡ session)
      ⊎ ((s.user ≡ u) × (s.pending_user ≡ "") × (enough ≡ true))
      ⊎ ((s.user ≡ "") × (s.pending_user ≡ u) × (knows_password b u password sv.auth ≡ true))
unfolding login_post check_password settle_login totp_enabled
login_post-session b now ip u password next session sv =
    let c = check_password-cases b now u password sv.auth in ground arith

-- After `login_2fa_post` the session is as it was, or it is that of the user who was waiting, who then
-- gave a second factor.
pub login_2fa_post-session :
    (b : Backends) (now : ℕ) (code recovery next : List ℕ) (session : Session) (sv : Server)
    → let s = (login_2fa_post b now code recovery next session sv).session in
      (s ≡ session)
      ⊎ ((s.user ≡ session.pending_user)
          × (s.pending_user ≡ "")
          × ((session.pending_user == "") ≡ false)
          × (knows_second b now session.pending_user code recovery sv.auth ≡ true))
unfolding login_2fa_post check_second get_totp_secret consume_recovery_code
login_2fa_post-session b now code recovery next session sv = ground arith

-- After `login_passkey_complete` the session is for the same user as it was, or it is that of the owner
-- of a passkey that accepts the assertion on the challenge of the session.
pub login_passkey_complete-session :
    (b : Backends) (now : ℕ) (host id assertion : String) (session : Session) (sv : Server)
    → let s = (login_passkey_complete b now host id assertion session sv).session in
      ((s.user ≡ session.user) × (s.pending_user ≡ session.pending_user))
      ⊎ ((s.pending_user ≡ "")
          × (elim session.pk_challenge as (λ _. Bool) [
            | none ↦ false
            | some challenge ↦ has_passkey b host challenge id assertion s.user sv.auth
          ]
              ≡ true))
unfolding login_passkey_complete settle_passkey verify_authentication
login_passkey_complete-session b now host id assertion session sv =
    elim (Option-cases session.pk_challenge) [
      | inl e ↦ ground arith
      | inr (challenge, e) ↦ elim (Option-cases (find_user_by_credential_id id sv.auth)) [
        | inl f ↦ ground arith
        | inr (owner, f) ↦ elim (Option-cases (get_passkey owner id sv.auth)) [
          | inl g ↦ ground arith
          | inr (p, g) ↦ ground arith
        ]
      ]
    ]
