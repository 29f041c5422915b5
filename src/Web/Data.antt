-- ===== src/Web/Data.antt =====
-- What a request of web/app.py reads and writes: the Flask session, the parts of the server, and
-- the services that it asks.
use aruba_network_agent.Prelude.{ℕ, String, Bool, false, Option, none, List}
use aruba_network_agent.LocalAuth.{Scrypt, AuthStore}
use aruba_network_agent.Metrics.{Counters}
use aruba_network_agent.Web.Throttle.{Limiter}

-- `auth_method`
pub data Method : Type 0 where
  no_method : Method
  local : Method
  radius : Method

-- The session; a text that is missing is the empty one, as `session.get` is tested for truth.
pub record Session : Type 0 where
  pub user : String
  pub auth_method : Method
  pub must_change : Bool
  pub pending_user : String
  pub pending_must_change : Bool
  pub pk_challenge : Option (List ℕ)
  pub pk_username : String

-- `session.clear()`
abbrev pub empty_session : Session
empty_session = record {
  user = "";
  auth_method = no_method;
  must_change = false;
  pending_user = "";
  pending_must_change = false;
  pk_challenge = none;
  pk_username = "";
}

-- The session that a sign-in establishes.
abbrev pub signed_in : String → Method → Bool → Session
signed_in username method must_change = record empty_session {
  user = username;
  auth_method = method;
  must_change = must_change;
}

-- The entries of the audit log, by their events, with the user name they carry.
pub data AuditEntry : Type 0 where
  login_throttled : String → AuditEntry
  login_failed : String → AuditEntry
  password_ok_awaiting_2fa : String → AuditEntry
  login_2fa_failed : String → AuditEntry
  login_success : String → AuditEntry
  logged_out : String → AuditEntry
  password_changed : String → AuditEntry
  unknown_credential : AuditEntry
  username_mismatch : String → String → AuditEntry
  assertion_refused : String → AuditEntry

pub record Server : Type 0 where
  pub auth : AuthStore
  pub limiter : Limiter
  pub counters : Counters
  pub audit : List AuditEntry

-- The pages that the server sends a browser to.
pub data Place : Type 0 where
  login_page : Place
  second_page : Place
  change_page : Place
  path : List ℕ → Place

pub data Response : Type 0 where
  page : Response
  status : ℕ → Response
  redirect : Place → Response

-- What a handler leaves and sends.
pub record Answer : Type 0 where
  pub server : Server
  pub session : Session
  pub response : Response

-- The services: the RADIUS server, the check of a code against a TOTP secret, and that of a passkey's
-- assertion (for a host, a challenge, a public key and the count that is known), which gives the
-- new count. What a server answers may depend on the time.
pub record Backends : Type 0 where
  pub scrypt : Scrypt
  pub local_auth_enabled : Bool
  pub radius_configured : Bool
  pub radius_accepts : ℕ → String → List ℕ → Bool
  pub totp_verify : ℕ → String → List ℕ → Bool
  pub assertion_verify : String → List ℕ → String → String → ℕ → Option ℕ
