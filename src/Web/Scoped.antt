-- ===== src/Web/Scoped.antt =====
-- `require_session_or_scope` of web/app.py over the tokens of api_tokens.py.
use aruba_network_agent.Prelude.{
  ℕ, String, ◌≡◌, Bool, true, false, some, List, ◌==◌, string_Eq, ==_iff, arith,
}
use aruba_network_agent.Prelude.Text.{strip, drop}
use aruba_network_agent.LocalAuth.{Scrypt}
use aruba_network_agent.ApiTokens.{
  TokenStore, TokenCall, authenticate_token, has_scope, revoke, answer_each,
}
use aruba_network_agent.ApiTokens.Revoked.{IsRetired, revoked_for_good}
use aruba_network_agent.Web.{Session, Verdict, as_token, require_session_or_scope}

-- The token for which a request is let through.
abbrev pub serves : String → Verdict → Bool
serves id (as_token g) = g.id == id
serves id _ = false

-- What a token that a request is let through for has to show.
abbrev pub IsBacked : Scrypt → ℕ → String → List ℕ → Session → TokenStore → Verdict → Type 0
IsBacked scrypt now scope cleartext session tokens (as_token g) =
    (session.user ≡ "")
    × (has_scope g.scopes scope ≡ true)
    × ((authenticate_token scrypt now cleartext tokens).1 ≡ some g)
IsBacked scrypt now scope cleartext session tokens _ = Unit

-- `require_session_or_scope` lets a request through for a token only if there is no session, and only
-- with a token that the store accepts from the header and that carries the scope; and after a token is
-- revoked, and after any further calls of the store that do not mint its id again, it lets none through
-- for this id, whatever the header, the session and the scope.
pub revoked_token_refused :
    (scrypt : Scrypt) (id : String) (cs : List TokenCall) (now : ℕ) (scope : String)
    (header : List ℕ) (session : Session) (s : TokenStore)
    → IsRetired id cs
    → let after = answer_each scrypt cs (revoke id s).0 in
      let verdict = (require_session_or_scope scrypt now scope header session after).1 in
      let cleartext = strip (drop 7 header) in
      (serves id verdict ≡ false) × IsBacked scrypt now scope cleartext session after verdict
unfolding require_session_or_scope
revoked_token_refused scrypt id cs now scope header session s r =
    let after = answer_each scrypt cs (revoke id s).0 in
    let cleartext = strip (drop 7 header) in
    let gone = revoked_for_good scrypt id cs now cleartext s r in
    (ground arith, ground (arith, ==_iff session.user ""))
