-- ===== src/Web/Guards.antt =====
-- The decorators of web/app.py that guard its routes.
use aruba_network_agent.Prelude.{
  ℕ, String, not, ◌&&◌, none, some, List, [], ◌∷◌, ◌==◌, string_Eq, length, if◌then◌else◌,
}
use aruba_network_agent.Prelude.Text.{codes, starts_with, strip, drop}
use aruba_network_agent.LocalAuth.{Scrypt}
use aruba_network_agent.ApiTokens.{TokenStore, Grant, authenticate_token, has_scope, is_listed}
use aruba_network_agent.Web.Data.{Session}

-- What a guard does with a request: the view runs, for a user or for a token, or an answer is sent.
pub data Verdict : Type 0 where
  as_user : String → Verdict
  as_token : Grant → Verdict
  to_login : Verdict
  to_change : Verdict
  refused : ℕ → Verdict

-- The endpoints that a user who must change the password may use.
abbrev pub exempt : List String
exempt = "change_password" ∷ "change_password_post" ∷ "logout" ∷ []

-- `require_login`
unfoldable pub require_login : List ℕ → String → Session → Verdict
unfolding starts_with
require_login url endpoint session =
    let is_api = starts_with (codes "/api/") url in
    if session.user == ""
    then (if is_api then refused 401 else to_login)
    else if session.must_change && not (is_listed endpoint exempt)
    then (if is_api then refused 403 else to_change)
    else as_user session.user

-- `require_session_or_scope`, over the Authorization header
unfoldable pub require_session_or_scope :
    Scrypt → ℕ → String → List ℕ → Session → TokenStore → TokenStore × Verdict
unfolding starts_with strip drop authenticate_token has_scope
require_session_or_scope scrypt now scope header session tokens =
    let r = authenticate_token scrypt now (strip (drop (length (codes "Bearer ")) header)) tokens in
    if not (session.user == "")
    then (if session.must_change then (tokens, refused 403) else (tokens, as_user session.user))
    else if starts_with (codes "Bearer ") header
    then elim r.1 [
      | none ↦ (r.0, refused 401)
      | some g ↦ if has_scope g.scopes scope then (r.0, as_token g) else (r.0, refused 403)
    ]
    else (tokens, refused 401)
