-- ===== src/Web/Visits.antt =====
-- Requests to web/app.py, from any number of browsers. The session is a signed cookie that the
-- client keeps: a request presents a session that the server has signed, at any time before, or
-- none at all.
use aruba_network_agent.Prelude.{ℕ, zero, suc, String, List, [], ◌∷◌}
use aruba_network_agent.LocalAuth.{Request, serve}
use aruba_network_agent.Web.Data.{Session, empty_session, Server, Answer, Backends}
use aruba_network_agent.Web.Login.{login_post, login_2fa_post, logout}
use aruba_network_agent.Web.Account.{
  change_password_post, login_passkey_begin, login_passkey_complete,
}

pub data Form : Type 0 where
  login_form : ℕ → String → String → List ℕ → List ℕ → Form
  second_form : ℕ → List ℕ → List ℕ → List ℕ → Form
  logout_link : Form
  password_form : ℕ → String → List ℕ → List ℕ → List ℕ → Form
  passkey_begin : List ℕ → String → Form
  passkey_complete : ℕ → String → String → String → Form

unfoldable pub handle : Backends → Form → Session → Server → Answer
handle b (login_form now ip username password next) session sv =
    login_post b now ip username password next session sv
handle b (second_form now code recovery next) session sv =
    login_2fa_post b now code recovery next session sv
handle b logout_link session sv = logout session sv
handle b (password_form now salt current new confirm) session sv =
    change_password_post b now salt current new confirm session sv
handle b (passkey_begin challenge username) session sv =
    login_passkey_begin challenge username session sv
handle b (passkey_complete now host id assertion) session sv =
    login_passkey_complete b now host id assertion session sv

-- The server, and the sessions it has signed, the newest first.
pub record Site : Type 0 where
  pub server : Server
  pub cookies : List Session

-- The session of the cookie with a number; a request without a cookie names none.
unfoldable pub cookie_at : List Session → ℕ → Session
cookie_at [] n = empty_session
cookie_at (s ∷ cookies) zero = s
cookie_at (s ∷ cookies) (suc n) = cookie_at cookies n

-- A form with a cookie, or a change of the user store by the rest of the application.
pub data Visit : Type 0 where
  sends : ℕ → Form → Visit
  elsewhere : Request → Visit

unfoldable pub visit : Backends → Visit → Site → Site
unfolding cookie_at
visit b (sends n form) site =
    let answer = handle b form (cookie_at site.cookies n) site.server in
    record { server = answer.server; cookies = answer.session ∷ site.cookies }
visit b (elsewhere request) site = record site {
  server = record site.server { auth = serve b.scrypt request site.server.auth };
}
