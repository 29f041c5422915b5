-- ===== src/Web/Guesses.antt =====
-- Guesses at the second factor, `login_2fa_post` of web/app.py.
use aruba_network_agent.Prelude.{
  ℕ, String, ◌≡◌, refl, true, false, some, List, [], ◌∷◌, ◌==◌, string_Eq, arith, All,
}
use aruba_network_agent.LocalAuth.{is_nil, get_totp_secret}
use aruba_network_agent.Web.{Backends, Session, Server, login_2fa_post, check_second}

-- A guess at a code of the app, with its time.
abbrev pub Guess : Type 0
Guess = ℕ × List ℕ

-- Guesses that are all sent with one session.
unfoldable pub guess_each : Backends → List Guess → Session → Server → Server
unfolding login_2fa_post
guess_each b [] session sv = sv
guess_each b (g ∷ gs) session sv =
    guess_each b gs session (login_2fa_post b g.0 g.1 [] [] session sv).server

guess_each-keeps :
    (b : Backends) (gs : List Guess) (session : Session) (sv : Server)
    → All (λ g. is_nil g.1 ≡ false) gs
    → let r = guess_each b gs session sv in (r.auth ≡ sv.auth) × (r.limiter ≡ sv.limiter)
unfolding guess_each login_2fa_post check_second
guess_each-keeps b [] session sv h = (refl, refl)
guess_each-keeps b (g ∷ gs) session sv h =
    let rest =
      guess_each-keeps b gs session (login_2fa_post b g.0 g.1 [] [] session sv).server h.1 in
    let first = h.0 in ground arith

-- The rate limit does not cover the second factor: any number of guesses at the code leaves the limiter
-- as it was and locks nobody out, and the next right code signs the waiting user in.
pub guesses_are_free :
    (b : Backends) (gs : List Guess) (now : ℕ) (code next : List ℕ) (secret : String)
    (session : Session) (sv : Server)
    → All (λ g. is_nil g.1 ≡ false) gs
    → (session.pending_user == "") ≡ false
    → is_nil code ≡ false
    → get_totp_secret session.pending_user sv.auth ≡ some secret
    → (secret == "") ≡ false
    → b.totp_verify now secret code ≡ true
    → let after = guess_each b gs session sv in
      (after.limiter ≡ sv.limiter)
      × ((login_2fa_post b now code [] next session after).session.user ≡ session.pending_user)
unfolding login_2fa_post check_second
guesses_are_free b gs now code next secret session sv given waits typed has real ok =
    let kept = guess_each-keeps b gs session sv given in ground arith
