-- ===== src/Web/Earned.antt =====
-- Who gets past `require_login` of web/app.py, over any requests with any cookies.
use aruba_network_agent.Prelude.{
  ℕ, zero, suc, String, ◌≡◌, refl, sym, subst, Bool, true, false, not, ◌&&◌, ◌||◌, none, some, List,
  [], ◌∷◌, ◌==◌, string_Eq, ==_self, ap, All, arith, inl, inr,
}
use aruba_network_agent.Web.{
  Backends, Session, Form, login_form, second_form, logout_link, password_form, passkey_begin,
  passkey_complete, Visit, sends, elsewhere, Site, handle, cookie_at, visit, logout,
  login_passkey_begin, change_password_post, require_login, as_user, exempt,
}
use aruba_network_agent.ApiTokens.{is_listed}
use aruba_network_agent.Web.Evidence.{
  knows_password, knows_radius, is_enrolled, knows_second, has_passkey, login_post-session,
  login_2fa_post-session, login_passkey_complete-session,
}

-- A visit, and the site it came to.
abbrev pub Witnessed : Type 0
Witnessed = Site × Visit

-- The visits in order, and what came before, the newest first.
unfoldable pub watch : Backends → List Visit → Site → List Witnessed → Site × List Witnessed
unfolding visit
watch b [] site seen = (site, seen)
watch b (v ∷ vs) site seen = watch b vs (visit b v site) ((site, v) ∷ seen)

abbrev pub any_of {ℓ} : {A : Type ℓ} → (A → Bool) → List A → Bool
any_of p [] = false
any_of p (x ∷ xs) = p x || any_of p xs

-- A visit with the right password of the user.
abbrev pub gave_password : Backends → String → Witnessed → Bool
gave_password b u (site, sends n (login_form now ip name password next)) =
    name == u && knows_password b u password site.server.auth
gave_password b u (site, _) = false

-- A visit with a password that signs the user in alone: the RADIUS server accepts it, or it is right and
-- the user has no second factor.
abbrev pub gave_enough : Backends → String → Witnessed → Bool
gave_enough b u (site, sends n (login_form now ip name password next)) =
    name == u
    && (knows_radius b now u password
        || (knows_password b u password site.server.auth && not (is_enrolled u site.server.auth)))
gave_enough b u (site, _) = false

-- A visit with a second factor of the user, whose session waits for it.
abbrev pub gave_second : Backends → String → Witnessed → Bool
gave_second b u (site, sends n (second_form now code recovery next)) =
    (cookie_at site.cookies n).pending_user == u
    && knows_second b now u code recovery site.server.auth
gave_second b u (site, _) = false

-- A visit with an assertion of a passkey of the user on the challenge of the session.
abbrev pub gave_passkey : Backends → String → Witnessed → Bool
gave_passkey b u (site, sends n (passkey_complete now host id assertion)) =
    elim (cookie_at site.cookies n).pk_challenge [
      | none ↦ false
      | some challenge ↦ has_passkey b host challenge id assertion u site.server.auth
    ]
gave_passkey b u (site, _) = false

-- What the visits so far prove of a user: a password that is enough, a passkey, or both factors.
abbrev pub proved : Backends → List Witnessed → String → Bool
proved b seen u =
    any_of (gave_enough b u) seen
    || any_of (gave_passkey b u) seen
    || (any_of (gave_password b u) seen && any_of (gave_second b u) seen)

-- The users that a session names have proved who they are.
abbrev AreProved : Backends → List Witnessed → String → String → Type 0
AreProved b seen u waiting =
    ((u == "" || proved b seen u) ≡ true)
    × ((waiting == "" || any_of (gave_password b waiting) seen) ≡ true)

abbrev IsEarned : Backends → List Witnessed → Session → Type 0
IsEarned b seen s = AreProved b seen s.user s.pending_user

later-IsEarned :
    (b : Backends) (m : Witnessed) (seen : List Witnessed) (s : Session)
    → IsEarned b seen s
    → IsEarned b (m ∷ seen) s
later-IsEarned b m seen s h = ground arith

later-AllEarned :
    (b : Backends) (m : Witnessed) (seen : List Witnessed) (ss : List Session)
    → All (IsEarned b seen) ss
    → All (IsEarned b (m ∷ seen)) ss
later-AllEarned b m seen [] h = tt
later-AllEarned b m seen (s ∷ ss) h =
    (later-IsEarned b m seen s h.0, later-AllEarned b m seen ss h.1)

cookie_at-IsEarned :
    (b : Backends) (seen : List Witnessed) (cookies : List Session) (n : ℕ)
    → All (IsEarned b seen) cookies
    → IsEarned b seen (cookie_at cookies n)
unfolding cookie_at
cookie_at-IsEarned b seen [] n h = (refl, refl)
cookie_at-IsEarned b seen (s ∷ cookies) zero h = h.0
cookie_at-IsEarned b seen (s ∷ cookies) (suc n) h = cookie_at-IsEarned b seen cookies n h.1

same-IsEarned :
    (b : Backends) (m : Witnessed) (seen : List Witnessed) (s t : Session)
    → IsEarned b seen s
    → t.user ≡ s.user
    → t.pending_user ≡ s.pending_user
    → IsEarned b (m ∷ seen) t
same-IsEarned b m seen s t h user pending =
    subst (λ u. AreProved b (m ∷ seen) u t.pending_user) (sym user)
      (subst (AreProved b (m ∷ seen) s.user) (sym pending) (later-IsEarned b m seen s h))

user-IsEarned :
    (b : Backends) (seen : List Witnessed) (s : Session) (u : String)
    → s.user ≡ u
    → s.pending_user ≡ ""
    → proved b seen u ≡ true
    → IsEarned b seen s
user-IsEarned b seen s u user pending h =
    let here : AreProved b seen u "" = (ground arith, refl) in
    subst (λ u. AreProved b seen u s.pending_user) (sym user)
      (subst (AreProved b seen u) (sym pending) here)

pending-IsEarned :
    (b : Backends) (seen : List Witnessed) (s : Session) (u : String)
    → s.user ≡ ""
    → s.pending_user ≡ u
    → any_of (gave_password b u) seen ≡ true
    → IsEarned b seen s
pending-IsEarned b seen s u user pending h =
    let here : AreProved b seen "" u = (refl, ground arith) in
    subst (λ u. AreProved b seen u s.pending_user) (sym user)
      (subst (AreProved b seen "") (sym pending) here)

-- A form answered with an earned session leaves an earned session.
handle-IsEarned :
    (b : Backends) (site : Site) (n : ℕ) (form : Form) (seen : List Witnessed)
    → IsEarned b seen (cookie_at site.cookies n)
    → IsEarned b
        ((site, sends n form) ∷ seen)
        (handle b form (cookie_at site.cookies n) site.server).session
unfolding handle
handle-IsEarned b site n (login_form now ip u password next) seen h =
    let c = login_post-session b now ip u password next (cookie_at site.cookies n) site.server in
    let m : Witnessed = (site, sends n (login_form now ip u password next)) in
    let old = cookie_at site.cookies n in
    let s = (handle b (login_form now ip u password next) old site.server).session in
    elim c [
      | inl e ↦ same-IsEarned b m seen old s h (ap (λ x. x.user) e) (ap (λ x. x.pending_user) e)
      | inr (inl (user, pending, ok)) ↦
          user-IsEarned b (m ∷ seen) s u user pending (ground (arith, ==_self u))
      | inr (inr (user, pending, ok)) ↦
          pending-IsEarned b (m ∷ seen) s u user pending (ground (arith, ==_self u))
    ]
handle-IsEarned b site n (second_form now code recovery next) seen h =
    let c =
      login_2fa_post-session b now code recovery next (cookie_at site.cookies n) site.server in
    let m : Witnessed = (site, sends n (second_form now code recovery next)) in
    let old = cookie_at site.cookies n in
    let s = (handle b (second_form now code recovery next) old site.server).session in
    elim c [
      | inl e ↦ same-IsEarned b m seen old s h (ap (λ x. x.user) e) (ap (λ x. x.pending_user) e)
      | inr (user, pending, waits, ok) ↦
          let first : any_of (gave_password b old.pending_user) seen ≡ true = ground arith in
          user-IsEarned b (m ∷ seen) s old.pending_user user pending
            (ground (arith, ==_self old.pending_user))
    ]
handle-IsEarned b site n logout_link seen h = unfold logout in (refl, refl)
handle-IsEarned b site n (password_form now salt current new confirm) seen h =
    let m : Witnessed = (site, sends n (password_form now salt current new confirm)) in
    let old = cookie_at site.cookies n in
    let s = (handle b (password_form now salt current new confirm) old site.server).session in
    let same : (s.user ≡ old.user) × (s.pending_user ≡ old.pending_user) =
      unfold change_password_post in ground arith in
    same-IsEarned b m seen old s h same.0 same.1
handle-IsEarned b site n (passkey_begin challenge username) seen h =
    unfold login_passkey_begin in
    later-IsEarned b (site, sends n (passkey_begin challenge username)) seen
      (cookie_at site.cookies n) h
handle-IsEarned b site n (passkey_complete now host id assertion) seen h =
    let c =
      login_passkey_complete-session b now host id assertion (cookie_at site.cookies n)
        site.server in
    let m : Witnessed = (site, sends n (passkey_complete now host id assertion)) in
    let old = cookie_at site.cookies n in
    let s = (handle b (passkey_complete now host id assertion) old site.server).session in
    elim c [
      | inl e ↦ same-IsEarned b m seen old s h e.0 e.1
      | inr (pending, ok) ↦ user-IsEarned b (m ∷ seen) s s.user refl pending (ground arith)
    ]

watch-IsEarned :
    (b : Backends) (vs : List Visit) (site : Site) (seen : List Witnessed)
    → All (IsEarned b seen) site.cookies
    → let r = watch b vs site seen in All (IsEarned b r.1) r.0.cookies
unfolding watch
watch-IsEarned b [] site seen h = h
watch-IsEarned b (sends n form ∷ vs) site seen h =
    let m : Witnessed = (site, sends n form) in
    watch-IsEarned b vs (visit b (sends n form) site) (m ∷ seen) (
      unfold visit in
      (
        handle-IsEarned b site n form seen (cookie_at-IsEarned b seen site.cookies n h),
        later-AllEarned b m seen site.cookies h,
      ))
watch-IsEarned b (elsewhere request ∷ vs) site seen h =
    let m : Witnessed = (site, elsewhere request) in
    watch-IsEarned b vs (visit b (elsewhere request) site) (m ∷ seen)
      (unfold visit in later-AllEarned b m seen site.cookies h)

-- Whatever forms are sent, in any order and with any cookies that the site has signed, while the rest
-- of the application changes the user store: `require_login` lets a request with any of the cookies
-- through as a user only if earlier visits gave, for this user, a password that RADIUS accepts, or the
-- right password while no second factor was enrolled, or a passkey's assertion on the session's
-- challenge, or both the right password and a second factor; and while the session says that the
-- password must change, only to the exempt endpoints.
pub views_are_earned :
    (b : Backends) (vs : List Visit) (site : Site) (n : ℕ) (url : List ℕ) (endpoint u : String)
    → site.cookies ≡ []
    → require_login url endpoint (cookie_at (watch b vs site []).0.cookies n) ≡ as_user u
    → let r = watch b vs site [] in
      let cookie = cookie_at r.0.cookies n in
      (cookie.user ≡ u)
      × (proved b r.1 u ≡ true)
      × ((not cookie.must_change || is_listed endpoint exempt) ≡ true)
unfolding require_login
views_are_earned b vs site n url endpoint u fresh ok =
    let r = watch b vs site [] in
    let nothing : All (IsEarned b []) site.cookies = rw fresh tt in
    let cookie = cookie_at r.0.cookies n in
    let h = cookie_at-IsEarned b r.1 r.0.cookies n (watch-IsEarned b vs site [] nothing) in
    ground arith
