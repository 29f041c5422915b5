-- ===== src/LocalAuth/Staffed.antt =====
-- Runs of requests to the user store of local_auth.py, from its bootstrap on.
use aruba_network_agent.Prelude.{
  ℕ, String, ◌≡◌, refl, false, none, List, [], ◌∷◌, string_Eq, leb, length, arith, Bool-cases, inl,
  inr, ==_iff,
}
use aruba_network_agent.Prelude.Dict.{Dict, get, put, remove, IsUnique}
use aruba_network_agent.LocalAuth.{
  Scrypt, User, AuthStore, open_store, save_users, is_nil, default_username,
  bootstrap_default_admin, Request, serve, serve_each,
}
use aruba_network_agent.LocalAuth.Sound.{
  IsSound, Served, unchanged, wrote, removed, Served-IsSound, load_users-IsUnique,
  load_users-IsNamed,
}
use aruba_network_agent.LocalAuth.Served.{serve-Served, bootstrap-Served}

-- A user is there.
abbrev pub IsStaffed : AuthStore → Type 0
IsStaffed s = is_nil s.users ≡ false

put-is_nil : (k : String) (u : User) (d : Dict String User) → is_nil (put k u d) ≡ false
unfolding put
put-is_nil k u [] = refl
put-is_nil k u (e ∷ d) = ground arith

remove_absent : (k : String) (d : Dict String User) → get k d ≡ none → remove k d ≡ d
unfolding get remove
remove_absent k [] h = refl
remove_absent k (e ∷ d) h = ground (arith, remove_absent k d)

remove-is_nil :
    (k : String) (d : Dict String User)
    → IsUnique d
    → leb (length d) 1 ≡ false
    → is_nil (remove k d) ≡ false
unfolding remove
remove-is_nil k [] u h = ground arith
remove-is_nil k (e ∷ []) u h = ground arith
remove-is_nil k (e ∷ f ∷ d) u h = ground (arith, remove_absent k (f ∷ d), ==_iff e.0 k)

Served-IsStaffed : {s s' : AuthStore} → Served s s' → IsSound s → IsStaffed s → IsStaffed s'
unfolding save_users
Served-IsStaffed (unchanged e) h n = rw e n
Served-IsStaffed {s} (wrote k u named e) h n = rw e (put-is_nil k u s.users)
Served-IsStaffed {s} (removed k many e) h n = rw e (remove-is_nil k s.users h.unique many)

serve_each-IsSound :
    (scrypt : Scrypt) (rs : List Request) (s : AuthStore)
    → IsSound s
    → IsStaffed s
    → IsSound (serve_each scrypt rs s) × IsStaffed (serve_each scrypt rs s)
unfolding serve_each
serve_each-IsSound scrypt [] s h n = (h, n)
serve_each-IsSound scrypt (r ∷ rs) s h n =
    let one = serve-Served scrypt r s h in
    serve_each-IsSound scrypt rs (serve scrypt r s) (Served-IsSound one h)
      (Served-IsStaffed one h n)

open_store-IsSound : (file : List User) → IsSound (open_store file)
unfolding open_store
open_store-IsSound file = record {
  unique = load_users-IsUnique file [] tt;
  named = load_users-IsNamed file [] tt;
  saved = refl;
}

bootstrap-IsStaffed :
    (scrypt : Scrypt) (now : ℕ) (salt : String) (s : AuthStore)
    → IsStaffed (bootstrap_default_admin scrypt now salt s).0
unfolding bootstrap_default_admin
bootstrap-IsStaffed scrypt now salt s = elim (Bool-cases (is_nil s.users)) [
  | inl e ↦ rw e (unfold save_users in put-is_nil default_username _ s.users)
  | inr e ↦ rw e e
]

-- Once started over any file and bootstrapped, after any requests the user store has a user, holds
-- each under their own name once and with a password hash, and its file reads back as what it holds.
pub never_locked_out :
    (scrypt : Scrypt) (file : List User) (now : ℕ) (salt : String) (rs : List Request)
    → let s = serve_each scrypt rs (bootstrap_default_admin scrypt now salt (open_store file)).0 in
      IsSound s × IsStaffed s
never_locked_out scrypt file now salt rs =
    let s = open_store file in
    serve_each-IsSound scrypt rs (bootstrap_default_admin scrypt now salt s).0
      (Served-IsSound (bootstrap-Served scrypt now salt s) (open_store-IsSound file))
      (bootstrap-IsStaffed scrypt now salt s)
