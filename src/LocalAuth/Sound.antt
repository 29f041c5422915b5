-- ===== src/LocalAuth/Sound.antt =====
-- The users of local_auth.py: their names and hashes, and the file against memory.
use mathlib.Core.List.{append-nil, append_assoc}
use aruba_network_agent.Prelude.{
  String, ◌≡◌, refl, sym, ap, ◌∙◌, true, false, not, ◌&&◌, List, [], ◌∷◌, ◌++◌, ◌==◌, string_Eq,
  leb, length, arith, Bool-cases, inl, inr,
}
use aruba_network_agent.Prelude.Dict.{
  Dict, put, remove, values, IsUnique, put-IsUnique, remove-IsUnique,
}
use aruba_network_agent.Prelude.Dict.Entries.{
  AllEntries, put-AllEntries, remove-AllEntries, put_fresh, get-none_of_IsUnique,
}
use aruba_network_agent.LocalAuth.{User, AuthStore, has_hash, load_users, save_users, store_user}

abbrev pub IsNamed : String → User → Type 0
IsNamed k u = (u.username ≡ k) × (((k == "") ≡ false) × (has_hash u.password_hash ≡ true))

-- What a request does to the store: nothing, a user under their name is written and saved, or a
-- user who is not the last is removed and that is saved.
pub data Served (s s' : AuthStore) : Type 0 where
  unchanged : s' ≡ s → Served s s'
  wrote : (k : String) (u : User) → IsNamed k u → s' ≡ store_user k u s → Served s s'
  removed :
      (k : String)
      → leb (length s.users) 1 ≡ false
      → s' ≡ save_users (record s { users = remove k s.users })
      → Served s s'

pub record IsSound (s : AuthStore) : Type 0 where
  pub unique : IsUnique s.users
  pub named : AllEntries IsNamed s.users
  pub saved : load_users [] s.file ≡ s.users

pub load_users-IsUnique :
    (us : List User) (d : Dict String User) → IsUnique d → IsUnique (load_users d us)
unfolding load_users
load_users-IsUnique [] d h = h
load_users-IsUnique (u ∷ us) d h =
    elim (Bool-cases (not (u.username == "") && has_hash u.password_hash)) [
      | inl e ↦ rw e (load_users-IsUnique us (put u.username u d) (put-IsUnique u.username u d h))
      | inr e ↦ rw e (load_users-IsUnique us d h)
    ]

pub load_users-IsNamed :
    (us : List User) (d : Dict String User)
    → AllEntries IsNamed d
    → AllEntries IsNamed (load_users d us)
unfolding load_users
load_users-IsNamed [] d h = h
load_users-IsNamed (u ∷ us) d h =
    elim (Bool-cases (not (u.username == "") && has_hash u.password_hash)) [
      | inl e ↦ rw e (
          load_users-IsNamed us (put u.username u d)
            (put-AllEntries IsNamed u.username u d (refl, (ground arith, ground arith)) h))
      | inr e ↦ rw e (load_users-IsNamed us d h)
    ]

-- What was saved is loaded again.
load_users-values :
    (r d : Dict String User)
    → IsUnique (d ++ r)
    → AllEntries IsNamed r
    → load_users d (values r) ≡ d ++ r
load_users-values [] d u h = unfold load_users in sym (append-nil d)
load_users-values ((k, v) ∷ r) d u h =
    let (name, good) = h.0 in
    let one : load_users d (v ∷ values r) ≡ load_users (put k v d) (values r) =
      unfold load_users in ground arith in
    one
    ∙ ap (λ x. load_users x (values r)) (put_fresh k v d (get-none_of_IsUnique k v d r u))
    ∙ load_users-values r (d ++ (k, v) ∷ []) (rw append_assoc u) h.1
    ∙ append_assoc d ((k, v) ∷ []) r

save_users-IsSound :
    (s : AuthStore) → IsUnique s.users → AllEntries IsNamed s.users → IsSound (save_users s)
unfolding save_users
save_users-IsSound s u n = record {
  unique = u;
  named = n;
  saved = load_users-values s.users [] u n;
}

pub Served-IsSound : {s s' : AuthStore} → Served s s' → IsSound s → IsSound s'
Served-IsSound (unchanged e) h = rw e h
Served-IsSound {s} (wrote k u n e) h = rw e (
    save_users-IsSound (record s { users = put k u s.users }) (put-IsUnique k u s.users h.unique)
      (put-AllEntries IsNamed k u s.users n h.named))
Served-IsSound {s} (removed k many e) h = rw e (
    save_users-IsSound (record s { users = remove k s.users }) (remove-IsUnique k s.users h.unique)
      (remove-AllEntries IsNamed k s.users h.named))
