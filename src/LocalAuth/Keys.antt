-- ===== src/LocalAuth/Keys.antt =====
-- The passkeys of a user.
use aruba_network_agent.Prelude.{
  ℕ, String, true, false, not, Option, none, some, List, [], ◌∷◌, ◌++◌, ◌==◌, string_Eq, nat_eq,
  keep, length, if◌then◌else◌,
}
use aruba_network_agent.Prelude.Dict.{Dict, get}
use aruba_network_agent.LocalAuth.Data.{Passkey, User, AuthStore, store_user}
use aruba_network_agent.LocalAuth.Users.{Outcome, or_nil}

unfoldable pub add_passkey : String → Passkey → AuthStore → Outcome
add_passkey username passkey s = elim (get username s.users) [
  | none ↦ (s, false)
  | some u ↦ (
    store_user username (record u { passkeys = some (or_nil u.passkeys ++ passkey ∷ []) }) s,
    true,
  )
]

-- The loop of `get_passkey`
unfoldable pub first_key : String → List Passkey → Option Passkey
first_key id [] = none
first_key id (p ∷ ps) = if p.credential_id == id then some p else first_key id ps

unfoldable pub get_passkey : String → String → AuthStore → Option Passkey
unfolding first_key
get_passkey username id s = elim (get username s.users) [
  | none ↦ none
  | some u ↦ first_key id (or_nil u.passkeys)
]

-- The loop of `update_passkey_after_use`: the first passkey with the id is written.
unfoldable pub touch_key : ℕ → String → ℕ → List Passkey → List Passkey
touch_key now id count [] = []
touch_key now id count (p ∷ ps) =
    if p.credential_id == id
    then record p { sign_count = count; last_used = some now } ∷ ps
    else p ∷ touch_key now id count ps

unfoldable pub update_passkey_after_use : ℕ → String → String → ℕ → AuthStore → Outcome
unfolding first_key touch_key
update_passkey_after_use now username id count s = elim (get username s.users) [
  | none ↦ (s, false)
  | some u ↦ elim (first_key id (or_nil u.passkeys)) [
    | none ↦ (s, false)
    | some p ↦ (
      store_user username
          (record u { passkeys = some (touch_key now id count (or_nil u.passkeys)) }) s,
      true,
    )
  ]
]

abbrev pub other_keys : String → List Passkey → List Passkey
other_keys id ps = keep (λ p. not (p.credential_id == id)) ps

unfoldable pub remove_passkey : String → String → AuthStore → Outcome
remove_passkey username id s = elim (get username s.users) [
  | none ↦ (s, false)
  | some u ↦
      let left = other_keys id (or_nil u.passkeys) in
      if nat_eq (length left) (length (or_nil u.passkeys))
      then (s, false)
      else (store_user username (record u { passkeys = some left }) s, true)
]

-- The loops of `find_user_by_credential_id`
unfoldable pub find_owner : String → Dict String User → Option String
unfolding first_key
find_owner id [] = none
find_owner id (e ∷ d) = elim (first_key id (or_nil e.1.passkeys)) [
  | none ↦ find_owner id d
  | some p ↦ some e.0
]

unfoldable pub find_user_by_credential_id : String → AuthStore → Option String
unfolding find_owner
find_user_by_credential_id id s = find_owner id s.users
