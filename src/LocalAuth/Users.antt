-- ===== src/LocalAuth/Users.antt =====
-- Sign-in, passwords, the second factor and the list of users. `now` is the clock, `salt` the drawn
-- salt. A method returns its result beside the store.
use aruba_network_agent.Prelude.{
  ℕ, String, Bool, true, false, not, ◌||◌, Option, none, some, List, [], ◌∷◌, ◌==◌, string_Eq, Eq,
  ltb, leb, length, if◌then◌else◌,
}
use aruba_network_agent.Prelude.Dict.{get, remove, contains}
use aruba_network_agent.Prelude.Text.{upper, without}
use aruba_network_agent.LocalAuth.Data.{
  Encoded, encoded_Eq, Scrypt, hash_password, verify_password, AuthStore, save_users, store_user,
  new_user, default_username, default_password, min_password_len,
}

abbrev pub Outcome : Type 0
Outcome = AuthStore × Bool

abbrev pub is_nil {ℓ} : {A : Type ℓ} → List A → Bool
is_nil [] = true
is_nil (x ∷ xs) = false

unfoldable pub bootstrap_default_admin : Scrypt → ℕ → String → AuthStore → Outcome
unfolding hash_password
bootstrap_default_admin scrypt now salt s = if not (is_nil s.users) then (s, false) else (
  store_user default_username
      (new_user now default_username (hash_password scrypt salt default_password) true) s,
  true,
)

unfoldable pub authenticate : Scrypt → ℕ → String → List ℕ → AuthStore → Outcome
unfolding verify_password
authenticate scrypt now username password s =
    if username == "" || is_nil password then (s, false) else elim (get username s.users) [
      | none ↦ (s, false)
      | some u ↦
          if verify_password scrypt password u.password_hash
          then (store_user username (record u { last_login = some now }) s, true)
          else (s, false)
    ]

unfoldable pub must_change_password : String → AuthStore → Bool
must_change_password username s = elim (get username s.users) [
  | none ↦ false
  | some u ↦ u.must_change
]

unfoldable pub change_password : Scrypt → String → String → List ℕ → AuthStore → Outcome
unfolding hash_password
change_password scrypt salt username new_password s =
    if is_nil new_password || ltb (length new_password) min_password_len
    then (s, false)
    else elim (get username s.users) [
      | none ↦ (s, false)
      | some u ↦ (
        store_user username
            (record u {
              password_hash = hash_password scrypt salt new_password;
              must_change = false;
            })
            s,
        true,
      )
    ]

unfoldable pub enroll_totp : ℕ → String → String → List Encoded → AuthStore → Outcome
enroll_totp now username secret recovery_hashes s =
    if secret == "" || is_nil recovery_hashes then (s, false) else elim (get username s.users) [
      | none ↦ (s, false)
      | some u ↦ (
        store_user username
            (record u {
              totp_secret = some secret;
              totp_recovery = some recovery_hashes;
              totp_enrolled = some now;
            })
            s,
        true,
      )
    ]

abbrev pub is_there {ℓ} : {A : Type ℓ} → Option A → Bool
is_there none = false
is_there (some a) = true

unfoldable pub disable_totp : String → AuthStore → Outcome
disable_totp username s = elim (get username s.users) [
  | none ↦ (s, false)
  | some u ↦
      if is_there u.totp_secret || is_there u.totp_recovery || is_there u.totp_enrolled
      then (
        store_user username
            (record u { totp_secret = none; totp_recovery = none; totp_enrolled = none }) s,
        true,
      )
      else (s, false)
]

-- `totp_enabled`: the secret is there and not empty
unfoldable pub totp_enabled : String → AuthStore → Bool
totp_enabled username s = elim (get username s.users) [
  | none ↦ false
  | some u ↦ elim u.totp_secret [ none ↦ false | some secret ↦ not (secret == "") ]
]

unfoldable pub get_totp_secret : String → AuthStore → Option String
get_totp_secret username s = elim (get username s.users) [ none ↦ none | some u ↦ u.totp_secret ]

-- `candidate.replace("-", "").replace(" ", "").upper()`
unfoldable pub normalized : List ℕ → List ℕ
unfolding upper without
normalized candidate = upper (without b' ' (without b'-' candidate))

abbrev pub or_nil {ℓ} : {A : Type ℓ} → Option (List A) → List A
or_nil none = []
or_nil (some xs) = xs

-- The loop of `consume_recovery_code`: the first stored hash that verifies.
unfoldable pub first_match : Scrypt → List ℕ → List Encoded → Option Encoded
unfolding verify_password
first_match scrypt code [] = none
first_match scrypt code (h ∷ hs) =
    if verify_password scrypt code h then some h else first_match scrypt code hs

-- `list.remove`: the first element that is equal.
unfoldable pub remove_first {ℓ} : {A : Type ℓ} ⦃q : Eq A⦄ → A → List A → List A
remove_first a [] = []
remove_first a (x ∷ xs) = if x == a then xs else x ∷ remove_first a xs

unfoldable pub consume_recovery_code : Scrypt → String → List ℕ → AuthStore → Outcome
unfolding normalized first_match remove_first
consume_recovery_code scrypt username candidate s =
    if is_nil candidate then (s, false) else elim (get username s.users) [
      | none ↦ (s, false)
      | some u ↦ elim (first_match scrypt (normalized candidate) (or_nil u.totp_recovery)) [
        | none ↦ (s, false)
        | some h ↦ (
          store_user username
              (record u { totp_recovery = some (remove_first h (or_nil u.totp_recovery)) }) s,
          true,
        )
      ]
    ]

unfoldable pub recovery_codes_remaining : String → AuthStore → ℕ
recovery_codes_remaining username s = elim (get username s.users) [
  | none ↦ 0
  | some u ↦ length (or_nil u.totp_recovery)
]

unfoldable pub add_user : Scrypt → ℕ → String → String → List ℕ → Bool → AuthStore → Outcome
unfolding hash_password
add_user scrypt now salt username password must_change s =
    if username == "" || is_nil password
    then (s, false)
    else if contains username s.users
    then (s, false)
    else (
      store_user username (new_user now username (hash_password scrypt salt password) must_change)
          s,
      true,
    )

unfoldable pub remove_user : String → AuthStore → Outcome
remove_user username s =
    if not (contains username s.users)
    then (s, false)
    else if leb (length s.users) 1
    then (s, false)
    else (save_users (record s { users = remove username s.users }), true)
