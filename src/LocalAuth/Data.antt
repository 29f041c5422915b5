-- ===== src/LocalAuth/Data.antt =====
-- Users, their passkeys and password hashes. A password is the list of its code points. `scrypt` of
-- hashlib is an argument of what uses it: cost, password and salt to a digest.
use aruba_network_agent.Prelude.{
  ℕ, String, ◌≡◌, ◌↔◌, Bool, true, false, not, ◌&&◌, Option, none, List, [], ◌∷◌, ◌==◌, ==_iff,
  string_Eq, nat_Eq, Eq, arith, if◌then◌else◌,
}
use aruba_network_agent.Prelude.Dict.{Dict, put, values}
use aruba_network_agent.Prelude.Text.{codes}

-- An encoded hash: its cost, salt and digest. `unreadable` is a text that does not parse, or whose
-- parameters scrypt refuses, and `no_hash` the empty one.
pub data Encoded : Type 0 where
  encoded : ℕ → String → String → Encoded
  unreadable : String → Encoded
  no_hash : Encoded

abbrev pub encoded_eq : Encoded → Encoded → Bool
encoded_eq (encoded n s d) (encoded m t e) = n == m && s == t && d == e
encoded_eq (unreadable s) (unreadable t) = s == t
encoded_eq no_hash no_hash = true
encoded_eq _ _ = false

pub encoded_eq_iff : (a b : Encoded) → (encoded_eq a b ≡ true) ↔ (a ≡ b)
encoded_eq_iff (encoded n s d) (encoded m t e) = ground (arith, ==_iff n m, ==_iff s t, ==_iff d e)
encoded_eq_iff (unreadable s) (unreadable t) = ground (arith, ==_iff s t)
encoded_eq_iff a b = ground arith

instance abbrev pub encoded_Eq : Eq Encoded
encoded_Eq = record { test = encoded_eq; test_iff = encoded_eq_iff }

abbrev pub Scrypt : Type 0
Scrypt = ℕ → List ℕ → String → String

-- `_SCRYPT_N`
abbrev pub scrypt_cost : ℕ
scrypt_cost = 16384

-- `hash_password` with the salt that it draws
unfoldable pub hash_password : Scrypt → String → List ℕ → Encoded
hash_password scrypt salt password = encoded scrypt_cost salt (scrypt scrypt_cost password salt)

-- `verify_password`. The other parameters of scrypt, among them `dklen`, the length of the stored digest, are
-- not shown: they are those that `hash_password` stores.
unfoldable pub verify_password : Scrypt → List ℕ → Encoded → Bool
verify_password scrypt password (encoded cost salt target) = scrypt cost password salt == target
verify_password scrypt password (unreadable s) = false
verify_password scrypt password no_hash = false

pub record Passkey : Type 0 where
  pub credential_id : String
  pub public_key : String
  pub sign_count : ℕ
  pub name : String
  pub created : ℕ
  pub last_used : Option ℕ

-- A user; a member that the JSON object may lack is an `Option`.
pub record User : Type 0 where
  pub username : String
  pub password_hash : Encoded
  pub must_change : Bool
  pub created : ℕ
  pub last_login : Option ℕ
  pub totp_secret : Option String
  pub totp_recovery : Option (List Encoded)
  pub totp_enrolled : Option ℕ
  pub passkeys : Option (List Passkey)

-- The users in memory and those in the file.
pub record AuthStore : Type 0 where
  pub users : Dict String User
  pub file : List User

abbrev pub has_hash : Encoded → Bool
has_hash (encoded n s d) = true
has_hash (unreadable s) = true
has_hash no_hash = false

-- The loop of `_load`
unfoldable pub load_users : Dict String User → List User → Dict String User
load_users d [] = d
load_users d (u ∷ us) =
    load_users
      (if not (u.username == "") && has_hash u.password_hash then put u.username u d else d) us

-- `__init__` over a file, which is empty where there is none or it cannot be read
unfoldable pub open_store : List User → AuthStore
unfolding load_users
open_store file = record { users = load_users [] file; file = file }

-- `_save`
unfoldable pub save_users : AuthStore → AuthStore
save_users s = record s { file = values s.users }

-- A write to the user object, and the save after it.
abbrev pub store_user : String → User → AuthStore → AuthStore
store_user name u s = save_users (record s { users = put name u s.users })

-- The entry that `add_user` and `bootstrap_default_admin` make.
abbrev pub new_user : ℕ → String → Encoded → Bool → User
new_user now name hash must_change = record {
  username = name;
  password_hash = hash;
  must_change = must_change;
  created = now;
  last_login = none;
  totp_secret = none;
  totp_recovery = none;
  totp_enrolled = none;
  passkeys = none;
}

-- `DEFAULT_USERNAME`, `DEFAULT_PASSWORD`, `MIN_PASSWORD_LEN`
abbrev pub default_username : String
default_username = "admin"

abbrev pub default_password : List ℕ
default_password = codes "admin"

abbrev pub min_password_len : ℕ
min_password_len = 8
