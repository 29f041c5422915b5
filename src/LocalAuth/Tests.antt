-- ===== src/LocalAuth/Tests.antt =====
-- The theorems on local_auth.py at the default user, with a digest that tells lengths apart.
use aruba_network_agent.Prelude.{
  ◌+◌, ◌-◌, String, ◌≡◌, ◌≢◌, refl, true, false, none, some, List, [], ◌∷◌, ==_iff, string_Eq,
  nat_eq, ltb, leb, length, arith, if◌then◌else◌,
}
use aruba_network_agent.Prelude.Dict.{get}
use aruba_network_agent.Prelude.Text.{codes}
use aruba_network_agent.LocalAuth.{
  Scrypt, encoded, User, Passkey, AuthStore, open_store, new_user, Request, bootstrap_default_admin,
  create, delete, sign_in, serve_each, change_password, authenticate, must_change_password,
  consume_recovery_code, recovery_codes_remaining, normalized, remove_passkey, get_passkey,
}
use aruba_network_agent.LocalAuth.Sound.{IsSound}
use aruba_network_agent.LocalAuth.Staffed.{IsStaffed, never_locked_out}
use aruba_network_agent.LocalAuth.SignIn.{
  matches, codes_of, change_password-authenticate, recovery_code_once, remove_passkey-get_passkey,
}

abbrev by_length : Scrypt
by_length cost password salt =
    if nat_eq (length password) 8
    then "eight"
    else if nat_eq (length password) 4
    then "four"
    else "other"

abbrev requests : List Request
requests =
    sign_in 5 "admin" (codes "admin")
    ∷ create 6 "salt" "ops" (codes "operator") false
    ∷ delete "admin"
    ∷ delete "ops"
    ∷ []

never_locked_out_example :
    let s =
      serve_each by_length requests (bootstrap_default_admin by_length 1 "s" (open_store [])).0 in
    IsSound s × IsStaffed s
never_locked_out_example = never_locked_out by_length [] 1 "s" requests

abbrev phone : Passkey
phone = record {
  credential_id = "id1";
  public_key = "key";
  sign_count = 0;
  name = "phone";
  created = 3;
  last_used = none;
}

abbrev admin : User
admin = record (new_user 1 "admin" (encoded 16384 "s" "other") true) {
  totp_recovery = some (encoded 16384 "t" "four" ∷ encoded 16384 "u" "eight" ∷ []);
  passkeys = some (phone ∷ []);
}

abbrev one_admin : AuthStore
one_admin = record { users = ("admin", admin) ∷ []; file = admin ∷ [] }

abbrev text : String → String
text s = s

different : text "eight" ≢ text "other"
different e = let same = (==_iff (text "eight") (text "other")).1 e in ground arith

other_user : text "admin" ≢ text "ops"
other_user e = let same = (==_iff (text "admin") (text "ops")).1 e in ground arith

changed : (change_password by_length "n" "admin" (codes "longenough") one_admin).1 ≡ true
unfolding change_password get
changed = refl

change_password-authenticate_example :
    let s' = (change_password by_length "n" "admin" (codes "longenough") one_admin).0 in
    (leb 8 (length (codes "longenough")) ≡ true)
    × ((authenticate by_length 9 "admin" (codes "longenough") s').1 ≡ true)
    × ((authenticate by_length 9 "admin" (codes "password") s').1 ≡ false)
    × (must_change_password "admin" s' ≡ false)
    × (get "ops" s'.users ≡ get "ops" one_admin.users)
change_password-authenticate_example =
    change_password-authenticate by_length "n" "admin" "ops" (codes "longenough") (codes "password")
      9 one_admin refl changed different other_user

recovery_code_once_example :
    let r = consume_recovery_code by_length "admin" (codes "ab-cd") one_admin in
    let before = matches by_length (normalized (codes "ab-cd")) (codes_of "admin" one_admin) in
    (r.1 ≡ ltb 0 before)
    × (matches by_length (normalized (codes "ab-cd")) (codes_of "admin" r.0) ≡ before - 1)
    × (recovery_codes_remaining "admin" r.0 + (if r.1 then 1 else 0)
        ≡ recovery_codes_remaining "admin" one_admin)
recovery_code_once_example = recovery_code_once by_length "admin" (codes "ab-cd") one_admin refl

removed_phone : (remove_passkey "admin" "id1" one_admin).1 ≡ true
unfolding remove_passkey get
removed_phone = refl

remove_passkey-get_passkey_example :
    get_passkey "admin" "id1" (remove_passkey "admin" "id1" one_admin).0 ≡ none
remove_passkey-get_passkey_example =
    remove_passkey-get_passkey "admin" "id1" "id1" one_admin removed_phone
