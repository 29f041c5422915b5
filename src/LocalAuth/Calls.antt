-- ===== src/LocalAuth/Calls.antt =====
-- The calls that the web layer makes on the user store, one constructor for each method that
-- changes it, and a run of them.
use aruba_network_agent.Prelude.{ℕ, String, Bool, List, [], ◌∷◌}
use aruba_network_agent.LocalAuth.Data.{Encoded, Scrypt, Passkey, AuthStore}
use aruba_network_agent.LocalAuth.Users.{
  bootstrap_default_admin, authenticate, change_password, enroll_totp, disable_totp,
  consume_recovery_code, add_user, remove_user,
}
use aruba_network_agent.LocalAuth.Keys.{add_passkey, update_passkey_after_use, remove_passkey}

pub data Request : Type 0 where
  bootstrap : ℕ → String → Request
  sign_in : ℕ → String → List ℕ → Request
  set_password : String → String → List ℕ → Request
  enroll : ℕ → String → String → List Encoded → Request
  disable : String → Request
  recover : String → List ℕ → Request
  create : ℕ → String → String → List ℕ → Bool → Request
  delete : String → Request
  register_key : String → Passkey → Request
  key_used : ℕ → String → String → ℕ → Request
  delete_key : String → String → Request

unfoldable pub serve : Scrypt → Request → AuthStore → AuthStore
serve scrypt (bootstrap now salt) s = (bootstrap_default_admin scrypt now salt s).0
serve scrypt (sign_in now name password) s = (authenticate scrypt now name password s).0
serve scrypt (set_password salt name password) s = (change_password scrypt salt name password s).0
serve scrypt (enroll now name secret hashes) s = (enroll_totp now name secret hashes s).0
serve scrypt (disable name) s = (disable_totp name s).0
serve scrypt (recover name code) s = (consume_recovery_code scrypt name code s).0
serve scrypt (create now salt name password must) s =
    (add_user scrypt now salt name password must s).0
serve scrypt (delete name) s = (remove_user name s).0
serve scrypt (register_key name key) s = (add_passkey name key s).0
serve scrypt (key_used now name id count) s = (update_passkey_after_use now name id count s).0
serve scrypt (delete_key name id) s = (remove_passkey name id s).0

unfoldable pub serve_each : Scrypt → List Request → AuthStore → AuthStore
unfolding serve
serve_each scrypt [] s = s
serve_each scrypt (r ∷ rs) s = serve_each scrypt rs (serve scrypt r s)
