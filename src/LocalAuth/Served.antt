-- ===== src/LocalAuth/Served.antt =====
-- What each method of `LocalAuthStore` does to the store, as one of three forms.
use aruba_network_agent.Prelude.{
  ℕ, String, ◌≡◌, refl, Bool, true, false, not, ◌&&◌, ◌||◌, none, some, List, [], ◌∷◌, ◌++◌, ◌==◌,
  string_Eq, nat_eq, ltb, leb, length, if◌then◌else◌, arith, Bool-cases, Option-cases, inl, inr,
}
use aruba_network_agent.Prelude.Dict.{get, contains}
use aruba_network_agent.Prelude.Dict.Entries.{get-AllEntries}
use aruba_network_agent.LocalAuth.{
  Encoded, encoded_Eq, Scrypt, hash_password, verify_password, Passkey, User, AuthStore, store_user,
  new_user, is_nil, or_nil, is_there, first_key, touch_key, first_match, remove_first, normalized,
  other_keys, default_username, default_password, min_password_len, bootstrap_default_admin,
  authenticate, change_password, enroll_totp, disable_totp, consume_recovery_code, add_user,
  remove_user, add_passkey, update_passkey_after_use, remove_passkey, Request, bootstrap, sign_in,
  set_password, enroll, disable, recover, create, delete, register_key, key_used, delete_key, serve,
}
use aruba_network_agent.LocalAuth.Sound.{IsNamed, Served, unchanged, wrote, removed, IsSound}

-- A write under a guard.
wrote_if :
    {s s' : AuthStore} (guard : Bool) (k : String) (u : User)
    → IsNamed k u
    → s' ≡ (if guard then store_user k u s else s)
    → Served s s'
wrote_if true k u n e = wrote k u n e
wrote_if false k u n e = unchanged e

-- A stored user is named, and so is that user with other fields rewritten.
found-IsNamed :
    (k : String) (u : User) (s : AuthStore) → get k s.users ≡ some u → IsSound s → IsNamed k u
found-IsNamed k u s e h = get-AllEntries IsNamed k u s.users h.named e

pub bootstrap-Served :
    (scrypt : Scrypt) (now : ℕ) (salt : String) (s : AuthStore)
    → Served s (bootstrap_default_admin scrypt now salt s).0
unfolding bootstrap_default_admin hash_password
bootstrap-Served scrypt now salt s =
    wrote_if (is_nil s.users) default_username
      (new_user now default_username (hash_password scrypt salt default_password) true)
      (refl, (refl, refl)) (ground arith)

authenticate-Served :
    (scrypt : Scrypt) (now : ℕ) (k : String) (password : List ℕ) (s : AuthStore)
    → IsSound s
    → Served s (authenticate scrypt now k password s).0
unfolding authenticate
authenticate-Served scrypt now k password s h = elim (Option-cases (get k s.users)) [
  | inl e ↦ unchanged (ground arith)
  | inr (u, e) ↦
      wrote_if (not (k == "" || is_nil password) && verify_password scrypt password u.password_hash)
        k (record u { last_login = some now }) (found-IsNamed k u s e h) (ground arith)
]

change_password-Served :
    (scrypt : Scrypt) (salt k : String) (password : List ℕ) (s : AuthStore)
    → IsSound s
    → Served s (change_password scrypt salt k password s).0
unfolding change_password
change_password-Served scrypt salt k password s h = elim (Option-cases (get k s.users)) [
  | inl e ↦ unchanged (ground arith)
  | inr (u, e) ↦
      let n = found-IsNamed k u s e h in
      wrote_if (not (is_nil password || ltb (length password) min_password_len)) k
        (record u { password_hash = hash_password scrypt salt password; must_change = false })
        (n.0, (n.1.0, unfold hash_password in refl)) (ground arith)
]

enroll_totp-Served :
    (now : ℕ) (k secret : String) (hashes : List Encoded) (s : AuthStore)
    → IsSound s
    → Served s (enroll_totp now k secret hashes s).0
unfolding enroll_totp
enroll_totp-Served now k secret hashes s h = elim (Option-cases (get k s.users)) [
  | inl e ↦ unchanged (ground arith)
  | inr (u, e) ↦
      wrote_if (not (secret == "" || is_nil hashes)) k
        (record u {
          totp_secret = some secret;
          totp_recovery = some hashes;
          totp_enrolled = some now;
        })
        (found-IsNamed k u s e h) (ground arith)
]

disable_totp-Served : (k : String) (s : AuthStore) → IsSound s → Served s (disable_totp k s).0
unfolding disable_totp
disable_totp-Served k s h = elim (Option-cases (get k s.users)) [
  | inl e ↦ unchanged (ground arith)
  | inr (u, e) ↦
      wrote_if (is_there u.totp_secret || is_there u.totp_recovery || is_there u.totp_enrolled) k
        (record u { totp_secret = none; totp_recovery = none; totp_enrolled = none })
        (found-IsNamed k u s e h) (ground arith)
]

consume-Served :
    (scrypt : Scrypt) (k : String) (candidate : List ℕ) (s : AuthStore)
    → IsSound s
    → Served s (consume_recovery_code scrypt k candidate s).0
unfolding consume_recovery_code
consume-Served scrypt k candidate s h = elim (Option-cases (get k s.users)) [
  | inl e ↦ unchanged (ground arith)
  | inr (u, e) ↦
      elim (Option-cases (first_match scrypt (normalized candidate) (or_nil u.totp_recovery))) [
        | inl f ↦ unchanged (ground arith)
        | inr (hash, f) ↦
            wrote_if (not (is_nil candidate)) k
              (record u { totp_recovery = some (remove_first hash (or_nil u.totp_recovery)) })
              (found-IsNamed k u s e h) (ground arith)
      ]
]

add_user-Served :
    (scrypt : Scrypt) (now : ℕ) (salt k : String) (password : List ℕ) (must : Bool) (s : AuthStore)
    → Served s (add_user scrypt now salt k password must s).0
unfolding add_user
add_user-Served scrypt now salt k password must s = elim (Bool-cases (k == "")) [
  | inl e ↦ unchanged (ground arith)
  | inr e ↦
      wrote_if (not (is_nil password) && not (contains k s.users)) k
        (new_user now k (hash_password scrypt salt password) must)
        (refl, (e, unfold hash_password in refl)) (ground arith)
]

remove_user-Served : (k : String) (s : AuthStore) → Served s (remove_user k s).0
unfolding remove_user
remove_user-Served k s = elim (Bool-cases (not (contains k s.users) || leb (length s.users) 1)) [
  | inl e ↦ unchanged (ground arith)
  | inr e ↦ removed k (ground arith) (ground arith)
]

add_passkey-Served :
    (k : String) (key : Passkey) (s : AuthStore) → IsSound s → Served s (add_passkey k key s).0
unfolding add_passkey
add_passkey-Served k key s h = elim (Option-cases (get k s.users)) [
  | inl e ↦ unchanged (ground arith)
  | inr (u, e) ↦
      wrote k (record u { passkeys = some (or_nil u.passkeys ++ key ∷ []) })
        (found-IsNamed k u s e h) (ground arith)
]

key_used-Served :
    (now : ℕ) (k id : String) (count : ℕ) (s : AuthStore)
    → IsSound s
    → Served s (update_passkey_after_use now k id count s).0
unfolding update_passkey_after_use
key_used-Served now k id count s h = elim (Option-cases (get k s.users)) [
  | inl e ↦ unchanged (ground arith)
  | inr (u, e) ↦
      wrote_if (is_there (first_key id (or_nil u.passkeys))) k
        (record u { passkeys = some (touch_key now id count (or_nil u.passkeys)) })
        (found-IsNamed k u s e h) (ground arith)
]

remove_passkey-Served :
    (k id : String) (s : AuthStore) → IsSound s → Served s (remove_passkey k id s).0
unfolding remove_passkey
remove_passkey-Served k id s h = elim (Option-cases (get k s.users)) [
  | inl e ↦ unchanged (ground arith)
  | inr (u, e) ↦
      let left = other_keys id (or_nil u.passkeys) in
      wrote_if (not (nat_eq (length left) (length (or_nil u.passkeys)))) k
        (record u { passkeys = some left }) (found-IsNamed k u s e h) (ground arith)
]

pub serve-Served :
    (scrypt : Scrypt) (r : Request) (s : AuthStore) → IsSound s → Served s (serve scrypt r s)
unfolding serve
serve-Served scrypt (bootstrap now salt) s h = bootstrap-Served scrypt now salt s
serve-Served scrypt (sign_in now k password) s h = authenticate-Served scrypt now k password s h
serve-Served scrypt (set_password salt k password) s h =
    change_password-Served scrypt salt k password s h
serve-Served scrypt (enroll now k secret hashes) s h = enroll_totp-Served now k secret hashes s h
serve-Served scrypt (disable k) s h = disable_totp-Served k s h
serve-Served scrypt (recover k code) s h = consume-Served scrypt k code s h
serve-Served scrypt (create now salt k password must) s h =
    add_user-Served scrypt now salt k password must s
serve-Served scrypt (delete k) s h = remove_user-Served k s
serve-Served scrypt (register_key k key) s h = add_passkey-Served k key s h
serve-Served scrypt (key_used now k id count) s h = key_used-Served now k id count s h
serve-Served scrypt (delete_key k id) s h = remove_passkey-Served k id s h
