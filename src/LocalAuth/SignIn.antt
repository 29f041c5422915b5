-- ===== src/LocalAuth/SignIn.antt =====
-- Passwords, recovery codes and passkeys: what a method promises the next sign-in.
use aruba_network_agent.Prelude.{
  ℕ, ◌+◌, ◌-◌, String, ◌≡◌, ◌≢◌, refl, true, false, none, some, List, [], ◌∷◌, ◌==◌, string_Eq,
  nat_Eq, ltb, leb, length, keep, if◌then◌else◌, arith, Option-cases, inl, inr, ==_iff, ==_self,
}
use aruba_network_agent.Prelude.Dict.{get, put, get-put, get-put_self}
use aruba_network_agent.LocalAuth.{
  Encoded, encoded_Eq, Scrypt, hash_password, verify_password, Passkey, AuthStore, save_users,
  store_user, is_nil, or_nil, first_key, first_match, remove_first, normalized, other_keys,
  authenticate, must_change_password, change_password, consume_recovery_code,
  recovery_codes_remaining, get_passkey, remove_passkey,
}

-- A changed password has at least eight characters and signs its user in, who need not change it
-- again; a password that scrypt tells apart from it under the new salt does not; and no other user
-- is touched.
pub change_password-authenticate :
    (scrypt : Scrypt) (salt k j : String) (password wrong : List ℕ) (now : ℕ) (s : AuthStore)
    → (k == "") ≡ false
    → (change_password scrypt salt k password s).1 ≡ true
    → scrypt 16384 wrong salt ≢ scrypt 16384 password salt
    → k ≢ j
    → let s' = (change_password scrypt salt k password s).0 in
      (leb 8 (length password) ≡ true)
      × ((authenticate scrypt now k password s').1 ≡ true)
      × ((authenticate scrypt now k wrong s').1 ≡ false)
      × (must_change_password k s' ≡ false)
      × (get j s'.users ≡ get j s.users)
change_password-authenticate scrypt salt k j password wrong now s named ok apart other =
    elim (Option-cases (get k s.users)) [
      | inl e ↦ unfold change_password in ground arith
      | inr (u, e) ↦
          let u' = record u {
            password_hash = hash_password scrypt salt password;
            must_change = false;
          } in
          let long : (leb 8 (length password) ≡ true) × (is_nil password ≡ false) =
            unfold change_password in ground arith in
          let done : (change_password scrypt salt k password s).0 ≡ store_user k u' s =
            unfold change_password in ground arith in
          let mine : get k (put k u' s.users) ≡ some u' = get-put_self k u' s.users in
          rw done (
            long.0,
            unfold authenticate verify_password hash_password save_users in
                ground (arith, ==_self (scrypt 16384 password salt)),
            unfold authenticate verify_password hash_password save_users in
                ground (arith, ==_iff (scrypt 16384 wrong salt) (scrypt 16384 password salt)),
            unfold must_change_password save_users in ground arith,
            unfold save_users in ground (arith, get-put k j u' s.users, ==_iff k j),
          )
    ]

-- The stored hashes that a code verifies against.
abbrev pub matches : Scrypt → List ℕ → List Encoded → ℕ
matches scrypt code hs = length (keep (verify_password scrypt code) hs)

-- The stored hashes of a user.
abbrev pub codes_of : String → AuthStore → List Encoded
codes_of k s = elim (get k s.users) [ none ↦ [] | some u ↦ or_nil u.totp_recovery ]

matches-none :
    (scrypt : Scrypt) (code : List ℕ) (hs : List Encoded)
    → first_match scrypt code hs ≡ none
    → matches scrypt code hs ≡ 0
unfolding first_match
matches-none scrypt code [] h = refl
matches-none scrypt code (x ∷ hs) h = ground (arith, matches-none scrypt code hs)

matches-some :
    (scrypt : Scrypt) (code : List ℕ) (hs : List Encoded) (h : Encoded)
    → first_match scrypt code hs ≡ some h
    → (verify_password scrypt code h ≡ true)
      × (matches scrypt code (remove_first h hs) + 1 ≡ matches scrypt code hs)
      × (length (remove_first h hs) + 1 ≡ length hs)
unfolding first_match remove_first
matches-some scrypt code [] h e = ground arith
matches-some scrypt code (x ∷ hs) h e =
    ground (arith, matches-some scrypt code hs h, ==_iff x h, ==_self x)

-- A recovery code that is not blank is accepted exactly if a stored hash verifies it; then one such
-- hash is gone, so that a code with one hash works once, and otherwise nothing is.
pub recovery_code_once :
    (scrypt : Scrypt) (k : String) (candidate : List ℕ) (s : AuthStore)
    → is_nil candidate ≡ false
    → let r = consume_recovery_code scrypt k candidate s in
      let before = matches scrypt (normalized candidate) (codes_of k s) in
      (r.1 ≡ ltb 0 before)
      × (matches scrypt (normalized candidate) (codes_of k r.0) ≡ before - 1)
      × (recovery_codes_remaining k r.0 + (if r.1 then 1 else 0) ≡ recovery_codes_remaining k s)
unfolding consume_recovery_code recovery_codes_remaining
recovery_code_once scrypt k candidate s given = elim (Option-cases (get k s.users)) [
  | inl e ↦ (ground arith, ground arith, ground arith)
  | inr (u, e) ↦
      let hs = or_nil u.totp_recovery in
      let code = normalized candidate in
      elim (Option-cases (first_match scrypt code hs)) [
        | inl f ↦
            let zero_left = matches-none scrypt code hs f in
            (ground arith, ground arith, ground arith)
        | inr (h, f) ↦
            let one = matches-some scrypt code hs h f in
            let u' = record u { totp_recovery = some (remove_first h hs) } in
            let mine = get-put_self k u' s.users in
            unfold save_users in (ground arith, ground arith, ground arith)
      ]
]

first_key-other_keys :
    (id other : String) (ps : List Passkey)
    → first_key other (other_keys id ps) ≡ (if other == id then none else first_key other ps)
unfolding first_key
first_key-other_keys id other [] = ground arith
first_key-other_keys id other (p ∷ ps) = ground (
  arith,
  first_key-other_keys id other ps,
  ==_iff p.credential_id id,
  ==_iff p.credential_id other,
  ==_iff other id,
)

-- A passkey that was removed is not found again, and the user's other passkeys are as they were.
pub remove_passkey-get_passkey :
    (k id other : String) (s : AuthStore)
    → (remove_passkey k id s).1 ≡ true
    → get_passkey k other (remove_passkey k id s).0
      ≡ (if other == id then none else get_passkey k other s)
unfolding remove_passkey get_passkey
remove_passkey-get_passkey k id other s ok = elim (Option-cases (get k s.users)) [
  | inl e ↦ ground arith
  | inr (u, e) ↦
      let u' = record u { passkeys = some (other_keys id (or_nil u.passkeys)) } in
      let mine = get-put_self k u' s.users in
      unfold save_users in ground (arith, first_key-other_keys id other (or_nil u.passkeys))
]
