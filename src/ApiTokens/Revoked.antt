-- ===== src/ApiTokens/Revoked.antt =====
-- `revoke` of api_tokens.py and the calls after it.
use aruba_network_agent.Prelude.{
  ℕ, String, ◌≡◌, refl, Bool, false, Option, none, some, List, [], ◌∷◌, ◌==◌, string_Eq, arith,
  Option-cases, inl, inr, ==_self,
}
use aruba_network_agent.Prelude.Dict.{Dict, get, put, contains, get-put, get-remove}
use aruba_network_agent.LocalAuth.{Scrypt}
use aruba_network_agent.ApiTokens.{
  Token, TokenStore, Grant, save_tokens, mint, revoke, first_token, authenticate_token, TokenCall,
  minted, revoked, presented, answer, answer_each,
}

-- No call mints the id again.
abbrev pub IsRetired : String → List TokenCall → Type 0
IsRetired id [] = Unit
IsRetired id (minted now j secret salt name scopes by ∷ cs) = ((j == id) ≡ false) × IsRetired id cs
IsRetired id (revoked j ∷ cs) = IsRetired id cs
IsRetired id (presented now c ∷ cs) = IsRetired id cs

-- Whether a grant is for the id.
abbrev pub grants : String → Option Grant → Bool
grants id none = false
grants id (some g) = g.id == id

-- The entry that is found is in the dictionary.
first_token-get :
    (scrypt : Scrypt) (c : List ℕ) (d : Dict String Token) (id : String)
    → get id d ≡ none
    → (elim (first_token scrypt c d) as (λ _. Bool) [ none ↦ false | some e ↦ e.0 == id ]) ≡ false
unfolding first_token get
first_token-get scrypt c [] id h = refl
first_token-get scrypt c (e ∷ d) id h = ground (arith, first_token-get scrypt c d id)

refused :
    (scrypt : Scrypt) (now : ℕ) (c : List ℕ) (id : String) (s : TokenStore)
    → get id s.tokens ≡ none
    → grants id (authenticate_token scrypt now c s).1 ≡ false
unfolding authenticate_token
refused scrypt now c id s h = let f = first_token-get scrypt c s.tokens id h in ground arith

get-none-put :
    (j id : String) (t : Token) (d : Dict String Token)
    → (j == id) ≡ false
    → get id d ≡ none
    → get id (put j t d) ≡ none
get-none-put j id t d ne h = ground (arith, get-put j id t d)

answer-get :
    (scrypt : Scrypt) (call : TokenCall) (cs : List TokenCall) (id : String) (s : TokenStore)
    → IsRetired id (call ∷ cs)
    → get id s.tokens ≡ none
    → get id (answer scrypt call s).tokens ≡ none
unfolding answer mint revoke authenticate_token save_tokens
answer-get scrypt (minted now j secret salt name scopes by) cs id s r h =
    get-none-put j id _ s.tokens r.0 h
answer-get scrypt (revoked j) cs id s r h = ground (arith, get-remove j id s.tokens)
answer-get scrypt (presented now c) cs id s r h =
    let f = first_token-get scrypt c s.tokens id h in
    elim (Option-cases (first_token scrypt c s.tokens)) [
      | inl e ↦ ground arith
      | inr ((j, t), e) ↦
          let other : (j == id) ≡ false = ground arith in
          let kept = get-none-put j id (record t { last_used = some now }) s.tokens other h in
          ground arith
    ]

answer_each-get :
    (scrypt : Scrypt) (cs : List TokenCall) (id : String) (s : TokenStore)
    → IsRetired id cs
    → get id s.tokens ≡ none
    → get id (answer_each scrypt cs s).tokens ≡ none
unfolding answer_each
answer_each-get scrypt [] id s r h = h
answer_each-get scrypt (call ∷ cs) id s r h =
    answer_each-get scrypt cs id (answer scrypt call s) (rest call r)
      (answer-get scrypt call cs id s r h)
  where
    rest : (call : TokenCall) → IsRetired id (call ∷ cs) → IsRetired id cs
    rest (minted now j secret salt name scopes by) r = r.1
    rest (revoked j) r = r
    rest (presented now c) r = r

revoke-get : (id : String) (s : TokenStore) → get id (revoke id s).0.tokens ≡ none
unfolding revoke save_tokens contains
revoke-get id s = ground (arith, get-remove id id s.tokens, ==_self id)

-- After a token is revoked, and after any further calls that do not mint its id again, no cleartext
-- at all is accepted under that id.
pub revoked_for_good :
    (scrypt : Scrypt) (id : String) (cs : List TokenCall) (now : ℕ) (cleartext : List ℕ)
    (s : TokenStore)
    → IsRetired id cs
    → grants id (authenticate_token scrypt now cleartext (answer_each scrypt cs (revoke id s).0)).1
      ≡ false
revoked_for_good scrypt id cs now cleartext s r =
    refused scrypt now cleartext id (answer_each scrypt cs (revoke id s).0)
      (answer_each-get scrypt cs id (revoke id s).0 r (revoke-get id s))
