-- ===== src/ApiTokens.antt =====
-- The API tokens, aruba_agent/api_tokens.py. A cleartext is its code points; what `secrets` draws, a
-- token's id and secret and the salt, is an argument, and so is scrypt. The proofs are below.
pub mod Scopes
pub mod Revoked
pub mod Tests
use aruba_network_agent.Prelude.{
  ℕ, String, Bool, true, false, not, ◌&&◌, ◌||◌, Option, none, some, List, [], ◌∷◌, ◌++◌, ◌==◌,
  string_Eq, if◌then◌else◌,
}
use aruba_network_agent.Prelude.Dict.{Dict, get, put, remove, contains, values}
use aruba_network_agent.Prelude.Text.{codes, starts_with}
use aruba_network_agent.LocalAuth.{Scrypt, Encoded, encoded, unreadable, no_hash, has_hash}

-- `_PREFIX`, `_SCRYPT_N`
abbrev pub prefix : List ℕ
prefix = codes "aat_"

abbrev pub token_cost : ℕ
token_cost = 16384

-- `_hash_token`
unfoldable pub hash_token : Scrypt → String → List ℕ → Encoded
hash_token scrypt salt plaintext = encoded token_cost salt (scrypt token_cost plaintext salt)

-- `_verify_token`
unfoldable pub verify_token : Scrypt → List ℕ → Encoded → Bool
verify_token scrypt plaintext (encoded cost salt target) = scrypt cost plaintext salt == target
verify_token scrypt plaintext (unreadable s) = false
verify_token scrypt plaintext no_hash = false

pub record Token : Type 0 where
  pub id : String
  pub name : String
  pub scopes : List String
  pub hash : Encoded
  pub created : ℕ
  pub created_by : String
  pub last_used : Option ℕ

pub record TokenStore : Type 0 where
  pub tokens : Dict String Token
  pub file : List Token

-- The loop of `_load`
unfoldable pub load_tokens : Dict String Token → List Token → Dict String Token
load_tokens d [] = d
load_tokens d (t ∷ ts) =
    load_tokens (if not (t.id == "") && has_hash t.hash then put t.id t d else d) ts

-- `__init__` over a file, which is empty where there is none or it cannot be read
unfoldable pub open_tokens : List Token → TokenStore
unfolding load_tokens
open_tokens file = record { tokens = load_tokens [] file; file = file }

-- `_save`
unfoldable pub save_tokens : TokenStore → TokenStore
save_tokens s = record s { file = values s.tokens }

abbrev pub is_listed : String → List String → Bool
is_listed x [] = false
is_listed x (y ∷ ys) = y == x || is_listed x ys

-- `list(dict.fromkeys(scopes))`: the first of each, in order
unfoldable pub dedupe_after : List String → List String → List String
dedupe_after seen [] = []
dedupe_after seen (x ∷ xs) =
    let rest = dedupe_after (x ∷ seen) xs in if is_listed x seen then rest else x ∷ rest

abbrev pub or_default : String → String → String
or_default x dflt = if x == "" then dflt else x

-- `mint`, with the name as `strip` leaves it; the cleartext is returned beside the store
unfoldable pub mint :
    Scrypt
    → ℕ
    → String
    → List ℕ
    → String
    → String
    → List String
    → String
    → TokenStore
    → TokenStore × List ℕ
unfolding hash_token dedupe_after
mint scrypt now token_id secret salt name scopes created_by s =
    let cleartext = prefix ++ secret in
    (
      save_tokens (record s {
        tokens =
            put token_id
              (record {
                id = token_id;
                name = or_default name "unnamed";
                scopes = dedupe_after [] scopes;
                hash = hash_token scrypt salt cleartext;
                created = now;
                created_by = or_default created_by "?";
                last_used = none;
              })
              s.tokens;
      }),
      cleartext,
    )

-- `revoke`
unfoldable pub revoke : String → TokenStore → TokenStore × Bool
revoke token_id s =
    if not (contains token_id s.tokens)
    then (s, false)
    else (save_tokens (record s { tokens = remove token_id s.tokens }), true)

-- The loop of `authenticate`: the first entry whose hash verifies.
unfoldable pub first_token : Scrypt → List ℕ → Dict String Token → Option (String × Token)
unfolding verify_token
first_token scrypt cleartext [] = none
first_token scrypt cleartext (e ∷ d) =
    if verify_token scrypt cleartext e.1.hash then some e else first_token scrypt cleartext d

-- What `authenticate` returns: the id, the name and the scopes.
pub record Grant : Type 0 where
  pub id : String
  pub name : String
  pub scopes : List String

-- `authenticate`
unfoldable pub authenticate_token : Scrypt → ℕ → List ℕ → TokenStore → TokenStore × Option Grant
unfolding first_token starts_with
authenticate_token scrypt now cleartext s =
    if not (starts_with prefix cleartext)
    then (s, none)
    else elim (first_token scrypt cleartext s.tokens) [
      | none ↦ (s, none)
      | some (tid, t) ↦ (
        save_tokens (record s { tokens = put tid (record t { last_used = some now }) s.tokens }),
        some (record { id = tid; name = t.name; scopes = t.scopes }),
      )
    ]

-- `has_scope`
unfoldable pub has_scope : List String → String → Bool
has_scope scopes required = is_listed "*" scopes || is_listed required scopes

-- What the web layer does to the store.
pub data TokenCall : Type 0 where
  minted : ℕ → String → List ℕ → String → String → List String → String → TokenCall
  revoked : String → TokenCall
  presented : ℕ → List ℕ → TokenCall

unfoldable pub answer : Scrypt → TokenCall → TokenStore → TokenStore
unfolding mint revoke authenticate_token
answer scrypt (minted now id secret salt name scopes by) s =
    (mint scrypt now id secret salt name scopes by s).0
answer scrypt (revoked id) s = (revoke id s).0
answer scrypt (presented now cleartext) s = (authenticate_token scrypt now cleartext s).0

unfoldable pub answer_each : Scrypt → List TokenCall → TokenStore → TokenStore
unfolding answer
answer_each scrypt [] s = s
answer_each scrypt (c ∷ cs) s = answer_each scrypt cs (answer scrypt c s)
