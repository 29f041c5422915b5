-- ===== src/ApiTokens/Tests.antt =====
-- The theorems on api_tokens.py at a token that reads the state, with a digest that tells lengths
-- apart.
use aruba_network_agent.Prelude.{
  String, ◌≡◌, refl, false, none, some, List, [], ◌∷◌, string_Eq, nat_eq, length, if◌then◌else◌,
}
use aruba_network_agent.Prelude.Dict.{get}
use aruba_network_agent.Prelude.Text.{codes}
use aruba_network_agent.LocalAuth.{Scrypt, encoded}
use aruba_network_agent.ApiTokens.{
  Token, TokenStore, TokenCall, minted, presented, first_token, verify_token, mint, revoke,
  dedupe_after, authenticate_token, has_scope, answer_each,
}
use aruba_network_agent.ApiTokens.Scopes.{mint-authenticate}
use aruba_network_agent.ApiTokens.Revoked.{grants, revoked_for_good}

abbrev by_length : Scrypt
by_length cost plaintext salt = if nat_eq (length plaintext) 6 then "six" else "other"

abbrev old : Token
old = record {
  id = "tok_1";
  name = "scraper";
  scopes = "state.read" ∷ [];
  hash = encoded 16384 "s" "six";
  created = 1;
  created_by = "ops";
  last_used = none;
}

abbrev one_token : TokenStore
one_token = record { tokens = ("tok_1", old) ∷ []; file = old ∷ [] }

abbrev asked : List String
asked = "state.read" ∷ "arp.trigger" ∷ "state.read" ∷ []

mint-authenticate_example :
    let m = mint by_length 5 "tok_2" (codes "xyz") "s" "" asked "ops" one_token in
    let g = authenticate_token by_length 6 m.1 m.0 in
    (g.1 ≡ some (record { id = "tok_2"; name = "unnamed"; scopes = dedupe_after [] asked }))
    × (has_scope (dedupe_after [] asked) "arp.trigger" ≡ has_scope asked "arp.trigger")
mint-authenticate_example =
    mint-authenticate by_length 5 6 "tok_2" (codes "xyz") "s" "" "ops" "arp.trigger" asked one_token
      (unfold get in refl) (unfold first_token verify_token in refl)

abbrev later_calls : List TokenCall
later_calls = presented 7 (codes "aat_ab") ∷ minted 8 "tok_3" (codes "ab") "s" "n" [] "ops" ∷ []

revoked_for_good_example :
    grants "tok_1"
      (authenticate_token by_length 9
        (codes "aat_ab")
        (answer_each by_length later_calls (revoke "tok_1" one_token).0)).1
    ≡ false
revoked_for_good_example =
    revoked_for_good by_length "tok_1" later_calls 9 (codes "aat_ab") one_token (refl, tt)
