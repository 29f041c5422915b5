-- ===== src/ApiTokens/Scopes.antt =====
-- A token from its minting to its first use: what it is accepted as, and for which scopes.
use aruba_network_agent.Prelude.{
  ℕ, String, ◌≡◌, refl, true, ◌||◌, none, some, List, [], ◌∷◌, ◌++◌, string_Eq, arith, ==_iff,
  ==_self,
}
use aruba_network_agent.Prelude.Dict.{Dict, get}
use aruba_network_agent.Prelude.Dict.Entries.{put_fresh}
use aruba_network_agent.Prelude.Text.{starts_with}
use aruba_network_agent.LocalAuth.{Scrypt}
use aruba_network_agent.ApiTokens.{
  Token, TokenStore, prefix, save_tokens, hash_token, verify_token, is_listed, dedupe_after,
  or_default, mint, first_token, authenticate_token, has_scope,
}

listed-dedupe_after :
    (x : String) (seen xs : List String)
    → (is_listed x seen || is_listed x (dedupe_after seen xs))
      ≡ (is_listed x seen || is_listed x xs)
unfolding dedupe_after
listed-dedupe_after x seen [] = refl
listed-dedupe_after x seen (y ∷ ys) =
    ground (arith, listed-dedupe_after x (y ∷ seen) ys, ==_iff y x)

first_token-append :
    (scrypt : Scrypt) (c : List ℕ) (d : Dict String Token) (e : String × Token)
    → first_token scrypt c d ≡ none
    → verify_token scrypt c e.1.hash ≡ true
    → first_token scrypt c (d ++ e ∷ []) ≡ some e
unfolding first_token
first_token-append scrypt c [] e h v = ground arith
first_token-append scrypt c (x ∷ d) e h v = ground (arith, first_token-append scrypt c d e)

starts_with-append : (p s : List ℕ) → starts_with p (p ++ s) ≡ true
unfolding starts_with
starts_with-append [] s = refl
starts_with-append (c ∷ p) s = ground (arith, starts_with-append p s)

-- A minted token with a new id, whose cleartext no earlier token accepts, is accepted under its id,
-- and for exactly the scopes that were asked for.
pub mint-authenticate :
    (scrypt : Scrypt) (now later : ℕ) (id : String) (secret : List ℕ)
    (salt name by required : String) (scopes : List String) (s : TokenStore)
    → get id s.tokens ≡ none
    → first_token scrypt (prefix ++ secret) s.tokens ≡ none
    → let m = mint scrypt now id secret salt name scopes by s in
      let g = authenticate_token scrypt later m.1 m.0 in
      (g.1
        ≡ some
            (record { id = id; name = or_default name "unnamed"; scopes = dedupe_after [] scopes }))
      × (has_scope (dedupe_after [] scopes) required ≡ has_scope scopes required)
mint-authenticate scrypt now later id secret salt name by required scopes s fresh unknown =
    let c = prefix ++ secret in
    let t : Token = record {
      id = id;
      name = or_default name "unnamed";
      scopes = dedupe_after [] scopes;
      hash = hash_token scrypt salt c;
      created = now;
      created_by = or_default by "?";
      last_used = none;
    } in
    let ok : verify_token scrypt c t.hash ≡ true =
      unfold verify_token hash_token in ==_self (scrypt 16384 c salt) in
    let found = first_token-append scrypt c s.tokens (id, t) unknown ok in
    let at_end = put_fresh id t s.tokens fresh in
    let good = starts_with-append prefix secret in
    (
      unfold mint authenticate_token save_tokens in ground arith,
      unfold has_scope in
          ground (arith, listed-dedupe_after "*" [] scopes, listed-dedupe_after required [] scopes),
    )
