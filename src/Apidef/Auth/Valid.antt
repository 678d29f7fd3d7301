-- ===== src/Apidef/Auth/Valid.antt =====
-- Which configurations AuthConfig.Validate (pkg/apidef/models.go) accepts.
use gochoreo.Common.{
  ℕ, suc, Bool, Option, none, some, [], ◌∷◌, ◌≡◌, refl, ◌≢◌, ◌↔◌, ◌⊎◌, inl, inr, if◌then◌else◌,
  is_empty, Map, arith, true, false, Option-cases, Bool-cases, sym, ◌∙◌,
}
use gochoreo.Text.{Text, codes, text_eq}
use gochoreo.Text.Equality.{text_eq_iff}
use gochoreo.Value.{Value}
use gochoreo.Apidef.Auth.{
  Err, plain, auth_none, auth_api_key, auth_jwt, auth_oauth2, auth_basic, auth_hmac, auth_multi,
  ApiKeyConfig, JwtConfig, OAuth2Config, BasicAuthConfig, HmacConfig, AuthConfig, AuthConfigs,
  auth_config, end, also, validate_api_key, validate_jwt, validate_oauth2, validate_basic,
  validate_hmac, required, is_end, validate_auth, validate_multi,
}

abbrev pub Given : {C : Type 0} → (C → Type 0) → Option C → Type 0
Given P none = ⊥
Given P (some c) = P c

abbrev pub IsValidApiKey : ApiKeyConfig → Type 0
IsValidApiKey a = (a.location ≢ []) × (a.param_name ≢ [])

abbrev pub IsValidJwt : JwtConfig → Type 0
IsValidJwt j = (j.signing_method ≢ []) × (j.signing_key ≢ [])

abbrev pub IsValidOAuth2 : OAuth2Config → Type 0
IsValidOAuth2 o = (o.introspect_url ≢ []) ⊎ (o.token_url ≢ [])

abbrev pub IsValidBasic : BasicAuthConfig → Type 0
IsValidBasic b = Unit

abbrev pub IsValidHmac : HmacConfig → Type 0
IsValidHmac h = (h.algorithm ≢ []) × (h.secret_key ≢ [])

-- What each type of authentication asks for; the type "custom" is not among them.
unfoldable mutual
  pub IsValidAuth : AuthConfig → Type 0
  IsValidAuth (auth_config kind api_key jwt oauth2 basic hmac custom multi) =
      (kind ≡ auth_none)
      ⊎ ((kind ≡ auth_api_key) × Given IsValidApiKey api_key)
      ⊎ ((kind ≡ auth_jwt) × Given IsValidJwt jwt)
      ⊎ ((kind ≡ auth_oauth2) × Given IsValidOAuth2 oauth2)
      ⊎ ((kind ≡ auth_basic) × Given IsValidBasic basic)
      ⊎ ((kind ≡ auth_hmac) × Given IsValidHmac hmac)
      ⊎ ((kind ≡ auth_multi) × (is_end multi ≡ false) × AllValidAuth multi)

  pub AllValidAuth : AuthConfigs → Type 0
  AllValidAuth end = Unit
  AllValidAuth (also config configs) = IsValidAuth config × AllValidAuth configs

required_iff :
    {C : Type 0} {P : C → Type 0} (message : Text) (validate : C → Option Err)
    → ((c : C) → (validate c ≡ none) ↔ P c)
    → (o : Option C) → (required message validate o ≡ none) ↔ Given P o
unfolding required
required_iff message validate h none = ((λ e. cc), λ k. absurd k)
required_iff message validate h (some c) = h c

is_empty_iff : (s : Text) → (is_empty s ≡ false) ↔ (s ≢ [])
is_empty_iff [] = ((λ e. cc), λ h. absurd (h refl))
is_empty_iff (c ∷ s) = ((λ e q. cc), λ h. refl)

validate_api_key_iff : (a : ApiKeyConfig) → (validate_api_key a ≡ none) ↔ IsValidApiKey a
unfolding validate_api_key
validate_api_key_iff a = ground (arith, is_empty_iff a.location, is_empty_iff a.param_name)

validate_jwt_iff : (j : JwtConfig) → (validate_jwt j ≡ none) ↔ IsValidJwt j
unfolding validate_jwt
validate_jwt_iff j = ground (arith, is_empty_iff j.signing_method, is_empty_iff j.signing_key)

validate_oauth2_iff : (o : OAuth2Config) → (validate_oauth2 o ≡ none) ↔ IsValidOAuth2 o
unfolding validate_oauth2
validate_oauth2_iff o = ground (arith, is_empty_iff o.introspect_url, is_empty_iff o.token_url)

validate_basic_iff : (b : BasicAuthConfig) → (validate_basic b ≡ none) ↔ IsValidBasic b
unfolding validate_basic
validate_basic_iff b = ((λ e. tt), λ h. refl)

validate_hmac_iff : (h : HmacConfig) → (validate_hmac h ≡ none) ↔ IsValidHmac h
unfolding validate_hmac
validate_hmac_iff h = ground (arith, is_empty_iff h.algorithm, is_empty_iff h.secret_key)

-- A case of the switch: an accepted configuration has this type, or passes the cases that follow.
switch_none :
    {P Q : Type 0} (kind c : Text) (r s : Option Err)
    → (r ≡ none → P)
    → (s ≡ none → Q)
    → (if text_eq kind c then r else s) ≡ none
    → ((kind ≡ c) × P) ⊎ Q
switch_none kind c r s here later e = elim (Bool-cases (text_eq kind c)) [
  | inl same ↦ inl ((text_eq_iff kind c).0 same, here (rw same at e))
  | inr other ↦ inr (later (rw other at e))
]

some_first :
    {P : Type 0} (c : Bool) (err : Err) (r : Option Err)
    → (r ≡ none → P)
    → (if c then some err else r) ≡ none
    → (c ≡ false) × P
some_first true err r f e = cc
some_first false err r f e = (refl, f e)

first_only : {P R Q : Type 0} → (P × R) ⊎ Q → P ⊎ Q
first_only (inl (p, _)) = inl p
first_only (inr q) = inr q

last_case : {P A B : Type 0} → (P × (A × B)) ⊎ ⊥ → P × A × B
last_case (inl (p, ab)) = (p, ab.0, ab.1)
last_case (inr q) = absurd q

never : {err : Err} → some err ≡ none → ⊥
never q = cc

module _ (kind : Text) (api_key : Option ApiKeyConfig) (jwt : Option JwtConfig)
    (oauth2 : Option OAuth2Config) (basic : Option BasicAuthConfig) (hmac : Option HmacConfig)
    (custom : Map Text Value) (multi : AuthConfigs) where
  abbrev config : AuthConfig
  config = auth_config kind api_key jwt oauth2 basic hmac custom multi

  multi_none :
      (AllValid : Type 0)
      → (validate_multi 0 multi ≡ none → AllValid)
      → (if is_end multi
          then some (plain (codes "multi_config is required for multi authentication"))
          else validate_multi 0 multi)
        ≡ none
      → (is_end multi ≡ false) × AllValid
  multi_none AllValid h e =
      some_first (is_end multi) (plain (codes "multi_config is required for multi authentication"))
        (validate_multi 0 multi) h e

  validate_auth-IsValidAuth :
      (validate_multi 0 multi ≡ none → AllValidAuth multi)
      → validate_auth config ≡ none
      → IsValidAuth config
  unfolding validate_auth IsValidAuth
  validate_auth-IsValidAuth all e = first_only (
      switch_none kind auth_none _ _ (λ q. q)
        (switch_none kind auth_api_key _ _
          ((required_iff (codes "api_key_config is required for API key authentication")
            validate_api_key validate_api_key_iff api_key).0)
          (switch_none kind auth_jwt _ _
            ((required_iff (codes "jwt_config is required for JWT authentication") validate_jwt
              validate_jwt_iff jwt).0)
            (switch_none kind auth_oauth2 _ _
              ((required_iff (codes "oauth2_config is required for OAuth2 authentication")
                validate_oauth2 validate_oauth2_iff oauth2).0)
              (switch_none kind auth_basic _ _
                ((required_iff (codes "basic_config is required for Basic authentication")
                  validate_basic validate_basic_iff basic).0)
                (switch_none kind auth_hmac _ _
                  ((required_iff (codes "hmac_config is required for HMAC authentication")
                    validate_hmac validate_hmac_iff hmac).0)
                  (λ q. last_case (
                    switch_none kind auth_multi _ _ (multi_none (AllValidAuth multi) all)
                      (λ r. never r) q)))))))
        e)

  IsValidAuth-validate_auth :
      (AllValidAuth multi → validate_multi 0 multi ≡ none)
      → IsValidAuth config
      → validate_auth config ≡ none
  unfolding validate_auth IsValidAuth
  IsValidAuth-validate_auth all (inl e) = rw (e, validate_auth) refl
  IsValidAuth-validate_auth all (inr (inl (e, h))) =
      rw (e, validate_auth)
        ((required_iff (codes "api_key_config is required for API key authentication")
            validate_api_key validate_api_key_iff api_key).1
          h)
  IsValidAuth-validate_auth all (inr (inr (inl (e, h)))) =
      rw (e, validate_auth)
        ((required_iff (codes "jwt_config is required for JWT authentication") validate_jwt
            validate_jwt_iff jwt).1
          h)
  IsValidAuth-validate_auth all (inr (inr (inr (inl (e, h))))) =
      rw (e, validate_auth)
        ((required_iff (codes "oauth2_config is required for OAuth2 authentication") validate_oauth2
            validate_oauth2_iff oauth2).1
          h)
  IsValidAuth-validate_auth all (inr (inr (inr (inr (inl (e, h)))))) =
      rw (e, validate_auth)
        ((required_iff (codes "basic_config is required for Basic authentication") validate_basic
            validate_basic_iff basic).1
          h)
  IsValidAuth-validate_auth all (inr (inr (inr (inr (inr (inl (e, h))))))) =
      rw (e, validate_auth)
        ((required_iff (codes "hmac_config is required for HMAC authentication") validate_hmac
            validate_hmac_iff hmac).1
          h)
  IsValidAuth-validate_auth all (inr (inr (inr (inr (inr (inr (e, more, h))))))) =
      rw (e, validate_auth, more) (all h)

mutual
  unfolding validate_multi AllValidAuth

  auth_iff : (a : AuthConfig) → (validate_auth a ≡ none) ↔ IsValidAuth a
  auth_iff (auth_config kind api_key jwt oauth2 basic hmac custom multi) =
      let (sound, complete) = multi_iff 0 multi in
      (
        validate_auth-IsValidAuth kind api_key jwt oauth2 basic hmac custom multi sound,
        IsValidAuth-validate_auth kind api_key jwt oauth2 basic hmac custom multi complete,
      )

  multi_iff :
      (i : ℕ) (configs : AuthConfigs) → (validate_multi i configs ≡ none) ↔ AllValidAuth configs
  multi_iff i end = ((λ e. tt), λ h. refl)
  multi_iff i (also config configs) =
      let (sound, complete) = auth_iff config in
      let (sound', complete') = multi_iff (suc i) configs in
      elim (Option-cases (validate_auth config)) [
        | inl fine ↦ (
          (λ e. (sound fine, sound' (rw (validate_multi, fine) at e))),
          λ h. rw (validate_multi, fine) (complete' h.1),
        )
        | inr (err, bad) ↦ (
          (λ e. absurd (never (rw (validate_multi, bad) at e))),
          λ h. absurd (never (sym bad ∙ complete h.0)),
        )
      ]

-- Validate accepts a configuration exactly if its type is "none", or the configuration of its
-- type is there and has what the type needs: of an API key the location and the parameter, of
-- JWT the method and the key, of OAuth2 one of the two URLs, of HMAC the algorithm and the key;
-- for "multi" there is at least one configuration and all of them are valid, to any depth. No
-- other type is accepted, "custom" included.
pub validate_auth_iff : (a : AuthConfig) → (validate_auth a ≡ none) ↔ IsValidAuth a
validate_auth_iff a = auth_iff a
