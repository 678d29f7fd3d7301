-- ===== src/Apidef/Auth.antt =====
-- The authentication of an API (pkg/apidef/models.go).
pub mod Valid
use gochoreo.Common.{
  ℕ, zero, suc, Bool, Option, none, some, List, [], ◌∷◌, ◌++◌, ◌≡◌, refl, ◌≢◌, ◌↔◌, ◌⊎◌, inl, inr,
  if◌then◌else◌, is_empty, Map, ◌&&◌, arith, true, false, Option-cases, Bool-cases,
}
use gochoreo.Text.{Text, codes, text_eq}
use gochoreo.Text.Equality.{text_eq_iff}
use gochoreo.Text.Decimal.{format_ℕ}
use gochoreo.Value.{Value}

-- An error of fmt.Errorf: its text, or a text in front of the error that it wraps.
pub data Err : Type 0 where
  plain : Text → Err
  wrapping : Text → Err → Err

abbrev pub auth_none : Text
auth_none = codes "none"

abbrev pub auth_api_key : Text
auth_api_key = codes "api_key"

abbrev pub auth_jwt : Text
auth_jwt = codes "jwt"

abbrev pub auth_oauth2 : Text
auth_oauth2 = codes "oauth2"

abbrev pub auth_basic : Text
auth_basic = codes "basic"

abbrev pub auth_hmac : Text
auth_hmac = codes "hmac"

abbrev pub auth_custom : Text
auth_custom = codes "custom"

abbrev pub auth_multi : Text
auth_multi = codes "multi"

pub record ApiKeyConfig : Type 0 where
  pub location : Text
  pub param_name : Text
  pub hash_keys : Bool
  pub enable_caching : Bool
  pub cache_ttl : ℕ

pub record JwtConfig : Type 0 where
  pub signing_method : Text
  pub signing_key : Text
  pub identity_key : Text
  pub claims_to_headers : Map Text Text
  pub required_claims : List Text
  pub issuer : Text
  pub audience : List Text
  pub skip_validation : List Text

pub record OAuth2Config : Type 0 where
  pub token_url : Text
  pub introspect_url : Text
  pub client_id : Text
  pub client_secret : Text
  pub scopes : List Text
  pub required_scopes : List Text
  pub token_location : Text
  pub cache_ttl : ℕ

pub record BasicAuthConfig : Type 0 where
  pub realm : Text
  pub hide_credentials : Bool

pub record HmacConfig : Type 0 where
  pub algorithm : Text
  pub header : Text
  pub secret_key : Text
  pub allowed_clock_skew : ℕ
  pub headers : List Text

-- AuthConfig: the type, the configuration of each type, the custom one, and the list of the
-- combined ones.
mutual
  pub data AuthConfig : Type 0 where
    auth_config :
        Text
        → Option ApiKeyConfig
        → Option JwtConfig
        → Option OAuth2Config
        → Option BasicAuthConfig
        → Option HmacConfig
        → Map Text Value
        → AuthConfigs
        → AuthConfig

  pub data AuthConfigs : Type 0 where
    end : AuthConfigs
    also : AuthConfig → AuthConfigs → AuthConfigs

unfoldable pub validate_api_key : ApiKeyConfig → Option Err
validate_api_key a =
    if is_empty a.location
    then some (plain (codes "location is required"))
    else if is_empty a.param_name
    then some (plain (codes "param_name is required"))
    else none

unfoldable pub validate_jwt : JwtConfig → Option Err
validate_jwt j =
    if is_empty j.signing_method
    then some (plain (codes "signing_method is required"))
    else if is_empty j.signing_key
    then some (plain (codes "signing_key is required"))
    else none

unfoldable pub validate_oauth2 : OAuth2Config → Option Err
validate_oauth2 o =
    if is_empty o.introspect_url && is_empty o.token_url
    then some (plain (codes "either introspect_url or token_url must be specified"))
    else none

unfoldable pub validate_basic : BasicAuthConfig → Option Err
validate_basic b = none

unfoldable pub validate_hmac : HmacConfig → Option Err
validate_hmac h =
    if is_empty h.algorithm
    then some (plain (codes "algorithm is required"))
    else if is_empty h.secret_key
    then some (plain (codes "secret_key is required"))
    else none

-- `if config == nil { return fmt.Errorf(…) }; return config.Validate()`
unfoldable pub required : {C : Type 0} → Text → (C → Option Err) → Option C → Option Err
required message validate none = some (plain message)
required message validate (some config) = validate config

abbrev pub is_end : AuthConfigs → Bool
is_end end = true
is_end (also a configs) = false

unfoldable mutual
  unfolding text_eq validate_api_key validate_jwt validate_oauth2 validate_basic validate_hmac
      required

  pub validate_auth : AuthConfig → Option Err
  validate_auth (auth_config kind api_key jwt oauth2 basic hmac custom multi) =
      let rest = validate_multi 0 multi in
      if text_eq kind auth_none
      then none
      else if text_eq kind auth_api_key
      then required (codes "api_key_config is required for API key authentication") validate_api_key
          api_key
      else if text_eq kind auth_jwt
      then required (codes "jwt_config is required for JWT authentication") validate_jwt jwt
      else if text_eq kind auth_oauth2
      then required (codes "oauth2_config is required for OAuth2 authentication") validate_oauth2
          oauth2
      else if text_eq kind auth_basic
      then required (codes "basic_config is required for Basic authentication") validate_basic basic
      else if text_eq kind auth_hmac
      then required (codes "hmac_config is required for HMAC authentication") validate_hmac hmac
      else if text_eq kind auth_multi
      then (if is_end multi
          then some (plain (codes "multi_config is required for multi authentication"))
          else rest)
      else some (plain (codes "unsupported authentication type: " ++ kind))

  -- The loop over the combined configurations, from an index on.
  pub validate_multi : ℕ → AuthConfigs → Option Err
  validate_multi i end = none
  validate_multi i (also config configs) = elim (validate_auth config) [
    | some err ↦
        some
          (wrapping (codes "multi auth config " ++ format_ℕ i ++ codes " validation failed: ") err)
    | none ↦ validate_multi (suc i) configs
  ]
