-- ===== src/Apidef/Tests.antt =====
-- The theorems on definitions of APIs at concrete inputs.
use gochoreo.Common.{
  true, false, none, some, [], ◌∷◌, ◌++◌, ◌≡◌, refl, ◌⊎◌, inl, inr, if◌then◌else◌, ◌↔◌, All,
}
use gochoreo.Text.{Text, codes, has_prefix}
use gochoreo.Apidef.Auth.{
  Err, plain, auth_none, auth_api_key, auth_multi, auth_custom, AuthConfig, auth_config, end, also,
  validate_auth,
}
use gochoreo.Apidef.Auth.Valid.{IsValidAuth, validate_auth_iff}
use gochoreo.Apidef.Transforms.{IsReady, validate_transforms}
use gochoreo.Apidef.Definition.{
  ApiDefinition, IsSound, without_expressions, validate_definition, validate_fields,
  validate_definition-IsReady, get_listen_path, matches_request, matches_request_iff,
}

abbrev key_auth : AuthConfig
key_auth =
    auth_config auth_api_key
      (some (record {
        location = codes "header";
        param_name = codes "X-Key";
        hash_keys = false;
        enable_caching = false;
        cache_ttl = 0;
      }))
      none none none none [] end

-- A key and nothing else, combined.
abbrev combined_auth : AuthConfig
combined_auth =
    auth_config auth_multi none none none none none []
      (also key_auth (also (auth_config auth_none none none none none none [] end) end))

validate_auth_iff_example : (validate_auth combined_auth ≡ none) ↔ IsValidAuth combined_auth
validate_auth_iff_example = validate_auth_iff combined_auth

-- The declared type "custom" is refused.
custom_refused :
    validate_auth (auth_config auth_custom none none none none none [] end)
    ≡ some (plain (codes "unsupported authentication type: custom"))
unfolding validate_auth
custom_refused = refl

-- A library of regular expressions that knows texts without an opening parenthesis.
unfoldable text_only : Text → Err ⊎ Text
unfolding has_prefix
text_only s = if has_prefix s (codes "(") then inl (plain (codes "missing closing )")) else inr s

abbrev users : ApiDefinition text_only
users = record {
  name = codes "users";
  api_id = codes "u1";
  status = codes "active";
  target_url = codes "http://users";
  targets = [];
  domain = codes "example.org";
  listen_path = codes "users/";
  auth_config = combined_auth;
  request_transforms =
      record {
        type = codes "header";
        action = codes "set";
        target = codes "X-User";
        value = [];
        template = [];
        condition = some (record {
          field = codes "query";
          operator = codes "regex";
          value = codes "a+";
          regex = none;
        });
        config = [];
      }
      ∷ [];
  response_transforms = [];
  expire_date = none;
}

users_accepted : (validate_definition text_only users).0 ≡ none
unfolding validate_definition validate_fields validate_auth validate_transforms text_only
users_accepted = refl

validate_definition-IsReady_example :
    let a' = (validate_definition text_only users).1 in
    IsSound text_only users
    × (without_expressions text_only a' ≡ without_expressions text_only users)
    × All (IsReady text_only) a'.request_transforms
    × All (IsReady text_only) a'.response_transforms
validate_definition-IsReady_example = validate_definition-IsReady text_only users users_accepted

matches_request_iff_example :
    (matches_request text_only (codes "/users/7") (codes "other.org") users ≡ true) ↔ (
      (get_listen_path text_only users ≡ codes "/")
      ⊎ (codes "/users/7" ≡ get_listen_path text_only users)
      ⊎ ((below : Text) × (codes "/users/7"
            ≡ (get_listen_path text_only users ++ codes "/") ++ below)))
matches_request_iff_example =
    matches_request_iff text_only (codes "/users/7") (codes "other.org") users
