-- ===== src/Apidef/Definition.antt =====
-- APIDefinition of pkg/apidef/models.go, with the fields that its methods read; they leave the
-- others alone.
use gochoreo.Common.{
  ℕ, Bool, not, Option, none, some, List, [], ◌∷◌, ◌++◌, ◌≡◌, refl, ◌≢◌, ◌⊎◌, inl, inr,
  if◌then◌else◌, is_empty, Map, map, ap, ◌∙◌, All, arith, true, false, Option-cases, ◌&&◌, ◌↔◌, ltb,
}
use gochoreo.Text.{Text, codes, text_eq, has_prefix}
use gochoreo.Text.Suffix.{has_suffix, trim_suffix}
use gochoreo.Text.Equality.{text_eq_iff, has_prefix-append}
use gochoreo.Common.Int.{ℤ}
use gochoreo.Apidef.Auth.{Err, plain, wrapping, AuthConfig, validate_auth}
use gochoreo.Apidef.Auth.Valid.{IsValidAuth, validate_auth_iff}
use gochoreo.Apidef.Transforms.{
  Transform, validate_transforms, IsReady, validate_transforms-IsReady, without_regex,
  map-validate_transforms,
}

pub record UpstreamTarget : Type 0 where
  pub id : Text
  pub url : Text
  pub weight : ℤ
  pub metadata : Map Text Text

full {ℓ} : {A : Type ℓ} (s : List A) → is_empty s ≡ false → s ≢ []
full [] q = cc
full (k ∷ s) q = λ p. cc

either_full {ℓ} :
    {A B : Type ℓ} (s : List A) (t : List B)
    → (is_empty s && is_empty t) ≡ false
    → (s ≢ []) ⊎ (t ≢ [])
either_full (k ∷ s) t q = inl (λ p. cc)
either_full [] (k ∷ t) q = inr (λ p. cc)
either_full [] [] q = cc

-- `if test { return err }`
guard_passed :
    (test : Bool) (err : Err) (next : Option Err)
    → (if test then some err else next) ≡ none
    → (test ≡ false) × (next ≡ none)
guard_passed true err next e = cc
guard_passed false err next e = (refl, e)

wrapped_none :
    (o : Option Err) (f : Err → Err)
    → elim o [ some err ↦ some (f err) | none ↦ none ] ≡ none
    → o ≡ none
wrapped_none none f e = refl
wrapped_none (some err) f e = cc

-- What strings.HasPrefix finds.
prefix_parts : (s p : Text) → has_prefix s p ≡ true → (t : Text) × (s ≡ p ++ t)
unfolding has_prefix
prefix_parts s [] e = (s, refl)
prefix_parts [] (k ∷ p) e = cc
prefix_parts (c ∷ s) (k ∷ p) e =
    let (t, same) = prefix_parts s p (ground arith) in (t, ground (arith, same))

module _ {R : Type 0} (compile : Text → Err ⊎ R) where
  pub record ApiDefinition : Type 0 where
    pub name : Text
    pub api_id : Text
    pub status : Text
    -- Proxy.TargetURL and Proxy.Targets
    pub target_url : Text
    pub targets : List UpstreamTarget
    pub domain : Text
    pub listen_path : Text
    pub auth_config : AuthConfig
    pub request_transforms : List (Transform compile)
    pub response_transforms : List (Transform compile)
    -- ExpireDate, in nanoseconds
    pub expire_date : Option ℕ

  -- The guards of Validate, in front of its loops.
  unfoldable pub validate_fields : ApiDefinition → Option Err
  validate_fields a =
      if is_empty a.name
      then some (plain (codes "API name is required"))
      else if is_empty a.api_id
      then some (plain (codes "API ID is required"))
      else if is_empty a.listen_path
      then some (plain (codes "listen path is required"))
      else if is_empty a.target_url && is_empty a.targets
      then some (plain (codes "either target_url or targets must be specified"))
      else elim (validate_auth a.auth_config) [
        | some err ↦ some (wrapping (codes "auth config validation failed: ") err)
        | none ↦ none
      ]

  -- Validate: the error, and the definition with the compiled expressions.
  unfoldable pub validate_definition : ApiDefinition → Option Err × ApiDefinition
  validate_definition a = elim (validate_fields a) [
    | some err ↦ (some err, a)
    | none ↦
        let (err, requests) =
          validate_transforms compile (codes "request") 0 a.request_transforms in
        let (err', responses) =
          validate_transforms compile (codes "response") 0 a.response_transforms in
        let a' = record a { request_transforms = requests } in
        elim err [
          | some e ↦ (some e, a')
          | none ↦ (err', record a' { response_transforms = responses })
        ]
  ]

  abbrev pub is_active : ApiDefinition → Bool
  is_active a = text_eq a.status (codes "active")

  -- IsExpired at a time
  abbrev pub is_expired : ℕ → ApiDefinition → Bool
  is_expired now a = elim a.expire_date [ none ↦ false | some date ↦ ltb date now ]

  unfoldable pub get_listen_path : ApiDefinition → Text
  get_listen_path a =
      if is_empty a.listen_path
      then codes "/"
      else let path =
          (if not (has_prefix a.listen_path (codes "/"))
            then b'/' ∷ a.listen_path
            else a.listen_path) in
        if not (text_eq path (codes "/")) && has_suffix path (codes "/")
        then trim_suffix path (codes "/")
        else path

  -- MatchesRequest on the path and the host of a request.
  unfoldable pub matches_request : Text → Text → ApiDefinition → Bool
  matches_request request_path host a =
      let listen = get_listen_path a in
      if text_eq listen (codes "/")
      then true
      else if text_eq request_path listen
      then true
      else if has_prefix request_path (listen ++ codes "/")
      then true
      else if not (is_empty a.domain) && not (text_eq host a.domain)
      then false
      else false

  unfoldable pub get_effective_target_url : ApiDefinition → Text
  get_effective_target_url a =
      if not (is_empty a.target_url)
      then a.target_url
      else elim a.targets [ [] ↦ [] | target ∷ targets ↦ target.url ]

  pub record IsSound (a : ApiDefinition) : Type 0 where
    pub named : a.name ≢ []
    pub identified : a.api_id ≢ []
    pub listens : a.listen_path ≢ []
    pub has_target : (a.target_url ≢ []) ⊎ (a.targets ≢ [])
    pub auth : IsValidAuth a.auth_config

  validate_fields-IsSound : (a : ApiDefinition) → validate_fields a ≡ none → IsSound a
  unfolding validate_fields
  validate_fields-IsSound a e =
      let (named, e1) = guard_passed (is_empty a.name) _ _ e in
      let (identified, e2) = guard_passed (is_empty a.api_id) _ _ e1 in
      let (listens, e3) = guard_passed (is_empty a.listen_path) _ _ e2 in
      let (targets, e4) = guard_passed (is_empty a.target_url && is_empty a.targets) _ _ e3 in
      record {
        named = full a.name named;
        identified = full a.api_id identified;
        listens = full a.listen_path listens;
        has_target = either_full a.target_url a.targets targets;
        auth = (validate_auth_iff a.auth_config).0 (
            wrapped_none (validate_auth a.auth_config)
              (wrapping (codes "auth config validation failed: ")) e4);
      }

  -- A definition without the compiled expressions of its transformations.
  abbrev pub without_expressions : ApiDefinition → ApiDefinition
  without_expressions a = record a {
    request_transforms = map (without_regex compile) a.request_transforms;
    response_transforms = map (without_regex compile) a.response_transforms;
  }

  same_but :
      (a : ApiDefinition) (requests responses : List (Transform compile))
      → map (without_regex compile) requests ≡ map (without_regex compile) a.request_transforms
      → map (without_regex compile) responses ≡ map (without_regex compile) a.response_transforms
      → without_expressions
          (record a { request_transforms = requests; response_transforms = responses })
        ≡ without_expressions a
  same_but a requests responses e e' =
      ap
        (λ us. record (without_expressions a) {
          request_transforms = us;
          response_transforms = map (without_regex compile) responses;
        })
        e
      ∙ ap (λ us. record (without_expressions a) { response_transforms = us }) e'

  -- When Validate accepts a definition, the definition has a name, an id, a listen path, a target
  -- and a valid authentication; Validate changes nothing in it but the compiled expressions of its
  -- transformations, and leaves every transformation of requests and of responses complete and, if
  -- its condition is on a regular expression, with the compiled one.
  pub validate_definition-IsReady :
      (a : ApiDefinition)
      → (validate_definition a).0 ≡ none
      → let a' = (validate_definition a).1 in
        IsSound a
        × (without_expressions a' ≡ without_expressions a)
        × All (IsReady compile) a'.request_transforms
        × All (IsReady compile) a'.response_transforms
  unfolding validate_definition
  validate_definition-IsReady a e = elim (Option-cases (validate_fields a)) [
    | inr (err, bad) ↦ absurd (never (rw (validate_definition, bad) at e))
    | inl fine ↦
        elim (Option-cases
          (validate_transforms compile (codes "request") 0 a.request_transforms).0) [
            | inr (err, bad) ↦ absurd (never (rw (validate_definition, fine, bad) at e))
            | inl requests ↦
                rw (validate_definition, fine, requests)
                  (
                    validate_fields-IsSound a fine,
                    same_but a
                        (validate_transforms compile (codes "request") 0 a.request_transforms).1
                        (validate_transforms compile (codes "response") 0 a.response_transforms).1
                        (map-validate_transforms compile (codes "request") 0 a.request_transforms)
                        (map-validate_transforms compile (codes "response") 0
                          a.response_transforms),
                    validate_transforms-IsReady compile (codes "request") 0 a.request_transforms
                        requests,
                    validate_transforms-IsReady compile (codes "response") 0 a.response_transforms
                        (rw (validate_definition, fine, requests) at e),
                  )
          ]
  ]
    where
      never : {err : Err} → some err ≡ none → ⊥
      never q = cc

  -- A definition matches a request exactly if its cleaned listen path is "/", or is the path of the
  -- request, or the path of the request goes on below it behind a "/"; the host of the request and
  -- the domain of the definition make no difference.
  pub matches_request_iff :
      (request_path host : Text) (a : ApiDefinition)
      → (matches_request request_path host a ≡ true) ↔ (
          (get_listen_path a ≡ codes "/")
          ⊎ (request_path ≡ get_listen_path a)
          ⊎ ((below : Text) × (request_path ≡ (get_listen_path a ++ codes "/") ++ below)))
  unfolding matches_request
  matches_request_iff request_path host a = ground (
    arith,
    text_eq_iff (get_listen_path a) (codes "/"),
    text_eq_iff request_path (get_listen_path a),
    below_iff (get_listen_path a),
  )
    where
      below_iff :
          (p : Text)
          → (has_prefix request_path (p ++ codes "/") ≡ true)
            ↔ ((below : Text) × (request_path ≡ (p ++ codes "/") ++ below))
      below_iff p = (
        prefix_parts request_path (p ++ codes "/"),
        λ (below, e). rw e (has_prefix-append (p ++ codes "/") below),
      )
