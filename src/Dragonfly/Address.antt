-- ===== src/Dragonfly/Address.antt =====
-- ValidateAddress and NormalizeAddress (pkg/dragonfly/utils.go).
use gochoreo.Common.{
  ◌≤◌, ◌≡◌, refl, ◌≢◌, ◌↔◌, inl, inr, false, not, ◌||◌, Option, none, some, List, [], ◌∷◌, ◌++◌,
  arith, if◌then◌else◌, is_empty, Option-cases, ap, sym, ◌∙◌, subst, All,
}
use gochoreo.Common.Int.{ℤ, pos, negsuc, ltb_ℤ}
use gochoreo.Text.{Text, codes, split, contains, join}
use gochoreo.Text.Decimal.{atoi}
use gochoreo.Text.Parts.{
  Lacks, split_middle, split_of_Lacks, join-split, split_sep-Lacks, contains_of_Lacks,
}

pub data AddressError : Type 0 where
  empty_address not_host_port empty_host : AddressError
  -- the error of strconv.Atoi
  invalid_port : Text → AddressError
  port_out_of_range : AddressError

-- The tests on the two parts.
unfoldable pub validate_parts : Text → Text → Option AddressError
validate_parts host port_str = if is_empty host then some empty_host else elim (atoi port_str) [
  | none ↦ some (invalid_port port_str)
  | some port ↦
      if ltb_ℤ port (pos 1) || ltb_ℤ (pos 65535) port then some port_out_of_range else none
]

-- `len(parts) != 2`
abbrev pub validate_split : List Text → Option AddressError
validate_split (host ∷ port_str ∷ []) = validate_parts host port_str
validate_split _ = some not_host_port

unfoldable pub validate_address : Text → Option AddressError
validate_address address =
    if is_empty address then some empty_address else validate_split (split address (codes ":"))

unfoldable pub normalize_address : Text → Text
normalize_address address =
    if not (contains address (codes ":")) then address ++ codes ":6379" else address

-- A port that an address may name.
abbrev pub IsPort : ℤ → Type 0
IsPort (pos n) = (1 ≤ n) × (n ≤ 65535)
IsPort (negsuc n) = ⊥

IsPort-test : (port : ℤ) → ((ltb_ℤ port (pos 1) || ltb_ℤ (pos 65535) port) ≡ false) ↔ IsPort port
IsPort-test (pos n) = ground arith
IsPort-test (negsuc n) = ((λ e. cc), λ h. absurd h)

-- The port that a text names.
abbrev pub NamesPort : Text → Type 0
NamesPort port_str = (port : ℤ) × (atoi port_str ≡ some port) × IsPort port

validate_parts-none :
    (host port_str : Text) → validate_parts host port_str ≡ none → (host ≢ []) × NamesPort port_str
unfolding validate_parts
validate_parts-none [] port_str e = cc
validate_parts-none (c ∷ host) port_str e = elim (Option-cases (atoi port_str)) [
  | inl bad ↦ absurd (none_some (rw bad at e))
  | inr (port, good) ↦ ((λ q. cc), (port, good, (IsPort-test port).0 (ground arith)))
]
  where
    none_some : some (invalid_port port_str) ≡ none → ⊥
    none_some q = cc

none-validate_parts :
    (host port_str : Text) → host ≢ [] → NamesPort port_str → validate_parts host port_str ≡ none
unfolding validate_parts
none-validate_parts [] port_str full port = absurd (full refl)
none-validate_parts (c ∷ host) port_str full (port, good, range) =
    rw (good, validate_parts, (IsPort-test port).1 range) refl

-- A list that is not of two parts is refused.
two_parts :
    (parts : List Text)
    → validate_split parts ≡ none
    → (host : Text) × (port_str : Text) × (parts ≡ host ∷ port_str ∷ [])
      × (validate_parts host port_str ≡ none)
two_parts [] e = cc
two_parts (a ∷ []) e = cc
two_parts (a ∷ b ∷ []) e = (a, b, refl, e)
two_parts (a ∷ b ∷ c ∷ ps) e = cc

abbrev pub IsHostPort : Text → Type 0
IsHostPort address =
    (host : Text) × (port_str : Text) × (address ≡ host ++ b':' ∷ port_str)
    × (host ≢ [])
    × Lacks b':' host
    × Lacks b':' port_str
    × NamesPort port_str

accepted-IsHostPort : (address : Text) → validate_address address ≡ none → IsHostPort address
unfolding validate_address
accepted-IsHostPort [] e = cc
accepted-IsHostPort (c ∷ s) e =
    let address = c ∷ s in
    let (host, port_str, q, v) = two_parts (split address (codes ":")) e in
    let (full, port) = validate_parts-none host port_str v in
    let (no_colon, (no_colon', _)) = subst (All (Lacks b':')) q (split_sep-Lacks b':' address) in
    let whole : address ≡ host ++ b':' ∷ port_str =
      sym (join-split address b':') ∙ (unfold join in ap (join (codes ":")) q) in
    (host, port_str, whole, full, no_colon, no_colon', port)

IsHostPort-accepted :
    (host port_str : Text)
    → host ≢ []
    → Lacks b':' host
    → Lacks b':' port_str
    → NamesPort port_str
    → validate_address (host ++ b':' ∷ port_str) ≡ none
unfolding validate_address
IsHostPort-accepted [] port_str full l l' port = absurd (full refl)
IsHostPort-accepted (c ∷ host) port_str full l l' port =
    rw (split_middle b':' (c ∷ host) port_str l, split_of_Lacks b':' port_str l')
      (none-validate_parts (c ∷ host) port_str full port)

-- ValidateAddress accepts exactly the texts host:port with one colon, a host that is not empty and
-- a port that strconv.Atoi reads as a number from 1 to 65535.
pub validate_address_iff : (address : Text) → (validate_address address ≡ none) ↔ IsHostPort address
validate_address_iff address = (
  accepted-IsHostPort address,
  λ h.
      let (host, port_str, whole, full, l, l', port) = h in
      ap validate_address whole ∙ IsHostPort-accepted host port_str full l l' port,
)

-- A host name without a colon that is not empty, normalized, is accepted, with port 6379.
pub validate_address-normalize_address :
    (host : Text)
    → host ≢ []
    → Lacks b':' host
    → (normalize_address host ≡ host ++ codes ":6379")
      × (validate_address (normalize_address host) ≡ none)
unfolding normalize_address
validate_address-normalize_address host full l =
    let default_port : NamesPort (codes "6379") =
      (pos 6379, (unfold atoi in refl), (omega arith, omega arith)) in
    rw (contains_of_Lacks b':' host l)
      (refl, IsHostPort-accepted host (codes "6379") full l (ground arith) default_port)
