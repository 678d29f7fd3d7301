-- ===== src/Detector/Accept.antt =====
-- The version in an Accept header, from the header's text to the result of a new detector.
use mathlib.Core.List.{append-nil}
use gochoreo.Common.{
  ◌≡◌, refl, ◌≢◌, ◌≤◌, ℕ, true, some, [], ◌∷◌, ◌++◌, arith, ap, ◌∙◌, length, All-append, subst,
}
use gochoreo.Text.{Text, codes, split, split_from, contains}
use gochoreo.Text.Decimal.{max_int}
use gochoreo.Text.Equality.{has_prefix-append, contains-append}
use gochoreo.Text.Parts.{Lacks, split_middle}
use gochoreo.Version.{is_zero}
use gochoreo.Version.Parse.{parse_version}
use gochoreo.Version.Parse.RoundTrip.{dotted, dotted-Lacks, numbers, parse-printed}
use gochoreo.Detector.{
  Request, Detector, accept_header, api_version_header, x_api_version_header, query_parameter,
  url_path, context_value, default, hit, attempt, detect_from_accept_header, new_detector,
  detect_from_http_request,
}
use gochoreo.Detector.Sources.{parsed_cons}
use gochoreo.Detector.Priority.{detect_from_http_request-hit}

-- A text without the first byte of the separator is one part.
split_from-Lacks : (k : ℕ) (sep s : Text) → Lacks k s → split_from 0 k sep s ≡ s ∷ []
unfolding split_from
split_from-Lacks k sep [] h = refl
split_from-Lacks k sep (c ∷ s) h = ground (arith, split_from-Lacks k sep s h.1)

-- The rest of a separator that was met is passed over.
split_from-skip :
    (k : ℕ) (sep t s : Text) → split_from (length t) k sep (t ++ s) ≡ split_from 0 k sep s
unfolding split_from
split_from-skip k sep [] s = refl
split_from-skip k sep (c ∷ t) s = split_from-skip k sep t s

split_prefix : (k : ℕ) (sep s : Text) → Lacks k s → split ((k ∷ sep) ++ s) (k ∷ sep) ≡ [] ∷ s ∷ []
unfolding split split_from
split_prefix k sep s h =
    rw (has_prefix-append (k ∷ sep) s, split_from)
      (ap (λ ps. [] ∷ ps) (split_from-skip k sep sep s ∙ split_from-Lacks k sep s h))

contains_prefix : (p s : Text) → contains (p ++ s) p ≡ true
contains_prefix p s = contains-append [] p s

-- A header that is the prefix, a version text, "+" and a format gives the version text behind a
-- "v", if the first byte of the prefix occurs only at its place and the version text has no "+".
pub detect_from_accept_header_lem :
    (d : Detector) (r : Request) (k : ℕ) (sep ver format : Text)
    → d.accept_header_prefix ≡ k ∷ sep
    → r.header (codes "Accept") ≡ (k ∷ sep) ++ (ver ++ b'+' ∷ format)
    → Lacks k (ver ++ b'+' ∷ format)
    → Lacks b'+' ver
    → detect_from_accept_header d r
      ≡ (parse_version (b'v' ∷ ver), (k ∷ sep) ++ (ver ++ b'+' ∷ format))
unfolding detect_from_accept_header
detect_from_accept_header_lem d r k sep ver format p e h plus =
    rw
      (
        p,
        e,
        contains_prefix (k ∷ sep) (ver ++ b'+' ∷ format),
        split_prefix k sep (ver ++ b'+' ∷ format) h,
        split_middle b'+' ver format plus,
      )
      (parsed_cons b'v' ver _)

parse-dotted :
    (a b c : ℕ)
    → a ≤ max_int
    → b ≤ max_int
    → c ≤ max_int
    → parse_version (b'v' ∷ dotted a b c) ≡ numbers (b'v' ∷ dotted a b c) a b c []
parse-dotted a b c ha hb hc =
    subst (λ t. parse_version (b'v' ∷ t) ≡ numbers (b'v' ∷ t) a b c []) (append-nil (dotted a b c))
      (parse-printed a b c [] ha hb hc)

-- What a new detector finds in such a header.
found_dotted :
    (r : Request) (a b c : ℕ) (format : Text)
    → a ≤ max_int
    → b ≤ max_int
    → c ≤ max_int
    → Lacks b'a' format
    → let accept = codes "application/vnd.api.v" ++ (dotted a b c ++ b'+' ∷ format) in
      r.header (codes "Accept") ≡ accept
      → detect_from_accept_header (new_detector []) r
        ≡ (numbers (b'v' ∷ dotted a b c) a b c [], accept)
unfolding new_detector
found_dotted r a b c format ha hb hc h e =
    detect_from_accept_header_lem (new_detector []) r b'a' (codes "pplication/vnd.api.v")
      (dotted a b c) format refl e
      (All-append (λ x. x ≢ b'a') (dotted a b c) (b'+' ∷ format)
        (dotted-Lacks b'a' a b c (omega arith) (omega arith)) (omega arith, h))
      (dotted-Lacks b'+' a b c (omega arith) (omega arith))
    ∙ ap (λ v. (v, codes "application/vnd.api.v" ++ (dotted a b c ++ b'+' ∷ format)))
        (parse-dotted a b c ha hb hc)

-- End to end: for "application/vnd.api.v<a>.<b>.<c>+<format>" a new detector reports the version
-- a.b.c from the Accept header, when the numbers fit an int and the format has no letter a.
pub detect_from_http_request-accept :
    (r : Request) (a b c : ℕ) (format : Text)
    → a ≤ max_int
    → b ≤ max_int
    → c ≤ max_int
    → Lacks b'a' format
    → r.header (codes "Accept") ≡ codes "application/vnd.api.v" ++ (dotted a b c ++ b'+' ∷ format)
    → detect_from_http_request (new_detector []) r ≡ record {
      version = numbers (b'v' ∷ dotted a b c) a b c [];
      method = accept_header;
      source = codes "application/vnd.api.v" ++ (dotted a b c ++ b'+' ∷ format);
    }
unfolding new_detector attempt is_zero
detect_from_http_request-accept r a b c format ha hb hc h e =
    detect_from_http_request-hit (new_detector []) r []
      (api_version_header ∷ x_api_version_header ∷ query_parameter ∷ url_path ∷ context_value
        ∷ default ∷ [])
      accept_header _ refl tt
      (ap (λ found. hit accept_header (some found)) (found_dotted r a b c format ha hb hc h e))
