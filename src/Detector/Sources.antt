-- ===== src/Detector/Sources.antt =====
-- The sources that hold a version text: named headers, the query, and the first segment of a path.
use gochoreo.Common.{◌≡◌, refl, ◌≢◌, [], ◌∷◌, ◌++◌, arith, ℕ}
use gochoreo.Text.{Text, codes, split, trim_prefix}
use gochoreo.Text.Equality.{trim_prefix-append, has_prefix-append}
use gochoreo.Text.Parts.{Lacks, split_middle}
use gochoreo.Version.Parse.{parse_version}
use gochoreo.Version.Parse.Total.{is_zero-parse_version}
use gochoreo.Detector.{
  Request, parsed, part, detect_from_text, detect_from_url_path, extract_pipeline_from_path,
  path_parts,
}

-- A text that is not empty is never refused.
pub parsed_cons :
    (k : ℕ) (s source : Text) → parsed (k ∷ s) source ≡ (parse_version (k ∷ s), source)
parsed_cons k s source = rw (is_zero-parse_version (k ∷ s))

pub detect_from_text_lem :
    (text : Text) → text ≢ [] → detect_from_text text ≡ (parse_version text, text)
unfolding detect_from_text
detect_from_text_lem [] full = absurd (full refl)
detect_from_text_lem (k ∷ s) full = parsed_cons k s (k ∷ s)

-- The parts of a path with a first segment and more behind it.
path_parts-two :
    (r : Request) (seg rest : Text)
    → Lacks b'/' seg
    → r.path ≡ b'/' ∷ (seg ++ b'/' ∷ rest)
    → path_parts r ≡ seg ∷ split rest (codes "/")
unfolding path_parts
path_parts-two r seg rest h e =
    rw e (rw (trim_prefix-append (b'/' ∷ []) (seg ++ b'/' ∷ rest)) (split_middle b'/' seg rest h))

-- A first segment that starts with "v" is taken for a version, whatever follows the "v", and the
-- pipeline is the segment behind it.
pub detect_from_url_path-first_segment :
    (r : Request) (seg rest : Text)
    → Lacks b'/' seg
    → r.path ≡ b'/' ∷ b'v' ∷ (seg ++ b'/' ∷ rest)
    → (detect_from_url_path r ≡ (parse_version (b'v' ∷ seg), b'v' ∷ seg))
      × (extract_pipeline_from_path r ≡ part 0 (split rest (codes "/")))
unfolding detect_from_url_path extract_pipeline_from_path
detect_from_url_path-first_segment r seg rest h e =
    let parts = path_parts-two r (b'v' ∷ seg) rest ((λ q. omega arith), h) e in
    let trimmed : trim_prefix r.path (codes "/") ≡ b'v' ∷ (seg ++ b'/' ∷ rest) =
      rw e (trim_prefix-append (b'/' ∷ []) (b'v' ∷ (seg ++ b'/' ∷ rest))) in
    rw (trimmed, parts, has_prefix-append (b'v' ∷ []) seg) (parsed_cons b'v' seg (b'v' ∷ seg), refl)
