-- ===== src/Version/Parse/RoundTrip.antt =====
-- Printing a version and parsing it again.
use mathlib.Core.List.{append-nil}
use gochoreo.Common.{
  ℕ, ◌≤◌, ◌≡◌, refl, ◌≢◌, false, some, [], ◌∷◌, ◌++◌, arith, All, All-append, ◌∙◌, ap, sym, subst,
}
use gochoreo.Common.Int.{ℤ, pos}
use gochoreo.Text.{Text, codes, split, to_lower, text_eq}
use gochoreo.Text.Equality.{trim_prefix-append}
use gochoreo.Text.Decimal.{
  atoi, format_int_pos, max_int, atoi-format_ℕ, format_ℕ, format_ℕ-IsDigit, IsDigit,
}
use gochoreo.Text.Parts.{
  Lacks, split_middle, split_of_Lacks, cut_middle, contains_of_Lacks, contains_middle,
}
use gochoreo.Version.{Version, new_version_with_label, to_string, format_triple, with_label}
use gochoreo.Version.Parse.{parse_version, parse_parts, split_label, is_alias}

digits-Lacks : (k : ℕ) (s : Text) → ¬ IsDigit k → All IsDigit s → Lacks k s
digits-Lacks k [] h d = tt
digits-Lacks k (c ∷ s) h d = (λ e. h (subst IsDigit e d.0), digits-Lacks k s h d.1)

format_ℕ-Lacks : (k n : ℕ) → ¬ IsDigit k → Lacks k (format_ℕ n)
format_ℕ-Lacks k n h = digits-Lacks k (format_ℕ n) h (format_ℕ-IsDigit n)

-- The three numbers with dots between them.
abbrev pub dotted : ℕ → ℕ → ℕ → Text
dotted a b c = format_ℕ a ++ b'.' ∷ (format_ℕ b ++ b'.' ∷ format_ℕ c)

pub dotted-Lacks : (k a b c : ℕ) → ¬ IsDigit k → b'.' ≢ k → Lacks k (dotted a b c)
dotted-Lacks k a b c h dot =
    All-append (λ x. x ≢ k) (format_ℕ a) (b'.' ∷ (format_ℕ b ++ b'.' ∷ format_ℕ c))
      (format_ℕ-Lacks k a h)
      (
        dot,
        All-append (λ x. x ≢ k) (format_ℕ b) (b'.' ∷ format_ℕ c) (format_ℕ-Lacks k b h)
            (dot, format_ℕ-Lacks k c h),
      )

split-dotted :
    (a b c : ℕ) → split (dotted a b c) (codes ".") ≡ format_ℕ a ∷ format_ℕ b ∷ format_ℕ c ∷ []
split-dotted a b c =
    split_middle b'.' (format_ℕ a) (format_ℕ b ++ b'.' ∷ format_ℕ c)
      (format_ℕ-Lacks b'.' a (omega arith))
    ∙ ap (λ ps. format_ℕ a ∷ ps)
        (split_middle b'.' (format_ℕ b) (format_ℕ c) (format_ℕ-Lacks b'.' b (omega arith))
          ∙ ap (λ ps. format_ℕ b ∷ ps)
              (split_of_Lacks b'.' (format_ℕ c) (format_ℕ-Lacks b'.' c (omega arith))))

-- What follows the numbers: nothing, or a dash and the label.
abbrev pub suffix : Text → Text
suffix [] = []
suffix (l ∷ label) = b'-' ∷ l ∷ label

split_label-suffix :
    (base label : Text) → Lacks b'-' base → split_label (base ++ suffix label) ≡ (base, label)
unfolding split_label
split_label-suffix base [] h = rw append-nil (rw (contains_of_Lacks b'-' base h))
split_label-suffix base (l ∷ label) h =
    rw (contains_middle b'-' base (l ∷ label)) (rw (cut_middle b'-' base (l ∷ label) h))

format_triple-dotted : (a b c : ℕ) → format_triple (pos a) (pos b) (pos c) ≡ b'v' ∷ dotted a b c
unfolding format_triple
format_triple-dotted a b c = simp format_int_pos

printed :
    (a b c : ℕ) (label : Text)
    → (new_version_with_label (pos a) (pos b) (pos c) label).version
      ≡ b'v' ∷ (dotted a b c ++ suffix label)
unfolding new_version_with_label with_label
printed a b c [] = rw (format_triple-dotted a b c) (rw append-nil)
printed a b c (l ∷ label) = rw (format_triple-dotted a b c) refl

is_alias_v : (s : Text) → is_alias (b'v' ∷ s) ≡ false
unfolding is_alias to_lower text_eq
is_alias_v s = refl

parse_parts_three :
    (t label p q r : Text) (a b c : ℤ)
    → atoi p ≡ some a
    → atoi q ≡ some b
    → atoi r ≡ some c
    → parse_parts t label (p ∷ q ∷ r ∷ [])
      ≡ record { version = t; major = a; minor = b; patch = c; label = label }
unfolding parse_parts
parse_parts_three t label p q r a b c h k l = ground arith

abbrev pub numbers : Text → ℕ → ℕ → ℕ → Text → Version
numbers t a b c label = record {
  version = t;
  major = pos a;
  minor = pos b;
  patch = pos c;
  label = label;
}

pub parse-printed :
    (a b c : ℕ) (label : Text)
    → a ≤ max_int
    → b ≤ max_int
    → c ≤ max_int
    → let t = b'v' ∷ (dotted a b c ++ suffix label) in parse_version t ≡ numbers t a b c label
unfolding parse_version
parse-printed a b c label ha hb hc = rw (is_alias_v (dotted a b c ++ suffix label)) (
    rw (trim_prefix-append (b'v' ∷ []) (dotted a b c ++ suffix label)) (
      rw
        (split_label-suffix (dotted a b c) label
          (dotted-Lacks b'-' a b c (omega arith) (omega arith)))
        (rw (split-dotted a b c) (
          parse_parts_three _ label (format_ℕ a) (format_ℕ b) (format_ℕ c) (pos a) (pos b) (pos c)
            (atoi-format_ℕ a ha) (atoi-format_ℕ b hb) (atoi-format_ℕ c hc)))))

-- The text of a printed version is the text field.
to_string-new :
    (a b c : ℕ) (label : Text)
    → let v = new_version_with_label (pos a) (pos b) (pos c) label in to_string v ≡ v.version
unfolding to_string
to_string-new a b c label = rw (printed a b c label)

new_version_with_label-eq-numbers :
    (a b c : ℕ) (label : Text)
    → let v = new_version_with_label (pos a) (pos b) (pos c) label in
      v ≡ numbers v.version a b c label
unfolding new_version_with_label
new_version_with_label-eq-numbers a b c label = refl

-- A version built from three numbers that an int can hold, none negative, and any label, is read
-- back whole from its text.
pub parse_version-to_string :
    (a b c : ℕ) (label : Text)
    → a ≤ max_int
    → b ≤ max_int
    → c ≤ max_int
    → let v = new_version_with_label (pos a) (pos b) (pos c) label in
      parse_version (to_string v) ≡ v
parse_version-to_string a b c label ha hb hc =
    let t = b'v' ∷ (dotted a b c ++ suffix label) in
    ap parse_version (to_string-new a b c label ∙ printed a b c label)
    ∙ parse-printed a b c label ha hb hc
    ∙ ap (λ t. numbers t a b c label) (sym (printed a b c label))
    ∙ sym (new_version_with_label-eq-numbers a b c label)
