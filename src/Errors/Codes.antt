-- ===== src/Errors/Codes.antt =====
-- IsVersionError, GetVersionErrorCode and Unwrap against each other.
use gochoreo.Common.{◌≡◌, refl, ◌≢◌, ◌↔◌, true, some, [], ◌++◌, arith, subst}
use mathlib.Core.List.{append_assoc, append-nil}
use gochoreo.Text.{Text, codes, contains}
use gochoreo.Text.Equality.{contains-append}
use gochoreo.Errors.{
  migration_text, configuration_text, GoError, version_error, migration_error, configuration_error,
  plain, wrapping, caused_by, VersionError, error_text, with_cause, unwrap, is_version_error,
  get_version_error_code,
}

abbrev pub unknown : Text
unknown = codes "UNKNOWN_ERROR"

-- An error of the package's types has a code other than UNKNOWN_ERROR, and no other error has one,
-- unless a VersionError was given that code itself.
pub get_version_error_code-ne_iff :
    (e : GoError)
    → ((v : VersionError) → e ≡ version_error v → v.code ≢ unknown)
    → (is_version_error e ≡ true) ↔ (get_version_error_code e ≢ unknown)
unfolding is_version_error get_version_error_code
get_version_error_code-ne_iff (version_error v) h = (λ _. h v refl, λ _. refl)
get_version_error_code-ne_iff (plain t) h = (λ e. cc, λ n. absurd (n refl))
get_version_error_code-ne_iff (wrapping t x) h = (λ e. cc, λ n. absurd (n refl))
get_version_error_code-ne_iff e h = ((λ _. ground arith), λ _. refl)

-- The text of a cause, where it is written.
cause-contains :
    (base t : Text) → contains (base ++ (codes " (cause: " ++ (t ++ codes ")"))) t ≡ true
cause-contains base t =
    rw (← append_assoc base (codes " (cause: ") (t ++ codes ")"))
      (contains-append (base ++ codes " (cause: ") t (codes ")"))

wrapped-contains : (base t : Text) → contains (base ++ t) t ≡ true
wrapped-contains base t =
    subst (λ u. contains (base ++ u) t ≡ true) (append-nil t) (contains-append base t [])

some_inj : {a b : GoError} → some a ≡ some b → a ≡ b
some_inj h = cc

-- The text of an error holds the text of the error that it unwraps to.
pub unwrap-contains :
    (e inner : GoError) → unwrap e ≡ some inner → contains (error_text e) (error_text inner) ≡ true
unfolding unwrap error_text with_cause
unwrap-contains (migration_error c f t m (caused_by x)) inner h =
    subst (λ y. contains (error_text (migration_error c f t m (caused_by x))) (error_text y) ≡ true)
      (some_inj h) (cause-contains (migration_text c f t m) (error_text x))
unwrap-contains (configuration_error c v f m (caused_by x)) inner h =
    subst
      (λ y. contains (error_text (configuration_error c v f m (caused_by x))) (error_text y) ≡ true)
      (some_inj h) (cause-contains (configuration_text c v f m) (error_text x))
unwrap-contains (wrapping t x) inner h =
    subst (λ y. contains (t ++ error_text x) (error_text y) ≡ true) (some_inj h)
      (wrapped-contains t (error_text x))
unwrap-contains e inner h = cc
