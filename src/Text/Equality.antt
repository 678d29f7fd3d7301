-- ===== src/Text/Equality.antt =====
-- The tests on whole texts decide what they say.
use gochoreo.Common.{
  Eq, ◌≡◌, refl, ◌≢◌, ◌↔◌, true, false, [], ◌∷◌, ◌++◌, arith, length, drop, subst,
}
use gochoreo.Text.{Text, text_eq, has_prefix, trim_prefix, contains}

text_eq_sound : (s t : Text) → text_eq s t ≡ true → s ≡ t
unfolding text_eq
text_eq_sound [] [] h = refl
text_eq_sound [] (b ∷ t) h = cc
text_eq_sound (a ∷ s) [] h = cc
text_eq_sound (a ∷ s) (b ∷ t) h = ground (arith, text_eq_sound s t)

pub text_eq_refl : (s : Text) → text_eq s s ≡ true
unfolding text_eq
text_eq_refl [] = refl
text_eq_refl (a ∷ s) = ground (arith, text_eq_refl s)

pub text_eq_iff : (s t : Text) → (text_eq s t ≡ true) ↔ (s ≡ t)
text_eq_iff s t = (text_eq_sound s t, λ e. subst (λ u. text_eq s u ≡ true) e (text_eq_refl s))

pub text_eq_of_ne : (s t : Text) → s ≢ t → text_eq s t ≡ false
text_eq_of_ne s t h = ground (arith, text_eq_iff s t)

pub has_prefix-append : (p s : Text) → has_prefix (p ++ s) p ≡ true
unfolding has_prefix
has_prefix-append [] s = refl
has_prefix-append (c ∷ p) s = ground (arith, has_prefix-append p s)

drop-append : (p s : Text) → drop (length p) (p ++ s) ≡ s
drop-append [] s = refl
drop-append (c ∷ p) s = drop-append p s

pub trim_prefix-append : (p s : Text) → trim_prefix (p ++ s) p ≡ s
unfolding trim_prefix
trim_prefix-append p s = rw (has_prefix-append p s) (drop-append p s)

-- Texts as keys of a map.
instance abbrev pub text_key : Eq Text
text_key = record { beq = text_eq; beq_iff = text_eq_iff }

pub contains-append : (a p b : Text) → contains (a ++ (p ++ b)) p ≡ true
unfolding contains
contains-append [] p b = contains_prefix (p ++ b) p (has_prefix-append p b)
  where
    contains_prefix : (s p : Text) → has_prefix s p ≡ true → contains s p ≡ true
    contains_prefix [] p h = h
    contains_prefix (c ∷ s) p h = ground arith
contains-append (c ∷ a) p b = ground (arith, contains-append a p b)
