-- ===== src/Common/Int.antt =====
-- Go's `int`, as a signed integer over the native numbers; `negsuc n` is -(n + 1). The code does no
-- arithmetic on version numbers but in `strconv.Atoi`, which keeps them in the range of 64 bits.
use Prim.Native.Nat.{ℕ, ◌<◌, ◌≤◌}
use mathlib.Core.Path.{◌≡◌, refl}
use mathlib.Core.Logic.{◌↔◌}
use mathlib.Core.Bool.{Bool, true, false, not}
use native.Mathlib.Omega.{arith}
use gochoreo.Common.Tests.{ltb, ◌==◌}
use gochoreo.Common.Maps.{Eq}

pub data ℤ : Type 0 where
  pos : ℕ → ℤ
  negsuc : ℕ → ℤ

infix 50 ◌<ℤ◌
abbrev pub ◌<ℤ◌ : ℤ → ℤ → Type 0
pos a <ℤ pos b = a < b
pos a <ℤ negsuc b = ⊥
negsuc a <ℤ pos b = Unit
negsuc a <ℤ negsuc b = b < a

abbrev pub ltb_ℤ : ℤ → ℤ → Bool
ltb_ℤ (pos a) (pos b) = ltb a b
ltb_ℤ (pos a) (negsuc b) = false
ltb_ℤ (negsuc a) (pos b) = true
ltb_ℤ (negsuc a) (negsuc b) = ltb b a

abbrev pub eqb_ℤ : ℤ → ℤ → Bool
eqb_ℤ (pos a) (pos b) = a == b
eqb_ℤ (pos a) (negsuc b) = false
eqb_ℤ (negsuc a) (pos b) = false
eqb_ℤ (negsuc a) (negsuc b) = a == b

pub eqb_ℤ_iff : (a b : ℤ) → (eqb_ℤ a b ≡ true) ↔ (a ≡ b)
eqb_ℤ_iff a b = ground arith

pub ltb_ℤ_iff : (a b : ℤ) → (ltb_ℤ a b ≡ true) ↔ (a <ℤ b)
ltb_ℤ_iff (pos a) (pos b) = ground arith
ltb_ℤ_iff (pos a) (negsuc b) = (λ h. cc, λ h. absurd h)
ltb_ℤ_iff (negsuc a) (pos b) = (λ h. tt, λ h. refl)
ltb_ℤ_iff (negsuc a) (negsuc b) = ground arith

-- Exactly one of `a < b`, `a == b`, `b < a`.
pub ltb_ℤ_asymm : (a b : ℤ) → ltb_ℤ a b ≡ true → ltb_ℤ b a ≡ false
ltb_ℤ_asymm a b h = ground arith

pub ltb_ℤ_total : (a b : ℤ) → ltb_ℤ a b ≡ false → ltb_ℤ b a ≡ false → a ≡ b
ltb_ℤ_total a b h k = ground arith

pub ltb_ℤ_trans : (a b c : ℤ) → ltb_ℤ a b ≡ true → ltb_ℤ b c ≡ true → ltb_ℤ a c ≡ true
ltb_ℤ_trans a b c h k = ground arith

pub ltb_ℤ_irrefl : (a : ℤ) → ltb_ℤ a a ≡ false
ltb_ℤ_irrefl a = ground arith

pub eqb_ℤ_comm : (a b : ℤ) → eqb_ℤ b a ≡ eqb_ℤ a b
eqb_ℤ_comm a b = ground arith

pub ltb_ℤ_swap : (a b : ℤ) → eqb_ℤ a b ≡ false → ltb_ℤ b a ≡ not (ltb_ℤ a b)
ltb_ℤ_swap a b h = ground arith

-- Numbers as keys of a map.
instance abbrev pub int_key : Eq ℤ
int_key = record { beq = eqb_ℤ; beq_iff = eqb_ℤ_iff }

-- `a ≤ b`
infix 50 ◌≤ℤ◌
abbrev pub ◌≤ℤ◌ : ℤ → ℤ → Type 0
pos a ≤ℤ pos b = a ≤ b
pos a ≤ℤ negsuc b = ⊥
negsuc a ≤ℤ pos b = Unit
negsuc a ≤ℤ negsuc b = b ≤ a

pub not_ltb_ℤ_iff : (a b : ℤ) → (ltb_ℤ a b ≡ false) ↔ (b ≤ℤ a)
not_ltb_ℤ_iff (pos a) (pos b) = ground arith
not_ltb_ℤ_iff (pos a) (negsuc b) = (λ h. tt, λ h. refl)
not_ltb_ℤ_iff (negsuc a) (pos b) = (λ h. cc, λ h. absurd h)
not_ltb_ℤ_iff (negsuc a) (negsuc b) = ground arith

pub positive_iff : (z : ℤ) → (not (ltb_ℤ (pos 0) z) ≡ false) ↔ (pos 0 <ℤ z)
positive_iff (pos n) = ground arith
positive_iff (negsuc n) = (λ h. cc, λ h. absurd h)
