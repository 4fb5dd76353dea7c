-- ===== src/Prelude/Int.antt =====
-- Signed integers over the native numbers, under the library's names (its ℤ stands on the unary
-- ℕ), and Go's int64: an integer that wraps around at 64 bits.
use Prim.Native.Nat.{ℕ, zero, suc, ◌+◌, ◌-◌, ◌*◌, ◌%◌, ◌^◌, ◌≤◌, ◌<◌}
use mathlib.Core.Path.{◌≡◌, refl, ap, ◌∙◌}
use mathlib.Core.Logic.{◌↔◌}
use mathlib.Core.Bool.{Bool, true, ◌&&◌}
use native.Mathlib.Omega.{arith}
use native.Mathlib.Nat.{mul-le-mul}
use scout_site.Prelude.Tests.{ltb, leb, if◌then◌else◌}

-- `negsuc n` is -(n + 1).
pub data ℤ : Type 0 where
  pos : ℕ → ℤ
  negsuc : ℕ → ℤ

abbrev pub pos_part : ℤ → ℕ
pos_part (pos n) = n
pos_part (negsuc n) = 0

abbrev pub neg_part : ℤ → ℕ
neg_part (pos n) = 0
neg_part (negsuc n) = suc n

-- a - b, as an integer.
abbrev pub sub_ℕ : ℕ → ℕ → ℤ
sub_ℕ a b = if leb b a then pos (a - b) else negsuc (b - a - 1)

infixl 65 ◌+ℤ◌ ◌-ℤ◌
infix 50 ◌≤ℤ◌
unfoldable pub ◌+ℤ◌ : ℤ → ℤ → ℤ
a +ℤ b = sub_ℕ (pos_part a + pos_part b) (neg_part a + neg_part b)

unfoldable pub ◌-ℤ◌ : ℤ → ℤ → ℤ
a -ℤ b = sub_ℕ (pos_part a + neg_part b) (neg_part a + pos_part b)

infixl 70 ◌*ℤ◌
unfoldable pub ◌*ℤ◌ : ℤ → ℤ → ℤ
a *ℤ b =
    sub_ℕ (pos_part a * pos_part b + neg_part a * neg_part b)
      (pos_part a * neg_part b + neg_part a * pos_part b)

abbrev pub ◌≤ℤ◌ : ℤ → ℤ → Type 0
a ≤ℤ b = pos_part a + neg_part b ≤ pos_part b + neg_part a

abbrev pub ltb_ℤ : ℤ → ℤ → Bool
ltb_ℤ a b = ltb (pos_part a + neg_part b) (pos_part b + neg_part a)

abbrev pub leb_ℤ : ℤ → ℤ → Bool
leb_ℤ a b = leb (pos_part a + neg_part b) (pos_part b + neg_part a)

abbrev pub is_zero : ℤ → Bool
is_zero a = leb_ℤ a (pos 0) && leb_ℤ (pos 0) a

pub +ℤ_parts :
    (a b : ℤ)
    → pos_part (a +ℤ b) + neg_part a + neg_part b ≡ neg_part (a +ℤ b) + pos_part a + pos_part b
unfolding ◌+ℤ◌
+ℤ_parts a b = ground arith

pub -ℤ_parts :
    (a b : ℤ)
    → pos_part (a -ℤ b) + neg_part a + pos_part b ≡ neg_part (a -ℤ b) + pos_part a + neg_part b
unfolding ◌-ℤ◌
-ℤ_parts a b = ground arith

pub eq_of_parts : (a b : ℤ) → pos_part a + neg_part b ≡ pos_part b + neg_part a → a ≡ b
eq_of_parts a b h = ground arith

pub ruleset int_laws = (arith, +ℤ_parts, -ℤ_parts, eq_of_parts)

pub is_zero_iff : (a : ℤ) → (is_zero a ≡ true) ↔ (a ≡ pos 0)
is_zero_iff a = ground arith

-- The values of a Go int64 and of a Postgres bigint.
abbrev pub Fits : ℤ → Type 0
Fits a = (pos_part a < 2 ^ 63) × (neg_part a ≤ 2 ^ 63)

abbrev pub fits : ℤ → Bool
fits a = ltb (pos_part a) (2 ^ 63) && leb (neg_part a) (2 ^ 63)

-- The bits of the two's complement representation, read as a signed number.
abbrev signed : ℕ → ℤ
signed m = if ltb m (2 ^ 63) then pos m else negsuc (2 ^ 64 - 1 - m)

-- What is left of an integer in 64 bits.
unfoldable pub wrap : ℤ → ℤ
wrap (pos n) = signed (n % 2 ^ 64)
wrap (negsuc n) = signed (2 ^ 64 - 1 - n % 2 ^ 64)

-- `+` and unary `-` of int64.
unfoldable pub add64 : ℤ → ℤ → ℤ
unfolding wrap
add64 a b = wrap (a +ℤ b)

unfoldable pub neg64 : ℤ → ℤ
unfolding wrap
neg64 a = wrap (pos 0 -ℤ a)

unfoldable pub sub64 : ℤ → ℤ → ℤ
unfolding wrap
sub64 a b = wrap (a -ℤ b)

unfoldable pub mul64 : ℤ → ℤ → ℤ
unfolding wrap
mul64 a b = wrap (a *ℤ b)

pub wrap-Fits : (a : ℤ) → Fits (wrap a)
unfolding wrap
wrap-Fits (pos n) = ground arith
wrap-Fits (negsuc n) = ground arith

pub wrap-eq_of_Fits : (a : ℤ) → Fits a → wrap a ≡ a
unfolding wrap
wrap-eq_of_Fits (pos n) h = ground arith
wrap-eq_of_Fits (negsuc n) h = ground arith

pub zero_of_sum : (s y : ℤ) → s +ℤ y ≡ pos 0 → s ≡ pos 0 → y ≡ pos 0
zero_of_sum s y e z =
    eq_of_parts y (pos 0)
      (omega (arith, +ℤ_parts s y, ap pos_part e, ap neg_part e, ap pos_part z, ap neg_part z))

-- The two's complement opposite: what is below zero comes back by 2 ^ 64, at the least int64 alone.
pub neg64_le : (a : ℤ) → Fits a → neg64 a +ℤ a ≤ℤ pos 0
unfolding neg64 ◌+ℤ◌ ◌-ℤ◌
neg64_le (pos zero) h = ground arith
neg64_le (pos (suc n)) h = ground arith
neg64_le (negsuc n) h = ground arith

pub neg64_exact : (a : ℤ) → Fits a → pos 0 ≤ℤ neg64 a +ℤ a → neg64 a ≡ pos 0 -ℤ a
unfolding neg64 ◌+ℤ◌ ◌-ℤ◌
neg64_exact (pos zero) h k = ground arith
neg64_exact (pos (suc n)) h k = ground arith
neg64_exact (negsuc n) h k = ground arith

pub +ℤ_pos : (a b : ℕ) → pos a +ℤ pos b ≡ pos (a + b)
unfolding ◌+ℤ◌
+ℤ_pos a b = ground arith

pub *ℤ_pos : (a b : ℕ) → pos a *ℤ pos b ≡ pos (a * b)
unfolding ◌*ℤ◌
*ℤ_pos a b = ground arith

pub pos_of_positive : (a : ℤ) → pos 1 ≤ℤ a → a ≡ pos (pos_part a)
pos_of_positive (pos n) h = refl
pos_of_positive (negsuc n) h = absurd (omega (arith, h))

-- Small positive numbers are multiplied exactly.
pub mul64_exact : (p q : ℕ) → p ≤ 100_000_000 → q ≤ 10_000 → mul64 (pos p) (pos q) ≡ pos (p * q)
unfolding mul64
mul64_exact p q h g =
    ap wrap (*ℤ_pos p q)
    ∙ wrap-eq_of_Fits (pos (p * q)) (omega (arith, mul-le-mul h g), omega arith)
