-- ===== src/Base/Int.antt =====
-- The integers that the program's numbers are taken from, over the native ℕ. Orders go through
-- the two parts of an integer, which are numbers that the arithmetic tactics read.
use Prim.Native.Nat.{ℕ, zero, suc, ◌+◌, ◌/◌, ◌%◌, ◌≤◌, ◌<◌}
use mathlib.Core.Path.{◌≡◌}
use mathlib.Core.Logic.{◌↔◌, ◌⊎◌}
use mathlib.Core.Bool.{Bool, true, false}
use native.Mathlib.Omega.{arith}
use discord_copilot_sdk.Base.Tests.{nat_eqb, leb, le→leb, if◌then◌else◌}
use discord_copilot_sdk.Base.Equality.{Eq}

-- `negsuc n` is -(n + 1).
pub data ℤ : Type 0 where
  pos : ℕ → ℤ
  negsuc : ℕ → ℤ

abbrev pub pos_part : ℤ → ℕ
pos_part (pos n) = n
pos_part (negsuc n) = 0

abbrev pub neg_part : ℤ → ℕ
neg_part (pos n) = 0
neg_part (negsuc n) = suc n

abbrev pub int_eqb : ℤ → ℤ → Bool
int_eqb (pos a) (pos b) = nat_eqb a b
int_eqb (negsuc a) (negsuc b) = nat_eqb a b
int_eqb _ _ = false

pub int_eqb_iff : (a b : ℤ) → (int_eqb a b ≡ true) ↔ (a ≡ b)
int_eqb_iff (pos a) (pos b) = ground arith
int_eqb_iff (pos a) (negsuc b) = ground arith
int_eqb_iff (negsuc a) (pos b) = ground arith
int_eqb_iff (negsuc a) (negsuc b) = ground arith

instance abbrev pub int_eq : Eq ℤ
int_eq = record { beq = int_eqb; beq_iff = int_eqb_iff }

infix 50 ◌≤ℤ◌ ◌<ℤ◌
abbrev pub ◌≤ℤ◌ : ℤ → ℤ → Type 0
a ≤ℤ b = pos_part a + neg_part b ≤ pos_part b + neg_part a

abbrev pub ◌<ℤ◌ : ℤ → ℤ → Type 0
a <ℤ b = suc (pos_part a + neg_part b) ≤ pos_part b + neg_part a

abbrev pub leb_ℤ : ℤ → ℤ → Bool
leb_ℤ a b = leb (pos_part a + neg_part b) (pos_part b + neg_part a)

-- `Math.max(a, b)`
unfoldable pub max_ℤ : ℤ → ℤ → ℤ
max_ℤ a b = if leb_ℤ a b then b else a

-- `2 ** 53`, from where on the doubles are the even numbers, and `2 ** 54`, from where on they are
-- the multiples of four, and more.
abbrev pub two_pow_53 : ℕ
two_pow_53 = 9007199254740992

abbrev pub two_pow_54 : ℕ
two_pow_54 = 18014398509481984

-- Half of it is odd, so that a number between it and its neighbour is rounded away from it.
abbrev pub is_odd_half : ℕ → Bool
is_odd_half n = if nat_eqb (n / 2 % 2) 0 then false else true

abbrev pub pred_magnitude : ℕ → ℤ
pred_magnitude zero = pos 0
pred_magnitude (suc m) = negsuc m

abbrev pub pred_magnitude_2 : ℕ → ℤ
pred_magnitude_2 (suc (suc m)) = negsuc m
pred_magnitude_2 _ = pos 0

-- `a + 1` as a double, for a whole number `a` that is a double: exact up to `2 ** 53`, and rounded
-- to the nearest double beyond, a tie to the one whose last bit is zero.
unfoldable pub suc_ℤ : ℤ → ℤ
suc_ℤ (pos n) =
    if leb (suc n) two_pow_53
    then pos (suc n)
    else if leb (suc n) two_pow_54
    then if is_odd_half n then pos (suc (suc n)) else pos n
    else pos n
suc_ℤ (negsuc m) =
    if leb (suc m) two_pow_53
    then pred_magnitude m
    else if leb (suc m) two_pow_54
    then if is_odd_half (suc m) then pred_magnitude_2 m else negsuc m
    else negsuc m

-- `Number.isSafeInteger`, as a bound.
abbrev pub IsSafe : ℤ → Type 0
IsSafe a = pos_part a + neg_part a < two_pow_53

pred_magnitude-lt : (m : ℕ) → negsuc m <ℤ pred_magnitude m
pred_magnitude-lt zero = omega arith
pred_magnitude-lt (suc m) = omega arith

pos-le-suc_ℤ : (n : ℕ) → pos n ≤ℤ suc_ℤ (pos n)
unfolding suc_ℤ
pos-le-suc_ℤ n = ground arith

-- A safe integer is smaller than the successor of every double that is not smaller.
pub suc_ℤ-lt : (a b : ℤ) → IsSafe a → a ≤ℤ b → a <ℤ suc_ℤ b
unfolding suc_ℤ
suc_ℤ-lt (pos n) (pos k) s h = ground arith
suc_ℤ-lt (negsuc m) (pos k) s h = omega (arith, pos-le-suc_ℤ k)
suc_ℤ-lt (pos n) (negsuc k) s h = absurd (omega arith)
suc_ℤ-lt (negsuc m) (negsuc k) s h =
    rw (le→leb (suc k) two_pow_53 (omega arith)) (omega (arith, pred_magnitude-lt k))

pub max_ℤ_bounds : (a b : ℤ) → (a ≤ℤ max_ℤ a b) × (b ≤ℤ max_ℤ a b)
unfolding max_ℤ
max_ℤ_bounds a b = ground arith

pub max_ℤ_cases : (a b : ℤ) → (max_ℤ a b ≡ a) ⊎ (max_ℤ a b ≡ b)
unfolding max_ℤ
max_ℤ_cases a b = ground arith

pub max_ℤ-absorbs : (a b : ℤ) → b ≤ℤ a → max_ℤ a b ≡ a
unfolding max_ℤ
max_ℤ-absorbs (pos a) (pos b) h = ground arith
max_ℤ-absorbs (pos a) (negsuc b) h = ground arith
max_ℤ-absorbs (negsuc a) (pos b) h = ground arith
max_ℤ-absorbs (negsuc a) (negsuc b) h = ground arith

-- 2 ^ 53 - 1, and `Number.isSafeInteger(a)` of an integer.
abbrev pub max_safe_integer : ℕ
max_safe_integer = 9007199254740991

abbrev pub is_safe_integer : ℤ → Bool
is_safe_integer a = leb (pos_part a + neg_part a) max_safe_integer
