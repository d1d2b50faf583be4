-- ===== src/Base/Int.antt =====
-- int64 and int32 values. `negsuc n` is -(n + 1).
use Prim.Native.Nat.{ℕ, zero, suc, ◌-◌, ◌<◌, ◌^◌}
use mathlib.Core.Bool.{Bool, true, false}
use mathlib.Core.Path.{◌≡◌}
use mathlib.Core.Logic.{◌⊎◌}
use native.Mathlib.Omega.{arith}

pub data ℤ : Type 0 where
  pos : ℕ → ℤ
  negsuc : ℕ → ℤ

-- n < 0
abbrev pub is_neg : ℤ → Bool
is_neg (pos n) = false
is_neg (negsuc n) = true

-- n > 0
abbrev pub is_pos : ℤ → Bool
is_pos (pos zero) = false
is_pos (pos (suc n)) = true
is_pos (negsuc n) = false

-- n == 0
abbrev pub is_zero : ℤ → Bool
is_zero (pos zero) = true
is_zero (pos (suc n)) = false
is_zero (negsuc n) = false

-- n - 1; below the least int64 this would wrap, and the program only takes 1 from positive values
abbrev pub pred : ℤ → ℤ
pred (pos zero) = negsuc 0
pred (pos (suc n)) = pos n
pred (negsuc n) = negsuc (suc n)

-- The values of a signed integer of `w` bits.
abbrev pub InRange : ℕ → ℤ → Type 0
InRange w (pos n) = n < 2 ^ (w - 1)
InRange w (negsuc n) = n < 2 ^ (w - 1)

pub is_pos-signs : (n : ℤ) → is_pos n ≡ true → (is_neg n ≡ false) × (is_zero n ≡ false)
is_pos-signs n h = ground arith

pub is_zero-nonneg : (n : ℤ) → is_zero n ≡ true → is_neg n ≡ false
is_zero-nonneg n h = ground arith

pub is_zero-nonpos : (n : ℤ) → is_zero n ≡ true → is_pos n ≡ false
is_zero-nonpos n h = ground arith

pub is_neg-nonpos : (n : ℤ) → is_neg n ≡ true → is_pos n ≡ false
is_neg-nonpos n h = ground arith

-- The three signs.
pub sign_cases : (n : ℤ) → (is_neg n ≡ true) ⊎ (is_zero n ≡ true) ⊎ (is_pos n ≡ true)
sign_cases n = ground arith
