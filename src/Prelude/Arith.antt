-- ===== src/Prelude/Arith.antt =====
-- Facts about division that the bounds of targets and payouts rest on.
use Prim.Native.Nat.{ℕ, ◌/◌, ◌≤◌, ◌<◌}
use mathlib.Core.Path.{◌≡◌}
use native.Mathlib.Omega.{arith}
use native.Mathlib.Nat.{mul-le-mul_left, le-div_iff_mul-le, div-mul-le_self, le_trans, le_antisymm}

pub div_anti : (n a b : ℕ) → 0 < a → a ≤ b → n / b ≤ n / a
div_anti n a b pa h =
    (le-div_iff_mul-le pa).1 (le_trans (mul-le-mul_left (n / b) h) (div-mul-le_self n b))

pub div_mono : (n m a : ℕ) → 0 < a → n ≤ m → n / a ≤ m / a
div_mono n m a pa h = (le-div_iff_mul-le pa).1 (le_trans (div-mul-le_self n a) h)

-- `n / a` is positive for `a` up to `n`.
pub div_pos : (n a : ℕ) → 0 < a → a ≤ n → 0 < n / a
div_pos n a pa h = (le-div_iff_mul-le pa).1 (omega arith)

pub le-div-div : (n a : ℕ) → 0 < a → a ≤ n → a ≤ n / (n / a)
le-div-div n a pa h = (le-div_iff_mul-le (div_pos n a pa h)).1 (omega (arith, div-mul-le_self n a))

-- Dividing three times is dividing once.
pub div-div-div : (n a : ℕ) → 0 < a → a ≤ n → n / (n / (n / a)) ≡ n / a
div-div-div n a pa h =
    le_antisymm (div_anti n a (n / (n / a)) pa (le-div-div n a pa h))
      (le-div-div n (n / a) (div_pos n a pa h) (omega (arith, div_anti n 1 a (omega arith) pa)))
