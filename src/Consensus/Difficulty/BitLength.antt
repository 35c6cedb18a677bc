-- ===== src/Consensus/Difficulty/BitLength.antt =====
-- `bit_length` against powers of two, and the byte count that the compact encoding takes from it.
use p2pearl.Prelude.{
  ℕ, zero, suc, ◌+◌, ◌-◌, ◌*◌, ◌/◌, ◌^◌, ◌≤◌, ◌<◌, ◌≡◌, refl, ap, arith, ◌==◌, Bool-cases, inl, inr,
}
use p2pearl.Config.{max_target}
use p2pearl.Consensus.Difficulty.{bit_length_from, bit_length}
use native.Mathlib.Decide.{dec_lt}
use native.Mathlib.Nat.{mul-le-mul_left, pow-suc}

pub pow_add : (a b : ℕ) → 2 ^ (a + b) ≡ 2 ^ a * 2 ^ b
pow_add zero b = let e : 0 + b ≡ b = omega arith in rw e (omega arith)
pow_add (suc a) b =
    let e : suc a + b ≡ suc (a + b) = omega arith in
    rw e (
      omega (
        arith,
        pow-suc 2 (a + b),
        ap (λ (t : ℕ). t * 2) (pow_add a b),
        ap (λ (t : ℕ). t * 2 ^ b) (pow-suc 2 a),
      ))

pub pow_pos : (a : ℕ) → 0 < 2 ^ a
pow_pos zero = omega arith
pow_pos (suc a) = omega (arith, pow-suc 2 a, pow_pos a)

pub pow_mono : (a b : ℕ) → a ≤ b → 2 ^ a ≤ 2 ^ b
pow_mono a b h =
    let e : b ≡ a + (b - a) = omega arith in
    rw e (rw pow_add (omega (arith, mul-le-mul_left (2 ^ a) (pow_pos (b - a)))))

bit_length_from-zero : (fuel : ℕ) → bit_length_from fuel 0 ≡ 0
unfolding bit_length_from
bit_length_from-zero zero = refl
bit_length_from-zero (suc fuel) = refl

bit_length_step :
    (fuel h n : ℕ)
    → (0 < h → 2 ^ bit_length_from fuel h ≤ 2 * h)
    → h ≡ n / 2
    → 0 < n
    → 2 ^ suc (bit_length_from fuel h) ≤ 2 * n
bit_length_step fuel zero n above e p = rw bit_length_from-zero (omega arith)
bit_length_step fuel (suc h) n above e p =
    omega (arith, pow-suc 2 (bit_length_from fuel (suc h)), above (omega arith))

bit_length_from_bounds :
    (fuel n : ℕ)
    → n ≤ fuel
    → (n < 2 ^ bit_length_from fuel n) × (0 < n → 2 ^ bit_length_from fuel n ≤ 2 * n)
unfolding bit_length_from
bit_length_from_bounds zero n h = (omega arith, λ p. absurd (omega arith))
bit_length_from_bounds (suc fuel) n h = elim (Bool-cases (n == 0)) [
  | inl z ↦ rw (z, bit_length_from) (ground arith, λ p. absurd (ground arith))
  | inr nz ↦
      let (below, above) = bit_length_from_bounds fuel (n / 2) (omega arith) in
      let b = bit_length_from fuel (n / 2) in
      rw (nz, bit_length_from)
        (omega (arith, pow-suc 2 b), λ p. bit_length_step fuel (n / 2) n above refl p)
]

exponent_pos : (n k : ℕ) → 0 < n → n < 2 ^ k → 0 < k
exponent_pos n zero p h = absurd (omega arith)
exponent_pos n (suc k) p h = omega arith

pub bit_length_bounds :
    (n : ℕ) → 0 < n → (n < 2 ^ bit_length n) × (2 ^ bit_length n ≤ 2 * n) × (0 < bit_length n)
unfolding bit_length
bit_length_bounds n p =
    let (below, above) = bit_length_from_bounds n n (omega arith) in
    (below, above p, exponent_pos n (bit_length_from n n) p below)

module _ (t : ℕ) (p : 0 < t) where
  -- With k bytes: 256 ^ (k - 1) ≤ t < 256 ^ k.
  abbrev pub nbytes : ℕ
  nbytes = (bit_length t + 7) / 8

  pub nbytes_upper : t < 2 ^ (8 * nbytes)
  nbytes_upper = omega (
    arith,
    bit_length_bounds t p,
    pow_mono (bit_length t) (8 * ((bit_length t + 7) / 8)) (omega arith),
  )

  pub nbytes_lower : 2 ^ (8 * (nbytes - 1)) ≤ t
  nbytes_lower =
      let (_, above, pb) = bit_length_bounds t p in
      let k = 8 * ((bit_length t + 7) / 8 - 1) in
      omega (arith, pow-suc 2 k, pow_mono (suc k) (bit_length t) (omega arith), above)

pub nbytes-le : (t : ℕ) (p : 0 < t) → t ≤ max_target → nbytes t p ≤ 32
nbytes-le t p h = elim (dec_lt 32 (nbytes t p)) [
  | yes q ↦
      absurd (omega (arith, nbytes_lower t p, pow_mono 256 (8 * (nbytes t p - 1)) (omega arith)))
  | no q ↦ omega arith
]
