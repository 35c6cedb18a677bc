-- ===== src/Consensus/Difficulty/Compact.antt =====
-- The compact encoding of a target: what a reader of the 32 bits decodes.
use p2pearl.Prelude.{
  ℕ, zero, suc, ◌+◌, ◌-◌, ◌*◌, ◌/◌, ◌%◌, ◌^◌, ◌≤◌, ◌<◌, ◌≡◌, refl, arith, leb, if◌then◌else◌, true,
  false,
}
use p2pearl.Config.{max_target}
use p2pearl.Consensus.Difficulty.BitLength.{
  pow_add, pow_pos, bit_length_bounds, nbytes, nbytes_upper, nbytes_lower, nbytes-le,
}
use p2pearl.Consensus.Difficulty.{mantissa_of, compact, normalised, target_to_bits}
use native.Mathlib.Decide.{dec_lt}
use native.Mathlib.Nat.{mul-le-mul_right, le-div_iff_mul-le, div-mul-le_self, lt-div-mul-add}

-- What the bits stand for, mantissa * 256 ** (exponent - 3), as the Pearl node decodes it.
unfoldable pub bits_to_target : ℕ → ℕ
bits_to_target bits =
    let exponent = bits / 2 ^ 24 in
    let mantissa = bits % 2 ^ 24 in
    if leb 3 exponent
    then mantissa * 2 ^ (8 * (exponent - 3))
    else mantissa / 2 ^ (8 * (3 - exponent))

-- The rounding of the mantissa when it is kept, and when it is shifted down by a byte.
keep_rounding :
    (t b : ℕ) → 0 < b → 2 ^ 16 * b ≤ t → (t / b * b ≤ t) × ((t - t / b * b) * 2 ^ 15 < t)
keep_rounding t b pb h =
    (div-mul-le_self t b, omega (arith, div-mul-le_self t b, lt-div-mul-add {a = t} pb))

shift_rounding :
    (t b : ℕ)
    → 0 < b
    → 2 ^ 23 * b ≤ t
    → (t / b / 256 * (256 * b) ≤ t) × ((t - t / b / 256 * (256 * b)) * 2 ^ 15 < t)
shift_rounding t b pb h =
    let q = t / b in
    let e : q / 256 * (256 * b) ≡ 256 * (q / 256) * b = omega arith in
    let lo : 256 * (q / 256) * b ≤ q * b = mul-le-mul_right b (omega arith) in
    let hi : q * b ≤ (256 * (q / 256) + 255) * b = mul-le-mul_right b (omega arith) in
    rw e (
      omega (arith, div-mul-le_self t b, lo),
      omega (arith, div-mul-le_self t b, lt-div-mul-add {a = t} pb, hi, lo),
    )

bits_to_target-compact :
    (k m : ℕ)
    → m < 2 ^ 23
    → bits_to_target (compact k m)
      ≡ (if leb 3 k then m * 2 ^ (8 * (k - 3)) else m / 2 ^ (8 * (3 - k)))
unfolding bits_to_target
bits_to_target-compact k m h =
    let e : (k * 2 ^ 24 + m % 2 ^ 23) / 2 ^ 24 ≡ k = omega arith in
    let f : (k * 2 ^ 24 + m % 2 ^ 23) % 2 ^ 24 ≡ m = omega arith in rw (e, f)

-- What is decoded from a mantissa with its top bit clear, and set.
bits_low :
    (k m : ℕ)
    → m < 2 ^ 23
    → bits_to_target (normalised k m)
      ≡ (if leb 3 k then m * 2 ^ (8 * (k - 3)) else m / 2 ^ (8 * (3 - k)))
bits_low k m h =
    let e : normalised k m ≡ compact k m = ground arith in rw e (bits_to_target-compact k m h)

bits_high :
    (k m : ℕ)
    → 2 ^ 23 ≤ m
    → m < 2 ^ 24
    → bits_to_target (normalised k m) ≡ (
        if leb 3 (k + 1)
        then m / 2 ^ 8 * 2 ^ (8 * (k + 1 - 3))
        else m / 2 ^ 8 / 2 ^ (8 * (3 - (k + 1))))
bits_high k m lo hi =
    let e : normalised k m ≡ compact (k + 1) (m / 2 ^ 8) = ground arith in
    rw e (bits_to_target-compact (k + 1) (m / 2 ^ 8) (omega arith))

-- A value that is at most `t` and below it by less than one part in 2 ^ 15.
abbrev IsClose : ℕ → ℕ → Type 0
IsClose t v = (v ≤ t) × ((t - v) * 2 ^ 15 < t)

IsClose-refl : (t v : ℕ) → 0 < t → v ≡ t → IsClose t v
IsClose-refl t v p e = (omega arith, omega arith)

-- Up to three bytes only the low byte can be lost, where the top bit of three bytes is set.
small-IsClose :
    (k t m : ℕ)
    → 0 < k
    → k ≤ 3
    → 0 < t
    → t < 2 ^ (8 * k)
    → m ≡ mantissa_of t k
    → IsClose t (bits_to_target (normalised k m))
small-IsClose k t m pk hk p h e = elim (dec_lt m (2 ^ 23)) [
  | yes lo ↦ rw (bits_low k m lo) (IsClose-refl t _ p (small_low k pk hk h e))
  | no hi ↦
      rw (bits_high k m (omega arith) (small_mantissa k pk hk h e))
        (small_high k pk hk h (omega arith) e)
]
  where
    small_mantissa : (k : ℕ) → 0 < k → k ≤ 3 → t < 2 ^ (8 * k) → m ≡ mantissa_of t k → m < 2 ^ 24
    small_mantissa zero pk hk h e = absurd (omega arith)
    small_mantissa (suc zero) pk hk h e = omega arith
    small_mantissa (suc (suc zero)) pk hk h e = omega arith
    small_mantissa (suc (suc (suc zero))) pk hk h e = omega arith
    small_mantissa (suc (suc (suc (suc k)))) pk hk h e = absurd (omega arith)

    small_low :
        (k : ℕ)
        → 0 < k
        → k ≤ 3
        → t < 2 ^ (8 * k)
        → m ≡ mantissa_of t k
        → (if leb 3 k then m * 2 ^ (8 * (k - 3)) else m / 2 ^ (8 * (3 - k))) ≡ t
    small_low zero pk hk h e = absurd (omega arith)
    small_low (suc zero) pk hk h e = omega arith
    small_low (suc (suc zero)) pk hk h e = omega arith
    small_low (suc (suc (suc zero))) pk hk h e = omega arith
    small_low (suc (suc (suc (suc k)))) pk hk h e = absurd (omega arith)

    small_high :
        (k : ℕ)
        → 0 < k
        → k ≤ 3
        → t < 2 ^ (8 * k)
        → 2 ^ 23 ≤ m
        → m ≡ mantissa_of t k
        → IsClose t (
            if leb 3 (k + 1)
            then m / 2 ^ 8 * 2 ^ (8 * (k + 1 - 3))
            else m / 2 ^ 8 / 2 ^ (8 * (3 - (k + 1))))
    small_high zero pk hk h hi e = absurd (omega arith)
    small_high (suc zero) pk hk h hi e = omega arith
    small_high (suc (suc zero)) pk hk h hi e = omega arith
    small_high (suc (suc (suc zero))) pk hk h hi e = omega arith
    small_high (suc (suc (suc (suc k)))) pk hk h hi e = absurd (omega arith)

-- From four bytes on the mantissa is the top three.
large-IsClose :
    (k t : ℕ)
    → 3 < k
    → t < 2 ^ (8 * k)
    → 2 ^ (8 * (k - 1)) ≤ t
    → IsClose t (bits_to_target (normalised k (t / 2 ^ (8 * (k - 3)))))
large-IsClose k t hk upper lower = elim (dec_lt m (2 ^ 23)) [
  | yes lo ↦ rw (bits_low k m lo) (
      let e : leb 3 k ≡ true = ground arith in
      rw e (keep_rounding t b (pow_pos (8 * (k - 3))) wide))
  | no hi ↦ rw (bits_high k m (omega arith) narrow) (
      let e : leb 3 (k + 1) ≡ true = ground arith in
      let f : 2 ^ (8 * (k + 1 - 3)) ≡ 256 * b = split 8 (8 * (k + 1 - 3)) (omega arith) in
      rw (e, f)
        (shift_rounding t b (pow_pos (8 * (k - 3)))
          ((le-div_iff_mul-le (pow_pos (8 * (k - 3)))).0 (omega arith))))
]
  where
    b : ℕ
    b = 2 ^ (8 * (k - 3))

    m : ℕ
    m = t / b

    split : (i j : ℕ) → j ≡ i + 8 * (k - 3) → 2 ^ j ≡ 2 ^ i * b
    split i j e = rw e (pow_add i (8 * (k - 3)))

    wide : 2 ^ 16 * b ≤ t
    wide = rw (← split 16 (8 * (k - 1)) (omega arith)) lower

    narrow : m < 2 ^ 24
    narrow = elim (dec_lt m (2 ^ 24)) [
      | yes q ↦ q
      | no q ↦ absurd (
          omega (
            arith,
            upper,
            split 24 (8 * k) (omega arith),
            (le-div_iff_mul-le {x = 2 ^ 24} {y = t} (pow_pos (8 * (k - 3)))).0 (omega arith),
          ))
    ]

encode-IsClose :
    (k t : ℕ)
    → 0 < t
    → 0 < k
    → t < 2 ^ (8 * k)
    → 2 ^ (8 * (k - 1)) ≤ t
    → IsClose t (bits_to_target (normalised k (mantissa_of t k)))
encode-IsClose k t p pk upper lower = elim (dec_lt 3 k) [
  | yes large ↦ let e : leb k 3 ≡ false = ground arith in rw e (large-IsClose k t large upper lower)
  | no small ↦ small-IsClose k t (mantissa_of t k) pk (omega arith) p upper refl
]

-- `normalised` keeps the sign bit clear, and adds one to the exponent at most.
normalised_bounds :
    (k m : ℕ) → k < 255 → (normalised k m < 2 ^ 32) × (normalised k m / 2 ^ 23 % 2 ≡ 0)
normalised_bounds k m h = ground arith

-- The compact bits of a target decode to a target that is never easier than the one encoded, and
-- harder by less than one part in 2 ^ 15; they fit 32 bits, and their sign bit is clear.
pub target_to_bits_close :
    (target : ℕ)
    → 0 < target
    → target ≤ max_target
    → let bits = target_to_bits target in
      (bits_to_target bits ≤ target)
      × ((target - bits_to_target bits) * 2 ^ 15 < target)
      × (bits < 2 ^ 32)
      × (bits / 2 ^ 23 % 2 ≡ 0)
unfolding target_to_bits
target_to_bits_close target p h =
    let k = nbytes target p in
    let e : leb target 0 ≡ false = ground arith in
    let (le, close) =
      encode-IsClose k target p (omega (arith, bit_length_bounds target p)) (nbytes_upper target p)
        (nbytes_lower target p) in
    let (small, clear) =
      normalised_bounds k (mantissa_of target k) (omega (arith, nbytes-le target p h)) in
    rw e (le, close, small, clear)
