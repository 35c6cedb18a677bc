-- ===== src/Desktop/Floats.antt =====
-- The float arithmetic of `format_prl_amount` in p2pearl/gui.py: an amount in grains divided by 10 ** 8
-- gives the nearest double, of 53 bits, and `:.8f` prints the nearest decimal number of eight places
-- to that double; a tie goes to the even neighbour. No amount reaches the largest double.
use p2pearl.Prelude.{
  ℕ, ◌+◌, ◌-◌, ◌*◌, ◌/◌, ◌%◌, ◌^◌, ◌==◌, ◌≤◌, ◌<◌, ◌≡◌, refl, false, ltb, ltb→le, ltb→lt,
  if◌then◌else◌, if-elim, ap, arith,
}
use native.Mathlib.Nat.{mod-lt, div-add-mod', div-lt_iff_lt-mul, mul-le-mul_right}
use native.Mathlib.Decide.{dec_lt}
use p2pearl.Config.{grain_per_pearl}
use p2pearl.Consensus.Difficulty.{bit_length}
use p2pearl.Consensus.Difficulty.BitLength.{pow_pos, pow_mono, bit_length_bounds}

-- The integer nearest to `a / b`.
unfoldable pub round_half_even : ℕ → ℕ → ℕ
round_half_even a b =
    let q = a / b in
    let r = a % b in
    if ltb (2 * r) b then q else if ltb b (2 * r) then q + 1 else if q % 2 == 0 then q else q + 1

-- A double: a mantissa times a power of two, over another.
pub record Double : Type 0 where
  pub mantissa : ℕ
  pub up : ℕ
  pub down : ℕ

-- The bits of the quotient with 64 binary places, which is positive where the amount is.
abbrev pub quotient_bits : ℕ → ℕ
quotient_bits grains = bit_length (grains * 2 ^ 64 / grain_per_pearl)

-- `grains / GRAIN_PER_PEARL`: the quotient is scaled to 53 bits before it is rounded.
unfoldable pub divide : ℕ → Double
divide grains =
    let bits = quotient_bits grains in
    record {
      mantissa = round_half_even (grains * 2 ^ (117 - bits)) (grain_per_pearl * 2 ^ (bits - 117));
      up = bits - 117;
      down = 117 - bits;
    }

-- The eight places of `:.8f`, as a whole number.
unfoldable pub places_8 : Double → ℕ
places_8 x = round_half_even (x.mantissa * 2 ^ x.up * grain_per_pearl) (2 ^ x.down)

-- A whole number that is within a half of a quotient.
abbrev IsNear : ℕ → ℕ → ℕ → Type 0
IsNear a b v = (2 * (v * b) ≤ 2 * a + b) × (2 * a ≤ 2 * (v * b) + b)

round_half_even-IsNear : (a b : ℕ) → 0 < b → IsNear a b (round_half_even a b)
unfolding round_half_even
round_half_even-IsNear a b p =
    let q = a / b in
    let r = a % b in
    let whole : q * b + r ≡ a = div-add-mod' a b in
    let small : r < b = mod-lt a p in
    let next : (q + 1) * b ≡ q * b + b = omega arith in
    let tied : ltb (2 * r) b ≡ false → ltb b (2 * r) ≡ false → 2 * r ≡ b =
      λ h k. omega (arith, ltb→le (2 * r) b h, ltb→le b (2 * r) k) in
    if-elim (IsNear a b) (ltb (2 * r) b) q _
      (λ h. let low = ltb→lt (2 * r) b h in (omega (arith, whole, low), omega (arith, whole, low)))
      (λ h.
        if-elim (IsNear a b) (ltb b (2 * r)) (q + 1) _
          (λ k.
            let high = ltb→lt b (2 * r) k in
            (omega (arith, whole, next, small, high), omega (arith, whole, next, small, high)))
          (λ k.
            let tie = tied h k in
            if-elim (IsNear a b) (q % 2 == 0) q (q + 1)
              (λ _. (omega (arith, whole, tie), omega (arith, whole, tie)))
              (λ _. (omega (arith, whole, next, tie), omega (arith, whole, next, tie)))))

lifted : (v g b : ℕ) → v < g → v * b + b ≤ g * b
lifted v g b h =
    let step : (v + 1) * b ≤ g * b = mul-le-mul_right b (omega arith) in omega (arith, step)

-- Two whole numbers near to a quotient, one of them strictly, are the same.
near_unique :
    (a b v g : ℕ) → 0 < b → IsNear a b v → 2 * (g * b) < 2 * a + b → 2 * a < 2 * (g * b) + b → v ≡ g
near_unique a b v g p n low high = elim (dec_lt v g) [
  | yes less ↦ absurd (omega (arith, n, low, high, lifted v g b less))
  | no not_less ↦ elim (dec_lt g v) [
    | yes more ↦ absurd (omega (arith, n, low, high, lifted g v b more))
    | no not_more ↦ omega arith
  ]
]

bit_length-zero : bit_length 0 ≡ 0
unfolding bit_length
bit_length-zero = refl

-- Below 2 ^ 26 PRL there are at most 90 bits.
quotient_bits-le : (grains : ℕ) → grains < 2 ^ 26 * grain_per_pearl → quotient_bits grains ≤ 90
quotient_bits-le grains h =
    let y = grains * 2 ^ 64 / grain_per_pearl in
    let positive : 0 < grain_per_pearl = omega arith in
    let low : y < 2 ^ 90 = (div-lt_iff_lt-mul positive).1 (omega arith) in
    elim (dec_lt 90 (bit_length y)) [
      | no q ↦ omega arith
      | yes q ↦ elim (dec_lt 0 y) [
        | yes p ↦
            let (_, above, _) = bit_length_bounds y p in
            absurd (omega (arith, above, low, pow_mono 91 (bit_length y) (omega arith)))
        | no p ↦
            let nothing : y ≡ 0 = omega arith in
            absurd (omega (arith, ap bit_length nothing, bit_length-zero))
      ]
    ]

-- Below 2 ^ 26 PRL the places are those of the amount.
pub places_8-divide :
    (grains : ℕ) → grains < 2 ^ 26 * grain_per_pearl → places_8 (divide grains) ≡ grains
unfolding places_8 divide
places_8-divide grains h =
    let bits = quotient_bits grains in
    let few : bits ≤ 90 = quotient_bits-le grains h in
    let no_up : bits - 117 ≡ 0 = omega arith in
    let scale = 2 ^ (117 - bits) in
    let wide : 2 ^ 27 ≤ scale = pow_mono 27 (117 - bits) (omega arith) in
    let m = round_half_even (grains * scale) grain_per_pearl in
    let near : IsNear (grains * scale) grain_per_pearl m =
      round_half_even-IsNear (grains * scale) grain_per_pearl (omega arith) in
    let exact : round_half_even (m * grain_per_pearl) scale ≡ grains =
      near_unique (m * grain_per_pearl) scale (round_half_even (m * grain_per_pearl) scale) grains
        (pow_pos (117 - bits))
        (round_half_even-IsNear (m * grain_per_pearl) scale (pow_pos (117 - bits)))
        (omega (arith, near, wide)) (omega (arith, near, wide)) in
    let one : grain_per_pearl * 2 ^ 0 ≡ grain_per_pearl = omega arith in
    let same : m * 2 ^ 0 * grain_per_pearl ≡ m * grain_per_pearl = omega arith in
    rw (no_up, one, same) exact
