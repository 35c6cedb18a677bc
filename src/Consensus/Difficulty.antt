-- ===== src/Consensus/Difficulty.antt =====
-- Targets, difficulties and the retarget rule of p2pearl/consensus/difficulty.py. A larger target
-- is easier. `next_share_target` computes with floats and is not called by the program.
pub mod Retarget
pub mod BitLength
pub mod Compact
use p2pearl.Prelude.{
  ℕ, zero, suc, ◌+◌, ◌-◌, ◌*◌, ◌/◌, ◌%◌, ◌^◌, min, max, Bool, true, false, leb, ◌==◌, if◌then◌else◌,
  ℤ, pos_part,
}
use p2pearl.Config.{max_target}

unfoldable pub target_to_difficulty : ℕ → ℕ
target_to_difficulty target = if leb target 0 then 0 else max_target / target

unfoldable pub difficulty_to_target : ℕ → ℕ
difficulty_to_target difficulty = if leb difficulty 0 then max_target else max_target / difficulty

-- `max(1, int(span_seconds))`
abbrev pub span_of : ℤ → ℕ
span_of span_seconds = max 1 (pos_part span_seconds)

-- The arguments are prev_target, window_work, span_seconds, share_time_seconds and clamp, which
-- is positive (Python raises at `prev_target // 0`); only the span can be negative.
unfoldable pub retarget_target : ℕ → ℕ → ℤ → ℕ → ℕ → ℕ
retarget_target prev_target window_work span_seconds share_time_seconds clamp =
    if leb window_work 0
    then prev_target
    else (let next_difficulty = max 1 (window_work * share_time_seconds / span_of span_seconds) in
        let target = max_target / next_difficulty in
        let lo = max 1 (prev_target / clamp) in
        let hi = min max_target (prev_target * clamp) in max lo (min hi target))

-- `n.bit_length()`, by halving; as much fuel as the number is enough.
bit_length_from : ℕ → ℕ → ℕ
bit_length_from zero n = 0
bit_length_from (suc fuel) n = elim (n == 0) [
  | true ↦ 0
  | false ↦ suc (bit_length_from fuel (n / 2))
]

unfoldable pub bit_length : ℕ → ℕ
unfolding bit_length_from
bit_length n = bit_length_from n n

-- The mantissa before and the byte count; `x << k` is `x * 2 ^ k`, `x >> k` is `x / 2 ^ k`.
abbrev pub mantissa_of : ℕ → ℕ → ℕ
mantissa_of target nbytes =
    if leb nbytes 3 then target * 2 ^ (8 * (3 - nbytes)) else target / 2 ^ (8 * (nbytes - 3))

-- `(nbytes << 24) | (mantissa & 0x007FFFFF)`: the two parts share no bit.
abbrev pub compact : ℕ → ℕ → ℕ
compact nbytes mantissa = nbytes * 2 ^ 24 + mantissa % 2 ^ 23

-- The compact format's mantissa is signed: a set top bit is shifted down by a byte.
abbrev pub normalised : ℕ → ℕ → ℕ
normalised nbytes mantissa =
    if mantissa / 2 ^ 23 % 2 == 1
    then compact (nbytes + 1) (mantissa / 2 ^ 8)
    else compact nbytes mantissa

unfoldable pub target_to_bits : ℕ → ℕ
target_to_bits target =
    if leb target 0
    then 0
    else (let nbytes = (bit_length target + 7) / 8 in normalised nbytes (mantissa_of target nbytes))
