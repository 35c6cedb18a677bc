-- ===== src/Consensus/Difficulty/Retarget.antt =====
-- The retarget rule and the conversions of p2pearl/consensus/difficulty.py, by their bounds.
use p2pearl.Prelude.{ℕ, ◌*◌, ◌/◌, ◌≤◌, ◌<◌, ◌≡◌, max, arith, ℤ}
use p2pearl.Config.{max_target}
use p2pearl.Consensus.Difficulty.{
  target_to_difficulty, difficulty_to_target, retarget_target, span_of,
}
use p2pearl.Prelude.Arith.{div_anti, div_mono, div_pos, le-div-div, div-div-div}
use native.Mathlib.Nat.{mul-le-mul_left, mul-le-mul_right, div-le_self}

-- The new target is a legal target, and one step moves it by the clamp's factor at most, in
-- either direction.
pub retarget_bounds :
    (prev work : ℕ) (span : ℤ) (time clamp : ℕ)
    → 0 < clamp
    → 0 < prev
    → prev ≤ max_target
    → let next = retarget_target prev work span time clamp in
      (0 < next) × (next ≤ max_target) × (prev / clamp ≤ next) × (next ≤ prev * clamp)
unfolding retarget_target
retarget_bounds prev work span time clamp pc pp hp =
    ground (arith, div-le_self prev clamp, mul-le-mul_left prev pc)

-- The slower the shares of a window came in, the easier the next target.
retarget_mono_span :
    (prev work : ℕ) (span slower : ℤ) (time clamp : ℕ)
    → span_of span ≤ span_of slower
    → retarget_target prev work span time clamp ≤ retarget_target prev work slower time clamp
unfolding retarget_target
retarget_mono_span prev work span slower time clamp h =
    let d = div_anti (work * time) (span_of span) (span_of slower) (omega arith) h in
    let e = max 1 (work * time / span_of slower) in
    let f = max 1 (work * time / span_of span) in
    ground (arith, div_anti max_target e f (omega arith) (omega arith))

-- The more work a window of a given length holds, the harder the next target.
pub retarget_anti_work :
    (prev work more : ℕ) (span : ℤ) (time clamp : ℕ)
    → 0 < work
    → work ≤ more
    → retarget_target prev more span time clamp ≤ retarget_target prev work span time clamp
unfolding retarget_target
retarget_anti_work prev work more span time clamp p h =
    let d =
      div_mono (work * time) (more * time) (span_of span) (omega arith) (mul-le-mul_right time h) in
    let e = max 1 (work * time / span_of span) in
    let f = max 1 (more * time / span_of span) in
    ground (arith, div_anti max_target e f (omega arith) (omega arith))

-- Difficulty and target convert back and forth with rounding in one direction only: a target is
-- never easier than the one its difficulty stands for, and the difficulty survives.
difficulty_round_trip :
    (target : ℕ)
    → 0 < target
    → target ≤ max_target
    → (target ≤ difficulty_to_target (target_to_difficulty target))
      × (target_to_difficulty (difficulty_to_target (target_to_difficulty target))
          ≡ target_to_difficulty target)
unfolding target_to_difficulty difficulty_to_target
difficulty_round_trip target p h = ground (
  arith,
  div_pos max_target target p h,
  le-div-div max_target target p h,
  div-div-div max_target target p h,
)
