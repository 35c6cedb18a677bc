-- ===== src/Consensus/Subsidy/Supply.antt =====
-- The sum and the course of the subsidies of p2pearl/consensus/subsidy.py.
use p2pearl.Prelude.{ℕ, zero, suc, ◌+◌, ◌-◌, ◌*◌, ◌/◌, ◌^◌, ◌≤◌, ◌<◌, ◌≡◌, arith}
use p2pearl.Consensus.Subsidy.{block_subsidy, total_supply_grains, emission_constant}
use p2pearl.Prelude.Arith.{div_anti}
use native.Mathlib.Nat.{
  mul-le-mul, mul-le-mul_right, le_of_mul-le-mul_right, lt_of_mul-lt-mul_left, div-mul-le_self,
}

-- The grains issued by the blocks 1 to `n`.
unfoldable pub issued : ℕ → ℕ
issued zero = 0
issued (suc n) = issued n + block_subsidy (suc n)

-- One term of the telescoping sum: t e / ((n + 1 + e) (n + e)) = t (1 - e / (n + 1 + e)) - ….
telescope :
    (s x n e t : ℕ)
    → 0 < e
    → s * (n + e) ≤ t * n
    → x * ((suc n + e) * (n + e)) ≤ t * e
    → (s + x) * (suc n + e) ≤ t * suc n
telescope s x n e t pe hs hx =
    le_of_mul-le-mul_right {k = n + e} (omega (arith, mul-le-mul_right (suc n + e) hs))
      (omega arith)

pub block_subsidy-suc :
    (n : ℕ)
    → block_subsidy (suc n)
      ≡ total_supply_grains
        * emission_constant
        / ((suc n + emission_constant) * (n + emission_constant))
unfolding block_subsidy
block_subsidy-suc n = let e : suc n - 1 ≡ n = omega arith in rw e (ground arith)

subsidy_bound :
    (n : ℕ)
    → block_subsidy (suc n) * ((suc n + emission_constant) * (n + emission_constant))
      ≤ total_supply_grains * emission_constant
subsidy_bound n = rw block_subsidy-suc (div-mul-le_self _ _)

pub issued_bound : (n : ℕ) → issued n * (n + emission_constant) ≤ total_supply_grains * n
unfolding issued
issued_bound zero = omega arith
issued_bound (suc n) =
    telescope (issued n) (block_subsidy (suc n)) n emission_constant total_supply_grains
      (omega arith) (issued_bound n) (subsidy_bound n)

-- However many blocks are mined, the subsidies of all of them together stay below the total
-- supply of 2.1 billion PRL.
pub issued-lt-supply : (n : ℕ) → issued n < total_supply_grains
issued-lt-supply n = lt_of_mul-lt-mul_left (n + emission_constant) (omega (arith, issued_bound n))

-- The subsidy never rises with the height.
pub block_subsidy_anti : (h k : ℕ) → 0 < h → h ≤ k → block_subsidy k ≤ block_subsidy h
block_subsidy_anti (suc h) (suc k) p le =
    rw (block_subsidy-suc h, block_subsidy-suc k)
      (div_anti _ _ _ (omega arith) (mul-le-mul (omega arith) (omega arith)))
block_subsidy_anti zero k p le = absurd (omega arith)
block_subsidy_anti (suc h) zero p le = absurd (omega arith)

-- A subsidy fits the 64 bits that a share gives to its coinbase value.
pub block_subsidy-lt-u64 : (h : ℕ) → block_subsidy h < 2 ^ 64
unfolding issued block_subsidy
block_subsidy-lt-u64 zero = omega arith
block_subsidy-lt-u64 (suc n) = omega (arith, issued-lt-supply (suc n))
