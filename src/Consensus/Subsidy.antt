-- ===== src/Consensus/Subsidy.antt =====
-- The block-subsidy schedule of p2pearl/consensus/subsidy.py.
pub mod Supply
use p2pearl.Prelude.{ℕ, ◌+◌, ◌-◌, ◌*◌, ◌/◌, leb, if◌then◌else◌}
use p2pearl.Config.{grain_per_pearl, parent_block_time_seconds}

abbrev pub total_supply_grains : ℕ
total_supply_grains = 2_100_000_000 * grain_per_pearl

abbrev pub emission_constant : ℕ
emission_constant = 4 * 365 * 24 * 60 * 60 / parent_block_time_seconds

-- Heights are unsigned; at 0 the source returns 0.
unfoldable pub block_subsidy : ℕ → ℕ
block_subsidy height =
    if leb height 0
    then 0
    else total_supply_grains
      * emission_constant
      / ((height + emission_constant) * (height - 1 + emission_constant))
