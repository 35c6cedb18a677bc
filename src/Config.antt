-- ===== src/Config.antt =====
-- The constants of p2pearl/config.py.
use p2pearl.Prelude.{ℕ, ◌-◌, ◌/◌, ◌^◌}
use p2pearl.Prelude.Keys.{Str}
use p2pearl.Prelude.Text.{codes}

abbrev pub parent_block_time_seconds : ℕ
parent_block_time_seconds = 194

abbrev pub grain_per_pearl : ℕ
grain_per_pearl = 100_000_000

abbrev pub sidechain_version : ℕ
sidechain_version = 5

abbrev pub share_target_time_seconds : ℕ
share_target_time_seconds = 10

abbrev pub pplns_window_shares : ℕ
pplns_window_shares = 1000

abbrev pub uncle_block_depth : ℕ
uncle_block_depth = 3

abbrev pub uncle_penalty_percent : ℕ
uncle_penalty_percent = 20

abbrev pub min_payout_grains : ℕ
min_payout_grains = 100_000

-- `(1 << 256) - 1`
abbrev pub max_target : ℕ
max_target = 2 ^ 256 - 1

abbrev pub retarget_window_shares : ℕ
retarget_window_shares = 60

abbrev pub retarget_clamp : ℕ
retarget_clamp = 4

abbrev pub bootstrap_share_target : ℕ
bootstrap_share_target = max_target / 2 ^ 50

abbrev pub max_timestamp_drift_seconds : ℕ
max_timestamp_drift_seconds = 300

abbrev pub stratum_target_factor_default : ℕ
stratum_target_factor_default = 256

-- http://127.0.0.1:44107
abbrev pub parent_rpc_default_url : Str
parent_rpc_default_url = codes "http://127.0.0.1:44107"
