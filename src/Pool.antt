-- ===== src/Pool.antt =====
-- The orchestrator of p2pearl/daemon.py: the parent template, the payout encoding and estimate, and
-- the state of a pool node. The adaptive factor of a worker is read from a map, since the average
-- that changes it is a float.
mod Tests
pub mod Jobs
pub mod Successors
pub mod Submit
pub mod Verify
pub mod Commitment
pub mod Coinbase
pub mod Merkle
pub mod Once
pub mod Refresh
pub mod Vardiff
pub mod Estimate
pub mod Template
use p2pearl.Prelude.{
  ℕ, zero, suc, ◌+◌, ◌-◌, ◌*◌, ◌/◌, min, max, Bool, true, false, ltb, leb, ◌==◌, if◌then◌else◌,
  Option, none, some, List, [], ◌∷◌, ◌++◌, map, length, sum, ℤ, pos,
}
use p2pearl.Prelude.Result.{Result, ok, raise, ◌>>=◌}
use p2pearl.Prelude.Keys.{Bytes, Str, bytes_key}
use p2pearl.Prelude.Dict.{Dict, lookup, insert}
use p2pearl.Prelude.Codec.{pack, ascii}
use p2pearl.Consensus.Pplns.{Payout, Weights, total_weight, compute_pplns_payouts}
use p2pearl.Consensus.Share.{ShareBlock}
use p2pearl.Consensus.Sharechain.{Sharechain, tip, pplns_weights}
use mathlib.Core.Option

pub record ParentTemplate : Type 0 where
  pub height : ℕ
  pub prev_block : Bytes
  pub bits : ℕ
  pub curtime : ℕ
  pub coinbase_value : ℕ
  pub version : ℕ
  pub required_cert_version : ℕ
  pub witness_commitment : Option Str
  pub coinbaseaux_flags : Option Str
  pub transactions : List Str

-- The loop of `serialize_payouts`.
unfoldable pub encode_payouts : List Payout → Result Bytes
encode_payouts [] = ok []
encode_payouts (p ∷ ps) = do
  addr ← ascii p.address
  addr_len ← pack 2 (length addr)
  grains ← pack 8 p.grains
  rest ← encode_payouts ps
  ok (addr_len ++ (addr ++ (grains ++ rest)))

unfoldable pub serialize_payouts : List Payout → Result Bytes
unfolding encode_payouts
serialize_payouts ps = do count ← pack 4 (length ps); rest ← encode_payouts ps; ok (count ++ rest)

-- The weights as `compute_pplns_payouts` takes them, which allows for negative ones.
abbrev pub signed : Weights → List (Str × ℤ)
signed = map (λ e. (e.0, pos e.1))

pub record EstimateRow : Type 0 where
  pub address : Str
  pub weight : ℕ
  pub percent_bps : ℕ
  pub potential_grains : ℕ
  pub estimated_grains : ℕ

pub record Snapshot : Type 0 where
  pub window_shares : ℕ
  pub window_max : ℕ
  pub block_reward_grains : ℕ
  pub min_payout_grains : ℕ
  pub total : ℕ
  pub addresses : List EstimateRow

-- `{p.address: p.grains for p in payouts}`, into a dictionary
unfoldable pub payout_by_addr : List Payout → Dict Str ℕ → Dict Str ℕ
payout_by_addr [] d = d
payout_by_addr (p ∷ ps) d = payout_by_addr ps (insert p.address p.grains d)

-- `x // total if total else 0`
abbrev pub share_of : ℕ → ℕ → ℕ
share_of x total = if total == 0 then 0 else x / total

unfoldable pub estimate_row : ℕ → ℕ → Dict Str ℕ → Str × ℕ → EstimateRow
estimate_row reward total paid (address, weight) = record {
  address = address;
  weight = weight;
  percent_bps = share_of (weight * 10_000) total;
  potential_grains = share_of (reward * weight) total;
  estimated_grains = Option.get_or (lookup address paid) 0;
}

unfoldable pub payout_estimate_snapshot : Sharechain → ℕ → ℕ → Result Snapshot
unfolding payout_by_addr
payout_estimate_snapshot c reward min_payout = do
  let weights = pplns_weights c none
  payouts ← compute_pplns_payouts (pos reward) (signed weights) (pos min_payout)
  let shown : ℕ = elim (tip c) [ none ↦ 0 | some t ↦ min (t.sidechain_height + 1) c.window ]
  ok (record {
    window_shares = shown;
    window_max = c.window;
    block_reward_grains = reward;
    min_payout_grains = min_payout;
    total = total_weight weights;
    addresses =
        map (estimate_row reward (total_weight weights) (payout_by_addr payouts [])) weights;
  })

-- A job's candidate share, with what the header builder keeps for the block.
pub record JobContext (Header : Type 0) : Type 0 where
  pub candidate : ShareBlock
  pub header_ctx : Header
  pub payouts : List Payout
  pub cert_version : ℕ

-- The state of a `PoolNode`. `pending_shares` and `assembled_parents` are sets; the flags say which
-- hooks are set.
pub record PoolNode : Type 0 where
  pub sharechain : Sharechain
  pub min_payout : ℕ
  pub stratum_target_factor : ℕ
  pub vardiff_enabled : Bool
  pub vardiff : Str → Str → Option ℕ
  pub template : Option ParentTemplate
  pub pending_shares : List Bytes
  pub assembled_parents : List Bytes
  pub has_broadcast_share : Bool
  pub has_broadcast_block : Bool

-- `worker_label or "default"`
abbrev pub label_or_default : Str → Str
label_or_default [] = 100 ∷ 101 ∷ 102 ∷ 97 ∷ 117 ∷ 108 ∷ 116 ∷ []
label_or_default (c ∷ cs) = c ∷ cs

-- `_worker_target_factor`, for an address that is not empty
unfoldable pub worker_target_factor : PoolNode → Str → Str → ℕ
worker_target_factor n address label =
    if n.vardiff_enabled
    then Option.get_or (n.vardiff address (label_or_default label)) n.stratum_target_factor
    else n.stratum_target_factor

-- `set_template`: a new parent tip starts a new race for its block.
unfoldable pub set_template : ParentTemplate → PoolNode → PoolNode
set_template t n =
    let moved = record n { template = some t; assembled_parents = [] } in
    let same = record n { template = some t } in
    elim n.template [
      | none ↦ moved
      | some old ↦ if bytes_key.beq t.prev_block old.prev_block then same else moved
    ]
