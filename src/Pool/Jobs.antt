-- ===== src/Pool/Jobs.antt =====
-- `build_job_for` of p2pearl/daemon.py: the candidate share of a miner, and the header that commits
-- to it.
use p2pearl.Prelude.{ℕ, ◌+◌, ◌/◌, max, Option, none, some, List, [], ◌∷◌, replicate, pos}
use p2pearl.Prelude.Result.{Result, ok, ◌>>=◌}
use p2pearl.Prelude.Keys.{Bytes, Str}
use p2pearl.Config.{sidechain_version}
use p2pearl.Consensus.Subsidy.{block_subsidy}
use p2pearl.Consensus.Pplns.{Payout, compute_pplns_payouts}
use p2pearl.Consensus.Share.{ShareBlock, post_init, double_sha256, share_id}
use p2pearl.Consensus.Sharechain.{Sharechain, tip, genesis_prev, expected_target, pplns_weights}
use p2pearl.Pool.{
  ParentTemplate, serialize_payouts, signed, JobContext, PoolNode, worker_target_factor,
}

-- What a candidate takes from the tip: its parent's id, its height, the earliest timestamp, and the
-- target limit that is carried where none can be derived.
pub record Base : Type 0 where
  pub prev_share_id : Bytes
  pub height : ℕ
  pub earliest : ℕ
  pub carried : ℕ

-- `share_timestamp`
abbrev pub stamp : ℕ → ParentTemplate → Base → ℕ
stamp now t b = max now (max t.curtime b.earliest)

module _ (sha256 : Bytes → Bytes) where
  -- Without a tip the earliest time is the template's, and the expected target is the bootstrap one.
  unfoldable pub base_of : ParentTemplate → Option ShareBlock → Result Base
  base_of t none =
      ok (record { prev_share_id = genesis_prev; height = 0; earliest = t.curtime; carried = 0 })
  base_of t (some s) = do
    id ← share_id sha256 s
    ok (record {
      prev_share_id = id;
      height = s.sidechain_height + 1;
      earliest = s.timestamp + 1;
      carried = s.target_limit;
    })

  -- `target_limit`
  abbrev pub limit_after : Sharechain → Base → ℕ → ℕ
  limit_after c b time = elim (expected_target c b.prev_share_id (some time)) [
    | none ↦ b.carried
    | some t ↦ t
  ]

  -- The candidate, before its checks.
  abbrev pub candidate_of : PoolNode → ParentTemplate → Str → Str → ℕ → Base → Bytes → ShareBlock
  candidate_of n t address label now b payout_set_hash =
      let time = stamp now t b in
      let limit = limit_after n.sharechain b time in
      record {
        version = sidechain_version;
        sidechain_height = b.height;
        prev_share_id = b.prev_share_id;
        parent_prev_block = t.prev_block;
        parent_height = t.height;
        timestamp = time;
        share_target = max 1 (limit / worker_target_factor n address label);
        block_nbits = t.bits;
        coinbase_version = t.version;
        coinbase_value = block_subsidy t.height;
        miner_address = address;
        payout_set_hash = payout_set_hash;
        target_limit = limit;
        uncle_ids = [];
        pow_hash = replicate 32 0;
      }

  -- The payouts that the candidate commits to, and the candidate.
  unfoldable pub candidate :
      PoolNode → ParentTemplate → Str → Str → ℕ → Result (List Payout × ShareBlock)
  candidate n t address label now = do
    b ← base_of t (tip n.sharechain)
    payouts ←
        compute_pplns_payouts (pos (block_subsidy t.height))
          (signed (pplns_weights n.sharechain none)) (pos n.min_payout)
    bytes ← serialize_payouts payouts
    let raw = candidate_of n t address label now b (double_sha256 sha256 bytes)
    s ← post_init (some raw.target_limit) raw
    ok (payouts, s)

  pub record Job (Header : Type 0) : Type 0 where
    pub header_hex : Str
    pub share_target : ℕ
    pub height : ℕ
    pub context : JobContext Header

  -- `build_job_for`; the header builder is a parameter, and gets the template at the share's time.
  unfoldable pub build_job_for :
      {Header : Type 0}
      → (ParentTemplate → List Payout → Bytes → Str × Header)
      → PoolNode
      → Str
      → Str
      → ℕ
      → Result (Option (Job Header))
  unfolding candidate
  build_job_for make_header n [] label now = ok none
  build_job_for make_header n (a ∷ as') label now = elim n.template [
    | none ↦ ok none
    | some t ↦ do
      (payouts, s) ← candidate n t (a ∷ as') label now
      sid ← share_id sha256 s
      let (header_hex, header_ctx) = make_header (record t { curtime = s.timestamp }) payouts sid
      ok (
          some (record {
            header_hex = header_hex;
            share_target = s.share_target;
            height = s.sidechain_height;
            context = record {
              candidate = s;
              header_ctx = header_ctx;
              payouts = payouts;
              cert_version = t.required_cert_version;
            };
          }))
  ]
