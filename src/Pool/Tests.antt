-- ===== src/Pool/Tests.antt =====
-- Runs of the pool daemon's model on small inputs, and its theorems at concrete ones.
use p2pearl.Samples.{alice, bob, genesis, checksum, chain, chain-IsValid}
use p2pearl.Prelude.{
  ℕ, ◌+◌, ◌-◌, ◌*◌, ◌≤◌, max, ltb, ◌≡◌, ◌≢◌, refl, Bool, true, false, if◌then◌else◌, Option, none,
  some, List, [], ◌∷◌, length, map, reverse, replicate, ℤ, pos, arith,
}
use p2pearl.Prelude.Result.{Result, ok}
use p2pearl.Prelude.Keys.{Bytes, Str, bytes_key, bytes_eq}
use p2pearl.Prelude.Dict.{lookup}
use p2pearl.Consensus.Pplns.{Payout, compute_pplns_payouts}
use p2pearl.Consensus.Pplns.Payouts.{has_weight}
use p2pearl.Consensus.Share.{ShareBlock, share_id}
use p2pearl.Consensus.Sharechain.{Sharechain, tip, genesis_prev, new_sharechain}
use p2pearl.Consensus.Sharechain.Validate.{validate}
use p2pearl.Pool.{ParentTemplate, JobContext, PoolNode, set_template}
use p2pearl.Pool.Jobs.{candidate}
use p2pearl.Pool.Successors.{candidate-validate}
use p2pearl.Pool.Commitment.{candidate-committed_payouts}
use p2pearl.Pool.Verify.{CoinbaseOutput, build_coinbase_outputs, committed_payouts, tx_merkle_root}
use p2pearl.Pool.Coinbase.{total_value, build_coinbase_outputs-total}
use p2pearl.Pool.Merkle.{tree_hash, tx_merkle_root-tree_hash}
use p2pearl.Pool.Submit.{
  Submission, Hooks, accepted, already_known, handle_submit, assemble_and_submit,
}
use p2pearl.Pool.Once.{handle_submit-twice, assemble_and_submit-once}
use p2pearl.Pool.Refresh.{
  here, next, polled, requested, opened, poll, request_stratum_refresh, resume, IsSettled,
  resume-IsSettled,
}
use p2pearl.Pool.Vardiff.{
  Averages, new_vardiff, target_factor, after_shares, record_vardiff_share, next_factor,
  target_factor-after_shares,
}

abbrev template : ParentTemplate
template = record {
  height = 100;
  prev_block = replicate 32 7;
  bits = 486_604_799;
  curtime = 1_000;
  coinbase_value = 0;
  version = 1;
  required_cert_version = 1;
  witness_commitment = none;
  coinbaseaux_flags = none;
  transactions = [];
}

abbrev pool : Sharechain → PoolNode
pool c = record {
  sharechain = c;
  min_payout = 100_000;
  stratum_target_factor = 1;
  vardiff_enabled = false;
  vardiff = λ address label. none;
  template = some template;
  pending_shares = [];
  assembled_parents = [];
  has_broadcast_share = true;
  has_broadcast_block = true;
}

-- The first candidate of a new chain: nobody is paid yet, and the set of payouts is empty.
abbrev first : ShareBlock
first = record genesis { payout_set_hash = replicate 32 0 }

first_candidate : candidate checksum (pool chain) template alice [] 1_000 ≡ ok ([], first)
unfolding candidate p2pearl.Pool.Jobs.base_of new_sharechain compute_pplns_payouts
    p2pearl.Pool.serialize_payouts p2pearl.Prelude.Codec.pack p2pearl.Consensus.Pplns.split
    p2pearl.Consensus.Pplns.survivors_from p2pearl.Consensus.Sharechain.pplns_weights
    p2pearl.Prelude.Sort.sorted p2pearl.Consensus.Share.post_init
    p2pearl.Consensus.Share.double_sha256 p2pearl.Consensus.Sharechain.expected_target bytes_eq
    p2pearl.Pool.worker_target_factor p2pearl.Prelude.Codec.le_bytes
first_candidate = refl

nothing_stored : (id : Bytes) → lookup id (pool chain).sharechain.entries ≡ none
unfolding lookup new_sharechain
nothing_stored id = refl

no_tip : (u : ShareBlock) → tip chain ≡ some u → u.parent_height ≤ 100
unfolding new_sharechain
no_tip u h = cc

candidate-validate_example : validate chain first (replicate 32 1) 1_000 ≡ none
candidate-validate_example =
    candidate-validate checksum (pool chain) template alice [] 1_000 [] first (replicate 32 1) 1_000
      chain-IsValid first_candidate (nothing_stored (replicate 32 1)) (omega arith)
      (nothing_stored genesis_prev) no_tip

candidate-committed_payouts_example : committed_payouts checksum chain 100_000 first ≡ ok (some [])
candidate-committed_payouts_example =
    candidate-committed_payouts checksum (pool chain) template alice [] 1_000 [] first chain-IsValid
      (nothing_stored genesis_prev) first_candidate

abbrev weights : List (Str × ℤ)
weights = (bob, pos 60) ∷ (alice, pos 40) ∷ []

abbrev paid : List Payout
paid = record { address = bob; grains = 60 } ∷ record { address = alice; grains = 41 } ∷ []

paid_run : compute_pplns_payouts (pos 101) weights (pos 10) ≡ ok paid
unfolding compute_pplns_payouts p2pearl.Consensus.Pplns.split p2pearl.Consensus.Pplns.survivors_from
    p2pearl.Consensus.Pplns.add_weight p2pearl.Prelude.Dict.insert bytes_eq
    p2pearl.Consensus.Pplns.split_ordered p2pearl.Prelude.Sort.sorted p2pearl.Prelude.Sort.least
    p2pearl.Consensus.Pplns.lighter lookup p2pearl.Consensus.Pplns.heavier
    p2pearl.Consensus.Pplns.pays_before
paid_run = refl

build_coinbase_outputs-total_example :
    (outs : List CoinbaseOutput) × (build_coinbase_outputs paid (replicate 32 3) 101 ≡ ok outs)
    × (total_value outs ≡ (if has_weight weights then 101 else 0))
build_coinbase_outputs-total_example =
    build_coinbase_outputs-total 101 10 weights (replicate 32 3) paid paid_run refl

-- Three ids are the leaves of a tree of depth two, of which the last leaf stands for two.
abbrev ids : List Bytes
ids = (1 ∷ []) ∷ (2 ∷ []) ∷ (3 ∷ []) ∷ []

tx_merkle_root-tree_hash_example :
    tx_merkle_root checksum ids ≡ reverse (tree_hash checksum 2 (map reverse ids))
tx_merkle_root-tree_hash_example =
    tx_merkle_root-tree_hash checksum 2 ids (omega arith) (omega arith) (omega arith)

-- A job context whose header is a number.
abbrev job : JobContext ℕ
job = record { candidate = genesis; header_ctx = 4; payouts = []; cert_version = 1 }

abbrev assemble : ℕ → Str → Result Str
assemble header proof = ok (header ∷ proof)

abbrev submit : Str → Result (Unit {0})
submit block_hex = ok tt

abbrev hooks : Hooks
hooks = record { pre = some (ok tt); post = none }

assemble_and_submit-once_example :
    let n' =
      set_template template
        (assemble_and_submit checksum hooks assemble submit job (65 ∷ []) (pool chain)).0 in
    assemble_and_submit checksum hooks assemble submit job (66 ∷ []) n' ≡ (n', [])
assemble_and_submit-once_example =
    assemble_and_submit-once checksum hooks assemble submit job job (65 ∷ []) (66 ∷ [])
      (4 ∷ 65 ∷ []) (pool chain) template template refl refl refl refl refl refl refl

abbrev submission_of : Submission ℕ
submission_of = record {
  worker_address = alice;
  worker_label = [];
  header_hex = 48 ∷ 48 ∷ [];
  share_target = 65_536;
  context = some job;
  plain_proof = 65 ∷ [];
}

abbrev waiting : PoolNode
waiting = record (pool chain) { pending_shares = replicate 32 32 ∷ [] }

submitted :
    handle_submit checksum submission_of (pool chain)
    ≡ ok (
      accepted,
      waiting,
      p2pearl.Pool.Submit.Effect.validation submission_of job (0 ∷ []) 50397184 ∷ [],
    )
unfolding handle_submit p2pearl.Prelude.Hex.from_hex share_id p2pearl.Consensus.Share.serialize
    p2pearl.Prelude.Codec.pack p2pearl.Prelude.Codec.to_bytes_big
    p2pearl.Consensus.Subsidy.block_subsidy p2pearl.Prelude.Codec.ascii
    p2pearl.Consensus.Share.write_varint lookup new_sharechain p2pearl.Consensus.Sharechain.member
    p2pearl.Consensus.Share.double_sha256 p2pearl.Consensus.Difficulty.target_to_bits
    p2pearl.Prelude.Codec.le_bytes p2pearl.Consensus.Share.join
    p2pearl.Consensus.Difficulty.bit_length
submitted = refl

handle_submit-twice_example :
    handle_submit checksum submission_of waiting ≡ ok (already_known, waiting, [])
handle_submit-twice_example =
    handle_submit-twice checksum submission_of (pool chain) waiting _ submitted waiting
      (λ id h. ground arith)

-- A node that polled a template and then was asked for fresh jobs.
resume-IsSettled_example :
    let d = request_stratum_refresh 7 (poll 5 (some template) (opened (pool chain))) in
    IsSettled d.node.template (resume (resume (resume d)))
resume-IsSettled_example =
    resume-IsSettled (pool chain) (next (next here (polled 5 (some template))) (requested 7))

-- Times in seconds, and an average that is the last interval.
abbrev seconds : Averages
seconds = record {
  Time = ℕ;
  Average = ℕ;
  first_interval = λ last now. now - last;
  next_interval = λ average last now. now - last;
  is_fast = λ average. ltb average 30;
  is_slow = λ average. ltb 120 average;
}

abbrev shares : List (ℕ × Str × Str)
shares = (100, alice, []) ∷ (105, alice, []) ∷ (400, bob, []) ∷ []

target_factor-after_shares_example :
    let factor =
      target_factor seconds (after_shares seconds shares (new_vardiff seconds 256)) alice [] in
    (1 ≤ factor) × (factor ≤ max (max 1 256) 16_777_216)
target_factor-after_shares_example = target_factor-after_shares seconds 256 shares alice []

-- Two shares in five seconds double the factor of one worker and of no other.
doubled :
    target_factor seconds (after_shares seconds shares (new_vardiff seconds 256)) alice [] ≡ 512
unfolding target_factor after_shares new_vardiff record_vardiff_share bytes_eq next_factor
doubled = refl
