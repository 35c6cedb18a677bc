-- ===== src/Consensus/Tests.antt =====
-- Runs of the consensus modules on small inputs, and their theorems at concrete ones.
use p2pearl.Prelude.{
  ℕ, ◌+◌, ◌-◌, ◌*◌, ◌/◌, ◌%◌, ◌^◌, ◌≤◌, ◌<◌, ◌≡◌, refl, Bool, true, false, ◌||◌, if◌then◌else◌, ◌⊎◌,
  ◌↔◌, inl, inr, Option, none, some, ℤ, List, [], ◌∷◌, ◌++◌, length, sum, replicate, All, pos,
  negsuc, arith,
}
use p2pearl.Samples.{
  alice, bob, eve, genesis, checksum, chain, started, child, genesis_id, chain-IsValid,
  genesis-IsWire, genesis-IsShare,
}
use p2pearl.Prelude.Result.{ok}
use p2pearl.Prelude.Keys.{Bytes, Str, bytes_key, bytes_eq}
use p2pearl.Prelude.Dict.{lookup, insert}
use p2pearl.Config.{max_target, bootstrap_share_target}
use p2pearl.Consensus.Subsidy.{block_subsidy, total_supply_grains}
use p2pearl.Consensus.Subsidy.Supply.{issued, issued-lt-supply, block_subsidy-lt-u64}
use p2pearl.Consensus.Difficulty.{retarget_target, target_to_bits}
use p2pearl.Consensus.Difficulty.Retarget.{retarget_bounds}
use p2pearl.Consensus.Difficulty.Compact.{bits_to_target, target_to_bits_close}
use p2pearl.Consensus.Pplns.{Payout, compute_pplns_payouts, pays_before, total_weight}
use p2pearl.Consensus.Pplns.Split.{total_grains}
use p2pearl.Consensus.Pplns.Payouts.{
  has_weight, payouts_total, payouts_minimum, Falling, payouts-Falling,
}
use p2pearl.Consensus.Share.{ShareBlock, post_init, serialize, deserialize, share_id, difficulty}
use p2pearl.Consensus.Share.RoundTrip.{IsWire, IsShare, deserialize-serialize, serialize-injective}
use p2pearl.Consensus.Sharechain.{
  Sharechain, Entry, new_sharechain, genesis_prev, pplns_weights, expected_target, work,
}
use p2pearl.Consensus.Sharechain.Window.{
  main_chain, uncles_of, once, uncles_weight, pplns_weights_total,
}
use p2pearl.Consensus.Sharechain.Target.{IsNear, expected_target-IsNear}
use p2pearl.Consensus.Sharechain.Validate.{validate, bad_share_target}
use p2pearl.Consensus.Sharechain.Add.{AddResult, add_share}
use p2pearl.Consensus.Sharechain.Successor.{IsSuccessor, validate_iff}
use p2pearl.Consensus.Sharechain.Invariant.{IsValid}
use p2pearl.Consensus.Sharechain.Insertion.{best_work, add_share_lem}

issued-lt-supply_example : issued 3 < total_supply_grains
issued-lt-supply_example = issued-lt-supply 3

retarget_bounds_example :
    let next = retarget_target 1_000 50 (pos 100) 10 4 in
    (0 < next) × (next ≤ max_target) × (1_000 / 4 ≤ next) × (next ≤ 1_000 * 4)
retarget_bounds_example =
    retarget_bounds 1_000 50 (pos 100) 10 4 (omega arith) (omega arith) (omega arith)

-- Two shares of difficulty 50 in 7 seconds ask for 142 = 100 * 10 / 7, within the clamp.
retarget_run : retarget_target (max_target / 50) 100 (pos 7) 10 4 ≡ max_target / 142
unfolding retarget_target
retarget_run = refl

target_to_bits_close_example :
    let bits = target_to_bits 65_536 in
    (bits_to_target bits ≤ 65_536)
    × ((65_536 - bits_to_target bits) * 2 ^ 15 < 65_536)
    × (bits < 2 ^ 32)
    × (bits / 2 ^ 23 % 2 ≡ 0)
target_to_bits_close_example = target_to_bits_close 65_536 (omega arith) (omega arith)

-- Three miners, one of them below the minimum of 10 grains.
abbrev weights : List (Str × ℤ)
weights = (bob, pos 30) ∷ (alice, pos 40) ∷ (eve, pos 1) ∷ (eve, negsuc 4) ∷ (bob, pos 30) ∷ []

payouts_run :
    compute_pplns_payouts (pos 101) weights (pos 10)
    ≡ ok (record { address = bob; grains = 60 } ∷ record { address = alice; grains = 41 } ∷ [])
unfolding compute_pplns_payouts p2pearl.Consensus.Pplns.split p2pearl.Consensus.Pplns.survivors_from
    p2pearl.Consensus.Pplns.add_weight insert bytes_eq p2pearl.Consensus.Pplns.split_ordered
    p2pearl.Prelude.Sort.sorted p2pearl.Prelude.Sort.least p2pearl.Consensus.Pplns.lighter lookup
    p2pearl.Prelude.Dict.erase p2pearl.Consensus.Pplns.heavier pays_before
payouts_run = refl

payouts_total_example :
    (ps : List Payout) × (compute_pplns_payouts (pos 101) weights (pos 10) ≡ ok ps)
    × (total_grains ps ≡ (if has_weight weights then 101 else 0))
payouts_total_example = payouts_total 101 10 weights

abbrev paid : List Payout
paid = record { address = bob; grains = 60 } ∷ record { address = alice; grains = 41 } ∷ []

payouts_minimum_example : (length paid ≤ 1) ⊎ All (λ (p : Payout). 10 ≤ p.grains) paid
payouts_minimum_example = payouts_minimum 101 10 weights payouts_run

payouts-Falling_example : Falling paid
payouts-Falling_example = payouts-Falling (pos 101) (pos 10) weights payouts_run

add_genesis :
    add_share checksum chain genesis true none 1_000
    ≡ ok (record { accepted = true; is_best_tip = true; reason = none }, started)
unfolding add_share validate share_id serialize p2pearl.Prelude.Codec.pack
    p2pearl.Prelude.Codec.to_bytes_big block_subsidy p2pearl.Prelude.Codec.ascii
    p2pearl.Consensus.Share.write_varint lookup new_sharechain
    p2pearl.Consensus.Sharechain.Validate.distinct p2pearl.Consensus.Sharechain.member bytes_eq
    p2pearl.Consensus.Sharechain.Validate.check_genesis p2pearl.Consensus.Sharechain.Add.store
    p2pearl.Consensus.Sharechain.Add.cumulative_of p2pearl.Consensus.Sharechain.Add.is_best
    retarget_target difficulty p2pearl.Consensus.Share.double_sha256 p2pearl.Consensus.Share.join
    p2pearl.Consensus.Sharechain.Add.keep_from p2pearl.Consensus.Sharechain.Add.prune
    p2pearl.Consensus.Sharechain.Add.uncle_work p2pearl.Consensus.Sharechain.Validate.check_child
    p2pearl.Consensus.Sharechain.Validate.check_link
    p2pearl.Consensus.Sharechain.Validate.check_share
    p2pearl.Consensus.Sharechain.Validate.check_uncles p2pearl.Consensus.Sharechain.Validate.recent
    p2pearl.Consensus.Sharechain.expected_target p2pearl.Consensus.Sharechain.look_back
    p2pearl.Consensus.Sharechain.target_after p2pearl.Prelude.Codec.le_bytes insert
add_genesis = refl

child_accepted : validate started child (replicate 32 1) 1_005 ≡ none
unfolding validate block_subsidy lookup p2pearl.Consensus.Sharechain.Validate.distinct
    p2pearl.Consensus.Sharechain.member bytes_eq p2pearl.Consensus.Sharechain.Validate.check_genesis
    retarget_target difficulty p2pearl.Consensus.Sharechain.Validate.check_child
    p2pearl.Consensus.Sharechain.Validate.check_link
    p2pearl.Consensus.Sharechain.Validate.check_share
    p2pearl.Consensus.Sharechain.Validate.check_uncles p2pearl.Consensus.Sharechain.Validate.recent
    p2pearl.Consensus.Sharechain.expected_target p2pearl.Consensus.Sharechain.look_back
    p2pearl.Consensus.Sharechain.target_after new_sharechain
child_accepted = refl

-- The genesis's own target is too easy for it.
easy_child_rejected :
    validate started (record child { target_limit = bootstrap_share_target }) (replicate 32 1) 1_005
    ≡ some bad_share_target
unfolding validate block_subsidy lookup p2pearl.Consensus.Sharechain.Validate.distinct
    p2pearl.Consensus.Sharechain.member bytes_eq p2pearl.Consensus.Sharechain.Validate.check_genesis
    retarget_target difficulty p2pearl.Consensus.Sharechain.Validate.check_child
    p2pearl.Consensus.Sharechain.Validate.check_link
    p2pearl.Consensus.Sharechain.Validate.check_share
    p2pearl.Consensus.Sharechain.Validate.check_uncles p2pearl.Consensus.Sharechain.Validate.recent
    p2pearl.Consensus.Sharechain.expected_target p2pearl.Consensus.Sharechain.look_back
    p2pearl.Consensus.Sharechain.target_after new_sharechain
easy_child_rejected = refl

child-IsSuccessor : IsSuccessor started child (replicate 32 1) 1_005
child-IsSuccessor = (validate_iff started child (replicate 32 1) 1_005).0 child_accepted

validate_iff_example :
    (validate started child (replicate 32 1) 1_005 ≡ none)
    ↔ IsSuccessor started child (replicate 32 1) 1_005
validate_iff_example = validate_iff started child (replicate 32 1) 1_005

add_share_lem_example :
    (r : AddResult) × (c' : Sharechain) × (add_share checksum chain genesis true none 1_000
      ≡ ok (r, c'))
    × IsValid checksum c'
    × (best_work chain ≤ best_work c')
    × ((r.accepted ≡ true) ↔ ((true ≡ true) × IsSuccessor chain genesis (replicate 32 32) 1_000))
    × (c'.best_tip ≡ (if r.is_best_tip then some (replicate 32 32) else none))
    × (r.accepted ≡ false → c' ≡ chain)
    × ((k : Bytes) (e : Entry)
        → lookup k c'.entries ≡ some e
        → (e.share ≡ genesis) ⊎ (lookup k chain.entries ≡ some e))
unfolding new_sharechain
add_share_lem_example =
    add_share_lem checksum chain genesis true none 1_000 (replicate 32 32) chain-IsValid genesis_id

deserialize-serialize_example :
    (d : Bytes) × (serialize genesis ≡ ok d)
    × (deserialize (d ++ 1 ∷ []) ≡ ok (record genesis { pow_hash = replicate 32 0 }))
deserialize-serialize_example =
    deserialize-serialize genesis genesis-IsWire genesis-IsShare (inl (omega arith)) (1 ∷ [])

-- The same share with the proof-of-work hash that a node has found.
abbrev solved : ShareBlock
solved = record genesis { pow_hash = replicate 32 1 }

solved-IsWire : IsWire solved
solved-IsWire = record {
  version = omega arith;
  sidechain_height = omega arith;
  parent_height = omega arith;
  timestamp = omega arith;
  block_nbits = omega arith;
  coinbase_version = omega arith;
  coinbase_value = block_subsidy-lt-u64 100;
  address_ascii = refl;
  address_length = omega arith;
  uncles_length = omega arith;
}

solved-IsShare : IsShare solved
unfolding post_init
solved-IsShare = refl

serialize-injective_example :
    record genesis { pow_hash = replicate 32 0 } ≡ record solved { pow_hash = replicate 32 0 }
unfolding serialize
serialize-injective_example =
    serialize-injective genesis solved genesis-IsWire genesis-IsShare (inl (omega arith))
      solved-IsWire solved-IsShare (inl (omega arith)) refl

-- The entry of the genesis share.
abbrev genesis_entry : Entry
genesis_entry = record { share = genesis; cumulative_difficulty = 2 ^ 50; proof = none }

genesis_found : lookup (replicate 32 32) started.entries ≡ some genesis_entry
unfolding lookup bytes_eq
genesis_found = refl

halved : expected_target started (replicate 32 32) (some 1_005) ≡ some (bootstrap_share_target / 2)
unfolding expected_target bytes_eq lookup p2pearl.Consensus.Sharechain.look_back new_sharechain
    p2pearl.Consensus.Sharechain.target_after retarget_target difficulty
halved = refl

expected_target-IsNear_example : IsNear bootstrap_share_target (bootstrap_share_target / 2)
unfolding bytes_eq
expected_target-IsNear_example =
    expected_target-IsNear started (replicate 32 32) (some 1_005) genesis_entry
      (bootstrap_share_target / 2) refl genesis_found (omega arith) (omega arith) halved

pplns_weights_run : pplns_weights started none ≡ (alice, 2 ^ 50) ∷ []
unfolding pplns_weights p2pearl.Prelude.Sort.sorted new_sharechain lookup bytes_eq
    p2pearl.Consensus.Pplns.add_weight insert difficulty
pplns_weights_run = refl

pplns_weights_total_example :
    let main = main_chain started 1_000 (some (replicate 32 32)) in
    (total_weight (pplns_weights started none)
      ≡ work main + uncles_weight started (once started (uncles_of started main) []))
    × (length main ≤ 1_000)
unfolding new_sharechain
pplns_weights_total_example = pplns_weights_total started none
