-- ===== src/Pool/Verify.antt =====
-- What a peer rebuilds of a gossiped share (p2pearl/daemon.py), the outputs of its coinbase
-- (p2pearl/chain/coinbase.py), the merkle root, and the comparison with a target
-- (p2pearl/pow/verify.py). Building the header and the transaction, and checking a proof, is
-- third-party code, and a parameter.
use p2pearl.Prelude.{
  ℕ, zero, suc, Bool, false, leb, ◌==◌, if◌then◌else◌, Option, none, some, List, [], ◌∷◌, ◌++◌, map,
  length, sum, reverse, replicate, pos,
}
use p2pearl.Prelude.Result.{Result, ok, value_error, ◌>>=◌, ◌>>◌, guard}
use p2pearl.Prelude.Keys.{Bytes, Str, bytes_eq}
use p2pearl.Prelude.Codec.{from_le}
use p2pearl.Consensus.Difficulty.{target_to_bits}
use p2pearl.Consensus.Pplns.{Payout, compute_pplns_payouts}
use p2pearl.Consensus.Share.{ShareBlock, double_sha256, share_id}
use p2pearl.Consensus.Sharechain.{Sharechain, pplns_weights}
use p2pearl.Pool.{serialize_payouts, signed}

-- `CoinbaseOutput`: a payout, or an output that commits to bytes and pays nothing.
pub data CoinbaseOutput : Type 0 where
  pay : ℕ → Str → CoinbaseOutput
  op_return : Bytes → CoinbaseOutput

-- `build_coinbase_outputs`
unfoldable pub build_coinbase_outputs : List Payout → Bytes → ℕ → Result (List CoinbaseOutput)
build_coinbase_outputs payouts id coinbase_value = do
  guard (length id == 32) value_error
  guard (leb (sum (map (λ (p : Payout). p.grains) payouts)) coinbase_value) value_error
  ok (map (λ (p : Payout). pay p.grains p.address) payouts ++ op_return id ∷ [])

-- `meets_target`
unfoldable pub meets_target : Bytes → ℕ → Result Bool
meets_target hash target = do guard (length hash == 32) value_error; ok (leb (from_le hash) target)

module _ (sha256 : Bytes → Bytes) where
  -- One level of the merkle tree: pairs are hashed, and an odd last node is paired with itself.
  unfoldable pub next_level : List Bytes → List Bytes
  next_level [] = []
  next_level (a ∷ []) = double_sha256 sha256 (a ++ a) ∷ []
  next_level (a ∷ b ∷ rest) = double_sha256 sha256 (a ++ b) ∷ next_level rest

  -- The loop over the levels; a level is shorter than the one below, so their number is enough fuel.
  unfoldable pub merkle_from : ℕ → List Bytes → Bytes
  unfolding next_level
  merkle_from fuel [] = replicate 32 0
  merkle_from fuel (a ∷ []) = a
  merkle_from zero (a ∷ b ∷ rest) = a
  merkle_from (suc fuel) (a ∷ b ∷ rest) = merkle_from fuel (next_level (a ∷ b ∷ rest))

  -- `_tx_merkle_root`, on the decoded ids
  unfoldable pub tx_merkle_root : List Bytes → Bytes
  unfolding merkle_from
  tx_merkle_root [] = replicate 32 0
  tx_merkle_root (a ∷ as') = reverse (merkle_from (length (a ∷ as')) (map reverse (a ∷ as')))

  -- `_reconstruct_share`, up to the header: the payouts that the share must commit to.
  unfoldable pub committed_payouts : Sharechain → ℕ → ShareBlock → Result (Option (List Payout))
  committed_payouts c min_payout s = do
    payouts ←
        compute_pplns_payouts (pos s.coinbase_value)
          (signed (pplns_weights c (some s.prev_share_id))) (pos min_payout)
    bytes ← serialize_payouts payouts
    ok (if bytes_eq (double_sha256 sha256 bytes) s.payout_set_hash then some payouts else none)

  -- `_reconstruct_share`
  unfoldable pub reconstruct_share :
      {Header : Type 0}
      → (ShareBlock → List Payout → Bytes → Header)
      → Sharechain
      → ℕ
      → ShareBlock
      → Result (Option (Header × List Payout))
  reconstruct_share build c min_payout s = do
    found ← committed_payouts c min_payout s
    elim found [
      | none ↦ ok none
      | some payouts ↦ do id ← share_id sha256 s; ok (some (build s payouts id, payouts))
    ]

  -- `verify_incoming`, as `_make_verify_incoming` makes it
  unfoldable pub verify_incoming :
      {Header : Type 0}
      → (ShareBlock → List Payout → Bytes → Header)
      → (Header → Str → ℕ → ℕ → Bool)
      → (ShareBlock → ℕ)
      → ℕ
      → Sharechain
      → ShareBlock
      → Str
      → Result Bool
  unfolding reconstruct_share
  verify_incoming build verify_share cert_version min_payout c s proof_b64 = do
    found ← reconstruct_share build c min_payout s
    ok (elim found [
      | none ↦ false
      | some (header, payouts) ↦
          verify_share header proof_b64 (target_to_bits s.share_target) (cert_version s)
    ])
