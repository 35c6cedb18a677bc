-- ===== src/Pool/Coinbase.antt =====
-- The coinbase of a share (p2pearl/chain/coinbase.py) and the merkle root (p2pearl/daemon.py).
use p2pearl.Prelude.{
  ℕ, ◌+◌, ◌≡◌, refl, sym, subst, ap, ◌∙◌, true, leb, ◌==◌, if◌then◌else◌, List, [], ◌∷◌, ◌++◌, map,
  length, ℤ, pos, arith,
}
use p2pearl.Prelude.Result.{ok, ok-injective}
use p2pearl.Prelude.Keys.{Bytes, Str}
use p2pearl.Consensus.Pplns.{Payout, compute_pplns_payouts}
use p2pearl.Consensus.Pplns.Split.{total_grains}
use p2pearl.Consensus.Pplns.Payouts.{has_weight, payouts_total}
use p2pearl.Pool.Verify.{CoinbaseOutput, pay, op_return, build_coinbase_outputs}

-- What an output pays.
abbrev pub value_of : CoinbaseOutput → ℕ
value_of (pay grains address) = grains
value_of (op_return bytes) = 0

-- What some outputs pay together.
unfoldable pub total_value : List CoinbaseOutput → ℕ
total_value [] = 0
total_value (o ∷ os) = value_of o + total_value os

total_value-payouts :
    (ps : List Payout) (id : Bytes)
    → total_value (map (λ (p : Payout). pay p.grains p.address) ps ++ op_return id ∷ [])
      ≡ total_grains ps
unfolding total_value
total_value-payouts [] id = refl
total_value-payouts (p ∷ ps) id = ap (λ x. p.grains + x) (total_value-payouts ps id)

-- The payouts of a coinbase value always make a coinbase: the outputs are built, for any id of 32
-- bytes, and pay exactly the value where any weight is positive, and nothing where none is.
pub build_coinbase_outputs-total :
    (value min_payout : ℕ) (ws : List (Str × ℤ)) (id : Bytes) (ps : List Payout)
    → compute_pplns_payouts (pos value) ws (pos min_payout) ≡ ok ps
    → length id ≡ 32
    → (outs : List CoinbaseOutput) × (build_coinbase_outputs ps id value ≡ ok outs)
      × (total_value outs ≡ (if has_weight ws then value else 0))
unfolding build_coinbase_outputs
build_coinbase_outputs-total value min_payout ws id ps paid size =
    let (qs, e, total) = payouts_total value min_payout ws in
    let same : qs ≡ ps = ok-injective (sym e ∙ paid) in
    let sum_is : total_grains ps ≡ (if has_weight ws then value else 0) =
      subst (λ x. total_grains x ≡ (if has_weight ws then value else 0)) same total in
    let wide : (length id == 32) ≡ true = ground arith in
    let fits : leb (total_grains ps) value ≡ true = ground (arith, sum_is) in
    (
      map (λ (p : Payout). pay p.grains p.address) ps ++ op_return id ∷ [],
      rw (wide, fits) refl,
      total_value-payouts ps id ∙ sum_is,
    )
