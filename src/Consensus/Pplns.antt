-- ===== src/Consensus/Pplns.antt =====
-- The PPLNS reward split of p2pearl/consensus/pplns.py. A weight is an integer; only the positive
-- ones count, so the dictionary of survivors holds natural numbers.

pub mod Order
pub mod Drop
pub mod Split
pub mod Payouts
use p2pearl.Prelude.{
  ℕ, zero, suc, ◌+◌, ◌-◌, ◌*◌, ◌/◌, Bool, true, false, not, ◌&&◌, ◌||◌, ltb, leb, ◌==◌,
  if◌then◌else◌, Option, none, some, List, [], ◌∷◌, ◌++◌, map, length, sum, ℤ, pos, negsuc,
  is_negative, pos_part,
}
use p2pearl.Prelude.Result.{Result, ok, raise, value_error, ◌>>=◌, ◌>>◌, guard}
use p2pearl.Prelude.Keys.{Str, str_le, bytes_eq, bytes_key}
use p2pearl.Prelude.Dict.{Dict, lookup, insert, erase}
use p2pearl.Prelude.Sort.{sorted, least}
use mathlib.Core.Option

pub record Payout : Type 0 where
  pub address : Str
  pub grains : ℕ

-- `uncle_weight`: the penalty is at most 100 percent.
unfoldable pub uncle_weight : ℕ → ℕ → ℕ
uncle_weight difficulty penalty_percent = difficulty * (100 - penalty_percent) / 100

abbrev pub Weights : Type 0
Weights = Dict Str ℕ

-- `d[addr] = d.get(addr, 0) + weight`
unfoldable pub add_weight : Str → ℕ → Weights → Weights
add_weight addr weight d = insert addr (Option.get_or (lookup addr d) 0 + weight) d

-- The first loop: positive weights are summed by address.
unfoldable pub survivors_from : Weights → List (Str × ℤ) → Weights
survivors_from d [] = d
survivors_from d ((addr, pos (suc w)) ∷ ws) = survivors_from (add_weight addr (suc w) d) ws
survivors_from d ((addr, pos zero) ∷ ws) = survivors_from d ws
survivors_from d ((addr, negsuc _) ∷ ws) = survivors_from d ws

-- The keys `(weight, address)` of `min`, and `(-weight, address)` of `sorted`, as tests `x <= y`.
unfoldable pub lighter : Str × ℕ → Str × ℕ → Bool
lighter (a, v) (b, w) = ltb v w || ((v == w) && str_le a b)

unfoldable pub heavier : Str × ℕ → Str × ℕ → Bool
heavier (a, v) (b, w) = ltb w v || ((v == w) && str_le a b)

unfoldable pub pays_before : Payout → Payout → Bool
pays_before p q = ltb q.grains p.grains || ((p.grains == q.grains) && str_le p.address q.address)

-- `sum(d.values())`
abbrev pub total_weight : Weights → ℕ
total_weight d = sum (map (λ e. e.1) d)

module _ (reward min_payout : ℕ) where
  -- The loop that drops the lightest survivor while it falls short of the minimum. Each round
  -- removes one, so as many rounds as there are survivors are enough.
  unfoldable pub drop_small : ℕ → Weights → Weights
  drop_small zero d = d
  drop_small (suc fuel) [] = []
  drop_small (suc fuel) (e ∷ []) = e ∷ []
  drop_small (suc fuel) (e ∷ f ∷ d) =
      let all = e ∷ f ∷ d in
      let worst = least lighter e (f ∷ d) in
      let rest = drop_small fuel (erase worst.0 all) in
      if leb min_payout (reward * worst.1 / total_weight all) then all else rest

  -- The loop over `ordered[:-1]` and the last entry, which absorbs the remainder.
  unfoldable pub award : ℕ → ℕ → Weights → List Payout
  award total awarded [] = []
  award total awarded (e ∷ []) = record { address = e.0; grains = reward - awarded } ∷ []
  award total awarded (e ∷ f ∷ d) =
      let grains = reward * e.1 / total in
      record { address = e.0; grains = grains } ∷ award total (awarded + grains) (f ∷ d)

  -- What follows the sort by weight.
  unfoldable pub split_ordered : Weights → List Payout
  unfolding award
  split_ordered [] = []
  split_ordered (e ∷ d) =
      let total = total_weight (e ∷ d) in
      if ltb (reward * e.1 / total) min_payout
      then record { address = e.0; grains = reward } ∷ []
      else sorted pays_before (award total 0 (e ∷ d))

  -- What follows the first loop.
  unfoldable pub split : Weights → List Payout
  unfolding drop_small
  split [] = []
  split (e ∷ d) =
      if reward == 0
      then []
      else split_ordered (sorted heavier (drop_small (length (e ∷ d)) (e ∷ d)))

-- The arguments are block_reward_grains, weights_by_addr and min_payout_grains.
unfoldable pub compute_pplns_payouts : ℤ → List (Str × ℤ) → ℤ → Result (List Payout)
compute_pplns_payouts block_reward_grains weights_by_addr min_payout_grains = do
  guard (not (is_negative block_reward_grains)) value_error
  guard (not (is_negative min_payout_grains)) value_error
  ok (
      split (pos_part block_reward_grains) (pos_part min_payout_grains)
        (survivors_from [] weights_by_addr))
