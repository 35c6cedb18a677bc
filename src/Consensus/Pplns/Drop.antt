-- ===== src/Consensus/Pplns/Drop.antt =====
-- The loop of p2pearl/consensus/pplns.py that drops the survivors below the minimum.
use p2pearl.Prelude.{
  ℕ, zero, suc, ◌+◌, ◌*◌, ◌/◌, ◌≤◌, ◌<◌, ◌≡◌, true, leb, ◌⊎◌, inl, inr, [], ◌∷◌, length, All,
  All-map, if-elim, leb→le, arith,
}
use p2pearl.Prelude.Keys.{Str, bytes_key}
use p2pearl.Prelude.Dict.{contains, erase, length-erase, All-contains, All-erase}
use p2pearl.Prelude.Arith.{div_mono}
use p2pearl.Prelude.Sort.{least}
use p2pearl.Prelude.SortLaws.{least-le, least-All}
use p2pearl.Consensus.Pplns.{Weights, total_weight, lighter, drop_small}
use p2pearl.Consensus.Pplns.Order.{lighter-IsOrder}
use native.Mathlib.Nat.{le_trans, mul-le-mul_left}

-- The weights of the survivors are positive.
abbrev pub IsPositive : Weights → Type 0
IsPositive = All (λ e. 0 < e.1)

pub total_weight_pos : (e : Str × ℕ) (d : Weights) → IsPositive (e ∷ d) → 0 < total_weight (e ∷ d)
total_weight_pos e d p = omega (arith, p.0)

module _ (reward min_payout : ℕ) where
  -- An entry's own share of the reward clears the minimum.
  abbrev pub Clears : ℕ → Str × ℕ → Type 0
  Clears total e = min_payout ≤ reward * e.1 / total

  -- How the loop ends: with one survivor, or with none below the minimum.
  abbrev pub IsEnd : Weights → Type 0
  IsEnd kept = (length kept ≤ 1) ⊎ All (Clears (total_weight kept)) kept

  -- If the lightest clears the minimum, all do.
  All-Clears :
      (total : ℕ) (worst : Str × ℕ) (d : Weights)
      → 0 < total
      → min_payout ≤ reward * worst.1 / total
      → All (λ e. lighter worst e ≡ true) d
      → All (Clears total) d
  unfolding lighter
  All-Clears total worst d pt h =
      All-map (λ e. lighter worst e ≡ true) (Clears total) d
        λ e l. le_trans h (div_mono _ _ total pt (mul-le-mul_left reward (ground arith)))

  -- Dropping the lightest of two or more leaves one less.
  length-erase_worst :
      (e f : Str × ℕ) (d : Weights)
      → length (erase (least lighter e (f ∷ d)).0 (e ∷ f ∷ d)) ≡ length d + 1
  length-erase_worst e f d =
      let all = e ∷ f ∷ d in
      let found = All-contains all in
      omega (
        arith,
        length-erase (least lighter e (f ∷ d)).0 all
            (least-All lighter (λ x. contains x.0 all ≡ true) e (f ∷ d) found.0 found.1),
      )

  -- One round: the loop stops, or goes on without the lightest.
  drop_small_round :
      (P : Weights → Type 0) (fuel : ℕ) (e f : Str × ℕ) (d : Weights)
      → (min_payout ≤ reward * (least lighter e (f ∷ d)).1 / total_weight (e ∷ f ∷ d)
          → P (e ∷ f ∷ d))
      → P (drop_small reward min_payout fuel (erase (least lighter e (f ∷ d)).0 (e ∷ f ∷ d)))
      → P (drop_small reward min_payout (suc fuel) (e ∷ f ∷ d))
  unfolding drop_small
  drop_small_round P fuel e f d stop go =
      let all = e ∷ f ∷ d in
      let worst = least lighter e (f ∷ d) in
      if-elim P (leb min_payout (reward * worst.1 / total_weight all)) all
        (drop_small reward min_payout fuel (erase worst.0 all)) (λ t. stop (leb→le _ _ t)) (λ _. go)

  -- With as much fuel as there are survivors the loop ends by its own test.
  pub drop_small-IsEnd :
      (fuel : ℕ) (d : Weights)
      → length d ≤ fuel
      → IsPositive d
      → IsEnd (drop_small reward min_payout fuel d)
  unfolding drop_small
  drop_small-IsEnd zero [] h p = inl (omega arith)
  drop_small-IsEnd zero (e ∷ d) h p = absurd (omega arith)
  drop_small-IsEnd (suc fuel) [] h p = inl (omega arith)
  drop_small-IsEnd (suc fuel) (e ∷ []) h p = inl (omega arith)
  drop_small-IsEnd (suc fuel) (e ∷ f ∷ d) h p =
      let all = e ∷ f ∷ d in
      let worst = least lighter e (f ∷ d) in
      drop_small_round IsEnd fuel e f d
        (λ t. inr (
          All-Clears (total_weight all) worst all (total_weight_pos e (f ∷ d) p) t
            (least-le lighter lighter-IsOrder e (f ∷ d))))
        (drop_small-IsEnd fuel (erase worst.0 all) (omega (arith, length-erase_worst e f d))
          (All-erase (λ e. 0 < e.1) worst.0 all p))

  -- A property of entries outlives the loop.
  pub All-drop_small {κ} :
      (P : Str × ℕ → Type κ) (fuel : ℕ) (d : Weights)
      → All P d
      → All P (drop_small reward min_payout fuel d)
  unfolding drop_small
  All-drop_small P zero d p = p
  All-drop_small P (suc fuel) [] p = p
  All-drop_small P (suc fuel) (e ∷ []) p = p
  All-drop_small P (suc fuel) (e ∷ f ∷ d) p =
      let all = e ∷ f ∷ d in
      let worst = least lighter e (f ∷ d) in
      if-elim (All P) (leb min_payout (reward * worst.1 / total_weight all)) all
        (drop_small reward min_payout fuel (erase worst.0 all)) (λ _. p)
        (λ _. All-drop_small P fuel (erase worst.0 all) (All-erase P worst.0 all p))

  pub drop_small-pos :
      (fuel : ℕ) (d : Weights) → 0 < length d → 0 < length (drop_small reward min_payout fuel d)
  unfolding drop_small
  drop_small-pos zero d h = h
  drop_small-pos (suc fuel) [] h = h
  drop_small-pos (suc fuel) (e ∷ []) h = h
  drop_small-pos (suc fuel) (e ∷ f ∷ d) h =
      drop_small_round (λ (kept : Weights). 0 < length kept) fuel e f d (λ _. h)
        (drop_small-pos fuel (erase (least lighter e (f ∷ d)).0 (e ∷ f ∷ d))
          (omega (arith, length-erase_worst e f d)))
