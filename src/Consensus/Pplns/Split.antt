-- ===== src/Consensus/Pplns/Split.antt =====
-- The amounts that p2pearl/consensus/pplns.py awards: their sum, their minimum and their order.
use p2pearl.Prelude.{
  ℕ, suc, ◌+◌, ◌-◌, ◌*◌, ◌/◌, ◌≤◌, ◌<◌, ◌≡◌, refl, ap, ltb, ◌==◌, ◌⊎◌, inl, inr, List, [], ◌∷◌, map,
  length, sum, All, if-elim, arith,
}
use p2pearl.Prelude.Keys.{Str, bytes_key}
use p2pearl.Prelude.Sort.{sorted}
use p2pearl.Prelude.SortLaws.{All-sorted, sum-sorted, length-sorted, IsSorted, sorted-IsSorted}
use p2pearl.Consensus.Pplns.{
  Payout, Weights, total_weight, heavier, pays_before, drop_small, award, split_ordered, split,
}
use p2pearl.Consensus.Pplns.Drop.{
  IsPositive, total_weight_pos, Clears, IsEnd, drop_small-IsEnd, All-drop_small, drop_small-pos,
}
use p2pearl.Consensus.Pplns.Order.{pays_before-IsOrder}
use native.Mathlib.Nat.{le_trans, div-le_of_le-mul, div-mul-le_self, le_of_mul-le-mul_right}

-- `sum(p.grains for p in payouts)`
abbrev pub total_grains : List Payout → ℕ
total_grains ps = sum (map (λ p. p.grains) ps)

module _ (reward min_payout : ℕ) where
  award_total :
      (total awarded : ℕ) (e : Str × ℕ) (d : Weights)
      → 0 < total
      → awarded * total + reward * total_weight (e ∷ d) ≤ reward * total
      → awarded + total_grains (award reward min_payout total awarded (e ∷ d)) ≡ reward
  unfolding award
  award_total total awarded e [] pt h =
      omega (arith, le_of_mul-le-mul_right {m = awarded} {n = reward} {k = total} (omega arith) pt)
  award_total total awarded e (f ∷ d) pt h =
      let g = reward * e.1 / total in
      omega (
        arith,
        award_total total (awarded + g) f d pt
            (omega (arith, div-mul-le_self (reward * e.1) total)),
      )

  award_minimum :
      (total awarded : ℕ) (d : Weights)
      → 0 < total
      → awarded * total + reward * total_weight d ≤ reward * total
      → All (Clears reward min_payout total) d
      → All (λ p. min_payout ≤ p.grains) (award reward min_payout total awarded d)
  unfolding award
  award_minimum total awarded [] pt h c = tt
  award_minimum total awarded (e ∷ []) pt h c = (
    le_trans c.0 (
        div-le_of_le-mul total (
          let fits : awarded ≤ reward =
            le_of_mul-le-mul_right {m = awarded} {n = reward} {k = total} (omega arith) pt in
          let e : awarded + (reward - awarded) ≡ reward = omega arith in
          omega (arith, ap (λ (t : ℕ). total * t) e))),
    tt,
  )
  award_minimum total awarded (e ∷ f ∷ d) pt h c =
      let g = reward * e.1 / total in
      (
        c.0,
        award_minimum total (awarded + g) (f ∷ d) pt
            (omega (arith, div-mul-le_self (reward * e.1) total)) c.1,
      )

  -- The rest of the split shares out the whole reward.
  pub split_ordered-total :
      (d : Weights)
      → 0 < length d
      → IsPositive d
      → total_grains (split_ordered reward min_payout d) ≡ reward
  unfolding split_ordered
  split_ordered-total [] h p = absurd (omega arith)
  split_ordered-total (e ∷ d) h p =
      let total = total_weight (e ∷ d) in
      if-elim (λ ps. total_grains ps ≡ reward) (ltb (reward * e.1 / total) min_payout)
        (record { address = e.0; grains = reward } ∷ [])
        (sorted pays_before (award reward min_payout total 0 (e ∷ d))) (λ _. omega arith)
        (λ _.
          rw (sum-sorted pays_before (λ p. p.grains))
            (omega (arith, award_total total 0 e d (total_weight_pos e d p) (omega arith))))

  length-award :
      (total awarded : ℕ) (d : Weights)
      → length (award reward min_payout total awarded d) ≡ length d
  unfolding award
  length-award total awarded [] = refl
  length-award total awarded (e ∷ []) = refl
  length-award total awarded (e ∷ f ∷ d) =
      ap suc (length-award total (awarded + reward * e.1 / total) (f ∷ d))

  -- A sole payout, or none below the minimum.
  abbrev pub HasMinimum : List Payout → Type 0
  HasMinimum ps = (length ps ≤ 1) ⊎ All (λ p. min_payout ≤ p.grains) ps

  pub split_ordered-HasMinimum :
      (d : Weights)
      → IsPositive d
      → IsEnd reward min_payout d
      → HasMinimum (split_ordered reward min_payout d)
  unfolding split_ordered
  split_ordered-HasMinimum [] p c = inl (omega arith)
  split_ordered-HasMinimum (e ∷ d) p c =
      let total = total_weight (e ∷ d) in
      let ps = award reward min_payout total 0 (e ∷ d) in
      if-elim HasMinimum (ltb (reward * e.1 / total) min_payout)
        (record { address = e.0; grains = reward } ∷ []) (sorted pays_before ps)
        (λ _. inl (omega arith))
        (λ _. elim c [
          | inl one ↦
              inl (omega (arith, length-sorted pays_before ps, length-award total 0 (e ∷ d)))
          | inr all ↦ inr (
              All-sorted pays_before (λ p. min_payout ≤ p.grains) ps
                (award_minimum total 0 (e ∷ d) (total_weight_pos e d p) (omega arith) all))
        ])

  sorted-IsEnd :
      (d : Weights) → IsEnd reward min_payout d → IsEnd reward min_payout (sorted heavier d)
  sorted-IsEnd d (inl one) = inl (omega (arith, length-sorted heavier d))
  sorted-IsEnd d (inr all) = inr (
      rw (sum-sorted heavier (λ e. e.1))
        (All-sorted heavier (Clears reward min_payout (total_weight d)) d all))

  split_ordered-IsSorted : (d : Weights) → IsSorted pays_before (split_ordered reward min_payout d)
  unfolding split_ordered
  split_ordered-IsSorted [] = tt
  split_ordered-IsSorted (e ∷ d) =
      if-elim (IsSorted pays_before) (ltb (reward * e.1 / total_weight (e ∷ d)) min_payout)
        (record { address = e.0; grains = reward } ∷ [])
        (sorted pays_before (award reward min_payout (total_weight (e ∷ d)) 0 (e ∷ d)))
        (λ _. (tt, tt)) (λ _. sorted-IsSorted pays_before pays_before-IsOrder _)

  -- The survivors as they are shared out.
  abbrev pub kept_of : Weights → Weights
  kept_of d = sorted heavier (drop_small reward min_payout (length d) d)

  pub split-total :
      (e : Str × ℕ) (d : Weights)
      → IsPositive (e ∷ d)
      → total_grains (split reward min_payout (e ∷ d)) ≡ reward
  unfolding split
  split-total e d p =
      let dropped = drop_small reward min_payout (length (e ∷ d)) (e ∷ d) in
      if-elim (λ ps. total_grains ps ≡ reward) (reward == 0) []
        (split_ordered reward min_payout (kept_of (e ∷ d))) (λ z. ground arith)
        (λ _.
          split_ordered-total (kept_of (e ∷ d))
            (omega (
              arith,
              length-sorted heavier dropped,
              drop_small-pos reward min_payout (length (e ∷ d)) (e ∷ d) (omega arith),
            ))
            (All-sorted heavier (λ e. 0 < e.1) dropped
              (All-drop_small reward min_payout (λ e. 0 < e.1) (length (e ∷ d)) (e ∷ d) p)))

  pub split-HasMinimum : (d : Weights) → IsPositive d → HasMinimum (split reward min_payout d)
  unfolding split
  split-HasMinimum [] p = inl (omega arith)
  split-HasMinimum (e ∷ d) p =
      if-elim HasMinimum (reward == 0) [] (split_ordered reward min_payout (kept_of (e ∷ d)))
        (λ _. inl (omega arith))
        (λ _.
          split_ordered-HasMinimum (kept_of (e ∷ d))
            (All-sorted heavier (λ e. 0 < e.1)
              (drop_small reward min_payout (length (e ∷ d)) (e ∷ d))
              (All-drop_small reward min_payout (λ e. 0 < e.1) (length (e ∷ d)) (e ∷ d) p))
            (sorted-IsEnd (drop_small reward min_payout (length (e ∷ d)) (e ∷ d))
              (drop_small-IsEnd reward min_payout (length (e ∷ d)) (e ∷ d) (omega arith) p)))

  pub split-IsSorted : (d : Weights) → IsSorted pays_before (split reward min_payout d)
  unfolding split split_ordered
  split-IsSorted [] = tt
  split-IsSorted (e ∷ d) =
      if-elim (IsSorted pays_before) (reward == 0) []
        (split_ordered reward min_payout (kept_of (e ∷ d))) (λ _. tt)
        (λ _. split_ordered-IsSorted (kept_of (e ∷ d)))
