-- ===== src/Consensus/Pplns/Payouts.antt =====
-- `compute_pplns_payouts` of p2pearl/consensus/pplns.py, on any list of weights.
use p2pearl.Prelude.{
  ℕ, zero, suc, ◌≤◌, ◌<◌, ◌≡◌, refl, subst, Bool, true, false, if◌then◌else◌, Bool-cases, if-elim,
  ◌⊎◌, inl, inr, List, [], ◌∷◌, length, All, All-map, arith, ℤ, pos, negsuc,
}
use p2pearl.Prelude.Result.{ok, ok-injective}
use p2pearl.Prelude.Keys.{Str, str_le, bytes_key}
use p2pearl.Prelude.Dict.{insert}
use p2pearl.Prelude.SortLaws.{IsSorted}
use p2pearl.Consensus.Pplns.{
  Payout, Weights, add_weight, survivors_from, pays_before, split, compute_pplns_payouts,
}
use p2pearl.Consensus.Pplns.Drop.{IsPositive}
use p2pearl.Consensus.Pplns.Split.{
  total_grains, HasMinimum, split-total, split-HasMinimum, split-IsSorted,
}

-- Some miner has a positive weight.
abbrev pub has_weight : List (Str × ℤ) → Bool
has_weight [] = false
has_weight ((a, pos (suc w)) ∷ ws) = true
has_weight ((a, pos zero) ∷ ws) = has_weight ws
has_weight ((a, negsuc w) ∷ ws) = has_weight ws

insert-IsPositive :
    (a : Str) (w : ℕ) (d : Weights) → 0 < w → IsPositive d → IsPositive (insert a w d)
unfolding insert
insert-IsPositive a w [] h p = (h, tt)
insert-IsPositive a w (e ∷ d) h p =
    if-elim IsPositive (bytes_key.beq e.0 a) ((e.0, w) ∷ d) (e ∷ insert a w d) (λ _. (h, p.1))
      (λ _. (p.0, insert-IsPositive a w d h p.1))

insert-pos : (a : Str) (w : ℕ) (d : Weights) → 0 < length (insert a w d)
unfolding insert
insert-pos a w [] = omega arith
insert-pos a w (e ∷ d) = ground arith

pub survivors_from-IsPositive :
    (d : Weights) (ws : List (Str × ℤ)) → IsPositive d → IsPositive (survivors_from d ws)
unfolding survivors_from add_weight
survivors_from-IsPositive d [] p = p
survivors_from-IsPositive d ((a, pos (suc w)) ∷ ws) p =
    survivors_from-IsPositive (add_weight a (suc w) d) ws (insert-IsPositive a _ d (omega arith) p)
survivors_from-IsPositive d ((a, pos zero) ∷ ws) p = survivors_from-IsPositive d ws p
survivors_from-IsPositive d ((a, negsuc w) ∷ ws) p = survivors_from-IsPositive d ws p

survivors_from-pos :
    (d : Weights) (ws : List (Str × ℤ)) → 0 < length d → 0 < length (survivors_from d ws)
unfolding survivors_from add_weight
survivors_from-pos d [] h = h
survivors_from-pos d ((a, pos (suc w)) ∷ ws) h =
    survivors_from-pos (add_weight a (suc w) d) ws (insert-pos a _ d)
survivors_from-pos d ((a, pos zero) ∷ ws) h = survivors_from-pos d ws h
survivors_from-pos d ((a, negsuc w) ∷ ws) h = survivors_from-pos d ws h

has_weight-pos : (ws : List (Str × ℤ)) → has_weight ws ≡ true → 0 < length (survivors_from [] ws)
unfolding survivors_from add_weight
has_weight-pos [] h = cc
has_weight-pos ((a, pos (suc w)) ∷ ws) h = survivors_from-pos _ ws (insert-pos a _ [])
has_weight-pos ((a, pos zero) ∷ ws) h = has_weight-pos ws h
has_weight-pos ((a, negsuc w) ∷ ws) h = has_weight-pos ws h

no_weight-nil : (ws : List (Str × ℤ)) → has_weight ws ≡ false → survivors_from [] ws ≡ []
unfolding survivors_from
no_weight-nil [] h = refl
no_weight-nil ((a, pos (suc w)) ∷ ws) h = cc
no_weight-nil ((a, pos zero) ∷ ws) h = no_weight-nil ws h
no_weight-nil ((a, negsuc w) ∷ ws) h = no_weight-nil ws h

split-total_pos :
    (reward min_payout : ℕ) (d : Weights)
    → 0 < length d
    → IsPositive d
    → total_grains (split reward min_payout d) ≡ reward
split-total_pos reward min_payout [] h p = absurd (omega arith)
split-total_pos reward min_payout (e ∷ d) h p = split-total reward min_payout e d p

-- With an amount and a minimum that are not negative the split succeeds, and its payouts add up
-- to exactly the reward if some miner has a positive weight, and to nothing otherwise.
pub payouts_total :
    (reward min_payout : ℕ) (ws : List (Str × ℤ))
    → (ps : List Payout) × (compute_pplns_payouts (pos reward) ws (pos min_payout) ≡ ok ps)
      × (total_grains ps ≡ (if has_weight ws then reward else 0))
unfolding compute_pplns_payouts
payouts_total reward min_payout ws = elim (Bool-cases (has_weight ws)) [
  | inl h ↦ (
    split reward min_payout (survivors_from [] ws),
    refl,
    rw h (
        split-total_pos reward min_payout _ (has_weight-pos ws h)
          (survivors_from-IsPositive [] ws tt)),
  )
  | inr h ↦ (
    split reward min_payout (survivors_from [] ws),
    refl,
    rw (h, no_weight-nil ws h) (unfold split in refl),
  )
]

-- Every payout reaches the minimum, unless a single miner is paid.
pub payouts_minimum :
    (reward min_payout : ℕ) (ws : List (Str × ℤ)) {ps : List Payout}
    → compute_pplns_payouts (pos reward) ws (pos min_payout) ≡ ok ps
    → (length ps ≤ 1) ⊎ All (λ p. min_payout ≤ p.grains) ps
unfolding compute_pplns_payouts
payouts_minimum reward min_payout ws h =
    subst (HasMinimum reward min_payout) (ok-injective h)
      (split-HasMinimum reward min_payout _ (survivors_from-IsPositive [] ws tt))

-- The amounts fall or stay, and equal amounts come by rising address.
abbrev Follows : Payout → Payout → Type 0
Follows p q = (q.grains < p.grains) ⊎ ((q.grains ≡ p.grains) × (str_le p.address q.address ≡ true))

abbrev pub Falling : List Payout → Type 0
Falling [] = Unit
Falling (p ∷ ps) = All (Follows p) ps × Falling ps

pays_before-Follows : (p q : Payout) → pays_before p q ≡ true → Follows p q
unfolding pays_before
pays_before-Follows p q h = ground arith

IsSorted-Falling : (ps : List Payout) → IsSorted pays_before ps → Falling ps
IsSorted-Falling [] h = tt
IsSorted-Falling (p ∷ ps) h = (
  All-map (λ q. pays_before p q ≡ true) (Follows p) ps (pays_before-Follows p) h.0,
  IsSorted-Falling ps h.1,
)

payouts-IsSorted :
    (reward min_payout : ℤ) (ws : List (Str × ℤ)) {ps : List Payout}
    → compute_pplns_payouts reward ws min_payout ≡ ok ps
    → IsSorted pays_before ps
unfolding compute_pplns_payouts
payouts-IsSorted (pos r) (pos m) ws h =
    subst (IsSorted pays_before) (ok-injective h) (split-IsSorted r m (survivors_from [] ws))
payouts-IsSorted (pos r) (negsuc m) ws h = cc
payouts-IsSorted (negsuc r) (pos m) ws h = cc
payouts-IsSorted (negsuc r) (negsuc m) ws h = cc

-- Whenever the split succeeds, no payout is followed by a larger one, and equal amounts come in the
-- order of their addresses.
pub payouts-Falling :
    (reward min_payout : ℤ) (ws : List (Str × ℤ)) {ps : List Payout}
    → compute_pplns_payouts reward ws min_payout ≡ ok ps
    → Falling ps
payouts-Falling reward min_payout ws {ps} h =
    IsSorted-Falling ps (payouts-IsSorted reward min_payout ws h)
