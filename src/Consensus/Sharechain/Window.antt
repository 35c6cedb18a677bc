-- ===== src/Consensus/Sharechain/Window.antt =====
-- `pplns_weights` of p2pearl/consensus/sharechain.py, against the shares and uncles of its window.
use p2pearl.Prelude.{
  ℕ, zero, suc, ◌+◌, ◌≤◌, ◌≡◌, refl, true, false, if◌then◌else◌, Bool-cases, Option-cases, inl, inr,
  Option, none, some, List, [], ◌∷◌, ◌++◌, map, sum, length, arith,
}
use p2pearl.Prelude.Keys.{Bytes, Str, bytes_key}
use p2pearl.Prelude.Dict.{lookup, insert}
use p2pearl.Prelude.SortLaws.{sum-sorted}
use p2pearl.Consensus.Pplns.{Weights, add_weight, heavier, total_weight, uncle_weight}
use p2pearl.Consensus.Share.{ShareBlock, difficulty}
use p2pearl.Consensus.Sharechain.{
  Sharechain, is_genesis_prev, work, member, count_uncle, walk_uncles, walk, pplns_weights,
}

total_weight-add_weight :
    (a : Str) (w : ℕ) (d : Weights) → total_weight (add_weight a w d) ≡ total_weight d + w
unfolding add_weight insert lookup
total_weight-add_weight a w [] = omega arith
total_weight-add_weight a w ((b, v) ∷ d) = ground (arith, total_weight-add_weight a w d)

module _ (c : Sharechain) where
  -- The main-chain shares of a window of `n` from `cur` back.
  unfoldable pub main_chain : ℕ → Option Bytes → List ShareBlock
  main_chain zero cur = []
  main_chain (suc n) none = []
  main_chain (suc n) (some cur) = elim (lookup cur c.entries) [
    | none ↦ []
    | some e ↦
        e.share
        ∷ main_chain n
            (if is_genesis_prev e.share.prev_share_id then none else some e.share.prev_share_id)
  ]

  -- The ids of the uncles that some shares reference, in order.
  unfoldable pub uncles_of : List ShareBlock → List Bytes
  uncles_of [] = []
  uncles_of (s ∷ ss) = s.uncle_ids ++ uncles_of ss

  -- The stored shares with these ids, each at its first place and not where it is in `seen`.
  unfoldable pub once : List Bytes → List Bytes → List ShareBlock
  once [] seen = []
  once (u ∷ us) seen = elim (member u seen) [
    | true ↦ once us seen
    | false ↦ elim (lookup u c.entries) [
      | none ↦ once us seen
      | some e ↦ e.share ∷ once us (u ∷ seen)
    ]
  ]

  -- What some uncles weigh.
  abbrev pub uncles_weight : List ShareBlock → ℕ
  uncles_weight ss = sum (map (λ s. uncle_weight (difficulty s) c.uncle_penalty_percent) ss)

  walk_uncles_total :
      (us rest : List Bytes) (d : Weights) (seen : List Bytes)
      → let (d', seen') = walk_uncles c us d seen in
        total_weight d' + uncles_weight (once rest seen')
        ≡ total_weight d + uncles_weight (once (us ++ rest) seen)
  unfolding walk_uncles count_uncle once
  walk_uncles_total [] rest d seen = refl
  walk_uncles_total (u ∷ us) rest d seen = elim (Bool-cases (member u seen)) [
    | inl again ↦ rw (walk_uncles, count_uncle, once, again) (walk_uncles_total us rest d seen)
    | inr new ↦ elim (Option-cases (lookup u c.entries)) [
      | inl missing ↦
          rw (walk_uncles, count_uncle, once, new, missing) (walk_uncles_total us rest d seen)
      | inr (e, found) ↦
          let w = uncle_weight (difficulty e.share) c.uncle_penalty_percent in
          let d' = add_weight e.share.miner_address w d in
          rw (walk_uncles, count_uncle, once, new, found)
            (omega (
              arith,
              walk_uncles_total us rest d' (u ∷ seen),
              total_weight-add_weight e.share.miner_address w d,
            ))
    ]
  ]

  walk_total :
      (n : ℕ) (cur : Option Bytes) (d : Weights) (seen : List Bytes)
      → let main = main_chain n cur in
        total_weight (walk n c cur d seen)
        ≡ total_weight d + work main + uncles_weight (once (uncles_of main) seen)
  unfolding walk main_chain uncles_of once
  walk_total zero cur d seen = omega arith
  walk_total (suc n) none d seen = omega arith
  walk_total (suc n) (some cur) d seen = elim (Option-cases (lookup cur c.entries)) [
    | inl missing ↦ rw (walk, main_chain, missing) (omega arith)
    | inr (e, found) ↦
        let s = e.share in
        let next : Option Bytes =
          if is_genesis_prev s.prev_share_id then none else some s.prev_share_id in
        let started = add_weight s.miner_address (difficulty s) d in
        let (d', seen') = walk_uncles c s.uncle_ids started seen in
        rw (walk, main_chain, found)
          (omega (
            arith,
            walk_total n next d' seen',
            walk_uncles_total s.uncle_ids (uncles_of (main_chain n next)) started seen,
            total_weight-add_weight s.miner_address (difficulty s) d,
          ))
  ]

  length-main_chain-le : (n : ℕ) (cur : Option Bytes) → length (main_chain n cur) ≤ n
  unfolding main_chain
  length-main_chain-le zero cur = omega arith
  length-main_chain-le (suc n) none = omega arith
  length-main_chain-le (suc n) (some cur) = elim (Option-cases (lookup cur c.entries)) [
    | inl missing ↦ rw (main_chain, missing) (omega arith)
    | inr (e, found) ↦
        rw (main_chain, found)
          (omega (
            arith,
            length-main_chain-le n (
                if is_genesis_prev e.share.prev_share_id then none else some e.share.prev_share_id),
          ))
  ]

-- The weights of a window add up to the difficulty of its main-chain shares, which are no more than
-- the window, and the penalized difficulty of the uncles that those reference and that are stored,
-- each counted once however often it is referenced.
pub pplns_weights_total :
    (c : Sharechain) (tip_id : Option Bytes)
    → let main = main_chain c c.window (elim tip_id [ none ↦ c.best_tip | some id ↦ some id ]) in
      (total_weight (pplns_weights c tip_id)
        ≡ work main + uncles_weight c (once c (uncles_of c main) []))
      × (length main ≤ c.window)
unfolding pplns_weights
pplns_weights_total c tip_id =
    let cur : Option Bytes = elim tip_id [ none ↦ c.best_tip | some id ↦ some id ] in
    (
      omega (
        arith,
        sum-sorted heavier (λ e. e.1) (walk c.window c cur [] []),
        walk_total c c.window cur [] [],
      ),
      length-main_chain-le c c.window cur,
    )
