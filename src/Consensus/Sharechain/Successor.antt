-- ===== src/Consensus/Sharechain/Successor.antt =====
-- The checks of `_validate` in p2pearl/consensus/sharechain.py, as a predicate on shares.
use p2pearl.Prelude.{
  ℕ, ◌+◌, ◌-◌, ◌≤◌, ◌≡◌, refl, true, false, Bool-cases, Option-cases, ◌⊎◌, ◌↔◌, inl, inr, Option,
  none, some, List, [], ◌∷◌, All, arith,
}
use p2pearl.Prelude.Keys.{Bytes, bytes_key}
use p2pearl.Prelude.Dict.{lookup}
use p2pearl.Config.{sidechain_version, max_timestamp_drift_seconds}
use p2pearl.Consensus.Subsidy.{block_subsidy}
use p2pearl.Consensus.Share.{ShareBlock}
use p2pearl.Consensus.Sharechain.{
  Entry, Entries, Sharechain, is_genesis_prev, expected_target, member,
}
use p2pearl.Consensus.Sharechain.Validate.{
  Reason, distinct, recent, check_uncles, check_share, check_genesis, check_child, check_link,
  validate, misses_target,
}

-- What a share says of itself: a new id, the current version, a timestamp that is not far ahead,
-- the exact subsidy, and distinct uncles that are not the share.
pub record IsPlausible (c : Sharechain) (s : ShareBlock) (sid : Bytes) (now : ℕ) : Type 0 where
  pub fresh : lookup sid c.entries ≡ none
  pub version : s.version ≡ sidechain_version
  pub timestamp : s.timestamp ≤ now + max_timestamp_drift_seconds
  pub coinbase : s.coinbase_value ≡ block_subsidy s.parent_height
  pub distinct_uncles : distinct s.uncle_ids ≡ true
  pub not_self : member sid s.uncle_ids ≡ false

pub record IsGenesis (c : Sharechain) (s : ShareBlock) : Type 0 where
  pub no_parent : is_genesis_prev s.prev_share_id ≡ true
  pub height : s.sidechain_height ≡ 0
  pub no_uncles : s.uncle_ids ≡ []
  pub target : s.target_limit ≡ c.bootstrap_target

-- An uncle is stored, off the main chain, new to it, near, and a child of it.
pub record IsUncle (d : Entries) (near : List Bytes × List Bytes) (lo hi : ℕ) (uid : Bytes)
    : Type 0 where
  pub entry : Entry
  pub found : lookup uid d ≡ some entry
  pub off_chain : member uid near.0 ≡ false
  pub unreferenced : member uid near.1 ≡ false
  pub not_older : lo ≤ entry.share.sidechain_height
  pub not_newer : entry.share.sidechain_height ≤ hi
  pub sibling : member entry.share.prev_share_id near.0 ≡ true

-- The limit is the expected one, where that can be derived.
abbrev pub TargetFits : Option ℕ → ℕ → Type 0
TargetFits none limit = Unit
TargetFits (some t) limit = limit ≡ t

pub record IsChild (c : Sharechain) (s : ShareBlock) : Type 0 where
  pub has_parent : is_genesis_prev s.prev_share_id ≡ false
  pub parent : Entry
  pub found : lookup s.prev_share_id c.entries ≡ some parent
  pub height : s.sidechain_height ≡ parent.share.sidechain_height + 1
  pub timestamp : parent.share.timestamp ≤ s.timestamp
  pub parent_height : parent.share.parent_height ≤ s.parent_height
  pub target : TargetFits (expected_target c s.prev_share_id (some s.timestamp)) s.target_limit
  pub uncles :
      All
        (IsUncle c.entries
          (recent (c.uncle_depth + 1) c.entries s.prev_share_id)
          (s.sidechain_height - c.uncle_depth)
          (s.sidechain_height - 1))
        s.uncle_ids

abbrev pub IsSuccessor : Sharechain → ShareBlock → Bytes → ℕ → Type 0
IsSuccessor c s sid now = IsPlausible c s sid now × (IsGenesis c s ⊎ IsChild c s)

module _ (d : Entries) (near : List Bytes × List Bytes) (lo hi : ℕ) where
  check_uncles_sound :
      (us : List Bytes)
      → check_uncles d near.0 near.1 lo hi us ≡ none
      → All (IsUncle d near lo hi) us
  unfolding check_uncles
  check_uncles_sound [] h = tt
  check_uncles_sound (u ∷ us) h = elim (Option-cases (lookup u d)) [
    | inl missing ↦ absurd (ground arith)
    | inr (e, found) ↦ (
      record {
        entry = e;
        found = found;
        off_chain = ground arith;
        unreferenced = ground arith;
        not_older = ground arith;
        not_newer = ground arith;
        sibling = ground arith;
      },
      check_uncles_sound us (ground arith),
    )
  ]

  check_uncles_complete :
      (us : List Bytes)
      → All (IsUncle d near lo hi) us
      → check_uncles d near.0 near.1 lo hi us ≡ none
  unfolding check_uncles
  check_uncles_complete [] a = refl
  check_uncles_complete (u ∷ us) a = ground (arith, check_uncles_complete us a.1)

check_share_iff :
    (c : Sharechain) (s : ShareBlock) (sid : Bytes) (now : ℕ) (rest : Option Reason)
    → (check_share c s sid now rest ≡ none) ↔ (IsPlausible c s sid now × (rest ≡ none))
unfolding check_share
check_share_iff c s sid now rest = ground arith

check_genesis_iff :
    (c : Sharechain) (s : ShareBlock)
    → is_genesis_prev s.prev_share_id ≡ true
    → (check_genesis c s ≡ none) ↔ IsGenesis c s
unfolding check_genesis
check_genesis_iff c s g = ground arith

misses_target_iff : (e : Option ℕ) (t : ℕ) → (misses_target e t ≡ false) ↔ TargetFits e t
misses_target_iff none t = ground arith
misses_target_iff (some x) t = ground arith

module _ (c : Sharechain) (s : ShareBlock) (p : Entry)
    (found : lookup s.prev_share_id c.entries ≡ some p) where
  check_child_sound :
      is_genesis_prev s.prev_share_id ≡ false → check_child c s p.share ≡ none → IsChild c s
  unfolding check_child
  check_child_sound g h =
      let near = recent (c.uncle_depth + 1) c.entries s.prev_share_id in
      let expected = expected_target c s.prev_share_id (some s.timestamp) in
      record {
        has_parent = g;
        parent = p;
        found = found;
        height = ground arith;
        timestamp = ground arith;
        parent_height = ground arith;
        target = (misses_target_iff expected s.target_limit).0 (ground arith);
        uncles =
            check_uncles_sound c.entries near (s.sidechain_height - c.uncle_depth)
              (s.sidechain_height - 1) s.uncle_ids (ground arith);
      }

  check_child_complete : IsChild c s → check_child c s p.share ≡ none
  unfolding check_child
  check_child_complete k =
      let near = recent (c.uncle_depth + 1) c.entries s.prev_share_id in
      let expected = expected_target c s.prev_share_id (some s.timestamp) in
      ground (
        arith,
        (misses_target_iff expected s.target_limit).1 k.target,
        check_uncles_complete c.entries near (s.sidechain_height - c.uncle_depth)
            (s.sidechain_height - 1) s.uncle_ids k.uncles,
      )

check_link_sound :
    (c : Sharechain) (s : ShareBlock) → check_link c s ≡ none → IsGenesis c s ⊎ IsChild c s
unfolding check_link
check_link_sound c s h = elim (Bool-cases (is_genesis_prev s.prev_share_id)) [
  | inl g ↦ inl ((check_genesis_iff c s g).0 (ground arith))
  | inr g ↦ elim (Option-cases (lookup s.prev_share_id c.entries)) [
    | inl missing ↦ absurd (ground arith)
    | inr (p, found) ↦ inr (check_child_sound c s p found g (ground arith))
  ]
]

check_link_complete :
    (c : Sharechain) (s : ShareBlock) → IsGenesis c s ⊎ IsChild c s → check_link c s ≡ none
unfolding check_link
check_link_complete c s (inl g) = ground (arith, (check_genesis_iff c s g.no_parent).1 g)
check_link_complete c s (inr k) = ground (arith, check_child_complete c s k.parent k.found k)

-- A share is accepted exactly when it is plausible by itself and is a genesis share or a proper
-- child of a stored one: one height up, no earlier, at the expected target limit wherever that can
-- be derived, and with uncles that are stored siblings of its recent ancestors, near and unused.
pub validate_iff :
    (c : Sharechain) (s : ShareBlock) (sid : Bytes) (now : ℕ)
    → (validate c s sid now ≡ none) ↔ IsSuccessor c s sid now
unfolding validate
validate_iff c s sid now = (
  λ h.
      let (a, b) = (check_share_iff c s sid now (check_link c s)).0 h in
      (a, check_link_sound c s b),
  λ (a, b). (check_share_iff c s sid now (check_link c s)).1 (a, check_link_complete c s b),
)
