-- ===== src/Consensus/Sharechain/Validate.antt =====
-- `_validate` and `_recent` of p2pearl/consensus/sharechain.py. A verdict is the reason of the
-- refusal, or none where the source returns True.
use p2pearl.Prelude.{
  ℕ, zero, suc, ◌+◌, ◌-◌, Bool, true, false, ◌&&◌, ◌||◌, not, ltb, leb, ◌==◌, if◌then◌else◌, Option,
  none, some, List, [], ◌∷◌, ◌++◌,
}
use p2pearl.Prelude.Result.{Result, ok, ◌>>=◌}
use p2pearl.Prelude.Keys.{Bytes, bytes_eq, bytes_key}
use p2pearl.Prelude.Dict.{lookup, contains}
use p2pearl.Config.{sidechain_version, max_timestamp_drift_seconds}
use p2pearl.Consensus.Subsidy.{block_subsidy}
use p2pearl.Consensus.Share.{ShareBlock, share_id}
use p2pearl.Consensus.Sharechain.{Entries, Sharechain, is_genesis_prev, expected_target, member}

pub data Reason : Type 0 where
  not_verified : Reason
  duplicate : Reason
  bad_version : Reason
  timestamp_in_future : Reason
  bad_coinbase_value : Reason
  duplicate_uncle : Reason
  self_uncle : Reason
  genesis_height : Reason
  genesis_with_uncles : Reason
  bad_share_target : Reason
  orphan : Reason
  bad_height : Reason
  timestamp_regression : Reason
  parent_height_regression : Reason
  unknown_uncle : Reason
  uncle_on_main_chain : Reason
  uncle_already_referenced : Reason
  uncle_out_of_depth : Reason
  uncle_not_a_sibling : Reason

-- `if c: return False, reason`, before the rest.
abbrev pub refuse_if : Bool → Reason → Option Reason → Option Reason
refuse_if c r rest = if c then some r else rest

-- `len(set(ids)) == len(ids)`
unfoldable pub distinct : List Bytes → Bool
distinct [] = true
distinct (x ∷ xs) = not (member x xs) && distinct xs

-- `_recent`: the ids of up to `limit` shares from `cur` back, and the uncles that they reference.
unfoldable pub recent : ℕ → Entries → Bytes → List Bytes × List Bytes
recent zero d cur = ([], [])
recent (suc n) d cur = elim (bytes_eq cur [] || is_genesis_prev cur) [
  | true ↦ ([], [])
  | false ↦ elim (lookup cur d) [
    | none ↦ ([], [])
    | some e ↦
        let (ids, uncles) = recent n d e.share.prev_share_id in
        (cur ∷ ids, e.share.uncle_ids ++ uncles)
  ]
]

-- The loop over the uncles of a share, given the recent ancestors, their uncles and the heights
-- between which an uncle may lie. A lower bound below 0 is 0 here: heights are not negative.
unfoldable pub check_uncles : Entries → List Bytes → List Bytes → ℕ → ℕ → List Bytes → Option Reason
check_uncles d ancestors ancestor_uncles lo hi [] = none
check_uncles d ancestors ancestor_uncles lo hi (uid ∷ uids) = elim (lookup uid d) [
  | none ↦ some unknown_uncle
  | some u ↦ refuse_if (member uid ancestors) uncle_on_main_chain (
      refuse_if (member uid ancestor_uncles) uncle_already_referenced (
        refuse_if (not (leb lo u.share.sidechain_height && leb u.share.sidechain_height hi))
          uncle_out_of_depth
          (refuse_if (not (member u.share.prev_share_id ancestors)) uncle_not_a_sibling
            (check_uncles d ancestors ancestor_uncles lo hi uids))))
]

-- The checks that need no other share; `now` is the clock in whole seconds, which compares with
-- whole timestamps as the source's float does.
unfoldable pub check_share : Sharechain → ShareBlock → Bytes → ℕ → Option Reason → Option Reason
check_share c s sid now rest = refuse_if (contains sid c.entries) duplicate (
    refuse_if (not (s.version == sidechain_version)) bad_version (
      refuse_if (ltb (now + max_timestamp_drift_seconds) s.timestamp) timestamp_in_future (
        refuse_if (not (s.coinbase_value == block_subsidy s.parent_height)) bad_coinbase_value (
          refuse_if (not (distinct s.uncle_ids)) duplicate_uncle
            (refuse_if (member sid s.uncle_ids) self_uncle rest)))))

unfoldable pub check_genesis : Sharechain → ShareBlock → Option Reason
check_genesis c s = refuse_if (not (s.sidechain_height == 0)) genesis_height (
    refuse_if (not (elim s.uncle_ids [ [] ↦ true | u ∷ us ↦ false ])) genesis_with_uncles
      (refuse_if (not (s.target_limit == c.bootstrap_target)) bad_share_target none))

-- `expected is not None and share.target_limit != expected`
abbrev pub misses_target : Option ℕ → ℕ → Bool
misses_target none limit = false
misses_target (some t) limit = not (limit == t)

unfoldable pub check_child : Sharechain → ShareBlock → ShareBlock → Option Reason
check_child c s parent =
    let near = recent (c.uncle_depth + 1) c.entries s.prev_share_id in
    let lo = s.sidechain_height - c.uncle_depth in
    let hi = s.sidechain_height - 1 in
    refuse_if (not (s.sidechain_height == parent.sidechain_height + 1)) bad_height (
      refuse_if (ltb s.timestamp parent.timestamp) timestamp_regression (
        refuse_if (ltb s.parent_height parent.parent_height) parent_height_regression (
          refuse_if
            (misses_target (expected_target c s.prev_share_id (some s.timestamp)) s.target_limit)
            bad_share_target (check_uncles c.entries near.0 near.1 lo hi s.uncle_ids))))

-- What follows the checks of the share by itself.
unfoldable pub check_link : Sharechain → ShareBlock → Option Reason
check_link c s =
    if is_genesis_prev s.prev_share_id
    then check_genesis c s
    else elim (lookup s.prev_share_id c.entries) [
      | none ↦ some orphan
      | some parent ↦ check_child c s parent.share
    ]

-- `_validate`, for the share's id
unfoldable pub validate : Sharechain → ShareBlock → Bytes → ℕ → Option Reason
unfolding check_share check_link
validate c s sid now = check_share c s sid now (check_link c s)

-- `is_valid_successor`; the id is taken first, which raises where the share cannot be serialized.
unfoldable pub is_valid_successor : (Bytes → Bytes) → Sharechain → ShareBlock → ℕ → Result Bool
is_valid_successor sha256 c s now = do
  sid ← share_id sha256 s
  ok (elim (validate c s sid now) [ none ↦ true | some r ↦ false ])
