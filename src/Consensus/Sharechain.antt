-- ===== src/Consensus/Sharechain.antt =====
-- The share store of p2pearl/consensus/sharechain.py: queries, the consensus target, the PPLNS
-- walk, and in the children validation and insertion. Ids are digests of 32 bytes, so the source's
-- `if self._best_tip` asks whether there is one.
pub mod Validate
pub mod Add
pub mod Successor
pub mod Invariant
pub mod Target
pub mod Window
pub mod Heaviest
pub mod Insertion
use p2pearl.Prelude.{
  ℕ, zero, suc, ◌+◌, ◌-◌, ◌*◌, Bool, true, false, ◌||◌, ltb, leb, ◌==◌, if◌then◌else◌, Option, none,
  some, List, [], ◌∷◌, ◌++◌, map, length, sum, last_or, replicate, ℤ, pos, negsuc, sub_ℕ,
}
use p2pearl.Prelude.Keys.{Bytes, Str, bytes_eq, bytes_key}
use p2pearl.Prelude.Dict.{Dict, lookup, contains}
use p2pearl.Prelude.Sort.{sorted}
use p2pearl.Config.{retarget_clamp}
use p2pearl.Consensus.Difficulty.{retarget_target}
use p2pearl.Consensus.Pplns.{Weights, add_weight, heavier, uncle_weight}
use p2pearl.Consensus.Share.{ShareBlock, difficulty}
use mathlib.Core.Option

-- `GENESIS_PREV`
abbrev pub genesis_prev : Bytes
genesis_prev = replicate 32 0

abbrev pub is_genesis_prev : Bytes → Bool
is_genesis_prev id = bytes_eq id genesis_prev

pub record Entry : Type 0 where
  pub share : ShareBlock
  pub cumulative_difficulty : ℕ
  pub proof : Option Bytes

abbrev pub Entries : Type 0
Entries = Dict Bytes Entry

pub record Sharechain : Type 0 where
  pub window : ℕ
  pub uncle_depth : ℕ
  pub uncle_penalty_percent : ℕ
  pub bootstrap_target : ℕ
  pub share_time : ℕ
  pub retarget_window : ℕ
  pub retention : ℕ
  pub entries : Entries
  pub best_tip : Option Bytes

-- `__init__`
unfoldable pub new_sharechain : ℕ → ℕ → ℕ → ℕ → ℕ → ℕ → Sharechain
new_sharechain window uncle_depth uncle_penalty_percent bootstrap_target share_time
      retarget_window =
    record {
      window = window;
      uncle_depth = uncle_depth;
      uncle_penalty_percent = uncle_penalty_percent;
      bootstrap_target = bootstrap_target;
      share_time = share_time;
      retarget_window = retarget_window;
      retention = 2 * window + uncle_depth;
      entries = [];
      best_tip = none;
    }

-- `get`
abbrev pub get : Sharechain → Bytes → Option ShareBlock
get c id = elim (lookup id c.entries) [ none ↦ none | some e ↦ some e.share ]

abbrev pub get_proof : Sharechain → Bytes → Option Bytes
get_proof c id = elim (lookup id c.entries) [ none ↦ none | some e ↦ e.proof ]

-- `tip`
abbrev pub tip : Sharechain → Option ShareBlock
tip c = elim c.best_tip [ none ↦ none | some b ↦ get c b ]

-- `height`, -1 for an empty chain
abbrev pub height : Sharechain → ℤ
height c = elim (tip c) [ none ↦ negsuc 0 | some t ↦ pos t.sidechain_height ]

-- `cumulative_difficulty`
abbrev pub work_of : Entries → Bytes → ℕ
work_of d id = elim (lookup id d) [ none ↦ 0 | some e ↦ e.cumulative_difficulty ]

-- The look-back loop of `expected_target`, over the rounds that are left: the shares from `cur`
-- back, or none where an ancestor is missing.
unfoldable pub look_back : ℕ → Entries → Bytes → Option (List ShareBlock)
look_back zero d cur = some []
look_back (suc n) d cur = elim (is_genesis_prev cur) [
  | true ↦ some []
  | false ↦ elim (lookup cur d) [
    | none ↦ none
    | some e ↦ Option.map (◌∷◌ e.share) (look_back n d e.share.prev_share_id)
  ]
]

-- `sum(s.difficulty() for s in shares)`
abbrev pub work : List ShareBlock → ℕ
work shares = sum (map difficulty shares)

-- `shares[:-1]`
abbrev pub but_last : List ShareBlock → List ShareBlock
but_last [] = []
but_last (s ∷ []) = []
but_last (s ∷ t ∷ ss) = s ∷ but_last (t ∷ ss)

-- The target after the share `first`, whose ancestors in the window are `older`.
unfoldable pub target_after : Sharechain → ShareBlock → List ShareBlock → Option ℕ → ℕ
target_after c first older (some timestamp) =
    let oldest = last_or first older in
    retarget_target first.target_limit (work (first ∷ older)) (sub_ℕ timestamp oldest.timestamp)
      c.share_time retarget_clamp
target_after c first older none =
    let oldest = last_or first older in
    if ltb (length (first ∷ older)) 2
    then first.target_limit
    else retarget_target first.target_limit (work (but_last (first ∷ older)))
        (sub_ℕ first.timestamp oldest.timestamp) c.share_time retarget_clamp

unfoldable pub expected_target : Sharechain → Bytes → Option ℕ → Option ℕ
expected_target c prev_share_id timestamp =
    if is_genesis_prev prev_share_id
    then some c.bootstrap_target
    else elim (lookup prev_share_id c.entries) [
      | none ↦ none
      | some e ↦
          Option.map (λ (older : List ShareBlock). target_after c e.share older timestamp)
            (look_back (c.retarget_window - 1) c.entries e.share.prev_share_id)
    ]

-- `id in ids`, for a set kept as a list
unfoldable pub member : Bytes → List Bytes → Bool
member id [] = false
member id (x ∷ xs) = bytes_eq x id || member id xs

-- An uncle counts once, at its penalized weight, and only where it is known.
unfoldable pub count_uncle : Sharechain → Bytes → Weights → List Bytes → Weights × List Bytes
count_uncle c uid weights seen = elim (member uid seen) [
  | true ↦ (weights, seen)
  | false ↦ elim (lookup uid c.entries) [
    | none ↦ (weights, seen)
    | some u ↦
        let w = uncle_weight (difficulty u.share) c.uncle_penalty_percent in
        (add_weight u.share.miner_address w weights, uid ∷ seen)
  ]
]

-- The uncles that one share of the walk references.
unfoldable pub walk_uncles : Sharechain → List Bytes → Weights → List Bytes → Weights × List Bytes
walk_uncles c [] weights seen = (weights, seen)
walk_uncles c (uid ∷ uids) weights seen =
    let (weights', seen') = count_uncle c uid weights seen in walk_uncles c uids weights' seen'

-- The walk over at most `window` shares from `cur` back.
unfoldable pub walk : ℕ → Sharechain → Option Bytes → Weights → List Bytes → Weights
walk zero c cur weights seen = weights
walk (suc n) c none weights seen = weights
walk (suc n) c (some cur) weights seen = elim (lookup cur c.entries) [
  | none ↦ weights
  | some e ↦
      let s = e.share in
      let (weights', seen') =
        walk_uncles c s.uncle_ids (add_weight s.miner_address (difficulty s) weights) seen in
      walk n c (if is_genesis_prev s.prev_share_id then none else some s.prev_share_id) weights'
        seen'
]

unfoldable pub pplns_weights : Sharechain → Option Bytes → Weights
unfolding walk walk_uncles
pplns_weights c tip_id =
    let cur : Option Bytes = elim tip_id [ none ↦ c.best_tip | some id ↦ some id ] in
    sorted heavier (walk c.window c cur [] [])
