-- ===== src/Consensus/Sharechain/Add.antt =====
-- `add_share` and `_prune` of p2pearl/consensus/sharechain.py.
use p2pearl.Prelude.{
  ℕ, ◌+◌, ◌-◌, Bool, true, false, not, ltb, leb, if◌then◌else◌, Option, none, some, List, [], ◌∷◌,
}
use p2pearl.Prelude.Result.{Result, ok, key_error, ◌>>=◌, or_raise}
use p2pearl.Prelude.Keys.{Bytes, bytes_key}
use p2pearl.Prelude.Dict.{lookup, insert}
use p2pearl.Consensus.Share.{ShareBlock, difficulty, share_id}
use p2pearl.Consensus.Sharechain.{Entries, Sharechain, tip, is_genesis_prev}
use p2pearl.Consensus.Sharechain.Validate.{Reason, not_verified, validate}

pub record AddResult : Type 0 where
  pub accepted : Bool
  pub is_best_tip : Bool
  pub reason : Option Reason

abbrev pub rejected : Reason → AddResult
rejected r = record { accepted = false; is_best_tip = false; reason = some r }

-- The entries that `_prune` leaves: those at the cutoff height or above.
unfoldable pub keep_from : ℕ → Entries → Entries
keep_from cutoff [] = []
keep_from cutoff (e ∷ d) =
    if ltb e.1.share.sidechain_height cutoff then keep_from cutoff d else e ∷ keep_from cutoff d

-- `_prune`; a cutoff of 0 or less is the truncated difference 0.
unfoldable pub prune : Sharechain → Sharechain
prune c = elim (tip c) [
  | none ↦ c
  | some t ↦
      let cutoff = t.sidechain_height - c.retention in
      if leb cutoff 0 then c else record c { entries = keep_from cutoff c.entries }
]

-- `for uid in share.uncle_ids: cumulative += self._entries[uid].share.difficulty()`
unfoldable pub uncle_work : Entries → List Bytes → ℕ → Result ℕ
uncle_work d [] cumulative = ok cumulative
uncle_work d (uid ∷ uids) cumulative = do
  u ← or_raise (lookup uid d) key_error
  uncle_work d uids (cumulative + difficulty u.share)

unfoldable pub cumulative_of : Entries → ShareBlock → Result ℕ
cumulative_of d s = if is_genesis_prev s.prev_share_id then ok (difficulty s) else (do
  parent ← or_raise (lookup s.prev_share_id d) key_error
  uncle_work d s.uncle_ids (parent.cumulative_difficulty + difficulty s))

-- `self._best_tip is None or cumulative > self._entries[self._best_tip].cumulative_difficulty`
unfoldable pub is_best : Entries → Option Bytes → ℕ → Result Bool
is_best d none cumulative = ok true
is_best d (some b) cumulative = do
  e ← or_raise (lookup b d) key_error
  ok (ltb e.cumulative_difficulty cumulative)

-- The insertion of a valid share, under its id.
unfoldable pub store :
    Sharechain → ShareBlock → Bytes → Option Bytes → Result (AddResult × Sharechain)
store c s sid proof = do
  cumulative ← cumulative_of c.entries s
  let entries =
      insert sid (record { share = s; cumulative_difficulty = cumulative; proof = proof }) c.entries
  best ← is_best entries c.best_tip cumulative
  let added = record c { entries = entries }
  ok (
    record { accepted = true; is_best_tip = best; reason = none },
    if best then prune (record added { best_tip = some sid }) else added,
  )

unfoldable pub add_share :
    (Bytes → Bytes)
    → Sharechain
    → ShareBlock
    → Bool
    → Option Bytes
    → ℕ
    → Result (AddResult × Sharechain)
add_share sha256 c s verified proof now =
    if not verified then ok (rejected not_verified, c) else (do
      sid ← share_id sha256 s
      elim (validate c s sid now) [ some r ↦ ok (rejected r, c) | none ↦ store c s sid proof ])
