-- ===== src/Consensus/Sharechain/Target.antt =====
-- `expected_target` of p2pearl/consensus/sharechain.py, against the limit of the parent.
use p2pearl.Prelude.{
  ℕ, ◌-◌, ◌*◌, ◌/◌, ◌≤◌, ◌<◌, ◌≡◌, subst, false, ltb, if-elim, Option-cases, inl, inr, Option, none,
  some, List, ◌∷◌, length, last_or, sub_ℕ, ℤ, arith,
}
use p2pearl.Prelude.Keys.{Bytes, bytes_key}
use p2pearl.Prelude.Dict.{lookup}
use p2pearl.Config.{max_target, retarget_clamp}
use p2pearl.Consensus.Difficulty.{retarget_target}
use p2pearl.Consensus.Difficulty.Retarget.{retarget_bounds}
use p2pearl.Consensus.Share.{ShareBlock}
use p2pearl.Consensus.Sharechain.{
  Sharechain, Entry, is_genesis_prev, look_back, work, but_last, target_after, expected_target,
}

-- A target that is one, and within the clamp of another.
pub record IsNear (limit t : ℕ) : Type 0 where
  pub positive : 0 < t
  pub small : t ≤ max_target
  pub low : limit / retarget_clamp ≤ t
  pub high : t ≤ limit * retarget_clamp

retarget_target-IsNear :
    (limit work : ℕ) (span : ℤ) (time : ℕ)
    → 0 < limit
    → limit ≤ max_target
    → IsNear limit (retarget_target limit work span time retarget_clamp)
retarget_target-IsNear limit work span time p h =
    let (a, b, c, d) = retarget_bounds limit work span time retarget_clamp (omega arith) p h in
    record { positive = a; small = b; low = c; high = d }

target_after-IsNear :
    (c : Sharechain) (s : ShareBlock) (older : List ShareBlock) (time : Option ℕ)
    → 0 < s.target_limit
    → s.target_limit ≤ max_target
    → IsNear s.target_limit (target_after c s older time)
unfolding target_after
target_after-IsNear c s older (some now) p h =
    retarget_target-IsNear s.target_limit _ _ c.share_time p h
target_after-IsNear c s older none p h =
    let moved =
      retarget_target s.target_limit (work (but_last (s ∷ older)))
        (sub_ℕ s.timestamp (last_or s older).timestamp) c.share_time retarget_clamp in
    if-elim (IsNear s.target_limit) (ltb (length (s ∷ older)) 2) s.target_limit moved
      (λ _. record { positive = p; small = h; low = omega arith; high = omega arith })
      (λ _. retarget_target-IsNear s.target_limit _ _ c.share_time p h)

-- Where the sharechain determines the target limit after a stored share, it is a target, no harder
-- than a quarter of that share's limit and no easier than four times it, whatever the timestamps.
pub expected_target-IsNear :
    (c : Sharechain) (id : Bytes) (time : Option ℕ) (e : Entry) (t : ℕ)
    → is_genesis_prev id ≡ false
    → lookup id c.entries ≡ some e
    → 0 < e.share.target_limit
    → e.share.target_limit ≤ max_target
    → expected_target c id time ≡ some t
    → IsNear e.share.target_limit t
unfolding expected_target
expected_target-IsNear c id time e t later found p h given =
    elim (Option-cases (look_back (c.retarget_window - 1) c.entries e.share.prev_share_id)) [
      | inl cut ↦ absurd (ground arith)
      | inr (older, back) ↦
          let is : target_after c e.share older time ≡ t = ground arith in
          subst (IsNear e.share.target_limit) is (target_after-IsNear c e.share older time p h)
    ]
