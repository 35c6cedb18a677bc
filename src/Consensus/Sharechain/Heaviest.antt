-- ===== src/Consensus/Sharechain/Heaviest.antt =====
-- The steps of `add_share` in p2pearl/consensus/sharechain.py: the work of a new share, and the
-- comparison with the best tip.
use p2pearl.Prelude.{
  ℕ, ◌+◌, ◌-◌, ◌≡◌, refl, sym, subst, Bool, true, false, ltb, if◌then◌else◌, Bool-cases, ltb→lt,
  ltb→le, ◌⊎◌, inl, inr, Option, none, some, List, [], ◌∷◌, All, arith,
}
use p2pearl.Prelude.Result.{ok}
use p2pearl.Prelude.Keys.{Bytes, bytes_key, bytes_eq_iff}
use p2pearl.Prelude.Dict.{lookup, insert, lookup-insert, lookup-insert_self}
use p2pearl.Consensus.Share.{ShareBlock, share_id, difficulty}
use p2pearl.Consensus.Sharechain.{Entry, Entries, Sharechain}
use p2pearl.Consensus.Sharechain.Validate.{recent}
use p2pearl.Consensus.Sharechain.Add.{uncle_work, cumulative_of, is_best}
use p2pearl.Consensus.Sharechain.Invariant.{IsValid, IsBestTip, HasIds}
use p2pearl.Consensus.Sharechain.Successor.{IsUncle, IsGenesis, IsChild}

-- The uncles of a valid child are stored, so their work is found.
uncle_work-ok :
    (d : Entries) (near : List Bytes × List Bytes) (lo hi : ℕ) (us : List Bytes) (acc : ℕ)
    → All (IsUncle d near lo hi) us
    → (w : ℕ) × (uncle_work d us acc ≡ ok w)
unfolding uncle_work
uncle_work-ok d near lo hi [] acc a = (acc, refl)
uncle_work-ok d near lo hi (u ∷ us) acc a =
    let (w, rest) = uncle_work-ok d near lo hi us (acc + difficulty a.0.entry.share) a.1 in
    (w, rw a.0.found rest)

pub cumulative_of-ok :
    (c : Sharechain) (s : ShareBlock)
    → IsGenesis c s ⊎ IsChild c s
    → (w : ℕ) × (cumulative_of c.entries s ≡ ok w)
unfolding cumulative_of
cumulative_of-ok c s (inl g) = (difficulty s, rw g.no_parent)
cumulative_of-ok c s (inr k) =
    let (w, e) =
      uncle_work-ok c.entries (recent (c.uncle_depth + 1) c.entries s.prev_share_id)
        (s.sidechain_height - c.uncle_depth) (s.sidechain_height - 1) s.uncle_ids
        (k.parent.cumulative_difficulty + difficulty s) k.uncles in
    (w, rw (k.has_parent, k.found) e)

module _ (sha256 : Bytes → Bytes) (c : Sharechain) (v : IsValid sha256 c) (sid : Bytes)
    (new : Entry) (fresh : lookup sid c.entries ≡ none)
    (id : share_id sha256 new.share ≡ ok sid) where
  -- Either the new entry, or one that was there.
  pub inserted :
      (k : Bytes) (e : Entry)
      → lookup k (insert sid new c.entries) ≡ some e
      → ((k ≡ sid) × (e ≡ new)) ⊎ (lookup k c.entries ≡ some e)
  inserted k e h = elim (Bool-cases (bytes_key.beq sid k)) [
    | inl same ↦
        inl (ground (arith, bytes_eq_iff sid k), ground (arith, lookup-insert sid k new c.entries))
    | inr other ↦ inr (ground (arith, lookup-insert sid k new c.entries))
  ]

  pub insert-HasIds : HasIds sha256 (insert sid new c.entries)
  insert-HasIds k e h = elim (inserted k e h) [
    | inl (ek, ee) ↦ rw (ek, ee) id
    | inr old ↦ v.ids k e old
  ]

  -- The comparison with the best tip succeeds, and its outcome is the heaviest share again.
  pub best_after :
      (tip_id : Option Bytes)
      → IsBestTip c.entries tip_id
      → (best : Bool) × (is_best (insert sid new c.entries) tip_id new.cumulative_difficulty
          ≡ ok best)
        × IsBestTip (insert sid new c.entries) (if best then some sid else tip_id)
  unfolding is_best
  best_after none empty = (
    true,
    refl,
    (
      new,
      lookup-insert_self sid new c.entries,
      λ k f h. elim (inserted k f h) [
        | inl (ek, ef) ↦ rw ef (omega arith)
        | inr old ↦
            absurd
              (subst (λ d. ¬ (lookup k d ≡ some f)) (sym empty) (unfold lookup in (λ e. cc)) old)
      ],
    ),
  )
  best_after (some b) (t, found, most) =
      let other : bytes_key.beq sid b ≡ false = ground (arith, bytes_eq_iff sid b) in
      let kept : lookup b (insert sid new c.entries) ≡ some t =
        ground (arith, lookup-insert sid b new c.entries) in
      elim (Bool-cases (ltb t.cumulative_difficulty new.cumulative_difficulty)) [
        | inl heavier ↦ (
          true,
          rw (kept, heavier),
          (
            new,
            lookup-insert_self sid new c.entries,
            λ k f h. elim (inserted k f h) [
              | inl (ek, ef) ↦ rw ef (omega arith)
              | inr old ↦ omega (arith, most k f old, ltb→lt _ _ heavier)
            ],
          ),
        )
        | inr lighter ↦ (
          false,
          rw (kept, lighter),
          (
            t,
            kept,
            λ k f h. elim (inserted k f h) [
              | inl (ek, ef) ↦ rw ef (ltb→le _ _ lighter)
              | inr old ↦ most k f old
            ],
          ),
        )
      ]
