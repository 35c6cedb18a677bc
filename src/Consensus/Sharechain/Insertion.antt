-- ===== src/Consensus/Sharechain/Insertion.antt =====
-- `add_share` of p2pearl/consensus/sharechain.py as a whole, in a valid store.
use p2pearl.Prelude.{
  ℕ, ◌≤◌, ◌≡◌, refl, sym, subst, ap, ◌∙◌, ◌↔◌, Bool, true, false, if◌then◌else◌, Option-cases, ◌⊎◌,
  inl, inr, Option, none, some, arith,
}
use p2pearl.Prelude.Result.{ok, ◌>>=◌}
use p2pearl.Prelude.Keys.{Bytes, bytes_key, bytes_eq_iff}
use p2pearl.Prelude.Dict.{lookup, insert, lookup-insert, insert-IsDict}
use p2pearl.Consensus.Share.{ShareBlock, share_id}
use p2pearl.Consensus.Sharechain.{Entry, Sharechain, work_of}
use p2pearl.Consensus.Sharechain.Validate.{not_verified, validate}
use p2pearl.Consensus.Sharechain.Add.{
  AddResult, rejected, cumulative_of, is_best, prune, store, add_share,
}
use p2pearl.Consensus.Sharechain.Invariant.{
  IsValid, IsBestTip, prune-IsValid, prune-best_tip, lookup-prune,
}
use p2pearl.Consensus.Sharechain.Successor.{IsSuccessor, IsGenesis, IsChild, validate_iff}
use p2pearl.Consensus.Sharechain.Heaviest.{cumulative_of-ok, inserted, insert-HasIds, best_after}

-- The work behind the best tip.
abbrev pub best_work : Sharechain → ℕ
best_work c = elim c.best_tip [ none ↦ 0 | some b ↦ work_of c.entries b ]

best_work-at :
    (c : Sharechain) (b : Bytes) (t : Entry)
    → c.best_tip ≡ some b
    → lookup b c.entries ≡ some t
    → best_work c ≡ t.cumulative_difficulty
best_work-at c b t eb found = ground arith

abbrev work_in : Option Entry → ℕ
work_in none = 0
work_in (some e) = e.cumulative_difficulty

-- What `store` returns for a valid share: the new state, valid and with no less work, and a best
-- tip that is the new share or the old one.
record IsStored (sha256 : Bytes → Bytes) (c : Sharechain) (s : ShareBlock) (sid : Bytes)
    (r : AddResult) (c' : Sharechain) : Type 0 where
  accepted : r.accepted ≡ true
  valid : IsValid sha256 c'
  tip_id : c'.best_tip ≡ (if r.is_best_tip then some sid else c.best_tip)
  no_less : best_work c ≤ best_work c'
  origin :
      (k : Bytes) (e : Entry)
      → lookup k c'.entries ≡ some e
      → (e.share ≡ s) ⊎ (lookup k c.entries ≡ some e)

module _ (sha256 : Bytes → Bytes) (c : Sharechain) (v : IsValid sha256 c) (sid : Bytes)
    (new : Entry) (fresh : lookup sid c.entries ≡ none)
    (id : share_id sha256 new.share ≡ ok sid) where
  -- The old best tip is stored still.
  old_best :
      (b : Bytes)
      → c.best_tip ≡ some b
      → (t : Entry) × (best_work c ≡ t.cumulative_difficulty)
        × (lookup b (insert sid new c.entries) ≡ some t)
  old_best b eb = let heaviest = subst (IsBestTip c.entries) eb v.best in kept heaviest.0 heaviest.1
    where
      kept :
          (t : Entry)
          → lookup b c.entries ≡ some t
          → (t : Entry) × (best_work c ≡ t.cumulative_difficulty)
            × (lookup b (insert sid new c.entries) ≡ some t)
      kept t found =
          let other : bytes_key.beq sid b ≡ false = ground (arith, bytes_eq_iff sid b) in
          (t, best_work-at c b t eb found, ground (arith, lookup-insert sid b new c.entries))

  added : Sharechain
  added = record c { entries = insert sid new c.entries }

  best_added : Sharechain
  best_added = record c { entries = insert sid new c.entries; best_tip = some sid }

  comes_from :
      (k : Bytes) (e : Entry)
      → lookup k (insert sid new c.entries) ≡ some e
      → (e.share ≡ new.share) ⊎ (lookup k c.entries ≡ some e)
  comes_from k e h = elim (inserted sha256 c v sid new fresh id k e h) [
    | inl (_, same) ↦ inl (ap Entry.share same)
    | inr old ↦ inr old
  ]

  added-IsStored :
      IsBestTip (insert sid new c.entries) c.best_tip
      → IsStored sha256 c new.share sid
          (record { accepted = true; is_best_tip = false; reason = none })
          added
  unfolding added
  added-IsStored heavy = record {
    accepted = refl;
    valid = record {
      unique = insert-IsDict sid new c.entries v.unique;
      ids = insert-HasIds sha256 c v sid new fresh id;
      best = heavy;
    };
    tip_id = refl;
    no_less = elim (Option-cases c.best_tip) [
      | inl nothing ↦ ground arith
      | inr (b, eb) ↦
          let (t, before, kept) = old_best b eb in
          omega (arith, before, best_work-at added b t eb kept)
    ];
    origin = comes_from;
  }

  best_added-IsStored :
      IsBestTip (insert sid new c.entries) (some sid)
      → IsStored sha256 c new.share sid
          (record { accepted = true; is_best_tip = true; reason = none })
          (prune best_added)
  unfolding best_added
  best_added-IsStored heavy =
      let (e, found, most) = heavy in
      let valid : IsValid sha256 best_added = record {
        unique = insert-IsDict sid new c.entries v.unique;
        ids = insert-HasIds sha256 c v sid new fresh id;
        best = heavy;
      } in
      let pruned = prune-IsValid sha256 best_added valid in
      let tip_id = prune-best_tip sha256 best_added valid in
      let (t, there, _) = subst (IsBestTip (prune best_added).entries) tip_id pruned.best in
      let same : some t ≡ some e = sym (lookup-prune sha256 best_added valid sid t there) ∙ found in
      record {
        accepted = refl;
        valid = pruned;
        tip_id = tip_id;
        no_less = elim (Option-cases c.best_tip) [
          | inl nothing ↦ ground arith
          | inr (b, eb) ↦
              let (u, before, kept) = old_best b eb in
              omega (
                arith,
                before,
                most b u kept,
                best_work-at (prune best_added) sid t tip_id there,
                ap work_in same,
              )
        ];
        origin = λ k f h. comes_from k f (lookup-prune sha256 best_added valid k f h);
      }

store-IsStored_by :
    (sha256 : Bytes → Bytes) (c : Sharechain) (s : ShareBlock) (sid : Bytes) (proof : Option Bytes)
    (w : ℕ) (best : Bool)
    → IsValid sha256 c
    → share_id sha256 s ≡ ok sid
    → lookup sid c.entries ≡ none
    → cumulative_of c.entries s ≡ ok w
    → let new : Entry = record { share = s; cumulative_difficulty = w; proof = proof } in
      (is_best (insert sid new c.entries) c.best_tip w ≡ ok best)
      → IsBestTip (insert sid new c.entries) (if best then some sid else c.best_tip)
      → (r : AddResult) × (c' : Sharechain) × (store c s sid proof ≡ ok (r, c'))
        × IsStored sha256 c s sid r c'
unfolding store added best_added
store-IsStored_by sha256 c s sid proof w true v id fresh cum is heavy =
    let new : Entry = record { share = s; cumulative_difficulty = w; proof = proof } in
    (
      record { accepted = true; is_best_tip = true; reason = none },
      prune (best_added sha256 c v sid new fresh id),
      rw (cum, is),
      best_added-IsStored sha256 c v sid new fresh id heavy,
    )
store-IsStored_by sha256 c s sid proof w false v id fresh cum is heavy =
    let new : Entry = record { share = s; cumulative_difficulty = w; proof = proof } in
    (
      record { accepted = true; is_best_tip = false; reason = none },
      added sha256 c v sid new fresh id,
      rw (cum, is),
      added-IsStored sha256 c v sid new fresh id heavy,
    )

store-IsStored :
    (sha256 : Bytes → Bytes) (c : Sharechain) (s : ShareBlock) (sid : Bytes) (proof : Option Bytes)
    → IsValid sha256 c
    → share_id sha256 s ≡ ok sid
    → lookup sid c.entries ≡ none
    → IsGenesis c s ⊎ IsChild c s
    → (r : AddResult) × (c' : Sharechain) × (store c s sid proof ≡ ok (r, c'))
      × IsStored sha256 c s sid r c'
store-IsStored sha256 c s sid proof v id fresh link =
    let (w, cum) = cumulative_of-ok c s link in
    let new : Entry = record { share = s; cumulative_difficulty = w; proof = proof } in
    let (best, is, heavy) = best_after sha256 c v sid new fresh id c.best_tip v.best in
    store-IsStored_by sha256 c s sid proof w best v id fresh cum is heavy

-- In a valid store `add_share` returns, for every share that can be serialized: no key is missing.
-- The new store is valid and its best tip has no less work. The share is accepted exactly when its
-- proof was verified and it is a valid successor; it is then the best tip if the result says so,
-- and the best tip is the old one if not. A share that is not accepted changes nothing, and nothing
-- but the new share comes into the store.
pub add_share_lem :
    (sha256 : Bytes → Bytes) (c : Sharechain) (s : ShareBlock) (verified : Bool)
    (proof : Option Bytes) (now : ℕ) (sid : Bytes)
    → IsValid sha256 c
    → share_id sha256 s ≡ ok sid
    → (r : AddResult) × (c' : Sharechain) × (add_share sha256 c s verified proof now ≡ ok (r, c'))
      × IsValid sha256 c'
      × (best_work c ≤ best_work c')
      × ((r.accepted ≡ true) ↔ ((verified ≡ true) × IsSuccessor c s sid now))
      × (c'.best_tip ≡ (if r.is_best_tip then some sid else c.best_tip))
      × (r.accepted ≡ false → c' ≡ c)
      × ((k : Bytes) (e : Entry)
          → lookup k c'.entries ≡ some e
          → (e.share ≡ s) ⊎ (lookup k c.entries ≡ some e))
unfolding add_share
add_share_lem sha256 c s false proof now sid v id = (
  rejected not_verified,
  c,
  refl,
  v,
  omega arith,
  (λ e. absurd (ground arith), λ e. absurd (ground arith)),
  refl,
  (λ e. refl),
  λ k e h. inr h,
)
add_share_lem sha256 c s true proof now sid v id = elim (Option-cases (validate c s sid now)) [
  | inl valid ↦
      let (plausible, link) = (validate_iff c s sid now).0 valid in
      let (r, c', stored, done) = store-IsStored sha256 c s sid proof v id plausible.fresh link in
      (
        r,
        c',
        rw (id, ◌>>=◌, valid) stored,
        done.valid,
        done.no_less,
        (λ _. (refl, (plausible, link)), λ _. done.accepted),
        done.tip_id,
        (λ e. absurd (ground arith)),
        done.origin,
      )
  | inr (reason, invalid) ↦ (
    rejected reason,
    c,
    rw (id, ◌>>=◌, invalid),
    v,
    omega arith,
    (λ e. absurd (ground arith), λ p. absurd (ground (arith, (validate_iff c s sid now).1 p.1))),
    refl,
    (λ e. refl),
    λ k e h. inr h,
  )
]
