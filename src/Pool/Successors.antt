-- ===== src/Pool/Successors.antt =====
-- The candidate of `build_job_for` in p2pearl/daemon.py, against the checks of the sharechain.
use p2pearl.Prelude.{
  ℕ, ◌+◌, ◌≤◌, ◌≡◌, refl, sym, subst, ap, ◌∙◌, true, Option-cases, ◌⊎◌, inl, inr, Option, none,
  some, List, arith,
}
use p2pearl.Prelude.Result.{ok, >>=-eq-ok, ok-injective}
use p2pearl.Prelude.Keys.{Bytes, Str, bytes_key, bytes_eq_iff}
use p2pearl.Prelude.Dict.{lookup}
use p2pearl.Config.{max_timestamp_drift_seconds}
use p2pearl.Consensus.Pplns.{Payout, compute_pplns_payouts}
use p2pearl.Consensus.Share.{ShareBlock, post_init, double_sha256, share_id}
use p2pearl.Consensus.Sharechain.{
  Sharechain, Entry, tip, is_genesis_prev, genesis_prev, expected_target, member,
}
use p2pearl.Consensus.Sharechain.Validate.{validate, distinct}
use p2pearl.Consensus.Sharechain.Successor.{
  IsGenesis, IsChild, IsSuccessor, TargetFits, validate_iff,
}
use p2pearl.Consensus.Sharechain.Invariant.{IsValid, IsBestTip}
use p2pearl.Pool.{ParentTemplate, PoolNode, serialize_payouts}
use p2pearl.Pool.Jobs.{Base, stamp, base_of, candidate_of, candidate}

-- The checks of a share return it as it was.
pub post_init-same : (s t : ShareBlock) → post_init (some s.target_limit) s ≡ ok t → s ≡ t
unfolding post_init
post_init-same s t h = ok-injective (ground arith)

-- What a base is: that of a first share, or that of a child of a stored one.
pub record IsChildBase (c : Sharechain) (b : Base) : Type 0 where
  pub parent : Entry
  pub found : lookup b.prev_share_id c.entries ≡ some parent
  pub height : b.height ≡ parent.share.sidechain_height + 1
  pub earliest : b.earliest ≡ parent.share.timestamp + 1
  pub is_tip : tip c ≡ some parent.share
  pub is_best : c.best_tip ≡ some b.prev_share_id

module _ (sha256 : Bytes → Bytes) (c : Sharechain) (v : IsValid sha256 c) (t : ParentTemplate) where
  base_at :
      (b : Base) (id : Bytes) (e : Entry)
      → c.best_tip ≡ some id
      → lookup id c.entries ≡ some e
      → base_of sha256 t (tip c) ≡ ok b
      → IsChildBase c b
  unfolding base_of
  base_at b id e eb found h =
      let named : share_id sha256 e.share ≡ ok id = v.ids id e found in
      let at_tip : tip c ≡ some e.share = ground arith in
      let base : Base = record {
        prev_share_id = id;
        height = e.share.sidechain_height + 1;
        earliest = e.share.timestamp + 1;
        carried = e.share.target_limit;
      } in
      let made : base_of sha256 t (tip c) ≡ ok base = rw (at_tip, base_of, named) refl in
      subst (IsChildBase c) (ok-injective (sym made ∙ h)) (record {
        parent = e;
        found = found;
        height = refl;
        earliest = refl;
        is_tip = at_tip;
        is_best = eb;
      })

  pub base-cases :
      (b : Base)
      → base_of sha256 t (tip c) ≡ ok b
      → ((b.prev_share_id ≡ genesis_prev) × (b.height ≡ 0) × (c.best_tip ≡ none)) ⊎ IsChildBase c b
  unfolding base_of
  base-cases b h = elim (Option-cases c.best_tip) [
    | inl nothing ↦
        let no_tip : tip c ≡ none = ground arith in
        let made : base_of sha256 t none ≡ ok b = subst (λ x. base_of sha256 t x ≡ ok b) no_tip h in
        let base = ok-injective made in
        inl (ap Base.prev_share_id (sym base), ap Base.height (sym base), nothing)
    | inr (id, eb) ↦
        let heaviest = subst (IsBestTip c.entries) eb v.best in
        inr (base_at b id heaviest.0 eb heaviest.1 h)
  ]

expected_target-genesis :
    (c : Sharechain) (id : Bytes) (time : Option ℕ)
    → is_genesis_prev id ≡ true
    → expected_target c id time ≡ some c.bootstrap_target
unfolding expected_target
expected_target-genesis c id time h = rw h refl

-- The target limit of a candidate is the expected one, where that can be derived.
TargetFits-carried :
    (e : Option ℕ) (carried : ℕ) → TargetFits e (elim e [ none ↦ carried | some t ↦ t ])
TargetFits-carried none carried = tt
TargetFits-carried (some t) carried = refl

module _ (sha256 : Bytes → Bytes) (n : PoolNode) (v : IsValid sha256 n.sharechain)
    (t : ParentTemplate) (address label : Str) (now : ℕ) (b : Base) (payout_hash : Bytes)
    (based : base_of sha256 t (tip n.sharechain) ≡ ok b) where
  made : ShareBlock
  made = candidate_of sha256 n t address label now b payout_hash

  made-IsGenesis : b.prev_share_id ≡ genesis_prev → b.height ≡ 0 → IsGenesis n.sharechain made
  unfolding made
  made-IsGenesis ep eh =
      let none_before : is_genesis_prev b.prev_share_id ≡ true =
        ground (arith, bytes_eq_iff b.prev_share_id genesis_prev) in
      record {
        no_parent = none_before;
        height = eh;
        no_uncles = refl;
        target =
            ap (λ (e : Option ℕ). elim e [ none ↦ b.carried | some x ↦ x ])
              (expected_target-genesis n.sharechain b.prev_share_id (some (stamp now t b))
                none_before);
      }

  made-IsChild :
      lookup genesis_prev n.sharechain.entries ≡ none
      → ((s : ShareBlock) → tip n.sharechain ≡ some s → s.parent_height ≤ t.height)
      → IsChildBase n.sharechain b
      → IsChild n.sharechain made
  unfolding made
  made-IsChild unused risen k = record {
    has_parent = ground (arith, bytes_eq_iff b.prev_share_id genesis_prev, k.found, unused);
    parent = k.parent;
    found = k.found;
    height = k.height;
    timestamp = ground (arith, k.earliest);
    parent_height = risen k.parent.share k.is_tip;
    target =
        TargetFits-carried (expected_target n.sharechain b.prev_share_id (some (stamp now t b)))
          b.carried;
    uncles = tt;
  }

  made-IsSuccessor :
      (sid : Bytes) (clock : ℕ)
      → lookup sid n.sharechain.entries ≡ none
      → made.timestamp ≤ clock + max_timestamp_drift_seconds
      → lookup genesis_prev n.sharechain.entries ≡ none
      → ((s : ShareBlock) → tip n.sharechain ≡ some s → s.parent_height ≤ t.height)
      → IsSuccessor n.sharechain made sid clock
  unfolding made distinct member
  made-IsSuccessor sid clock fresh soon unused risen = (
    record {
      fresh = fresh;
      version = refl;
      timestamp = soon;
      coinbase = refl;
      distinct_uncles = refl;
      not_self = refl;
    },
    elim (base-cases sha256 n.sharechain v t b based) [
      | inl (ep, eh, _) ↦ inl (made-IsGenesis ep eh)
      | inr k ↦ inr (made-IsChild unused risen k)
    ],
  )

-- The candidate that a job is built on passes validation in the sharechain that it was built from,
-- as long as its timestamp is not too far ahead of the clock then: provided that the sharechain is
-- valid, that no share has the all-zero id that marks a missing parent, that the candidate's id is
-- new, and that the template is no lower than the parent height of the best tip.
pub candidate-validate :
    (sha256 : Bytes → Bytes) (n : PoolNode) (t : ParentTemplate) (address label : Str) (now : ℕ)
    (payouts : List Payout) (s : ShareBlock) (sid : Bytes) (clock : ℕ)
    → IsValid sha256 n.sharechain
    → candidate sha256 n t address label now ≡ ok (payouts, s)
    → lookup sid n.sharechain.entries ≡ none
    → s.timestamp ≤ clock + max_timestamp_drift_seconds
    → lookup genesis_prev n.sharechain.entries ≡ none
    → ((u : ShareBlock) → tip n.sharechain ≡ some u → u.parent_height ≤ t.height)
    → validate n.sharechain s sid clock ≡ none
unfolding candidate made
candidate-validate sha256 n t address label now payouts s sid clock v built fresh soon unused
      risen =
    let (b, based, next) = >>=-eq-ok (base_of sha256 t (tip n.sharechain)) _ built in
    let (paid, _, then') = >>=-eq-ok (compute_pplns_payouts _ _ _) _ next in
    let (bytes, _, rest) = >>=-eq-ok (serialize_payouts paid) _ then' in
    let raw = candidate_of sha256 n t address label now b (double_sha256 sha256 bytes) in
    let (checked, same, last) = >>=-eq-ok (post_init (some raw.target_limit) raw) _ rest in
    let is : raw ≡ s =
      post_init-same raw checked same
      ∙ ap (λ (p : List Payout × ShareBlock). p.1) (ok-injective last) in
    (validate_iff n.sharechain s sid clock).1 (
      subst (λ x. IsSuccessor n.sharechain x sid clock) is
        (made-IsSuccessor sha256 n v t address label now b (double_sha256 sha256 bytes) based sid
          clock fresh (subst (λ x. x.timestamp ≤ clock + max_timestamp_drift_seconds) (sym is) soon)
          unused risen))
