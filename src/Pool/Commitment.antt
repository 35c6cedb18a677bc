-- ===== src/Pool/Commitment.antt =====
-- The payouts that a candidate of p2pearl/daemon.py commits to, and a peer that rebuilds them.
use p2pearl.Prelude.{
  ℕ, zero, suc, ◌≡◌, refl, sym, subst, ap, ◌∙◌, true, inl, inr, none, some, List, [], arith, pos,
}
use p2pearl.Prelude.Result.{ok, ◌>>=◌, >>=-eq-ok, ok-injective}
use p2pearl.Prelude.Keys.{Bytes, Str, bytes_eq, bytes_key, bytes_eq_iff}
use p2pearl.Prelude.Dict.{lookup}
use p2pearl.Consensus.Pplns.{Payout, compute_pplns_payouts}
use p2pearl.Consensus.Share.{ShareBlock, post_init, double_sha256}
use p2pearl.Consensus.Sharechain.{Sharechain, tip, genesis_prev, pplns_weights, walk}
use p2pearl.Consensus.Sharechain.Invariant.{IsValid}
use p2pearl.Pool.{ParentTemplate, PoolNode, serialize_payouts, signed}
use p2pearl.Pool.Jobs.{base_of, candidate_of, candidate}
use p2pearl.Pool.Successors.{post_init-same, base-cases}
use p2pearl.Pool.Verify.{committed_payouts}

walk-missing :
    (n : ℕ) (c : Sharechain) (id : Bytes)
    → lookup id c.entries ≡ none
    → walk n c (some id) [] [] ≡ []
unfolding walk
walk-missing zero c id h = refl
walk-missing (suc n) c id h = rw (walk, h) refl

walk-none : (n : ℕ) (c : Sharechain) → walk n c none [] [] ≡ []
unfolding walk
walk-none zero c = refl
walk-none (suc n) c = refl

-- The window as of a candidate's parent is the window as of the best tip.
pplns_weights-tip :
    (c : Sharechain) (id : Bytes)
    → c.best_tip ≡ some id
    → pplns_weights c (some id) ≡ pplns_weights c none
unfolding pplns_weights
pplns_weights-tip c id h = rw h refl

pplns_weights-empty :
    (c : Sharechain) (id : Bytes)
    → c.best_tip ≡ none
    → lookup id c.entries ≡ none
    → pplns_weights c (some id) ≡ pplns_weights c none
unfolding pplns_weights
pplns_weights-empty c id h missing =
    let idle : walk c.window c c.best_tip [] [] ≡ [] =
      subst (λ x. walk c.window c x [] [] ≡ []) (sym h) (walk-none c.window c) in
    rw (walk-missing c.window c id missing, idle) refl

committed :
    (sha256 : Bytes → Bytes) (c : Sharechain) (min_payout : ℕ) (s : ShareBlock)
    (payouts : List Payout) (bytes : Bytes)
    → compute_pplns_payouts
        (pos s.coinbase_value)
        (signed (pplns_weights c (some s.prev_share_id)))
        (pos min_payout)
      ≡ ok payouts
    → serialize_payouts payouts ≡ ok bytes
    → double_sha256 sha256 bytes ≡ s.payout_set_hash
    → committed_payouts sha256 c min_payout s ≡ ok (some payouts)
unfolding committed_payouts
committed sha256 c min_payout s payouts bytes paid encoded same =
    let eq : bytes_eq (double_sha256 sha256 bytes) s.payout_set_hash ≡ true =
      ground (arith, bytes_eq_iff (double_sha256 sha256 bytes) s.payout_set_hash) in
    rw (committed_payouts, paid, ◌>>=◌, encoded, ◌>>=◌, eq) refl

-- A peer with the same sharechain and the same minimum, where no share has the all-zero id, finds
-- that a candidate commits to exactly the payouts that the job pays.
pub candidate-committed_payouts :
    (sha256 : Bytes → Bytes) (n : PoolNode) (t : ParentTemplate) (address label : Str) (now : ℕ)
    (payouts : List Payout) (s : ShareBlock)
    → IsValid sha256 n.sharechain
    → lookup genesis_prev n.sharechain.entries ≡ none
    → candidate sha256 n t address label now ≡ ok (payouts, s)
    → committed_payouts sha256 n.sharechain n.min_payout s ≡ ok (some payouts)
unfolding candidate
candidate-committed_payouts sha256 n t address label now payouts s v unused built =
    let (b, based, next) = >>=-eq-ok (base_of sha256 t (tip n.sharechain)) _ built in
    let (paid, e, then') = >>=-eq-ok (compute_pplns_payouts _ _ _) _ next in
    let (bytes, encoded, rest) = >>=-eq-ok (serialize_payouts paid) _ then' in
    let raw = candidate_of sha256 n t address label now b (double_sha256 sha256 bytes) in
    let (checked, same, last) = >>=-eq-ok (post_init (some raw.target_limit) raw) _ rest in
    let is : raw ≡ s =
      post_init-same raw checked same
      ∙ ap (λ (p : List Payout × ShareBlock). p.1) (ok-injective last) in
    let window : pplns_weights n.sharechain (some b.prev_share_id)
        ≡ pplns_weights n.sharechain none =
      elim (base-cases sha256 n.sharechain v t b based) [
        | inl (ep, _, nothing) ↦
            pplns_weights-empty n.sharechain b.prev_share_id nothing (rw ep unused)
        | inr k ↦ pplns_weights-tip n.sharechain b.prev_share_id k.is_best
      ] in
    let pays : paid ≡ payouts = ap (λ (p : List Payout × ShareBlock). p.0) (ok-injective last) in
    subst (λ x. committed_payouts sha256 n.sharechain n.min_payout x ≡ ok (some payouts)) is
      (committed sha256 n.sharechain n.min_payout raw payouts bytes (rw window (e ∙ ap ok pays))
        (subst (λ x. serialize_payouts x ≡ ok bytes) pays encoded) refl)
