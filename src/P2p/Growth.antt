-- ===== src/P2p/Growth.antt =====
-- The sharechain and the caches of a node of p2pearl/p2p/node.py over a run of events. Shares that
-- the daemon adds to the chain itself are not events here.
use p2pearl.Prelude.{
  ℕ, ◌≤◌, ◌≡◌, refl, sym, ap, ◌∙◌, subst, Bool, true, inl, inr, Option, some, List, length, arith,
}
use p2pearl.Prelude.Result.{Result, ok, raise, >>=-eq-ok}
use p2pearl.Prelude.Keys.{Bytes, Str, bytes_key}
use p2pearl.Prelude.Dict.{lookup, IsDict}
use p2pearl.Prelude.Codec.{ascii}
use p2pearl.Consensus.Share.{ShareBlock, share_id}
use p2pearl.Consensus.Sharechain.{Sharechain, Entry}
use p2pearl.Consensus.Sharechain.Add.{AddResult, add_share}
use p2pearl.Consensus.Sharechain.Invariant.{IsValid}
use p2pearl.Consensus.Sharechain.Insertion.{best_work, add_share_lem}
use p2pearl.P2p.{Node, max_stored_proofs, max_blocks_seen, store_proof, seen_block}
use p2pearl.P2p.Handlers.{add_proved, Event, run}
use p2pearl.P2p.Caches.{IsBounded, store_proof-IsBounded, seen_block-IsBounded}
use p2pearl.P2p.Stable.{IsStable, run-Stable}

IsBounded-like :
    (n m : Node) → n.proofs ≡ m.proofs → n.blocks_seen ≡ m.blocks_seen → IsBounded n → IsBounded m
IsBounded-like n m ep eb h = record {
  proofs_unique = subst IsDict ep h.proofs_unique;
  proofs_length = subst (λ d. length d ≤ max_stored_proofs) ep h.proofs_length;
  blocks_unique = subst IsDict eb h.blocks_unique;
  blocks_length = subst (λ d. length d ≤ max_blocks_seen) eb h.blocks_length;
}

module _ (sha256 : Bytes → Bytes) (verify : Sharechain → ShareBlock → Str → Bool) where
  -- A proof of the share was verified, against some state of the chain.
  abbrev pub IsProved : ShareBlock → Type 0
  IsProved s = (c : Sharechain) × (proof_b64 : Str) × (verify c s proof_b64 ≡ true)

  -- The sharechain is valid, has at least the work `w` behind its tip, and holds proved shares only.
  pub record IsSound (w : ℕ) (c : Sharechain) : Type 0 where
    pub valid : IsValid sha256 c
    pub work : w ≤ best_work c
    pub proved : (k : Bytes) (e : Entry) → lookup k c.entries ≡ some e → IsProved e.share

  -- A share that `add_share` did not raise on has an id.
  add_share-share_id :
      (c : Sharechain) (s : ShareBlock) (proof : Option Bytes) (now : ℕ)
      (r : AddResult × Sharechain)
      → add_share sha256 c s true proof now ≡ ok r
      → (sid : Bytes) × (share_id sha256 s ≡ ok sid)
  unfolding add_share
  add_share-share_id c s proof now r e =
      let (sid, id, _) = >>=-eq-ok (share_id sha256 s) _ e in (sid, id)

  abbrev chain_of : Result (AddResult × Sharechain) → Sharechain → Sharechain
  chain_of (raise e) c = c
  chain_of (ok r) c = r.1

  grows-IsSound :
      (w now : ℕ) (s : ShareBlock) (proof_b64 : Str) (r : AddResult) (c : Sharechain) (n : Node)
      → verify n.sharechain s proof_b64 ≡ true
      → add_proved sha256 verify now s proof_b64 n.sharechain ≡ ok (r, c)
      → IsSound w n.sharechain
      → IsSound w c
  grows-IsSound w now s proof_b64 r c n good added h =
      let (payload, _, e) = >>=-eq-ok (ascii proof_b64) _ added in
      let (sid, id) = add_share-share_id n.sharechain s (some payload) now (r, c) e in
      let (r', c', e', valid, more, _, _, _, origin) =
        add_share_lem sha256 n.sharechain s true (some payload) now sid h.valid id in
      let same : c' ≡ c = ap (λ x. chain_of x c) (sym e' ∙ e) in
      subst (IsSound w) same (record {
        valid = valid;
        work = omega (arith, h.work, more);
        proved = λ k f found. elim (origin k f found) [
          | inl new ↦ subst IsProved (sym new) (n.sharechain, proof_b64, good)
          | inr old ↦ h.proved k f old
        ];
      })

  pub IsSound-IsStable : (w : ℕ) → IsStable sha256 verify (λ n. IsSound w n.sharechain)
  unfolding store_proof seen_block
  IsSound-IsStable w = record {
    addrs = λ known n h. h;
    waiting = λ d n h. h;
    proofs = λ sid proof_b64 n h. h;
    blocks = λ block_hex n h.
        let same : n.sharechain ≡ (seen_block sha256 block_hex n).1.sharechain = ground arith in
        subst (IsSound w) same h;
    grows = grows-IsSound w;
  }

  -- Whatever messages come in and whatever the daemon broadcasts, a node whose sharechain is valid
  -- and holds proved shares only keeps it so, and the work behind its best tip never falls. Every
  -- share that is stored had its proof verified.
  pub run-IsSound :
      (es : List Event) (n : Node)
      → IsSound (best_work n.sharechain) n.sharechain
      → IsSound (best_work n.sharechain) (run sha256 verify es n).sharechain
  run-IsSound es n h =
      run-Stable sha256 verify (λ m. IsSound (best_work n.sharechain) m.sharechain)
        (IsSound-IsStable (best_work n.sharechain)) es n h

  IsBounded-IsStable : IsStable sha256 verify IsBounded
  IsBounded-IsStable = record {
    addrs = λ known n h. IsBounded-like n (record n { known_addrs = known }) refl refl h;
    waiting = λ d n h. IsBounded-like n (record n { pending = d }) refl refl h;
    proofs = store_proof-IsBounded;
    blocks = seen_block-IsBounded sha256;
    grows = λ now s proof_b64 r c n good added h.
        IsBounded-like n (record n { sharechain = c }) refl refl h;
  }

  -- Whatever happens to a node, it keeps at most 4096 proofs and the hashes of at most 512 blocks,
  -- each under one key.
  pub run-IsBounded :
      (es : List Event) (n : Node) → IsBounded n → IsBounded (run sha256 verify es n)
  run-IsBounded es n h = run-Stable sha256 verify IsBounded IsBounded-IsStable es n h
