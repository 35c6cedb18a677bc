-- ===== src/P2p/Stable.antt =====
-- The ways in which the handlers of p2pearl/p2p/node.py change a node, as an interface that a
-- predicate on nodes can satisfy.
use p2pearl.Prelude.{
  ℕ, ◌≡◌, sym, subst, Bool, true, ◌&&◌, ◌||◌, if-elim, Bool-cases, Option-cases, ◌⊎◌, inl, inr,
  Option, none, some, List, [], ◌∷◌, take, ℤ, arith,
}
use p2pearl.Prelude.Result.{ok, >>=-eq-ok, ok-injective, Result-cases}
use p2pearl.Prelude.Keys.{Bytes, Str, bytes_key}
use p2pearl.Prelude.Dict.{Dict, lookup, contains, insert, erase}
use p2pearl.Prelude.Hex.{hex}
use p2pearl.Consensus.Share.{ShareBlock, share_id}
use p2pearl.Consensus.Sharechain.{Sharechain}
use p2pearl.Consensus.Sharechain.Validate.{is_valid_successor}
use p2pearl.Consensus.Sharechain.Add.{AddResult}
use p2pearl.P2p.{Addr, Msg, Node, sync_limit, store_proof, seen_block}
use p2pearl.P2p.Rate.{Peer, Gate, handle, ignore, drop_peer, gate}
use p2pearl.P2p.Handlers.{
  on_hello, add_addr, on_peers, parse_share, on_parsed, on_share, on_getproof, add_proved, relay,
  on_claimed, on_proof, on_getshares, sync_proved, sync_parsed, sync_shares, on_shares, on_block,
  handle_msg, limited, is_orphan, gated, dispatch, broadcast_share, broadcast_block, Event, message,
  own_share, own_block, step, run,
}

module _ (sha256 : Bytes → Bytes) (verify : Sharechain → ShareBlock → Str → Bool) where
  pub record IsStable (P : Node → Type 0) : Type 0 where
    pub addrs : (known : List Addr) (n : Node) → P n → P (record n { known_addrs = known })
    pub waiting : (d : Dict Str ShareBlock) (n : Node) → P n → P (record n { pending = d })
    pub proofs : (sid proof_b64 : Str) (n : Node) → P n → P (store_proof sid proof_b64 n)
    pub blocks : (block_hex : Str) (n : Node) → P n → P (seen_block sha256 block_hex n).1
    -- The sharechain changes only by a share whose proof was verified against it.
    pub grows :
        (now : ℕ) (s : ShareBlock) (proof_b64 : Str) (r : AddResult) (c : Sharechain) (n : Node)
        → verify n.sharechain s proof_b64 ≡ true
        → add_proved sha256 verify now s proof_b64 n.sharechain ≡ ok (r, c)
        → P n
        → P (record n { sharechain = c })

  module _ (P : Node → Type 0) (stable : IsStable P) (now : ℕ) where
    on_peers-Stable : (addrs : List Addr) (n : Node) → P n → P (on_peers addrs n)
    unfolding on_peers
    on_peers-Stable [] n h = h
    on_peers-Stable (a ∷ addrs) n h =
        on_peers-Stable addrs (record n { known_addrs = add_addr a n.known_addrs })
          (stable.addrs (add_addr a n.known_addrs) n h)

    on_hello-Stable :
        (p : Peer) (port : Option ℕ) (height : ℤ) (n : Node) → P n → P (on_hello p port height n).0
    unfolding on_hello
    on_hello-Stable p none height n h = h
    on_hello-Stable p (some q) height n h = stable.addrs (add_addr (p.host, q) n.known_addrs) n h

    on_parsed-Stable :
        (peer : ℕ) (s : ShareBlock) (sid : Bytes) (n : Node)
        → P n
        → P (on_parsed sha256 verify now peer s sid n).0
    unfolding on_parsed
    on_parsed-Stable peer s sid n h =
        let held = record n { pending = insert (hex sid) s n.pending } in
        let outcome : ((on_parsed sha256 verify now peer s sid n).0 ≡ n)
            ⊎ ((on_parsed sha256 verify now peer s sid n).0 ≡ held) =
          ground arith in
        elim outcome [
          | inl same ↦ subst P (sym same) h
          | inr waits ↦ subst P (sym waits) (stable.waiting (insert (hex sid) s n.pending) n h)
        ]

    on_share-Stable :
        (peer : ℕ) (text : Str) (n : Node) → P n → P (on_share sha256 verify now peer text n).0
    unfolding on_share
    on_share-Stable peer text n h = elim (Option-cases (parse_share sha256 verify now text)) [
      | inl junk ↦ rw (on_share, junk) h
      | inr (parsed, e) ↦ rw (on_share, e) (on_parsed-Stable peer parsed.0 parsed.1 n h)
    ]

    on_claimed-Stable :
        (peer : ℕ) (s : ShareBlock) (sid proof_b64 : Str) (n : Node)
        → P n
        → P (on_claimed sha256 verify now peer s sid proof_b64 n).0
    unfolding on_claimed relay
    on_claimed-Stable peer s sid proof_b64 n h =
        elim (Bool-cases (verify n.sharechain s proof_b64)) [
          | inr bad ↦ rw (on_claimed, bad) h
          | inl good ↦ elim (Result-cases (add_proved sha256 verify now s proof_b64 n.sharechain)) [
            | inl (e, raised) ↦ rw (on_claimed, good, raised) h
            | inr ((r, c), added) ↦
                let h' = stable.grows now s proof_b64 r c n good added h in
                elim (Bool-cases r.accepted) [
                  | inl kept ↦
                      rw (on_claimed, good, added, kept)
                        (stable.proofs sid proof_b64 (record n { sharechain = c }) h')
                  | inr lost ↦ rw (on_claimed, good, added, lost) h'
                ]
          ]
        ]

    on_proof-Stable :
        (peer : ℕ) (sid proof_b64 : Str) (n : Node)
        → P n
        → P (on_proof sha256 verify now peer sid proof_b64 n).0
    unfolding on_proof
    on_proof-Stable peer sid proof_b64 n h = elim (Option-cases (lookup sid n.pending)) [
      | inl nothing ↦ rw (on_proof, nothing) h
      | inr (s, e) ↦
          rw (on_proof, e)
            (on_claimed-Stable peer s sid proof_b64 (record n { pending = erase sid n.pending })
              (stable.waiting (erase sid n.pending) n h))
    ]

    on_getproof-Stable :
        (peer : ℕ) (sid : Str) (n : Node) → P n → P (on_getproof sha256 verify now peer sid n).0
    unfolding on_getproof
    on_getproof-Stable peer sid n h = elim (Option-cases (lookup sid n.proofs)) [
      | inl nothing ↦ rw (on_getproof, nothing) h
      | inr (b64, e) ↦ rw (on_getproof, e) h
    ]

    sync_proved-Stable :
        (s : ShareBlock) (sid : Bytes) (proof_b64 : Str) (n m : Node)
        → verify n.sharechain s proof_b64 ≡ true
        → P n
        → sync_proved sha256 verify now s sid proof_b64 n ≡ ok m
        → P m
    unfolding sync_proved
    sync_proved-Stable s sid proof_b64 n m good h e =
        let ((r, c), added, rest) =
          >>=-eq-ok (add_proved sha256 verify now s proof_b64 n.sharechain) _ e in
        let h' = stable.grows now s proof_b64 r c n good added h in
        let n' = record n { sharechain = c } in
        subst P (ok-injective rest) (
          if-elim P r.accepted (store_proof (hex sid) proof_b64 n') n'
            (λ _. stable.proofs (hex sid) proof_b64 n' h') (λ _. h'))

    sync_parsed-Stable :
        (s : ShareBlock) (sid : Bytes) (proof_b64 : Str) (n m : Node)
        → P n
        → sync_parsed sha256 verify now s sid proof_b64 n ≡ ok m
        → P m
    unfolding sync_parsed
    sync_parsed-Stable s sid proof_b64 n m h e =
        let skip = contains sid n.sharechain.entries || is_orphan n.sharechain s in
        let tried = is_valid_successor sha256 n.sharechain s now in
        elim (Bool-cases skip) [
          | inl skipped ↦ let same : n ≡ m = ok-injective (ground arith) in subst P same h
          | inr fresh ↦ elim (Result-cases tried) [
            | inl (err, raised) ↦ absurd (ground arith)
            | inr (valid, v) ↦ elim (Bool-cases (valid && verify n.sharechain s proof_b64)) [
              | inl good ↦ sync_proved-Stable s sid proof_b64 n m (ground arith) h (ground arith)
              | inr bad ↦ let same : n ≡ m = ok-injective (ground arith) in subst P same h
            ]
          ]
        ]

    sync_shares-Stable :
        (pairs : List (Str × Str)) (n : Node) → P n → P (sync_shares sha256 verify now pairs n)
    unfolding sync_shares
    sync_shares-Stable [] n h = h
    sync_shares-Stable ((text, proof_b64) ∷ pairs) n h =
        elim (Option-cases (parse_share sha256 verify now text)) [
          | inl junk ↦ rw (sync_shares, junk) (sync_shares-Stable pairs n h)
          | inr ((s, sid), e) ↦
              elim (Result-cases (sync_parsed sha256 verify now s sid proof_b64 n)) [
                | inl (err, raised) ↦ rw (sync_shares, e, raised) h
                | inr (m, done) ↦
                    rw (sync_shares, e, done)
                      (sync_shares-Stable pairs m (sync_parsed-Stable s sid proof_b64 n m h done))
              ]
        ]

    on_block-Stable :
        (peer : ℕ) (block_hex : Str) (n : Node)
        → P n
        → P (on_block sha256 verify now peer block_hex n).0
    unfolding on_block
    on_block-Stable peer block_hex n h =
        let seen = (seen_block sha256 block_hex n).1 in
        let outcome : ((on_block sha256 verify now peer block_hex n).0 ≡ n)
            ⊎ ((on_block sha256 verify now peer block_hex n).0 ≡ seen) =
          ground arith in
        elim outcome [
          | inl same ↦ subst P (sym same) h
          | inr stored ↦ subst P (sym stored) (stable.blocks block_hex n h)
        ]

    handle_msg-Stable :
        (p : Peer) (m : Msg) (n : Node) → P n → P (handle_msg sha256 verify now p m n).0
    unfolding handle_msg on_getshares on_shares
    handle_msg-Stable p (Msg.hello port tip_hex height) n h = on_hello-Stable p port height n h
    handle_msg-Stable p (Msg.peers addrs) n h = on_peers-Stable addrs n h
    handle_msg-Stable p (Msg.share text) n h = on_share-Stable p.peer_id text n h
    handle_msg-Stable p (Msg.getproof sid) n h = on_getproof-Stable p.peer_id sid n h
    handle_msg-Stable p (Msg.proof sid proof_b64) n h = on_proof-Stable p.peer_id sid proof_b64 n h
    handle_msg-Stable p (Msg.getshares from_height) n h = h
    handle_msg-Stable p (Msg.shares pairs) n h = sync_shares-Stable (take sync_limit pairs) n h
    handle_msg-Stable p (Msg.block block_hex) n h = on_block-Stable p.peer_id block_hex n h

    gated-Stable :
        (m : Msg) (n : Node) (g : Gate) (p : Peer) → P n → P (gated sha256 verify now m n (g, p)).1
    gated-Stable m n handle p h = handle_msg-Stable p m n h
    gated-Stable m n ignore p h = h
    gated-Stable m n drop_peer p h = h

    dispatch-Stable :
        (clock : ℕ) (p : Peer) (m : Msg) (n : Node)
        → P n
        → P (dispatch sha256 verify now clock p m n).1
    unfolding dispatch
    dispatch-Stable clock p m n h = elim (Option-cases (limited sha256 verify now m)) [
      | inl free ↦ rw (dispatch, free) (handle_msg-Stable p m n h)
      | inr (kind, e) ↦
          rw (dispatch, e) (gated-Stable m n (gate kind clock p).0 (gate kind clock p).1 h)
    ]

    broadcast_share-Stable :
        (s : ShareBlock) (proof_b64 : Str) (n : Node)
        → P n
        → P (broadcast_share sha256 verify now s proof_b64 n).0
    unfolding broadcast_share
    broadcast_share-Stable s proof_b64 n h = elim (Result-cases (share_id sha256 s)) [
      | inl (err, raised) ↦ rw (broadcast_share, raised) h
      | inr (sid, e) ↦ rw (broadcast_share, e) (stable.proofs (hex sid) proof_b64 n h)
    ]

  step-Stable :
      (P : Node → Type 0) → IsStable P → (e : Event) (n : Node) → P n → P (step sha256 verify e n)
  unfolding step broadcast_block
  step-Stable P stable (message now clock p m) n h = dispatch-Stable P stable now clock p m n h
  step-Stable P stable (own_share s proof_b64) n h =
      broadcast_share-Stable P stable 0 s proof_b64 n h
  step-Stable P stable (own_block block_hex) n h = stable.blocks block_hex n h

  -- A stable predicate holds after any run that starts where it holds.
  pub run-Stable :
      (P : Node → Type 0)
      → IsStable P
      → (es : List Event) (n : Node) → P n
      → P (run sha256 verify es n)
  unfolding run
  run-Stable P stable [] n h = h
  run-Stable P stable (e ∷ es) n h =
      run-Stable P stable es (step sha256 verify e n) (step-Stable P stable e n h)
