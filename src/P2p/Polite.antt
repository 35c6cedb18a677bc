-- ===== src/P2p/Polite.antt =====
-- The strikes of a peer of p2pearl/p2p/node.py over the dispatch of a message.
use p2pearl.Prelude.{
  ℕ, ◌<◌, ◌≡◌, refl, Bool, true, false, ◌⊎◌, inl, inr, Option-cases, Option, none, some, arith, ℤ,
}
use p2pearl.Prelude.Keys.{Bytes, Str}
use p2pearl.Consensus.Share.{ShareBlock}
use p2pearl.Consensus.Sharechain.{Sharechain}
use p2pearl.P2p.{Node, Msg}
use p2pearl.P2p.Rate.{
  Bucket, bucket, Kind, Peer, Gate, handle, ignore, drop_peer, gate, allow, allow_at,
  hard_rate_strikes,
}
use p2pearl.P2p.Handlers.{on_hello, handle_msg, limited, gated, dispatch}

allow_at_clears :
    (kind : Kind) (clock : ℕ) (b : Option Bucket) (p : Peer)
    → (allow_at kind clock b p).0 ≡ true
    → (allow_at kind clock b p).1.strikes ≡ 0
unfolding allow_at
allow_at_clears kind clock none p h = refl
allow_at_clears kind clock (some b) p h = ground arith

-- A message that passes the gate clears the strikes; one that does not, and does not drop the peer,
-- leaves it below the bound.
gate_polite :
    (kind : Kind) (clock : ℕ) (p : Peer)
    → ((gate kind clock p).0 ≡ drop_peer) ⊎ ((gate kind clock p).1.strikes < hard_rate_strikes)
unfolding gate allow
gate_polite kind clock p = ground (arith, allow_at_clears kind clock (bucket kind p.buckets) p)

module _ (sha256 : Bytes → Bytes) (verify : Sharechain → ShareBlock → Str → Bool) (now : ℕ) where
  on_hello_strikes :
      (p : Peer) (port : Option ℕ) (their_height : ℤ) (n : Node)
      → (on_hello p port their_height n).1.strikes ≡ p.strikes
  unfolding on_hello
  on_hello_strikes p none their_height n = refl
  on_hello_strikes p (some q) their_height n = refl

  handle_msg_strikes :
      (p : Peer) (m : Msg) (n : Node) → (handle_msg sha256 verify now p m n).1.strikes ≡ p.strikes
  unfolding handle_msg
  handle_msg_strikes p (Msg.hello port tip_hex their_height) n =
      on_hello_strikes p port their_height n
  handle_msg_strikes p (Msg.peers addrs) n = refl
  handle_msg_strikes p (Msg.share text) n = refl
  handle_msg_strikes p (Msg.getproof sid) n = refl
  handle_msg_strikes p (Msg.proof sid proof_b64) n = refl
  handle_msg_strikes p (Msg.getshares from_height) n = refl
  handle_msg_strikes p (Msg.shares pairs) n = refl
  handle_msg_strikes p (Msg.block block_hex) n = refl

  gated_polite :
      (m : Msg) (n : Node) (g : Gate) (p : Peer)
      → (g ≡ drop_peer) ⊎ (p.strikes < hard_rate_strikes)
      → ((gated sha256 verify now m n (g, p)).0 ≡ false)
        ⊎ ((gated sha256 verify now m n (g, p)).2.strikes < hard_rate_strikes)
  gated_polite m n handle p h = ground (arith, handle_msg_strikes p m n)
  gated_polite m n ignore p h = ground arith
  gated_polite m n drop_peer p h = inl refl

  pub dispatch_polite :
      (clock : ℕ) (p : Peer) (m : Msg) (n : Node)
      → p.strikes < hard_rate_strikes
      → ((dispatch sha256 verify now clock p m n).0 ≡ false)
        ⊎ ((dispatch sha256 verify now clock p m n).2.strikes < hard_rate_strikes)
  unfolding dispatch
  dispatch_polite clock p m n h = elim (Option-cases (limited sha256 verify now m)) [
    | inl free ↦ ground (arith, free, handle_msg_strikes p m n)
    | inr (kind, e) ↦
        let verdict = gate kind clock p in
        let step = gated_polite m n verdict.0 verdict.1 (gate_polite kind clock p) in
        ground (arith, e, step)
  ]
