-- ===== src/P2p/Delivery.antt =====
-- The exchange by which a share spreads in p2pearl/p2p/node.py: an announcement, the request for the
-- proof, the proof, and its verification.
use p2pearl.Prelude.{
  ℕ, ◌<◌, ◌≡◌, refl, sym, subst, ap, ◌∙◌, Bool, true, none, some, [], ◌∷◌, ◌++◌, replicate, All,
}
use p2pearl.Prelude.Result.{Result, ok, ◌>>=◌, ok-injective}
use p2pearl.Prelude.Keys.{Bytes, Str, bytes_key}
use p2pearl.Prelude.Dict.{Dict, lookup, insert, erase, IsDict, lookup-insert_self}
use p2pearl.Prelude.Codec.{ascii}
use p2pearl.Prelude.Hex.{hex, from_hex-hex}
use p2pearl.Consensus.Share.{ShareBlock, serialize, deserialize, double_sha256, share_id}
use p2pearl.Consensus.Share.RoundTrip.{IsWire, IsShare, LimitIsCommitted, deserialize-serialize}
use p2pearl.Consensus.Sharechain.{Sharechain}
use p2pearl.Consensus.Sharechain.Add.{AddResult, add_share}
use p2pearl.Consensus.Sharechain.Successor.{IsSuccessor}
use p2pearl.Consensus.Sharechain.Invariant.{IsValid}
use p2pearl.Consensus.Sharechain.Insertion.{add_share_lem}
use p2pearl.P2p.{Msg, send, Node, store_proof, broadcast}
use p2pearl.P2p.Handlers.{
  parse_share, announce, on_share, on_getproof, add_proved, relay, on_claimed, on_proof,
  broadcast_share,
}
use p2pearl.P2p.Caches.{store_proof_lem}
use p2pearl.P2p.Relay.{on_share_iff}

append_nil : (b : Bytes) → b ++ [] ≡ b
append_nil [] = refl
append_nil (x ∷ xs) = ap (◌∷◌ x) (append_nil xs)

-- A share as it comes off the wire, without its proof-of-work hash.
abbrev pub on_wire : ShareBlock → ShareBlock
on_wire s = record s { pow_hash = replicate 32 0 }

-- A share that can be sent, and its bytes.
pub record IsSendable (s : ShareBlock) (payload : Bytes) : Type 0 where
  pub wire : IsWire s
  pub share : IsShare s
  pub limit : LimitIsCommitted s
  pub serialized : serialize s ≡ ok payload
  pub bytes : All (λ b. b < 256) payload

pub on_wire-share_id :
    (sha256 : Bytes → Bytes) (s : ShareBlock) (payload : Bytes)
    → serialize s ≡ ok payload
    → share_id sha256 (on_wire s) ≡ ok (double_sha256 sha256 payload)
unfolding share_id serialize
on_wire-share_id sha256 s payload h =
    ap (λ (r : Result Bytes). r >>= λ bs. ok (double_sha256 sha256 bs)) h

module _ (sha256 : Bytes → Bytes) (verify : Sharechain → ShareBlock → Str → Bool) (now : ℕ) where
  pub parse_share-hex :
      (s : ShareBlock) (payload : Bytes)
      → IsSendable s payload
      → parse_share sha256 verify now (hex payload) ≡ some (on_wire s, double_sha256 sha256 payload)
  unfolding parse_share
  parse_share-hex s payload k =
      let (d, e, back) = deserialize-serialize s k.wire k.share k.limit [] in
      let same : d ≡ payload = ok-injective (sym e ∙ k.serialized) in
      let read : deserialize payload ≡ ok (on_wire s) =
        subst (λ x. deserialize x ≡ ok (on_wire s)) (append_nil d ∙ same) back in
      rw
        (
          parse_share,
          from_hex-hex payload k.bytes,
          read,
          on_wire-share_id sha256 s payload k.serialized,
        )
        refl

  on_proof-accepted :
      (peer : ℕ) (sid proof_b64 : Str) (s : ShareBlock) (r : AddResult) (c : Sharechain) (n : Node)
      → lookup sid n.pending ≡ some s
      → verify n.sharechain s proof_b64 ≡ true
      → add_proved sha256 verify now s proof_b64 n.sharechain ≡ ok (r, c)
      → r.accepted ≡ true
      → on_proof sha256 verify now peer sid proof_b64 n
        ≡ relay sha256 verify now peer s sid proof_b64
            (record n { pending = erase sid n.pending; sharechain = c })
  unfolding on_proof on_claimed
  on_proof-accepted peer sid proof_b64 s r c n waits good added accepted =
      rw (on_proof, waits, on_claimed, good, added, accepted) refl

  -- What the receiving node has in the end.
  pub record IsDelivered (s : ShareBlock) (sid : Bytes) (proof_b64 : Str) (payload : Bytes)
      (before after : Node) : Type 0 where
    pub result : AddResult
    pub added :
        add_share sha256 before.sharechain s true (some payload) now ≡ ok (result, after.sharechain)
    pub accepted : result.accepted ≡ true
    pub served : lookup (hex sid) after.proofs ≡ some proof_b64

  add_proved-accepted :
      (s : ShareBlock) (sid : Bytes) (proof_b64 : Str) (payload : Bytes) (c : Sharechain)
      → IsValid sha256 c
      → share_id sha256 s ≡ ok sid
      → IsSuccessor c s sid now
      → ascii proof_b64 ≡ ok payload
      → (r : AddResult) × (c' : Sharechain) × (add_share sha256 c s true (some payload) now
          ≡ ok (r, c'))
        × (add_proved sha256 verify now s proof_b64 c ≡ ok (r, c'))
        × (r.accepted ≡ true)
  add_proved-accepted s sid proof_b64 payload c v id succ plain =
      let (r, c', e, _, _, accepts, _, _, _) =
        add_share_lem sha256 c s true (some payload) now sid v id in
      (r, c', e, rw plain e, accepts.1 (refl, succ))

  broadcast_share-sends :
      (s : ShareBlock) (wire : Bytes) (proof_b64 : Str) (a : Node)
      → serialize s ≡ ok wire
      → broadcast_share sha256 verify now s proof_b64 a ≡ (
        store_proof (hex (double_sha256 sha256 wire)) proof_b64 a,
        broadcast (Msg.share (hex wire)) none a.connected,
      )
  unfolding broadcast_share announce store_proof share_id
  broadcast_share-sends s wire proof_b64 a h =
      let id : share_id sha256 s ≡ ok (double_sha256 sha256 wire) =
        ap (λ (r : Result Bytes). r >>= λ bs. ok (double_sha256 sha256 bs)) h in
      rw (broadcast_share, id, announce, h) refl

  on_getproof-stored :
      (peer : ℕ) (sid proof_b64 : Str) (n : Node)
      → lookup sid n.proofs ≡ some proof_b64
      → on_getproof sha256 verify now peer sid n ≡ (n, send peer (Msg.proof sid proof_b64) ∷ [])
  unfolding on_getproof
  on_getproof-stored peer sid proof_b64 n h = rw (on_getproof, h) refl

  relay-IsDelivered :
      (s : ShareBlock) (sid : Bytes) (proof_b64 : Str) (payload : Bytes) (peer : ℕ) (r : AddResult)
      (c : Sharechain) (before : Node) (waiting : Dict Str ShareBlock)
      → IsDict before.proofs
      → add_share sha256 before.sharechain s true (some payload) now ≡ ok (r, c)
      → r.accepted ≡ true
      → IsDelivered s sid proof_b64 payload before
          (relay sha256 verify now peer s
            (hex sid)
            proof_b64
            (record before { pending = waiting; sharechain = c })).0
  unfolding relay store_proof
  relay-IsDelivered s sid proof_b64 payload peer r c before waiting u added accepted = record {
    result = r;
    added = added;
    accepted = accepted;
    served = (store_proof_lem (hex sid) proof_b64 before u).0;
  }

  -- A share reaches a peer. Let `a` broadcast a share and its proof, and let `b` have a valid
  -- sharechain of which the share is a valid successor, not be waiting for its proof, and find the
  -- proof good. Then `a` announces the share to its peers, `b` asks for the proof on the
  -- announcement, `a` answers with the proof, and on the answer `b` accepts the share and has the
  -- proof stored, to serve it in turn.
  pub broadcast_share-IsDelivered :
      (s : ShareBlock) (wire proof_payload : Bytes) (proof_b64 : Str) (peer_a peer_b : ℕ)
      (a b : Node)
      → IsSendable s wire
      → IsDict a.proofs
      → IsDict b.proofs
      → IsValid sha256 b.sharechain
      → let sid = double_sha256 sha256 wire in
        lookup (hex sid) b.pending ≡ none
        → IsSuccessor b.sharechain (on_wire s) sid now
        → verify b.sharechain (on_wire s) proof_b64 ≡ true
        → ascii proof_b64 ≡ ok proof_payload
        → let (a', sent) = broadcast_share sha256 verify now s proof_b64 a in
          let (b', asked) = on_share sha256 verify now peer_a (hex wire) b in
          let answered = (on_getproof sha256 verify now peer_b (hex sid) a').1 in
          let b'' = (on_proof sha256 verify now peer_a (hex sid) proof_b64 b').0 in
          (sent ≡ broadcast (Msg.share (hex wire)) none a.connected)
          × (asked ≡ send peer_a (Msg.getproof (hex sid)) ∷ [])
          × (answered ≡ send peer_b (Msg.proof (hex sid) proof_b64) ∷ [])
          × IsDelivered (on_wire s) sid proof_b64 proof_payload b b''
  broadcast_share-IsDelivered s wire proof_payload proof_b64 peer_a peer_b a b k ua ub v free succ
        good plain =
      let sid = double_sha256 sha256 wire in
      let id = on_wire-share_id sha256 s wire k.serialized in
      let held : Node = record b { pending = insert (hex sid) (on_wire s) b.pending } in
      let (stored, _, _) = store_proof_lem (hex sid) proof_b64 a ua in
      let (r, c', added, proved, accepted) =
        add_proved-accepted (on_wire s) sid proof_b64 proof_payload b.sharechain v id succ plain in
      let asks : on_share sha256 verify now peer_a (hex wire) b
          ≡ (held, send peer_a (Msg.getproof (hex sid)) ∷ []) =
        (on_share_iff sha256 verify now peer_a (hex wire) (on_wire s) sid b id
            (parse_share-hex s wire k)).1
          (free, succ) in
      let adds =
        on_proof-accepted peer_a (hex sid) proof_b64 (on_wire s) r c' held
          (lookup-insert_self (hex sid) (on_wire s) b.pending) good proved accepted in
      rw
        (
          broadcast_share-sends s wire proof_b64 a k.serialized,
          on_getproof-stored peer_b (hex sid) proof_b64 (store_proof (hex sid) proof_b64 a) stored,
          asks,
          adds,
        )
        (
          refl,
          refl,
          refl,
          relay-IsDelivered (on_wire s) sid proof_b64 proof_payload peer_a r c' b
              (erase (hex sid) held.pending) ub added accepted,
        )
