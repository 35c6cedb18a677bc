-- ===== src/P2p/Handlers.antt =====
-- The message handlers of `P2PNode`, and `_dispatch`. A handler that raises keeps what it did until
-- then, since `_dispatch` catches the exception. `hashlib.sha256` and the injected proof check, which
-- reads the sharechain, are parameters; `now` is the clock when the handler runs. A send never fails.
use p2pearl.Prelude.{
  ℕ, ◌+◌, ◌-◌, Bool, true, false, ◌&&◌, ◌||◌, not, ltb, leb, ◌==◌, if◌then◌else◌, Option, none,
  some, List, [], ◌∷◌, ◌++◌, length, take, ℤ, pos, negsuc,
}
use p2pearl.Prelude.Result.{Result, ok, raise, ◌>>=◌}
use p2pearl.Prelude.Keys.{Bytes, Str, bytes_eq, bytes_key}
use p2pearl.Prelude.Dict.{lookup, contains, insert, erase}
use p2pearl.Prelude.Codec.{ascii}
use p2pearl.Prelude.Hex.{hex, from_hex}
use p2pearl.Consensus.Share.{ShareBlock, serialize, deserialize, share_id}
use p2pearl.Consensus.Sharechain.{Sharechain, tip, height, is_genesis_prev}
use p2pearl.Consensus.Sharechain.Validate.{is_valid_successor}
use p2pearl.Consensus.Sharechain.Add.{AddResult, add_share}
use p2pearl.P2p.{
  Addr, Msg, Effect, send, new_share, found_block, block_candidate, Node, Reply, sync_limit,
  sync_batch, max_block_hex, store_proof, seen_block, window_shares, broadcast,
}
use p2pearl.P2p.Rate.{Kind, Peer, Gate, handle, ignore, drop_peer, gate}

-- `_send_hello`
unfoldable pub send_hello : ℕ → Node → List Effect
send_hello peer n =
    let tip_hex : Str = elim n.sharechain.best_tip [ none ↦ [] | some id ↦ hex id ] in
    send peer (Msg.hello (some n.port) tip_hex (height n.sharechain)) ∷ []

-- `self._known_addrs.add(addr)`
abbrev pub same_addr : Addr → Addr → Bool
same_addr (h, p) (i, q) = bytes_eq h i && (p == q)

unfoldable pub add_addr : Addr → List Addr → List Addr
add_addr a [] = a ∷ []
add_addr a (b ∷ bs) = elim (same_addr a b) [ true ↦ b ∷ bs | false ↦ b ∷ add_addr a bs ]

-- One more than the height of the chain, which is -1 where there is no share.
abbrev pub next_height : Sharechain → ℕ
next_height c = elim (tip c) [ none ↦ 0 | some t ↦ t.sidechain_height + 1 ]

-- `height > self.sharechain.height()`
abbrev pub is_ahead : ℤ → Sharechain → Bool
is_ahead (pos h) c = leb (next_height c) h
is_ahead (negsuc _) c = false

-- `_h_hello`
unfoldable pub on_hello : Peer → Option ℕ → ℤ → Node → Node × Peer × List Effect
on_hello p port their_height n =
    let (n', p') : Node × Peer = elim port [
      | none ↦ (n, p)
      | some q ↦ (
        record n { known_addrs = add_addr (p.host, q) n.known_addrs },
        record p { listen_addr = some (p.host, q) },
      )
    ] in
    let asked : List Effect =
      if is_ahead their_height n.sharechain
      then send p.peer_id (Msg.getshares (pos (next_height n.sharechain))) ∷ []
      else [] in
    (n', p', send p.peer_id (Msg.peers (take 32 n'.known_addrs)) ∷ asked)

-- `_h_peers`
unfoldable pub on_peers : List Addr → Node → Node
on_peers [] n = n
on_peers (a ∷ addrs) n = on_peers addrs (record n { known_addrs = add_addr a n.known_addrs })

-- A parent that is not stored.
abbrev pub is_orphan : Sharechain → ShareBlock → Bool
is_orphan c s = not (is_genesis_prev s.prev_share_id) && not (contains s.prev_share_id c.entries)

module _ (sha256 : Bytes → Bytes) (verify : Sharechain → ShareBlock → Str → Bool) (now : ℕ) where
  -- `ShareBlock.deserialize(bytes.fromhex(text))` and its id, or none where the source returns.
  unfoldable pub parse_share : Str → Option (ShareBlock × Bytes)
  parse_share text = elim (from_hex text) [
    | none ↦ none
    | some payload ↦ elim (deserialize payload) [
      | raise e ↦ none
      | ok s ↦ elim (share_id sha256 s) [ raise e ↦ none | ok sid ↦ some (s, sid) ]
    ]
  ]

  -- `_announce`; the share cannot be serialized where it raises, and nothing is sent.
  unfoldable pub announce : ShareBlock → Option ℕ → Node → List Effect
  announce s exclude n = elim (serialize s) [
    | raise e ↦ []
    | ok payload ↦ broadcast (Msg.share (hex payload)) exclude n.connected
  ]

  -- `_h_share`, once the share is parsed
  unfoldable pub on_parsed : ℕ → ShareBlock → Bytes → Node → Reply
  on_parsed peer s sid n =
      if contains sid n.sharechain.entries || contains (hex sid) n.pending
      then (n, [])
      else if is_orphan n.sharechain s
      then (n, send peer (Msg.getshares (pos (s.sidechain_height - 1))) ∷ [])
      else elim (is_valid_successor sha256 n.sharechain s now) [
        | raise e ↦ (n, [])
        | ok valid ↦
            if valid
            then (
              record n { pending = insert (hex sid) s n.pending },
              send peer (Msg.getproof (hex sid)) ∷ [],
            )
            else (n, [])
      ]

  -- `_h_share`
  unfoldable pub on_share : ℕ → Str → Node → Reply
  unfolding on_parsed
  on_share peer text n = elim (parse_share text) [
    | none ↦ (n, [])
    | some (s, sid) ↦ on_parsed peer s sid n
  ]

  -- `_h_getproof`
  unfoldable pub on_getproof : ℕ → Str → Node → Reply
  on_getproof peer sid n = elim (lookup sid n.proofs) [
    | none ↦ (n, [])
    | some proof_b64 ↦ (n, send peer (Msg.proof sid proof_b64) ∷ [])
  ]

  -- `self.sharechain.add_share(share, verified=True, proof=proof_b64.encode("ascii"))`
  abbrev pub add_proved : ShareBlock → Str → Sharechain → Result (AddResult × Sharechain)
  add_proved s proof_b64 c = do
    payload ← ascii proof_b64
    add_share sha256 c s true (some payload) now

  -- What `_h_proof` does after the share was added.
  unfoldable pub relay : ℕ → ShareBlock → Str → Str → Node → Reply
  relay peer s sid proof_b64 n =
      let told : List Effect = if n.has_on_new_share then new_share s ∷ [] else [] in
      let raced : List Effect =
        if n.has_on_block_candidate then block_candidate s proof_b64 ∷ [] else [] in
      (store_proof sid proof_b64 n, told ++ announce s (some peer) n ++ raced)

  -- `_h_proof` for a share that was pending, which `n` has dropped already
  unfoldable pub on_claimed : ℕ → ShareBlock → Str → Str → Node → Reply
  unfolding relay
  on_claimed peer s sid proof_b64 n =
      if not (verify n.sharechain s proof_b64)
      then (n, [])
      else elim (add_proved s proof_b64 n.sharechain) [
        | raise e ↦ (n, [])
        | ok (r, c) ↦
            if r.accepted
            then relay peer s sid proof_b64 (record n { sharechain = c })
            else (record n { sharechain = c }, [])
      ]

  -- `_h_proof`
  unfoldable pub on_proof : ℕ → Str → Str → Node → Reply
  unfolding on_claimed
  on_proof peer sid proof_b64 n = elim (lookup sid n.pending) [
    | none ↦ (n, [])
    | some s ↦ on_claimed peer s sid proof_b64 (record n { pending = erase sid n.pending })
  ]

  -- The loop of `_h_getshares`, with the batch so far. It ends where a share cannot be serialized.
  unfoldable pub batches : ℕ → Node → List (Str × Str) → List ShareBlock → List Effect
  batches peer n [] [] = []
  batches peer n (b ∷ bs) [] = send peer (Msg.shares (b ∷ bs)) ∷ []
  batches peer n batch (s ∷ ss) = elim (serialize s) [
    | raise e ↦ []
    | ok payload ↦ elim (lookup (hex (sha256 (sha256 payload))) n.proofs) [
      | none ↦ batches peer n batch ss
      | some proof_b64 ↦
          let full = batch ++ (hex payload, proof_b64) ∷ [] in
          elim (leb sync_batch (length full)) [
            | true ↦ send peer (Msg.shares full) ∷ batches peer n [] ss
            | false ↦ batches peer n full ss
          ]
    ]
  ]

  -- `_h_getshares`
  unfoldable pub on_getshares : ℕ → ℤ → Node → Reply
  unfolding batches
  on_getshares peer from_height n = (n, batches peer n [] (window_shares n.sharechain from_height))

  -- The end of one round of `_h_shares`, for a share whose proof was verified.
  unfoldable pub sync_proved : ShareBlock → Bytes → Str → Node → Result Node
  sync_proved s sid proof_b64 n = do
    (r, c) ← add_proved s proof_b64 n.sharechain
    let n' = record n { sharechain = c }
    ok (if r.accepted then store_proof (hex sid) proof_b64 n' else n')

  -- One share of `_h_shares`, once it is parsed; a raise ends the loop.
  unfoldable pub sync_parsed : ShareBlock → Bytes → Str → Node → Result Node
  unfolding sync_proved
  sync_parsed s sid proof_b64 n =
      if contains sid n.sharechain.entries || is_orphan n.sharechain s then ok n else (do
        valid ← is_valid_successor sha256 n.sharechain s now
        if valid && verify n.sharechain s proof_b64 then sync_proved s sid proof_b64 n else ok n)

  -- The loop of `_h_shares`.
  unfoldable pub sync_shares : List (Str × Str) → Node → Node
  unfolding sync_parsed
  sync_shares [] n = n
  sync_shares ((text, proof_b64) ∷ pairs) n = elim (parse_share text) [
    | none ↦ sync_shares pairs n
    | some (s, sid) ↦ elim (sync_parsed s sid proof_b64 n) [
      | raise e ↦ n
      | ok n' ↦ sync_shares pairs n'
    ]
  ]

  -- `_h_shares`
  unfoldable pub on_shares : List (Str × Str) → Node → Reply
  on_shares pairs n = (sync_shares (take sync_limit pairs) n, [])

  -- `_h_block`
  unfoldable pub on_block : ℕ → Str → Node → Reply
  on_block peer block_hex n =
      if not (ltb 0 (length block_hex) && leb (length block_hex) max_block_hex)
      then (n, [])
      else (let (repeated, n') = seen_block sha256 block_hex n in
          let told : List Effect = if n'.has_on_block then found_block block_hex ∷ [] else [] in
          if repeated
          then (n', [])
          else (n', told ++ broadcast (Msg.block block_hex) (some peer) n'.connected))

  -- `broadcast_share` and `broadcast_block`
  unfoldable pub broadcast_share : ShareBlock → Str → Node → Reply
  broadcast_share s proof_b64 n = elim (share_id sha256 s) [
    | raise e ↦ (n, [])
    | ok sid ↦ let n' = store_proof (hex sid) proof_b64 n in (n', announce s none n')
  ]

  unfoldable pub broadcast_block : Str → Node → Reply
  broadcast_block block_hex n =
      let n' = (seen_block sha256 block_hex n).1 in
      (n', broadcast (Msg.block block_hex) none n'.connected)

  abbrev pub kept : Peer → Reply → Node × Peer × List Effect
  kept p (n, es) = (n, p, es)

  -- The handler of a message.
  unfoldable pub handle_msg : Peer → Msg → Node → Node × Peer × List Effect
  handle_msg p (Msg.hello port tip_hex their_height) n = on_hello p port their_height n
  handle_msg p (Msg.peers addrs) n = (on_peers addrs n, p, [])
  handle_msg p (Msg.share text) n = kept p (on_share p.peer_id text n)
  handle_msg p (Msg.getproof sid) n = kept p (on_getproof p.peer_id sid n)
  handle_msg p (Msg.proof sid proof_b64) n = kept p (on_proof p.peer_id sid proof_b64 n)
  handle_msg p (Msg.getshares from_height) n = kept p (on_getshares p.peer_id from_height n)
  handle_msg p (Msg.shares pairs) n = kept p (on_shares pairs n)
  handle_msg p (Msg.block block_hex) n = kept p (on_block p.peer_id block_hex n)

  -- `kind in RATE_LIMITS`
  abbrev pub limited : Msg → Option Kind
  limited (Msg.hello _ _ _) = some Kind.hello
  limited (Msg.peers _) = none
  limited (Msg.share _) = none
  limited (Msg.getproof _) = some Kind.getproof
  limited (Msg.proof _ _) = none
  limited (Msg.getshares _) = some Kind.getshares
  limited (Msg.shares _) = none
  limited (Msg.block _) = some Kind.block

  abbrev pub go_on : Node × Peer × List Effect → Bool × Node × Peer × List Effect
  go_on (n, p, es) = (true, n, p, es)

  abbrev pub gated : Msg → Node → Gate × Peer → Bool × Node × Peer × List Effect
  gated m n (handle, p) = go_on (handle_msg p m n)
  gated m n (ignore, p) = (true, n, p, [])
  gated m n (drop_peer, p) = (false, n, p, [])

  -- `_dispatch`, at the monotonic time `clock`: whether the peer is kept, and what came of it.
  unfoldable pub dispatch : ℕ → Peer → Msg → Node → Bool × Node × Peer × List Effect
  unfolding handle_msg
  dispatch clock p m n = elim (limited m) [
    | none ↦ go_on (handle_msg p m n)
    | some kind ↦ gated m n (gate kind clock p)
  ]

-- What happens to a node: a message from a peer, or a broadcast that the daemon asks for.
pub data Event : Type 0 where
  message : ℕ → ℕ → Peer → Msg → Event
  own_share : ShareBlock → Str → Event
  own_block : Str → Event

module _ (sha256 : Bytes → Bytes) (verify : Sharechain → ShareBlock → Str → Bool) where
  -- The node after an event.
  unfoldable pub step : Event → Node → Node
  step (message now clock p m) n = (dispatch sha256 verify now clock p m n).1
  step (own_share s proof_b64) n = (broadcast_share sha256 verify 0 s proof_b64 n).0
  step (own_block block_hex) n = (broadcast_block sha256 verify 0 block_hex n).0

  -- The node after some events, oldest first.
  unfoldable pub run : List Event → Node → Node
  unfolding step
  run [] n = n
  run (e ∷ es) n = run es (step e n)
