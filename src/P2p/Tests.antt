-- ===== src/P2p/Tests.antt =====
-- Runs of the gossip layer on small inputs, and its theorems at concrete ones.
use p2pearl.Samples.{
  genesis, checksum, chain, started, genesis_wire, genesis-serialize, genesis-IsWire,
  genesis-IsShare, chain-IsValid, all-All,
}
use p2pearl.Prelude.{
  ℕ, ◌+◌, ◌*◌, ◌≤◌, ◌≡◌, ◌↔◌, ◌==◌, if◌then◌else◌, refl, Bool, true, false, inl, none, List, [],
  ◌∷◌, length, All, pos, arith,
}
use p2pearl.Prelude.Result.{ok}
use p2pearl.Prelude.Keys.{Bytes, Str, bytes_key, bytes_eq}
use p2pearl.Prelude.Dict.{lookup, insert}
use p2pearl.Prelude.Codec.{ascii}
use p2pearl.Prelude.Hex.{hex}
use p2pearl.Consensus.Share.{ShareBlock, double_sha256}
use p2pearl.Consensus.Sharechain.{Sharechain, new_sharechain}
use p2pearl.Consensus.Sharechain.Validate.{validate}
use p2pearl.Consensus.Sharechain.Successor.{IsSuccessor, validate_iff}
use p2pearl.Consensus.Sharechain.Insertion.{best_work}
use p2pearl.P2p.{
  Msg, Effect, send, Node, Reply, sync_limit, window_shares, broadcast, max_stored_proofs,
}
use p2pearl.P2p.Rate.{Kind, limit_of, Peer, Buckets, served, outlasts}
use p2pearl.P2p.Handlers.{
  on_share, on_getproof, on_proof, on_block, on_getshares, broadcast_share, Event, message,
  own_block, run,
}
use p2pearl.P2p.Throttle.{IsWithin, served_bound}
use p2pearl.P2p.Flood.{flood_bound}
use p2pearl.P2p.Caches.{IsBounded}
use p2pearl.P2p.Windows.{servable, sent_pairs, IsBatch, AllSerialize, on_getshares-IsBatch}
use p2pearl.P2p.Walk.{WindowOf}
use p2pearl.P2p.Growth.{IsSound, run-IsSound, run-IsBounded}
use p2pearl.P2p.Network.{
  PeerNetwork, Loaded, known, not_json, NetworkEvent, opened, read, closed, network_after,
}
use p2pearl.P2p.Connections.{IsNetwork, network_after-IsNetwork}
use p2pearl.P2p.Relay.{on_share_iff, on_block-once}
use p2pearl.P2p.Delivery.{
  on_wire-share_id, IsSendable, parse_share-hex, IsDelivered, broadcast_share-IsDelivered,
}

-- A node with peers 1 and 2 that has seen nothing else.
abbrev node : Sharechain → Node
node c = record {
  sharechain = c;
  port = 37900;
  has_on_new_share = true;
  has_on_block = true;
  has_on_block_candidate = true;
  connected = 1 ∷ 2 ∷ [];
  known_addrs = [];
  proofs = [];
  pending = [];
  blocks_seen = [];
}

abbrev peer : Peer
peer = record {
  peer_id = 1;
  host = 49 ∷ [];
  listen_addr = none;
  buckets = record { getshares = none; getproof = none; block = none; hello = none };
  strikes = 0;
}

-- A check that takes every proof but the empty one.
abbrev nonempty : Sharechain → ShareBlock → Str → Bool
nonempty c s [] = false
nonempty c s (x ∷ xs) = true

abbrev proof : Str
proof = 65 ∷ 65 ∷ []

abbrev genesis_sid : Bytes
genesis_sid = double_sha256 checksum genesis_wire

-- The block goes to peer 2, and not back to peer 1.
block_run :
    (on_block checksum nonempty 0 1 (97 ∷ 98 ∷ []) (node chain)).1
    ≡ Effect.found_block (97 ∷ 98 ∷ []) ∷ send 2 (Msg.block (97 ∷ 98 ∷ [])) ∷ []
unfolding on_block p2pearl.P2p.seen_block lookup broadcast
block_run = refl

on_block-once_example :
    (on_block checksum nonempty 5 2
      (97 ∷ [])
      (on_block checksum nonempty 4 1 (97 ∷ []) (node chain)).0).1
    ≡ []
on_block-once_example = on_block-once checksum nonempty 4 5 1 2 (97 ∷ []) (node chain) tt

abbrev times : List ℕ
times = 7 ∷ 7 ∷ 9 ∷ []

times-IsWithin : All (IsWithin 5) times
times-IsWithin =
    ((omega arith, omega arith), ((omega arith, omega arith), ((omega arith, omega arith), tt)))

served_bound_example : served Kind.getshares times peer ≤ 2 * 30
served_bound_example = served_bound Kind.getshares 5 times peer times-IsWithin

three_hellos : outlasts Kind.hello times peer ≡ true
unfolding outlasts p2pearl.P2p.Rate.gate p2pearl.P2p.Rate.allow
three_hellos = refl

flood_bound_example : length times ≤ 2 * 10 + 8
flood_bound_example = flood_bound Kind.hello 5 times peer times-IsWithin three_hellos

abbrev events : List Event
events =
    message 1_000 5 peer (Msg.share (hex genesis_wire))
    ∷ message 1_000 6 peer (Msg.proof (hex genesis_sid) proof)
    ∷ own_block (97 ∷ [])
    ∷ []

node-IsSound : IsSound checksum nonempty (best_work chain) chain
unfolding new_sharechain lookup
node-IsSound = record { valid = chain-IsValid; work = omega arith; proved = λ k e h. cc }

run-IsSound_example :
    IsSound checksum nonempty
      (best_work chain)
      (run checksum nonempty events (node chain)).sharechain
run-IsSound_example = run-IsSound checksum nonempty events (node chain) node-IsSound

-- A network without peers, and lines that load as the messages above.
abbrev alone : PeerNetwork
alone = record { node = record (node chain) { connected = [] }; links = []; peer_seq = 0 }

abbrev loads : Str → Loaded
loads [] = not_json
loads (c ∷ rest) =
    if c == 115
    then known (Msg.share (hex genesis_wire))
    else if c == 112
    then known (Msg.proof (hex genesis_sid) proof)
    else not_json

abbrev network_events : List NetworkEvent
network_events =
    opened (49 ∷ [])
    ∷ read 1 (115 ∷ 10 ∷ []) 1_000 5
    ∷ read 1 (112 ∷ 10 ∷ []) 1_000 6
    ∷ opened (50 ∷ [])
    ∷ read 2 (10 ∷ []) 1_000 7
    ∷ closed 1
    ∷ []

network_after-IsNetwork_example :
    IsNetwork checksum nonempty
      (best_work chain)
      (network_after checksum nonempty loads network_events alone)
network_after-IsNetwork_example =
    network_after-IsNetwork checksum nonempty (best_work chain) loads network_events alone
      (record { sound = node-IsSound; links = tt })

node-IsBounded : IsBounded (node chain)
node-IsBounded = record {
  proofs_unique = tt;
  proofs_length = omega arith;
  blocks_unique = tt;
  blocks_length = omega arith;
}

run-IsBounded_example : IsBounded (run checksum nonempty events (node chain))
run-IsBounded_example = run-IsBounded checksum nonempty events (node chain) node-IsBounded

genesis-IsSendable : IsSendable genesis genesis_wire
genesis-IsSendable = record {
  wire = genesis-IsWire;
  share = genesis-IsShare;
  limit = inl (omega arith);
  serialized = genesis-serialize;
  bytes = all-All genesis_wire refl;
}

genesis_valid : validate chain genesis genesis_sid 1_000 ≡ none
unfolding validate lookup new_sharechain p2pearl.Consensus.Subsidy.block_subsidy
    p2pearl.Consensus.Sharechain.Validate.distinct p2pearl.Consensus.Sharechain.member bytes_eq
    p2pearl.Consensus.Sharechain.Validate.check_genesis
genesis_valid = refl

genesis-IsSuccessor : IsSuccessor chain genesis genesis_sid 1_000
genesis-IsSuccessor = (validate_iff chain genesis genesis_sid 1_000).0 genesis_valid

on_share_iff_example :
    (on_share checksum nonempty 1_000 1 (hex genesis_wire) (node chain) ≡ (
      record (node chain) { pending = insert (hex genesis_sid) genesis [] },
      send 1 (Msg.getproof (hex genesis_sid)) ∷ [],
    ))
    ↔ ((lookup (hex genesis_sid) (node chain).pending ≡ none)
        × IsSuccessor chain genesis genesis_sid 1_000)
on_share_iff_example =
    on_share_iff checksum nonempty 1_000 1 (hex genesis_wire) genesis genesis_sid (node chain)
      (on_wire-share_id checksum genesis genesis_wire genesis-serialize)
      (parse_share-hex checksum nonempty 1_000 genesis genesis_wire genesis-IsSendable)

proof_ascii : ascii proof ≡ ok proof
unfolding ascii
proof_ascii = refl

nothing_pending : lookup (hex genesis_sid) (node chain).pending ≡ none
unfolding lookup
nothing_pending = refl

broadcast_share-IsDelivered_example :
    let (a', sent) = broadcast_share checksum nonempty 1_000 genesis proof (node chain) in
    let (b', asked) = on_share checksum nonempty 1_000 1 (hex genesis_wire) (node chain) in
    let answered = (on_getproof checksum nonempty 1_000 2 (hex genesis_sid) a').1 in
    let b'' = (on_proof checksum nonempty 1_000 1 (hex genesis_sid) proof b').0 in
    (sent ≡ broadcast (Msg.share (hex genesis_wire)) none (1 ∷ 2 ∷ []))
    × (asked ≡ send 1 (Msg.getproof (hex genesis_sid)) ∷ [])
    × (answered ≡ send 2 (Msg.proof (hex genesis_sid) proof) ∷ [])
    × IsDelivered checksum nonempty 1_000 genesis genesis_sid proof proof (node chain) b''
broadcast_share-IsDelivered_example =
    broadcast_share-IsDelivered checksum nonempty 1_000 genesis genesis_wire proof proof 1 2
      (node chain) (node chain) genesis-IsSendable tt tt chain-IsValid nothing_pending
      genesis-IsSuccessor refl proof_ascii

window-AllSerialize : AllSerialize (window_shares started (pos 0))
unfolding window_shares p2pearl.P2p.window_back bytes_eq lookup
window-AllSerialize = ((genesis_wire, genesis-serialize), tt)

on_getshares-IsBatch_example :
    let window = window_shares started (pos 0) in
    let sent = (on_getshares checksum nonempty 1_000 1 (pos 0) (node started)).1 in
    All (IsBatch 1) sent
    × (sent_pairs sent ≡ servable checksum (node started) window)
    × (length window ≤ sync_limit)
    × WindowOf started (pos 0) window
on_getshares-IsBatch_example =
    on_getshares-IsBatch checksum nonempty 1_000 1 (pos 0) (node started) window-AllSerialize
