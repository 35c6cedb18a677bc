-- ===== src/P2p/Network.antt =====
-- The connections of p2pearl/p2p/node.py: `_register`, the read loop `_run_peer`, and what `connect` and
-- `_on_inbound` do with a new peer. The events come in any order. JSON is decoded outside, and a send
-- never fails.
use p2pearl.Prelude.{
  ℕ, ◌+◌, ◌^◌, ◌==◌, Bool, ltb, leb, ◌&&◌, ◌||◌, if◌then◌else◌, Option, none, some, List, [], ◌∷◌,
  ◌++◌, length, all,
}
use p2pearl.Prelude.Keys.{Bytes, Str}
use p2pearl.Consensus.Share.{ShareBlock}
use p2pearl.Consensus.Sharechain.{Sharechain}
use p2pearl.P2p.{Node, Msg, Effect}
use p2pearl.P2p.Rate.{Peer, Buckets}
use p2pearl.P2p.Handlers.{send_hello, dispatch, broadcast_share, broadcast_block}

abbrev pub max_msgs_per_conn : ℕ
max_msgs_per_conn = 200_000

-- `READ_LIMIT`
abbrev pub line_limit : ℕ
line_limit = 2 ^ 22

-- A peer with the count of `_run_peer`.
pub record Link : Type 0 where
  pub peer : Peer
  pub count : ℕ

-- The node's `connected` has the numbers of the links.
pub record PeerNetwork : Type 0 where
  pub node : Node
  pub links : List Link
  pub peer_seq : ℕ

-- A line as JSON: none at all, a message of no known kind, or one with a handler.
pub data Loaded : Type 0 where
  not_json : Loaded
  other_kind : Loaded
  known : Msg → Loaded

abbrev pub no_buckets : Buckets
no_buckets = record { getshares = none; getproof = none; block = none; hello = none }

-- `_Peer.__init__`, with the host of the connection
abbrev pub new_link : Str → ℕ → Link
new_link host id = record {
  peer = record {
    peer_id = id;
    host = host;
    listen_addr = none;
    buckets = no_buckets;
    strikes = 0;
  };
  count = 0;
}

unfoldable pub find_link : ℕ → List Link → Option Link
find_link id [] = none
find_link id (l ∷ ls) = if l.peer.peer_id == id then some l else find_link id ls

unfoldable pub put_link : ℕ → Link → List Link → List Link
put_link id k [] = []
put_link id k (l ∷ ls) = if l.peer.peer_id == id then k ∷ ls else l ∷ put_link id k ls

-- `_peers.discard`, in the links and in the numbers
unfoldable pub discard_link : ℕ → List Link → List Link
discard_link id [] = []
discard_link id (l ∷ ls) = if l.peer.peer_id == id then ls else l ∷ discard_link id ls

unfoldable pub discard_id : ℕ → List ℕ → List ℕ
discard_id id [] = []
discard_id id (i ∷ is) = if i == id then is else i ∷ discard_id id is

-- `not line.strip()`, on bytes
abbrev pub is_white : ℕ → Bool
is_white c = (c == 32) || (leb 9 c && leb c 13)

-- `readline` raises where the newline stands beyond the limit.
abbrev pub too_long : Str → Bool
too_long line = ltb (line_limit + 1) (length line)

pub data NetworkEvent : Type 0 where
  opened : Str → NetworkEvent
  read : ℕ → Str → ℕ → ℕ → NetworkEvent
  closed : ℕ → NetworkEvent
  shared : ShareBlock → Str → NetworkEvent
  found : Str → NetworkEvent

-- `_register`, and the hello
unfoldable pub register : Str → PeerNetwork → PeerNetwork × List Effect
register host w =
    let id = w.peer_seq + 1 in
    let node : Node = record w.node { connected = w.node.connected ++ (id ∷ []) } in
    (
      record { node = node; links = w.links ++ (new_link host id ∷ []); peer_seq = id },
      send_hello id node,
    )

-- The end of `_run_peer`
unfoldable pub drop_link : ℕ → PeerNetwork → PeerNetwork
drop_link id w = record w {
  node = record w.node { connected = discard_id id w.node.connected };
  links = discard_link id w.links;
}

module _ (sha256 : Bytes → Bytes) (verify : Sharechain → ShareBlock → Str → Bool)
    (loads : Str → Loaded) where
  -- `_dispatch` in the loop: a peer that is not kept is dropped.
  unfoldable pub dispatch_link : ℕ → ℕ → Link → Loaded → PeerNetwork → PeerNetwork × List Effect
  dispatch_link now clock l not_json w =
      (record w { links = put_link l.peer.peer_id l w.links }, [])
  dispatch_link now clock l other_kind w =
      (record w { links = put_link l.peer.peer_id l w.links }, [])
  dispatch_link now clock l (known m) w =
      let (stays, node, peer, effects) = dispatch sha256 verify now clock l.peer m w.node in
      let k : Link = record { peer = peer; count = l.count } in
      let id = l.peer.peer_id in
      let after : PeerNetwork = record w { node = node } in
      (
        if stays then record after { links = put_link id k w.links } else drop_link id after,
        effects,
      )

  -- One round of `_run_peer`
  unfoldable pub run_peer : ℕ → Str → ℕ → ℕ → PeerNetwork → PeerNetwork × List Effect
  run_peer id line now clock w = elim (find_link id w.links) [
    | none ↦ (w, [])
    | some l ↦
        if too_long line
        then (drop_link id w, [])
        else if all is_white line
        then (w, [])
        else if ltb max_msgs_per_conn (l.count + 1)
        then (drop_link id w, [])
        else dispatch_link now clock (record l { count = l.count + 1 }) (loads line) w
  ]

  unfoldable pub on_network : NetworkEvent → PeerNetwork → PeerNetwork × List Effect
  on_network (opened host) w = register host w
  on_network (read id line now clock) w = run_peer id line now clock w
  on_network (closed id) w = (drop_link id w, [])
  on_network (shared s proof_b64) w =
      let (node, effects) = broadcast_share sha256 verify 0 s proof_b64 w.node in
      (record w { node = node }, effects)
  on_network (found block_hex) w =
      let (node, effects) = broadcast_block sha256 verify 0 block_hex w.node in
      (record w { node = node }, effects)

  -- The network after a history of events.
  unfoldable pub network_after : List NetworkEvent → PeerNetwork → PeerNetwork
  network_after [] w = w
  network_after (e ∷ es) w = network_after es (on_network e w).0
