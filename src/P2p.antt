-- ===== src/P2p.antt =====
-- The gossip layer of p2pearl/p2p/node.py: its messages, what a node keeps, and its bounded caches.
-- A message is what `json.loads` made of a line whose fields have the documented types; ids and
-- payloads are strings. A node's sends and its calls of the injected hooks are effects, in order.
mod Tests
pub mod Rate
pub mod Throttle
pub mod Flood
pub mod Handlers
pub mod Caches
pub mod Walk
pub mod Windows
pub mod Stable
pub mod Growth
pub mod Network
pub mod Links
pub mod Polite
pub mod Connections
pub mod Relay
pub mod Delivery
use p2pearl.Prelude.{
  ℕ, zero, suc, ◌+◌, ◌-◌, ◌^◌, Bool, true, false, ◌&&◌, ltb, leb, ◌==◌, if◌then◌else◌, Option, none,
  some, List, [], ◌∷◌, ◌++◌, map, length, drop, reverse, ℤ, pos, negsuc, pos_part,
}
use p2pearl.Prelude.Result.{Result, ok, raise}
use p2pearl.Prelude.Keys.{Bytes, Str, bytes_eq, bytes_key}
use p2pearl.Prelude.Dict.{Dict, lookup, contains, insert, erase}
use p2pearl.Prelude.Codec.{}
use p2pearl.Consensus.Share.{ShareBlock}
use p2pearl.Consensus.Sharechain.{Sharechain, get, tip, is_genesis_prev}

abbrev pub max_stored_proofs : ℕ
max_stored_proofs = 4096

abbrev pub sync_limit : ℕ
sync_limit = 2048

abbrev pub sync_batch : ℕ
sync_batch = 8

abbrev pub max_block_hex : ℕ
max_block_hex = 2_000_000

abbrev pub max_blocks_seen : ℕ
max_blocks_seen = 512

-- A host and a port.
abbrev pub Addr : Type 0
Addr = Str × ℕ

-- A message without a port has none; a share with its proof in a window sync is a pair.
pub data Msg : Type 0 where
  hello : Option ℕ → Str → ℤ → Msg
  peers : List Addr → Msg
  share : Str → Msg
  getproof : Str → Msg
  proof : Str → Str → Msg
  getshares : ℤ → Msg
  shares : List (Str × Str) → Msg
  block : Str → Msg

-- A peer is named by its number.
pub data Effect : Type 0 where
  send : ℕ → Msg → Effect
  new_share : ShareBlock → Effect
  found_block : Str → Effect
  block_candidate : ShareBlock → Str → Effect

-- `_proofs` is keyed by an id's hex digits; `_known_addrs` is a set, of which the list shows the
-- order that `list` gives. The flags say which hooks are set.
pub record Node : Type 0 where
  pub sharechain : Sharechain
  pub port : ℕ
  pub has_on_new_share : Bool
  pub has_on_block : Bool
  pub has_on_block_candidate : Bool
  pub connected : List ℕ
  pub known_addrs : List Addr
  pub proofs : Dict Str Str
  pub pending : Dict Str ShareBlock
  pub blocks_seen : Dict Bytes Bool

abbrev pub Reply : Type 0
Reply = Node × List Effect

-- `while len(d) > limit: d.popitem(last=False)`
unfoldable pub evict {ℓ} : {K V : Type ℓ} → ℕ → Dict K V → Dict K V
evict limit [] = []
evict limit (e ∷ d) = if leb (length (e ∷ d)) limit then e ∷ d else evict limit d

-- `d[k] = v; d.move_to_end(k)`
abbrev pub put_last : {V : Type 0} → Bytes → V → Dict Bytes V → Dict Bytes V
put_last k v d = erase k d ++ (k, v) ∷ []

-- `_store_proof`
unfoldable pub store_proof : Str → Str → Node → Node
store_proof sid proof_b64 n = record n {
  proofs = evict max_stored_proofs (put_last sid proof_b64 n.proofs);
}

-- `block_hex.encode("ascii", "ignore")`
unfoldable pub ascii_only : Str → Bytes
ascii_only [] = []
ascii_only (c ∷ cs) = if ltb c 128 then c ∷ ascii_only cs else ascii_only cs

-- `_seen_block`: whether the block was seen already, and the node after the call.
unfoldable pub seen_block : (Bytes → Bytes) → Str → Node → Bool × Node
seen_block sha256 block_hex n =
    let h = sha256 (ascii_only block_hex) in
    if contains h n.blocks_seen
    then (true, record n { blocks_seen = put_last h true n.blocks_seen })
    else (false, record n { blocks_seen = evict max_blocks_seen (insert h true n.blocks_seen) })

-- The loop of `_window_shares` over the rounds that are left: the shares from `cur` back.
unfoldable pub window_back : ℕ → Sharechain → ℕ → Bytes → List ShareBlock
window_back zero c from_height cur = []
window_back (suc rounds) c from_height cur = elim (is_genesis_prev cur) [
  | true ↦ []
  | false ↦ elim (get c cur) [
    | none ↦ []
    | some s ↦ elim (ltb s.sidechain_height from_height) [
      | true ↦ []
      | false ↦ s ∷ window_back rounds c from_height s.prev_share_id
    ]
  ]
]

-- `_window_shares`, oldest first; no share is below height 0, so a negative height asks for all.
unfoldable pub window_shares : Sharechain → ℤ → List ShareBlock
window_shares c from_height = elim c.best_tip [
  | none ↦ []
  | some tip ↦ reverse (window_back sync_limit c (pos_part from_height) tip)
]

-- `_broadcast`, to all peers but one
unfoldable pub broadcast : Msg → Option ℕ → List ℕ → List Effect
broadcast msg exclude [] = []
broadcast msg none (p ∷ ps) = send p msg ∷ broadcast msg none ps
broadcast msg (some q) (p ∷ ps) =
    let rest = broadcast msg (some q) ps in if p == q then rest else send p msg ∷ rest
