-- ===== src/P2p/Relay.antt =====
-- What a node of p2pearl/p2p/node.py does with a block and with an announced share.
use p2pearl.Prelude.{
  ℕ, ◌≡◌, ◌↔◌, refl, Bool, true, false, Option-cases, inl, inr, none, some, [], ◌∷◌, arith,
}
use p2pearl.Prelude.Result.{ok}
use p2pearl.Prelude.Keys.{Bytes, Str, bytes_key}
use p2pearl.Prelude.Dict.{lookup, contains, insert, erase, IsDict, lookup-erase_self}
use p2pearl.Prelude.Hex.{hex}
use p2pearl.Consensus.Share.{ShareBlock, share_id}
use p2pearl.Consensus.Sharechain.{Sharechain}
use p2pearl.Consensus.Sharechain.Validate.{validate, is_valid_successor}
use p2pearl.Consensus.Sharechain.Successor.{IsSuccessor, validate_iff}
use p2pearl.P2p.{Msg, send, Node, Reply, max_blocks_seen, evict, put_last, ascii_only, seen_block}
use p2pearl.P2p.Handlers.{parse_share, is_orphan, on_parsed, on_share, on_block}
use p2pearl.P2p.Caches.{insert-new, lookup-append_self, lookup-evict-last}

-- A block that was seen is known from then on.
seen_block-seen :
    (sha256 : Bytes → Bytes) (block_hex : Str) (n : Node)
    → IsDict n.blocks_seen
    → contains (sha256 (ascii_only block_hex)) (seen_block sha256 block_hex n).1.blocks_seen ≡ true
unfolding seen_block
seen_block-seen sha256 block_hex n u =
    let h = sha256 (ascii_only block_hex) in
    elim (Option-cases (lookup h n.blocks_seen)) [
      | inl new ↦
          let stays : lookup h (evict max_blocks_seen (insert h true n.blocks_seen)) ≡ some true =
            rw (insert-new h true n.blocks_seen new)
              (lookup-evict-last max_blocks_seen h true n.blocks_seen (omega arith) new) in
          ground (arith, new, stays)
      | inr (x, e) ↦
          let gone = lookup-erase_self h n.blocks_seen u in
          let moved : lookup h (put_last h true n.blocks_seen) ≡ some true =
            lookup-append_self h true (erase h n.blocks_seen) gone in
          ground (arith, e, moved)
    ]

-- A block that comes in again right after is neither reported nor relayed, whoever sends it.
pub on_block-once :
    (sha256 : Bytes → Bytes) (verify : Sharechain → ShareBlock → Str → Bool) (now later : ℕ)
    (peer other : ℕ) (block_hex : Str) (n : Node)
    → IsDict n.blocks_seen
    → (on_block sha256 verify later other block_hex
        (on_block sha256 verify now peer block_hex n).0).1
      ≡ []
unfolding on_block seen_block
on_block-once sha256 verify now later peer other block_hex n u =
    ground (arith, seen_block-seen sha256 block_hex n u)

is_orphan-IsSuccessor :
    (c : Sharechain) (s : ShareBlock) (sid : Bytes) (now : ℕ)
    → IsSuccessor c s sid now
    → is_orphan c s ≡ false
is_orphan-IsSuccessor c s sid now (p, inl g) = rw g.no_parent refl
is_orphan-IsSuccessor c s sid now (p, inr k) =
    let known : contains s.prev_share_id c.entries ≡ true = ground (arith, k.found) in
    rw (k.has_parent, known) refl

-- A peer that announces a share that can be read is asked for its proof, and the share is kept until
-- it comes, exactly when the share is not waiting already and is a valid successor.
pub on_share_iff :
    (sha256 : Bytes → Bytes) (verify : Sharechain → ShareBlock → Str → Bool) (now peer : ℕ)
    (text : Str) (s : ShareBlock) (sid : Bytes) (n : Node)
    → share_id sha256 s ≡ ok sid
    → parse_share sha256 verify now text ≡ some (s, sid)
    → let asked : Reply = (
      record n { pending = insert (hex sid) s n.pending },
      send peer (Msg.getproof (hex sid)) ∷ [],
    ) in
      (on_share sha256 verify now peer text n ≡ asked)
      ↔ ((lookup (hex sid) n.pending ≡ none) × IsSuccessor n.sharechain s sid now)
unfolding on_share on_parsed is_valid_successor
on_share_iff sha256 verify now peer text s sid n id parsed = (
  λ e. elim (Option-cases (lookup (hex sid) n.pending)) [
    | inr (u, waits) ↦ absurd (ground arith)
    | inl free ↦ elim (Option-cases (validate n.sharechain s sid now)) [
      | inl valid ↦ (free, (validate_iff n.sharechain s sid now).0 valid)
      | inr (r, invalid) ↦ absurd (ground arith)
    ]
  ],
  λ (free, succ).
      let valid = (validate_iff n.sharechain s sid now).1 succ in
      let placed = is_orphan-IsSuccessor n.sharechain s sid now succ in
      let fresh = succ.0.fresh in ground (arith, valid, placed, fresh),
)
