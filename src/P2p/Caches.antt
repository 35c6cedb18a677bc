-- ===== src/P2p/Caches.antt =====
-- The bounded caches of p2pearl/p2p/node.py: the proofs and the blocks seen.
use p2pearl.Prelude.{
  ℕ, ◌≤◌, ◌<◌, ◌≡◌, refl, true, false, leb, Bool-cases, inl, inr, none, some, [], ◌∷◌, ◌++◌, length,
  length-append, arith,
}
use p2pearl.Prelude.Keys.{Bytes, Str, bytes_key, bytes_eq_iff}
use p2pearl.Prelude.Dict.{
  Dict, lookup, contains, insert, erase, IsDict, lookup-erase_self, erase-IsDict, length-erase,
  insert-IsDict,
}
use p2pearl.P2p.{
  Node, max_stored_proofs, max_blocks_seen, evict, put_last, store_proof, ascii_only, seen_block,
}

pub length-evict-le : {V : Type 0} (limit : ℕ) (d : Dict Bytes V) → length (evict limit d) ≤ limit
unfolding evict
length-evict-le limit [] = omega arith
length-evict-le limit (e ∷ d) = ground (arith, length-evict-le limit d)

module _ {V : Type 0} where
  lookup-append_none :
      (k j : Bytes) (v : V) (d : Dict Bytes V)
      → lookup j d ≡ none
      → bytes_key.beq k j ≡ false
      → lookup j (d ++ (k, v) ∷ []) ≡ none
  unfolding lookup
  lookup-append_none k j v [] h ne = rw ne refl
  lookup-append_none k j v ((i, w) ∷ d) h ne = ground (arith, lookup-append_none k j v d)

  pub lookup-append_self :
      (k : Bytes) (v : V) (d : Dict Bytes V)
      → lookup k d ≡ none
      → lookup k (d ++ (k, v) ∷ []) ≡ some v
  unfolding lookup
  lookup-append_self k v [] h = ground (arith, bytes_eq_iff k k)
  lookup-append_self k v ((i, w) ∷ d) h = ground (arith, lookup-append_self k v d)

  append-IsDict :
      (k : Bytes) (v : V) (d : Dict Bytes V)
      → lookup k d ≡ none
      → IsDict d
      → IsDict (d ++ (k, v) ∷ [])
  unfolding lookup
  append-IsDict k v [] h u = (refl, tt)
  append-IsDict k v ((i, w) ∷ d) h u = (
    lookup-append_none k i v d u.0 (ground (arith, bytes_eq_iff k i, bytes_eq_iff i k)),
    append-IsDict k v d (ground arith) u.1,
  )

  pub evict-IsDict : (limit : ℕ) (d : Dict Bytes V) → IsDict d → IsDict (evict limit d)
  unfolding evict
  evict-IsDict limit [] u = u
  evict-IsDict limit (e ∷ d) u = elim (Bool-cases (leb (length (e ∷ d)) limit)) [
    | inl fits ↦ rw (evict, fits) u
    | inr over ↦ rw (evict, over) (evict-IsDict limit d u.1)
  ]

  -- Eviction takes the oldest entries, so the last one stays.
  pub lookup-evict-last :
      (limit : ℕ) (k : Bytes) (v : V) (d : Dict Bytes V)
      → 0 < limit
      → lookup k d ≡ none
      → lookup k (evict limit (d ++ (k, v) ∷ [])) ≡ some v
  unfolding evict lookup
  lookup-evict-last limit k v [] p h = ground (arith, bytes_eq_iff k k)
  lookup-evict-last limit k v ((i, w) ∷ d) p h =
      ground (arith, lookup-evict-last limit k v d, lookup-append_self k v d)

-- An insertion of a new key goes to the end.
pub insert-new :
    {V : Type 0} (k : Bytes) (v : V) (d : Dict Bytes V)
    → lookup k d ≡ none
    → insert k v d ≡ d ++ (k, v) ∷ []
unfolding insert lookup
insert-new k v [] h = refl
insert-new k v ((j, w) ∷ d) h = ground (arith, insert-new k v d)

-- Both caches keep one entry per key and at most as many as they may.
pub record IsBounded (n : Node) : Type 0 where
  pub proofs_unique : IsDict n.proofs
  pub proofs_length : length n.proofs ≤ max_stored_proofs
  pub blocks_unique : IsDict n.blocks_seen
  pub blocks_length : length n.blocks_seen ≤ max_blocks_seen

put_last-IsDict :
    {V : Type 0} (k : Bytes) (v : V) (d : Dict Bytes V) → IsDict d → IsDict (put_last k v d)
put_last-IsDict k v d u =
    append-IsDict k v (erase k d) (lookup-erase_self k d u) (erase-IsDict k d u)

-- A proof that was stored is found, at the end of a cache that is no longer than it may be.
pub store_proof_lem :
    (sid proof_b64 : Str) (n : Node)
    → IsDict n.proofs
    → let proofs = (store_proof sid proof_b64 n).proofs in
      (lookup sid proofs ≡ some proof_b64) × (length proofs ≤ max_stored_proofs) × IsDict proofs
unfolding store_proof
store_proof_lem sid proof_b64 n u = (
  lookup-evict-last max_stored_proofs sid proof_b64 (erase sid n.proofs) (omega arith)
      (lookup-erase_self sid n.proofs u),
  length-evict-le max_stored_proofs (put_last sid proof_b64 n.proofs),
  evict-IsDict max_stored_proofs _ (put_last-IsDict sid proof_b64 n.proofs u),
)

pub store_proof-IsBounded :
    (sid proof_b64 : Str) (n : Node) → IsBounded n → IsBounded (store_proof sid proof_b64 n)
unfolding store_proof
store_proof-IsBounded sid proof_b64 n h = record {
  proofs_unique =
      evict-IsDict max_stored_proofs _ (put_last-IsDict sid proof_b64 n.proofs h.proofs_unique);
  proofs_length = length-evict-le max_stored_proofs (put_last sid proof_b64 n.proofs);
  blocks_unique = h.blocks_unique;
  blocks_length = h.blocks_length;
}

length-put_last :
    {V : Type 0} (k : Bytes) (v : V) (d : Dict Bytes V)
    → contains k d ≡ true
    → length (put_last k v d) ≡ length d
length-put_last k v d h = omega (arith, length-append (erase k d) ((k, v) ∷ []), length-erase k d h)

pub seen_block-IsBounded :
    (sha256 : Bytes → Bytes) (block_hex : Str) (n : Node)
    → IsBounded n
    → IsBounded (seen_block sha256 block_hex n).1
unfolding seen_block
seen_block-IsBounded sha256 block_hex n b =
    let h = sha256 (ascii_only block_hex) in
    elim (Bool-cases (contains h n.blocks_seen)) [
      | inl seen ↦
          rw (seen_block, seen)
            (record {
              proofs_unique = b.proofs_unique;
              proofs_length = b.proofs_length;
              blocks_unique = put_last-IsDict h true n.blocks_seen b.blocks_unique;
              blocks_length =
                  omega (arith, length-put_last h true n.blocks_seen seen, b.blocks_length);
            })
      | inr new ↦
          rw (seen_block, new)
            (record {
              proofs_unique = b.proofs_unique;
              proofs_length = b.proofs_length;
              blocks_unique =
                  evict-IsDict max_blocks_seen _
                    (insert-IsDict h true n.blocks_seen b.blocks_unique);
              blocks_length = length-evict-le max_blocks_seen (insert h true n.blocks_seen);
            })
    ]
