-- ===== src/Consensus/Share/RoundTrip.antt =====
-- The wire format of p2pearl/consensus/share.py, written and read back.
use p2pearl.Prelude.{
  ℕ, ◌≤◌, ◌<◌, ◌^◌, ◌≡◌, refl, sym, ap, ◌∙◌, true, ltb, leb, if◌then◌else◌, Bool-cases, ◌⊎◌, inl,
  inr, some, List, [], ◌∷◌, ◌++◌, length, all, replicate, reverse, arith,
}
use p2pearl.Prelude.Result.{ok, ok-injective}
use p2pearl.Prelude.Keys.{Bytes, Str}
use p2pearl.Prelude.Codec.{
  le_bytes, to_bytes_big, from_be, ascii, slice, unpack-le_bytes, slice-append, pack-ok,
  to_bytes_big-ok, from_be-reverse, length-reverse-le_bytes,
}
use p2pearl.Consensus.Share.{
  ShareBlock, is_hash, post_init, write_varint, read_varint, join, serialize, read_uncles,
  deserialize, target_limit_version,
}
use mathlib.Core.List.{append_assoc, append-nil}

-- The bytes of a varint, for a number of 64 bits.
varint : ℕ → Bytes
varint n =
    if ltb n 0xfd
    then n ∷ []
    else if leb n 0xffff
    then 0xfd ∷ le_bytes 2 n
    else if leb n 0xffff_ffff
    then 0xfe ∷ le_bytes 4 n
    else 0xff ∷ le_bytes 8 n

write_varint-ok : (n : ℕ) → n < 2 ^ 64 → write_varint n ≡ ok (varint n)
unfolding write_varint varint
write_varint-ok n h = ground (arith, pack-ok 8 n)

read_varint-varint :
    (n : ℕ) (rest : Bytes) → n < 2 ^ 64 → read_varint (varint n ++ rest) ≡ ok (n, rest)
unfolding varint read_varint
read_varint-varint n rest h = elim (Bool-cases (ltb n 0xfd)) [
  | inl p ↦ rw (p, p)
  | inr p ↦ elim (Bool-cases (leb n 0xffff)) [
    | inl q ↦ rw (p, q) (unpack-le_bytes 2 n rest (ground arith))
    | inr q ↦ elim (Bool-cases (leb n 0xffff_ffff)) [
      | inl r ↦ rw (p, q, r) (unpack-le_bytes 4 n rest (ground arith))
      | inr r ↦ rw (p, q, r) (unpack-le_bytes 8 n rest (ground arith))
    ]
  ]
]

ascii-ok : (s : Str) → all (λ c. ltb c 128) s ≡ true → ascii s ≡ ok s
unfolding ascii
ascii-ok s h = rw h

read_uncles-join :
    (us : List Bytes) (rest : Bytes)
    → all is_hash us ≡ true
    → read_uncles (length us) (join us ++ rest) ≡ us
unfolding read_uncles join
read_uncles-join [] rest h = refl
read_uncles-join (u ∷ us) rest h =
    rw (append_assoc u (join us) rest, slice-append 32 u (join us ++ rest) (ground arith))
      (ap (◌∷◌ u) (read_uncles-join us rest (ground arith)))

-- The fields fit their wire widths.
pub record IsWire (s : ShareBlock) : Type 0 where
  pub version : s.version < 2 ^ 32
  pub sidechain_height : s.sidechain_height < 2 ^ 64
  pub parent_height : s.parent_height < 2 ^ 32
  pub timestamp : s.timestamp < 2 ^ 32
  pub block_nbits : s.block_nbits < 2 ^ 32
  pub coinbase_version : s.coinbase_version < 2 ^ 32
  pub coinbase_value : s.coinbase_value < 2 ^ 64
  pub address_ascii : all (λ c. ltb c 128) s.miner_address ≡ true
  pub address_length : length s.miner_address < 2 ^ 64
  pub uncles_length : length s.uncle_ids < 2 ^ 64

-- The checks of `__post_init__` hold of the fields as they stand.
abbrev pub IsShare : ShareBlock → Type 0
IsShare s = post_init (some s.target_limit) s ≡ ok s

-- Version 5 commits the target limit; below it the limit is the share target.
abbrev pub LimitIsCommitted : ShareBlock → Type 0
LimitIsCommitted s = (target_limit_version ≤ s.version) ⊎ (s.target_limit ≡ s.share_target)

limit_bytes : ShareBlock → Bytes
limit_bytes s =
    if leb target_limit_version s.version then reverse (le_bytes 32 s.target_limit) else []

-- The serialized fields, followed by `rest`.
layout : ShareBlock → Bytes → Bytes
layout s rest =
    le_bytes 4 s.version
    ++ (le_bytes 8 s.sidechain_height
        ++ (s.prev_share_id
            ++ (s.parent_prev_block
                ++ (le_bytes 4 s.parent_height
                    ++ (le_bytes 4 s.timestamp
                        ++ (reverse (le_bytes 32 s.share_target)
                            ++ (limit_bytes s
                                ++ (le_bytes 4 s.block_nbits
                                    ++ (le_bytes 4 s.coinbase_version
                                        ++ (le_bytes 8 s.coinbase_value
                                            ++ (varint (length s.miner_address)
                                                ++ (s.miner_address
                                                    ++ (s.payout_set_hash
                                                        ++ (varint (length s.uncle_ids)
                                                            ++ (join s.uncle_ids
                                                            ++ rest)))))))))))))))

module _ (s : ShareBlock) (w : IsWire s) (v : IsShare s) where
  share_target-lt : s.share_target < 256 ^ 32
  unfolding post_init
  share_target-lt = ground arith

  target_limit-lt : s.target_limit < 256 ^ 32
  unfolding post_init
  target_limit-lt = ground arith

  hashes :
      (length s.prev_share_id ≡ 32)
      × (length s.parent_prev_block ≡ 32)
      × (length s.payout_set_hash ≡ 32)
      × (all is_hash s.uncle_ids ≡ true)
  unfolding post_init
  hashes = ground arith

  -- The limit as it is written and as it is read, on both sides of version 5.
  limit_written :
      (if leb target_limit_version s.version then to_bytes_big s.target_limit else ok [])
      ≡ ok (limit_bytes s)
  unfolding limit_bytes
  limit_written = elim (Bool-cases (leb target_limit_version s.version)) [
    | inl p ↦ rw p (to_bytes_big-ok s.target_limit target_limit-lt)
    | inr p ↦ rw p
  ]

  serialize-layout : serialize s ≡ ok (layout s [])
  unfolding serialize layout
  serialize-layout = rw (
    pack-ok 4 s.version w.version,
    pack-ok 8 s.sidechain_height w.sidechain_height,
    pack-ok 4 s.parent_height w.parent_height,
    pack-ok 4 s.timestamp w.timestamp,
    to_bytes_big-ok s.share_target share_target-lt,
    limit_written,
    pack-ok 4 s.block_nbits w.block_nbits,
    pack-ok 4 s.coinbase_version w.coinbase_version,
    pack-ok 8 s.coinbase_value w.coinbase_value,
    ascii-ok s.miner_address w.address_ascii,
    write_varint-ok (length s.miner_address) w.address_length,
    write_varint-ok (length s.uncle_ids) w.uncles_length,
    append-nil (join s.uncle_ids),
  )

  limit_rest :
      (rest : Bytes)
      → (if leb target_limit_version s.version
          then (slice 32 (limit_bytes s ++ rest)).1
          else limit_bytes s ++ rest)
        ≡ rest
  unfolding limit_bytes
  limit_rest rest = elim (Bool-cases (leb target_limit_version s.version)) [
    | inl p ↦
        rw p (ap (λ x. x.1) (slice-append 32 _ rest (length-reverse-le_bytes 32 s.target_limit)))
    | inr p ↦ rw p
  ]

  limit_read :
      (rest : Bytes)
      → LimitIsCommitted s
      → (if leb target_limit_version s.version
          then from_be (slice 32 (limit_bytes s ++ rest)).0
          else s.share_target)
        ≡ s.target_limit
  unfolding limit_bytes
  limit_read rest c = elim (Bool-cases (leb target_limit_version s.version)) [
    | inl p ↦ rw p (
        ap (λ x. from_be x.0) (slice-append 32 _ rest (length-reverse-le_bytes 32 s.target_limit))
        ∙ from_be-reverse s.target_limit target_limit-lt)
    | inr p ↦ rw p (ground arith)
  ]

  post_init_fresh :
      post_init (some s.target_limit) (record s { pow_hash = replicate 32 0 })
      ≡ ok (record s { pow_hash = replicate 32 0 })
  unfolding post_init
  post_init_fresh = ground arith

  deserialize-layout :
      (rest : Bytes)
      → LimitIsCommitted s
      → deserialize (layout s rest) ≡ ok (record s { pow_hash = replicate 32 0 })
  unfolding deserialize layout
  deserialize-layout rest c =
      rw
        (
          unpack-le_bytes 4 s.version _ w.version,
          unpack-le_bytes 8 s.sidechain_height _ w.sidechain_height,
          slice-append 32 s.prev_share_id _ hashes.0,
          slice-append 32 s.parent_prev_block _ hashes.1,
          unpack-le_bytes 4 s.parent_height _ w.parent_height,
          unpack-le_bytes 4 s.timestamp _ w.timestamp,
          slice-append 32 (reverse (le_bytes 32 s.share_target)) _
              (length-reverse-le_bytes 32 s.share_target),
          from_be-reverse s.share_target share_target-lt,
          limit_rest,
          limit_read _ c,
          unpack-le_bytes 4 s.block_nbits _ w.block_nbits,
          unpack-le_bytes 4 s.coinbase_version _ w.coinbase_version,
          unpack-le_bytes 8 s.coinbase_value _ w.coinbase_value,
          read_varint-varint (length s.miner_address) _ w.address_length,
          slice-append (length s.miner_address) s.miner_address _ refl,
          ascii-ok s.miner_address w.address_ascii,
          slice-append 32 s.payout_set_hash _ hashes.2,
          read_varint-varint (length s.uncle_ids) _ w.uncles_length,
          read_uncles-join s.uncle_ids rest hashes.3,
        )
        post_init_fresh

  layout-append : (rest : Bytes) → layout s [] ++ rest ≡ layout s rest
  unfolding layout
  layout-append rest = simp (append_assoc, append-nil)

-- A share that fits the wire widths, passes its own checks and commits its target limit is
-- serialized without an error, and reading the bytes back, whatever follows them, gives every
-- field of it but the proof-of-work hash, which is not on the wire and starts as zeros.
pub deserialize-serialize :
    (s : ShareBlock)
    → IsWire s
    → IsShare s
    → LimitIsCommitted s
    → (rest : Bytes)
    → (d : Bytes) × (serialize s ≡ ok d)
      × (deserialize (d ++ rest) ≡ ok (record s { pow_hash = replicate 32 0 }))
deserialize-serialize s w v c rest = (
  layout s [],
  serialize-layout s w v,
  rw (layout-append s w v rest) (deserialize-layout s w v rest c),
)

-- Two such shares with the same bytes, hence with one pre-image of their ids, agree in every
-- field but the proof-of-work hash.
pub serialize-injective :
    (s t : ShareBlock)
    → IsWire s
    → IsShare s
    → LimitIsCommitted s
    → IsWire t
    → IsShare t
    → LimitIsCommitted t
    → serialize s ≡ serialize t
    → record s { pow_hash = replicate 32 0 } ≡ record t { pow_hash = replicate 32 0 }
serialize-injective s t ws vs cs wt vt ct e =
    let (d, sd, rd) = deserialize-serialize s ws vs cs [] in
    let (d', sd', rd') = deserialize-serialize t wt vt ct [] in
    let same : d ≡ d' = ok-injective (sym sd ∙ e ∙ sd') in
    ok-injective (sym rd ∙ ap (λ x. deserialize (x ++ [])) same ∙ rd')
