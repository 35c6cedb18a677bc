-- ===== src/Consensus/Share.antt =====
-- The share of p2pearl/consensus/share.py: its fields, their checks, and the wire format. All
-- numbers are unsigned; `hashlib.sha256` is a parameter.

pub mod RoundTrip
use p2pearl.Prelude.{
  ℕ, zero, suc, ◌+◌, ◌-◌, ◌*◌, ◌/◌, ◌^◌, Bool, true, false, ◌&&◌, not, ltb, leb, ◌==◌,
  if◌then◌else◌, Option, none, some, List, [], ◌∷◌, ◌++◌, length, all, replicate,
}
use p2pearl.Prelude.Result.{
  Result, ok, raise, value_error, struct_error, index_error, ◌>>=◌, ◌>>◌, guard,
}
use p2pearl.Prelude.Keys.{Bytes, Str}
use p2pearl.Prelude.Codec.{le_bytes, pack, to_bytes_big, from_be, ascii, unpack, slice}
use p2pearl.Config.{max_target}

-- `_TARGET_LIMIT_VERSION`
abbrev pub target_limit_version : ℕ
target_limit_version = 5

pub record ShareBlock : Type 0 where
  pub version : ℕ
  pub sidechain_height : ℕ
  pub prev_share_id : Bytes
  pub parent_prev_block : Bytes
  pub parent_height : ℕ
  pub timestamp : ℕ
  pub share_target : ℕ
  pub block_nbits : ℕ
  pub coinbase_version : ℕ
  pub coinbase_value : ℕ
  pub miner_address : Str
  pub payout_set_hash : Bytes
  pub target_limit : ℕ
  pub uncle_ids : List Bytes
  pub pow_hash : Bytes

-- `len(v) == 32`
abbrev pub is_hash : Bytes → Bool
is_hash v = length v == 32

abbrev pub in_target_range : ℕ → Bool
in_target_range t = ltb 0 t && leb t max_target

-- `__post_init__`, on the field values with the `target_limit` that the caller gave; a caller that
-- gives none gets the share target.
unfoldable pub post_init : Option ℕ → ShareBlock → Result ShareBlock
post_init limit s = do
  guard (is_hash s.prev_share_id) value_error
  guard (is_hash s.parent_prev_block) value_error
  guard (is_hash s.payout_set_hash) value_error
  guard (is_hash s.pow_hash) value_error
  guard (all is_hash s.uncle_ids) value_error
  guard (in_target_range s.share_target) value_error
  let target_limit : ℕ = elim limit [ none ↦ s.share_target | some l ↦ l ]
  guard (in_target_range target_limit) value_error
  guard (leb s.share_target target_limit) value_error
  ok (record s { target_limit = target_limit })

abbrev pub write_wide : ℕ → Result Bytes
write_wide n = do b ← pack 8 n; ok (0xff ∷ b)

-- `_write_varint`, on a number that is not negative
unfoldable pub write_varint : ℕ → Result Bytes
write_varint n =
    if ltb n 0xfd
    then ok (n ∷ [])
    else if leb n 0xffff
    then ok (0xfd ∷ le_bytes 2 n)
    else if leb n 0xffff_ffff
    then ok (0xfe ∷ le_bytes 4 n)
    else write_wide n

-- `_read_varint`
unfoldable pub read_varint : Bytes → Result (ℕ × Bytes)
read_varint [] = raise index_error
read_varint (first ∷ rest) =
    if ltb first 0xfd
    then ok (first, rest)
    else if first == 0xfd
    then unpack 2 rest
    else if first == 0xfe
    then unpack 4 rest
    else unpack 8 rest

-- `b"".join(uncle_ids)`
unfoldable pub join : List Bytes → Bytes
join [] = []
join (u ∷ us) = u ++ join us

unfoldable pub serialize : ShareBlock → Result Bytes
serialize s = do
  version ← pack 4 s.version
  sidechain_height ← pack 8 s.sidechain_height
  parent_height ← pack 4 s.parent_height
  timestamp ← pack 4 s.timestamp
  share_target ← to_bytes_big s.share_target
  target_limit ← if leb target_limit_version s.version then to_bytes_big s.target_limit else ok []
  block_nbits ← pack 4 s.block_nbits
  coinbase_version ← pack 4 s.coinbase_version
  coinbase_value ← pack 8 s.coinbase_value
  addr ← ascii s.miner_address
  addr_len ← write_varint (length addr)
  n_uncles ← write_varint (length s.uncle_ids)
  ok (
      version
      ++ (sidechain_height
          ++ (s.prev_share_id
              ++ (s.parent_prev_block
                  ++ (parent_height
                      ++ (timestamp
                          ++ (share_target
                              ++ (target_limit
                                  ++ (block_nbits
                                      ++ (coinbase_version
                                          ++ (coinbase_value
                                              ++ (addr_len
                                                  ++ (addr
                                                      ++ (s.payout_set_hash
                                                          ++ (n_uncles
                                                            ++ join s.uncle_ids)))))))))))))))

-- The loop that slices off the uncle ids.
unfoldable pub read_uncles : ℕ → Bytes → List Bytes
read_uncles zero bs = []
read_uncles (suc n) bs = let (u, rest) = slice 32 bs in u ∷ read_uncles n rest

unfoldable pub deserialize : Bytes → Result ShareBlock
deserialize bs0 = do
  (version, bs1) ← unpack 4 bs0
  (sidechain_height, bs2) ← unpack 8 bs1
  let prev_share_id = slice 32 bs2
  let parent_prev_block = slice 32 prev_share_id.1
  (parent_height, bs5) ← unpack 4 parent_prev_block.1
  (timestamp, bs6) ← unpack 4 bs5
  let share_target = slice 32 bs6
  let wide_limit = slice 32 share_target.1
  let has_limit = leb target_limit_version version
  let bs8 = if has_limit then wide_limit.1 else share_target.1
  let target_limit = if has_limit then from_be wide_limit.0 else from_be share_target.0
  (block_nbits, bs9) ← unpack 4 bs8
  (coinbase_version, bs10) ← unpack 4 bs9
  (coinbase_value, bs11) ← unpack 8 bs10
  (addr_len, bs12) ← read_varint bs11
  let addr = slice addr_len bs12
  miner_address ← ascii addr.0
  let payout_set_hash = slice 32 addr.1
  (n_uncles, bs15) ← read_varint payout_set_hash.1
  post_init (some target_limit) (record {
    version = version;
    sidechain_height = sidechain_height;
    prev_share_id = prev_share_id.0;
    parent_prev_block = parent_prev_block.0;
    parent_height = parent_height;
    timestamp = timestamp;
    share_target = from_be share_target.0;
    block_nbits = block_nbits;
    coinbase_version = coinbase_version;
    coinbase_value = coinbase_value;
    miner_address = miner_address;
    payout_set_hash = payout_set_hash.0;
    target_limit = target_limit;
    uncle_ids = read_uncles n_uncles bs15;
    pow_hash = replicate 32 0;
  })

-- `MAX_TARGET // share_target`
unfoldable pub difficulty : ShareBlock → ℕ
difficulty s = max_target / s.share_target

module _ (sha256 : Bytes → Bytes) where
  unfoldable pub double_sha256 : Bytes → Bytes
  double_sha256 bs = sha256 (sha256 bs)

  unfoldable pub share_id : ShareBlock → Result Bytes
  share_id s = do bs ← serialize s; ok (double_sha256 bs)
