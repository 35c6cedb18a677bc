-- ===== src/Samples.antt =====
-- Sample shares, sharechains and miners, which the tests of several modules share.
use p2pearl.Prelude.{
  ℕ, ◌+◌, ◌/◌, ◌%◌, ◌^◌, ◌<◌, ◌≡◌, refl, Bool, true, false, ltb, all, Option, none, some, List, [],
  ◌∷◌, sum, replicate, All, arith,
}
use p2pearl.Prelude.Result.{ok}
use p2pearl.Prelude.Keys.{Bytes, Str, bytes_key}
use p2pearl.Prelude.Dict.{lookup}
use p2pearl.Config.{bootstrap_share_target}
use p2pearl.Consensus.Subsidy.{block_subsidy}
use p2pearl.Consensus.Subsidy.Supply.{block_subsidy-lt-u64}
use p2pearl.Consensus.Share.{ShareBlock, post_init, serialize, share_id}
use p2pearl.Consensus.Share.RoundTrip.{IsWire, IsShare}
use p2pearl.Consensus.Sharechain.{Sharechain, new_sharechain, genesis_prev}
use p2pearl.Consensus.Sharechain.Invariant.{IsValid}

abbrev pub alice : Str
alice = 97 ∷ []

abbrev pub bob : Str
bob = 98 ∷ []

abbrev pub eve : Str
eve = 101 ∷ []

-- A genesis share and a child of it that names no uncle.
abbrev pub genesis : ShareBlock
genesis = record {
  version = 5;
  sidechain_height = 0;
  prev_share_id = genesis_prev;
  parent_prev_block = replicate 32 7;
  parent_height = 100;
  timestamp = 1_000;
  share_target = bootstrap_share_target;
  block_nbits = 486_604_799;
  coinbase_version = 1;
  coinbase_value = block_subsidy 100;
  miner_address = alice;
  payout_set_hash = replicate 32 9;
  target_limit = bootstrap_share_target;
  uncle_ids = [];
  pow_hash = replicate 32 0;
}

-- A digest that is easy to compute: 32 times the sum of the bytes.
abbrev pub checksum : Bytes → Bytes
checksum b = replicate 32 (sum b % 256)

abbrev pub chain : Sharechain
chain = new_sharechain 1000 3 20 bootstrap_share_target 10 60

pub genesis_id : share_id checksum genesis ≡ ok (replicate 32 32)
unfolding share_id serialize block_subsidy p2pearl.Prelude.Codec.pack
    p2pearl.Prelude.Codec.to_bytes_big p2pearl.Prelude.Codec.ascii
    p2pearl.Consensus.Share.write_varint p2pearl.Consensus.Share.double_sha256
    p2pearl.Prelude.Codec.le_bytes p2pearl.Consensus.Share.join
genesis_id = refl

-- The store after the genesis share.
abbrev pub started : Sharechain
started = record chain {
  entries =
      (replicate 32 32, record { share = genesis; cumulative_difficulty = 2 ^ 50; proof = none })
      ∷ [];
  best_tip = some (replicate 32 32);
}

-- Five seconds later the target has halved.
abbrev pub child : ShareBlock
child = record genesis {
  sidechain_height = 1;
  prev_share_id = replicate 32 32;
  parent_height = 101;
  timestamp = 1_005;
  coinbase_value = block_subsidy 101;
  share_target = bootstrap_share_target / 2;
  target_limit = bootstrap_share_target / 2;
}

pub chain-IsValid : IsValid checksum chain
unfolding new_sharechain lookup
chain-IsValid = record { unique = tt; ids = λ k e h. cc; best = refl }

pub genesis-IsWire : IsWire genesis
genesis-IsWire = record {
  version = omega arith;
  sidechain_height = omega arith;
  parent_height = omega arith;
  timestamp = omega arith;
  block_nbits = omega arith;
  coinbase_version = omega arith;
  coinbase_value = block_subsidy-lt-u64 100;
  address_ascii = refl;
  address_length = omega arith;
  uncles_length = omega arith;
}

pub genesis-IsShare : IsShare genesis
unfolding post_init
genesis-IsShare = refl

-- The bytes of the genesis share.
abbrev pub genesis_wire : Bytes
genesis_wire =
    5 ∷ 0 ∷ 0 ∷ 0 ∷ 0 ∷ 0 ∷ 0 ∷ 0 ∷ 0 ∷ 0 ∷ 0 ∷ 0 ∷ 0 ∷ 0 ∷ 0 ∷ 0 ∷ 0 ∷ 0 ∷ 0 ∷ 0 ∷ 0 ∷ 0 ∷ 0 ∷ 0
    ∷ 0 ∷ 0 ∷ 0 ∷ 0 ∷ 0 ∷ 0 ∷ 0 ∷ 0 ∷ 0 ∷ 0 ∷ 0 ∷ 0 ∷ 0 ∷ 0 ∷ 0 ∷ 0 ∷ 0 ∷ 0 ∷ 0 ∷ 0 ∷ 7 ∷ 7 ∷ 7 ∷ 7
    ∷ 7 ∷ 7 ∷ 7 ∷ 7 ∷ 7 ∷ 7 ∷ 7 ∷ 7 ∷ 7 ∷ 7 ∷ 7 ∷ 7 ∷ 7 ∷ 7 ∷ 7 ∷ 7 ∷ 7 ∷ 7 ∷ 7 ∷ 7 ∷ 7 ∷ 7 ∷ 7 ∷ 7
    ∷ 7 ∷ 7 ∷ 7 ∷ 7 ∷ 100 ∷ 0 ∷ 0 ∷ 0 ∷ 232 ∷ 3 ∷ 0 ∷ 0 ∷ 0 ∷ 0 ∷ 0 ∷ 0 ∷ 0 ∷ 0 ∷ 63 ∷ 255 ∷ 255
    ∷ 255 ∷ 255 ∷ 255 ∷ 255 ∷ 255 ∷ 255 ∷ 255 ∷ 255 ∷ 255 ∷ 255 ∷ 255 ∷ 255 ∷ 255 ∷ 255 ∷ 255 ∷ 255
    ∷ 255 ∷ 255 ∷ 255 ∷ 255 ∷ 255 ∷ 255 ∷ 255 ∷ 0 ∷ 0 ∷ 0 ∷ 0 ∷ 0 ∷ 0 ∷ 63 ∷ 255 ∷ 255 ∷ 255 ∷ 255
    ∷ 255 ∷ 255 ∷ 255 ∷ 255 ∷ 255 ∷ 255 ∷ 255 ∷ 255 ∷ 255 ∷ 255 ∷ 255 ∷ 255 ∷ 255 ∷ 255 ∷ 255 ∷ 255
    ∷ 255 ∷ 255 ∷ 255 ∷ 255 ∷ 255 ∷ 255 ∷ 255 ∷ 0 ∷ 29 ∷ 1 ∷ 0 ∷ 0 ∷ 0 ∷ 1 ∷ 78 ∷ 77 ∷ 44 ∷ 75 ∷ 0
    ∷ 0 ∷ 0 ∷ 1 ∷ 97 ∷ 9 ∷ 9 ∷ 9 ∷ 9 ∷ 9 ∷ 9 ∷ 9 ∷ 9 ∷ 9 ∷ 9 ∷ 9 ∷ 9 ∷ 9 ∷ 9 ∷ 9 ∷ 9 ∷ 9 ∷ 9 ∷ 9 ∷ 9
    ∷ 9 ∷ 9 ∷ 9 ∷ 9 ∷ 9 ∷ 9 ∷ 9 ∷ 9 ∷ 9 ∷ 9 ∷ 9 ∷ 9 ∷ 0 ∷ []

pub genesis-serialize : serialize genesis ≡ ok genesis_wire
unfolding serialize p2pearl.Prelude.Codec.pack p2pearl.Prelude.Codec.to_bytes_big block_subsidy
    p2pearl.Prelude.Codec.ascii p2pearl.Consensus.Share.write_varint p2pearl.Prelude.Codec.le_bytes
    p2pearl.Consensus.Share.join
genesis-serialize = refl

-- Bytes that are tested to be bytes.
pub all-All : (xs : Bytes) → all (λ b. ltb b 256) xs ≡ true → All (λ b. b < 256) xs
all-All [] h = tt
all-All (x ∷ xs) h = (ground arith, all-All xs (ground arith))
