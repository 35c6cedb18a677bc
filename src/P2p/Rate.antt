-- ===== src/P2p/Rate.antt =====
-- `_Peer` and its rate gate, and the decision of `_dispatch` to drop a peer. Time is the monotonic
-- clock in nanoseconds.
use p2pearl.Prelude.{
  ℕ, suc, ◌+◌, Bool, true, false, leb, if◌then◌else◌, Option, none, some, List, [], ◌∷◌,
}
use p2pearl.Prelude.Keys.{Str}
use p2pearl.P2p.{Addr}

-- The kinds of message in `RATE_LIMITS`.
pub data Kind : Type 0 where
  getshares getproof block hello : Kind

abbrev pub limit_of : Kind → ℕ
limit_of getshares = 30
limit_of getproof = 2000
limit_of block = 200
limit_of hello = 10

-- Every kind has a window of 10 seconds.
abbrev pub rate_window : ℕ
rate_window = 10_000_000_000

abbrev pub hard_rate_strikes : ℕ
hard_rate_strikes = 5

pub record Bucket : Type 0 where
  pub start : ℕ
  pub count : ℕ

-- A bucket per kind, where there is one.
pub record Buckets : Type 0 where
  pub getshares : Option Bucket
  pub getproof : Option Bucket
  pub block : Option Bucket
  pub hello : Option Bucket

abbrev pub bucket : Kind → Buckets → Option Bucket
bucket getshares bs = bs.getshares
bucket getproof bs = bs.getproof
bucket block bs = bs.block
bucket hello bs = bs.hello

abbrev pub set_bucket : Kind → Bucket → Buckets → Buckets
set_bucket getshares b bs = record bs { getshares = some b }
set_bucket getproof b bs = record bs { getproof = some b }
set_bucket block b bs = record bs { block = some b }
set_bucket hello b bs = record bs { hello = some b }

pub record Peer : Type 0 where
  pub peer_id : ℕ
  pub host : Str
  pub listen_addr : Option Addr
  pub buckets : Buckets
  pub strikes : ℕ

-- `_Peer.allow`, first on the bucket of the message's kind.
unfoldable pub allow_at : Kind → ℕ → Option Bucket → Peer → Bool × Peer
allow_at kind now none p = (
  true,
  record p { buckets = set_bucket kind (record { start = now; count = 1 }) p.buckets; strikes = 0 },
)
allow_at kind now (some b) p =
    if leb (b.start + rate_window) now
    then (
      true,
      record p {
        buckets = set_bucket kind (record { start = now; count = 1 }) p.buckets;
        strikes = 0;
      },
    )
    else if leb (limit_of kind) b.count
    then (false, record p { strikes = p.strikes + 1 })
    else (
      true,
      record p {
        buckets = set_bucket kind (record b { count = b.count + 1 }) p.buckets;
        strikes = 0;
      },
    )

unfoldable pub allow : Kind → ℕ → Peer → Bool × Peer
unfolding allow_at
allow kind now p = allow_at kind now (bucket kind p.buckets) p

-- What `_dispatch` does with a message before its handler.
pub data Gate : Type 0 where
  handle ignore drop_peer : Gate

unfoldable pub gate : Kind → ℕ → Peer → Gate × Peer
gate kind now p =
    let (allowed, p') = allow kind now p in
    (if allowed then handle else if leb hard_rate_strikes p'.strikes then drop_peer else ignore, p')

-- How many of the messages of a kind that come in at these times are let through.
unfoldable pub served : Kind → List ℕ → Peer → ℕ
served kind [] p = 0
served kind (t ∷ ts) p =
    let (allowed, p') = allow kind t p in
    let rest = served kind ts p' in if allowed then suc rest else rest

-- Whether a peer that sends messages of a kind at these times is still connected after them.
unfoldable pub outlasts : Kind → List ℕ → Peer → Bool
outlasts kind [] p = true
outlasts kind (t ∷ ts) p =
    let (verdict, p') = gate kind t p in
    let rest = outlasts kind ts p' in
    elim verdict [ handle ↦ rest | ignore ↦ rest | drop_peer ↦ false ]
