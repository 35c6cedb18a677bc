-- ===== src/Stratum.antt =====
-- The miner-facing server of p2pearl/stratum: worker logins, jobs and the bounded job registry of
-- server.py, and the request parameters and error codes of protocol.py. JSON is decoded outside; the
-- fields of a request have their documented types. A context is whatever the job builder attaches.
mod Tests
pub mod Session
pub mod Registry
pub mod Logins
pub mod Server
pub mod Payable
pub mod Members
pub mod Turns
pub mod Sessions
pub mod Dialects
pub mod Mining
use p2pearl.Prelude.{
  ℕ, zero, suc, ◌+◌, ◌*◌, ◌/◌, ◌%◌, ◌^◌, Bool, true, false, ◌&&◌, ◌||◌, not, ltb, leb, ◌==◌,
  if◌then◌else◌, Option, none, some, List, [], ◌∷◌, ◌++◌, length, all, take, drop,
}
use p2pearl.Prelude.Result.{Result, ok, raise, value_error, key_error, ◌>>=◌, or_raise}
use p2pearl.Prelude.Keys.{Bytes, Str, bytes_eq, bytes_key}
use p2pearl.Prelude.Dict.{Dict, lookup, insert}
use p2pearl.Prelude.Codec.{from_le}
use p2pearl.Prelude.Hex.{hex, from_hex, hex_width}
use p2pearl.P2p.{evict}

-- `_VALID_HRPS`: prl1, tprl1, sprl1, rprl1
abbrev pub valid_hrps : List Str
valid_hrps =
    (112 ∷ 114 ∷ 108 ∷ 49 ∷ [])
    ∷ (116 ∷ 112 ∷ 114 ∷ 108 ∷ 49 ∷ [])
    ∷ (115 ∷ 112 ∷ 114 ∷ 108 ∷ 49 ∷ [])
    ∷ (114 ∷ 112 ∷ 114 ∷ 108 ∷ 49 ∷ [])
    ∷ []

-- `_BECH32_CHARSET`: qpzry9x8gf2tvdw0s3jn54khce6mua7l
abbrev pub bech32_charset : List ℕ
bech32_charset =
    113 ∷ 112 ∷ 122 ∷ 114 ∷ 121 ∷ 57 ∷ 120 ∷ 56 ∷ 103 ∷ 102 ∷ 50 ∷ 116 ∷ 118 ∷ 100 ∷ 119 ∷ 48 ∷ 115
    ∷ 51 ∷ 106 ∷ 110 ∷ 53 ∷ 52 ∷ 107 ∷ 104 ∷ 99 ∷ 101 ∷ 54 ∷ 109 ∷ 117 ∷ 97 ∷ 55 ∷ 108 ∷ []

unfoldable pub one_of : List ℕ → ℕ → Bool
one_of [] c = false
one_of (x ∷ xs) c = (c == x) || one_of xs c

-- `raw.partition(".")`, without the separator
unfoldable pub partition_dot : Str → Str × Str
partition_dot [] = ([], [])
partition_dot (c ∷ cs) =
    let (before, after) = partition_dot cs in if c == 46 then ([], cs) else (c ∷ before, after)

unfoldable pub starts_with : Str → Str → Bool
starts_with [] s = true
starts_with (p ∷ ps) [] = false
starts_with (p ∷ ps) (c ∷ cs) = (p == c) && starts_with ps cs

-- `next((h for h in hrps if addr.startswith(h)), None)`
unfoldable pub find_hrp : List Str → Str → Option Str
find_hrp [] addr = none
find_hrp (h ∷ hs) addr = if starts_with h addr then some h else find_hrp hs addr

-- `label or "default"`
abbrev pub or_default : Str → Str
or_default [] = 100 ∷ 101 ∷ 102 ∷ 97 ∷ 117 ∷ 108 ∷ 116 ∷ []
or_default (c ∷ cs) = c ∷ cs

abbrev pub is_empty : Str → Bool
is_empty [] = true
is_empty (c ∷ cs) = false

-- Whether the part of an address after its prefix is plausible.
abbrev pub is_payload : Str → Bool
is_payload payload = not (is_empty payload) && all (one_of bech32_charset) payload

unfoldable pub parse_worker : Str → Option Str × Str
parse_worker raw =
    let (addr, label) = partition_dot raw in
    elim (find_hrp valid_hrps addr) [
      | none ↦ (none, raw)
      | some hrp ↦
          if leb 50 (length addr) && leb (length addr) 100 && is_payload (drop (length hrp) addr)
          then (some addr, or_default label)
          else (none, raw)
    ]

pub data Dialect : Type 0 where
  object positional : Dialect

pub record StratumJob (C : Type 0) : Type 0 where
  pub job_id : Str
  pub incomplete_header_hex : Str
  pub share_target : ℕ
  pub height : ℕ
  pub context : Option C

-- The parameters of a `mining.notify`, in either dialect.
pub data Notify : Type 0 where
  notify_list : Str → Str → Str → Str → Str → Bool → Notify
  notify_object : Str → Str → Str → ℕ → Notify

-- `notify_params`; a header that is no hex raises where it is read.
unfoldable pub notify_params : {C : Type 0} → StratumJob C → Dialect → Bool → Result Notify
notify_params job positional clean = do
  header ← or_raise (from_hex job.incomplete_header_hex) value_error
  ok (
      notify_list job.job_id (hex (take 32 (drop 4 header))) job.incomplete_header_hex
        (hex_width 8 (from_le (take 4 (drop 68 header))))
        (hex_width 8 (from_le (take 4 (drop 72 header)))) clean)
notify_params job object clean =
    ok (
      notify_object job.job_id job.incomplete_header_hex (hex_width 64 job.share_target) job.height)

pub record JobRegistry (C : Type 0) : Type 0 where
  pub jobs : Dict Str (StratumJob C)
  pub seq : ℕ
  pub max_size : ℕ

-- `f"{height & 0xFFFFFFFF:08x}-{seq:04x}"`
abbrev pub job_id_of : ℕ → ℕ → Str
job_id_of height seq = hex_width 8 (height % 2 ^ 32) ++ (45 ∷ hex_width 4 seq)

-- What a job builder returns: header, share target, height and context.
pub record JobSpec (C : Type 0) : Type 0 where
  pub header_hex : Str
  pub target : ℕ
  pub at_height : ℕ
  pub attached : Option C

abbrev pub job_of : {C : Type 0} → JobSpec C → Str → StratumJob C
job_of spec id = record {
  job_id = id;
  incomplete_header_hex = spec.header_hex;
  share_target = spec.target;
  height = spec.at_height;
  context = spec.attached;
}

unfoldable pub mint : {C : Type 0} → JobSpec C → JobRegistry C → StratumJob C × JobRegistry C
mint spec r =
    let seq = (r.seq + 1) % 2 ^ 16 in
    let id = job_id_of spec.at_height seq in
    let job = job_of spec id in
    (job, record r { jobs = evict r.max_size (insert id job r.jobs); seq = seq })

-- `JobRegistry.get`
abbrev pub get_job : {C : Type 0} → Str → JobRegistry C → Option (StratumJob C)
get_job id r = lookup id r.jobs

-- `latest`: the last job in the order of insertion
unfoldable pub last_value : {C : Type 0} → Dict Str (StratumJob C) → Option (StratumJob C)
last_value [] = none
last_value ((id, job) ∷ []) = some job
last_value (e ∷ f ∷ d) = last_value (f ∷ d)

abbrev pub latest : {C : Type 0} → JobRegistry C → Option (StratumJob C)
latest r = last_value r.jobs

-- The parameters of a request: an object with string fields, a list of strings, or neither.
pub data Params : Type 0 where
  fields : Dict Str Str → Params
  items : List Str → Params
  neither : Params
