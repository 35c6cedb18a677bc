-- ===== src/Stratum/Tests.antt =====
-- Runs of the stratum server's model on small inputs, and its theorems at concrete ones.
use p2pearl.Prelude.{
  ℕ, zero, suc, ◌+◌, ◌≡◌, refl, Bool, true, false, Option, none, some, List, [], ◌∷◌, ◌++◌,
  replicate, drop, arith,
}
use p2pearl.Prelude.Keys.{Str, bytes_key, bytes_eq}
use p2pearl.Prelude.Dict.{lookup, insert}
use p2pearl.Prelude.Hex.{hex_width, from_hex}
use p2pearl.P2p.{evict}
use p2pearl.Stratum.{
  parse_worker, or_default, JobRegistry, JobSpec, StratumJob, mint, get_job, items, fields, Params,
  object, positional, notify_object, partition_dot, find_hrp, starts_with, one_of, notify_params,
}
use p2pearl.Stratum.Session.{
  is_base64, is_base64_text, on_authorize, submit_reply, Request, authorize, notify,
  dispatch_request, dispatch_method, parse_authorize, reply_and_push, push_job, mint_job_for,
  broadcast_jobs,
}
use p2pearl.Stratum.Server.{
  Handler, Event, connected, received, ended, refreshed, built_by, Sent, StratumServer, new_conn,
  new_server, after, on_refresh, serve, on_line, dispatch_line, find_conn, put_conn, ready_conns,
}
use p2pearl.Stratum.Sessions.{IsServer, after-IsServer}
use p2pearl.Prelude.Text.{codes}
use p2pearl.Stratum.Dialects.{
  IsLogin, IsSubmission, object_login, positional_login, object_submission, job_notice,
}
use p2pearl.Stratum.Mining.{IsServed, on_authorize-IsServed}
use p2pearl.Stratum.Registry.{IsRegistry}
use p2pearl.Stratum.Logins.{IsAddress}

abbrev registry : JobRegistry ℕ
registry = record { jobs = []; seq = 65_535; max_size = 16 }

abbrev spec : JobSpec ℕ
spec = record { header_hex = 48 ∷ 48 ∷ []; target = 1_000; at_height = 255; attached = some 3 }

-- The sequence number wraps: the id is 000000ff-0000.
wrapped_id :
    (mint spec registry).0.job_id
    ≡ 48 ∷ 48 ∷ 48 ∷ 48 ∷ 48 ∷ 48 ∷ 102 ∷ 102 ∷ 45 ∷ 48 ∷ 48 ∷ 48 ∷ 48 ∷ []
unfolding mint p2pearl.Prelude.Hex.hex_width
wrapped_id = refl

-- prl1 and 58 times q.
abbrev address : Str
address = 112 ∷ 114 ∷ 108 ∷ 49 ∷ replicate 58 113

address-IsAddress : IsAddress address
unfolding p2pearl.Stratum.one_of p2pearl.Stratum.find_hrp p2pearl.Stratum.starts_with
address-IsAddress = record {
  no_dot = refl;
  hrp = 112 ∷ 114 ∷ 108 ∷ 49 ∷ [];
  prefixed = refl;
  long = omega arith;
  short = omega arith;
  payload = refl;
}

-- A builder that makes every miner a job, a handler that accepts, and a miner that authorizes with
-- every line.
abbrev build : Option Str → Str → Option (JobSpec ℕ)
build payee label = some spec

abbrev accept : Handler ℕ
accept payee label job plain_proof = record { accepted = true; error_code = none }

abbrev fresh : JobRegistry ℕ
fresh = record { jobs = []; seq = 0; max_size = 16 }

fresh-IsRegistry : IsRegistry fresh
fresh-IsRegistry = record { unique = tt; bounded = omega arith; room = omega arith }

abbrev proof : Str
proof = 65 ∷ 65 ∷ 65 ∷ 61 ∷ []

proof_valid : is_base64 proof ≡ true
unfolding is_base64_text
proof_valid = refl

-- The messages of a miner that speaks the object dialect.
abbrev login : Params
login = fields (
    (codes "wallet", address) ∷ (codes "worker", codes "rig") ∷ (codes "agent", codes "miner") ∷ [])

abbrev job_id : Str
job_id = (mint spec fresh).0.job_id

abbrev submission : Params
submission =
    fields
      ((codes "job_id", job_id) ∷ (codes "plain_proof", proof) ∷ (codes "hs", codes "1.0") ∷ [])

login-IsLogin : IsLogin address (codes "rig") login object
unfolding lookup bytes_eq
login-IsLogin = object_login refl refl

submission-IsSubmission : IsSubmission job_id proof submission
unfolding lookup bytes_eq
submission-IsSubmission = object_submission refl refl

spec_header : from_hex spec.header_hex ≡ some (0 ∷ [])
unfolding from_hex
spec_header = refl

on_authorize-IsServed_example :
    let job = (mint spec fresh).0 in
    let turn = on_authorize (some build) 7 login (new_conn 1) fresh in
    IsServed spec job
      (job_notice object (0 ∷ []) job)
      turn.2
      (submit_reply (some build) accept 8 submission turn.0 turn.1)
      7
      8
      (accept (some address) (or_default (codes "rig")) job proof)
on_authorize-IsServed_example =
    on_authorize-IsServed build accept 7 8 address (codes "rig") proof object login submission
      (0 ∷ []) (new_conn 1) fresh spec fresh-IsRegistry address-IsAddress login-IsLogin refl
      spec_header submission-IsSubmission proof_valid

-- And those of one that speaks the positional dialect.
positional-IsLogin :
    IsLogin address
      (codes "rig")
      (items ((address ++ (46 ∷ codes "rig")) ∷ codes "x" ∷ []))
      positional
positional-IsLogin = positional_login

abbrev authorizes : Str → Option Request
authorizes line = some (record { id = 7; method = authorize; params = login })

-- So many miners connect and authorize.
abbrev join_miners : ℕ → ℕ → List (Event ℕ)
join_miners zero n = []
join_miners (suc more) n = connected ∷ received (n + 1) (65 ∷ []) ∷ join_miners more (n + 1)

after-IsServer_example : IsServer (
    after accept authorizes
      (built_by build ∷ join_miners 2 0 ++ (refreshed ∷ ended 1 ∷ []))
      (new_server 16))
after-IsServer_example =
    after-IsServer accept authorizes 16
      (built_by build ∷ join_miners 2 0 ++ (refreshed ∷ ended 1 ∷ [])) (omega arith)

-- The job of a notification, looked up when the broadcast has ended.
abbrev found_after : StratumServer ℕ × Sent → Option (Option (StratumJob ℕ))
found_after (s, ((n, notify (notify_object id header target height) ∷ frames) ∷ sent)) =
    some (get_job id s.registry)
found_after (s, ((n, frames) ∷ sent)) = none
found_after (s, []) = none

-- With one more miner than the registry has room for, the first miner's job of a refresh is gone when
-- the refresh has ended, and every proof for it is answered with the code for a stale share.
evicted_job :
    found_after
      (on_refresh (after accept authorizes (built_by build ∷ join_miners 17 0) (new_server 16)))
    ≡ some none
unfolding after serve on_line dispatch_line find_conn put_conn ready_conns on_refresh
    dispatch_request dispatch_method on_authorize parse_authorize parse_worker partition_dot
    find_hrp starts_with one_of reply_and_push push_job mint_job_for mint notify_params
    broadcast_jobs lookup insert evict bytes_eq hex_width
evicted_job = refl
