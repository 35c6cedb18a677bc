-- ===== src/Stratum/Dialects.antt =====
-- The messages of the two dialects that p2pearl/stratum/protocol.py documents: a login, a submission,
-- and the job notice that a miner of the dialect is sent.
use p2pearl.Prelude.{
  true, none, some, List, [], ◌∷◌, ◌++◌, drop, take, ◌≡◌, refl, sym, arith, ap, ◌∙◌,
}
use p2pearl.Prelude.Result.{ok}
use p2pearl.Prelude.Keys.{Bytes, Str, bytes_key}
use p2pearl.Prelude.Dict.{Dict, lookup}
use p2pearl.Prelude.Codec.{from_le}
use p2pearl.Prelude.Hex.{hex, from_hex, hex_width}
use p2pearl.Stratum.{
  Dialect, object, positional, Params, fields, items, or_default, parse_worker, StratumJob, Notify,
  notify_list, notify_object, notify_params,
}
use p2pearl.Stratum.Logins.{IsAddress, parse_worker-full_login}
use p2pearl.Stratum.Session.{
  wallet_field, worker_field, job_id_field, plain_proof, parse_authorize, parse_submit, full_login,
}

-- A login of a miner with an address and a worker's name, which may be empty: an object with the
-- wallet and the worker, and any other fields; or a list that begins with both, joined by a dot, or
-- with the address alone.
pub data IsLogin (addr name : Str) : Params → Dialect → Type 0 where
  object_login :
      {d : Dict Str Str}
      → lookup wallet_field d ≡ some addr
      → lookup worker_field d ≡ some name
      → IsLogin addr name (fields d) object
  object_alone :
      {d : Dict Str Str}
      → lookup wallet_field d ≡ some addr
      → lookup worker_field d ≡ none
      → name ≡ []
      → IsLogin addr name (fields d) object
  positional_login :
      {rest : List Str} → IsLogin addr name (items ((addr ++ (46 ∷ name)) ∷ rest)) positional
  positional_alone :
      {rest : List Str} → name ≡ [] → IsLogin addr name (items (addr ∷ rest)) positional

-- A submission of a proof for a job: an object with both, and any other fields, or a list with the
-- worker in front.
pub data IsSubmission (job_id proof : Str) : Params → Type 0 where
  object_submission :
      {d : Dict Str Str}
      → lookup job_id_field d ≡ some job_id
      → lookup plain_proof d ≡ some proof
      → IsSubmission job_id proof (fields d)
  positional_submission :
      {login : Str} {rest : List Str}
      → IsSubmission job_id proof (items (login ∷ job_id ∷ proof ∷ rest))

-- The job as the dialect shows it; the positional one takes it from the header's bytes: the previous
-- block, the header, the time and the bits.
abbrev pub job_notice : {C : Type 0} → Dialect → Bytes → StratumJob C → Notify
job_notice object header job =
    notify_object job.job_id job.incomplete_header_hex (hex_width 64 job.share_target) job.height
job_notice positional header job =
    notify_list job.job_id (hex (take 32 (drop 4 header))) job.incomplete_header_hex
      (hex_width 8 (from_le (take 4 (drop 68 header))))
      (hex_width 8 (from_le (take 4 (drop 72 header)))) true

-- What the server makes of a login.
pub record Login (addr label : Str) (params : Params) (dialect : Dialect) : Type 0 where
  pub login : Str
  pub name : Str
  pub parsed : parse_authorize params ≡ ok (login, name, dialect)
  pub known_as : parse_worker (full_login login name) ≡ (some addr, label)

full_login-nil : (login : Str) → full_login login [] ≡ login
full_login-nil login = ground arith

pub IsLogin-read :
    {addr name : Str} {params : Params} {dialect : Dialect}
    → IsAddress addr
    → IsLogin addr name params dialect
    → Login addr (or_default name) params dialect
unfolding parse_authorize
IsLogin-read {addr} {name} k (object_login w v) = record {
  login = addr;
  name = name;
  parsed = ground (arith, w, v);
  known_as = (parse_worker-full_login addr name k).0;
}
IsLogin-read {addr} {name} k (object_alone w v e) = record {
  login = addr;
  name = name;
  parsed = ground (arith, w, v, e);
  known_as = (parse_worker-full_login addr name k).0;
}
IsLogin-read {addr} {name} k positional_login = record {
  login = addr ++ (46 ∷ name);
  name = [];
  parsed = refl;
  known_as =
      ap parse_worker (full_login-nil (addr ++ (46 ∷ name)))
      ∙ (parse_worker-full_login addr name k).1;
}
IsLogin-read {addr} {name} k (positional_alone e) = record {
  login = addr;
  name = [];
  parsed = refl;
  known_as = (parse_worker-full_login addr [] k).0 ∙ ap (λ n. (some addr, or_default n)) (sym e);
}

pub IsSubmission-read :
    {job_id proof : Str} {params : Params}
    → IsSubmission job_id proof params
    → parse_submit params ≡ ok (job_id, proof)
unfolding parse_submit
IsSubmission-read (object_submission i p) = ground (arith, i, p)
IsSubmission-read positional_submission = refl

pub notify_params-job_notice :
    {C : Type 0} (dialect : Dialect) (header : Bytes) (job : StratumJob C)
    → from_hex job.incomplete_header_hex ≡ some header
    → notify_params job dialect true ≡ ok (job_notice dialect header job)
unfolding notify_params
notify_params-job_notice object header job read = refl
notify_params-job_notice positional header job read = ground (arith, read)
