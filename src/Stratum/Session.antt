-- ===== src/Stratum/Session.antt =====
-- A miner's connection in p2pearl/stratum/server.py: its request handlers, `_dispatch`, and the jobs
-- that are pushed to it, with the request parsers of protocol.py. A send never fails. The submit
-- handler and the job builder are the daemon's, and parameters.
use p2pearl.Prelude.{
  ℕ, zero, suc, ◌%◌, Bool, true, ◌&&◌, ◌||◌, not, leb, ◌==◌, if◌then◌else◌, Option, none, some,
  List, [], ◌∷◌, ◌++◌, length,
}
use p2pearl.Prelude.Result.{Result, ok, raise, value_error, key_error, ◌>>=◌, or_raise}
use p2pearl.Prelude.Keys.{Str, bytes_key}
use p2pearl.Prelude.Dict.{lookup}
use p2pearl.Stratum.{
  one_of, parse_worker, is_empty, Dialect, object, positional, StratumJob, Notify, notify_params,
  JobRegistry, JobSpec, mint, get_job, latest, Params, fields, items, neither,
}
use mathlib.Core.Option

abbrev pub stale_share_code : ℕ
stale_share_code = 21

abbrev pub low_diff_code : ℕ
low_diff_code = 23

-- `INVALID_PARAMS_CODE`, which is negative: its absolute value
abbrev pub invalid_params_code : ℕ
invalid_params_code = 32602

-- The field names wallet, worker, job_id and plain_proof.
abbrev pub wallet_field : Str
wallet_field = 119 ∷ 97 ∷ 108 ∷ 108 ∷ 101 ∷ 116 ∷ []

abbrev pub worker_field : Str
worker_field = 119 ∷ 111 ∷ 114 ∷ 107 ∷ 101 ∷ 114 ∷ []

abbrev pub job_id_field : Str
job_id_field = 106 ∷ 111 ∷ 98 ∷ 95 ∷ 105 ∷ 100 ∷ []

abbrev pub plain_proof : Str
plain_proof = 112 ∷ 108 ∷ 97 ∷ 105 ∷ 110 ∷ 95 ∷ 112 ∷ 114 ∷ 111 ∷ 111 ∷ 102 ∷ []

-- `parse_authorize`
unfoldable pub parse_authorize : Params → Result (Str × Str × Dialect)
parse_authorize (fields d) =
    ok (Option.get_or (lookup wallet_field d) [], Option.get_or (lookup worker_field d) [], object)
parse_authorize (items []) = raise value_error
parse_authorize (items (login ∷ rest)) = ok (login, [], positional)
parse_authorize neither = raise value_error

-- `parse_submit`
unfoldable pub parse_submit : Params → Result (Str × Str)
parse_submit (fields d) = do
  job_id ← or_raise (lookup job_id_field d) key_error
  proof ← or_raise (lookup plain_proof d) key_error
  ok (job_id, proof)
parse_submit (items (name ∷ job_id ∷ proof ∷ rest)) = ok (job_id, proof)
parse_submit (items (name ∷ job_id ∷ [])) = raise value_error
parse_submit (items (name ∷ [])) = raise value_error
parse_submit (items []) = raise value_error
parse_submit neither = raise value_error

-- `base64.b64decode(s, validate=True)` succeeds: letters, digits, + and /, with up to two = at the
-- end, and a multiple of four of them all.
abbrev pub is_base64_char : ℕ → Bool
is_base64_char c =
    (leb 65 c && leb c 90) || (leb 97 c && leb c 122) || (leb 47 c && leb c 57) || (c == 43)

unfoldable pub is_base64_text : Str → Bool
is_base64_text [] = true
is_base64_text (c ∷ []) = is_base64_char c || (c == 61)
is_base64_text (c ∷ d ∷ []) =
    (is_base64_char c && (is_base64_char d || (d == 61))) || ((c == 61) && (d == 61))
is_base64_text (c ∷ d ∷ e ∷ cs) = is_base64_char c && is_base64_text (d ∷ e ∷ cs)

abbrev pub is_base64 : Str → Bool
is_base64 s = (length s % 4 == 0) && is_base64_text s

pub record Conn : Type 0 where
  pub conn_id : ℕ
  pub dialect : Dialect
  pub subscribed : Bool
  pub authorized : Bool
  pub worker_address : Option Str
  pub worker_label : Str

-- `ready`
abbrev pub ready : Conn → Bool
ready c = c.authorized || c.subscribed

pub data Method : Type 0 where
  configure subscribe authorize submit challenge_response unknown : Method

-- A request, with the number that stands for its id.
pub record Request : Type 0 where
  pub id : ℕ
  pub method : Method
  pub params : Params

-- What is sent: an acknowledgement (with the tag of a subscription where it has one), an error with
-- its code, or a job.
pub data Frame : Type 0 where
  ack : ℕ → Frame
  subscription : ℕ → ℕ → Frame
  failure : Option ℕ → ℕ → Frame
  notify : Notify → Frame

pub record SubmitResult : Type 0 where
  pub accepted : Bool
  pub error_code : Option ℕ

-- `result.error_code or P.LOW_DIFF_CODE`
abbrev pub code_or_low_diff : Option ℕ → ℕ
code_or_low_diff none = low_diff_code
code_or_low_diff (some zero) = low_diff_code
code_or_low_diff (some (suc n)) = suc n

-- The end of a handler: the connection, the registry, and what is sent.
abbrev pub Turn : Type 0 → Type 0
Turn C = Conn × JobRegistry C × List Frame

-- `login if ("." in login or not worker) else f"{login}.{worker}"`
abbrev pub full_login : Str → Str → Str
full_login login name = if one_of login 46 || is_empty name then login else login ++ (46 ∷ name)

module _ {C : Type 0} (builder : Option (Option Str → Str → Option (JobSpec C))) where
  -- `_mint_job_for`
  unfoldable pub mint_job_for : Conn → JobRegistry C → Option (StratumJob C) × JobRegistry C
  mint_job_for c r = elim builder [
    | none ↦ (latest r, r)
    | some build ↦ elim (build c.worker_address c.worker_label) [
      | none ↦ (none, r)
      | some spec ↦ let (job, r') = mint spec r in (some job, r')
    ]
  ]

  -- `push_job`; a raise is a job whose header cannot be read.
  unfoldable pub push_job : Bool → Conn → JobRegistry C → JobRegistry C × Result (List Frame)
  unfolding mint_job_for
  push_job clean c r =
      if not (ready c)
      then (r, ok [])
      else (let (job, r') = mint_job_for c r in
          (
            r',
            elim job [
              | none ↦ ok []
              | some j ↦ do params ← notify_params j c.dialect clean; ok (notify params ∷ [])
            ],
          ))

  -- A handler that pushes a job after its reply; where that raises, an error is sent as well.
  unfoldable pub reply_and_push : ℕ → Frame → Conn → JobRegistry C → Turn C
  reply_and_push id reply c r =
      let (r', pushed) = push_job true c r in
      elim pushed [
        | raise e ↦ (c, r', reply ∷ failure (some id) invalid_params_code ∷ [])
        | ok frames ↦ (c, r', reply ∷ frames)
      ]

  -- `_handle_subscribe`
  unfoldable pub on_subscribe : ℕ → Conn → JobRegistry C → Turn C
  on_subscribe id c r =
      reply_and_push id (subscription id c.conn_id)
        (record c { dialect = positional; subscribed = true }) r

  -- `_handle_authorize`; bad parameters raise, and the error is sent.
  unfoldable pub on_authorize : ℕ → Params → Conn → JobRegistry C → Turn C
  on_authorize id params c r = elim (parse_authorize params) [
    | raise e ↦ (c, r, failure (some id) invalid_params_code ∷ [])
    | ok (login, name, dialect) ↦
        let (address, label) = parse_worker (full_login login name) in
        reply_and_push id (ack id)
          (record c {
            dialect = dialect;
            authorized = true;
            worker_address = address;
            worker_label = label;
          })
          r
  ]

  module _ (on_submit : Option Str → Str → StratumJob C → Str → SubmitResult) where
    -- `_handle_submit`
    unfoldable pub submit_reply : ℕ → Params → Conn → JobRegistry C → Frame
    submit_reply id params c r = elim (parse_submit params) [
      | raise e ↦ failure (some id) invalid_params_code
      | ok (job_id, proof) ↦ elim (get_job job_id r) [
        | none ↦ failure (some id) stale_share_code
        | some job ↦
            let result = on_submit c.worker_address c.worker_label job proof in
            if not (is_base64 proof)
            then failure (some id) invalid_params_code
            else if result.accepted
            then ack id
            else failure (some id) (code_or_low_diff result.error_code)
      ]
    ]

    -- `_dispatch` of a request that was parsed
    unfoldable pub dispatch_method : Method → ℕ → Params → Conn → JobRegistry C → Turn C
    unfolding on_subscribe on_authorize submit_reply
    dispatch_method configure id params c r = (record c { dialect = positional }, r, ack id ∷ [])
    dispatch_method subscribe id params c r = on_subscribe id c r
    dispatch_method authorize id params c r = on_authorize id params c r
    dispatch_method submit id params c r = (c, r, submit_reply id params c r ∷ [])
    dispatch_method challenge_response id params c r = (c, r, ack id ∷ [])
    dispatch_method unknown id params c r = (c, r, ack id ∷ [])

    -- `_dispatch`, of a line that is no request where there is none
    unfoldable pub dispatch_request : Option Request → Conn → JobRegistry C → Turn C
    unfolding dispatch_method
    dispatch_request none c r = (c, r, failure none invalid_params_code ∷ [])
    dispatch_request (some q) c r = dispatch_method q.method q.id q.params c r

  -- `_broadcast`, over the connections in the order of their numbers: what each is sent, and the
  -- registry. A connection whose push raises is closed and gets nothing.
  unfoldable pub broadcast_jobs :
      Bool → List Conn → JobRegistry C → List (ℕ × List Frame) × JobRegistry C
  broadcast_jobs clean [] r = ([], r)
  broadcast_jobs clean (c ∷ cs) r =
      let (r', pushed) = push_job clean c r in
      let (sent, r'') = broadcast_jobs clean cs r' in
      (elim pushed [ raise e ↦ sent | ok frames ↦ (c.conn_id, frames) ∷ sent ], r'')

  -- `update_job`
  unfoldable pub update_job :
      JobSpec C → List Conn → JobRegistry C → List (ℕ × List Frame) × JobRegistry C
  update_job spec cs r = let (job, r') = mint spec r in broadcast_jobs true cs r'
