-- ===== src/Stratum/Mining.antt =====
-- A miner's way through p2pearl/stratum/server.py: it authorizes, is sent a job of its own, and
-- submits a proof for it.
use p2pearl.Prelude.{
  ℕ, true, if◌then◌else◌, Option, some, List, [], ◌∷◌, ◌≡◌, refl, sym, subst, ap, ◌∙◌, arith,
}
use p2pearl.Prelude.Result.{ok}
use p2pearl.Prelude.Keys.{Bytes, Str}
use p2pearl.Prelude.Hex.{from_hex}
use p2pearl.Stratum.{
  or_default, Dialect, StratumJob, Notify, notify_params, JobRegistry, JobSpec, job_of, mint,
  get_job, Params,
}
use p2pearl.Stratum.Logins.{IsAddress}
use p2pearl.Stratum.Registry.{IsRegistry, mint-IsRegistry}
use p2pearl.Stratum.Session.{
  is_base64, Conn, Frame, ack, failure, notify, SubmitResult, code_or_low_diff, mint_job_for,
  push_job, reply_and_push, on_authorize, submit_reply,
}
use p2pearl.Stratum.Dialects.{
  IsLogin, IsSubmission, Login, job_notice, IsLogin-read, IsSubmission-read,
  notify_params-job_notice,
}
use p2pearl.Stratum.Server.{Handler}

-- The session of a miner with an address.
abbrev pub authorized_as : Dialect → Str → Str → Conn → Conn
authorized_as dialect addr label c = record c {
  dialect = dialect;
  authorized = true;
  worker_address = some addr;
  worker_label = label;
}

abbrev pub answer : ℕ → SubmitResult → Frame
answer id result =
    if result.accepted then ack id else failure (some id) (code_or_low_diff result.error_code)

module _ {C : Type 0} (build : Option Str → Str → Option (JobSpec C)) where
  push_own :
      (dialect : Dialect) (addr label : Str) (c : Conn) (r : JobRegistry C) (spec : JobSpec C)
      (notice : Notify)
      → build (some addr) label ≡ some spec
      → notify_params (mint spec r).0 dialect true ≡ ok notice
      → push_job (some build) true (authorized_as dialect addr label c) r
        ≡ ((mint spec r).1, ok (notify notice ∷ []))
  unfolding push_job mint_job_for
  push_own dialect addr label c r spec notice e shown = ground (arith, e, shown)

  reply_and_push_own :
      (id : ℕ) (dialect : Dialect) (addr label : Str) (c : Conn) (r : JobRegistry C)
      (spec : JobSpec C) (notice : Notify)
      → build (some addr) label ≡ some spec
      → notify_params (mint spec r).0 dialect true ≡ ok notice
      → reply_and_push (some build) id (ack id) (authorized_as dialect addr label c) r
        ≡ (authorized_as dialect addr label c, (mint spec r).1, ack id ∷ notify notice ∷ [])
  unfolding reply_and_push
  reply_and_push_own id dialect addr label c r spec notice e shown =
      ground (arith, push_own dialect addr label c r spec notice e shown)

  on_authorize_own :
      (id : ℕ) (dialect : Dialect) (addr label : Str) (params : Params) (c : Conn)
      (r : JobRegistry C) (spec : JobSpec C) (notice : Notify)
      → Login addr label params dialect
      → build (some addr) label ≡ some spec
      → notify_params (mint spec r).0 dialect true ≡ ok notice
      → on_authorize (some build) id params c r
        ≡ (authorized_as dialect addr label c, (mint spec r).1, ack id ∷ notify notice ∷ [])
  unfolding on_authorize
  on_authorize_own id dialect addr label params c r spec notice k e shown = ground (
    arith,
    k.parsed,
    k.known_as,
    reply_and_push_own id dialect addr label c r spec notice e shown,
  )

  module _ (on_submit : Handler C) where
    submit_own :
        (id : ℕ) (params : Params) (job_id proof : Str) (c : Conn) (r : JobRegistry C)
        (job : StratumJob C)
        → IsSubmission job_id proof params
        → get_job job_id r ≡ some job
        → is_base64 proof ≡ true
        → submit_reply (some build) on_submit id params c r
          ≡ answer id (on_submit c.worker_address c.worker_label job proof)
    unfolding submit_reply
    submit_own id params job_id proof c r job sub found valid =
        ground (arith, IsSubmission-read sub, found, valid)

-- A job, what a miner that authorizes is sent, and what it gets when it submits a proof for it.
pub record IsServed {C : Type 0} (spec : JobSpec C) (job : StratumJob C) (notice : Notify)
    (told : List Frame) (got : Frame) (id next : ℕ) (result : SubmitResult) : Type 0 where
  pub as_built : job ≡ job_of spec job.job_id
  pub notified : told ≡ ack id ∷ notify notice ∷ []
  pub answered : got ≡ answer next result

-- A miner that authorizes with an address, by a message of either dialect, is acknowledged and sent
-- the notice, in its dialect, of the job that the builder makes for this address and worker, whose
-- header is hex; and a proof of valid base64 that it submits next under the id of that job, by a
-- message of either dialect, goes to the submit handler with the address, the worker and the job,
-- and the miner gets the handler's answer.
pub on_authorize-IsServed :
    {C : Type 0} (build : Option Str → Str → Option (JobSpec C)) (on_submit : Handler C)
    (id next : ℕ) (addr name proof : Str) (dialect : Dialect) (login submission : Params)
    (header : Bytes) (c : Conn) (r : JobRegistry C) (spec : JobSpec C)
    → IsRegistry r
    → IsAddress addr
    → IsLogin addr name login dialect
    → build (some addr) (or_default name) ≡ some spec
    → from_hex spec.header_hex ≡ some header
    → IsSubmission (mint spec r).0.job_id proof submission
    → is_base64 proof ≡ true
    → let job = (mint spec r).0 in
      let turn = on_authorize (some build) id login c r in
      IsServed spec job
        (job_notice dialect header job)
        turn.2
        (submit_reply (some build) on_submit next submission turn.0 turn.1)
        id
        next
        (on_submit (some addr) (or_default name) job proof)
on_authorize-IsServed build on_submit id next addr name proof dialect login submission header c r
      spec k a l e read sub valid =
    let job = (mint spec r).0 in
    let label = or_default name in
    let notice = job_notice dialect header job in
    let (found, made, _) = mint-IsRegistry spec r k in
    let shown : notify_params job dialect true ≡ ok notice =
      notify_params-job_notice dialect header job
        (ap (λ j. from_hex j.incomplete_header_hex) made ∙ read) in
    subst
      (λ t.
        IsServed spec job notice t.2 (submit_reply (some build) on_submit next submission t.0 t.1)
          id next (on_submit (some addr) label job proof))
      (sym (
        on_authorize_own build id dialect addr label login c r spec notice (IsLogin-read a l) e
          shown))
      (record {
        as_built = made;
        notified = refl;
        answered =
            submit_own build on_submit next submission job.job_id proof
              (authorized_as dialect addr label c) (mint spec r).1 job sub found valid;
      })
