-- ===== src/Stratum/Turns.antt =====
-- The handlers of p2pearl/stratum/server.py over the job registry and the connection's address.
use p2pearl.Prelude.{
  ℕ, Bool, true, not, if-elim, Option, none, some, List, [], ◌∷◌, ◌≡◌, subst, arith,
}
use p2pearl.Prelude.Result.{Result, ok, raise}
use p2pearl.Prelude.Keys.{Str}
use p2pearl.Stratum.{parse_worker, StratumJob, JobRegistry, JobSpec, mint, Params}
use p2pearl.Stratum.Registry.{IsRegistry, mint-IsRegistry}
use p2pearl.Stratum.Session.{
  Conn, Request, Frame, Method, configure, subscribe, authorize, submit, challenge_response,
  unknown, ack, subscription, failure, invalid_params_code, ready, Turn, full_login,
  parse_authorize, mint_job_for, push_job, reply_and_push, on_subscribe, on_authorize,
  dispatch_method, dispatch_request, broadcast_jobs,
}
use p2pearl.Stratum.Server.{Handler}
use p2pearl.Stratum.Payable.{IsPayable, parse_worker-IsPayable}

-- What a handler leaves of a connection and the registry.
pub record IsTurn {C : Type 0} (t : Turn C) : Type 0 where
  pub payable : IsPayable t.0.worker_address
  pub jobs : IsRegistry t.1

module _ {C : Type 0} (builder : Option (Option Str → Str → Option (JobSpec C))) where
  mint_job_for-IsRegistry :
      (c : Conn) (r : JobRegistry C) → IsRegistry r → IsRegistry (mint_job_for builder c r).1
  unfolding mint_job_for
  mint_job_for-IsRegistry c r k = elim builder as (λ b. IsRegistry (mint_job_for b c r).1) [
    | none ↦ k
    | some build ↦
        elim (build c.worker_address c.worker_label)
          as (λ o.
            IsRegistry
              (elim o as (λ _. Option (StratumJob C) × JobRegistry C) [
                | none ↦ (none, r)
                | some spec ↦ let (job, r') = mint spec r in (some job, r')
              ]).1) [ none ↦ k | some spec ↦ (mint-IsRegistry spec r k).2 ]
  ]

  push_job-IsRegistry :
      (clean : Bool) (c : Conn) (r : JobRegistry C)
      → IsRegistry r
      → IsRegistry (push_job builder clean c r).0
  unfolding push_job
  push_job-IsRegistry clean c r k =
      if-elim (λ (x : JobRegistry C × Result (List Frame)). IsRegistry x.0) (not (ready c))
        (r, ok []) _ (λ _. k) (λ _. mint_job_for-IsRegistry c r k)

  reply_and_push_parts :
      (id : ℕ) (reply : Frame) (c : Conn) (r : JobRegistry C)
      → (c ≡ (reply_and_push builder id reply c r).0)
        × ((push_job builder true c r).0 ≡ (reply_and_push builder id reply c r).1)
  unfolding reply_and_push
  reply_and_push_parts id reply c r = ground arith

  reply_and_push-IsTurn :
      (id : ℕ) (reply : Frame) (c : Conn) (r : JobRegistry C)
      → IsPayable c.worker_address
      → IsRegistry r
      → IsTurn (reply_and_push builder id reply c r)
  reply_and_push-IsTurn id reply c r p k =
      let (same, pushed) = reply_and_push_parts id reply c r in
      record {
        payable = subst (λ x. IsPayable x.worker_address) same p;
        jobs = subst IsRegistry pushed (push_job-IsRegistry true c r k);
      }

  on_authorize-IsTurn :
      (id : ℕ) (params : Params) (c : Conn) (r : JobRegistry C)
      → IsPayable c.worker_address
      → IsRegistry r
      → IsTurn (on_authorize builder id params c r)
  unfolding on_authorize
  on_authorize-IsTurn id params c r p k =
      elim (parse_authorize params)
        as (λ x. IsTurn (elim x as (λ _. Turn C) [
          | raise e ↦ (c, r, failure (some id) invalid_params_code ∷ [])
          | ok (login, name, dialect) ↦
              let (address, label) = parse_worker (full_login login name) in
              reply_and_push builder id (ack id)
                (record c {
                  dialect = dialect;
                  authorized = true;
                  worker_address = address;
                  worker_label = label;
                })
                r
        ])) [
          | raise e ↦ record { payable = p; jobs = k }
          | ok (login, name, dialect) ↦
              reply_and_push-IsTurn id (ack id) _ r (parse_worker-IsPayable (full_login login name))
                k
        ]

  module _ (on_submit : Handler C) where
    dispatch_method-IsTurn :
        (m : Method) (id : ℕ) (params : Params) (c : Conn) (r : JobRegistry C)
        → IsPayable c.worker_address
        → IsRegistry r
        → IsTurn (dispatch_method builder on_submit m id params c r)
    unfolding dispatch_method on_subscribe
    dispatch_method-IsTurn configure id params c r p k = record { payable = p; jobs = k }
    dispatch_method-IsTurn subscribe id params c r p k =
        reply_and_push-IsTurn id (subscription id c.conn_id) _ r p k
    dispatch_method-IsTurn authorize id params c r p k = on_authorize-IsTurn id params c r p k
    dispatch_method-IsTurn submit id params c r p k = record { payable = p; jobs = k }
    dispatch_method-IsTurn challenge_response id params c r p k = record { payable = p; jobs = k }
    dispatch_method-IsTurn unknown id params c r p k = record { payable = p; jobs = k }

    pub dispatch_request-IsTurn :
        (q : Option Request) (c : Conn) (r : JobRegistry C)
        → IsPayable c.worker_address
        → IsRegistry r
        → IsTurn (dispatch_request builder on_submit q c r)
    unfolding dispatch_request
    dispatch_request-IsTurn none c r p k = record { payable = p; jobs = k }
    dispatch_request-IsTurn (some q) c r p k = dispatch_method-IsTurn q.method q.id q.params c r p k

  pub broadcast_jobs-IsRegistry :
      (clean : Bool) (cs : List Conn) (r : JobRegistry C)
      → IsRegistry r
      → IsRegistry (broadcast_jobs builder clean cs r).1
  unfolding broadcast_jobs
  broadcast_jobs-IsRegistry clean [] r k = k
  broadcast_jobs-IsRegistry clean (c ∷ cs) r k =
      broadcast_jobs-IsRegistry clean cs (push_job builder clean c r).0
        (push_job-IsRegistry clean c r k)
