-- ===== src/Stratum/Sessions.antt =====
-- What holds of the sessions of p2pearl/stratum/server.py over any history.
use p2pearl.Prelude.{
  inl, inr, ℕ, ◌+◌, ◌<◌, true, if◌then◌else◌, if-elim, Option, none, some, List, [], ◌∷◌, ◌≡◌,
  subst, arith, Option-cases, All, all,
}
use p2pearl.Prelude.Keys.{Str}
use p2pearl.Stratum.{mint}
use p2pearl.Stratum.Registry.{IsRegistry, mint-IsRegistry}
use p2pearl.Stratum.Session.{Conn, Request, Turn, dispatch_request, update_job}
use p2pearl.Stratum.Server.{
  StratumServer, Handler, Event, connected, received, ended, refreshed, updated, built_by,
  over_limit, is_line_space, new_server, find_conn, ready_conns, leave, on_refresh, on_update,
  dispatch_line, on_line, serve, after,
}
use p2pearl.Stratum.Payable.{IsPayable}
use p2pearl.Stratum.Members.{
  Ascends, Ascends-new, Ascends-discard, Ascends-put, Payable-new, Payable-discard, Payable-put,
  find_conn-IsPayable,
}
use p2pearl.Stratum.Turns.{dispatch_request-IsTurn, broadcast_jobs-IsRegistry}

pub record IsServer {C : Type 0} (s : StratumServer C) : Type 0 where
  pub numbered : Ascends 0 s.conns s.conn_seq
  pub payable : All (λ c. IsPayable c.worker_address) s.conns
  pub jobs : IsRegistry s.registry

module _ {C : Type 0} (on_submit : Handler C) (parse_request : Str → Option Request) where
  new_conn-IsServer :
      (s : StratumServer C) → IsServer s → IsServer (serve on_submit parse_request connected s).0
  unfolding serve
  new_conn-IsServer s k = record {
    numbered = Ascends-new 0 s.conns s.conn_seq k.numbered;
    payable = Payable-new (s.conn_seq + 1) s.conns k.payable;
    jobs = k.jobs;
  }

  leave-IsServer : (n : ℕ) (s : StratumServer C) → IsServer s → IsServer (leave n s).0
  leave-IsServer n s k = record {
    numbered = Ascends-discard n 0 s.conns s.conn_seq k.numbered;
    payable = Payable-discard n s.conns k.payable;
    jobs = k.jobs;
  }

  dispatch_line-IsServer :
      (c : Conn) (line : Str) (s : StratumServer C)
      → IsPayable c.worker_address
      → IsServer s
      → IsServer (dispatch_line on_submit parse_request c line s).0
  unfolding dispatch_line
  dispatch_line-IsServer c line s p k =
      let turn : Turn C =
        dispatch_request s.job_builder on_submit (parse_request line) c s.registry in
      let good =
        dispatch_request-IsTurn s.job_builder on_submit (parse_request line) c s.registry p
          k.jobs in
      record {
        numbered = Ascends-put turn.0 0 s.conns s.conn_seq k.numbered;
        payable = Payable-put turn.0 s.conns good.payable k.payable;
        jobs = good.jobs;
      }

  no_conn :
      (n : ℕ) (line : Str) (s : StratumServer C)
      → find_conn n s.conns ≡ none
      → s ≡ (on_line on_submit parse_request n line s).0
  unfolding on_line
  no_conn n line s e = ground (arith, e)

  line_read :
      (n : ℕ) (line : Str) (s : StratumServer C) (c : Conn)
      → find_conn n s.conns ≡ some c
      → (if over_limit line
          then (leave n s).0
          else if all is_line_space line
          then s
          else (dispatch_line on_submit parse_request c line s).0)
        ≡ (on_line on_submit parse_request n line s).0
  unfolding on_line
  line_read n line s c e = ground (arith, e)

  on_line-IsServer :
      (n : ℕ) (line : Str) (s : StratumServer C)
      → IsServer s
      → IsServer (on_line on_submit parse_request n line s).0
  on_line-IsServer n line s k = elim (Option-cases (find_conn n s.conns)) [
    | inl e ↦ subst IsServer (no_conn n line s e) k
    | inr (c, e) ↦
        let p = find_conn-IsPayable n s.conns c e k.payable in
        let dispatched : StratumServer C = (dispatch_line on_submit parse_request c line s).0 in
        subst IsServer (line_read n line s c e) (
          if-elim IsServer (over_limit line) (leave n s).0 _ (λ _. leave-IsServer n s k)
            (λ _.
              if-elim IsServer (all is_line_space line) s dispatched (λ _. k)
                (λ _. dispatch_line-IsServer c line s p k)))
  ]

  serve-IsServer :
      (e : Event C) (s : StratumServer C)
      → IsServer s
      → IsServer (serve on_submit parse_request e s).0
  unfolding serve on_refresh on_update update_job
  serve-IsServer connected s k = new_conn-IsServer s k
  serve-IsServer (received n line) s k = on_line-IsServer n line s k
  serve-IsServer (ended n) s k = leave-IsServer n s k
  serve-IsServer refreshed s k = record {
    numbered = k.numbered;
    payable = k.payable;
    jobs = broadcast_jobs-IsRegistry s.job_builder true (ready_conns s.conns) s.registry k.jobs;
  }
  serve-IsServer (updated spec) s k = record {
    numbered = k.numbered;
    payable = k.payable;
    jobs =
        broadcast_jobs-IsRegistry s.job_builder true (ready_conns s.conns) (mint spec s.registry).1
          (mint-IsRegistry spec s.registry k.jobs).2;
  }
  serve-IsServer (built_by builder) s k = record {
    numbered = k.numbered;
    payable = k.payable;
    jobs = k.jobs;
  }

  after-IsServer_from :
      (es : List (Event C)) (s : StratumServer C)
      → IsServer s
      → IsServer (after on_submit parse_request es s)
  unfolding after
  after-IsServer_from [] s k = k
  after-IsServer_from (e ∷ es) s k =
      after-IsServer_from es (serve on_submit parse_request e s).0 (serve-IsServer e s k)

-- Over any history of a server that keeps at least one job, the connections have numbers of their
-- own, which go up in the order of joining; every session pays nobody or an address that passes
-- the checks; and the registry holds no more jobs than it may, one per id.
pub after-IsServer :
    {C : Type 0} (on_submit : Handler C) (parse_request : Str → Option Request) (job_history : ℕ)
    (es : List (Event C))
    → 0 < job_history
    → IsServer (after on_submit parse_request es (new_server job_history))
after-IsServer on_submit parse_request job_history es h =
    after-IsServer_from on_submit parse_request es (new_server job_history) (record {
      numbered = omega arith;
      payable = tt;
      jobs = record { unique = tt; bounded = omega arith; room = h };
    })
