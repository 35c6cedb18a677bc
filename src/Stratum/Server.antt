-- ===== src/Stratum/Server.antt =====
-- The stratum server of p2pearl/stratum/server.py over its connections: `_on_client` and the loop
-- `run`, `refresh`, `update_job` and `set_job_builder`. The events come in any order; one is a line
-- that a connection reads, or that its reading ends. `parse_request` decodes JSON, and is a parameter.
use p2pearl.Prelude.{
  ℕ, ◌+◌, ◌^◌, Bool, true, false, ◌&&◌, ◌||◌, ltb, leb, ◌==◌, if◌then◌else◌, Option, none, some,
  List, [], ◌∷◌, ◌++◌, length, all,
}
use p2pearl.Prelude.Keys.{Str}
use p2pearl.Stratum.{StratumJob, object, JobRegistry, JobSpec, or_default}
use p2pearl.Stratum.Session.{
  Conn, Request, Frame, SubmitResult, ready, dispatch_request, broadcast_jobs, update_job,
}

-- `READ_LIMIT`
abbrev pub read_limit : ℕ
read_limit = 2 ^ 20

-- The connections stand in the order in which they joined; `sorted` by number keeps it.
pub record StratumServer (C : Type 0) : Type 0 where
  pub conns : List Conn
  pub conn_seq : ℕ
  pub registry : JobRegistry C
  pub job_builder : Option (Option Str → Str → Option (JobSpec C))

-- `StratumServer.__init__`
abbrev pub new_server : {C : Type 0} → ℕ → StratumServer C
new_server job_history = record {
  conns = [];
  conn_seq = 0;
  registry = record { jobs = []; seq = 0; max_size = job_history };
  job_builder = none;
}

-- `_Connection.__init__`
abbrev pub new_conn : ℕ → Conn
new_conn n = record {
  conn_id = n;
  dialect = object;
  subscribed = false;
  authorized = false;
  worker_address = none;
  worker_label = or_default [];
}

unfoldable pub find_conn : ℕ → List Conn → Option Conn
find_conn n [] = none
find_conn n (c ∷ cs) = if c.conn_id == n then some c else find_conn n cs

-- A connection's attributes after a handler.
unfoldable pub put_conn : Conn → List Conn → List Conn
put_conn d [] = []
put_conn d (c ∷ cs) = if c.conn_id == d.conn_id then d ∷ cs else c ∷ put_conn d cs

-- `_conns.discard`
unfoldable pub discard_conn : ℕ → List Conn → List Conn
discard_conn n [] = []
discard_conn n (c ∷ cs) = if c.conn_id == n then cs else c ∷ discard_conn n cs

-- `[conn for conn in conns if conn.ready]`
unfoldable pub ready_conns : List Conn → List Conn
ready_conns [] = []
ready_conns (c ∷ cs) = if ready c then c ∷ ready_conns cs else ready_conns cs

-- `not line.strip()`, on bytes
abbrev pub is_line_space : ℕ → Bool
is_line_space c = (c == 32) || (leb 9 c && leb c 13)

-- `readuntil` raises where the newline stands beyond the limit, behind the first byte.
abbrev pub over_limit : Str → Bool
over_limit line = ltb (read_limit + 2) (length line)

pub data Event (C : Type 0) : Type 0 where
  connected : Event C
  received : ℕ → Str → Event C
  ended : ℕ → Event C
  refreshed : Event C
  updated : JobSpec C → Event C
  built_by : (Option Str → Str → Option (JobSpec C)) → Event C

-- What is sent, with the number of the connection.
abbrev pub Sent : Type 0
Sent = List (ℕ × List Frame)

-- `SubmitHandler`
abbrev pub Handler : Type 0 → Type 0
Handler C = Option Str → Str → StratumJob C → Str → SubmitResult

module _ {C : Type 0} where
  -- The end of `_on_client`
  abbrev pub leave : ℕ → StratumServer C → StratumServer C × Sent
  leave n s = (record s { conns = discard_conn n s.conns }, [])

  -- `refresh`, with `_broadcast`
  unfoldable pub on_refresh : StratumServer C → StratumServer C × Sent
  on_refresh s =
      let (sent, r) = broadcast_jobs s.job_builder true (ready_conns s.conns) s.registry in
      (record s { registry = r }, sent)

  -- `update_job`
  unfoldable pub on_update : JobSpec C → StratumServer C → StratumServer C × Sent
  on_update spec s =
      let (sent, r) = update_job s.job_builder spec (ready_conns s.conns) s.registry in
      (record s { registry = r }, sent)

  module _ (on_submit : Handler C) (parse_request : Str → Option Request) where
    -- `_dispatch` of a connection's line
    unfoldable pub dispatch_line : Conn → Str → StratumServer C → StratumServer C × Sent
    dispatch_line c line s =
        let (c', r, frames) =
          dispatch_request s.job_builder on_submit (parse_request line) c s.registry in
        (record s { conns = put_conn c' s.conns; registry = r }, (c.conn_id, frames) ∷ [])

    -- One round of `run`
    unfoldable pub on_line : ℕ → Str → StratumServer C → StratumServer C × Sent
    on_line n line s = elim (find_conn n s.conns) [
      | none ↦ (s, [])
      | some c ↦
          if over_limit line
          then leave n s
          else if all is_line_space line
          then (s, [])
          else dispatch_line c line s
    ]

    unfoldable pub serve : Event C → StratumServer C → StratumServer C × Sent
    serve connected s = (
      record s { conns = s.conns ++ (new_conn (s.conn_seq + 1) ∷ []); conn_seq = s.conn_seq + 1 },
      [],
    )
    serve (received n line) s = on_line n line s
    serve (ended n) s = leave n s
    serve refreshed s = on_refresh s
    serve (updated spec) s = on_update spec s
    serve (built_by builder) s = (record s { job_builder = some builder }, [])

    -- The server after a history of events.
    unfoldable pub after : List (Event C) → StratumServer C → StratumServer C
    after [] s = s
    after (e ∷ es) s = after es (serve e s).0
