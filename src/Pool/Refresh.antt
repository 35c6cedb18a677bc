-- ===== src/Pool/Refresh.antt =====
-- How p2pearl/daemon.py keeps the miners' jobs up to date: the loop that polls the parent node, and
-- the coalescing of refreshes. Time is counted in nanoseconds.
use p2pearl.Prelude.{
  ℕ, ◌+◌, ◌-◌, ◌*◌, Bool, true, false, not, leb, if◌then◌else◌, Option, none, some, ◌≡◌, ◌⊎◌, inr,
  refl, arith,
}
use p2pearl.Prelude.Keys.{Bytes, bytes_key}
use p2pearl.Config.{share_target_time_seconds}
use p2pearl.Pool.{ParentTemplate, PoolNode, set_template}

-- The task of `_run_stratum_refresh`: none, created and not run yet, or awaiting a refresh, which
-- builds its jobs for the template that it found.
pub data Task : Type 0 where
  none_running created : Task
  refreshing : Option ParentTemplate → Task

-- A pool node with its refresh task and the variables of `run`. `served` is the template of the last
-- refresh that came to its end, and `failed` says whether the last task ended by an exception.
pub record Daemon : Type 0 where
  pub node : PoolNode
  pub task : Task
  pub refresh_again : Bool
  pub last_job_refresh_at : ℕ
  pub last_prev : Option Bytes
  pub rpc_failures : ℕ
  pub served : Option ParentTemplate
  pub failed : Bool

-- `_request_stratum_refresh`, with a stratum server set
unfoldable pub request_stratum_refresh : ℕ → Daemon → Daemon
request_stratum_refresh now d = elim d.task [
  | none_running ↦ record d { last_job_refresh_at = now; task = created }
  | created ↦ record d { last_job_refresh_at = now; refresh_again = true }
  | refreshing t ↦ record d { last_job_refresh_at = now; refresh_again = true }
]

abbrev begin_round : Daemon → Daemon
begin_round d = record d { refresh_again = false; task = refreshing d.node.template }

-- The task runs up to its next `await`, or to its end.
unfoldable pub resume : Daemon → Daemon
resume d = elim d.task [
  | none_running ↦ d
  | created ↦ begin_round d
  | refreshing t ↦
      let ended : Daemon = record d { served = t; failed = false } in
      if d.refresh_again then begin_round ended else record ended { task = none_running }
]

-- The refresh raises: the `finally` block forgets the task.
unfoldable pub break_off : Daemon → Daemon
break_off d = elim d.task [
  | none_running ↦ d
  | created ↦ d
  | refreshing t ↦ record d { task = none_running; failed = true }
]

-- `template.prev_block != last_prev`
abbrev moved : ParentTemplate → Option Bytes → Bool
moved t none = true
moved t (some prev) = not (bytes_key.beq t.prev_block prev)

abbrev install : ℕ → ParentTemplate → Daemon → Daemon
install now t d = request_stratum_refresh now (record d { node = set_template t d.node })

-- One round of `run`: an RPC failure, or a template.
unfoldable pub poll : ℕ → Option ParentTemplate → Daemon → Daemon
poll now none d = record d { rpc_failures = d.rpc_failures + 1 }
poll now (some t) d =
    let back : Daemon = record d { rpc_failures = 0 } in
    if moved t d.last_prev
    then install now t (record back { last_prev = some t.prev_block })
    else if leb (share_target_time_seconds * 1_000_000_000) (now - d.last_job_refresh_at)
    then install now t back
    else back

-- A step of the daemon: a poll, a request from a share that was added, and the task's progress.
pub data Step (d : Daemon) : Daemon → Type 0 where
  polled : (now : ℕ) (answer : Option ParentTemplate) → Step d (poll now answer d)
  requested : (now : ℕ) → Step d (request_stratum_refresh now d)
  resumed : Step d (resume d)
  broken : Step d (break_off d)

pub data Reach (d : Daemon) : Daemon → Type 0 where
  here : Reach d d
  next : {a b : Daemon} → Reach d a → Step a b → Reach d b

-- The jobs are those of the node's template, unless a refresh failed, one is on its way, or another
-- round is due.
abbrev pub IsCurrent : Task → Daemon → Type 0
IsCurrent none_running d = (d.failed ≡ true) ⊎ (d.served ≡ d.node.template)
IsCurrent created d = Unit {0}
IsCurrent (refreshing t) d = (d.refresh_again ≡ true) ⊎ (t ≡ d.node.template)

request-IsCurrent :
    (now : ℕ) (d : Daemon) → let d' = request_stratum_refresh now d in IsCurrent d'.task d'
unfolding request_stratum_refresh
request-IsCurrent now d = ground arith

poll-IsCurrent :
    (now : ℕ) (answer : Option ParentTemplate) (d : Daemon)
    → IsCurrent d.task d
    → let d' = poll now answer d in IsCurrent d'.task d'
unfolding poll request_stratum_refresh
poll-IsCurrent now none d c = ground arith
poll-IsCurrent now (some t) d c = ground arith

resume-IsCurrent : (d : Daemon) → IsCurrent d.task d → let d' = resume d in IsCurrent d'.task d'
unfolding resume
resume-IsCurrent d c = ground arith

break_off-IsCurrent :
    (d : Daemon) → IsCurrent d.task d → let d' = break_off d in IsCurrent d'.task d'
unfolding break_off
break_off-IsCurrent d c = ground arith

Step-IsCurrent : {a b : Daemon} → IsCurrent a.task a → Step a b → IsCurrent b.task b
Step-IsCurrent {a} c (polled now answer) = poll-IsCurrent now answer a c
Step-IsCurrent {a} c (requested now) = request-IsCurrent now a
Step-IsCurrent {a} c resumed = resume-IsCurrent a c
Step-IsCurrent {a} c broken = break_off-IsCurrent a c

-- The daemon before its first poll, when no miner has a job.
abbrev pub opened : PoolNode → Daemon
opened n = record {
  node = n;
  task = none_running;
  refresh_again = false;
  last_job_refresh_at = 0;
  last_prev = none;
  rpc_failures = 0;
  served = n.template;
  failed = false;
}

Reach-IsCurrent : (n : PoolNode) {d : Daemon} → Reach (opened n) d → IsCurrent d.task d
Reach-IsCurrent n here = inr refl
Reach-IsCurrent n (next r s) = Step-IsCurrent (Reach-IsCurrent n r) s

-- The task is at rest, and the jobs are those of the template, unless the last task failed.
pub record IsSettled (template : Option ParentTemplate) (d : Daemon) : Type 0 where
  pub at_rest : d.task ≡ none_running
  pub current : (d.failed ≡ true) ⊎ (d.served ≡ template)

resume_thrice :
    (d : Daemon) → IsCurrent d.task d → IsSettled d.node.template (resume (resume (resume d)))
unfolding resume
resume_thrice d c = ground arith

-- No request for fresh jobs is lost: whatever polls, requests and failures came before, three more
-- runs of the refresh task bring it to rest, and then the miners' jobs are those of the node's
-- current template, unless the last task was ended by an exception.
pub resume-IsSettled :
    (n : PoolNode) {d : Daemon}
    → Reach (opened n) d
    → IsSettled d.node.template (resume (resume (resume d)))
resume-IsSettled n {d} r = resume_thrice d (Reach-IsCurrent n r)
