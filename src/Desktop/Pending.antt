-- ===== src/Desktop/Pending.antt =====
-- A start that waits for pearld in the window of p2pearl/gui.py, together with the threads that it
-- waits for.
use p2pearl.Prelude.{◌⊎◌, ℕ, ◌+◌, ◌-◌, ◌<◌, Bool, true, false, [], ◌∷◌, ◌≡◌, arith}
use p2pearl.Prelude.Keys.{Str}
use p2pearl.Desktop.Settings.{Settings}
use p2pearl.Desktop.Panel.{
  Panel, Answers, Effects, Action, Event, started, save_settings, message_box, stats_cleared,
  pearld_started, probe, watch, stop_watch, terminate, test_pearld, click_start, click_demo,
  click_stop, click_test, check, set_manage, choose_network, type_field, event, sync_managed_url,
  spawn, start_watcher, start_pearld, start_node, run_demo, stop, test_connection, on_event,
  check_pearld, act, opened,
}
use p2pearl.Desktop.Buttons.{is_some}

-- The window with its threads: the probes that have not been answered, the reports of a ready pearld
-- that have not been handled, and whether the current watcher still polls.
pub record World : Type 0 where
  pub panel : Panel
  pub probes : ℕ
  pub reports : ℕ
  pub watching : Bool

-- The threads that a handler started or retired.
pub absorb : Effects → World → World
absorb [] x = x
absorb (started args label ∷ es) x = absorb es x
absorb (save_settings s ∷ es) x = absorb es x
absorb (message_box ∷ es) x = absorb es x
absorb (stats_cleared ∷ es) x = absorb es x
absorb (pearld_started args ∷ es) x = absorb es x
absorb (probe s ∷ es) x = absorb es (record x { probes = x.probes + 1 })
absorb (watch s n ∷ es) x = absorb es (record x { watching = true })
absorb (stop_watch n ∷ es) x = absorb es (record x { watching = false })
absorb (terminate n ∷ es) x = absorb es x
absorb (test_pearld s ∷ es) x = absorb es x

pub after : Panel × Effects → World → World
after (p, es) x = absorb es (record x { panel = p })

-- An action that takes no answer of a probe and no report of a watcher.
pub data IsLocal : Action → Type 0 where
  start_local : IsLocal click_start
  demo_local : IsLocal click_demo
  stop_local : IsLocal click_stop
  test_local : IsLocal click_test
  check_local : IsLocal check
  manage_local : {on : Bool} → IsLocal (set_manage on)
  network_local : {n : Str} → IsLocal (choose_network n)
  field_local : {k v : Str} → IsLocal (type_field k v)
  exit_local : IsLocal (event Event.child_exit)
  status_local : IsLocal (event Event.pearld_status)
  result_local : IsLocal (event Event.rpc_result)

-- A step: the user or the window acts, a probe is answered, a report is handled, the current watcher
-- reports and ends, or a retired one reports late.
pub data Step (x : World) : World → Type 0 where
  acts : (w : Answers) {a : Action} → IsLocal a → Step x (after (act w a x.panel) x)
  answered :
      (w : Answers) (found : Bool)
      → 0 < x.probes
      → Step x (
          after
            (act w (event (Event.pearld_probe found)) x.panel)
            (record x { probes = x.probes - 1 }))
  handled :
      (w : Answers) (height : ℕ)
      → 0 < x.reports
      → Step x (
          after
            (act w (event (Event.pearld_ready height)) x.panel)
            (record x { reports = x.reports - 1 }))
  reports_ready :
      x.watching ≡ true → Step x (record x { watching = false; reports = x.reports + 1 })
  reports_late : Step x (record x { reports = x.reports + 1 })

pub data Reach (x : World) : World → Type 0 where
  here : Reach x x
  next : {y z : World} → Reach x y → Step y z → Reach x z

-- While `poll` runs, a start that waits has something to wait for, and so has a managed pearld that
-- is not ready.
pub record IsUnderWay (x : World) : Type 0 where
  pub pending :
      x.panel.polling ≡ true
      → x.panel.pending_node_start ≡ true
      → (0 < x.probes) ⊎ (0 < x.reports) ⊎ (x.watching ≡ true)
  pub syncing :
      x.panel.polling ≡ true
      → is_some x.panel.pearld_proc ≡ true
      → x.panel.pearld_ready ≡ false
      → (0 < x.reports) ⊎ (x.watching ≡ true)

start_node-IsUnderWay :
    (w : Answers) (x : World) → IsUnderWay x → IsUnderWay (after (start_node w x.panel) x)
unfolding after absorb start_node spawn
start_node-IsUnderWay w x u = ground arith

answered-IsUnderWay :
    (w : Answers) (found : Bool) (x : World)
    → IsUnderWay x
    → IsUnderWay (
        after
          (act w (event (Event.pearld_probe found)) x.panel)
          (record x { probes = x.probes - 1 }))
unfolding after absorb act on_event start_pearld start_watcher
answered-IsUnderWay w found x u = ground arith

handled-IsUnderWay :
    (w : Answers) (height : ℕ) (x : World)
    → IsUnderWay x
    → IsUnderWay (
        after
          (act w (event (Event.pearld_ready height)) x.panel)
          (record x { reports = x.reports - 1 }))
unfolding after absorb act on_event spawn
handled-IsUnderWay w height x u = ground arith

acts-IsUnderWay :
    (w : Answers) {a : Action} (x : World)
    → IsLocal a
    → IsUnderWay x
    → IsUnderWay (after (act w a x.panel) x)
unfolding after absorb act on_event check_pearld stop test_connection run_demo spawn
    sync_managed_url
acts-IsUnderWay w x start_local u = ground (arith, start_node-IsUnderWay w x u)
acts-IsUnderWay w x demo_local u = ground arith
acts-IsUnderWay w x stop_local u = ground arith
acts-IsUnderWay w x test_local u = ground arith
acts-IsUnderWay w x check_local u = ground arith
acts-IsUnderWay w x manage_local u = ground arith
acts-IsUnderWay w x network_local u = ground arith
acts-IsUnderWay w x field_local u = record { pending = u.pending; syncing = u.syncing }
acts-IsUnderWay w x exit_local u = ground arith
acts-IsUnderWay w x status_local u = ground arith
acts-IsUnderWay w x result_local u = ground arith

Step-IsUnderWay : {x y : World} → IsUnderWay x → Step x y → IsUnderWay y
Step-IsUnderWay {x} u (acts w l) = acts-IsUnderWay w x l u
Step-IsUnderWay {x} u (answered w found h) = answered-IsUnderWay w found x u
Step-IsUnderWay {x} u (handled w height h) = handled-IsUnderWay w height x u
Step-IsUnderWay u (reports_ready h) = ground arith
Step-IsUnderWay u reports_late = ground arith

-- The window with no thread.
abbrev pub idle : Panel → World
idle p = record { panel = p; probes = 0; reports = 0; watching = false }

opened-IsUnderWay : (available : Bool) (s : Settings) → IsUnderWay (idle (opened available s))
unfolding opened sync_managed_url
opened-IsUnderWay available s = ground arith

-- As long as `poll` is scheduled, a start that waits for pearld is not stranded: in every state of
-- the window and its threads, a probe is out, a watcher is polling, or a report waits to be handled;
-- and a managed pearld that runs and is not ready is watched, or was reported.
pub Reach-IsUnderWay :
    (available : Bool) (s : Settings) {y : World}
    → Reach (idle (opened available s)) y
    → IsUnderWay y
Reach-IsUnderWay available s here = opened-IsUnderWay available s
Reach-IsUnderWay available s (next r st) = Step-IsUnderWay (Reach-IsUnderWay available s r) st
