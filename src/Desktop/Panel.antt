-- ===== src/Desktop/Panel.antt =====
-- The window of p2pearl/gui.py: its state, its buttons and the events of its threads. What the
-- operating system answers is an argument, and what a handler does beside changing the state is a
-- list of effects, in order. A payload of payouts is a snapshot. The
-- status line, the log and the layout are left out.
use p2pearl.Prelude.{
  ℕ, ◌+◌, Bool, true, false, ◌&&◌, ◌||◌, not, if◌then◌else◌, Option, none, some, List, [], ◌∷◌,
  ◌++◌,
}
use p2pearl.Prelude.Result.{Result, ok, raise}
use p2pearl.Prelude.Keys.{Str, bytes_key, bytes_eq}
use p2pearl.Prelude.Dict.{insert}
use p2pearl.Prelude.Text.{codes, strip}
use p2pearl.Desktop.Settings.{
  Settings, Version, field, managed_rpc_url, normalize_settings, build_daemon_args, pearld_args,
  managed_pearld_too_old,
}

-- `state`, with the buttons that are enabled and the variables of the form, and whether `poll` is
-- scheduled. A watcher is known by the number of its stop event.
pub record Panel : Type 0 where
  pub proc : Option ℕ
  pub proc_label : Str
  pub pearld_proc : Option ℕ
  pub pearld_ready : Bool
  pub watch_stop : Option ℕ
  pub pending_node_start : Bool
  pub next_watcher : ℕ
  pub polling : Bool
  pub start_enabled : Bool
  pub demo_enabled : Bool
  pub stop_enabled : Bool
  pub test_enabled : Bool
  pub manage : Bool
  pub network : Str
  pub fields : Settings

-- What the system answers while a handler runs: the process id of a child, or none for OSError; the
-- installed pearld, where installing it does not raise, and its version; whether the data directory
-- and the console's log can be opened there; and which processes have ended.
pub record Answers : Type 0 where
  pub spawned : Option ℕ
  pub exe : Result (Option Str)
  pub version : Option Version
  pub log_opened : Bool
  pub pearld_spawned : Option ℕ
  pub exited : ℕ → Bool
  pub data_dir : Str

pub data Effect : Type 0 where
  save_settings : Settings → Effect
  message_box stats_cleared : Effect
  started : List Str → Str → Effect
  pearld_started : List Str → Effect
  probe : Settings → Effect
  watch : Settings → ℕ → Effect
  stop_watch : ℕ → Effect
  terminate : ℕ → Effect
  test_pearld : Settings → Effect

abbrev pub Effects : Type 0
Effects = List Effect

unfoldable pub current_settings : Panel → Settings
current_settings p =
    let managed : Str = if p.manage then codes "1" else codes "0" in
    let peers : Str = strip (field p.fields (codes "peers")) in
    normalize_settings (
      insert (codes "network") p.network
        (insert (codes "manage_pearld") managed (insert (codes "peers") peers p.fields)))

-- `_sync_managed_url`
unfoldable pub sync_managed_url : Panel → Panel
sync_managed_url p = elim (managed_rpc_url p.network) [
  | raise e ↦ p
  | ok url ↦ if p.manage then record p { fields = insert (codes "rpc_url") url p.fields } else p
]

unfoldable pub spawn : Answers → List Str → Str → Panel → Panel × Effects
spawn w args label p = elim p.proc [
  | some _ ↦ (p, message_box ∷ [])
  | none ↦ elim w.spawned [
    | none ↦ (p, save_settings (current_settings p) ∷ message_box ∷ [])
    | some pid ↦ (
      record p {
        proc = some pid;
        proc_label = label;
        start_enabled = false;
        demo_enabled = false;
        stop_enabled = true;
      },
      save_settings (current_settings p) ∷ started args label ∷ stats_cleared ∷ [],
    )
  ]
]

abbrev pub stop_current : Option ℕ → Effects
stop_current none = []
stop_current (some w) = stop_watch w ∷ []

-- `_start_watcher`: the watcher before is retired.
unfoldable pub start_watcher : Settings → Panel → Panel × Effects
start_watcher s p = (
  record p { watch_stop = some p.next_watcher; next_watcher = p.next_watcher + 1 },
  stop_current p.watch_stop ++ watch s p.next_watcher ∷ [],
)

abbrev args_or_none : Result (List Str) → List Str
args_or_none (raise e) = []
args_or_none (ok args) = args

-- How `start_pearld` ends: with its answer, or with an OSError.
pub data Start : Type 0 where
  did did_not escaped : Start

abbrev refused_start : Panel → Panel × Effects × Start
refused_start p = (p, message_box ∷ [], did_not)

-- `start_pearld`; installing pearld and opening its log stand outside the source's `try`.
unfoldable pub start_pearld : Answers → Settings → Panel → Panel × Effects × Start
unfolding start_watcher
start_pearld w s p = elim w.exe [
  | raise e ↦ (p, [], escaped)
  | ok none ↦ refused_start (record p { manage = false })
  | ok (some exe) ↦ elim (managed_pearld_too_old w.version) [
    | true ↦ refused_start p
    | false ↦ elim w.log_opened [
      | false ↦ (p, [], escaped)
      | true ↦ elim w.pearld_spawned [
        | none ↦ refused_start p
        | some pid ↦
            let (p', effects) =
              start_watcher s (record p { pearld_proc = some pid; pearld_ready = false }) in
            (p', pearld_started (args_or_none (pearld_args exe s w.data_dir)) ∷ effects, did)
      ]
    ]
  ]
]

-- `pp is not None and pp.poll() is None`
abbrev pub is_running : Answers → Option ℕ → Bool
is_running w none = false
is_running w (some pid) = not (w.exited pid)

abbrev pub node_label : Str
node_label = codes "node"

unfoldable pub start_node : Answers → Panel → Panel × Effects
unfolding spawn
start_node w p =
    let s = current_settings p in
    let waiting = record p { pending_node_start = true; start_enabled = false } in
    if p.manage && not p.pearld_ready
    then if is_running w p.pearld_proc
      then (waiting, save_settings s ∷ [])
      else (waiting, save_settings s ∷ probe s ∷ [])
    else spawn w (build_daemon_args s) node_label p

unfoldable pub run_demo : Answers → Panel → Panel × Effects
unfolding spawn
run_demo w p = spawn w (codes "demo" ∷ []) (codes "demo") p

unfoldable pub stop : Panel → Panel × Effects
stop p = elim p.proc [ none ↦ (p, []) | some pid ↦ (p, terminate pid ∷ []) ]

unfoldable pub test_connection : Panel → Panel × Effects
test_connection p =
    let s = current_settings p in
    (record p { test_enabled = false }, save_settings s ∷ test_pearld s ∷ [])

-- What the threads put into `events`: a line for the log, a payout snapshot, the exit of the child,
-- what a probe found, how far pearld is, that it is ready, and the result of a connection test.
pub data Event : Type 0 where
  log_line payout_stats child_exit pearld_status rpc_result : Event
  pearld_probe : Bool → Event
  pearld_ready : ℕ → Event

abbrev give_up : Panel → Panel
give_up p = record p { pending_node_start = false; start_enabled = true }

-- An OSError leaves `poll`, which is then not scheduled again.
abbrev settled : Start → Panel → Panel
settled did p = p
settled did_not p = give_up p
settled escaped p = record p { polling = false }

abbrev probed : Answers → Panel → Bool → Panel × Effects
probed w p found =
    if not p.pending_node_start
    then (p, [])
    else if found
    then start_watcher (current_settings p) p
    else let (p', effects, done) = start_pearld w (current_settings p) p in
      (settled done p', effects)

abbrev became_ready : Answers → Panel → Panel × Effects
became_ready w p =
    let ready : Panel = record p { pearld_ready = true } in
    if p.pending_node_start
    then spawn w (build_daemon_args (current_settings ready)) node_label (give_up ready)
    else (ready, [])

-- One event of the loop in `poll`.
unfoldable pub on_event : Answers → Event → Panel → Panel × Effects
unfolding spawn start_watcher start_pearld
on_event w log_line p = (p, [])
on_event w payout_stats p = (p, [])
on_event w pearld_status p = (p, [])
on_event w child_exit p =
    (record p { proc = none; start_enabled = true; demo_enabled = true; stop_enabled = false }, [])
on_event w (pearld_probe found) p = probed w p found
on_event w (pearld_ready height) p = became_ready w p
on_event w rpc_result p = (record p { test_enabled = true }, [])

abbrev lost_pearld : Panel → Panel
lost_pearld p =
    let lost : Panel = record p { pearld_proc = none; pearld_ready = false } in
    if p.pending_node_start then give_up lost else lost

-- What `poll` does behind its loop: a managed pearld that ended is noticed.
unfoldable pub check_pearld : Answers → Panel → Panel × Effects
check_pearld w p = elim p.pearld_proc [
  | none ↦ (p, [])
  | some pid ↦ elim (w.exited pid) [
    | false ↦ (p, [])
    | true ↦ (lost_pearld p, stop_current p.watch_stop)
  ]
]

-- What can happen to the window: a click, a change of the form, an event, or the check behind the
-- loop of `poll`.
pub data Action : Type 0 where
  click_start click_demo click_stop click_test check : Action
  set_manage : Bool → Action
  choose_network : Str → Action
  type_field : Str → Str → Action
  event : Event → Action

-- A button that is disabled takes no click, and no event is taken where `poll` does not run.
abbrev if_enabled : Bool → Panel → Panel × Effects → Panel × Effects
if_enabled enabled p r = if enabled then r else (p, [])

unfoldable pub act : Answers → Action → Panel → Panel × Effects
unfolding start_node run_demo stop test_connection on_event check_pearld sync_managed_url
act w click_start p = if_enabled p.start_enabled p (start_node w p)
act w click_demo p = if_enabled p.demo_enabled p (run_demo w p)
act w click_stop p = if_enabled p.stop_enabled p (stop p)
act w click_test p = if_enabled p.test_enabled p (test_connection p)
act w check p = if_enabled p.polling p (check_pearld w p)
act w (set_manage on) p = (sync_managed_url (record p { manage = on }), [])
act w (choose_network n) p = (sync_managed_url (record p { network = n }), [])
act w (type_field k v) p = (record p { fields = insert k v p.fields }, [])
act w (event e) p = if_enabled p.polling p (on_event w e p)

-- The window as it opens, with the settings that were loaded.
unfoldable pub opened : Bool → Settings → Panel
opened pearld_available s = sync_managed_url (record {
  proc = none;
  proc_label = [];
  pearld_proc = none;
  pearld_ready = false;
  watch_stop = none;
  pending_node_start = false;
  next_watcher = 0;
  polling = true;
  start_enabled = true;
  demo_enabled = true;
  stop_enabled = false;
  test_enabled = true;
  manage =
      bytes_eq (field s (codes "manage_pearld")) (codes "1")
      || (bytes_eq (field s (codes "manage_pearld")) (codes "auto") && pearld_available);
  network =
      if bytes_eq (field s (codes "network")) (codes "mainnet")
        || bytes_eq (field s (codes "network")) (codes "testnet")
      then field s (codes "network")
      else codes "mainnet";
  fields = s;
})
