-- ===== src/Desktop/Buttons.antt =====
-- The buttons of the window of p2pearl/gui.py, and the children that it starts.
use p2pearl.Prelude.{
  ◌⊎◌, inl, inr, Bool, true, false, not, ◌&&◌, Option, none, some, List, [], ◌∷◌, ◌≡◌, refl, arith,
  subst, sym, ◌∙◌, ℕ, Bool-cases, Option-cases, if-elim,
}
use p2pearl.Prelude.Keys.{Str}
use p2pearl.Prelude.Text.{codes}
use p2pearl.Desktop.Settings.{Settings, build_daemon_args}
use p2pearl.Desktop.Panel.{
  Panel, Answers, Effects, Action, Event, started, save_settings, message_box, stats_cleared,
  pearld_started, probe, watch, stop_watch, terminate, test_pearld, click_start, click_demo,
  click_stop, click_test, check, set_manage, choose_network, type_field, event, current_settings,
  sync_managed_url, spawn, start_watcher, start_pearld, start_node, run_demo, on_event, act, opened,
  node_label,
}

abbrev pub is_some {ℓ} : {A : Type ℓ} → Option A → Bool
is_some none = false
is_some (some a) = true

-- A child can be stopped exactly while there is one, and the demo started exactly while there is none.
pub record IsConsistent (p : Panel) : Type 0 where
  pub stops : p.stop_enabled ≡ is_some p.proc
  pub demos : p.demo_enabled ≡ not (is_some p.proc)

spawn-IsConsistent :
    (w : Answers) (args : List Str) (label : Str) (p : Panel)
    → IsConsistent p
    → IsConsistent (spawn w args label p).0
unfolding spawn
spawn-IsConsistent w args label p c = ground arith

start_pearld-IsConsistent :
    (w : Answers) (s : Settings) (p : Panel) → IsConsistent p → IsConsistent (start_pearld w s p).0
unfolding start_pearld start_watcher
start_pearld-IsConsistent w s p c = ground arith

sync_managed_url-IsConsistent : (p : Panel) → IsConsistent p → IsConsistent (sync_managed_url p)
unfolding sync_managed_url
sync_managed_url-IsConsistent p c = ground arith

on_event-IsConsistent :
    (w : Answers) (e : Event) (p : Panel) → IsConsistent p → IsConsistent (on_event w e p).0
unfolding on_event
on_event-IsConsistent w Event.log_line p c = c
on_event-IsConsistent w Event.payout_stats p c = c
on_event-IsConsistent w Event.child_exit p c = record { stops = refl; demos = refl }
on_event-IsConsistent w Event.pearld_status p c = c
on_event-IsConsistent w Event.rpc_result p c = ground arith
on_event-IsConsistent w (Event.pearld_probe found) p c =
    ground (arith, start_pearld-IsConsistent w (current_settings p) p c)
on_event-IsConsistent w (Event.pearld_ready h) p c = ground arith

act-IsConsistent :
    (w : Answers) (a : Action) (p : Panel) → IsConsistent p → IsConsistent (act w a p).0
unfolding act
act-IsConsistent w click_start p c =
    ground (arith, spawn-IsConsistent w (build_daemon_args (current_settings p)) node_label p c)
act-IsConsistent w click_demo p c =
    ground (arith, spawn-IsConsistent w (codes "demo" ∷ []) (codes "demo") p c)
act-IsConsistent w click_stop p c = ground arith
act-IsConsistent w click_test p c = ground arith
act-IsConsistent w check p c = ground arith
act-IsConsistent w (set_manage on) p c =
    sync_managed_url-IsConsistent (record p { manage = on }) (ground arith)
act-IsConsistent w (choose_network n) p c =
    sync_managed_url-IsConsistent (record p { network = n }) (ground arith)
act-IsConsistent w (type_field k v) p c = ground arith
act-IsConsistent w (event e) p c =
    if-elim (λ (r : Panel × Effects). IsConsistent r.0) p.polling (on_event w e p) (p, [])
      (λ _. on_event-IsConsistent w e p c) (λ _. c)

-- The children that a handler started, with their arguments.
unfoldable pub children : Effects → List (List Str × Str)
children [] = []
children (started args label ∷ es) = (args, label) ∷ children es
children (save_settings s ∷ es) = children es
children (message_box ∷ es) = children es
children (stats_cleared ∷ es) = children es
children (pearld_started args ∷ es) = children es
children (probe s ∷ es) = children es
children (watch s n ∷ es) = children es
children (stop_watch n ∷ es) = children es
children (terminate n ∷ es) = children es
children (test_pearld s ∷ es) = children es

-- The pool node runs with the settings of the form, and where pearld is managed it serves by then.
pub record IsNodeStart (p : Panel) (ready : Bool) (args : List Str) : Type 0 where
  pub configured : args ≡ build_daemon_args (current_settings p)
  pub served : (p.manage ≡ false) ⊎ (ready ≡ true)

-- Nothing was started, or one child while there was none.
abbrev pub StartsWell : Panel → Panel → List (List Str × Str) → Type 0
StartsWell p p' [] = Unit {0}
StartsWell p p' ((args, label) ∷ []) =
    (p.proc ≡ none)
    × (is_some p'.proc ≡ true)
    × ((args ≡ codes "demo" ∷ []) ⊎ IsNodeStart p p'.pearld_ready args)
StartsWell p p' (a ∷ b ∷ rest) = ⊥

spawn_busy :
    (w : Answers) (args : List Str) (label : Str) (p : Panel) (pid : ℕ)
    → p.proc ≡ some pid
    → spawn w args label p ≡ (p, message_box ∷ [])
unfolding spawn
spawn_busy w args label p pid e = ground arith

spawn_refused :
    (w : Answers) (args : List Str) (label : Str) (p : Panel)
    → p.proc ≡ none
    → w.spawned ≡ none
    → spawn w args label p ≡ (p, save_settings (current_settings p) ∷ message_box ∷ [])
unfolding spawn
spawn_refused w args label p e f = ground arith

spawn_done :
    (w : Answers) (args : List Str) (label : Str) (p : Panel) (pid : ℕ)
    → p.proc ≡ none
    → w.spawned ≡ some pid
    → spawn w args label p ≡ (
      record p {
        proc = some pid;
        proc_label = label;
        start_enabled = false;
        demo_enabled = false;
        stop_enabled = true;
      },
      save_settings (current_settings p) ∷ started args label ∷ stats_cleared ∷ [],
    )
unfolding spawn
spawn_done w args label p pid e f = ground arith

-- What a handler answers starts well.
abbrev pub Well : Panel → Panel × Effects → Type 0
Well p r = StartsWell p r.0 (children r.1)

-- Where `q` is `p` but for what a start does not read.
spawn-Well :
    (w : Answers) (args : List Str) (label : Str) (p q : Panel)
    → p.proc ≡ q.proc
    → (args ≡ codes "demo" ∷ []) ⊎ IsNodeStart p q.pearld_ready args
    → Well p (spawn w args label q)
unfolding children
spawn-Well w args label p q same h = elim (Option-cases q.proc) [
  | inr (pid, e) ↦ subst (Well p) (sym (spawn_busy w args label q pid e)) tt
  | inl e ↦ elim (Option-cases w.spawned) [
    | inl f ↦ subst (Well p) (sym (spawn_refused w args label q e f)) tt
    | inr (pid, f) ↦ subst (Well p) (sym (spawn_done w args label q pid e f)) (same ∙ e, refl, h)
  ]
]

-- A handler that starts nothing.
quiet-Well : (p : Panel) (r : Panel × Effects) → children r.1 ≡ [] → Well p r
quiet-Well p r h = rw h tt

start_node_waits :
    (w : Answers) (p : Panel)
    → (p.manage && not p.pearld_ready) ≡ true
    → children (start_node w p).1 ≡ []
unfolding start_node children
start_node_waits w p h = ground arith

start_node-Well : (w : Answers) (p : Panel) → Well p (start_node w p)
unfolding start_node
start_node-Well w p = elim (Bool-cases (p.manage && not p.pearld_ready)) [
  | inl waits ↦ quiet-Well p (start_node w p) (start_node_waits w p waits)
  | inr goes ↦
      rw (start_node, goes)
        (spawn-Well w (build_daemon_args (current_settings p)) node_label p p refl
          (inr (record { configured = refl; served = ground arith })))
]

start_pearld-children :
    (w : Answers) (s : Settings) (p : Panel) → children (start_pearld w s p).1 ≡ []
unfolding start_pearld start_watcher children
start_pearld-children w s p = ground arith

became_ready-Well : (w : Answers) (h : ℕ) (p : Panel) → Well p (on_event w (Event.pearld_ready h) p)
unfolding on_event current_settings children
became_ready-Well w h p = elim (Bool-cases p.pending_node_start) [
  | inr idle ↦ quiet-Well p (on_event w (Event.pearld_ready h) p) (ground arith)
  | inl pending ↦
      let q : Panel = record p {
        pearld_ready = true;
        pending_node_start = false;
        start_enabled = true;
      } in
      let same : on_event w (Event.pearld_ready h) p
          ≡ spawn w (build_daemon_args (current_settings p)) node_label q =
        ground arith in
      subst (Well p) (sym same) (
        spawn-Well w (build_daemon_args (current_settings p)) node_label p q refl
          (inr (record { configured = refl; served = inr refl })))
]

on_event-Well : (w : Answers) (e : Event) (p : Panel) → Well p (on_event w e p)
unfolding on_event children
on_event-Well w Event.log_line p = tt
on_event-Well w Event.payout_stats p = tt
on_event-Well w Event.child_exit p = tt
on_event-Well w Event.pearld_status p = tt
on_event-Well w Event.rpc_result p = tt
on_event-Well w (Event.pearld_probe found) p =
    quiet-Well p (on_event w (Event.pearld_probe found) p)
      (ground (arith, start_pearld-children w (current_settings p) p))
on_event-Well w (Event.pearld_ready h) p = became_ready-Well w h p

-- Whatever happens to the window, with whatever answers, it starts at most one child, and only while
-- none runs: the demo, or the node with the arguments of the settings in the form. The node starts
-- only where pearld is not managed or was reported ready.
pub act-StartsWell :
    (w : Answers) (a : Action) (p : Panel) → StartsWell p (act w a p).0 (children (act w a p).1)
unfolding act children
act-StartsWell w click_start p =
    if-elim (Well p) p.start_enabled (start_node w p) (p, []) (λ _. start_node-Well w p) (λ _. tt)
act-StartsWell w click_demo p =
    if-elim (Well p) p.demo_enabled (run_demo w p) (p, [])
      (λ _. spawn-Well w (codes "demo" ∷ []) (codes "demo") p p refl (inl refl)) (λ _. tt)
act-StartsWell w click_stop p = quiet-Well p (act w click_stop p) (ground arith)
act-StartsWell w click_test p = quiet-Well p (act w click_test p) (ground arith)
act-StartsWell w check p = quiet-Well p (act w check p) (ground arith)
act-StartsWell w (set_manage on) p = tt
act-StartsWell w (choose_network n) p = tt
act-StartsWell w (type_field k v) p = tt
act-StartsWell w (event e) p =
    if-elim (Well p) p.polling (on_event w e p) (p, []) (λ _. on_event-Well w e p) (λ _. tt)

-- A history of the window: what happened, and what the system answered then.
unfoldable pub run : List (Answers × Action) → Panel → Panel
run [] p = p
run ((w, a) ∷ rest) p = run rest (act w a p).0

from-IsConsistent :
    (h : List (Answers × Action)) (p : Panel) → IsConsistent p → IsConsistent (run h p)
unfolding run
from-IsConsistent [] p c = c
from-IsConsistent ((w, a) ∷ rest) p c =
    from-IsConsistent rest (act w a p).0 (act-IsConsistent w a p c)

opened-IsConsistent : (available : Bool) (s : Settings) → IsConsistent (opened available s)
unfolding opened sync_managed_url
opened-IsConsistent available s =
    sync_managed_url-IsConsistent _ (record { stops = refl; demos = refl })

-- After any history of the window, the stop button is enabled exactly while there is a child, and
-- the demo's button exactly while there is none.
pub run-IsConsistent :
    (available : Bool) (s : Settings) (h : List (Answers × Action))
    → IsConsistent (run h (opened available s))
run-IsConsistent available s h =
    from-IsConsistent h (opened available s) (opened-IsConsistent available s)
