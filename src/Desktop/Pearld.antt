-- ===== src/Desktop/Pearld.antt =====
-- The managed pearld of p2pearl/gui.py: how it is installed, watched, tested and stopped, how the
-- child's output becomes events, and what closing the window does. Files, processes and calls answer
-- through arguments.
use p2pearl.Prelude.{
  ℕ, Bool, true, false, ◌&&◌, ◌||◌, not, if◌then◌else◌, Option, none, some, List, [], ◌∷◌, ◌++◌,
  drop, take, length, ◌≤◌, arith,
}
use p2pearl.Prelude.Keys.{Str}
use p2pearl.Prelude.Text.{codes, has_prefix, has_infix, decimal}
use p2pearl.Desktop.Settings.{Settings}
use p2pearl.Desktop.Panel.{Panel, Answers, current_settings, is_running}

-- `ensure_pearld_installed`: a source directory with a pearld in it, whether one is installed, with
-- the same size, the files of the source, and what `shutil.which` finds.
pub record Install : Type 0 where
  pub has_source : Bool
  pub installed : Bool
  pub same_size : Bool
  pub source_files : List Str
  pub on_path : Option Str
  pub exe : Str

-- The files that are copied, and the path that is returned.
unfoldable pub ensure_pearld_installed : Install → List Str × Option Str
ensure_pearld_installed i =
    let copies = i.has_source && (not i.installed || not i.same_size) in
    let copied : List Str = if copies then i.source_files else [] in
    (copied, if i.installed || copies then some i.exe else i.on_path)

-- One round of `watch_pearld_sync`: whether it was told to stop, and what the two calls answer.
pub data Round : Type 0 where
  stopped unreachable : Round
  syncing : ℕ → ℕ → Round
  serving : ℕ → Round

pub data Post : Type 0 where
  starting_post : Post
  syncing_post : ℕ → ℕ → Post
  ready_post : ℕ → Post

-- The posts of a watcher, over the rounds until it returns.
unfoldable pub watch_pearld_sync : List Round → List Post
watch_pearld_sync [] = []
watch_pearld_sync (stopped ∷ rest) = []
watch_pearld_sync (unreachable ∷ rest) = starting_post ∷ watch_pearld_sync rest
watch_pearld_sync (syncing blocks headers ∷ rest) =
    syncing_post blocks headers ∷ watch_pearld_sync rest
watch_pearld_sync (serving blocks ∷ rest) = ready_post blocks ∷ []

-- The posts that report a ready pearld.
unfoldable pub ready_posts : List Post → List ℕ
ready_posts [] = []
ready_posts (starting_post ∷ ps) = ready_posts ps
ready_posts (syncing_post n h ∷ ps) = ready_posts ps
ready_posts (ready_post n ∷ ps) = n ∷ ready_posts ps

-- A watcher reports a ready pearld at most once.
pub watch_pearld_sync-once : (rs : List Round) → length (ready_posts (watch_pearld_sync rs)) ≤ 1
unfolding watch_pearld_sync ready_posts
watch_pearld_sync-once [] = omega arith
watch_pearld_sync-once (stopped ∷ rest) = omega arith
watch_pearld_sync-once (unreachable ∷ rest) = watch_pearld_sync-once rest
watch_pearld_sync-once (syncing n h ∷ rest) = watch_pearld_sync-once rest
watch_pearld_sync-once (serving n ∷ rest) = omega arith

-- What `stop_pearld_gracefully` finds: an end before it, an end after the RPC, and an end after
-- terminating.
pub record Stopping : Type 0 where
  pub ended : Bool
  pub has_settings : Bool
  pub ends_after_rpc : Bool
  pub ends_after_terminate : Bool

pub data Stop : Type 0 where
  stop_rpc wait terminate kill : Stop

abbrev escalate : Bool → List Stop
escalate true = terminate ∷ []
escalate false = terminate ∷ kill ∷ []

-- It is killed only where neither the RPC nor terminating ended it.
unfoldable pub stop_pearld_gracefully : Stopping → List Stop
stop_pearld_gracefully s =
    if s.ended
    then []
    else if s.has_settings
    then if s.ends_after_rpc
      then stop_rpc ∷ wait ∷ []
      else stop_rpc ∷ wait ∷ escalate s.ends_after_terminate
    else escalate s.ends_after_terminate

-- What a template call gives `test_rpc`: a height, the text of an error of the RPC client, or that of
-- another exception.
pub data Tested : Type 0 where
  template : Option ℕ → Tested
  rpc_error : Str → Tested
  other_error : Str → Tested

abbrev height_text : Option ℕ → Str
height_text none = codes "?"
height_text (some h) = decimal h

unfoldable pub test_rpc : Tested → Bool × Str
test_rpc (template height) = (true, codes "pearld OK — tip height " ++ height_text height)
test_rpc (rpc_error msg) =
    if has_infix (codes "cannot reach") msg
    then (false, codes "pearld unreachable — is it running? Check the RPC URL.")
    else (false, codes "pearld reachable, but: " ++ take 160 msg)
test_rpc (other_error msg) = (false, codes "test failed: " ++ msg)

-- A line of the child, as the reader's thread passes it on; `Snapshot` is what JSON decoding gives.
pub data Line (Snapshot : Type 0) : Type 0 where
  log_of : Str → Line Snapshot
  stats_of : Snapshot → Line Snapshot

abbrev payout_stats_prefix : Str
payout_stats_prefix = codes "P2PEARL_PAYOUT_STATS "

unfoldable pub read_line : {Snapshot : Type 0} → (Str → Option Snapshot) → Str → Line Snapshot
read_line loads line =
    if has_prefix payout_stats_prefix line
    then elim (loads (drop (length payout_stats_prefix) line)) [
      | none ↦ log_of line
      | some payload ↦ stats_of payload
    ]
    else log_of line

-- What `on_close` does, in order.
pub data Closing : Type 0 where
  ask : Closing
  retire : ℕ → Closing
  terminated killed : ℕ → Closing
  stop_pearld : ℕ → Settings → Closing
  saved : Settings → Closing
  destroyed : Closing

abbrev retire_current : Option ℕ → List Closing
retire_current none = []
retire_current (some w) = retire w ∷ []

abbrev end_child : Answers → Bool → Option ℕ → List Closing
end_child w in_time none = []
end_child w in_time (some pid) =
    if w.exited pid
    then []
    else if in_time
    then terminated pid ∷ []
    else terminated pid ∷ killed pid ∷ []

abbrev end_pearld : Settings → Option ℕ → List Closing
end_pearld s none = []
end_pearld s (some pid) = stop_pearld pid s ∷ []

unfoldable pub closing : Answers → Bool → Panel → List Closing
closing w in_time p =
    retire_current p.watch_stop
    ++ (end_child w in_time p.proc
        ++ (end_pearld (current_settings p) p.pearld_proc
            ++ saved (current_settings p) ∷ destroyed ∷ []))

-- `on_close`: the user is asked where a child runs, and whether the pool node ends in time.
unfoldable pub on_close : Answers → Bool → Bool → Panel → List Closing
unfolding closing
on_close w agrees in_time p =
    if is_running w p.proc || is_running w p.pearld_proc
    then if agrees then ask ∷ closing w in_time p else ask ∷ []
    else closing w in_time p
