-- ===== src/Desktop/Tests.antt =====
-- Runs of the control panel of p2pearl/gui.py, and the theorems about it at concrete inputs.
use p2pearl.Prelude.{ℕ, ◌+◌, true, false, none, some, List, [], ◌∷◌, ◌≡◌, refl, pos, arith}
use p2pearl.Prelude.Result.{ok}
use p2pearl.Prelude.Keys.{Str, bytes_eq, bytes_key}
use p2pearl.Prelude.Dict.{lookup, insert}
use p2pearl.Prelude.Text.{
  codes, int_of, splitlines, rpartition, int_any_base, decimal, strip, rstrip, partition, has_char,
}
use p2pearl.Cli.{Env, returned, run_daemon, left, main, read_peers}
use p2pearl.Cli.Options.{classify}
use p2pearl.Desktop.Settings.{
  Settings, defaults, normalize_settings, build_daemon_args, field, stripped, update,
  managed_rpc_url, local_url, managed_pearld_too_old,
}
use p2pearl.Desktop.Normal.{IsNormal, normalize_settings-IsNormal}
use p2pearl.Desktop.Arguments.{
  Reads, IsPlain, given, form_config, main-left, main-build_daemon_args,
}
use p2pearl.Desktop.Payouts.{format_prl_amount, grouped, decimal_width}
use p2pearl.Consensus.Difficulty.{bit_length}
use p2pearl.Desktop.Floats.{divide, places_8, round_half_even}
use p2pearl.Desktop.Amounts.{read_amount, read_amount-format_prl_amount}
use p2pearl.Desktop.Panel.{
  Panel, Answers, Effects, Action, pearld_started, click_start, click_demo, event, act, opened,
  child_exit, pearld_probe,
}
use p2pearl.Desktop.Buttons.{children, StartsWell, act-StartsWell}
use p2pearl.Desktop.Pending.{
  World, here, next, acts, start_local, idle, after, IsUnderWay, Reach-IsUnderWay,
}

abbrev form : Settings
form =
    (codes "peers", codes " 10.0.0.2:37900\n\n")
    ∷ (codes "manage_pearld", codes "1")
    ∷ (codes "network", codes "testnet")
    ∷ (codes "share_target", codes "0xff")
    ∷ []

abbrev env : Env
env = record {
  rpc_user = none;
  rpc_pass = none;
  double_clicked = false;
  gui_code = 0;
  daemon_code = 0;
}

form-Reads : Reads (normalize_settings form)
unfolding normalize_settings int_of field lookup bytes_eq update insert defaults managed_rpc_url
    read_peers splitlines rpartition int_any_base
form-Reads = record {
  stratum_port = pos 3360;
  factor = pos 256;
  p2p_port = pos 37900;
  peers = (codes "10.0.0.2", pos 37900) ∷ [];
  target = some (pos 255);
  is_stratum_port = refl;
  is_factor = refl;
  is_p2p_port = refl;
  are_peers = refl;
  is_target = refl;
}

form-IsPlain : IsPlain (normalize_settings form)
unfolding normalize_settings int_of field lookup bytes_eq update insert defaults managed_rpc_url
    read_peers splitlines rpartition int_any_base strip local_url decimal
form-IsPlain = record {
  rpc_url = refl;
  rpc_user = refl;
  rpc_pass = refl;
  stratum_host = refl;
  stratum_port = refl;
  factor = refl;
  p2p_host = refl;
  p2p_port = refl;
  peers = (refl, tt);
  share_target = refl;
  pause_cmd = tt;
  resume_cmd = tt;
}

main-build_daemon_args_example :
    let s = normalize_settings form in
    main env (build_daemon_args form)
    ≡ returned
        (run_daemon
            (form_config s (pos 3360) (pos 256) (pos 37900) ((codes "10.0.0.2", pos 37900) ∷ []))
            (some (pos 255))
            (given (stripped s (codes "pause_cmd")))
            (given (stripped s (codes "resume_cmd")))
          ∷ [])
        0
        false
unfolding form-Reads
main-build_daemon_args_example = main-build_daemon_args env form refl refl form-Reads form-IsPlain

normalize_settings-IsNormal_example :
    IsNormal (normalize_settings form)
    × ((k : Str)
        → lookup k (normalize_settings (normalize_settings form))
          ≡ lookup k (normalize_settings form))
unfolding normalize_settings int_of field lookup bytes_eq update insert defaults managed_rpc_url
    read_peers splitlines rpartition int_any_base
normalize_settings-IsNormal_example =
    normalize_settings-IsNormal form (refl, (refl, (refl, (refl, tt))))

-- The managed node on the test network is reached at the port of that network.
testnet_url : stripped (normalize_settings form) (codes "rpc_url") ≡ codes "http://127.0.0.1:44109"
unfolding normalize_settings int_of field lookup bytes_eq update insert defaults managed_rpc_url
    read_peers splitlines rpartition int_any_base strip decimal local_url
testnet_url = refl

abbrev first : Panel
first = opened true form

-- A system with a pearld that can be started.
abbrev answers : Answers
answers = record {
  spawned = some 7;
  exe = ok (some (codes "/home/pearld"));
  version = some (1, 2, 0);
  log_opened = true;
  pearld_spawned = some 9;
  exited = λ pid. false;
  data_dir = codes "/home/data";
}

act-StartsWell_example :
    StartsWell first (act answers click_demo first).0 (children (act answers click_demo first).1)
act-StartsWell_example = act-StartsWell answers click_demo first

-- The command lines of pearld that a history ran.
abbrev pearlds : Effects → ℕ
pearlds [] = 0
pearlds (pearld_started args ∷ es) = pearlds es + 1
pearlds (e ∷ es) = pearlds es

abbrev ran : List (Answers × Action) → Panel → ℕ
ran [] p = 0
ran ((w, a) ∷ rest) p = let (p', es) = act w a p in pearlds es + ran rest p'

-- The demo's exit enables the start button while a start waits; a second click sends a second probe,
-- and two probes that find nothing start pearld twice, though the first one runs.
pearld_twice :
    ran
      ((answers, click_start)
        ∷ (answers, click_demo)
        ∷ (answers, event child_exit)
        ∷ (answers, click_start)
        ∷ (answers, event (pearld_probe false))
        ∷ (answers, event (pearld_probe false))
        ∷ [])
      first
    ≡ 2
unfolding act opened managed_rpc_url lookup bytes_eq field managed_pearld_too_old
pearld_twice = refl

-- The system as above, but the directory for pearld's log cannot be made.
abbrev no_log : Answers
no_log = record answers { log_opened = false }

abbrev stranded : Panel
stranded = (act no_log (event (pearld_probe false)) (act answers click_start first).0).0

-- The OSError leaves `poll`: the start waits on, the button stays disabled, and no event is handled.
start_stranded :
    (stranded.pending_node_start ≡ true)
    × (stranded.start_enabled ≡ false)
    × (stranded.polling ≡ false)
unfolding act opened managed_rpc_url lookup bytes_eq field managed_pearld_too_old
start_stranded = (refl, refl, refl)

abbrev opened_world : World
opened_world = idle (opened true form)

Reach-IsUnderWay_example :
    IsUnderWay (after (act answers click_start opened_world.panel) opened_world)
Reach-IsUnderWay_example = Reach-IsUnderWay true form (next here (acts answers start_local))

read_amount-format_prl_amount_example : read_amount (format_prl_amount 123_450_000) ≡ 123_450_000
read_amount-format_prl_amount_example = read_amount-format_prl_amount 123_450_000 (omega arith)

amount_text : format_prl_amount 123_450_000 ≡ codes "1.2345"
unfolding format_prl_amount decimal rstrip decimal_width places_8 divide round_half_even bit_length
amount_text = refl

whole_amount : format_prl_amount 500_000_000 ≡ codes "5"
unfolding format_prl_amount decimal rstrip decimal_width places_8 divide round_half_even bit_length
whole_amount = refl

-- Above the bound the float shows: 10 ** 16 + 2 grains lose one.
large_amount : format_prl_amount 10_000_000_000_000_002 ≡ codes "100000000.00000001"
unfolding format_prl_amount decimal rstrip decimal_width places_8 divide round_half_even bit_length
large_amount = refl

weights : grouped 1234567 ≡ codes "1,234,567"
unfolding grouped decimal decimal_width
weights = refl

-- A password with a dash in front.
abbrev dashed_form : Settings
dashed_form = (codes "rpc_pass", codes "-secret") ∷ []

dashed_password : main env (build_daemon_args dashed_form) ≡ left
unfolding normalize_settings int_of field lookup bytes_eq update insert defaults managed_rpc_url
    read_peers splitlines rpartition int_any_base strip classify partition has_char
dashed_password = main-left env dashed_form refl refl refl
