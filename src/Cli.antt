-- ===== src/Cli.antt =====
-- The command line of p2pearl/cli.py: the arguments of `p2pearl daemon` as argparse reads them, and
-- what `main` runs. The commands themselves are other parts; their exit codes are parameters.
mod Tests
pub mod Options
use mathlib.Core.Option
use p2pearl.Prelude.{
  ℕ, Bool, true, false, ◌&&◌, ◌||◌, not, ◌==◌, if◌then◌else◌, Option, none, some, List, [], ◌∷◌,
  ◌++◌, ℤ, pos,
}
use p2pearl.Prelude.Result.{Result, ok, raise, value_error, ◌>>=◌, or_raise}
use p2pearl.Prelude.Keys.{Str, bytes_eq}
use p2pearl.Prelude.Text.{codes, or_str, rpartition, int_of, int_any_base}
use p2pearl.Cli.Options.{Namespace, no_args, parse_options}
use p2pearl.Config.{stratum_target_factor_default, parent_rpc_default_url}

pub record NodeRpcConfig : Type 0 where
  pub url : Str
  pub user : Str
  pub password : Str

pub record DaemonConfig : Type 0 where
  pub node : NodeRpcConfig
  pub payout_address : Str
  pub stratum_host : Str
  pub stratum_port : ℤ
  pub p2p_host : Str
  pub p2p_port : ℤ
  pub stratum_target_factor : ℤ
  pub peers : List (Str × ℤ)
  pub data_dir : Str

-- `argparse`'s result: which command, with the daemon's arguments.
pub data Command : Type 0 where
  no_command gui demo : Command
  daemon : Namespace → Command

abbrev alone : Command → List Str → Option Command
alone c [] = some c
alone c (x ∷ xs) = none

-- `parser.parse_args(argv)`, none where argparse leaves the program: a usage error, the help or the
-- version
unfoldable pub parse_args : List Str → Option Command
parse_args [] = some no_command
parse_args (c ∷ rest) =
    if bytes_eq c (codes "daemon")
    then Option.map daemon (parse_options rest no_args)
    else if bytes_eq c (codes "gui")
    then alone gui rest
    else if bytes_eq c (codes "demo")
    then alone demo rest
    else none

-- `P2PEARL_RPC_USER` and `P2PEARL_RPC_PASS`, whether the program was double-clicked, and the exit
-- codes of the window and of the daemon.
pub record Env : Type 0 where
  pub rpc_user : Option Str
  pub rpc_pass : Option Str
  pub double_clicked : Bool
  pub gui_code : ℕ
  pub daemon_code : ℕ

-- `a or b` for an argument that may be None
abbrev pub arg_or : Option Str → Str → Str
arg_or none d = d
arg_or (some s) d = or_str s d

-- The loop over `--peer`: what is no `host:port` is left out, and a port is a number or ValueError.
unfoldable pub read_peers : List Str → Result (List (Str × ℤ))
read_peers [] = ok []
read_peers (spec ∷ specs) = elim (rpartition 58 spec) [
  | none ↦ read_peers specs
  | some (host, []) ↦ read_peers specs
  | some (host, c ∷ cs) ↦ do
    port ← or_raise (int_of (c ∷ cs)) value_error
    rest ← read_peers specs
    ok ((host, port) ∷ rest)
]

-- `int(args.share_target, 0) if args.share_target else None`
abbrev pub read_target : Option Str → Result (Option ℤ)
read_target none = ok none
read_target (some []) = ok none
read_target (some (c ∷ cs)) = do t ← or_raise (int_any_base (c ∷ cs)) value_error; ok (some t)

-- What `main` calls, with the arguments of `daemon.main`.
pub data Run : Type 0 where
  run_gui run_demo print_help : Run
  run_daemon : DaemonConfig → Option ℤ → Option Str → Option Str → Run

abbrev pub config_of : Env → Namespace → List (Str × ℤ) → DaemonConfig
config_of env a peers = record {
  node = record {
    url = arg_or a.rpc_url parent_rpc_default_url;
    user = arg_or a.rpc_user (Option.get_or env.rpc_user (codes "user"));
    password = arg_or a.rpc_pass (Option.get_or env.rpc_pass (codes "pass"));
  };
  payout_address = [];
  stratum_host = a.stratum_host;
  stratum_port = a.stratum_port;
  p2p_host = a.p2p_host;
  p2p_port = a.p2p_port;
  stratum_target_factor = Option.get_or a.stratum_target_factor (pos stratum_target_factor_default);
  peers = peers;
  data_dir = codes "./p2pearl-data";
}

-- The branch of the `daemon` command, up to the call.
unfoldable pub daemon_run : Env → Namespace → Result Run
unfolding read_peers
daemon_run env a = do
  peers ← read_peers a.peer
  target ← read_target a.share_target
  ok (run_daemon (config_of env a peers) target a.pause_cmd a.resume_cmd)

-- How `main` ends: argparse left the program, by whatever exit, or `main` returned or raised. The flag
-- says whether the `finally` block waits for Enter.
pub data Outcome : Type 0 where
  left : Outcome
  returned : List Run → ℕ → Bool → Outcome
  raised : Bool → Outcome

abbrev pub gui_unavailable : ℕ
gui_unavailable = 2

-- The branch of the window: the demo follows where there is no window and none was asked for.
abbrev run_window : Env → Bool → Outcome
run_window env asked =
    if not (env.gui_code == gui_unavailable)
    then returned (run_gui ∷ []) env.gui_code false
    else if asked
    then returned (run_gui ∷ []) env.gui_code env.double_clicked
    else returned (run_gui ∷ run_demo ∷ []) 0 env.double_clicked

abbrev run_command : Env → Command → Outcome
run_command env gui = run_window env true
run_command env demo = returned (run_demo ∷ []) 0 env.double_clicked
run_command env no_command =
    if env.double_clicked
    then run_window env false
    else returned (print_help ∷ []) 0 env.double_clicked
run_command env (daemon a) = elim (daemon_run env a) [
  | raise _ ↦ raised env.double_clicked
  | ok run ↦ returned (run ∷ []) env.daemon_code env.double_clicked
]

unfoldable pub main : Env → List Str → Outcome
main env argv = elim (parse_args argv) [ none ↦ left | some c ↦ run_command env c ]
