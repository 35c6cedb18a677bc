-- ===== src/Cli/Tests.antt =====
-- Runs of the command line of p2pearl/cli.py.
use p2pearl.Prelude.{true, none, [], ◌∷◌, ◌≡◌, refl}
use p2pearl.Prelude.Keys.{bytes_eq}
use p2pearl.Prelude.Text.{codes, int_of, partition, has_prefix, has_char, rpartition}
use p2pearl.Prelude.Result.{ok, raise, value_error}
use p2pearl.Cli.{Env, main, returned, run_gui, run_demo, parse_args, read_peers}
use p2pearl.Cli.Options.{classify, flag_with, value, unknown, Opt, find_flag}

-- A double-clicked program on a machine with no display.
abbrev headless : Env
headless = record {
  rpc_user = none;
  rpc_pass = none;
  double_clicked = true;
  gui_code = 2;
  daemon_code = 0;
}

falls_back : main headless [] ≡ returned (run_gui ∷ run_demo ∷ []) 0 true
unfolding main parse_args
falls_back = refl

abbreviated : classify (codes "--share=0xff") ≡ flag_with Opt.share_target (codes "0xff")
unfolding classify find_flag partition has_prefix bytes_eq
abbreviated = refl

ambiguous : classify (codes "--p2p") ≡ unknown
unfolding classify find_flag partition has_prefix has_char bytes_eq
ambiguous = refl

negative_number : classify (codes "-5") ≡ value
unfolding classify partition
negative_number = refl

-- A port that is no number raises.
bad_port : read_peers (codes "host:port" ∷ []) ≡ raise value_error
unfolding read_peers rpartition int_of
bad_port = refl

-- A peer without a port is left out.
no_port : read_peers (codes "host" ∷ codes "host:" ∷ []) ≡ ok []
unfolding read_peers rpartition
no_port = refl
