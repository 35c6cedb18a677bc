-- ===== src/Desktop/Arguments.antt =====
-- The arguments that the control panel of p2pearl/gui.py starts a node with, as p2pearl/cli.py reads
-- them.
use mathlib.Core.List.{append-nil, append_assoc}
use mathlib.Core.Option
use p2pearl.Prelude.{Option, none, some, List, [], ◌∷◌, ◌++◌, ◌≡◌, refl, ◌∙◌, ℤ, arith, All, ap}
use p2pearl.Prelude.Result.{ok}
use p2pearl.Prelude.Keys.{Str, bytes_eq}
use p2pearl.Prelude.Text.{codes, strip, or_str, splitlines, int_of}
use p2pearl.Cli.{
  Env, left, DaemonConfig, daemon, returned, run_daemon, arg_or, read_peers, read_target, config_of,
  parse_args, daemon_run, main, Run,
}
use p2pearl.Cli.Options.{
  Opt, Namespace, no_args, flag_name, store_value, parse_options, value, unknown, classify, Plain,
  classify-Plain, classify-flag_name,
}
use p2pearl.Desktop.Settings.{
  Settings, field, stripped, optional, peer_args, daemon_options, normalize_settings,
  build_daemon_args,
}

parse_pair :
    (o : Opt) (v : Str) (rest : List Str) (a a' : Namespace)
    → Plain v
    → store_value o v a ≡ some a'
    → parse_options (flag_name o ∷ v ∷ rest) a ≡ parse_options rest a'
unfolding parse_options
parse_pair o v rest a a' plain stored =
    rw (parse_options, classify-flag_name o, classify-Plain v plain, stored) refl

-- `v or None`
abbrev pub given : Str → Option Str
given [] = none
given (c ∷ cs) = some (c ∷ cs)

parse_optional :
    (o : Opt) (v : Str) (rest : List Str) (put : Option Str → Namespace)
    → Plain v
    → ((u : Str) → store_value o u (put none) ≡ some (put (some u)))
    → parse_options (optional (flag_name o) v ++ rest) (put none)
      ≡ parse_options rest (put (given v))
parse_optional o [] rest put plain stored = refl
parse_optional o (c ∷ cs) rest put plain stored =
    parse_pair o (c ∷ cs) rest (put none) (put (some (c ∷ cs))) plain (stored (c ∷ cs))

-- The peers of the form: the lines that are not blank, without the blanks round them.
abbrev pub unless_blank : Str → List Str → List Str
unless_blank [] ls = ls
unless_blank (c ∷ cs) ls = (c ∷ cs) ∷ ls

abbrev pub peer_lines : List Str → List Str
peer_lines [] = []
peer_lines (line ∷ lines) = unless_blank (strip line) (peer_lines lines)

abbrev add_peers : Namespace → List Str → Namespace
add_peers a ls = record a { peer = a.peer ++ ls }

parse_peer :
    (v : Str) (ls args rest : List Str) (a : Namespace)
    → All Plain (unless_blank v ls)
    → ((b : Namespace)
        → All Plain ls
        → parse_options (args ++ rest) b ≡ parse_options rest (add_peers b ls))
    → parse_options ((optional (flag_name Opt.peer) v ++ args) ++ rest) a
      ≡ parse_options rest (add_peers a (unless_blank v ls))
unfolding store_value
parse_peer [] ls args rest a plain next = next a plain
parse_peer (c ∷ cs) ls args rest a plain next =
    let v : Str = c ∷ cs in
    let added = add_peers a (v ∷ []) in
    let stored : store_value Opt.peer v a ≡ some added = refl in
    parse_pair Opt.peer v (args ++ rest) a added plain.0 stored
    ∙ (next added plain.1 ∙ rw (append_assoc a.peer (v ∷ []) ls) refl)

parse_peers :
    (lines rest : List Str) (a : Namespace)
    → All Plain (peer_lines lines)
    → parse_options (peer_args lines ++ rest) a
      ≡ parse_options rest (add_peers a (peer_lines lines))
unfolding peer_args
parse_peers [] rest a plain = rw append-nil refl
parse_peers (line ∷ lines) rest a plain =
    parse_peer (strip line) (peer_lines lines) (peer_args lines) rest a plain
      (parse_peers lines rest)

-- What the form says of a node, once it is read: the numbers, and the peers.
pub record Reads (s : Settings) : Type 0 where
  pub stratum_port : ℤ
  pub factor : ℤ
  pub p2p_port : ℤ
  pub peers : List (Str × ℤ)
  pub target : Option ℤ
  pub is_stratum_port :
      int_of (or_str (stripped s (codes "stratum_port")) (codes "3360")) ≡ some stratum_port
  pub is_factor :
      int_of (or_str (stripped s (codes "stratum_target_factor")) (codes "256")) ≡ some factor
  pub is_p2p_port : int_of (or_str (stripped s (codes "p2p_port")) (codes "37900")) ≡ some p2p_port
  pub are_peers : read_peers (peer_lines (splitlines (field s (codes "peers")))) ≡ ok peers
  pub is_target : read_target (given (stripped s (codes "share_target"))) ≡ ok target

-- None of the values begins with a dash.
pub record IsPlain (s : Settings) : Type 0 where
  pub rpc_url : Plain (stripped s (codes "rpc_url"))
  pub rpc_user : Plain (stripped s (codes "rpc_user"))
  pub rpc_pass : Plain (field s (codes "rpc_pass"))
  pub stratum_host : Plain (or_str (stripped s (codes "stratum_host")) (codes "0.0.0.0"))
  pub stratum_port : Plain (or_str (stripped s (codes "stratum_port")) (codes "3360"))
  pub factor : Plain (or_str (stripped s (codes "stratum_target_factor")) (codes "256"))
  pub p2p_host : Plain (or_str (stripped s (codes "p2p_host")) (codes "0.0.0.0"))
  pub p2p_port : Plain (or_str (stripped s (codes "p2p_port")) (codes "37900"))
  pub peers : All Plain (peer_lines (splitlines (field s (codes "peers"))))
  pub share_target : Plain (stripped s (codes "share_target"))
  pub pause_cmd : Plain (stripped s (codes "pause_cmd"))
  pub resume_cmd : Plain (stripped s (codes "resume_cmd"))

module _ {s : Settings} (r : Reads s) where
  -- The namespace that the form stands for, one group of options after the other.
  abbrev credentials : Option Str → Option Str → Namespace
  credentials user pass = record no_args {
    rpc_url = some (stripped s (codes "rpc_url"));
    rpc_user = user;
    rpc_pass = pass;
  }

  abbrev hosts : Option Str → Option Str → Namespace
  hosts user pass = record (credentials user pass) {
    stratum_host = or_str (stripped s (codes "stratum_host")) (codes "0.0.0.0");
    stratum_port = r.stratum_port;
    stratum_target_factor = some r.factor;
    p2p_host = or_str (stripped s (codes "p2p_host")) (codes "0.0.0.0");
    p2p_port = r.p2p_port;
  }

  abbrev commands : Option Str → Option Str → Option Str → Option Str → Option Str → Namespace
  commands user pass target pause resume = record (hosts user pass) {
    peer = peer_lines (splitlines (field s (codes "peers")));
    share_target = target;
    pause_cmd = pause;
    resume_cmd = resume;
  }

  abbrev namespace : Namespace
  namespace =
      commands (given (stripped s (codes "rpc_user"))) (given (field s (codes "rpc_pass")))
        (given (stripped s (codes "share_target"))) (given (stripped s (codes "pause_cmd")))
        (given (stripped s (codes "resume_cmd")))

  store_port :
      (a : Namespace)
      → store_value Opt.stratum_port (or_str (stripped s (codes "stratum_port")) (codes "3360")) a
        ≡ some (record a { stratum_port = r.stratum_port })
  unfolding store_value
  store_port a = rw r.is_stratum_port refl

  store_factor :
      (a : Namespace)
      → store_value Opt.stratum_target_factor
          (or_str (stripped s (codes "stratum_target_factor")) (codes "256"))
          a
        ≡ some (record a { stratum_target_factor = some r.factor })
  unfolding store_value
  store_factor a = rw r.is_factor refl

  store_p2p_port :
      (a : Namespace)
      → store_value Opt.p2p_port (or_str (stripped s (codes "p2p_port")) (codes "37900")) a
        ≡ some (record a { p2p_port = r.p2p_port })
  unfolding store_value
  store_p2p_port a = rw r.is_p2p_port refl

  module _ (p : IsPlain s) where
    parse_hosts :
        (rest : List Str) (user pass : Option Str)
        → let host = or_str (stripped s (codes "stratum_host")) (codes "0.0.0.0") in
          let port = or_str (stripped s (codes "stratum_port")) (codes "3360") in
          let factor = or_str (stripped s (codes "stratum_target_factor")) (codes "256") in
          let p2p_host = or_str (stripped s (codes "p2p_host")) (codes "0.0.0.0") in
          let p2p_port = or_str (stripped s (codes "p2p_port")) (codes "37900") in
          parse_options
            (flag_name Opt.stratum_host
              ∷ host
              ∷ flag_name Opt.stratum_port
              ∷ port
              ∷ flag_name Opt.stratum_target_factor
              ∷ factor
              ∷ flag_name Opt.p2p_host
              ∷ p2p_host
              ∷ flag_name Opt.p2p_port
              ∷ p2p_port
              ∷ rest)
            (credentials user pass)
          ≡ parse_options rest (hosts user pass)
    unfolding store_value
    parse_hosts rest user pass =
        let a : Namespace = record (credentials user pass) {
          stratum_host = or_str (stripped s (codes "stratum_host")) (codes "0.0.0.0");
        } in
        let b : Namespace = record a { stratum_port = r.stratum_port } in
        let c : Namespace = record b {
          stratum_target_factor = some r.factor;
          p2p_host = or_str (stripped s (codes "p2p_host")) (codes "0.0.0.0");
        } in
        parse_pair Opt.stratum_host _ _ _ a p.stratum_host refl
        ∙ (parse_pair Opt.stratum_port _ _ a b p.stratum_port (store_port a)
            ∙ (parse_pair Opt.stratum_target_factor _ _ b _ p.factor (store_factor b)
                ∙ (parse_pair Opt.p2p_host _ _ _ c p.p2p_host refl
                    ∙ parse_pair Opt.p2p_port _ _ c _ p.p2p_port (store_p2p_port c))))

    parse_commands :
        (user pass : Option Str)
        → parse_options
            (optional (flag_name Opt.share_target) (stripped s (codes "share_target"))
              ++ (optional (flag_name Opt.pause_cmd) (stripped s (codes "pause_cmd"))
                  ++ optional (flag_name Opt.resume_cmd) (stripped s (codes "resume_cmd"))))
            (commands user pass none none none)
          ≡ some (
              commands user pass
                (given (stripped s (codes "share_target")))
                (given (stripped s (codes "pause_cmd")))
                (given (stripped s (codes "resume_cmd"))))
    unfolding store_value parse_options
    parse_commands user pass =
        let last = optional (flag_name Opt.resume_cmd) (stripped s (codes "resume_cmd")) in
        parse_optional Opt.share_target _ _ (λ u. commands user pass u none none) p.share_target
          (λ u. refl)
        ∙ (parse_optional Opt.pause_cmd _ _
              (λ u. commands user pass (given (stripped s (codes "share_target"))) u none)
              p.pause_cmd (λ u. refl)
            ∙ (rw (← append-nil last) (
                parse_optional Opt.resume_cmd _ [] (commands user pass _ _) p.resume_cmd
                  (λ u. refl))))

    parse_options-daemon_options : parse_options (daemon_options s) no_args ≡ some namespace
    unfolding daemon_options store_value
    parse_options-daemon_options =
        parse_pair Opt.rpc_url _ _ no_args (credentials none none) p.rpc_url refl
        ∙ (parse_optional Opt.rpc_user _ _ (λ u. credentials u none) p.rpc_user (λ u. refl)
            ∙ (parse_optional Opt.rpc_pass _ _ (credentials _) p.rpc_pass (λ u. refl)
                ∙ (parse_hosts _ _ _ ∙ (parse_peers _ _ _ p.peers ∙ parse_commands _ _))))

-- The configuration that the form stands for.
abbrev pub form_config : (s : Settings) → ℤ → ℤ → ℤ → List (Str × ℤ) → DaemonConfig
form_config s stratum_port factor p2p_port peers = record {
  node = record {
    url = or_str (stripped s (codes "rpc_url")) (codes "http://127.0.0.1:44107");
    user = or_str (stripped s (codes "rpc_user")) (codes "user");
    password = or_str (field s (codes "rpc_pass")) (codes "pass");
  };
  payout_address = [];
  stratum_host = or_str (stripped s (codes "stratum_host")) (codes "0.0.0.0");
  stratum_port = stratum_port;
  p2p_host = or_str (stripped s (codes "p2p_host")) (codes "0.0.0.0");
  p2p_port = p2p_port;
  stratum_target_factor = factor;
  peers = peers;
  data_dir = codes "./p2pearl-data";
}

arg_or-given : (s d : Str) → arg_or (given s) d ≡ or_str s d
arg_or-given [] d = refl
arg_or-given (c ∷ cs) d = refl

module _ (env : Env) (s : Settings) (r : Reads s) where
  config_of-namespace :
      env.rpc_user ≡ none
      → env.rpc_pass ≡ none
      → config_of env (namespace r) r.peers
        ≡ form_config s r.stratum_port r.factor r.p2p_port r.peers
  config_of-namespace no_user no_pass =
      let user = arg_or-given (stripped s (codes "rpc_user")) (codes "user") in
      let pass = arg_or-given (field s (codes "rpc_pass")) (codes "pass") in
      rw (no_user, no_pass)
        (λ i. record (form_config s r.stratum_port r.factor r.p2p_port r.peers) {
          node = record {
            url = or_str (stripped s (codes "rpc_url")) (codes "http://127.0.0.1:44107");
            user = user i;
            password = pass i;
          };
        })

  daemon_run-namespace :
      env.rpc_user ≡ none
      → env.rpc_pass ≡ none
      → daemon_run env (namespace r)
        ≡ ok (
            run_daemon
              (form_config s r.stratum_port r.factor r.p2p_port r.peers)
              r.target
              (given (stripped s (codes "pause_cmd")))
              (given (stripped s (codes "resume_cmd"))))
  unfolding daemon_run
  daemon_run-namespace no_user no_pass =
      rw (r.are_peers, r.is_target)
        (ap
          (λ c. ok (
            run_daemon c r.target (given (stripped s (codes "pause_cmd")))
              (given (stripped s (codes "resume_cmd")))))
          (config_of-namespace no_user no_pass))

main-daemon :
    (env : Env) (argv : List Str) (a : Namespace) (run : Run)
    → parse_args argv ≡ some (daemon a)
    → daemon_run env a ≡ ok run
    → main env argv ≡ returned (run ∷ []) env.daemon_code env.double_clicked
unfolding main
main-daemon env argv a run parsed ran = ground arith

parse_args-build_daemon_args :
    (settings : Settings) (r : Reads (normalize_settings settings))
    → IsPlain (normalize_settings settings)
    → parse_args (build_daemon_args settings) ≡ some (daemon (namespace r))
unfolding parse_args build_daemon_args bytes_eq
parse_args-build_daemon_args settings r p =
    ap (Option.map daemon) (parse_options-daemon_options r p)

-- The command line that the window starts the node with is read back as what the form says: where
-- no value begins with a dash, the numbers and the peers can be read, and the environment gives no
-- credentials, `p2pearl daemon` runs with the URL, the credentials, the addresses and ports, the
-- factor and the peers of the normalized settings, and with their genesis target and commands.
pub main-build_daemon_args :
    (env : Env) (settings : Settings)
    → env.rpc_user ≡ none
    → env.rpc_pass ≡ none
    → (r : Reads (normalize_settings settings)) → IsPlain (normalize_settings settings)
    → let s = normalize_settings settings in
      main env (build_daemon_args settings)
      ≡ returned
          (run_daemon
              (form_config s r.stratum_port r.factor r.p2p_port r.peers)
              r.target
              (given (stripped s (codes "pause_cmd")))
              (given (stripped s (codes "resume_cmd")))
            ∷ [])
          env.daemon_code
          env.double_clicked
main-build_daemon_args env settings no_user no_pass r p =
    main-daemon env (build_daemon_args settings) (namespace r) _
      (parse_args-build_daemon_args settings r p)
      (daemon_run-namespace env (normalize_settings settings) r no_user no_pass)

parse_flag_refused :
    (o : Opt) (v : Str) (rest : List Str) (a : Namespace)
    → classify v ≡ unknown
    → parse_options (flag_name o ∷ v ∷ rest) a ≡ none
unfolding parse_options
parse_flag_refused o v rest a h = rw (parse_options, classify-flag_name o, h) refl

parse_refused :
    (o : Opt) (v : Str) (rest : List Str) (a : Namespace)
    → classify v ≡ unknown
    → parse_options (optional (flag_name o) v ++ rest) a ≡ none
unfolding parse_options classify
parse_refused o [] rest a h = let absurdity : value ≡ unknown = h in cc
parse_refused o (c ∷ cs) rest a h = parse_flag_refused o (c ∷ cs) rest a h

-- With the URL and the user plain, a password that begins with a dash and is neither an option of
-- the program nor a value keeps the node from starting: argparse leaves the program on the command
-- line that the window makes of the form.
pub main-left :
    (env : Env) (settings : Settings)
    → Plain (stripped (normalize_settings settings) (codes "rpc_url"))
    → Plain (stripped (normalize_settings settings) (codes "rpc_user"))
    → classify (field (normalize_settings settings) (codes "rpc_pass")) ≡ unknown
    → main env (build_daemon_args settings) ≡ left
unfolding main parse_args build_daemon_args daemon_options bytes_eq store_value
main-left env settings url user pass =
    let s = normalize_settings settings in
    let address : Str = stripped s (codes "rpc_url") in
    let start : Namespace = record no_args { rpc_url = some address } in
    let refused : parse_options (daemon_options s) no_args ≡ none =
      parse_pair Opt.rpc_url address _ no_args start url refl
      ∙ (parse_optional Opt.rpc_user (stripped s (codes "rpc_user")) _
            (λ u. record start { rpc_user = u }) user (λ u. refl)
          ∙ parse_refused Opt.rpc_pass (field s (codes "rpc_pass")) _ _ pass) in
    rw (main, refused) refl
