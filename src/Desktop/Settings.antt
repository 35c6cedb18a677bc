-- ===== src/Desktop/Settings.antt =====
-- The settings of p2pearl/gui.py, and the command lines of the node, the miner and pearld. A settings
-- dictionary has strings for keys and values; `json` and the file are read outside.
use mathlib.Core.Option
use p2pearl.Prelude.{
  ℕ, Bool, false, ◌&&◌, ◌||◌, ltb, ◌==◌, if◌then◌else◌, Option, none, some, List, [], ◌∷◌, ◌++◌,
}
use p2pearl.Prelude.Result.{Result, ok, raise, attribute_error, key_error, ◌>>=◌, or_raise}
use p2pearl.Prelude.Keys.{Str, bytes_key, bytes_eq}
use p2pearl.Prelude.Dict.{Dict, lookup, insert, contains}
use p2pearl.Prelude.Text.{codes, strip, or_str, splitlines, decimal}

pub record Network : Type 0 where
  pub flag : Option Str
  pub rpc_port : ℕ

abbrev pub networks : Dict Str Network
networks =
    (codes "mainnet", record { flag = none; rpc_port = 44107 })
    ∷ (codes "testnet", record { flag = some (codes "--testnet"); rpc_port = 44109 })
    ∷ (codes "regtest", record { flag = some (codes "--regtest"); rpc_port = 44107 })
    ∷ []

abbrev pub Settings : Type 0
Settings = Dict Str Str

abbrev default_factor : Str
default_factor = codes "256"

unfoldable pub defaults : Settings
defaults =
    (codes "rpc_url", codes "http://127.0.0.1:44107")
    ∷ (codes "rpc_user", codes "user")
    ∷ (codes "rpc_pass", codes "pass")
    ∷ (codes "manage_pearld", codes "auto")
    ∷ (codes "network", codes "mainnet")
    ∷ (codes "stratum_host", codes "0.0.0.0")
    ∷ (codes "stratum_port", codes "3360")
    ∷ (codes "stratum_target_factor", default_factor)
    ∷ (codes "p2p_host", codes "0.0.0.0")
    ∷ (codes "p2p_port", codes "37900")
    ∷ (codes "peers", [])
    ∷ (codes "wallet", [])
    ∷ (codes "share_target", [])
    ∷ (codes "pause_cmd", [])
    ∷ (codes "resume_cmd", [])
    ∷ []

-- `d.update(e)`
unfoldable pub update : Settings → Settings → Settings
update d [] = d
update d ((k, v) ∷ e) = update (insert k v d) e

-- `{k: v for k, v in saved.items() if k in DEFAULTS}`
unfoldable pub known_only : Settings → Settings
known_only [] = []
known_only ((k, v) ∷ e) =
    let rest = known_only e in if contains k defaults then (k, v) ∷ rest else rest

-- What the file holds: nothing that can be read as JSON, JSON that is no object, or an object, each
-- value as `str` prints it.
pub data Saved : Type 0 where
  unreadable not_object : Saved
  object : Settings → Saved

-- Only OSError and ValueError are caught, and `items` of what is no object is neither.
unfoldable pub load_settings : Saved → Result Settings
unfolding update known_only
load_settings unreadable = ok defaults
load_settings not_object = raise attribute_error
load_settings (object saved) = ok (update defaults (known_only saved))

-- `s[key]`, for a key of `DEFAULTS`, which a merged dictionary has
unfoldable pub field : Settings → Str → Str
field s key = Option.get_or (lookup key s) []

-- `managed_rpc_url`, for a network's port
unfoldable pub local_url : ℕ → Str
local_url port = codes "http://127.0.0.1:" ++ decimal port

unfoldable pub managed_rpc_url : Str → Result Str
managed_rpc_url network = do
  net ← or_raise (lookup network networks) key_error
  ok (local_url net.rpc_port)

unfoldable pub known_network : Settings → Settings
known_network s =
    if contains (field s (codes "network")) networks
    then s
    else insert (codes "network") (codes "mainnet") s

-- In managed mode the URL follows the network, which is a known one by then.
unfoldable pub managed_url : Settings → Settings
managed_url s =
    if bytes_eq (field s (codes "manage_pearld")) (codes "1")
    then elim (managed_rpc_url (field s (codes "network"))) [
      | raise e ↦ s
      | ok url ↦ insert (codes "rpc_url") url s
    ]
    else s

unfoldable pub normalize_settings : Settings → Settings
unfolding managed_url known_network
normalize_settings settings = managed_url (known_network (update defaults settings))

-- `args += [flag, value]`, where there is a value
abbrev pub optional : Str → Str → List Str
optional flag [] = []
optional flag (c ∷ cs) = flag ∷ (c ∷ cs) ∷ []

-- The loop over the lines of `peers`.
unfoldable pub peer_args : List Str → List Str
peer_args [] = []
peer_args (line ∷ lines) = optional (codes "--peer") (strip line) ++ peer_args lines

-- `s[key].strip()`
abbrev pub stripped : Settings → Str → Str
stripped s key = strip (field s key)

-- The arguments behind `daemon`, of normalized settings.
unfoldable pub daemon_options : Settings → List Str
unfolding peer_args
daemon_options s =
    codes "--rpc-url"
    ∷ stripped s (codes "rpc_url")
    ∷ (optional (codes "--rpc-user") (stripped s (codes "rpc_user"))
        ++ (optional (codes "--rpc-pass") (field s (codes "rpc_pass"))
            ++ (codes "--stratum-host"
                ∷ or_str (stripped s (codes "stratum_host")) (codes "0.0.0.0")
                ∷ codes "--stratum-port"
                ∷ or_str (stripped s (codes "stratum_port")) (codes "3360")
                ∷ codes "--stratum-target-factor"
                ∷ or_str (stripped s (codes "stratum_target_factor")) default_factor
                ∷ codes "--p2p-host"
                ∷ or_str (stripped s (codes "p2p_host")) (codes "0.0.0.0")
                ∷ codes "--p2p-port"
                ∷ or_str (stripped s (codes "p2p_port")) (codes "37900")
                ∷ (peer_args (splitlines (field s (codes "peers")))
                    ++ (optional (codes "--share-target") (stripped s (codes "share_target"))
                        ++ (optional (codes "--pause-cmd") (stripped s (codes "pause_cmd"))
                            ++ optional (codes "--resume-cmd")
                                (stripped s (codes "resume_cmd"))))))))

unfoldable pub build_daemon_args : Settings → List Str
unfolding normalize_settings daemon_options
build_daemon_args settings = codes "daemon" ∷ daemon_options (normalize_settings settings)

unfoldable pub miner_command : Settings → Str
unfolding update
miner_command settings =
    let s = update defaults settings in
    codes "SRBMiner-MULTI --algorithm pearlhash --pool <this-machine-ip>:"
    ++ (or_str (stripped s (codes "stratum_port")) (codes "3360")
        ++ (codes " --wallet "
            ++ (or_str (stripped s (codes "wallet")) (codes "<your-prl1p...-address>")
                ++ codes " --disable-cpu")))

abbrev flag_list : Option Str → List Str
flag_list none = []
flag_list (some flag) = flag ∷ []

-- The command line of the managed pearld; paths are POSIX paths.
unfoldable pub pearld_args : Str → Settings → Str → Result (List Str)
unfolding update
pearld_args exe settings datadir =
    let s = update defaults settings in
    do
      net ← or_raise (lookup (field s (codes "network")) networks) key_error
      ok (
          exe
          ∷ codes "--notls"
          ∷ (codes "--rpcuser=" ++ or_str (stripped s (codes "rpc_user")) (codes "user"))
          ∷ (codes "--rpcpass=" ++ or_str (field s (codes "rpc_pass")) (codes "pass"))
          ∷ (codes "--rpclisten=127.0.0.1:" ++ decimal net.rpc_port)
          ∷ (codes "--datadir=" ++ datadir)
          ∷ (codes "--logdir=" ++ (datadir ++ codes "/logs"))
          ∷ codes "--nolisten"
          ∷ flag_list net.flag)

abbrev pub Version : Type 0
Version = ℕ × ℕ × ℕ

-- `a < b` on tuples
unfoldable pub version_lt : Version → Version → Bool
version_lt (a, b, c) (x, y, z) = ltb a x || ((a == x) && (ltb b y || ((b == y) && ltb c z)))

abbrev pub min_managed_pearld_version : Version
min_managed_pearld_version = (1, 1, 0)

unfoldable pub managed_pearld_too_old : Option Version → Bool
unfolding version_lt
managed_pearld_too_old none = false
managed_pearld_too_old (some v) = version_lt v min_managed_pearld_version

unfoldable pub format_version : Option Version → Str
format_version none = codes "unknown"
format_version (some (a, b, c)) = decimal a ++ (46 ∷ (decimal b ++ (46 ∷ decimal c)))
