-- ===== src/Cli/Options.antt =====
-- The options of `p2pearl daemon`, and how argparse reads a list of arguments into a namespace. None
-- stands for the cases where argparse leaves the program: a usage error, or the help.
use mathlib.Core.Option
use p2pearl.Prelude.{
  ℕ, Bool, true, false, ◌&&◌, ◌||◌, not, leb, ◌==◌, if◌then◌else◌, Option, none, some, List, [],
  ◌∷◌, ◌++◌, ℤ, pos, ◌≡◌, refl, all,
}
use p2pearl.Prelude.Keys.{Str, bytes_eq}
use p2pearl.Prelude.Text.{codes, int_of, partition, has_prefix, has_char}

-- The arguments that `add_argument` declares.
pub data Opt : Type 0 where
  rpc_url rpc_user rpc_pass stratum_host stratum_port stratum_target_factor : Opt
  p2p_host p2p_port peer share_target pause_cmd resume_cmd : Opt

abbrev pub flag_name : Opt → Str
flag_name rpc_url = codes "--rpc-url"
flag_name rpc_user = codes "--rpc-user"
flag_name rpc_pass = codes "--rpc-pass"
flag_name stratum_host = codes "--stratum-host"
flag_name stratum_port = codes "--stratum-port"
flag_name stratum_target_factor = codes "--stratum-target-factor"
flag_name p2p_host = codes "--p2p-host"
flag_name p2p_port = codes "--p2p-port"
flag_name peer = codes "--peer"
flag_name share_target = codes "--share-target"
flag_name pause_cmd = codes "--pause-cmd"
flag_name resume_cmd = codes "--resume-cmd"

abbrev options : List Opt
options =
    rpc_url ∷ rpc_user ∷ rpc_pass ∷ stratum_host ∷ stratum_port ∷ stratum_target_factor ∷ p2p_host
    ∷ p2p_port ∷ peer ∷ share_target ∷ pause_cmd ∷ resume_cmd ∷ []

-- The `Namespace` that the parser fills.
pub record Namespace : Type 0 where
  pub rpc_url : Option Str
  pub rpc_user : Option Str
  pub rpc_pass : Option Str
  pub stratum_host : Str
  pub stratum_port : ℤ
  pub stratum_target_factor : Option ℤ
  pub p2p_host : Str
  pub p2p_port : ℤ
  pub peer : List Str
  pub share_target : Option Str
  pub pause_cmd : Option Str
  pub resume_cmd : Option Str

-- The declared defaults.
abbrev pub no_args : Namespace
no_args = record {
  rpc_url = none;
  rpc_user = none;
  rpc_pass = none;
  stratum_host = codes "0.0.0.0";
  stratum_port = pos 3360;
  stratum_target_factor = none;
  p2p_host = codes "0.0.0.0";
  p2p_port = pos 37900;
  peer = [];
  share_target = none;
  pause_cmd = none;
  resume_cmd = none;
}

-- One option's value, of the option's type: `type=int` refuses what is no number, and
-- `action="append"` keeps the values before.
unfoldable pub store_value : Opt → Str → Namespace → Option Namespace
store_value rpc_url v a = some (record a { rpc_url = some v })
store_value rpc_user v a = some (record a { rpc_user = some v })
store_value rpc_pass v a = some (record a { rpc_pass = some v })
store_value stratum_host v a = some (record a { stratum_host = v })
store_value stratum_port v a = Option.map (λ n. record a { stratum_port = n }) (int_of v)
store_value stratum_target_factor v a =
    Option.map (λ n. record a { stratum_target_factor = some n }) (int_of v)
store_value p2p_host v a = some (record a { p2p_host = v })
store_value p2p_port v a = Option.map (λ n. record a { p2p_port = n }) (int_of v)
store_value peer v a = some (record a { peer = a.peer ++ v ∷ [] })
store_value share_target v a = some (record a { share_target = some v })
store_value pause_cmd v a = some (record a { pause_cmd = some v })
store_value resume_cmd v a = some (record a { resume_cmd = some v })

-- The options whose name passes a test.
unfoldable pub named : (Str → Bool) → List Opt → List Opt
named p [] = []
named p (o ∷ os) = let rest = named p os in if p (flag_name o) then o ∷ rest else rest

abbrev only : List Opt → Option Opt
only (o ∷ []) = some o
only _ = none

-- A flag in full, or a beginning of one flag alone.
unfoldable pub find_flag : Str → Option Opt
unfolding named
find_flag s = elim (named (bytes_eq s) options) [
  | o ∷ _ ↦ some o
  | [] ↦ elim (has_prefix s (codes "--help")) [
    | true ↦ none
    | false ↦ only (named (has_prefix s) options)
  ]
]

abbrev is_digit : ℕ → Bool
is_digit c = leb 48 c && leb c 57

-- `^-\d+$|^-\d*\.\d+$`, behind the dash
abbrev is_number : Str → Bool
is_number [] = false
is_number (c ∷ cs) = all is_digit (c ∷ cs) || elim (partition 46 (c ∷ cs)) [
  | none ↦ false
  | some (whole, []) ↦ false
  | some (whole, d ∷ ds) ↦ all is_digit whole && all is_digit (d ∷ ds)
]

-- No flag alone, but the beginning of some, or of the help.
abbrev is_ambiguous : Str → Bool
is_ambiguous s = elim (named (has_prefix s) options) [
  | _ ∷ _ ↦ true
  | [] ↦ has_prefix s (codes "--help")
]

-- What argparse takes an argument for.
pub data Arg : Type 0 where
  value unknown : Arg
  flag : Opt → Arg
  flag_with : Opt → Str → Arg

-- An argument that begins with a dash and has no flag for its name.
abbrev dashed : Str → Arg
dashed s = if is_number s || has_char 32 s then value else unknown

abbrev flag_or_dashed : Str → Option Opt → Arg
flag_or_dashed s none = dashed s
flag_or_dashed s (some o) = flag o

-- Behind two dashes: `--name`, `--name=value`, or neither.
abbrev long_arg : Str → Arg
long_arg s = elim (partition 61 s) [
  | none ↦ flag_or_dashed (45 ∷ s) (find_flag (45 ∷ 45 ∷ s))
  | some (name, v) ↦ elim (find_flag (45 ∷ 45 ∷ name)) [
    | none ↦ if is_ambiguous (45 ∷ 45 ∷ name) then unknown else dashed (45 ∷ s)
    | some o ↦ flag_with o v
  ]
]

-- `_parse_optional`. What begins with one dash and an `h` is the help.
unfoldable pub classify : Str → Arg
unfolding find_flag
classify [] = value
classify (c ∷ []) = value
classify (c ∷ d ∷ cs) =
    if not (c == 45)
    then value
    else if (d == 45)
    then elim cs [ [] ↦ unknown | x ∷ xs ↦ long_arg (x ∷ xs) ]
    else if d == 104
    then unknown
    else dashed (d ∷ cs)

abbrev with_value : Arg → Option Str → Option Str
with_value value v = v
with_value _ v = none

-- The loop over the arguments behind `daemon`, where each option takes one value.
unfoldable pub parse_options : List Str → Namespace → Option Namespace
parse_options [] a = some a
parse_options (arg ∷ []) a = elim (classify arg) [ flag_with o v ↦ store_value o v a | _ ↦ none ]
parse_options (arg ∷ next ∷ rest) a = elim (classify arg) [
  | flag_with o v ↦ elim (store_value o v a) [
    | none ↦ none
    | some a' ↦ parse_options (next ∷ rest) a'
  ]
  | flag o ↦ elim (classify next) [
    | value ↦ elim (store_value o next a) [ none ↦ none | some a' ↦ parse_options rest a' ]
    | _ ↦ none
  ]
  | _ ↦ none
]

-- A text that does not begin with a dash.
abbrev pub Plain : Str → Type 0
Plain [] = Unit {0}
Plain (c ∷ cs) = (c == 45) ≡ false

pub classify-Plain : (s : Str) → Plain s → classify s ≡ value
unfolding classify
classify-Plain [] h = refl
classify-Plain (c ∷ []) h = refl
classify-Plain (c ∷ d ∷ cs) h = rw h refl

pub classify-flag_name : (o : Opt) → classify (flag_name o) ≡ flag o
unfolding classify partition bytes_eq
classify-flag_name rpc_url = refl
classify-flag_name rpc_user = refl
classify-flag_name rpc_pass = refl
classify-flag_name stratum_host = refl
classify-flag_name stratum_port = refl
classify-flag_name stratum_target_factor = refl
classify-flag_name p2p_host = refl
classify-flag_name p2p_port = refl
classify-flag_name peer = refl
classify-flag_name share_target = refl
classify-flag_name pause_cmd = refl
classify-flag_name resume_cmd = refl
