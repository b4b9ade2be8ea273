-- ===== src/Options/Parse.antt =====
-- main.c: the switch on one option, and the loop over them.
use planck.Prelude.{
  ℕ, zero, suc, Bool, true, false, ◌&&◌, ◌||◌, Option, none, some, List, [], ◌∷◌, ◌++◌, Bytes,
  codes, ◌==◌, leb, str_eq, if◌then◌else◌,
}
use planck.Prelude.Int.{ℤ, pos, sub_ℕ}
use planck.Text.Decimal.{digit, digits_from}
use planck.Config.{Config, Script, ScriptType}
use planck.Classpath.{ensure_trailing_slash}

-- What ends the process in the loop.
pub data Stop : Type 0 where
  shown_help shown_version shown_legal bad_checked_arrays bad_optimizations : Stop
  cache_conflict bad_usage : Stop
  dumped_sdk : Bytes → Stop

-- The local variables of `main` beside the configuration.
pub record Parsed : Type 0 where
  pub config : Config
  pub classpath : Option Bytes
  pub dependencies : Option Bytes
  pub local_repo : Option Bytes
  pub did_encounter_main_opt : Bool

pub data Outcome {ℓ} (A : Type ℓ) : Type ℓ where
  running : A → Outcome A
  stopped : Stop → Outcome A

-- `sscanf` with %d: blanks, a sign, and at least one digit.
abbrev unsigned : Bytes → Option ℕ
unsigned [] = none
unsigned (c ∷ cs) = if digit c then some (digits_from 0 (c ∷ cs)) else none

abbrev signed : Bool → Option ℕ → Option ℤ
signed negative none = none
signed true (some n) = some (sub_ℕ 0 n)
signed false (some n) = some (pos n)

abbrev after_blanks : Bytes → Option ℤ
after_blanks [] = none
after_blanks (c ∷ cs) =
    if c == b'-'
    then signed true (unsigned cs)
    else if c == b'+'
    then signed false (unsigned cs)
    else signed false (unsigned (c ∷ cs))

abbrev space : ℕ → Bool
space c = c == b' ' || leb 9 c && leb c 13

pub scan_int : Bytes → Option ℤ
unfolding digits_from
scan_int [] = none
scan_int (c ∷ cs) = let rest = scan_int cs in if space c then rest else after_blanks (c ∷ cs)

-- `%255[^:]`: the bytes before the first colon, 255 at most, and what is left.
pub host_of : ℕ → Bytes → Bytes × Bytes
host_of zero s = ([], s)
host_of (suc room) [] = ([], [])
host_of (suc room) (c ∷ cs) =
    let (host, rest) = host_of room cs in if c == b':' then ([], c ∷ cs) else (c ∷ host, rest)

abbrev port_behind : Bytes → Option ℤ
port_behind [] = none
port_behind (c ∷ cs) = if c == b':' then scan_int cs else none

abbrev only_port : Option ℤ → Option Bytes × ℤ
only_port none = (none, pos 0)
only_port (some port) = (some (codes "localhost"), port)

abbrev host_and_port : Bytes → Bytes → Option ℤ → Option Bytes × ℤ
host_and_port optarg [] port = only_port (scan_int optarg)
host_and_port optarg (c ∷ host) none = only_port (scan_int optarg)
host_and_port optarg (c ∷ host) (some port) = (some (c ∷ host), port)

-- The host and the port of -n. Where neither form fits, the port is 0 and the host is freed.
unfoldable pub socket_repl_of : Bytes → Option Bytes × ℤ
unfolding scan_int host_of
socket_repl_of optarg =
    let (host, rest) = host_of 255 optarg in host_and_port optarg host (port_behind rest)

abbrev pub script : ScriptType → Bool → Bytes → Script
script t e s = record { type = t; expression = e; source = s }

abbrev with_config : Parsed → Config → Outcome Parsed
with_config p c = running (record p { config = c })

-- -k and -K: at most one of them. (The directory that -K makes is no part of the configuration.)
abbrev with_cache : Parsed → Option Bytes → Bytes → Outcome Parsed
with_cache p none cache = with_config p (record (p.config) { cache_path = some cache })
with_cache p (some old) cache = stopped cache_conflict

-- The labels of the switch.
pub data Opt : Type 0 where
  compile_opts launch_time help version dump_sdk legal verbose quiet repl checked_arrays : Opt
  optimizations static_fns fn_invoke_direct elide_asserts cache auto_cache javascript : Opt
  eval init main theme socket_repl dumb_terminal classpath dependencies local_repo out : Opt
  unknown unhandled : Opt

-- The characters that `getopt_long` returns.
unfoldable pub opt_of : ℕ → Opt
opt_of opt =
    if opt == 1
    then compile_opts
    else if opt == b'X'
    then launch_time
    else if opt == b'h'
    then help
    else if opt == b'V'
    then version
    else if opt == b'S'
    then dump_sdk
    else if opt == b'l'
    then legal
    else if opt == b'v'
    then verbose
    else if opt == b'q'
    then quiet
    else if opt == b'r'
    then repl
    else if opt == b'A'
    then checked_arrays
    else if opt == b'O'
    then optimizations
    else if opt == b's'
    then static_fns
    else if opt == b'f'
    then fn_invoke_direct
    else if opt == b'a'
    then elide_asserts
    else if opt == b'k'
    then cache
    else if opt == b'K'
    then auto_cache
    else if opt == b'j'
    then javascript
    else if opt == b'e'
    then eval
    else if opt == b'i'
    then init
    else if opt == b'm'
    then main
    else if opt == b't'
    then theme
    else if opt == b'n'
    then socket_repl
    else if opt == b'd'
    then dumb_terminal
    else if opt == b'c'
    then classpath
    else if opt == b'D'
    then dependencies
    else if opt == b'L'
    then local_repo
    else if opt == b'o'
    then out
    else if opt == b'?'
    then unknown
    else unhandled

-- The switch, with the option's argument. An option that is not handled is reported and skipped.
unfoldable pub process_opt : Opt → Bytes → Parsed → Outcome Parsed
process_opt compile_opts optarg p =
    with_config p (record (p.config) { compile_opts = p.config.compile_opts ++ optarg ∷ [] })
process_opt launch_time optarg p = running p
process_opt help optarg p = stopped shown_help
process_opt version optarg p = stopped shown_version
process_opt dump_sdk optarg p = stopped (dumped_sdk optarg)
process_opt legal optarg p = stopped shown_legal
process_opt verbose optarg p = with_config p (record (p.config) { verbose = true })
process_opt quiet optarg p = with_config p (record (p.config) { quiet = true })
process_opt repl optarg p =
    running (record p { did_encounter_main_opt = true; config = record (p.config) { repl = true } })
process_opt checked_arrays optarg p =
    if str_eq optarg (codes "warn") || str_eq optarg (codes "error")
    then with_config p (record (p.config) { checked_arrays = some optarg })
    else stopped bad_checked_arrays
process_opt optimizations optarg p =
    if str_eq optarg (codes "none")
      || (str_eq optarg (codes "whitespace") || str_eq optarg (codes "simple"))
    then with_config p (record (p.config) { optimizations = optarg })
    else stopped bad_optimizations
process_opt static_fns optarg p = with_config p (record (p.config) { static_fns = true })
process_opt fn_invoke_direct optarg p =
    with_config p (record (p.config) { fn_invoke_direct = true })
process_opt elide_asserts optarg p = with_config p (record (p.config) { elide_asserts = true })
process_opt cache optarg p = with_cache p p.config.cache_path optarg
process_opt auto_cache optarg p = with_cache p p.config.cache_path (codes ".planck_cache")
process_opt javascript optarg p = with_config p (record (p.config) { javascript = true })
process_opt eval optarg p =
    with_config p
      (record (p.config) { scripts = p.config.scripts ++ script ScriptType.text true optarg ∷ [] })
process_opt init optarg p =
    with_config p
      (record (p.config) { scripts = p.config.scripts ++ script ScriptType.path false optarg ∷ [] })
process_opt main optarg p = running (record p {
  did_encounter_main_opt = true;
  config = record (p.config) { main_ns_name = some optarg };
})
process_opt theme optarg p = with_config p (record (p.config) { theme = some optarg })
process_opt socket_repl optarg p =
    let (host, port) = socket_repl_of optarg in
    with_config p (record (p.config) { socket_repl_host = host; socket_repl_port = port })
process_opt dumb_terminal optarg p = with_config p (record (p.config) { dumb_terminal = true })
process_opt classpath optarg p = running (record p { classpath = some optarg })
process_opt dependencies optarg p = running (record p { dependencies = some optarg })
process_opt local_repo optarg p = running (record p { local_repo = some optarg })
process_opt out optarg p =
    with_config p (record (p.config) { out_path = some (ensure_trailing_slash optarg) })
process_opt unknown optarg p = stopped bad_usage
process_opt unhandled optarg p = running p

-- What the calls of `getopt_long` return: an option with its argument and the arguments from
-- `optind` on, or -1 with those.
pub data Getopt : Type 0 where
  no_more : List Bytes → Getopt
  option : ℕ → Bytes → List Bytes → Getopt → Getopt

-- Behind one option: the loop ends at a main option.
abbrev pub continue_with :
    Outcome Parsed
    → List Bytes
    → (Parsed → Outcome (Parsed × List Bytes))
    → Outcome (Parsed × List Bytes)
continue_with (running p) rest loop = if p.did_encounter_main_opt then running (p, rest) else loop p
continue_with (stopped why) rest loop = stopped why

-- The loop, entered where no main option was met.
unfoldable pub parse_opts : Getopt → Parsed → Outcome (Parsed × List Bytes)
parse_opts (no_more rest) p = running (p, rest)
parse_opts (option opt optarg rest more) p =
    continue_with (process_opt (opt_of opt) optarg p) rest (parse_opts more)

abbrev pub initial_config : Config
initial_config = record {
  verbose = false;
  quiet = false;
  repl = false;
  javascript = false;
  checked_arrays = none;
  static_fns = false;
  fn_invoke_direct = false;
  elide_asserts = false;
  optimizations = codes "none";
  theme = none;
  dumb_terminal = false;
  main_ns_name = none;
  rest_args = [];
  out_path = none;
  cache_path = none;
  src_paths = [];
  scripts = [];
  socket_repl_host = none;
  socket_repl_port = pos 0;
  compile_opts = [];
}

abbrev pub initial : Parsed
initial = record {
  config = initial_config;
  classpath = none;
  dependencies = none;
  local_repo = none;
  did_encounter_main_opt = false;
}
