-- ===== src/Options/Setup.antt =====
-- main.c: what `main` does between the options and the engine, and then with it.
use planck.Prelude.{
  ℕ, Bool, true, false, not, ◌&&◌, Option, none, some, List, [], ◌∷◌, ◌++◌, Bytes, codes, ◌==◌,
  str_eq, if◌then◌else◌,
}
use planck.Config.{Config, Script, ScriptType, SrcPath}
use planck.Theme.{default_theme_for_terminal, check_theme}
use planck.Classpath.{calculate_dependencies_classpath, init_classpath}
use planck.Options.Parse.{
  Parsed, Getopt, Outcome, running, stopped, Stop, parse_opts, initial, script,
}

-- The values of HOME, PLANCK_CLASSPATH, NO_COLOR and COLORFGBG, and the result of `getcwd`.
pub record Environment : Type 0 where
  pub home : Option Bytes
  pub planck_classpath : Option Bytes
  pub no_color : Option Bytes
  pub color_fg_bg : Option Bytes
  pub cwd : Option Bytes

-- Ways to end before the engine starts. `crashed` is the read of a null pointer in
-- `calculate_dependencies_classpath`.
pub data Setup : Type 0 where
  in_options : Stop → Setup
  unsupported_theme two_main_opts crashed : Setup
  ready : Config → Setup

abbrev local_repo_of : Option Bytes → Option Bytes → Option Bytes
local_repo_of (some repo) home = some repo
local_repo_of none none = none
local_repo_of none (some home) = some (home ++ codes "/.m2/repository")

abbrev join : Option Bytes → Bytes → Bytes
join none dependencies_classpath = dependencies_classpath
join (some classpath) dependencies_classpath = (classpath ++ codes ":") ++ dependencies_classpath

abbrev joined : Option Bytes → Option Bytes → Option (Option Bytes)
joined classpath none = none
joined classpath (some d) = some (some (join classpath d))

abbrev in_repo : Option Bytes → Bytes → Option Bytes → Option (Option Bytes)
in_repo classpath dependencies none = some classpath
in_repo classpath dependencies (some repo) =
    joined classpath (calculate_dependencies_classpath dependencies repo)

-- The class path with the dependencies behind it; `none` is the crash.
unfoldable pub full_classpath : Option Bytes → Option Bytes → Option Bytes → Option (Option Bytes)
full_classpath classpath none repo = some classpath
full_classpath classpath (some dependencies) repo = in_repo classpath dependencies repo

abbrev add_classpath : Option Bytes → Option Bytes → List SrcPath → List SrcPath
add_classpath cwd none src_paths = src_paths
add_classpath cwd (some classpath) src_paths = init_classpath cwd classpath src_paths

abbrev or_environment : Environment → List SrcPath → List SrcPath
or_environment env [] = add_classpath env.cwd env.planck_classpath []
or_environment env (p ∷ ps) = p ∷ ps

unfoldable pub search_paths : Environment → Option Bytes → List SrcPath → List SrcPath
search_paths env classpath src_paths =
    or_environment env (add_classpath env.cwd classpath src_paths)

abbrev theme_or_default : Environment → Option Bytes → Bytes
theme_or_default env none = default_theme_for_terminal env.no_color env.color_fg_bg
theme_or_default env (some theme) = theme

unfoldable pub choose_theme : Environment → Config → Bytes
choose_theme env c = if c.dumb_terminal then codes "plain" else theme_or_default env c.theme

abbrev pub is_none : Option Bytes → Bool
is_none none = true
is_none (some b) = false

abbrev is_empty {ℓ} : {A : Type ℓ} → List A → Bool
is_empty [] = true
is_empty (x ∷ xs) = false

-- A REPL is the default.
abbrev default_repl : Config → Bool
default_repl c =
    is_empty c.scripts
    && (is_none c.main_ns_name && (is_empty c.rest_args && is_empty c.compile_opts))

unfoldable pub check_config : Bytes → Config → Setup
check_config theme c =
    if not (check_theme 5 theme).0
    then unsupported_theme
    else if not (is_none c.main_ns_name) && c.repl
    then two_main_opts
    else ready c

-- The configuration with the paths, the theme and the remaining arguments.
abbrev pub completed : Config → Bytes → List Bytes → List SrcPath → Config
completed c theme rest src_paths =
    let c' : Config = record c { src_paths = src_paths; theme = some theme; rest_args = rest } in
    record c' { repl = if default_repl c' then true else c'.repl }

unfoldable pub configure : Environment → Config → List Bytes → List SrcPath → Setup
configure env c rest src_paths =
    let theme = choose_theme env c in check_config theme (completed c theme rest src_paths)

abbrev pub with_paths : Environment → Config → List Bytes → Option (Option Bytes) → Setup
with_paths env c rest none = crashed
with_paths env c rest (some classpath) =
    configure env c rest (search_paths env classpath c.src_paths)

abbrev pub after_options : Environment → Outcome (Parsed × List Bytes) → Setup
after_options env (stopped why) = in_options why
after_options env (running (p, rest)) =
    with_paths env p.config rest
      (full_classpath p.classpath p.dependencies (local_repo_of p.local_repo env.home))

-- `main` up to `engine_init`.
unfoldable pub setup : Environment → Getopt → Setup
setup env g = after_options env (parse_opts g initial)

-- What is asked of the engine. `evaluate_stdin` reads all of the standard input first. (The two
-- forms that a build for an old JavaScriptCore evaluates before a script are left out.)
pub data Action : Type 0 where
  evaluate : Script → Action
  evaluate_stdin : Action
  run_main_in_ns : Bytes → List Bytes → Action
  banner run_repl run_main_cli_fn block_until_tasks_complete engine_shutdown : Action

abbrev script_action : Bytes → Action
script_action p =
    if str_eq p (codes "-") then evaluate_stdin else evaluate (script ScriptType.path false p)

abbrev pub repl_actions : Config → List Action
repl_actions c = if not c.quiet && is_empty c.scripts then banner ∷ run_repl ∷ [] else run_repl ∷ []

abbrev pub rest_action : Config → List Bytes → List Action
rest_action c [] = []
rest_action c (p ∷ rest) = script_action p ∷ []

unfoldable pub main_action : Config → Option Bytes → List Action
main_action c (some ns) = run_main_in_ns ns c.rest_args ∷ []
main_action c none = if c.repl then repl_actions c else rest_action c c.rest_args

-- `exit_value` is read after the scripts and at the end; `exit_of` tells what it is after some
-- actions, which is up to the scripts. (What is evaluated does not end the process here.)
module _ (exit_of : List Action → ℕ) where
  unfoldable pub run_rest : Config → List Action → List Action
  run_rest c before =
      let acted = before ++ main_action c c.main_ns_name in
      let called =
        if not c.repl && is_none c.main_ns_name then acted ++ run_main_cli_fn ∷ [] else acted in
      if exit_of called == 0
      then called ++ block_until_tasks_complete ∷ engine_shutdown ∷ []
      else called ++ engine_shutdown ∷ []

  unfoldable pub run_scripts : Config → List Script → List Action → List Action
  unfolding run_rest
  run_scripts c [] before = run_rest c before
  run_scripts c (s ∷ ss) before =
      let acted = before ++ evaluate s ∷ [] in
      let rest = run_scripts c ss acted in if exit_of acted == 0 then rest else acted
