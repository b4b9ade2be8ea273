-- ===== src/Options/Tests.antt =====
-- Runs of the command line.
use planck.Prelude.{
  ◌≡◌, refl, some, none, true, List, ℕ, codes, str_eq, [], ◌∷◌, length, ◌==◌, if◌then◌else◌,
}
use planck.Prelude.Int.{pos}
use planck.Theme.{check_theme, default_theme_for_terminal}
use planck.Config.{Config}
use planck.Options.Parse.{
  Getopt, no_more, option, Parsed, running, parse_opts, process_opt, opt_of, initial,
  initial_config, socket_repl_of,
}
use planck.Options.Script.{is_main_arg, should_ignore_arg, index_of_script_path_or_hyphen}
use planck.Options.Scripts.{scripts_in}
use planck.Options.Setup.{
  Environment, Action, run_scripts, setup, ready, full_classpath, configure, choose_theme,
  check_config, search_paths,
}
use planck.Options.Exclusive.{IsReady, setup-IsReady}

-- plk -q -k c -e 1 -i f -m n -r
abbrev some_options : Getopt
some_options = option b'q' [] [] (
    option b'k' (codes "c") [] (
      option b'e' (codes "1") [] (
        option b'i' (codes "f") []
          (option b'm' (codes "n") (codes "-r" ∷ []) (option b'r' [] [] (no_more []))))))

abbrev parsed_options : Parsed
parsed_options = record {
  config = record initial_config {
    quiet = true;
    cache_path = some (codes "c");
    scripts = scripts_in some_options;
    main_ns_name = some (codes "n");
  };
  classpath = none;
  dependencies = none;
  local_repo = none;
  did_encounter_main_opt = true;
}

options_run : parse_opts some_options initial ≡ running (parsed_options, codes "-r" ∷ [])
unfolding parse_opts process_opt opt_of
options_run = refl

socket_forms :
    (socket_repl_of (codes "0.0.0.0:55") ≡ (some (codes "0.0.0.0"), pos 55))
    × (socket_repl_of (codes "77") ≡ (some (codes "localhost"), pos 77))
    × (socket_repl_of (codes "x") ≡ (none, pos 0))
unfolding socket_repl_of
socket_forms = (refl, refl, refl)

abbrev here : Environment
here = record {
  home = some (codes "/home/u");
  planck_classpath = none;
  no_color = none;
  color_fg_bg = none;
  cwd = some (codes "/home/u");
}

abbrev started : Config
started = record (parsed_options.config) {
  theme = some (codes "light");
  rest_args = codes "-r" ∷ [];
}

setup_runs : setup here some_options ≡ ready started
unfolding setup parse_opts process_opt opt_of full_classpath configure choose_theme check_config
    search_paths check_theme default_theme_for_terminal str_eq
setup_runs = refl

index_runs :
    index_of_script_path_or_hyphen
      (codes "planck" ∷ codes "-i" ∷ codes "a" ∷ codes "-q" ∷ codes "b" ∷ codes "-v" ∷ [])
    ≡ 4
unfolding index_of_script_path_or_hyphen is_main_arg should_ignore_arg str_eq
index_runs = refl

setup-IsReady_example : IsReady started
setup-IsReady_example = setup-IsReady here some_options setup_runs

-- The second of two scripts sets the exit value 3.
abbrev three_after_two : List Action → ℕ
three_after_two acted = if length acted == 2 then 3 else 0

stops_there : length (run_scripts three_after_two initial_config (scripts_in some_options) []) ≡ 2
unfolding run_scripts opt_of
stops_there = refl
