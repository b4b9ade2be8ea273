-- ===== src/Options/Exclusive.antt =====
-- main.c: at most one main option, and a theme that can be shown, reach the engine.
use planck.Prelude.{
  ℕ, ◌≡◌, ◌≢◌, ◌⊎◌, inl, inr, refl, subst, true, false, Option, none, some, List, Bytes, codes,
  arith,
}
use planck.Config.{Config, SrcPath}
use planck.Theme.{check_theme}
use planck.Theme.Supported.{check_theme_iff}
use planck.Options.Parse.{
  Opt, compile_opts, Parsed, Getopt, no_more, option, Outcome, running, stopped, process_opt,
  opt_of, parse_opts, initial,
}
use planck.Options.Loop.{running-injective, OneTurn, again, last, round_of}
use planck.Options.Setup.{
  Environment, Setup, two_main_opts, ready, search_paths, choose_theme, check_config, configure,
  completed, with_paths, after_options, setup,
}

-- No main option was met yet.
record IsOpen (p : Parsed) : Type 0 where
  undecided : p.did_encounter_main_opt ≡ false
  no_repl : p.config.repl ≡ false
  no_main : p.config.main_ns_name ≡ none

abbrev pub IsExclusive : Config → Type 0
IsExclusive c = (c.repl ≡ false) ⊎ (c.main_ns_name ≡ none)

record IsSettled (p : Parsed) : Type 0 where
  decided : p.did_encounter_main_opt ≡ true
  exclusive : IsExclusive p.config

abbrev Keeps : Outcome Parsed → Type 0
Keeps (running p) = IsOpen p ⊎ IsSettled p
Keeps (stopped why) = Unit

process_opt-Keeps :
    (o : Opt) (optarg : Bytes) (p : Parsed) → IsOpen p → Keeps (process_opt o optarg p)
unfolding process_opt
process_opt-Keeps compile_opts optarg p h = ground arith
process_opt-Keeps _ optarg p h = ground arith

by_round :
    {o : Outcome Parsed} {loop : Parsed → Outcome (Parsed × List Bytes)} {q : Parsed}
    {s : List Bytes}
    → Keeps o
    → ((p : Parsed) → IsOpen p → loop p ≡ running (q, s) → IsExclusive q.config)
    → OneTurn o loop q s
    → IsExclusive q.config
by_round h later (again p e undecided rest) = elim (rw e at h) [
  | inl still ↦ later p still rest
  | inr settled ↦ absurd (ground (arith, settled.decided))
]
by_round h later (last e done) = elim (rw e at h) [
  | inl still ↦ absurd (ground (arith, still.undecided))
  | inr settled ↦ settled.exclusive
]

parse_opts-IsExclusive :
    (g : Getopt) (p : Parsed) {q : Parsed} {rest : List Bytes}
    → IsOpen p
    → parse_opts g p ≡ running (q, rest)
    → IsExclusive q.config
unfolding parse_opts
parse_opts-IsExclusive (no_more r) p h e = inl (rw (running-injective e) at h.no_repl)
parse_opts-IsExclusive (option o optarg r more) p h e =
    by_round (process_opt-Keeps (opt_of o) optarg p h)
      (λ p' h' e'. parse_opts-IsExclusive more p' h' e')
      (round_of (process_opt (opt_of o) optarg p) r (parse_opts more) e)

-- What holds of a configuration with which the engine is started.
pub record IsReady (c : Config) : Type 0 where
  pub exclusive : IsExclusive c
  pub theme : Bytes
  pub themed : c.theme ≡ some theme
  pub supported : (accepted : ℕ) → (check_theme accepted theme).0 ≡ true
  pub plain_if_dumb : c.dumb_terminal ≡ true → theme ≡ codes "plain"

check_theme-count :
    (m n : ℕ) (theme : Bytes) → (check_theme m theme).0 ≡ true → (check_theme n theme).0 ≡ true
check_theme-count m n theme h = (check_theme_iff n theme).1 ((check_theme_iff m theme).0 h)

configure-ne-two_main_opts :
    (env : Environment) (c : Config) (rest : List Bytes) (paths : List SrcPath)
    → IsExclusive c
    → configure env c rest paths ≢ two_main_opts
unfolding configure check_config
configure-ne-two_main_opts env c rest paths h e = ground arith

check_config-ready :
    (theme : Bytes) (c d : Config)
    → check_config theme c ≡ ready d
    → (c ≡ d) × ((check_theme 5 theme).0 ≡ true)
unfolding check_config
check_config-ready theme c d e = ground arith

completed-IsExclusive :
    (c : Config) (theme : Bytes) (rest : List Bytes) (paths : List SrcPath)
    → IsExclusive c
    → IsExclusive (completed c theme rest paths)
completed-IsExclusive c theme rest paths h = ground arith

choose_theme_dumb :
    (env : Environment) (c : Config) → c.dumb_terminal ≡ true → choose_theme env c ≡ codes "plain"
unfolding choose_theme
choose_theme_dumb env c h = rw h

configure-IsReady :
    (env : Environment) (c d : Config) (rest : List Bytes) (paths : List SrcPath)
    → IsExclusive c
    → configure env c rest paths ≡ ready d
    → IsReady d
unfolding configure
configure-IsReady env c d rest paths h e =
    let theme = choose_theme env c in
    let found = check_config-ready theme (completed c theme rest paths) d e in
    subst IsReady found.0 (record {
      exclusive = completed-IsExclusive c theme rest paths h;
      theme = theme;
      themed = refl;
      supported = λ n. check_theme-count 5 n theme found.1;
      plain_if_dumb = choose_theme_dumb env c;
    })

abbrev Fine : Setup → Type 0
Fine two_main_opts = ⊥
Fine (ready c) = IsReady c
Fine _ = Unit

configure-Fine :
    (env : Environment) (c : Config) (rest : List Bytes) (paths : List SrcPath)
    → IsExclusive c
    → Fine (configure env c rest paths)
configure-Fine env c rest paths h =
    by_result (configure env c rest paths) (configure-ne-two_main_opts env c rest paths h)
      (λ d e. configure-IsReady env c d rest paths h e)
  where
    by_result : (s : Setup) → s ≢ two_main_opts → ((d : Config) → s ≡ ready d → IsReady d) → Fine s
    by_result two_main_opts ne r = ne refl
    by_result (ready d) ne r = r d refl
    by_result _ ne r = tt

with_paths-Fine :
    (env : Environment) (c : Config) (rest : List Bytes) (path : Option (Option Bytes))
    → IsExclusive c
    → Fine (with_paths env c rest path)
with_paths-Fine env c rest none h = tt
with_paths-Fine env c rest (some p) h = configure-Fine env c rest (search_paths env p c.src_paths) h

initial-IsOpen : IsOpen initial
initial-IsOpen = record { undecided = refl; no_repl = refl; no_main = refl }

setup-Fine : (env : Environment) (g : Getopt) → Fine (setup env g)
unfolding setup
setup-Fine env g =
    by_outcome (parse_opts g initial)
      (λ q rest e. parse_opts-IsExclusive g initial initial-IsOpen e)
  where
    by_outcome :
        (o : Outcome (Parsed × List Bytes))
        → ((q : Parsed) (rest : List Bytes) → o ≡ running (q, rest) → IsExclusive q.config)
        → Fine (after_options env o)
    by_outcome (stopped why) h = tt
    by_outcome (running (q, rest)) h = with_paths-Fine env q.config rest _ (h q rest refl)

-- The check that refuses two main options never does: the loop over the options ends at the first
-- one, so that no command line reaches it with both.
pub setup-ne-two_main_opts : (env : Environment) (g : Getopt) → setup env g ≢ two_main_opts
setup-ne-two_main_opts env g e = rw e at (setup-Fine env g)

-- The engine is started only with a theme that can be shown, plain on a dumb terminal, and not
-- with both a namespace to run and a REPL.
pub setup-IsReady :
    (env : Environment) (g : Getopt) {c : Config} → setup env g ≡ ready c → IsReady c
setup-IsReady env g e = rw e at (setup-Fine env g)
