-- ===== src/Options/Order.antt =====
-- main.c: the order in which the init scripts, the main action and the end of `main` follow.
use planck.Config.{Config, Script, ScriptType}
use planck.Options.Parse.{script}
use planck.Options.Setup.{
  Action, banner, run_repl, evaluate_stdin, run_main_in_ns, evaluate, run_main_cli_fn,
  block_until_tasks_complete, engine_shutdown, main_action, is_none,
}
use planck.Prelude.{
  ℕ, ◌≡◌, ◌≢◌, ◌⊎◌, true, false, not, ◌&&◌, List, [], ◌∷◌, ◌++◌, map, ◌==◌, if◌then◌else◌, none,
  some, Bytes, codes, str_eq,
}

-- The main action, and behind a script or nothing the call of the function that was set for it.
abbrev pub main_part : Config → List Action
main_part c =
    main_action c c.main_ns_name
    ++ (if not c.repl && is_none c.main_ns_name then run_main_cli_fn ∷ [] else [])

-- What the main part is: a namespace's -main, the REPL, with the banner unless it is quiet or there
-- are scripts, or a script, the standard input, or nothing, and the call of the function set for it.
pub data MainPart (c : Config) : List Action → Type 0 where
  of_ns : {ns : Bytes} → c.main_ns_name ≡ some ns → MainPart c (run_main_in_ns ns c.rest_args ∷ [])
  of_repl_banner :
      c.main_ns_name ≡ none
      → c.repl ≡ true
      → c.quiet ≡ false
      → c.scripts ≡ []
      → MainPart c (banner ∷ run_repl ∷ [])
  of_repl :
      c.main_ns_name ≡ none
      → c.repl ≡ true
      → (c.quiet ≡ true) ⊎ (c.scripts ≢ [])
      → MainPart c (run_repl ∷ [])
  of_script :
      {p : Bytes} {rest : List Bytes}
      → c.main_ns_name ≡ none
      → c.repl ≡ false
      → c.rest_args ≡ p ∷ rest
      → str_eq p (codes "-") ≡ false
      → MainPart c (evaluate (script ScriptType.path false p) ∷ run_main_cli_fn ∷ [])
  of_stdin :
      {p : Bytes} {rest : List Bytes}
      → c.main_ns_name ≡ none
      → c.repl ≡ false
      → c.rest_args ≡ p ∷ rest
      → str_eq p (codes "-") ≡ true
      → MainPart c (evaluate_stdin ∷ run_main_cli_fn ∷ [])
  of_nothing :
      c.main_ns_name ≡ none → c.repl ≡ false → c.rest_args ≡ [] → MainPart c (run_main_cli_fn ∷ [])

abbrev pub ending : ℕ → List Action
ending exit_value =
    if exit_value == 0
    then block_until_tasks_complete ∷ engine_shutdown ∷ []
    else engine_shutdown ∷ []

module _ (exit_of : List Action → ℕ) where
  -- After each of the scripts the exit value is 0.
  abbrev pub Clean : List Script → List Action → Type 0
  Clean [] before = Unit
  Clean (s ∷ ss) before =
      (exit_of (before ++ evaluate s ∷ []) ≡ 0) × Clean ss (before ++ evaluate s ∷ [])

  -- The scripts up to the first one that sets an exit value, and nothing else.
  pub record Stopped (ss : List Script) (before acted : List Action) : Type 0 where
    pub front : List Script
    pub last : Script
    pub rest : List Script
    pub split : front ++ last ∷ rest ≡ ss
    pub clean : Clean front before
    pub fails : exit_of acted ≢ 0
    pub acted_is : acted ≡ before ++ (map evaluate front ++ evaluate last ∷ [])

  -- All scripts, the main part, and the end, which waits for tasks only at the exit value 0.
  pub record Finished (c : Config) (ss : List Script) (before acted : List Action) : Type 0 where
    pub clean : Clean ss before
    pub main : MainPart c (main_part c)
    pub acted_is :
        acted
        ≡ before
          ++ (map evaluate ss
              ++ (main_part c ++ ending (exit_of (before ++ (map evaluate ss ++ main_part c)))))

  abbrev Ordered : Config → List Script → List Action → List Action → Type 0
  Ordered c ss before acted = Stopped ss before acted ⊎ Finished c ss before acted
