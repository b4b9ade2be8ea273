-- ===== src/Options/Scripts.antt =====
-- main.c: the -e and -i options, and the cache options.
use planck.Prelude.{
  ℕ, ◌+◌, ◌≤◌, ◌≡◌, refl, sym, ap, ◌∙◌, Bool, true, false, Option, none, some, List, [], ◌∷◌, ◌++◌,
  append-nil, append_assoc, Bytes, arith, if◌then◌else◌,
}
use planck.Config.{Script, ScriptType}
use planck.Options.Parse.{
  Opt, compile_opts, repl, main, eval, init, cache, auto_cache, Parsed, Getopt, no_more, option,
  Outcome, running, stopped, process_opt, opt_of, parse_opts, initial, script,
}
use planck.Options.Loop.{running-injective, OneTurn, again, last, round_of}

abbrev pub is_main_opt : Opt → Bool
is_main_opt repl = true
is_main_opt main = true
is_main_opt _ = false

-- The script that one option asks for.
abbrev pub script_of : Opt → Bytes → List Script
script_of eval optarg = script ScriptType.text true optarg ∷ []
script_of init optarg = script ScriptType.path false optarg ∷ []
script_of _ optarg = []

-- The scripts of the -e and -i options up to the first main option, in order.
abbrev pub scripts_in : Getopt → List Script
scripts_in (no_more rest) = []
scripts_in (option opt optarg rest more) =
    let later = scripts_in more in
    script_of (opt_of opt) optarg ++ (if is_main_opt (opt_of opt) then [] else later)

-- One option adds its script, and says whether it was a main option.
abbrev Adds : Opt → Bytes → Parsed → Outcome Parsed → Type 0
Adds o optarg p (running q) =
    (q.config.scripts ≡ p.config.scripts ++ script_of o optarg)
    × (p.did_encounter_main_opt ≡ false → q.did_encounter_main_opt ≡ is_main_opt o)
Adds o optarg p (stopped why) = Unit

process_opt-Adds :
    (o : Opt) (optarg : Bytes) (p : Parsed) → Adds o optarg p (process_opt o optarg p)
unfolding process_opt
process_opt-Adds compile_opts optarg p = ground (arith, append-nil p.config.scripts)
process_opt-Adds _ optarg p = ground (arith, append-nil p.config.scripts)

scripts_by_round :
    (o : Opt) (optarg : Bytes) (p : Parsed) {r : Outcome Parsed}
    {loop : Parsed → Outcome (Parsed × List Bytes)} {q : Parsed} {s : List Bytes}
    (later : List Script)
    → p.did_encounter_main_opt ≡ false
    → Adds o optarg p r
    → ((t : Parsed)
        → t.did_encounter_main_opt ≡ false
        → loop t ≡ running (q, s)
        → q.config.scripts ≡ t.config.scripts ++ later)
    → OneTurn r loop q s
    → q.config.scripts
      ≡ p.config.scripts ++ (script_of o optarg ++ (if is_main_opt o then [] else later))
scripts_by_round o optarg p later fresh adds rec (again t e undecided rest) =
    let (grown, kind) = rw e at adds in
    let plain : is_main_opt o ≡ false = sym (kind fresh) ∙ undecided in
    rw plain (
      rec t undecided rest
      ∙ ap (λ (l : List Script). l ++ later) grown
      ∙ append_assoc p.config.scripts _ _)
scripts_by_round o optarg p later fresh adds rec (last e decided) =
    let (grown, kind) = rw e at adds in
    let plain : is_main_opt o ≡ true = sym (kind fresh) ∙ decided in rw plain (rw append-nil grown)

scripts_from :
    (g : Getopt) (p : Parsed) {q : Parsed} {rest : List Bytes}
    → p.did_encounter_main_opt ≡ false
    → parse_opts g p ≡ running (q, rest)
    → q.config.scripts ≡ p.config.scripts ++ scripts_in g
unfolding parse_opts
scripts_from (no_more r) p fresh e =
    ap (λ (t : Parsed). t.config.scripts) (sym (running-injective e))
    ∙ sym (append-nil p.config.scripts)
scripts_from (option o optarg r more) p fresh e =
    scripts_by_round (opt_of o) optarg p (scripts_in more) fresh
      (process_opt-Adds (opt_of o) optarg p) (λ t f e'. scripts_from more t f e')
      (round_of (process_opt (opt_of o) optarg p) r (parse_opts more) e)

-- The init scripts to run are those of the -e and -i options before the first main option, in
-- the order of the command line, -e as text whose values are printed and -i as a path.
parse_opts-scripts :
    (g : Getopt) {q : Parsed} {rest : List Bytes}
    → parse_opts g initial ≡ running (q, rest)
    → q.config.scripts ≡ scripts_in g
parse_opts-scripts g e = scripts_from g initial refl e

-- How many cache options stand before the first main option.
abbrev pub is_cache_opt : Opt → ℕ
is_cache_opt cache = 1
is_cache_opt auto_cache = 1
is_cache_opt _ = 0

abbrev pub cache_opts_in : Getopt → ℕ
cache_opts_in (no_more rest) = 0
cache_opts_in (option opt optarg rest more) =
    let later = cache_opts_in more in
    is_cache_opt (opt_of opt) + (if is_main_opt (opt_of opt) then 0 else later)

abbrev pub cached : Option Bytes → ℕ
cached none = 0
cached (some path) = 1

cached-le : (o : Option Bytes) → cached o ≤ 1
cached-le none = omega arith
cached-le (some path) = omega arith

abbrev Caches : Opt → Parsed → Outcome Parsed → Type 0
Caches o p (running q) =
    (cached q.config.cache_path ≡ cached p.config.cache_path + is_cache_opt o)
    × (p.did_encounter_main_opt ≡ false → q.did_encounter_main_opt ≡ is_main_opt o)
Caches o p (stopped why) = Unit

process_opt-Caches : (o : Opt) (optarg : Bytes) (p : Parsed) → Caches o p (process_opt o optarg p)
unfolding process_opt
process_opt-Caches compile_opts optarg p = ground arith
process_opt-Caches _ optarg p = ground arith

cache_by_round :
    (o : Opt) (p : Parsed) {r : Outcome Parsed} {loop : Parsed → Outcome (Parsed × List Bytes)}
    {q : Parsed} {s : List Bytes} (later : ℕ)
    → p.did_encounter_main_opt ≡ false
    → Caches o p r
    → ((t : Parsed)
        → t.did_encounter_main_opt ≡ false
        → loop t ≡ running (q, s)
        → cached q.config.cache_path ≡ cached t.config.cache_path + later)
    → OneTurn r loop q s
    → cached q.config.cache_path
      ≡ cached p.config.cache_path + (is_cache_opt o + (if is_main_opt o then 0 else later))
cache_by_round o p later fresh adds rec (again t e undecided rest) =
    let (grown, kind) = rw e at adds in
    let plain : is_main_opt o ≡ false = sym (kind fresh) ∙ undecided in
    rw plain (omega (arith, rec t undecided rest, grown))
cache_by_round o p later fresh adds rec (last e decided) =
    let (grown, kind) = rw e at adds in
    let plain : is_main_opt o ≡ true = sym (kind fresh) ∙ decided in rw plain (omega (arith, grown))

cache_from :
    (g : Getopt) (p : Parsed) {q : Parsed} {rest : List Bytes}
    → p.did_encounter_main_opt ≡ false
    → parse_opts g p ≡ running (q, rest)
    → cached q.config.cache_path ≡ cached p.config.cache_path + cache_opts_in g
unfolding parse_opts
cache_from (no_more r) p fresh e =
    ap (λ (t : Parsed). cached t.config.cache_path) (sym (running-injective e)) ∙ omega arith
cache_from (option o optarg r more) p fresh e =
    cache_by_round (opt_of o) p (cache_opts_in more) fresh (process_opt-Caches (opt_of o) optarg p)
      (λ t f e'. cache_from more t f e')
      (round_of (process_opt (opt_of o) optarg p) r (parse_opts more) e)

-- Where the loop ends without an error, at most one of -k and -K stands before the first main
-- option, and a cache path is set exactly if one does.
pub parse_opts-cache_path :
    (g : Getopt) {q : Parsed} {rest : List Bytes}
    → parse_opts g initial ≡ running (q, rest)
    → (cache_opts_in g ≤ 1) × (cached q.config.cache_path ≡ cache_opts_in g)
parse_opts-cache_path g {q} e =
    let counted = cache_from g initial refl e in
    (omega (arith, counted, cached-le q.config.cache_path), counted ∙ omega arith)
