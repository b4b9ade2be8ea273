-- ===== src/Repl/Tests.antt =====
-- repl.c, on an engine whose forms end at a full stop.
use planck.Prelude.{
  ℕ, zero, suc, ◌+◌, ◌≤◌, ◌<◌, ◌≡◌, ◌≢◌, refl, ap, Bool, true, false, not, Option, none, some, List,
  [], ◌∷◌, ◌++◌, Bytes, codes, arith, ◌==◌, if◌then◌else◌, length, Free, Bool-cases, inl, inr,
}
use planck.Repl.{Repl, form_prompt, Engine, World, accumulate, text_of, is_exit_command, Served}
use planck.Repl.Process.{process_line, process_input, reset, socket_repl_data_arrived}
use planck.Repl.Line.{ReadsForms, Returns, Covers, process_line-Covers}
use planck.Repl.Loop.{Matches, Ready, KnowsNs, process_input-Matches}
use planck.Repl.Socket.{Answered, socket_repl_data_arrived-Answered}

unfoldable behind : Bytes → Option Bytes
behind [] = none
behind (c ∷ cs) = let rest = behind cs in if c == b'.' then some cs else rest

abbrev stops : Engine
stops = record {
  S = ℕ;
  is_readable = λ text s. behind text;
  evaluate_source = λ source ns theme session s. s;
  ends_process = λ source s. false;
  exit_value = λ s. 0;
  get_current_ns = λ s. some (codes "a.ns");
  is_pasting = λ s. false;
  indent_space_count = λ text s. 2;
}

abbrev start : World ℕ
start = record { engine = 0; history = []; log = [] }

some-injective : {a b : Bytes} → some a ≡ some b → a ≡ b
some-injective h = cc

stops-ReadsForms : ReadsForms stops
unfolding behind
stops-ReadsForms [] s rest h = absurd cc
stops-ReadsForms (c ∷ cs) s rest h = elim (Bool-cases (c == b'.')) [
  | inl stop ↦ (c ∷ [], ap (λ (t : Bytes). c ∷ t) (some-injective (rw stop at h)), omega arith)
  | inr no_stop ↦
      let (form, whole, least) = stops-ReadsForms cs s rest (rw no_stop at h) in
      (c ∷ form, ap (λ (t : Bytes). c ∷ t) whole, omega arith)
]

stops-Returns : Returns stops
stops-Returns source s = refl

abbrev second_session : Repl
second_session = record {
  current_ns = codes "cljs.user";
  current_prompt = some (codes "cljs.user=> ");
  history_path = none;
  input = none;
  indent_space_count = 0;
  previous_lines = [];
  session_id = 2;
}

abbrev first_session : Repl
first_session = record second_session { session_id = 0 }

Free-user : Free 0 (codes "cljs.user")
Free-user = (
  λ e. cc,
  (λ e. cc, (λ e. cc, (λ e. cc, (λ e. cc, (λ e. cc, (λ e. cc, (λ e. cc, (λ e. cc, tt)))))))),
)

is_plain :
    is_exit_command (text_of (accumulate first_session (codes "a. b. c")).input) false ≡ false
unfolding accumulate is_exit_command planck.Prelude.str_eq
is_plain = refl

process_line-Covers_example :
    Covers stops false
      (codes "light")
      (codes "a. b. c")
      []
      (process_line stops false (codes "light") false (codes "a. b. c") first_session start)
unfolding accumulate
process_line-Covers_example =
    process_line-Covers stops false (codes "light") false (codes "a. b. c") first_session start
      stops-ReadsForms stops-Returns is_plain

stops-KnowsNs : KnowsNs stops false (codes "light")
stops-KnowsNs s = (codes "a.ns", refl)

first_session-Matches : Matches stops false (codes "light") first_session
unfolding form_prompt
first_session-Matches = (refl, refl)

process_input-Matches_example :
    Ready stops false
      (codes "light")
      (process_input stops false (codes "light") (codes "a. b\nc") first_session start)
    × Matches stops false (codes "light") (reset stops false (codes "light") first_session)
process_input-Matches_example =
    process_input-Matches stops false (codes "light") stops-KnowsNs (codes "a. b\nc") first_session
      start first_session-Matches

abbrev write_all : Bytes → ℕ
write_all text = 0

socket_repl_data_arrived-Answered_example :
    (s : Served ℕ) × (socket_repl_data_arrived stops false
        (codes "light")
        write_all
        (some (codes "quit\r\n"))
        second_session
        start
      ≡ some s)
    × Answered stops false (codes "light") write_all s
socket_repl_data_arrived-Answered_example =
    socket_repl_data_arrived-Answered stops false (codes "light") write_all stops-ReadsForms
      stops-Returns (some (codes "quit\r\n")) second_session start (λ e. cc)
