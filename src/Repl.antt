-- ===== src/Repl.antt =====
-- planck-c/repl.c: the prompts, one line of input, the loop over the lines of the terminal and the
-- data that arrive at a socket REPL. Pointers are values here: whether a block is freed twice is
-- not modelled.
pub mod Prompt
pub mod Process
pub mod Line
pub mod Loop
pub mod Socket
pub mod Highlight
pub mod Run
mod Tests
use planck.Memory.{memcpy, c_string}
use planck.Text.{str_concat, str_has_suffix, tokens}
use planck.Prelude.{
  ℕ, zero, suc, ◌+◌, ◌-◌, Bool, true, false, not, ◌&&◌, ◌||◌, Option, none, some, List, [], ◌∷◌,
  ◌++◌, Bytes, codes, ◌==◌, ltb, leb, str_eq, if◌then◌else◌, length, take, replicate,
}

-- `previous_lines` holds `num_previous_lines` lines; `none` is a null pointer.
pub record Repl : Type 0 where
  pub current_ns : Bytes
  pub current_prompt : Option Bytes
  pub history_path : Option Bytes
  pub input : Option Bytes
  pub indent_space_count : ℕ
  pub previous_lines : List Bytes
  pub session_id : ℕ

unfoldable pub make_repl : Repl
make_repl = record {
  current_ns = codes "cljs.user";
  current_prompt = none;
  history_path = none;
  input = none;
  indent_space_count = 0;
  previous_lines = [];
  session_id = 0;
}

unfoldable pub empty_previous_lines : Repl → Repl
empty_previous_lines r = record r { previous_lines = [] }

-- `sprintf` to a place in a block, with the terminating zero; `none` is a write outside it.
abbrev pub sprintf : Option Bytes → ℕ → Bytes → Option Bytes
sprintf none at s = none
sprintf (some block) at s = memcpy block at (s ++ 0 ∷ [])

-- The prompt in its block, no prompt, or a write outside the block.
pub data Formed : Type 0 where
  no_prompt overrun : Formed
  prompt : Bytes → Formed

abbrev pub in_block : Option Bytes → Formed
in_block none = overrun
in_block (some block) = prompt (c_string block)

abbrev pub prompt_min_len : ℕ
prompt_min_len = 6

abbrev pub prefix_min_len : ℕ
prefix_min_len = 2

abbrev pub ns_len_extra : Bytes → ℕ
ns_len_extra ns = if ltb (length ns) prefix_min_len then 0 else length ns - prefix_min_len

-- What `malloc` returns, whose bytes are not known; 1 stands for them.
abbrev pub malloc : ℕ → Bytes
malloc n = replicate n 1

-- `config_dumb_terminal` is the field of the global configuration.
unfoldable pub form_prompt : Bool → Repl → Bool → Formed
unfolding c_string
form_prompt config_dumb_terminal r is_secondary =
    let dumb_terminal = not (r.session_id == 0) || config_dumb_terminal in
    if not is_secondary
    then (if ltb (length r.current_ns) prefix_min_len && not config_dumb_terminal
        then in_block
            (sprintf (some (malloc prompt_min_len)) 0 (b' ' ∷ r.current_ns ++ codes "=> "))
        else prompt (str_concat r.current_ns (codes "=> ")))
    else if not dumb_terminal
    then (let extra = ns_len_extra r.current_ns in
        in_block (
          sprintf (memcpy (malloc (prompt_min_len + extra)) 0 (replicate extra b' ')) extra
            (codes "#_=> ")))
    else no_prompt

-- The prompt as a field of the REPL. (An overrun gives none; there is none.)
abbrev pub field_of : Formed → Option Bytes
field_of (prompt p) = some p
field_of _ = none

abbrev space : ℕ → Bool
space c = c == b' ' || leb 9 c && leb c 13

unfoldable pub is_whitespace : Bytes → Bool
is_whitespace [] = true
is_whitespace (c ∷ cs) = space c && is_whitespace cs

unfoldable pub is_exit_command : Bytes → Bool → Bool
is_exit_command input is_socket_repl =
    str_eq input (codes ":cljs/quit")
    || (str_eq input (codes "quit")
        || (str_eq input (codes "exit")
            || (str_eq input (4 ∷ []) || (is_socket_repl && str_eq input (codes ":repl/quit")))))

-- What the engine offers to the REPL, on a state of its own. `is_readable` tells whether a form
-- can be read and gives the text behind it, `ends_process` whether the evaluation of a source calls
-- PLANCK_EXIT_WITH_VALUE, and `exit_value` is the global variable.
pub record Engine : Type 1 where
  pub S : Type 0
  pub is_readable : Bytes → S → Option Bytes
  pub evaluate_source : Bytes → Bytes → Bytes → ℕ → S → S
  pub ends_process : Bytes → S → Bool
  pub exit_value : S → ℕ
  pub get_current_ns : S → Option Bytes
  pub is_pasting : S → Bool
  pub indent_space_count : Bytes → S → ℕ

-- What was asked of the engine: a source evaluated in a namespace, with a theme; or a newline.
pub data Event : Type 0 where
  evaluated : Bytes → Bytes → Bytes → Event
  newline : Event

pub record World (S : Type 0) : Type 0 where
  pub engine : S
  pub history : List Bytes
  pub log : List Event

-- What `process_line` does: return `false` or `true`, end the process, or write in front of the
-- input where the engine returns more text than it was given. `no_fuel` ends a loop that the
-- fuel, one more than the length of the input, does not cover.
pub data Processed (S : Type 0) : Type 0 where
  reading leaving : Repl → World S → Processed S
  exited fault no_fuel : Processed S

-- What reading a line gives: a line, a null pointer with EAGAIN, or another null pointer.
pub data Typed : Type 0 where
  line : Bytes → Typed
  interrupted ended : Typed

unfoldable pub accumulate : Repl → Bytes → Repl
accumulate r input_line = record r {
  input = elim (r.input) [ none ↦ some input_line | some old ↦ some (old ++ b'\n' ∷ input_line) ];
  previous_lines = r.previous_lines ++ input_line ∷ [];
}

abbrev pub text_of : Option Bytes → Bytes
text_of none = []
text_of (some t) = t

-- `conn_data_cb_ret_t`, with the REPL and what was written to the socket.
pub record Served (S : Type 0) : Type 0 where
  pub repl : Repl
  pub world : World S
  pub sent : Option Bytes
  pub err : ℕ
  pub close : Bool

-- A connection gets the next number, a REPL of its own and its first prompt, which is formed
-- before the number is set.
unfoldable pub accepted_socket_repl_connection : Bool → ℕ → ℕ × Repl
accepted_socket_repl_connection config_dumb_terminal session_id_counter =
    let id = session_id_counter + 1 in
    (
      id,
      record make_repl {
        current_prompt = field_of (form_prompt config_dumb_terminal make_repl false);
        session_id = id;
      },
    )
