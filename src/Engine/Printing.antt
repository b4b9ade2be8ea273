-- ===== src/Engine/Printing.antt =====
-- engine.c: where the engine and the compiled code print.
pub mod Routed
use planck.Text.Decimal.{decimal}
use planck.Prelude.{
  ℕ, ◌-◌, Bool, true, false, Option, none, some, List, [], ◌∷◌, ◌++◌, Bytes, codes, take, length,
  if◌then◌else◌,
}

-- `cljs_sender`: null, the sender that discards, or that of a socket session.
pub data Sender : Type 0 where
  no_sender discarding_sender : Sender
  session : ℕ → Sender

-- A text goes to stderr, to stdout, or to a session.
pub data Output : Type 0 where
  to_stderr to_stdout : Bytes → Output
  to_session : ℕ → Bytes → Output

-- The functions that JavaScript has as PLANCK_PRINT_FN and PLANCK_PRINT_ERR_FN.
pub data PrintFn : Type 0 where
  print_fn print_err_fn print_fn_sender : PrintFn

pub record Printer : Type 0 where
  pub cljs_sender : Sender
  pub print : PrintFn
  pub print_err : PrintFn
  pub keep_running : Bool
  pub handles_sigint : Bool

-- What a native function leaves: whether it throws, and the texts that go out.
pub record Printed : Type 0 where
  pub throws : Bool
  pub outputs : List Output

abbrev send : Sender → Bytes → List Output
send no_sender msg = to_stderr msg ∷ []
send discarding_sender msg = []
send (session i) msg = to_session i msg ∷ []

-- `engine_print`.
unfoldable pub engine_print : Bytes → Printer → List Output
engine_print msg p = send p.cljs_sender msg

-- `snprintf` into 1024 bytes.
abbrev pub in_buffer : Bytes → Bytes
in_buffer text = take 1023 text

unfoldable pub engine_println : Bytes → Printer → List Output
unfolding engine_print
engine_println msg p = engine_print (in_buffer (msg ++ codes "\n")) p

unfoldable pub engine_print_err_message : Bytes → ℕ → Printer → List Output
unfolding engine_print decimal
engine_print_err_message msg err p =
    engine_print (in_buffer (msg ++ (codes ": " ++ (decimal 10 err ++ codes "\n")))) p

abbrev perror_to : Sender → Bytes → Bytes → Printer → List Output
perror_to discarding_sender msg strerror p =
    to_stderr (msg ++ (codes ": " ++ (strerror ++ codes "\n"))) ∷ []
perror_to _ msg strerror p =
    engine_print (in_buffer (msg ++ (codes ": " ++ (strerror ++ codes "\n")))) p

-- `strerror` is the message of the error.
unfoldable pub engine_perror : Bytes → Bytes → Printer → List Output
unfolding engine_print
engine_perror msg strerror p = perror_to p.cljs_sender msg strerror p

abbrev print_fn_for : Sender → PrintFn
print_fn_for no_sender = print_fn
print_fn_for _ = print_fn_sender

abbrev print_err_fn_for : Sender → PrintFn
print_err_fn_for no_sender = print_err_fn
print_err_fn_for _ = print_fn_sender

-- `set_print_sender`; the scripts it evaluates make the two functions those of `cljs.core`.
unfoldable pub set_print_sender : Sender → Printer → Printer
set_print_sender s p = record p {
  cljs_sender = s;
  print = print_fn_for s;
  print_err = print_err_fn_for s;
}

-- `int_handler`, `set_int_handler` and `clear_int_handler`. `signal(SIGINT, NULL)` restores the
-- default, by which an interrupt ends the process.
unfoldable pub int_handler : Printer → Printer
int_handler p = record p { keep_running = false; handles_sigint = false }

unfoldable pub set_int_handler : Printer → Printer
set_int_handler p = record p { handles_sigint = true }

unfoldable pub clear_int_handler : Printer → Printer
clear_int_handler p = record p { handles_sigint = false; keep_running = true }

abbrev handled : Bool → Printer → Option Printer
handled true p = some (int_handler p)
handled false p = none

-- An interrupt; `none` where it ends the process.
unfoldable pub interrupt : Printer → Option Printer
unfolding int_handler
interrupt p = handled p.handles_sigint p

-- ESC [ m and a line end.
abbrev pub reset : Bytes
reset = 27 ∷ b'[' ∷ b'm' ∷ b'\n' ∷ []

abbrev pub if_running : Bool → Output → Output → Printed
if_running true text stopped = record { throws = false; outputs = text ∷ [] }
if_running false text stopped = record { throws = true; outputs = stopped ∷ [] }

-- The three functions, called with one argument.
unfoldable pub apply : PrintFn → Bytes → Printer → Printed
unfolding engine_print
apply print_fn str p = if_running p.keep_running (to_stdout str) (to_stdout reset)
apply print_err_fn str p = if_running p.keep_running (to_stderr str) (to_stderr reset)
apply print_fn_sender str p = record { throws = false; outputs = engine_print str p }
