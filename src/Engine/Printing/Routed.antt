-- ===== src/Engine/Printing/Routed.antt =====
-- engine.c and functions.c: what compiled code prints goes where the sender says.
use planck.Engine.Printing.{
  Sender, no_sender, discarding_sender, session, to_stderr, to_stdout, to_session, Printer, Printed,
  set_print_sender, int_handler, set_int_handler, clear_int_handler, interrupt, reset, if_running,
  apply,
}
use planck.Prelude.{
  ◌≡◌, refl, ap, Option, none, some, Bool-cases, inl, inr, Bool, true, false, List, [], ◌∷◌, Bytes,
}

-- What is done to the printer between two prints.
pub data Change : Type 0 where
  sets : Sender → Change
  installs interrupts clears : Change

unfoldable pub change : Change → Printer → Option Printer
unfolding set_print_sender set_int_handler interrupt clear_int_handler
change (sets s) p = some (set_print_sender s p)
change installs p = some (set_int_handler p)
change interrupts p = interrupt p
change clears p = some (clear_int_handler p)

abbrev and_then : Option Printer → (Printer → Option Printer) → Option Printer
and_then none f = none
and_then (some p) f = f p

-- `none` where the process has ended.
unfoldable pub change_all : List Change → Printer → Option Printer
unfolding change
change_all [] p = some p
change_all (c ∷ cs) p = and_then (change c p) (change_all cs)

-- The sender set last.
abbrev pub last_sender : List Change → Sender → Sender
last_sender [] latest = latest
last_sender (sets s ∷ cs) latest = last_sender cs s
last_sender (_ ∷ cs) latest = last_sender cs latest

-- Whether no interrupt came behind the last time it was cleared; `none` where one came that had no
-- handler: before it was installed, or behind another interrupt or the clearing.
abbrev pub runs_on : List Change → Bool → Bool → Option Bool
runs_on [] handled running = some running
runs_on (sets s ∷ cs) handled running = runs_on cs handled running
runs_on (installs ∷ cs) handled running = runs_on cs true running
runs_on (interrupts ∷ cs) true running = runs_on cs false false
runs_on (interrupts ∷ cs) false running = none
runs_on (clears ∷ cs) handled running = runs_on cs false true

-- Where a text printed by `println`, or as an error, is to go.
abbrev pub routed : Sender → Bool → Bytes → Printed
routed no_sender true str = record { throws = false; outputs = to_stdout str ∷ [] }
routed no_sender false str = record { throws = true; outputs = to_stdout reset ∷ [] }
routed discarding_sender running str = record { throws = false; outputs = [] }
routed (session i) running str = record { throws = false; outputs = to_session i str ∷ [] }

abbrev pub routed_err : Sender → Bool → Bytes → Printed
routed_err no_sender true str = record { throws = false; outputs = to_stderr str ∷ [] }
routed_err no_sender false str = record { throws = true; outputs = to_stderr reset ∷ [] }
routed_err discarding_sender running str = record { throws = false; outputs = [] }
routed_err (session i) running str = record { throws = false; outputs = to_session i str ∷ [] }

as_running :
    (running : Bool) (str : Bytes)
    → (if_running running (to_stdout str) (to_stdout reset) ≡ routed no_sender running str)
      × (if_running running (to_stderr str) (to_stderr reset) ≡ routed_err no_sender running str)
as_running true str = (refl, refl)
as_running false str = (refl, refl)

-- A text printed by `println`, and one printed as an error.
abbrev pub printed_both : Option Printer → Bytes → Option (Printed × Printed)
printed_both none str = none
printed_both (some q) str = some (apply q.print str q, apply q.print_err str q)

abbrev pub routed_both : Sender → Option Bool → Bytes → Option (Printed × Printed)
routed_both s none str = none
routed_both s (some running) str = some (routed s running str, routed_err s running str)

-- However senders are set and interrupts are handled, arrive and are cleared: where an interrupt
-- arrives without a handler the process ends. Else what is printed goes, from a sender that was set,
-- to the sender set last: nowhere, to its session, or, without a sender, to stdout, and as an error
-- to stderr; and without a sender an interrupt that has not been cleared makes a print throw.
pub apply_lem :
    (latest : Sender) (cs : List Change) (p : Printer) (str : Bytes)
    → printed_both (change_all cs (set_print_sender latest p)) str
      ≡ routed_both (last_sender cs latest) (runs_on cs p.handles_sigint p.keep_running) str
unfolding change_all apply
apply_lem no_sender [] p str =
    let (a, b) = as_running p.keep_running str in ap some (λ i. (a i, b i))
apply_lem discarding_sender [] p str = refl
apply_lem (session i) [] p str = refl
apply_lem latest (sets s ∷ cs) p str = apply_lem s cs p str
apply_lem latest (installs ∷ cs) p str = apply_lem latest cs (set_int_handler p) str
apply_lem latest (interrupts ∷ cs) p str = elim (Bool-cases p.handles_sigint) [
  | inl handles ↦ rw handles (apply_lem latest cs (int_handler p) str)
  | inr ends ↦ rw ends refl
]
apply_lem latest (clears ∷ cs) p str = apply_lem latest cs (clear_int_handler p) str
