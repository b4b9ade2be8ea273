-- ===== src/Repl/Socket.antt =====
-- repl.c: the sessions of the socket REPL.
use planck.Prelude.{
  ℕ, ◌≡◌, ◌≢◌, refl, sym, Bool, true, false, not, Option, none, some, List, Bytes, arith, ◌==◌,
  if◌then◌else◌, Bool-cases, inl, inr,
}
use planck.Repl.{
  Repl, Engine, World, Processed, reading, leaving, exited, fault, no_fuel, is_exit_command,
  accumulate, text_of, Served, Event,
}
use planck.Repl.Process.{process_line, send_prompt, reply, chomp, socket_repl_data_arrived}
use planck.Repl.Line.{ReadsForms, Returns, Covers, process_line-Covers}

module _ (e : Engine) (dumb : Bool) (theme : Bytes) (write : Bytes → ℕ) where
  -- The connection is closed with no reply, or the prompt that the session then has is sent.
  abbrev pub Answered : Served e.S → Type 0
  Answered s = if s.close then s.sent ≡ none else s.sent ≡ s.repl.current_prompt

  send_prompt-Answered :
      (p : Option Bytes) (r : Repl) (w : World e.S)
      → r.current_prompt ≡ p
      → Answered (send_prompt e dumb theme write p r w)
  send_prompt-Answered none r w h = sym h
  send_prompt-Answered (some t) r w h = sym h

  reply-Covers :
      (input : Bytes) (before : List Event) (p : Processed e.S)
      → Covers e dumb theme input before p
      → (s : Served e.S) × (reply e dumb theme write p ≡ some s) × Answered s
  reply-Covers input before (reading r w) c = (
    send_prompt e dumb theme write r.current_prompt r w,
    refl,
    send_prompt-Answered r.current_prompt r w refl,
  )
  reply-Covers input before (leaving r w) c =
      (record { repl = r; world = w; sent = none; err = 0; close = true }, refl, refl)
  reply-Covers input before exited c = absurd c
  reply-Covers input before fault c = absurd c
  reply-Covers input before no_fuel c = absurd c

  quitting :
      (input_line : Bytes) (r : Repl) (w : World e.S)
      → r.session_id ≢ 0
      → is_exit_command (text_of (accumulate r input_line).input) (not (r.session_id == 0)) ≡ true
      → reply e dumb theme write (process_line e dumb theme false input_line r w)
        ≡ some (record {
          repl = accumulate r input_line;
          world = w;
          sent = none;
          err = 0;
          close = true;
        })
  unfolding process_line accumulate
  quitting input_line r w session q = ground (arith, q, session)

  process_line-session :
      ReadsForms e
      → Returns e
      → (input_line : Bytes) (r : Repl) (w : World e.S) → r.session_id ≢ 0
      → (s : Served e.S) × (reply e dumb theme write
            (process_line e dumb theme false input_line r w)
          ≡ some s)
        × Answered s
  process_line-session law returns input_line r w session =
      elim (Bool-cases
        (is_exit_command (text_of (accumulate r input_line).input) (not (r.session_id == 0)))) [
          | inl quits ↦ (
            record {
              repl = accumulate r input_line;
              world = w;
              sent = none;
              err = 0;
              close = true;
            },
            quitting input_line r w session quits,
            refl,
          )
          | inr plain ↦
              reply-Covers _ w.log _
                (process_line-Covers e dumb theme false input_line r w law returns plain)
        ]

  -- As long as no evaluation ends the process, and the text behind a form is shorter than the text,
  -- data of a session with a number, which every connection has, do not end it either, also if they
  -- ask to quit: the connection is closed without a reply, or the prompt of the session is sent, where
  -- there is one. A connection that the other side closed is closed.
  pub socket_repl_data_arrived-Answered :
      ReadsForms e
      → Returns e
      → (arrived : Option Bytes) (r : Repl) (w : World e.S) → r.session_id ≢ 0
      → (s : Served e.S) × (socket_repl_data_arrived e dumb theme write arrived r w ≡ some s)
        × Answered s
  unfolding socket_repl_data_arrived
  socket_repl_data_arrived-Answered law returns none r w session =
      (record { repl = r; world = w; sent = none; err = 0; close = true }, refl, refl)
  socket_repl_data_arrived-Answered law returns (some text) r w session =
      process_line-session law returns (chomp e dumb theme text) r w session
