-- ===== src/Repl/Loop.antt =====
-- repl.c: what holds of the REPL whenever the loop goes on to read.
use planck.Prelude.{
  ℕ, zero, suc, ◌≡◌, refl, Bool, true, false, not, ◌&&◌, none, some, List, [], ◌∷◌, Bytes, ◌==◌,
  if◌then◌else◌, ltb, take, ◌-◌, length, Bool-cases, Option-cases, inl, inr,
}
use planck.Text.{tokens}
use planck.Repl.{
  Repl, empty_previous_lines, form_prompt, field_of, is_whitespace, is_exit_command, Engine, World,
  Processed, reading, leaving, exited, fault, no_fuel, accumulate, text_of,
}
use planck.Repl.Process.{
  evaluate, next_round, reset, after_evaluation, eval_loop, process_line, then_process,
  process_tokens, is_null, process_input,
}

module _ (e : Engine) (dumb : Bool) (theme : Bytes) where
  -- The prompt is the one for the state: the primary prompt where nothing is pending, and then no
  -- line is kept; the secondary prompt otherwise.
  abbrev pub Matches : Repl → Type 0
  Matches r = elim (r.input) [
    | none ↦ (r.current_prompt ≡ field_of (form_prompt dumb r false)) × (r.previous_lines ≡ [])
    | some t ↦ r.current_prompt ≡ field_of (form_prompt dumb r true)
  ]

  -- The engine knows its namespace.
  abbrev pub KnowsNs : Type 0
  KnowsNs = (s : e.S) → (ns : Bytes) × (e.get_current_ns s ≡ some ns)

  abbrev pub Ready : Processed e.S → Type 0
  Ready (reading r w) = Matches r
  Ready _ = Unit

  after_evaluation-Ready :
      KnowsNs
      → (front balance : Bytes) (r : Repl) (w : World e.S)
        (loop : Bytes → Repl → World e.S → Processed e.S)
      → ((b : Bytes) (r' : Repl) (w' : World e.S) → Ready (loop b r' w'))
      → Ready (after_evaluation e dumb theme front balance r w loop)
  unfolding empty_previous_lines form_prompt
  after_evaluation-Ready knows front balance r w loop later =
      let (ns, known) = knows w.engine in
      elim (Bool-cases (not (is_whitespace front) && not (e.exit_value w.engine == 0))) [
        | inl bad ↦ rw bad tt
        | inr fine ↦ elim (Bool-cases (is_whitespace balance)) [
          | inl blank ↦ rw (fine, blank, known) (refl, refl)
          | inr more ↦ rw (fine, more) (later balance (next_round e dumb theme balance r w) w)
        ]
      ]

  exited-Ready : (ends : Bool) (p : Processed e.S) → Ready p → Ready (if ends then exited else p)
  exited-Ready true p ready = tt
  exited-Ready false p ready = ready

  eval_loop-Ready :
      KnowsNs
      → (fuel : ℕ) (input : Bytes) (r : Repl) (w : World e.S)
      → Ready (eval_loop e dumb theme fuel input r w)
  unfolding eval_loop form_prompt
  eval_loop-Ready knows zero input r w = tt
  eval_loop-Ready knows (suc fuel) input r w = elim (Option-cases (e.is_readable input w.engine)) [
    | inl unreadable ↦ rw unreadable refl
    | inr (balance, readable) ↦ elim (Bool-cases (ltb (length input) (length balance))) [
      | inl longer ↦ rw (readable, longer) tt
      | inr within ↦
          let front = take (length input - length balance) input in
          rw (readable, within)
            (exited-Ready (not (is_whitespace front) && e.ends_process front w.engine)
              (after_evaluation e dumb theme front balance r (evaluate e dumb theme front r w)
                (eval_loop e dumb theme fuel))
              (after_evaluation-Ready knows front balance r (evaluate e dumb theme front r w)
                (eval_loop e dumb theme fuel) (λ b r' w'. eval_loop-Ready knows fuel b r' w')))
    ]
  ]

  process_line-Ready :
      KnowsNs
      → (split_on_newlines : Bool) (input_line : Bytes) (r : Repl) (w : World e.S)
      → Ready (process_line e dumb theme split_on_newlines input_line r w)
  unfolding process_line
  process_line-Ready knows split_on_newlines input_line r w =
      let r' = accumulate r input_line in
      elim (Bool-cases (is_exit_command (text_of r'.input) (not (r'.session_id == 0)))) [
        | inl quits ↦ elim (Bool-cases (r'.session_id == 0)) [
          | inl first ↦ rw (quits, first) tt
          | inr socket ↦ rw (quits, socket) tt
        ]
        | inr plain ↦
            rw plain
              (eval_loop-Ready knows (suc (length (text_of r'.input))) (text_of r'.input) r' _)
      ]

  then_process-Ready :
      (p : Processed e.S) (next : Repl → World e.S → Processed e.S)
      → Ready p
      → ((r : Repl) (w : World e.S) → Matches r → Ready (next r w))
      → Ready (then_process e dumb theme p next)
  then_process-Ready (reading r w) next ready later = later r w ready
  then_process-Ready (leaving r w) next ready later = tt
  then_process-Ready exited next ready later = tt
  then_process-Ready fault next ready later = tt
  then_process-Ready no_fuel next ready later = tt

  process_tokens-Ready :
      KnowsNs
      → (ts : List Bytes) (r : Repl) (w : World e.S) → Matches r
      → Ready (process_tokens e dumb theme ts r w)
  unfolding process_tokens
  process_tokens-Ready knows [] r w matches = matches
  process_tokens-Ready knows (t ∷ ts) r w matches =
      then_process-Ready _ (process_tokens e dumb theme ts)
        (process_line-Ready knows false t (record r { indent_space_count = 0 }) w)
        (λ r' w' m. process_tokens-Ready knows ts r' w' m)

  -- Where the engine knows its namespace, the prompt is right whenever the loop reads: after any
  -- input, pasted text of many lines and large texts included, and after Ctrl-C, it is the primary
  -- prompt of the namespace with no line kept if nothing is pending, and the secondary prompt if
  -- a form is incomplete.
  pub process_input-Matches :
      KnowsNs
      → (input_line : Bytes) (r : Repl) (w : World e.S) → Matches r
      → Ready (process_input e dumb theme input_line r w) × Matches (reset e dumb theme r)
  unfolding process_input empty_previous_lines form_prompt
  process_input-Matches knows input_line r w matches = (
    elim (Bool-cases (not (is_null e dumb theme r.input) && length input_line == 0)) [
      | inl empty_line ↦
          rw empty_line
            (process_line-Ready knows false input_line (record r { indent_space_count = 0 }) w)
      | inr other ↦ elim (Bool-cases (ltb (length input_line) 16384)) [
        | inl small ↦
            rw (other, small) (process_tokens-Ready knows (tokens b'\n' input_line) r w matches)
        | inr large ↦
            rw (other, large)
              (process_line-Ready knows true input_line (record r { indent_space_count = 0 }) w)
      ]
    ],
    (refl, refl),
  )
