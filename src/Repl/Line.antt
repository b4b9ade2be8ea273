-- ===== src/Repl/Line.antt =====
-- repl.c: what one line of input leads to.
use planck.Prelude.{
  ℕ, zero, suc, ◌+◌, ◌-◌, ◌<◌, ◌≡◌, refl, sym, ap, subst, ◌∙◌, Bool, true, false, not, ◌&&◌, none,
  some, List, [], ◌∷◌, ◌++◌, append_assoc, append-nil, Bytes, arith, ◌==◌, ltb, length, take,
  Bool-cases, Option-cases, inl, inr, length-append,
}
use planck.Memory.{take_front}
use planck.Repl.{
  Repl, is_whitespace, is_exit_command, Engine, Event, evaluated, newline, World, Processed,
  reading, leaving, exited, fault, no_fuel, accumulate, text_of,
}
use planck.Repl.Process.{
  evaluate, theme_of, next_round, after_evaluation, eval_loop, add_history, process_line,
}

and_right : (a b : Bool) → a && b ≡ true → b ≡ true
and_right true b h = h
and_right false b h = absurd cc

-- What the REPL relies on: the text behind a form is a proper suffix of the text.
abbrev pub ReadsForms : Engine → Type 0
ReadsForms e =
    (text : Bytes) (s : e.S) (rest : Bytes)
    → e.is_readable text s ≡ some rest
    → (form : Bytes) × (text ≡ form ++ rest) × (0 < length form)

-- No evaluation ends the process.
abbrev pub Returns : Engine → Type 0
Returns e = (source : Bytes) (s : e.S) → e.ends_process source s ≡ false

and_false : (a : Bool) → a && false ≡ false
and_false true = refl
and_false false = refl

abbrev pub concat : List Bytes → Bytes
concat [] = []
concat (p ∷ ps) = p ++ concat ps

-- A piece of the input and what was done with it.
abbrev pub Done : Bytes → Event → Type 0
Done piece (evaluated source ns theme) = (piece ≡ source) × (is_whitespace piece ≡ false)
Done piece newline = is_whitespace piece ≡ true

abbrev pub AllDone : List Bytes → List Event → Type 0
AllDone [] [] = Unit
AllDone (p ∷ ps) (ev ∷ evs) = Done p ev × AllDone ps evs
AllDone _ _ = ⊥

-- The input is cut into pieces, done one after the other, and a rest.
pub record Cut (input : Bytes) (before after : List Event) (rest : Bytes) : Type 0 where
  pub pieces : List Bytes
  pub events : List Event
  pub whole : concat pieces ++ rest ≡ input
  pub logged : after ≡ before ++ events
  pub all_done : AllDone pieces events

module _ (e : Engine) (dumb : Bool) (theme : Bytes) where
  -- What is left is blank and dropped, or is kept as the input, since no form can be read.
  abbrev pub Left : Repl → World e.S → Bytes → Type 0
  Left r w rest = elim (r.input) [
    | none ↦ is_whitespace rest ≡ true
    | some kept ↦ (kept ≡ rest) × (e.is_readable rest w.engine ≡ none)
  ]

  abbrev pub Covers : Bytes → List Event → Processed e.S → Type 0
  Covers input before (reading r w) = (rest : Bytes) × Cut input before w.log rest × Left r w rest
  Covers input before (leaving r w) =
      (rest : Bytes) × Cut input before w.log rest × (not (e.exit_value w.engine == 0) ≡ true)
  Covers input before _ = ⊥

  keep : (input : Bytes) (before : List Event) → Cut input before before input
  keep input before = record {
    pieces = [];
    events = [];
    whole = refl;
    logged = sym (append-nil before);
    all_done = tt;
  }

  -- A piece in front of a cut.
  onto :
      (form : Bytes) (ev : Event) {balance rest : Bytes} {before after : List Event}
      → Done form ev
      → Cut balance (before ++ ev ∷ []) after rest
      → Cut (form ++ balance) before after rest
  onto form ev {rest = rest} {before = before} done c = record {
    pieces = form ∷ c.pieces;
    events = ev ∷ c.events;
    whole = append_assoc form (concat c.pieces) rest ∙ ap (λ (t : Bytes). form ++ t) c.whole;
    logged = c.logged ∙ append_assoc before (ev ∷ []) c.events;
    all_done = (done, c.all_done);
  }

  Covers-onto :
      (form : Bytes) (ev : Event) (balance : Bytes) (before : List Event) (p : Processed e.S)
      → Done form ev
      → Covers balance (before ++ ev ∷ []) p
      → Covers (form ++ balance) before p
  Covers-onto form ev balance before (reading r w) done (rest, c, left) =
      (rest, onto form ev done c, left)
  Covers-onto form ev balance before (leaving r w) done (rest, c, left) =
      (rest, onto form ev done c, left)
  Covers-onto form ev balance before exited done c = absurd c
  Covers-onto form ev balance before fault done c = absurd c
  Covers-onto form ev balance before no_fuel done c = absurd c

  -- What `evaluate` logs.
  evaluate-Done :
      (front : Bytes) (r : Repl) (w : World e.S)
      → (ev : Event) × ((evaluate e dumb theme front r w).log ≡ w.log ++ ev ∷ []) × Done front ev
  evaluate-Done front r w = elim (Bool-cases (is_whitespace front)) [
    | inl blank ↦ (newline, rw blank, blank)
    | inr not_blank ↦
        (evaluated front r.current_ns (theme_of e dumb theme r), rw not_blank, (refl, not_blank))
  ]

  -- Behind one evaluation, if the loop covers the text behind the form.
  after_evaluation-Covers :
      (front balance : Bytes) (before : List Event) (ev : Event) (r : Repl) (w : World e.S)
      (loop : Bytes → Repl → World e.S → Processed e.S)
      → Done front ev
      → w.log ≡ before ++ ev ∷ []
      → Covers balance w.log (loop balance (next_round e dumb theme balance r w) w)
      → Covers (front ++ balance) before (after_evaluation e dumb theme front balance r w loop)
  after_evaluation-Covers front balance before ev r w loop done logged later =
      elim (Bool-cases (not (is_whitespace front) && not (e.exit_value w.engine == 0))) [
        | inl bad ↦ rw bad (
          balance,
          onto front ev done (subst (λ l. Cut balance l w.log balance) logged (keep balance w.log)),
          and_right _ _ bad,
        )
        | inr fine ↦ elim (Bool-cases (is_whitespace balance)) [
          | inl blank ↦
              rw (fine, blank)
                (
                  balance,
                  onto front ev done
                      (subst (λ l. Cut balance l w.log balance) logged (keep balance w.log)),
                  blank,
                )
          | inr more ↦
              rw (fine, more)
                (Covers-onto front ev balance before _ done (
                  subst
                    (λ l. Covers balance l (loop balance (next_round e dumb theme balance r w) w))
                    logged later))
        ]
      ]

  eval_loop-Covers :
      ReadsForms e
      → Returns e
      → (fuel : ℕ) (input : Bytes) (r : Repl) (w : World e.S) → length input < fuel
      → Covers input w.log (eval_loop e dumb theme fuel input r w)
  unfolding eval_loop
  eval_loop-Covers law returns zero input r w h = elim h [ ]
  eval_loop-Covers law returns (suc fuel) input r w h =
      elim (Option-cases (e.is_readable input w.engine)) [
        | inl unreadable ↦ rw unreadable (input, keep input w.log, (refl, unreadable))
        | inr (balance, readable) ↦
            let (form, split, some_bytes) = law input w.engine balance readable in
            let sizes : length input ≡ length form + length balance =
              rw split (length-append form balance) in
            let front : take (length input - length balance) input ≡ form = rw split (
              take_front (length (form ++ balance) - length balance) form balance
                (omega (arith, length-append form balance))) in
            let (ev, logged, done) = evaluate-Done form r w in
            let w' = evaluate e dumb theme form r w in
            let within : ltb (length input) (length balance) ≡ false = ground (arith, sizes) in
            let goes_on : not (is_whitespace form) && e.ends_process form w.engine ≡ false =
              ap (λ b. not (is_whitespace form) && b) (returns form w.engine) ∙ and_false _ in
            rw (readable, within, front, goes_on)
              (subst
                (λ t.
                  Covers t w.log
                    (after_evaluation e dumb theme form balance r w' (eval_loop e dumb theme fuel)))
                (sym split)
                (after_evaluation-Covers form balance w.log ev r w' (eval_loop e dumb theme fuel)
                  done logged
                  (eval_loop-Covers law returns fuel balance (next_round e dumb theme balance r w')
                    w' (omega (arith, sizes)))))
      ]

  add_history-log :
      (split_on_newlines : Bool) (input_line : Bytes) (r : Repl) (w : World e.S)
      → (add_history e dumb theme split_on_newlines input_line r w).log ≡ w.log
  add_history-log split_on_newlines input_line r w = ground arith

-- Where the text behind a form is always shorter than the text and no evaluation ends the process, a
-- line that is no command to quit ends: the loop neither runs on nor writes in front of its input. The accumulated input is then
-- cut, without a gap or an overlap, into pieces that were evaluated in order, each once, or were
-- blank, and a rest. If the REPL reads on, the rest is blank and dropped, or no form can be read
-- from it and it is the input kept for the next line; it leaves the loop only with an exit value.
pub process_line-Covers :
    (e : Engine) (dumb : Bool) (theme : Bytes) (split_on_newlines : Bool) (input_line : Bytes)
    (r : Repl) (w : World e.S)
    → ReadsForms e
    → Returns e
    → is_exit_command (text_of (accumulate r input_line).input) (not (r.session_id == 0)) ≡ false
    → Covers e dumb theme
        (text_of (accumulate r input_line).input)
        w.log
        (process_line e dumb theme split_on_newlines input_line r w)
unfolding process_line accumulate
process_line-Covers e dumb theme split_on_newlines input_line r w law returns plain =
    let r' = accumulate r input_line in
    let w' = add_history e dumb theme split_on_newlines input_line r' w in
    let done = eval_loop e dumb theme (suc (length (text_of r'.input))) (text_of r'.input) r' w' in
    rw plain (
      subst (λ l. Covers e dumb theme (text_of r'.input) l done)
        (add_history-log e dumb theme split_on_newlines input_line r' w)
        (eval_loop-Covers e dumb theme law returns (suc (length (text_of r'.input)))
          (text_of r'.input) r' w' (omega arith)))
