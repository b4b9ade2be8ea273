-- ===== src/Options/Loop.antt =====
-- main.c: one round of the loop over the options, taken apart.
use planck.Prelude.{◌≡◌, refl, sym, ap, ◌∙◌, Bool, true, false, List, Bytes, if◌then◌else◌}
use planck.Options.Parse.{Parsed, Outcome, running, stopped, continue_with}

pub running-injective :
    {p q : Parsed} {r s : List Bytes}
    → ◌≡◌ {A = Outcome (Parsed × List Bytes)} (running (p, r)) (running (q, s))
    → p ≡ q
running-injective e = cc

-- A round that does not stop the process went on with the rest of the options, or ended the loop.
pub data OneTurn (o : Outcome Parsed) (loop : Parsed → Outcome (Parsed × List Bytes)) (q : Parsed)
    (s : List Bytes) : Type 0 where
  again :
      (p : Parsed)
      → o ≡ running p
      → p.did_encounter_main_opt ≡ false
      → loop p ≡ running (q, s)
      → OneTurn o loop q s
  last : o ≡ running q → q.did_encounter_main_opt ≡ true → OneTurn o loop q s

round_by :
    (b : Bool) (p : Parsed) (r : List Bytes) (loop : Parsed → Outcome (Parsed × List Bytes))
    {q : Parsed} {s : List Bytes}
    → p.did_encounter_main_opt ≡ b
    → (if b then running (p, r) else loop p) ≡ running (q, s)
    → OneTurn (running p) loop q s
round_by true p r loop d e =
    let same = running-injective e in
    last (ap running same) (sym (ap (λ (t : Parsed). t.did_encounter_main_opt) same) ∙ d)
round_by false p r loop d e = again p refl d e

pub round_of :
    (o : Outcome Parsed) (r : List Bytes) (loop : Parsed → Outcome (Parsed × List Bytes))
    {q : Parsed} {s : List Bytes}
    → continue_with o r loop ≡ running (q, s)
    → OneTurn o loop q s
round_of (running p) r loop e = round_by p.did_encounter_main_opt p r loop refl e
round_of (stopped why) r loop e = absurd cc
