-- ===== src/Repl/Highlight/Home.antt =====
-- repl.c: the cursor is back where it was once a hop is undone, by the timer or by the next key.
use planck.Repl.Highlight.{
  Restore, Highlights, no_highlights, do_highlight_restore, highlight_cancel, hop, hop_unless,
  to_match, is_closing, highlight, Event, key, typed, timer, without, fired, handle, handle_all,
}
use planck.Prelude.{
  ℕ, zero, suc, ◌+◌, ◌≤◌, ◌<◌, ◌≡◌, ◌≢◌, inl, inr, Option-cases, refl, sym, ap, subst, ◌∙◌, Bool,
  true, false, not, ◌&&◌, Option, none, some, List, [], ◌∷◌, ◌++◌, ◌==◌, ==_iff, if◌then◌else◌,
  arith, Bool-cases, get_elem?,
}
use planck.Prelude.Int.{ℤ}
use planck.Repl.Highlight.Moves.{home, position, position-append, there, back, there_and_back}

-- A hop is pending: it has a number, and no other hop or way back came after it.
abbrev pending : Highlights → Bool
pending s = not (s.hl_restore.id == 0) && (s.hl_restore.id == s.highlight_restore_sequence)

abbrev Timed : Highlights → List Restore → Type 0
Timed s [] = Unit
Timed s (r ∷ rs) =
    (r.id ≤ s.highlight_restore_sequence)
    × (r.id ≢ 0)
    × (r.id ≡ s.highlight_restore_sequence → r ≡ s.hl_restore)
    × Timed s rs

-- The cursor is where it was first, or where the pending hop has moved it.
record Inv (s : Highlights) : Type 0 where
  bound : s.hl_restore.id ≤ s.highlight_restore_sequence
  cursor : position s.stdout home ≡ (if pending s then position (there s.hl_restore) home else home)
  timed : Timed s s.timers

-- The way back from the pending hop.
abbrev restored : Highlights → Highlights
restored s = record s {
  highlight_restore_sequence = s.highlight_restore_sequence + 1;
  stdout = s.stdout ++ back s.hl_restore;
}

later-Timed :
    (s t : Highlights) (rs : List Restore)
    → s.highlight_restore_sequence < t.highlight_restore_sequence
    → Timed s rs
    → Timed t rs
later-Timed s t [] h timed = tt
later-Timed s t (r ∷ rs) h (bound, some_id, same, timed) = (
  omega (arith, bound, h),
  some_id,
  λ e. absurd (omega (arith, bound, h, e)),
  later-Timed s t rs h timed,
)

pending-restored : (s : Highlights) → Inv s → pending (restored s) ≡ false
pending-restored s inv =
    let away : (s.hl_restore.id == s.highlight_restore_sequence + 1) ≡ false =
      ground (arith, inv.bound) in
    ground arith

cursor_when :
    (s : Highlights) (b : Bool)
    → Inv s
    → pending s ≡ b
    → position s.stdout home ≡ (if b then position (there s.hl_restore) home else home)
cursor_when s b inv e =
    inv.cursor ∙ ap (λ c. if c then position (there s.hl_restore) home else home) e

restored-Inv : (s : Highlights) → Inv s → pending s ≡ true → Inv (restored s)
restored-Inv s inv p = record {
  bound = omega (arith, inv.bound);
  cursor =
      back_home
      ∙ sym (
          ap (λ c. if c then position (there s.hl_restore) home else home)
            (pending-restored s inv));
  timed = later-Timed s (restored s) s.timers (omega arith) inv.timed;
}
  where
    back_home : position (restored s).stdout home ≡ home
    back_home =
        position-append s.stdout (back s.hl_restore) home
        ∙ ap (position (back s.hl_restore)) (cursor_when s true inv p)
        ∙ there_and_back s.hl_restore home

Timed-append :
    (s : Highlights) (rs : List Restore) (r : Restore)
    → Timed s rs
    → Timed s (r ∷ [])
    → Timed s (rs ++ r ∷ [])
Timed-append s [] r h h' = h'
Timed-append s (x ∷ rs) r (a, b, c, h) h' = (a, b, c, Timed-append s rs r h h')

pending-hop : (u h : ℤ) (s : Highlights) → pending (hop u h s) ≡ true
pending-hop u h s = ground arith

hop-Inv : (u h : ℤ) (s : Highlights) → Inv s → pending s ≡ false → Inv (hop u h s)
hop-Inv u h s inv p =
    let r = (hop u h s).hl_restore in
    record {
      bound = omega arith;
      cursor =
          position-append s.stdout (there r) home
          ∙ ap (position (there r)) (cursor_when s false inv p)
          ∙ sym (ap (λ c. if c then position (there r) home else home) (pending-hop u h s));
      timed =
          Timed-append (hop u h s) s.timers r
            (later-Timed s (hop u h s) s.timers (omega arith) inv.timed)
            (omega arith, λ e. absurd (omega (arith, e)), λ e. refl, tt);
    }

abbrev after_restore : Restore → Highlights → Highlights
after_restore r s = record s {
  highlight_restore_sequence = s.highlight_restore_sequence + 1;
  stdout = s.stdout ++ back r;
}

-- A timer or a key that undoes the pending hop, or comes too late for another one.
restore-Inv :
    (r : Restore) (s : Highlights)
    → Inv s
    → r.id ≢ 0
    → (r.id ≡ s.highlight_restore_sequence → r ≡ s.hl_restore)
    → Inv (do_highlight_restore r s)
unfolding do_highlight_restore
restore-Inv r s inv some_id same = elim (Bool-cases (r.id == s.highlight_restore_sequence)) [
  | inl now ↦
      let e = same ((==_iff r.id s.highlight_restore_sequence).0 now) in
      let number = ap (λ (x : Restore). x.id) e in
      let is_now = (==_iff r.id s.highlight_restore_sequence).0 now in
      let p : pending s ≡ true = ground (arith, number, is_now, some_id) in
      rw now (subst (λ x. Inv (after_restore x s)) (sym e) (restored-Inv s inv p))
  | inr late ↦ rw late inv
]

highlight_cancel-Inv : (s : Highlights) → Inv s → Inv (highlight_cancel s)
unfolding highlight_cancel
highlight_cancel-Inv s inv = elim (Bool-cases (s.hl_restore.id == 0)) [
  | inl never ↦ rw never inv
  | inr some_hop ↦ rw some_hop (
      restore-Inv s.hl_restore s inv (λ e. let z = (==_iff s.hl_restore.id 0).1 e in cc)
        (λ e. refl))
]

-- A key ends a pending hop.
highlight_cancel-pending : (s : Highlights) → Inv s → pending (highlight_cancel s) ≡ false
unfolding highlight_cancel do_highlight_restore
highlight_cancel-pending s inv = elim (Bool-cases (s.hl_restore.id == 0)) [
  | inl never ↦ rw never (rw never refl)
  | inr some_hop ↦ elim (Bool-cases (s.hl_restore.id == s.highlight_restore_sequence)) [
    | inl now ↦ rw some_hop (rw now (pending-restored s inv))
    | inr late ↦ rw some_hop (rw late (rw (some_hop, late) refl))
  ]
]

get_elem?-Timed :
    (s : Highlights) (rs : List Restore) (k : ℕ) (r : Restore)
    → Timed s rs
    → get_elem? rs k ≡ some r
    → Timed s (r ∷ [])
get_elem?-Timed s [] k r h e = cc
get_elem?-Timed s (x ∷ rs) zero r (a, b, c, h) e =
    let same : x ≡ r = cc in subst (λ y. Timed s (y ∷ [])) same (a, b, c, tt)
get_elem?-Timed s (x ∷ rs) (suc k) r (a, b, c, h) e = get_elem?-Timed s rs k r h e

without-Timed : (s : Highlights) (rs : List Restore) (k : ℕ) → Timed s rs → Timed s (without k rs)
without-Timed s [] k h = tt
without-Timed s (x ∷ rs) zero (a, b, c, h) = h
without-Timed s (x ∷ rs) (suc k) (a, b, c, h) = (a, b, c, without-Timed s rs k h)

fired-Inv :
    (s : Highlights) (k : ℕ) (o : Option Restore)
    → get_elem? s.timers k ≡ o
    → Inv s
    → Inv (fired o k s)
fired-Inv s k none e inv = inv
fired-Inv s k (some r) e inv =
    let (bound, some_id, same, t) = get_elem?-Timed s s.timers k r inv.timed e in
    restore-Inv r (record s { timers = without k s.timers })
      (record {
        bound = inv.bound;
        cursor = inv.cursor;
        timed = without-Timed s s.timers k inv.timed;
      })
      some_id same

to_match-Inv :
    (w p at : ℕ) (coords : Option (ℤ × ℤ)) (s t : Highlights)
    → Inv s
    → pending s ≡ false
    → to_match w p at coords s ≡ some t
    → Inv t
to_match-Inv w p at none s t inv idle e = let same : s ≡ t = cc in subst Inv same inv
to_match-Inv w p at (some (u, h)) s t inv idle e = by_hop _ _ e
  where
    by_hop : (skip : Bool) (o : Option (ℤ × ℤ)) → hop_unless skip o s ≡ some t → Inv t
    by_hop skip none e = cc
    by_hop true (some (u, h)) e = let same : s ≡ t = cc in subst Inv same inv
    by_hop false (some (u, h)) e =
        let same : hop u h s ≡ t = cc in subst Inv same (hop-Inv u h s inv idle)

handle-Inv : (e : Event) (s t : Highlights) → Inv s → handle e s ≡ some t → Inv t
unfolding handle highlight
handle-Inv key s t inv e =
    let same : highlight_cancel s ≡ t = cc in subst Inv same (highlight_cancel-Inv s inv)
handle-Inv (timer k) s t inv e =
    let same : fired (get_elem? s.timers k) k s ≡ t = cc in
    subst Inv same (fired-Inv s k (get_elem? s.timers k) refl inv)
handle-Inv (typed w p buf at coords) s t inv e = by_bracket (is_closing (get_elem? buf at)) e
  where
    by_bracket :
        (closing : Bool)
        → (if closing
            then to_match w p at coords (highlight_cancel s)
            else some (highlight_cancel s))
          ≡ some t
        → Inv t
    by_bracket true e =
        to_match-Inv w p at coords (highlight_cancel s) t (highlight_cancel-Inv s inv)
          (highlight_cancel-pending s inv) e
    by_bracket false e =
        let same : highlight_cancel s ≡ t = cc in subst Inv same (highlight_cancel-Inv s inv)

handle_all-Inv : (es : List Event) (s t : Highlights) → Inv s → handle_all es s ≡ some t → Inv t
unfolding handle_all
handle_all-Inv [] s t inv h = let same : s ≡ t = cc in subst Inv same inv
handle_all-Inv (e ∷ es) s t inv h = elim (Option-cases (handle e s)) [
  | inl crashed ↦ let no = rw crashed at h in cc
  | inr (s', now) ↦ handle_all-Inv es s' t (handle-Inv e s s' inv now) (rw now at h)
]

-- After any keys, and timers that run out between them in any order, the next key finds the cursor
-- where the text has left it: each hop to a bracket is undone once, by a timer or by a key.
pub handle_all-home :
    (events : List Event) (s : Highlights)
    → handle_all events no_highlights ≡ some s
    → position (highlight_cancel s).stdout home ≡ home
handle_all-home events s h =
    let inv =
      handle_all-Inv events no_highlights s
        (record { bound = omega arith; cursor = refl; timed = tt }) h in
    cursor_when (highlight_cancel s) false (highlight_cancel-Inv s inv)
      (highlight_cancel-pending s inv)
