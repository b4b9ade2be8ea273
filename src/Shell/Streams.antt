-- ===== src/Shell/Streams.antt =====
-- shell.c: the result of `process_child_pipes`.
use planck.Memory.{c_string}
use planck.Prelude.{
  ℕ, ◌≤◌, ◌≡◌, refl, ap, ◌∙◌, Bool, true, false, ◌&&◌, Option, none, some, List, [], ◌∷◌, ◌++◌,
  Bytes, arith, ◌==◌, length, take, drop, Bool-cases, inl, inr, take-append-drop, take-all, ==_iff,
  append_assoc, append-nil,
}
use planck.Prelude.Int.{pos, negsuc}
use planck.Shell.Pipes.{
  Capture, Delivery, bytes, at_end, read_error, received, buffer, start_total, num_to_read, Poll,
  interrupted, poll_error, timeout, ready, Streams, start_streams, read_if, write_in, serve, Piped,
  piped, waiting, crashed, pipes_loop, process_child_pipes, text_of, read_child_pipe,
}
use planck.Shell.Capture.{Holds, no_capture-Holds, read_child_pipe-Holds, read_child_pipe-end}

-- What a stream delivered before its end, and whether it ended.
abbrev pub feed : Option Delivery → Bytes × Bool → Bytes × Bool
feed (some (bytes b)) (text, false) = (text ++ b, false)
feed (some at_end) (text, false) = (text, true)
feed _ f = f

-- A read delivers no more than was asked for, which depends on what was read before.
abbrev pub Fits : Option Delivery → Bytes × Bool → Type 0
Fits (some (bytes b)) (text, false) = length b ≤ num_to_read (length text)
Fits _ f = Unit

-- The capture of a stream: all that it delivered; a string once the stream has ended.
abbrev pub Captured : Bytes × Bool → Capture → Bool → Type 0
Captured (text, false) c eof = (eof ≡ false) × Holds text c
Captured (text, true) c eof = (eof ≡ true) × (text_of c ≡ c_string text)

read_if-Captured :
    (d : Option Delivery) (f : Bytes × Bool) (c : Capture) (eof : Bool)
    → Captured f c eof
    → Fits d f
    → (c' : Capture) × (eof' : Bool) × (read_if eof d c ≡ received c' eof')
      × Captured (feed d f) c' eof'
unfolding read_child_pipe
read_if-Captured none f c eof h fits = (c, eof, refl, h)
read_if-Captured (some d) (text, true) c eof h fits = (c, true, rw (h.0) refl, ended d)
  where
    ended : (d : Delivery) → Captured (feed (some d) (text, true)) c true
    ended (bytes b) = (refl, h.1)
    ended at_end = (refl, h.1)
    ended read_error = (refl, h.1)
read_if-Captured (some (bytes b)) (text, false) c eof (open_, h) fits =
    let (c', e, holds) = read_child_pipe-Holds text b c h (rw h.total_is fits) in
    (c', false, rw open_ e, (refl, holds))
read_if-Captured (some at_end) (text, false) c eof (open_, h) fits =
    let (c', e, string) = read_child_pipe-end text c h in (c', true, rw open_ e, (refl, string))
read_if-Captured (some read_error) (text, false) c eof (open_, h) fits = (
  record { buf = some (buffer c); total = start_total c },
  false,
  rw open_ refl,
  (refl, record { sized = h.sized; filled = h.filled; total_is = h.total_is }),
)

abbrev pub out_of : Poll → Option Delivery
out_of (ready out err w) = out
out_of _ = none

abbrev pub err_of : Poll → Option Delivery
err_of (ready out err w) = err
err_of _ = none

-- All that a stream delivers in the rounds of `poll`.
abbrev pub feeds : (Poll → Option Delivery) → List Poll → Bytes × Bool → Bytes × Bool
feeds of [] f = f
feeds of (p ∷ ps) f = feeds of ps (feed (of p) f)

abbrev pub AllFit : (Poll → Option Delivery) → List Poll → Bytes × Bool → Type 0
AllFit of [] f = Unit
AllFit of (p ∷ ps) f = Fits (of p) f × AllFit of ps (feed (of p) f)

-- What the child got and what it is still to get.
abbrev pub Sent : Bytes → Streams → Type 0
Sent input s = s.written ++ elim (s.to_write) [ none ↦ [] | some t ↦ t ] ≡ input

abbrev pub Result : Bytes → Bytes × Bool → Bytes × Bool → Piped → Type 0
Result input out err (piped (pos n) s) =
    (text_of s.out ≡ c_string out.0)
    × (text_of s.err ≡ c_string err.0)
    × (out.1 ≡ true)
    × (err.1 ≡ true)
    × Sent input s
Result input out err (piped (negsuc n) s) = Sent input s
Result input out err (waiting s) = (out.1 && err.1 ≡ false) × Sent input s
Result input out err crashed = ⊥

feed_ended : (d : Option Delivery) (text : Bytes) → feed d (text, true) ≡ (text, true)
feed_ended none text = refl
feed_ended (some (bytes b)) text = refl
feed_ended (some at_end) text = refl
feed_ended (some read_error) text = refl

feeds_ended :
    (of : Poll → Option Delivery) (ps : List Poll) (text : Bytes)
    → feeds of ps (text, true) ≡ (text, true)
feeds_ended of [] text = refl
feeds_ended of (p ∷ ps) text = rw (feed_ended (of p) text) (feeds_ended of ps text)

write_in-Sent :
    (w : Option (Option ℕ)) (input : Bytes) (s : Streams) (t : Option Bytes)
    → s.to_write ≡ t
    → Sent input s
    → Sent input (write_in w s t)
write_in-Sent none input s t e h = h
write_in-Sent (some r) input s none e h = h
write_in-Sent (some none) input s (some t) e h = h
write_in-Sent (some (some n)) input s (some t) e h =
    let sent : s.written ++ t ≡ input = rw e at h in
    elim (Bool-cases (n == length t)) [
      | inl all ↦
          let whole : take n t ≡ t = take-all n t (omega (arith, (==_iff n (length t)).0 all)) in
          rw (all, whole) (append-nil (s.written ++ t) ∙ sent)
      | inr some_left ↦ rw some_left (
          append_assoc s.written (take n t) (drop n t)
          ∙ ap (λ (u : Bytes). s.written ++ u) (take-append-drop n t)
          ∙ sent)
    ]

-- Writing leaves both captures alone.
write_in-captures :
    (w : Option (Option ℕ)) (s : Streams) (t : Option Bytes) (out err : Bytes × Bool)
    → Captured out s.out s.out_eof
    → Captured err s.err s.err_eof
    → let s' = write_in w s t in Captured out s'.out s'.out_eof × Captured err s'.err s'.err_eof
write_in-captures none s t out err h h' = (h, h')
write_in-captures (some r) s none out err h h' = (h, h')
write_in-captures (some none) s (some t) out err h h' = (h, h')
write_in-captures (some (some n)) s (some t) out err h h' = elim (Bool-cases (n == length t)) [
  | inl all ↦ rw all (h, h')
  | inr some_left ↦ rw some_left (h, h')
]

-- One round keeps both captures and what is sent.
record Served (input : Bytes) (out err : Bytes × Bool) (next : Option Streams) : Type 0 where
  state : Streams
  served : next ≡ some state
  out_is : Captured out state.out state.out_eof
  err_is : Captured err state.err state.err_eof
  sent : Sent input state

serve-Served :
    (d d' : Option Delivery) (w : Option (Option ℕ)) (input : Bytes) (s : Streams)
    (out err : Bytes × Bool)
    → Captured out s.out s.out_eof
    → Captured err s.err s.err_eof
    → Fits d out
    → Fits d' err
    → Sent input s
    → Served input (feed d out) (feed d' err) (serve d d' w s)
unfolding serve
serve-Served d d' w input s out err ho he fo fe sent =
    let (c, eof, e, h) = read_if-Captured d out s.out s.out_eof ho fo in
    let (c', eof', e', h') = read_if-Captured d' err s.err s.err_eof he fe in
    let s' : Streams = record s { out = c; out_eof = eof; err = c'; err_eof = eof' } in
    let captures = write_in-captures w s' s'.to_write (feed d out) (feed d' err) h h' in
    record {
      state = write_in w s' s'.to_write;
      served = rw (e, e') refl;
      out_is = captures.0;
      err_is = captures.1;
      sent = write_in-Sent w input s' s'.to_write refl sent;
    }

Captured-eof : (f : Bytes × Bool) (c : Capture) (eof : Bool) → Captured f c eof → eof ≡ f.1
Captured-eof (text, true) c eof h = h.0
Captured-eof (text, false) c eof h = h.0

-- Both streams have ended: later rounds add nothing.
both_ended :
    (ps : List Poll) (input : Bytes) (s : Streams) (out err : Bytes × Bool)
    → s.out_eof && s.err_eof ≡ true
    → Captured out s.out s.out_eof
    → Captured err s.err s.err_eof
    → Sent input s
    → Result input (feeds out_of ps out) (feeds err_of ps err) (piped (pos 0) s)
both_ended ps input s (text, true) (text', true) e h h' sent =
    rw (feeds_ended out_of ps text, feeds_ended err_of ps text') (h.1, h'.1, refl, refl, sent)
both_ended ps input s (text, false) err e h h' sent = absurd cc
both_ended ps input s (text, true) (text', false) e h h' sent = absurd cc

pipes_loop-Result :
    (ps : List Poll) (input : Bytes) (s : Streams) (out err : Bytes × Bool)
    → Captured out s.out s.out_eof
    → Captured err s.err s.err_eof
    → AllFit out_of ps out
    → AllFit err_of ps err
    → Sent input s
    → Result input (feeds out_of ps out) (feeds err_of ps err) (pipes_loop ps s)
unfolding pipes_loop
pipes_loop-Result [] input s out err h h' fits fits' sent =
    elim (Bool-cases (s.out_eof && s.err_eof)) [
      | inl ended ↦ rw ended (both_ended [] input s out err ended h h' sent)
      | inr open_ ↦ rw open_ (
        rw (Captured-eof out s.out s.out_eof h, Captured-eof err s.err s.err_eof h') at open_,
        sent,
      )
    ]
pipes_loop-Result (interrupted ∷ ps) input s out err h h' fits fits' sent =
    elim (Bool-cases (s.out_eof && s.err_eof)) [
      | inl ended ↦ rw ended (both_ended (interrupted ∷ ps) input s out err ended h h' sent)
      | inr open_ ↦ rw open_ (pipes_loop-Result ps input s out err h h' fits.1 fits'.1 sent)
    ]
pipes_loop-Result (timeout ∷ ps) input s out err h h' fits fits' sent =
    elim (Bool-cases (s.out_eof && s.err_eof)) [
      | inl ended ↦ rw ended (both_ended (timeout ∷ ps) input s out err ended h h' sent)
      | inr open_ ↦ rw open_ (pipes_loop-Result ps input s out err h h' fits.1 fits'.1 sent)
    ]
pipes_loop-Result (poll_error ∷ ps) input s out err h h' fits fits' sent =
    elim (Bool-cases (s.out_eof && s.err_eof)) [
      | inl ended ↦ rw ended (both_ended (poll_error ∷ ps) input s out err ended h h' sent)
      | inr open_ ↦ rw open_ sent
    ]
pipes_loop-Result (ready d d' w ∷ ps) input s out err h h' fits fits' sent =
    elim (Bool-cases (s.out_eof && s.err_eof)) [
      | inl ended ↦ rw ended (both_ended (ready d d' w ∷ ps) input s out err ended h h' sent)
      | inr open_ ↦
          let r = serve-Served d d' w input s out err h h' fits.0 fits'.0 sent in
          rw (open_, r.served)
            (pipes_loop-Result ps input r.state (feed d out) (feed d' err) r.out_is r.err_is fits.1
              fits'.1 r.sent)
    ]

-- No round writes outside a buffer, however the pipes deliver their bytes, as long as a read gives
-- no more than it was asked for. What the child got and what it is still to get are the input
-- string up to its first zero. Where the loop ends with status 0, both streams have ended, and the
-- texts of the result are all that they delivered, each up to its first zero; while it still waits
-- at least one stream has not ended.
pub process_child_pipes-Result :
    (in_str : Option Bytes) (polls : List Poll)
    → AllFit out_of polls ([], false)
    → AllFit err_of polls ([], false)
    → Result
        (elim in_str [ none ↦ [] | some s ↦ c_string s ])
        (feeds out_of polls ([], false))
        (feeds err_of polls ([], false))
        (process_child_pipes in_str polls)
unfolding process_child_pipes start_streams
process_child_pipes-Result none polls fits fits' =
    pipes_loop-Result polls [] (start_streams none) ([], false) ([], false) (refl, no_capture-Holds)
      (refl, no_capture-Holds) fits fits' refl
process_child_pipes-Result (some s) polls fits fits' =
    pipes_loop-Result polls (c_string s) (start_streams (some s)) ([], false) ([], false)
      (refl, no_capture-Holds) (refl, no_capture-Holds) fits fits' refl
