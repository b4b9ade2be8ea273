-- ===== src/Http/Request/Response.antt =====
-- http.c: the result of a request, from what libcurl hands to the callbacks.
use planck.Memory.{c_string}
use planck.Http.{
  WriteState, int_limit, grow, grown_length, write_string_callback, curl_max_write_size,
  initial_state, HeaderCall, ignored, fault, set_property, header_to_object_callback,
}
use planck.Http.Body.{Holds, write_string_callback-Holds}
use planck.Http.Request.{
  Opts, Received, header, block, Transfer, Answer, receive, receive_all, start, ResponseBody, bytes,
  string, response_body, Result, is_on, result_of, lines_of, performed, at_socket,
  function_http_request, with_header,
}
use planck.Prelude.{
  ℕ, zero, suc, ◌+◌, ◌-◌, ◌≤◌, ◌<◌, ◌≡◌, ◌≢◌, ◌⊎◌, inl, inr, refl, sym, ap, subst, ◌∙◌, Bool, true,
  false, Option, none, some, List, [], ◌∷◌, ◌++◌, Bytes, append-nil, append_assoc, arith, length,
  length-append, take, get_elem?, ltb, ◌==◌, if◌then◌else◌,
}

abbrev pub blocks_in : List Received → List Bytes
blocks_in [] = []
blocks_in (header line ∷ rs) = blocks_in rs
blocks_in (block b ∷ rs) = b ∷ blocks_in rs

abbrev pub all_of : List Bytes → Bytes
all_of [] = []
all_of (b ∷ bs) = b ++ all_of bs

abbrev onto_properties : HeaderCall → List (Bytes × Bytes) → List (Bytes × Bytes)
onto_properties (set_property k v) rest = (k, v) ∷ rest
onto_properties _ rest = rest

-- The properties that the header lines set, in order.
abbrev pub properties_in : List Received → List (Bytes × Bytes)
properties_in [] = []
properties_in (header line ∷ rs) =
    onto_properties (header_to_object_callback line) (properties_in rs)
properties_in (block b ∷ rs) = properties_in rs

abbrev grown : ℕ → ℕ → ℕ → ℕ
grown offset size n = if ltb (size - offset) n then grown_length size else size

-- No header line makes the callback fail, and no block is longer than libcurl passes at once or
-- fills what is free of the buffer to its last byte or makes its length overflow. `offset` and `size` are those of the buffer.
abbrev pub AllFit : ℕ → ℕ → List Received → Type 0
AllFit offset size [] = Unit
AllFit offset size (header line ∷ rs) =
    (header_to_object_callback line ≢ fault) × AllFit offset size rs
AllFit offset size (block b ∷ rs) =
    (length b ≤ curl_max_write_size)
    × (offset + length b ≢ size)
    × (grown offset size (length b) < int_limit)
    × AllFit (offset + length b) (grown offset size (length b)) rs

-- The buffer before the first block, or behind one.
record Fine (bs : List Bytes) (s : WriteState) : Type 0 where
  holds : Holds (all_of bs) s
  ended :
      ((bs ≡ []) × (s.length ≡ 0))
      ⊎ ((0 < s.length) × (0 < length bs) × (get_elem? s.memory s.offset ≡ some 0))

all_of-append : (bs : List Bytes) (b : Bytes) → all_of (bs ++ b ∷ []) ≡ all_of bs ++ b
all_of-append [] b = append-nil b
all_of-append (x ∷ bs) b =
    ap (λ (t : Bytes). x ++ t) (all_of-append bs b) ∙ sym (append_assoc x (all_of bs) b)

grow-grown : (s : WriteState) (n : ℕ) → (grow s n).length ≡ grown s.offset s.length n
unfolding grow
grow-grown s n = ground arith

grown-pos : (offset size n : ℕ) → offset ≤ size → offset + n ≢ size → 0 < grown offset size n
unfolding grown_length
grown-pos offset size n le ne = ground arith

block-Fine :
    (bs : List Bytes) (s : WriteState) (b : Bytes)
    → Fine bs s
    → length b ≤ curl_max_write_size
    → s.offset + length b ≢ s.length
    → grown s.offset s.length (length b) < int_limit
    → (s' : WriteState) × (write_string_callback s b ≡ some s')
      × Fine (bs ++ b ∷ []) s'
      × (s'.offset ≡ s.offset + length b)
      × (s'.length ≡ grown s.offset s.length (length b))
block-Fine bs s b f small ne bound =
    let (s', e, h, zero_behind, size) =
      write_string_callback-Holds (all_of bs) s b f.holds small ne
        (rw (grow-grown s (length b)) bound) in
    let size' = size ∙ grow-grown s (length b) in
    (
      s',
      e,
      record {
        holds = subst (λ t. Holds t s') (sym (all_of-append bs b)) h;
        ended = inr (
          rw size' (grown-pos s.offset s.length (length b) f.holds.within ne),
          omega (arith, length-append bs (b ∷ [])),
          zero_behind,
        );
      },
      omega (arith, h.offset_is, f.holds.offset_is, length-append (all_of bs) b),
      size',
    )

header-receive :
    (line : Bytes) (a : Answer)
    → header_to_object_callback line ≢ fault
    → receive (header line) a
      ≡ some (record a {
        properties = a.properties ++ onto_properties (header_to_object_callback line) [];
      })
unfolding receive
header-receive line a fine = by_call (header_to_object_callback line) fine
  where
    by_call :
        (c : HeaderCall)
        → c ≢ fault
        → with_header c a ≡ some (record a { properties = a.properties ++ onto_properties c [] })
    by_call ignored ne =
        ap (λ ps. some (record a { properties = ps })) (sym (append-nil a.properties))
    by_call fault ne = absurd (ne refl)
    by_call (set_property k v) ne = refl

block-receive :
    (b : Bytes) (a : Answer) {s' : WriteState}
    → write_string_callback a.body_state b ≡ some s'
    → receive (block b) a ≡ some (record a { body_state = s' })
unfolding receive
block-receive b a e = rw e refl

onto_properties-append :
    (c : HeaderCall) (ps rest : List (Bytes × Bytes))
    → (ps ++ onto_properties c []) ++ rest ≡ ps ++ onto_properties c rest
onto_properties-append ignored ps rest = rw (append-nil ps) refl
onto_properties-append fault ps rest = rw (append-nil ps) refl
onto_properties-append (set_property k v) ps rest = append_assoc ps ((k, v) ∷ []) rest

receive_all-Fine :
    (rs : List Received) (bs : List Bytes) (a : Answer)
    → Fine bs a.body_state
    → AllFit a.body_state.offset a.body_state.length rs
    → (a' : Answer) × (receive_all rs a ≡ some a')
      × Fine (bs ++ blocks_in rs) a'.body_state
      × (a'.properties ≡ a.properties ++ properties_in rs)
unfolding receive_all
receive_all-Fine [] bs a f fit = (
  a,
  refl,
  subst (λ t. Fine t a.body_state) (sym (append-nil bs)) f,
  sym (append-nil a.properties),
)
receive_all-Fine (header line ∷ rs) bs a f fit =
    let c = header_to_object_callback line in
    let (a', e, f', ps) =
      receive_all-Fine rs bs (record a { properties = a.properties ++ onto_properties c [] }) f
        fit.1 in
    (
      a',
      rw (header-receive line a fit.0) e,
      f',
      ps ∙ onto_properties-append c a.properties (properties_in rs),
    )
receive_all-Fine (block b ∷ rs) bs a f fit =
    let (s', e, f1, o, l) = block-Fine bs a.body_state b f fit.0 fit.1 fit.2 in
    let (a', e', f', ps) =
      receive_all-Fine rs (bs ++ b ∷ []) (record a { body_state = s' }) f1 (rw o (rw l fit.3)) in
    (
      a',
      rw (block-receive b a e) e',
      subst (λ t. Fine t a'.body_state) (append_assoc bs (b ∷ []) (blocks_in rs)) f',
      ps,
    )

c_string_until : (m : Bytes) (o : ℕ) → get_elem? m o ≡ some 0 → c_string m ≡ c_string (take o m)
unfolding c_string
c_string_until [] o e = absurd (cc)
c_string_until (c ∷ m) zero e = ground arith
c_string_until (c ∷ m) (suc o) e = ground (arith, c_string_until m o e)

-- The body of the result: none if no block came, else the bytes, or the text in front of a zero.
abbrev pub body_of : Bool → List Bytes → Option ResponseBody
body_of binary [] = none
body_of true (b ∷ bs) = some (bytes (all_of (b ∷ bs)))
body_of false (b ∷ bs) = some (string (c_string (all_of (b ∷ bs))))

response_body_lem :
    (binary : Bool) (bs : List Bytes) (s : WriteState)
    → Fine bs s
    → response_body binary s ≡ body_of binary bs
unfolding response_body
response_body_lem binary bs s f = by_end binary bs f.holds f.ended
  where
    by_end :
        (binary : Bool) (bs : List Bytes)
        → Holds (all_of bs) s
        → ((bs ≡ []) × (s.length ≡ 0))
          ⊎ ((0 < s.length) × (0 < length bs) × (get_elem? s.memory s.offset ≡ some 0))
        → response_body binary s ≡ body_of binary bs
    by_end binary bs h (inl (e, z)) =
        let untouched : (s.length == 0) ≡ true = ground arith in rw (untouched, e) refl
    by_end binary [] h (inr (pos, some_block, z)) = elim some_block [ ]
    by_end true (b ∷ bs) h (inr (pos, some_block, z)) =
        let begun : (s.length == 0) ≡ false = ground arith in
        rw begun (ap (λ t. some (bytes t)) h.filled)
    by_end false (b ∷ bs) h (inr (pos, some_block, z)) =
        let begun : (s.length == 0) ≡ false = ground arith in
        rw begun
          (ap (λ t. some (string t)) (c_string_until s.memory s.offset z ∙ ap c_string h.filled))

untouched : Fine [] initial_state
untouched = record {
  holds = record { sized = refl; filled = refl; offset_is = refl; within = omega arith };
  ended = inl (refl, refl);
}

-- The result, by the response alone.
abbrev pub expected : Opts → Transfer → Result
expected o t = record {
  error = t.strerror;
  body = body_of (is_on o.binary_response) (blocks_in t.received);
  status = some t.response_code;
  headers = some (properties_in t.received);
}

result_lem :
    (o : Opts) (t : Transfer)
    → AllFit 0 0 t.received
    → result_of o t (receive_all t.received start) ≡ some (expected o t)
result_lem o t fit =
    let (a, e, f, ps) = receive_all-Fine t.received [] start untouched fit in
    rw e (
      ap
        (λ ps'. some (record (expected o t) {
          body = response_body (is_on o.binary_response) a.body_state;
          headers = some ps';
        }))
        ps
      ∙ ap (λ b. some (record (expected o t) { body = b }))
          (response_body_lem (is_on o.binary_response) (blocks_in t.received) a.body_state f))

-- Where libcurl supports UNIX sockets and each header of the request fits into its block, the
-- result has as its body the blocks that arrive, joined, or as a text these up to their first zero,
-- or nothing if there is no block; and as its headers the properties that the header lines set, in
-- order, with the response code and the message of a failure. No block is longer than libcurl passes
-- at once, none fills the buffer to its last byte or makes it grow to 2^31 bytes, and no header line
-- makes its callback run out of the line.
pub function_http_request-result :
    (get_utf8 : ℕ → Bytes → Bytes) (o : Opts) (t : Transfer) {lines : Option (List Bytes)}
    → lines_of get_utf8 o.headers ≡ some lines
    → AllFit 0 0 t.received
    → (function_http_request get_utf8 true o t).result ≡ some (expected o t)
unfolding function_http_request
function_http_request-result get_utf8 o t e fit = by_socket o.socket
  where
    by_socket :
        (socket : Option Bytes)
        → (at_socket true socket o (performed o t (lines_of get_utf8 o.headers))).result
          ≡ some (expected o t)
    by_socket none = rw e (result_lem o t fit)
    by_socket (some path) = rw e (result_lem o t fit)
