-- ===== src/Http/Tests.antt =====
-- Runs of the callbacks.
use planck.Prelude.{
  ◌≡◌, refl, some, none, Bytes, codes, [], ◌∷◌, ℕ, replicate, length-replicate, arith, ◌++◌, ◌-◌,
  take, take-all, true, ◌+◌, length,
}
use planck.Http.{
  WriteState, grow, header_to_object_callback, is_blank_at, set_property, ignored,
  write_string_callback, initial_state, curl_max_write_size,
}
use planck.Memory.{memcpy, c_string}
use planck.Http.{header_value, header_of, scan, skip_blanks, drop_blanks, grown_length}
use planck.Http.Request.{
  Opts, no_body, header, block, Transfer, header_lines, function_http_request,
}
use planck.Http.Request.Sent.{Copies, header_lines_lem}
use planck.Http.Request.Response.{expected, function_http_request-result}
use planck.Http.Body.{write_string_callback-overrun_reached}

header_runs :
    header_to_object_callback (codes "Host:  a b \r\n") ≡ set_property (codes "Host") (codes "a b")
unfolding header_to_object_callback is_blank_at
header_runs = refl

status_line : header_to_object_callback (codes "HTTP/1.1 200\r\n") ≡ ignored
unfolding header_to_object_callback
status_line = refl

abbrev one_block : Bytes
one_block = replicate curl_max_write_size 1

write_string_callback-overrun_reached_example :
    (s : WriteState) × (write_string_callback initial_state one_block ≡ some s)
    × (length s.memory ≡ curl_max_write_size + 1)
    × (grow s 1 ≡ s)
    × ((m : Bytes) × (memcpy s.memory s.offset (7 ∷ []) ≡ some m) × (length m ≡ s.offset + 1))
    × (write_string_callback s (7 ∷ []) ≡ none)
write_string_callback-overrun_reached_example =
    write_string_callback-overrun_reached one_block 7
      (length-replicate {A = ℕ} curl_max_write_size 1)

-- A request with one header, and an answer in two blocks.
abbrev request : Opts
request = record {
  url = codes "http://localhost/";
  method = codes "GET";
  timeout = some 5;
  binary_response = none;
  body = no_body;
  headers = some ((record { units = 6; utf8 = codes "Accept" }, codes "text/plain") ∷ []);
  user_agent = none;
  follow_redirects = some true;
  max_redirects = none;
  insecure = none;
  socket = none;
}

abbrev transfer : Transfer
transfer = record {
  received =
      header (codes "A: b" ++ b'\r' ∷ b'\n' ∷ []) ∷ block (codes "he") ∷ block (codes "llo") ∷ [];
  strerror = none;
  response_code = 200;
}

abbrev copied : ℕ → Bytes → Bytes
copied n s = take (n - 1) s

copied-Copies : Copies copied
copied-Copies n s h = take-all (n - 1) s (omega arith)

header_lines_lem_example :
    header_lines copied ((record { units = 6; utf8 = codes "Accept" }, codes "text/plain") ∷ [])
    ≡ some (codes "Accept: text/plain" ∷ [])
header_lines_lem_example =
    header_lines_lem copied ((record { units = 6; utf8 = codes "Accept" }, codes "text/plain") ∷ [])
      copied-Copies (omega arith)

function_http_request-result_example :
    (function_http_request copied true request transfer).result ≡ some (expected request transfer)
unfolding header_lines memcpy c_string header_to_object_callback skip_blanks drop_blanks is_blank_at
    header_value header_of scan grown_length
function_http_request-result_example =
    function_http_request-result copied request transfer refl (λ e. cc, omega arith)
