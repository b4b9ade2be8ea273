-- ===== src/Http/Request.antt =====
-- http.c: `function_http_request`, from the options that ClojureScript gives to the result object.
-- libcurl is what it delivers: header lines and blocks of the body, and a result.
pub mod Response
pub mod Sent
use planck.Memory.{memcpy, c_string}
use planck.Http.{
  WriteState, write_string_callback, initial_state, HeaderCall, ignored, fault, set_property,
  header_to_object_callback,
}
use planck.Prelude.{
  ℕ, ◌+◌, ◌%◌, Bool, true, false, Option, none, some, List, [], ◌∷◌, ◌++◌, Bytes, codes, ◌==◌,
  if◌then◌else◌, length, map, replicate, take, not,
}
use planck.Prelude.Int.{ℤ, pos, negsuc}

-- The name of a header: how many UTF-16 units it has, and its UTF-8 text.
pub record Key : Type 0 where
  pub units : ℕ
  pub utf8 : Bytes

pub data Body : Type 0 where
  no_body : Body
  elements : List ℕ → Body
  body_text : Bytes → Body

-- The properties of the options; `none` where a property is not there or not of its type, and for
-- `headers` where it is null. (A header's value is its `to_string`.)
pub record Opts : Type 0 where
  pub url : Bytes
  pub method : Bytes
  pub timeout : Option ℕ
  pub binary_response : Option Bool
  pub body : Body
  pub headers : Option (List (Key × Bytes))
  pub user_agent : Option Bytes
  pub follow_redirects : Option Bool
  pub max_redirects : Option ℤ
  pub insecure : Option Bool
  pub socket : Option Bytes

-- The calls of `curl_easy_setopt`.
pub data Setopt : Type 0 where
  custom_request url user_agent unix_socket_path : Bytes → Setopt
  follow_location : Setopt
  max_redirs : ℤ → Setopt
  ssl_verify_peer ssl_verify_host : ℕ → Setopt
  http_header : List Bytes → Setopt
  timeout : ℕ → Setopt
  post_fields : Bytes → Setopt
  post_field_size : ℕ → Setopt

abbrev pub is_on : Option Bool → Bool
is_on none = false
is_on (some b) = b

abbrev user_agent_opts : Option Bytes → List Setopt
user_agent_opts none = []
user_agent_opts (some agent) = user_agent agent ∷ []

abbrev max_redirs_opts : Option ℤ → List Setopt
max_redirs_opts none = []
max_redirs_opts (some n) = max_redirs n ∷ []

abbrev redirect_opts : Bool → Option ℤ → List Setopt
redirect_opts true max = follow_location ∷ max_redirs_opts max
redirect_opts false max = []

abbrev insecure_opts : Bool → List Setopt
insecure_opts true = ssl_verify_peer 0 ∷ ssl_verify_host 0 ∷ []
insecure_opts false = []

abbrev socket_opts : Option Bytes → List Setopt
socket_opts none = []
socket_opts (some path) = unix_socket_path path ∷ []

-- The options in front of the socket.
unfoldable pub first_opts : Opts → List Setopt
first_opts o =
    custom_request o.method
    ∷ url o.url
    ∷ (user_agent_opts o.user_agent
        ++ (redirect_opts (is_on o.follow_redirects) o.max_redirects
            ++ insecure_opts (is_on o.insecure)))

abbrev pub as_line : Option Bytes → Option Bytes
as_line none = none
as_line (some block) = some (c_string block)

-- The text `key: value` with its zero in a block of exactly that length; `none` is a write behind it.
abbrev pub format_line : Bytes → Bytes → Option Bytes
format_line key val = as_line (
    memcpy (replicate (length key + length val + 2 + 1) 0) 0
      (key ++ (codes ": " ++ (val ++ 0 ∷ []))))

-- One header; its key has a block of as many bytes as it has units, and one. `get_utf8` is
-- `JSStringGetUTF8CString` for a block of some size.
unfoldable pub header_line : (ℕ → Bytes → Bytes) → Key × Bytes → Option Bytes
header_line get_utf8 (k, val) = format_line (get_utf8 (k.units + 1) k.utf8) val

abbrev onto : Option Bytes → Option (List Bytes) → Option (List Bytes)
onto none rest = none
onto (some h) none = none
onto (some h) (some rest) = some (h ∷ rest)

unfoldable pub header_lines : (ℕ → Bytes → Bytes) → List (Key × Bytes) → Option (List Bytes)
unfolding header_line
header_lines get_utf8 [] = some []
header_lines get_utf8 (h ∷ hs) = onto (header_line get_utf8 h) (header_lines get_utf8 hs)

-- An element is converted to `char`; as a byte it is the number modulo 256.
unfoldable pub body_opts : Body → List Setopt
body_opts no_body = []
body_opts (elements ns) =
    post_fields (map (λ (n : ℕ). n % 256) ns) ∷ post_field_size (length ns) ∷ []
body_opts (body_text text) = post_fields text ∷ []

abbrev seconds : Option ℕ → ℕ
seconds none = 0
seconds (some n) = n

abbrev header_opts : Option (List Bytes) → List Setopt
header_opts none = []
header_opts (some lines) = http_header lines ∷ []

-- What libcurl hands to the callbacks, in order, and how `curl_easy_perform` ends: a message where
-- its result is not 0, and the response code.
pub data Received : Type 0 where
  header : Bytes → Received
  block : Bytes → Received

pub record Transfer : Type 0 where
  pub received : List Received
  pub strerror : Option Bytes
  pub response_code : ℕ

-- The state of the two callbacks: the body, and the properties of the headers in the order set.
pub record Answer : Type 0 where
  pub body_state : WriteState
  pub properties : List (Bytes × Bytes)

abbrev pub with_header : HeaderCall → Answer → Option Answer
with_header ignored a = some a
with_header fault a = none
with_header (set_property k v) a = some (record a { properties = a.properties ++ (k, v) ∷ [] })

abbrev pub with_block : Option WriteState → Answer → Option Answer
with_block none a = none
with_block (some s) a = some (record a { body_state = s })

unfoldable pub receive : Received → Answer → Option Answer
receive (header line) a = with_header (header_to_object_callback line) a
receive (block bytes) a = with_block (write_string_callback a.body_state bytes) a

abbrev pub then_receive : Option Answer → (Answer → Option Answer) → Option Answer
then_receive none next = none
then_receive (some a) next = next a

unfoldable pub receive_all : List Received → Answer → Option Answer
unfolding receive
receive_all [] a = some a
receive_all (r ∷ rs) a = then_receive (receive r a) (receive_all rs)

-- The `body` property: an array of bytes, or a string.
pub data ResponseBody : Type 0 where
  bytes string : Bytes → ResponseBody

-- The result object; a property that is not set is `none`.
pub record Result : Type 0 where
  pub error : Option Bytes
  pub body : Option ResponseBody
  pub status : Option ℕ
  pub headers : Option (List (Bytes × Bytes))

-- `data` is null until the first block, and not after it; its length is then not 0.
unfoldable pub response_body : Bool → WriteState → Option ResponseBody
unfolding c_string
response_body binary s =
    if s.length == 0
    then none
    else some (if binary then bytes (take s.offset s.memory) else string (c_string s.memory))

abbrev pub result_of : Opts → Transfer → Option Answer → Option Result
result_of o t none = none
result_of o t (some a) = some (record {
  error = t.strerror;
  body = response_body (is_on o.binary_response) a.body_state;
  status = some t.response_code;
  headers = some a.properties;
})

-- What a request sets for libcurl, and its result; `none` is a write outside a block. `sent` is
-- false where libcurl does not support UNIX sockets and the request is not made.
pub record Requested : Type 0 where
  pub setopts : List Setopt
  pub sent : Bool
  pub result : Option Result

abbrev unsupported : Result
unsupported = record {
  error = some (codes "This version of libcurl does not support UNIX sockets.");
  body = none;
  status = none;
  headers = none;
}

abbrev pub start : Answer
start = record { body_state = initial_state; properties = [] }

abbrev pub performed : Opts → Transfer → Option (Option (List Bytes)) → Requested
performed o t none = record { setopts = []; sent = false; result = none }
performed o t (some lines) = record {
  setopts =
      first_opts o
      ++ (socket_opts o.socket
          ++ (header_opts lines ++ (timeout (seconds o.timeout) ∷ body_opts o.body)));
  sent = true;
  result = result_of o t (receive_all t.received start);
}

abbrev with_lines : Option (List Bytes) → Option (Option (List Bytes))
with_lines none = none
with_lines (some lines) = some (some lines)

abbrev pub lines_of :
    (ℕ → Bytes → Bytes) → Option (List (Key × Bytes)) → Option (Option (List Bytes))
lines_of get_utf8 none = some none
lines_of get_utf8 (some hs) = with_lines (header_lines get_utf8 hs)

abbrev pub at_socket : Bool → Option Bytes → Opts → Requested → Requested
at_socket supported none o go_on = go_on
at_socket true (some path) o go_on = go_on
at_socket false (some path) o go_on = record {
  setopts = first_opts o;
  sent = false;
  result = some unsupported;
}

unfoldable pub function_http_request : (ℕ → Bytes → Bytes) → Bool → Opts → Transfer → Requested
unfolding first_opts body_opts
function_http_request get_utf8 supports_unix_sockets o t =
    at_socket supports_unix_sockets o.socket o (performed o t (lines_of get_utf8 o.headers))
