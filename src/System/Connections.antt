-- ===== src/System/Connections.antt =====
-- functions.c: the sockets of ClojureScript, on top of sockets.c.
pub mod Delivered
use planck.Memory.{c_string}
use planck.Sockets.{
  Reply, Served, Recv, Round, Written, complete, failed, waiting, write_to_socket, conn_handler,
}
use planck.Prelude.{
  ℕ, Bool, true, false, Option, none, some, List, [], ◌∷◌, Bytes, ◌==◌, if◌then◌else◌,
}
use planck.Prelude.Int.{ℤ, pos, negsuc}

-- What a function returns to JavaScript: null, a number, or an exception with the error number.
pub data Returned : Type 0 where
  null raised : Returned
  number : ℤ → Returned

abbrev is_minus_one : ℤ → Bool
is_minus_one (pos n) = false
is_minus_one (negsuc n) = n == 0

abbrev raised_or : Bool → Returned → Returned
raised_or true r = raised
raised_or false r = r

-- `T` are JavaScript's strings, and `to_string` is `JSStringCreateWithUTF8CString`, which reads up to
-- the first zero.
module _ {S T : Type 0} (to_string : Bytes → T) (data_arrived_cb : ℕ → Option T → S → S) where
  abbrev as_value : Option Bytes → Option T
  as_value none = none
  as_value (some text) = some (to_string (c_string text))

  -- `socket_conn_data_arrived`: the callback is called under the evaluation lock, and what it
  -- returns is not looked at.
  unfoldable pub socket_conn_data_arrived : ℕ → Option Bytes → S → Reply S
  socket_conn_data_arrived sock text s = record {
    state = data_arrived_cb sock (as_value text) s;
    err = 0;
    close = false;
  }

  -- The thread of a connection that `accepted_socket_connection` has answered for with no error.
  unfoldable pub connection : (S → S) → ℕ → S → List Recv → Served S
  unfolding socket_conn_data_arrived
  connection accept_cb sock s rs =
      conn_handler (socket_conn_data_arrived sock) (some (0, accept_cb s)) s rs

-- From the result of `connect_socket`.
unfoldable pub function_socket_connect : ℤ → Returned
function_socket_connect sock = raised_or (is_minus_one sock) (number sock)

-- From the result of `bind_and_listen`; the flag tells whether the accepting thread is started.
unfoldable pub function_socket_listen : ℤ → Returned × Bool
function_socket_listen err = if is_minus_one err then (raised, false) else (null, true)

abbrev of_written : Written → Option (Returned × Bytes)
of_written (complete bytes) = some (null, bytes)
of_written (failed bytes) = some (raised, bytes)
of_written (waiting text bytes) = none

-- What goes to the socket; `none` while the write still waits.
unfoldable pub function_socket_write : List Round → Bytes → Option (Returned × Bytes)
function_socket_write rounds text = of_written (write_to_socket rounds text)

-- From the result of `close_socket`.
unfoldable pub function_socket_close : ℤ → Returned
function_socket_close err = raised_or (is_minus_one err) null
