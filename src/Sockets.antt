-- ===== src/Sockets.antt =====
-- planck-c/sockets.c: writing all of a text to a socket, the threads that read connections, and
-- the loop that accepts them. The calls of the socket library are arguments: what they deliver.
pub mod Write
pub mod Handler
pub mod Accept
mod Tests
use planck.Memory.{c_string}
use planck.Prelude.{
  ℕ, ◌+◌, Bool, true, false, not, ◌&&◌, Option, none, some, List, [], ◌∷◌, ◌++◌, Bytes, codes, ◌==◌,
  if◌then◌else◌, length, take, drop, map,
}
use planck.Prelude.Int.{ℤ, pos, negsuc, ltb_ℤ}

-- One round of `write_to_socket`: `select` is interrupted or fails, or the socket is writable and
-- `write` takes some bytes, or none and fails.
pub data Round : Type 0 where
  interrupted select_failed write_failed : Round
  taken : ℕ → Round

-- The results 0 and -1, and a loop that has had no further round yet, each with what was written.
pub data Written : Type 0 where
  complete failed : Bytes → Written
  waiting : Bytes → Bytes → Written

unfoldable pub write_loop : List Round → Bytes → Bytes → Written
write_loop [] text written = waiting text written
write_loop (interrupted ∷ rs) text written = write_loop rs text written
write_loop (select_failed ∷ rs) text written = failed written
write_loop (write_failed ∷ rs) text written = failed written
write_loop (taken n ∷ rs) text written =
    let rest = write_loop rs (drop n text) (written ++ take n text) in
    if n == length text then complete (written ++ take n text) else rest

unfoldable pub write_to_socket : List Round → Bytes → Written
write_to_socket rounds text = write_loop rounds text []

-- What `recv` delivers: some bytes, at most 4095, or 0 or -1.
pub data Recv : Type 0 where
  received : Bytes → Recv
  no_more : Recv

-- `conn_data_cb_ret_t`, with the state that the callback leaves.
pub record Reply (S : Type 0) : Type 0 where
  pub state : S
  pub err : ℕ
  pub close : Bool

-- The end of a connection's thread: the state, what the callback was called with, in order, and
-- whether the thread has closed the socket.
pub record Served (S : Type 0) : Type 0 where
  pub state : S
  pub calls : List (Option Bytes)
  pub closed : Bool

module _ {S : Type 0} (conn_data_cb : Option Bytes → S → Reply S) where
  -- The last call, whose result is only freed.
  abbrev pub final_call : S → List (Option Bytes) → Bool → Served S
  final_call s calls closed = record {
    state = (conn_data_cb none s).state;
    calls = calls ++ none ∷ [];
    closed = closed;
  }

  -- The loop, left where there is no further `recv`. The buffer holds a zero behind the bytes.
  unfoldable pub conn_loop : List Recv → ℕ → S → List (Option Bytes) → Served S
  conn_loop [] err s calls = final_call s calls false
  conn_loop (no_more ∷ rs) err s calls = final_call s calls false
  conn_loop (received bytes ∷ rs) err s calls =
      let text = c_string (bytes ++ 0 ∷ []) in
      let ret = conn_data_cb (some text) s in
      let calls' = calls ++ some text ∷ [] in
      let rest = conn_loop rs ret.err ret.state calls' in
      if not (err == 0)
      then final_call s calls false
      else if ret.close
      then final_call ret.state calls' true
      else rest

  -- `accepted` is what the callback of the connection returns, none if there is no callback or it
  -- returns a null pointer.
  unfoldable pub conn_handler : Option (ℕ × S) → S → List Recv → Served S
  conn_handler none null rs = conn_loop rs 0 null []
  conn_handler (some (err, s)) null rs = conn_loop rs err s []

  -- The reader of `connect_socket` does not look at what the callback returns.
  unfoldable pub inbound_loop : List Recv → S → List (Option Bytes) → Served S
  inbound_loop [] s calls = final_call s calls false
  inbound_loop (no_more ∷ rs) s calls = final_call s calls false
  inbound_loop (received bytes ∷ rs) s calls =
      let text = c_string (bytes ++ 0 ∷ []) in
      inbound_loop rs (conn_data_cb (some text) s).state (calls ++ some text ∷ [])

  unfoldable pub read_inbound_socket_data : List Recv → S → Served S
  read_inbound_socket_data rs s = inbound_loop rs s []

-- What `accept_connections` does: the sockets it starts a thread for, and what it prints; it may
-- also still be in its loop.
pub record Accepting : Type 0 where
  pub handlers : List ℤ
  pub printed : List Bytes
  pub returned : Bool

abbrev pub with_handler : ℤ → Accepting → Accepting
with_handler sock a = record a { handlers = sock ∷ a.handlers }

abbrev pub is_zero : ℤ → Bool
is_zero (pos n) = n == 0
is_zero (negsuc n) = false

abbrev pub accept_ended : ℤ → Accepting
accept_ended new_socket = record {
  handlers = [];
  printed = if ltb_ℤ new_socket (pos 0) then codes "accept failed" ∷ [] else [];
  returned = true;
}

-- The results of `accept` and of `pthread_create`, in order.
unfoldable pub accept_connections : List (ℤ × ℤ) → Accepting
accept_connections [] = record { handlers = []; printed = []; returned = false }
accept_connections ((new_socket, created) ∷ rest) =
    let more = accept_connections rest in
    if is_zero new_socket
    then accept_ended new_socket
    else if ltb_ℤ created (pos 0)
    then record { handlers = []; printed = codes "could not create thread" ∷ []; returned = true }
    else with_handler new_socket more

abbrev eq_minus_one : ℤ → Bool
eq_minus_one (pos n) = false
eq_minus_one (negsuc n) = n == 0

-- A socket that is set up: the result, and the descriptor where `socket` gave one.
pub record Opened : Type 0 where
  pub result : ℤ
  pub socket_desc : Option ℤ

-- The results of `socket`, `bind` and `listen`.
unfoldable pub bind_and_listen : ℤ → ℤ → ℤ → Opened
bind_and_listen socket_desc bound listening =
    if eq_minus_one socket_desc
    then record { result = socket_desc; socket_desc = none }
    else record {
      result = if eq_minus_one bound then bound else listening;
      socket_desc = some socket_desc;
    }

-- The results of `socket`, `connect` and `pthread_create`, and whether `gethostbyname` finds the
-- host.
unfoldable pub connect_socket : ℤ → Bool → ℤ → ℤ → Opened
connect_socket socket_desc found connected created =
    if eq_minus_one socket_desc
    then record { result = socket_desc; socket_desc = none }
    else record {
      result =
          if not found
          then negsuc 0
          else if eq_minus_one connected
          then connected
          else if ltb_ℤ created (pos 0)
          then negsuc 0
          else socket_desc;
      socket_desc = some socket_desc;
    }
