-- ===== src/Sockets/Tests.antt =====
-- Runs of sockets.c.
use planck.Memory.{c_string}
use planck.Sockets.{
  Round, interrupted, taken, complete, write_to_socket, Recv, received, no_more, Reply, conn_loop,
  conn_handler, inbound_loop, read_inbound_socket_data, accept_connections,
}
use planck.Sockets.Write.{Accounted, write_to_socket-Accounted, write_to_socket-complete}
use planck.Sockets.Handler.{Session, start_reply, conn_handler-Session}
use planck.Prelude.{
  ℕ, ◌+◌, ◌≡◌, inl, inr, refl, true, false, Option, none, some, List, [], ◌∷◌, Bytes, codes, str_eq,
  arith,
}
use planck.Prelude.Int.{ℤ, pos, negsuc}

abbrev some_rounds : List Round
some_rounds = interrupted ∷ taken 2 ∷ interrupted ∷ taken 1 ∷ taken 2 ∷ taken 7 ∷ taken 7 ∷ []

write_to_socket-complete_example :
    write_to_socket some_rounds (codes "hello") ≡ complete (codes "hello")
write_to_socket-complete_example =
    write_to_socket-complete some_rounds (codes "hello")
      (inr (omega arith, omega arith, inr (omega arith, omega arith, inl refl))) (omega arith)
      (omega arith)

write_to_socket-Accounted_example :
    Accounted (codes "hello") (write_to_socket (taken 2 ∷ []) (codes "hello"))
write_to_socket-Accounted_example = write_to_socket-Accounted (taken 2 ∷ []) (codes "hello")

-- A callback that counts its calls and asks to close the socket on "quit".
abbrev counting : Option Bytes → ℕ → Reply ℕ
counting none n = record { state = n + 1; err = 0; close = true }
counting (some text) n = record { state = n + 1; err = 0; close = str_eq text (codes "quit") }

abbrev some_data : List Recv
some_data = received (codes "a") ∷ received (codes "quit") ∷ received (codes "b") ∷ []

closes : conn_handler counting (some (0, 7)) 0 some_data ≡ record {
  state = 10;
  calls = some (codes "a") ∷ some (codes "quit") ∷ none ∷ [];
  closed = true;
}
unfolding conn_handler conn_loop c_string str_eq
closes = refl

-- Where the other side ends the connection, the socket stays open.
stays_open :
    conn_handler counting none 0 (received (codes "a") ∷ no_more ∷ [])
    ≡ record { state = 2; calls = some (codes "a") ∷ none ∷ []; closed = false }
unfolding conn_handler conn_loop c_string str_eq
stays_open = refl

does_not_close : read_inbound_socket_data counting some_data 0 ≡ record {
  state = 4;
  calls = some (codes "a") ∷ some (codes "quit") ∷ some (codes "b") ∷ none ∷ [];
  closed = false;
}
unfolding read_inbound_socket_data inbound_loop c_string str_eq
does_not_close = refl

conn_handler-Session_example :
    Session counting some_data
      (start_reply counting (some (0, 7)) 0)
      []
      (conn_handler counting (some (0, 7)) 0 some_data)
conn_handler-Session_example = conn_handler-Session counting (some (0, 7)) 0 some_data

abbrev some_sockets : List (ℤ × ℤ)
some_sockets = (pos 5, pos 0) ∷ (negsuc 0, pos 0) ∷ (pos 6, pos 0) ∷ []

accept_runs : (accept_connections some_sockets).handlers ≡ pos 5 ∷ negsuc 0 ∷ pos 6 ∷ []
unfolding accept_connections
accept_runs = refl
