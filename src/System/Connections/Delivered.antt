-- ===== src/System/Connections/Delivered.antt =====
-- functions.c and sockets.c: what the callback of a ClojureScript socket gets.
use planck.Sockets.{Recv}
use planck.Sockets.Handler.{arrivals, answered, conn_handler-Session}
use planck.System.Connections.{socket_conn_data_arrived, connection}
use planck.Memory.{c_string}
use planck.Prelude.{
  ℕ, ◌≡◌, ◌≢◌, refl, sym, ap, ◌∙◌, true, false, Option, none, some, List, [], ◌∷◌, ◌++◌, Bytes, map,
  append-nil, inl, inr,
}

true-ne-false : true ≢ false
true-ne-false e = cc

module _ {S T : Type 0} (to_string : Bytes → T) (data_arrived_cb : ℕ → Option T → S → S)
    (sock : ℕ) where
  -- The callback is called with the string of each block in order.
  abbrev pub told : List Bytes → S → S
  told [] s = s
  told (text ∷ texts) s = told texts (data_arrived_cb sock (some (to_string (c_string text))) s)

  answered-told :
      (texts : List Bytes) (s : S)
      → answered
          (socket_conn_data_arrived to_string data_arrived_cb sock)
          texts
          (record { state = s; err = 0; close = false })
        ≡ record { state = told texts s; err = 0; close = false }
  unfolding socket_conn_data_arrived
  answered-told [] s = refl
  answered-told (text ∷ texts) s =
      answered-told texts (data_arrived_cb sock (some (to_string (c_string text))) s)

  -- The handler of a connection that ClojureScript has accepted gets each block of bytes that
  -- arrives, in order, and then null, once. ClojureScript's callback is called with the string that
  -- each block on its own, up to its first zero, converts to, in order, and then with null; and the
  -- thread never closes the socket.
  pub connection_lem :
      (accept_cb : S → S) (s : S) (rs : List Recv)
      → let served = connection to_string data_arrived_cb accept_cb sock s rs in
        (served.calls ≡ map some (arrivals rs) ++ none ∷ [])
        × (served.state ≡ data_arrived_cb sock none (told (arrivals rs) (accept_cb s)))
        × (served.closed ≡ false)
  unfolding connection socket_conn_data_arrived
  connection_lem accept_cb s rs =
      let session =
        conn_handler-Session (socket_conn_data_arrived to_string data_arrived_cb sock)
          (some (0, accept_cb s)) s rs in
      let a = answered-told session.texts (accept_cb s) in
      let none_left : session.rest ≡ [] = elim session.stops [
        | inl e ↦ e
        | inr (inl closes) ↦ absurd (true-ne-false (sym closes ∙ ap (λ r. r.close) a))
        | inr (inr fails) ↦ absurd (fails (ap (λ r. r.err) a))
      ] in
      let all : session.texts ≡ arrivals rs =
        sym (append-nil session.texts)
        ∙ ap (λ t. session.texts ++ t) (sym none_left)
        ∙ session.front in
      (
        session.calls_are ∙ ap (λ ts. map some ts ++ none ∷ []) all,
        session.state_is
            ∙ ap (λ r. data_arrived_cb sock none r.state) a
            ∙ ap (λ ts. data_arrived_cb sock none (told ts (accept_cb s))) all,
        session.closed_is ∙ ap (λ r. r.close) a,
      )
