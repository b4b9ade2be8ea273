-- ===== src/Sockets/Accept.antt =====
-- sockets.c: the loop of `accept_connections` does not end when `accept` fails.
use planck.Sockets.{accept_connections, is_zero, accept_ended, with_handler}
use planck.Prelude.{
  ◌≡◌, ◌==◌, ==_iff, Bool-cases, refl, Bool, true, false, List, [], ◌∷◌, inl, inr, ◌⊎◌, codes,
  if◌then◌else◌,
}
use planck.Prelude.Int.{ℤ, pos, negsuc, ltb_ℤ}

-- Each `accept` gave a number other than 0, and each `pthread_create` one that is not negative.
abbrev pub AllStarted : List (ℤ × ℤ) → Type 0
AllStarted [] = Unit
AllStarted ((new_socket, created) ∷ rest) =
    (is_zero new_socket ≡ false) × (ltb_ℤ created (pos 0) ≡ false) × AllStarted rest

abbrev pub sockets_of : List (ℤ × ℤ) → List ℤ
sockets_of [] = []
sockets_of ((new_socket, created) ∷ rest) = new_socket ∷ sockets_of rest

-- The message that `accept` failed is never printed.
accept_connections-printed :
    (rs : List (ℤ × ℤ))
    → ((accept_connections rs).printed ≡ [])
      ⊎ ((accept_connections rs).printed ≡ codes "could not create thread" ∷ [])
unfolding accept_connections
accept_connections-printed [] = inl refl
accept_connections-printed ((new_socket, created) ∷ rest) =
    by_socket new_socket (ltb_ℤ created (pos 0)) (accept_connections-printed rest)
  where
    by_socket :
        (sock : ℤ) (uncreated : Bool)
        → ((accept_connections rest).printed ≡ [])
          ⊎ ((accept_connections rest).printed ≡ codes "could not create thread" ∷ [])
        → (let a =
              if is_zero sock
              then accept_ended sock
              else if uncreated
              then record {
                handlers = [];
                printed = codes "could not create thread" ∷ [];
                returned = true;
              }
              else with_handler sock (accept_connections rest) in
            (a.printed ≡ []) ⊎ (a.printed ≡ codes "could not create thread" ∷ []))
    by_socket (pos n) true h = elim (Bool-cases (n == 0)) [
      | inl e ↦ let z = (==_iff n 0).0 e in rw z (inl refl)
      | inr e ↦ rw e (inr refl)
    ]
    by_socket (pos n) false h = elim (Bool-cases (n == 0)) [
      | inl e ↦ let z = (==_iff n 0).0 e in rw z (inl refl)
      | inr e ↦ rw e h
    ]
    by_socket (negsuc n) true h = inr refl
    by_socket (negsuc n) false h = h

-- As long as `accept` does not give 0 and no thread fails to start, the loop goes on, and each
-- result of `accept` gets a thread, also the -1 of a failure.
accept_connections_lem :
    (rs : List (ℤ × ℤ))
    → AllStarted rs
    → accept_connections rs ≡ record { handlers = sockets_of rs; printed = []; returned = false }
unfolding accept_connections
accept_connections_lem [] h = refl
accept_connections_lem ((new_socket, created) ∷ rest) (nonzero, started, h) =
    rw nonzero (rw started (rw (accept_connections_lem rest h) refl))
