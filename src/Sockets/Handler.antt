-- ===== src/Sockets/Handler.antt =====
-- sockets.c: what a connection's callback is called with, and when its socket is closed.
use planck.Memory.{c_string}
use planck.Sockets.{Recv, received, no_more, Reply, Served, conn_loop, conn_handler}
use planck.Prelude.{
  ℕ, ◌≡◌, ◌≢◌, refl, sym, ap, ◌∙◌, Bool, true, false, Option, none, some, List, [], ◌∷◌, ◌++◌,
  Bytes, ◌==◌, ==_iff, inl, inr, map, append_assoc, ◌⊎◌,
}

-- What arrives before the end, as C strings.
abbrev pub arrivals : List Recv → List Bytes
arrivals [] = []
arrivals (no_more ∷ rs) = []
arrivals (received bytes ∷ rs) = c_string (bytes ++ 0 ∷ []) ∷ arrivals rs

module _ {S : Type 0} (conn_data_cb : Option Bytes → S → Reply S) where
  -- The last reply to some texts, of which `r` answers what came before.
  abbrev pub answered : List Bytes → Reply S → Reply S
  answered [] r = r
  answered (text ∷ texts) r = answered texts (conn_data_cb (some text) r.state)

  -- Before each text, the callback had answered without an error and not asked to close.
  abbrev pub Willing : List Bytes → Reply S → Type 0
  Willing [] r = Unit
  Willing (text ∷ texts) r =
      (r.err ≡ 0) × (r.close ≡ false) × Willing texts (conn_data_cb (some text) r.state)

  -- The callback got a front of what arrived, and at last a null pointer, once.
  pub record Session (rs : List Recv) (r : Reply S) (calls : List (Option Bytes))
      (served : Served S) : Type 0 where
    pub texts : List Bytes
    pub rest : List Bytes
    pub front : texts ++ rest ≡ arrivals rs
    pub calls_are : served.calls ≡ calls ++ (map some texts ++ none ∷ [])
    pub willing : Willing texts r
    pub stops : (rest ≡ []) ⊎ ((answered texts r).close ≡ true) ⊎ ((answered texts r).err ≢ 0)
    pub closed_is : served.closed ≡ (answered texts r).close
    pub state_is : served.state ≡ (conn_data_cb none (answered texts r).state).state

  conn_loop-Session :
      (rs : List Recv) (r : Reply S) (calls : List (Option Bytes))
      → r.close ≡ false
      → Session rs r calls (conn_loop conn_data_cb rs r.err r.state calls)
  unfolding conn_loop
  conn_loop-Session [] r calls h = record {
    texts = [];
    rest = [];
    front = refl;
    calls_are = refl;
    willing = tt;
    stops = inl refl;
    closed_is = sym h;
    state_is = refl;
  }
  conn_loop-Session (no_more ∷ rs) r calls h = record {
    texts = [];
    rest = [];
    front = refl;
    calls_are = refl;
    willing = tt;
    stops = inl refl;
    closed_is = sym h;
    state_is = refl;
  }
  conn_loop-Session (received bytes ∷ rs) r calls h =
      let text = c_string (bytes ++ 0 ∷ []) in
      let ret = conn_data_cb (some text) r.state in
      by_err (r.err == 0) refl ret.close refl (conn_loop-Session rs ret (calls ++ some text ∷ []))
    where
      by_err :
          (willing : Bool)
          → (r.err == 0) ≡ willing
          → (closes : Bool)
          → (conn_data_cb (some (c_string (bytes ++ 0 ∷ []))) r.state).close ≡ closes
          → ((conn_data_cb (some (c_string (bytes ++ 0 ∷ []))) r.state).close ≡ false
              → (let text = c_string (bytes ++ 0 ∷ []) in
                  let ret = conn_data_cb (some text) r.state in
                  let calls' = calls ++ some text ∷ [] in
                  Session rs ret calls' (conn_loop conn_data_cb rs ret.err ret.state calls')))
          → Session
              (received bytes ∷ rs)
              r
              calls
              (conn_loop conn_data_cb (received bytes ∷ rs) r.err r.state calls)
      by_err false e closes e' later = rw e (record {
        texts = [];
        rest = c_string (bytes ++ 0 ∷ []) ∷ arrivals rs;
        front = refl;
        calls_are = refl;
        willing = tt;
        stops = inr (inr (λ z. let no = (==_iff r.err 0).1 z in cc));
        closed_is = sym h;
        state_is = refl;
      })
      by_err true e true e' later = rw e (
          rw e' (record {
            texts = c_string (bytes ++ 0 ∷ []) ∷ [];
            rest = arrivals rs;
            front = refl;
            calls_are = append_assoc calls _ _;
            willing = ((==_iff r.err 0).0 e, h, tt);
            stops = inr (inl e');
            closed_is = sym e';
            state_is = refl;
          }))
      by_err true e false e' later =
          let s = later e' in
          rw e (
            rw e' (record {
              texts = c_string (bytes ++ 0 ∷ []) ∷ s.texts;
              rest = s.rest;
              front = ap (λ ts. c_string (bytes ++ 0 ∷ []) ∷ ts) s.front;
              calls_are = s.calls_are ∙ append_assoc calls _ _;
              willing = ((==_iff r.err 0).0 e, h, s.willing);
              stops = s.stops;
              closed_is = s.closed_is;
              state_is = s.state_is;
            }))

  abbrev pub start_reply : Option (ℕ × S) → S → Reply S
  start_reply none null = record { state = null; err = 0; close = false }
  start_reply (some (err, s)) null = record { state = s; err = err; close = false }

  -- The callback of a connection gets what arrives, in order, as long as it answers without an
  -- error and does not ask to close the socket; then it gets a null pointer, once. The socket is
  -- closed exactly if the callback has asked for it, and so stays open where the other side ends
  -- the connection or the callback reports an error.
  pub conn_handler-Session :
      (accepted : Option (ℕ × S)) (null : S) (rs : List Recv)
      → Session rs (start_reply accepted null) [] (conn_handler conn_data_cb accepted null rs)
  unfolding conn_handler
  conn_handler-Session none null rs = conn_loop-Session rs (start_reply none null) [] refl
  conn_handler-Session (some (err, s)) null rs =
      conn_loop-Session rs (start_reply (some (err, s)) null) [] refl
