-- ===== src/Proxy/Ending.antt =====
-- proxy.go: a session without an interceptor comes to its end.
use mongonet.Base.{
  ℕ, zero, suc, ◌*◌, ◌≤◌, ◌<◌, ◌≡◌, ◌↔◌, inl, inr, refl, sym, subst, ◌∙◌, List, true, false, not,
  ◌||◌, Option, none, some, arith, ok,
}
use mongonet.Base.Errors.{Ensures, Ensures-bind, Ensures-if, Ensures-mono, ◌>>=◌}
use mongonet.Document.{Document}
use mongonet.Wire.{Message, header, has_response, op_reply}
use mongonet.Socket.{read_message, send_message}
use mongonet.Socket.WriteResult.{wrote}
use mongonet.Pool.{ConnectionPool, get, mark_bad}
use mongonet.Pool.Lending.{IsValid, Answers, get-Ensures}
use mongonet.Pool.Opening.{IsOpen}
use mongonet.Relay.Passing.{IsSafe, IsPassable, read_message-IsPassable}
use mongonet.Proxy.{
  End, client, server, Network, SessionError, Turn, when_some, client_error, in_exhaust_mode,
  returned, release, exchange, send_request, forward, close_held, do_loop, do_loop_temp, reader,
  sink,
}
use mongonet.Proxy.Keeping.{Ensures-both, none-some, IsHolding, mark_bad-IsHolding, get-IsHolding}
use mongonet.Proxy.Turns.{IsLeft, do_loop-IsLeft, do_loop_temp-IsOpen}
use mongonet.Proxy.Answering.{Ensures-attempt, release-Ensures}
use mongonet.Proxy.Sending.{Keeps-Ensures, send_message-Sends}

module _ (net : Network) (marshal : Document → Option (List ℕ)) where
  open net use {World}

  -- A network where each message has at most 200 MB, an OP_REPLY is one that `Serialize` does not panic on,
  -- and the client asks for no exhaust mode and sends so many messages at most.
  pub record IsCalm : Type 0 where
    pub moderate :
        (e : End) (w : World) (m : Message) (w' : World)
        → read_message (reader net marshal none e) w ≡ ok (m, w')
        → (header m).size ≤ 200 * 1024 * 1024
    pub replies :
        (e : End) (w : World) (m : Message) (w' : World)
        → read_message (reader net marshal none e) w ≡ ok (m, w')
        → (header m).op_code ≡ op_reply
        → IsSafe m
    pub plain :
        (w : World) (m : Message) (w' : World)
        → read_message (reader net marshal none client) w ≡ ok (m, w')
        → in_exhaust_mode m ≡ ok false
    pub requests : World → ℕ
    pub fewer :
        (w : World) (m : Message) (w' : World)
        → read_message (reader net marshal none client) w ≡ ok (m, w')
        → requests w' < requests w
    pub no_more_read :
        (id : ℕ) (w : World) (m : Message) (w' : World)
        → read_message (reader net marshal none (server id)) w ≡ ok (m, w')
        → requests w' ≤ requests w
    pub no_more_written :
        (e : End) (w : World) (buf : List ℕ) (n : ℕ) (w' : World)
        → net.write e w buf ≡ wrote n w'
        → requests w' ≤ requests w

  module _ (calm : IsCalm) where
    -- What comes in can be sent on.
    safe :
        (e : End) (w : World) (m : Message) (w' : World)
        → read_message (reader net marshal none e) w ≡ ok (m, w')
        → IsPassable m
        → IsSafe m
    safe e w m w' q p = elim (p.passes (calm.moderate e w m w' q)) [
      | inl reply ↦ calm.replies e w m w' q reply
      | inr s ↦ s
    ]

    -- The client has so many messages left at most.
    HasLeft : ℕ → World → Type 0
    HasLeft n w = calm.requests w ≤ n

    send-HasLeft :
        (e : End) (n : ℕ) (m : Message) (w : World)
        → IsSafe m
        → HasLeft n w
        → Ensures
            (λ r. (in_exhaust_mode r.0 ≡ in_exhaust_mode m) × HasLeft n r.1)
            (send_message (sink net marshal none e) m w)
    unfolding HasLeft
    send-HasLeft e n m w s h =
        send_message-Sends (sink net marshal none e) (HasLeft n)
          (λ w1 buf k w2 q l. omega (arith, calm.no_more_written e w1 buf k w2 q)) m w s h

    LeavesLeft : ℕ → Turn World → Type 0
    LeavesLeft n t = HasLeft n t.world

    -- A session that holds a connection can give it back.
    release-LeavesLeft :
        (Old : ℕ → Type 0) (n id : ℕ) (e : Option SessionError) (p : ConnectionPool) (w : World)
        → IsHolding Old (some id) p
        → HasLeft n w
        → Ensures (LeavesLeft n) (release net marshal none id e p w)
    unfolding LeavesLeft
    release-LeavesLeft Old n id e p w h l =
        let o = h.mine id refl in
        release-Ensures net marshal none (LeavesLeft n) id e p w h.valid o.0 o.1 (λ q c. l)

    exchange-LeavesLeft :
        (Old : ℕ → Type 0) (n fuel id : ℕ) (p : ConnectionPool) (w : World)
        → IsHolding Old (some id) p
        → HasLeft n w
        → Ensures (LeavesLeft n) (exchange net marshal none (suc fuel) id false none p w)
    unfolding exchange HasLeft
    exchange-LeavesLeft Old n fuel id p w h l =
        let e = server (p.objects id).conn in
        let read = read_message (reader net marshal none e) w in
        Ensures-attempt (λ x. IsPassable x.0) (LeavesLeft n) read _ _
          (read_message-IsPassable (reader net marshal none e) w)
          (λ e'. release-LeavesLeft Old n id _ (mark_bad id p) w (mark_bad-IsHolding Old id p h) l)
          λ x q passable.
            let l1 : calm.requests x.1 ≤ n =
              omega (arith, calm.no_more_read ((p.objects id).conn) w x.0 x.1 q) in
            Ensures-attempt (λ r. (in_exhaust_mode r.0 ≡ in_exhaust_mode x.0) × HasLeft n r.1)
              (LeavesLeft n) (send_message (sink net marshal none client) x.0 x.1) _ _
              (send-HasLeft client n x.0 x.1 (safe e w x.0 x.1 q passable) l1)
              (λ e'. release-LeavesLeft Old n id _ p x.1 h l1)
              λ r q' k. release-LeavesLeft Old n id none p r.1 h k.1

    send_request-LeavesLeft :
        (Old : ℕ → Type 0) (n fuel id : ℕ) (m : Message) (p : ConnectionPool) (w : World)
        → IsSafe m
        → in_exhaust_mode m ≡ ok false
        → IsHolding Old (some id) p
        → HasLeft n w
        → Ensures (LeavesLeft n) (send_request net marshal none (suc fuel) m none true id p w)
    unfolding send_request LeavesLeft
    send_request-LeavesLeft Old n fuel id m p w s plain h l =
        let e = server (p.objects id).conn in
        rw (h.mine id refl).1 (
          Ensures-attempt (λ r. (in_exhaust_mode r.0 ≡ in_exhaust_mode m) × HasLeft n r.1)
            (LeavesLeft n) (send_message (sink net marshal none e) m w) _ _
            (send-HasLeft e n m w s l) (λ e'. l)
            λ r q k.
              Ensures-if (LeavesLeft n) (not true || not (has_response r.0)) _ _ (λ _. k.1)
                (λ _.
                  subst
                    (λ x.
                      Ensures (LeavesLeft n) (
                        x >>= λ exhaust.
                        exchange net marshal none (suc fuel) id exhaust none p r.1))
                    (sym (k.0 ∙ plain)) (exchange-LeavesLeft Old n fuel id p r.1 h k.1)))

    forward-LeavesLeft :
        (Old : ℕ → Type 0) (n fuel : ℕ) (held : Option ℕ) (m : Message) (p : ConnectionPool)
        (w : World)
        → IsSafe m
        → in_exhaust_mode m ≡ ok false
        → IsHolding Old held p
        → HasLeft n w
        → Ensures (LeavesLeft n) (forward net marshal none (suc fuel) m none true held p w)
    unfolding forward LeavesLeft
    forward-LeavesLeft Old n fuel (some id) m p w s plain h l =
        send_request-LeavesLeft Old n fuel id m p w s plain h l
    forward-LeavesLeft Old n fuel none m p w s plain h l =
        let run = get (net.clock w) (net.dial w) net.hook p in
        Ensures-bind (λ r. IsHolding Old r.0 r.1) (LeavesLeft n) run _
          (Keeps-Ensures (λ r. IsHolding Old r.0 r.1) run
            (get-IsHolding Old (net.clock w) (net.dial w) net.hook p h)
            (Ensures-mono (Answers p) (λ _. Unit {0}) run (λ r _. tt)
              (get-Ensures (net.clock w) (net.dial w) net.hook p h.valid)))
          λ r g. given r.0 r.1 g
      where
        given :
            (given : Option ℕ) (q : ConnectionPool)
            → IsHolding Old given q
            → Ensures (LeavesLeft n) (
                when_some given
                  (λ id. send_request net marshal none (suc fuel) m none true id q w)
                  (returned net marshal none none (some SessionError.no_connection) q w))
        given none q g = l
        given (some id) q g = send_request-LeavesLeft Old n fuel id m q w s plain g l

    -- A turn that goes on has taken a message from the client.
    GoesOn : World → Turn World → Type 0
    GoesOn w t = (t.error ≡ none) → calm.requests t.world < calm.requests w

    do_loop-GoesOn :
        (Old : ℕ → Type 0) (fuel : ℕ) (held : Option ℕ) (p : ConnectionPool) (w : World)
        → IsHolding Old held p
        → Ensures (GoesOn w) (do_loop net marshal none (suc fuel) held p w)
    unfolding do_loop GoesOn LeavesLeft HasLeft
    do_loop-GoesOn Old fuel held p w h =
        Ensures-attempt (λ x. IsPassable x.0) (GoesOn w)
          (read_message (reader net marshal none client) w) _ _
          (read_message-IsPassable (reader net marshal none client) w)
          (λ e. stopped (client_error e))
          λ x q passable.
            Ensures-mono (LeavesLeft (calm.requests x.1)) (GoesOn w)
              (forward net marshal none (suc fuel) x.0 none true held p x.1)
              (λ t l _. omega (arith, calm.fewer w x.0 x.1 q, l))
              (forward-LeavesLeft Old (calm.requests x.1) fuel held x.0 p x.1
                (safe client w x.0 x.1 q passable) (calm.plain w x.0 x.1 q) h (omega arith))
      where
        stopped :
            (e : SessionError)
            → GoesOn w (record { held = held; error = some e; pool = p; world = w })
        stopped e z = absurd cc

    close_held-Ends :
        (Old : ℕ → Type 0) (held : Option ℕ) (e : Option SessionError) (p : ConnectionPool)
        (w : World)
        → IsHolding Old held p
        → Ensures (λ _. Unit {0}) (close_held net marshal none held e p w)
    close_held-Ends Old none e p w h = tt
    close_held-Ends Old (some id) e p w h =
        let o = h.mine id refl in
        release-Ensures net marshal none (λ _. Unit {0}) id e p w h.valid o.0 o.1 (λ q c. tt)

    do_loop_temp-Ends :
        (Old : ℕ → Type 0) (turns fuel : ℕ) (held : Option ℕ) (p : ConnectionPool) (w : World)
        → calm.requests w < turns
        → IsHolding Old held p
        → Ensures (λ _. Unit {0}) (do_loop_temp net marshal none turns (suc fuel) held p w)
    unfolding do_loop_temp GoesOn IsLeft
    do_loop_temp-Ends Old zero fuel held p w l h = absurd (omega arith)
    do_loop_temp-Ends Old (suc turns) fuel held p w l h =
        let run = do_loop net marshal none (suc fuel) held p w in
        let goes = do_loop-GoesOn Old fuel held p w h in
        let left = do_loop-IsLeft net marshal none Old (suc fuel) held p w h in
        let ends = Ensures-mono (GoesOn w) (λ _. Unit {0}) run (λ t _. tt) goes in
        Ensures-bind (λ t. GoesOn w t × IsLeft net marshal none Old t) (λ _. Unit {0}) run _
          (Ensures-both (GoesOn w) (IsLeft net marshal none Old) run goes
            (Keeps-Ensures (IsLeft net marshal none Old) run left ends))
          λ t k.
            next t k.1 t.error (λ e.
              do_loop_temp-Ends Old turns fuel t.held t.pool t.world (omega (arith, k.0 e)) k.1)
      where
        next :
            (t : Turn World)
            → IsHolding Old t.held t.pool
            → (o : Option SessionError)
            → ((o ≡ none)
                → Ensures
                    (λ _. Unit {0})
                    (do_loop_temp net marshal none turns (suc fuel) t.held t.pool t.world))
            → Ensures
                (λ _. Unit {0})
                (when_some o
                  (λ e. close_held net marshal none t.held (some e) t.pool t.world)
                  (do_loop_temp net marshal none turns (suc fuel) t.held t.pool t.world))
        next t k none again = again refl
        next t k (some e) again = close_held-Ends Old t.held (some e) t.pool t.world k

  -- A session without an interceptor that starts without a connection on a valid pool, on a network where
  -- messages have at most 200 MB, `Serialize` panics on no OP_REPLY that comes in, and the client asks for no
  -- exhaust mode. If the client sends so many messages at most, and there is a turn for each and one more: the
  -- session ends, without a panic, whatever client, server and dialer do. It holds nothing then, the pool is
  -- valid, and the connections in use are those that were in use before.
  pub do_loop_temp-Ensures :
      (calm : IsCalm) (turns fuel : ℕ) (p : ConnectionPool) (w : World)
      → calm.requests w < turns
      → IsValid p
      → Ensures
          (λ t. (t.held ≡ none) × IsValid t.pool × ((j : ℕ) → IsOpen t.pool j ↔ IsOpen p j))
          (do_loop_temp net marshal none turns (suc fuel) none p w)
  do_loop_temp-Ensures calm turns fuel p w l v =
      let run = do_loop_temp net marshal none turns (suc fuel) none p w in
      let nothing_held : IsHolding (IsOpen p) none p = record {
        valid = v;
        mine = λ id e. absurd (none-some id e);
        no_other = λ j o. inr o;
        theirs = λ j o. (o, λ e. none-some j e);
      } in
      Keeps-Ensures
        (λ t. (t.held ≡ none) × IsValid t.pool × ((j : ℕ) → IsOpen t.pool j ↔ IsOpen p j)) run
        (do_loop_temp-IsOpen net marshal none turns (suc fuel) p w v)
        (do_loop_temp-Ends calm (IsOpen p) turns fuel none p w l nothing_held)
