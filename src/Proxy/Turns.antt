-- ===== src/Proxy/Turns.antt =====
-- proxy.go: the connections that a session holds, turn by turn, and when it has ended.
use mongonet.Base.{
  ℕ, zero, suc, ◌≡◌, inl, inr, ◌↔◌, refl, sym, subst, List, Bool, true, not, ◌||◌, Option, none,
  some, Outcome, ok, panic, hang,
}
use mongonet.Document.{Document}
use mongonet.Wire.{Message, header, has_response}
use mongonet.Socket.{read_message, send_message}
use mongonet.Pool.{ConnectionPool, get, put, mark_bad}
use mongonet.Pool.Lending.{IsValid}
use mongonet.Pool.Opening.{IsOpen}
use mongonet.Respond.{respond_with_error}
use mongonet.Proxy.{
  client, server, Network, Response, Interception, Interceptor, SessionError, Turn, when_some,
  client_error, in_exhaust_mode, is_last, returned, release, track_response, respond, exchange,
  send_request, forward, close_held, after_interception, do_loop, do_loop_temp, reader, sink,
}
use mongonet.Proxy.Keeping.{
  Keeps, Keeps-bind, Keeps-attempt, Keeps-if, IsHolding, none-some, mark_bad-IsHolding,
  put-IsHolding, get-IsHolding,
}

trivial : {A : Type 0} (m : Outcome A) → Keeps (λ _. Unit {0}) m
trivial (ok a) = tt
trivial (Outcome.err e) = tt
trivial panic = tt
trivial hang = tt

Keeps-mono :
    {A : Type 0} (P Q : A → Type 0) (m : Outcome A) → ((a : A) → P a → Q a) → Keeps P m → Keeps Q m
Keeps-mono P Q (ok a) k h = k a h
Keeps-mono P Q (Outcome.err e) k h = tt
Keeps-mono P Q panic k h = tt
Keeps-mono P Q hang k h = tt

Keeps-when_some :
    {A B : Type 0} (Q : B → Type 0) (o : Option A) (present : A → Outcome B) (absent : Outcome B)
    → ((a : A) → Keeps Q (present a))
    → Keeps Q absent
    → Keeps Q (when_some o present absent)
Keeps-when_some Q none present absent h k = k
Keeps-when_some Q (some a) present absent h k = h a

module _ (net : Network) (marshal : Document → Option (List ℕ))
    (interceptor : Option (Interceptor net.World)) (Old : ℕ → Type 0) where
  open net use {World}

  -- What a turn returns: the pool, with what the session holds then.
  unfoldable pub IsLeft : Turn World → Type 0
  IsLeft t = IsHolding Old t.held t.pool

  release-IsLeft :
      (id : ℕ) (e : Option SessionError) (p : ConnectionPool) (world : World)
      → IsHolding Old (some id) p
      → Keeps IsLeft (release net marshal interceptor id e p world)
  unfolding release IsLeft
  release-IsLeft id e p world h =
      Keeps-bind (IsHolding Old none) IsLeft (put (net.clock world 0) id p) _
        (put-IsHolding Old (net.clock world 0) id p h) λ q k. k

  exchange-IsLeft :
      (fuel id : ℕ) (exhaust : Bool) (responder : Option (Message → World → Response World))
      (p : ConnectionPool) (world : World)
      → IsHolding Old (some id) p
      → Keeps IsLeft (exchange net marshal interceptor fuel id exhaust responder p world)
  unfolding exchange
  exchange-IsLeft zero id exhaust responder p world h = tt
  exchange-IsLeft (suc fuel) id exhaust responder p world h =
      Keeps-attempt IsLeft
        (read_message (reader net marshal interceptor (server (p.objects id).conn)) world) _ _
        (λ e. release-IsLeft id _ (mark_bad id p) world (mark_bad-IsHolding Old id p h))
        λ got.
          let r = respond net marshal interceptor responder got.0 got.1 in
          Keeps-when_some IsLeft r.error _ _ (λ e. release-IsLeft id _ p r.world h)
            (Keeps-when_some IsLeft r.message _ _
              (λ m.
                Keeps-attempt IsLeft (send_message (sink net marshal interceptor client) m r.world)
                  _ _ (λ e. release-IsLeft id _ p r.world h)
                  λ s.
                    let world3 = track_response net marshal interceptor (header s.0) s.1 in
                    Keeps-if IsLeft (not exhaust) _ _ (λ _. release-IsLeft id none p world3 h)
                      (λ _.
                        Keeps-bind (λ _. Unit {0}) IsLeft (is_last s.0) _ (trivial (is_last s.0))
                          λ last _.
                            Keeps-if IsLeft last _ _ (λ _. release-IsLeft id none p world3 h)
                              (λ _. exchange-IsLeft fuel id exhaust responder p world3 h)))
              tt)

  send_request-IsLeft :
      (fuel : ℕ) (m : Message) (responder : Option (Message → World → Response World))
      (expecting : Bool) (id : ℕ) (p : ConnectionPool) (world : World)
      → IsHolding Old (some id) p
      → Keeps IsLeft (send_request net marshal interceptor fuel m responder expecting id p world)
  unfolding send_request IsLeft
  send_request-IsLeft fuel m responder expecting id p world h =
      Keeps-if IsLeft ((p.objects id).closed) _ _ (λ _. tt)
        (λ _.
          Keeps-attempt IsLeft
            (send_message (sink net marshal interceptor (server (p.objects id).conn)) m world) _ _
            (λ e. mark_bad-IsHolding Old id p h)
            λ s.
              Keeps-if IsLeft (not expecting || not (has_response s.0)) _ _ (λ _. h)
                (λ _.
                  Keeps-bind (λ _. Unit {0}) IsLeft (in_exhaust_mode s.0) _
                    (trivial (in_exhaust_mode s.0))
                    λ exhaust _. exchange-IsLeft fuel id exhaust responder p s.1 h))

  forward-IsLeft :
      (fuel : ℕ) (m : Message) (responder : Option (Message → World → Response World))
      (expecting : Bool) (held : Option ℕ) (p : ConnectionPool) (world : World)
      → IsHolding Old held p
      → Keeps IsLeft (forward net marshal interceptor fuel m responder expecting held p world)
  unfolding forward IsLeft
  forward-IsLeft fuel m responder expecting (some id) p world h =
      send_request-IsLeft fuel m responder expecting id p world h
  forward-IsLeft fuel m responder expecting none p world h =
      Keeps-bind (λ r. IsHolding Old r.0 r.1) IsLeft
        (get (net.clock world) (net.dial world) net.hook p) _
        (get-IsHolding Old (net.clock world) (net.dial world) net.hook p h) λ r g. given r.0 r.1 g
    where
      given :
          (given : Option ℕ) (q : ConnectionPool)
          → IsHolding Old given q
          → Keeps IsLeft (
              when_some given
                (λ id. send_request net marshal interceptor fuel m responder expecting id q world)
                (returned net marshal interceptor none (some SessionError.no_connection) q world))
      given none q g = g
      given (some id) q g = send_request-IsLeft fuel m responder expecting id q world g

  -- What a session leaves that gives back what it holds.
  IsOver : Turn World → Type 0
  IsOver t = (t.held ≡ none) × IsHolding Old none t.pool

  close_held-IsOver :
      (held : Option ℕ) (e : Option SessionError) (p : ConnectionPool) (world : World)
      → IsHolding Old held p
      → Keeps IsOver (close_held net marshal interceptor held e p world)
  unfolding release IsOver
  close_held-IsOver none e p world h = (refl, h)
  close_held-IsOver (some id) e p world h =
      Keeps-bind (IsHolding Old none) IsOver (put (net.clock world 0) id p) _
        (put-IsHolding Old (net.clock world 0) id p h) λ q k. (refl, k)

  IsOver-IsLeft : (t : Turn World) → IsOver t → IsLeft t
  unfolding IsOver IsLeft
  IsOver-IsLeft t (e, h) = subst (λ held. IsHolding Old held t.pool) (sym e) h

  after_interception-IsLeft :
      (fuel : ℕ) (i : Interception World) (held : Option ℕ) (p : ConnectionPool)
      → IsHolding Old held p
      → Keeps IsLeft (after_interception net marshal interceptor fuel i held p)
  unfolding after_interception IsLeft
  after_interception-IsLeft fuel i held p h =
      Keeps-when_some IsLeft i.error _ _
        (λ e.
          Keeps-when_some IsLeft i.message _ _
            (λ m.
              Keeps-if IsLeft (not (has_response m)) _ _ (λ _. h)
                (λ _.
                  Keeps-attempt IsLeft
                    (respond_with_error marshal (sink net marshal interceptor client) m (some e)
                      i.world)
                    _ _ (λ e'. h) (λ world. h)))
            (Keeps-mono IsOver IsLeft _ IsOver-IsLeft
              (close_held-IsOver held (some (SessionError.intercepting e)) p i.world h)))
        (Keeps-when_some IsLeft i.message _ _
          (λ m. forward-IsLeft fuel m i.responder i.expecting held p i.world h) h)

  pub do_loop-IsLeft :
      (fuel : ℕ) (held : Option ℕ) (p : ConnectionPool) (world : World)
      → IsHolding Old held p
      → Keeps IsLeft (do_loop net marshal interceptor fuel held p world)
  unfolding do_loop IsLeft
  do_loop-IsLeft fuel held p world h =
      Keeps-attempt IsLeft (read_message (reader net marshal interceptor client) world) _ _
        (λ e. keep (client_error e))
        λ got.
          Keeps-when_some IsLeft interceptor _ _
            (λ i.
              let run = i.intercept_client_to_mongo got.0 (i.track_request (header got.0) got.1) in
              Keeps-bind (λ _. Unit {0}) IsLeft run _ (trivial run)
                λ x _. after_interception-IsLeft fuel x held p h)
            (forward-IsLeft fuel got.0 none true held p got.1 h)
    where
      keep :
          (e : SessionError)
          → IsLeft (record { held = held; error = some e; pool = p; world = world })
      keep e = h

  do_loop_temp-IsOver :
      (turns fuel : ℕ) (held : Option ℕ) (p : ConnectionPool) (world : World)
      → IsHolding Old held p
      → Keeps IsOver (do_loop_temp net marshal interceptor turns fuel held p world)
  unfolding do_loop_temp IsLeft
  do_loop_temp-IsOver zero fuel held p world h = tt
  do_loop_temp-IsOver (suc turns) fuel held p world h =
      Keeps-bind IsLeft IsOver (do_loop net marshal interceptor fuel held p world) _
        (do_loop-IsLeft fuel held p world h)
        λ t k.
          Keeps-when_some IsOver t.error _ _
            (λ e. close_held-IsOver t.held (some e) t.pool t.world k)
            (do_loop_temp-IsOver turns fuel t.held t.pool t.world k)

-- A session that starts without a connection on a valid pool, where other sessions use some, and ends
-- after any number of turns, whatever the client, the server, the dialer and the interceptor do: the
-- pool is valid again, the session holds nothing, and the connections in use are those that were in use
-- before, so that it keeps none back and closes none of the others'.
pub do_loop_temp-IsOpen :
    (net : Network) (marshal : Document → Option (List ℕ))
    (interceptor : Option (Interceptor net.World)) (turns fuel : ℕ) (p : ConnectionPool)
    (world : net.World)
    → IsValid p
    → Keeps
        (λ t. (t.held ≡ none) × IsValid t.pool × ((j : ℕ) → IsOpen t.pool j ↔ IsOpen p j))
        (do_loop_temp net marshal interceptor turns fuel none p world)
unfolding IsOver
do_loop_temp-IsOpen net marshal interceptor turns fuel p world v =
    Keeps-mono (IsOver net marshal interceptor (IsOpen p)) _ _
      (λ t k. (k.0, k.1.valid, λ j. (only_old t k j, λ o. (k.1.theirs j o).0)))
      (do_loop_temp-IsOver net marshal interceptor (IsOpen p) turns fuel none p world (record {
        valid = v;
        mine = λ id e. absurd (none-some id e);
        no_other = λ j o. inr o;
        theirs = λ j o. (o, λ e. none-some j e);
      }))
  where
    only_old :
        (t : Turn net.World)
        → IsOver net marshal interceptor (IsOpen p) t
        → (j : ℕ) → IsOpen t.pool j
        → IsOpen p j
    only_old t k j o = elim (k.1.no_other j o) [ inl e ↦ absurd (none-some j e) | inr q ↦ q ]
