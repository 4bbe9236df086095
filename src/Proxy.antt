-- ===== src/Proxy.antt =====
-- proxy.go: a session of the proxy, the messages between a client, the interceptor and a pooled
-- connection. The network, the interceptor and the driver's bson.Marshal are parameters. What an
-- operation that fails has done to the network is not looked at: the session ends then.
pub mod Keeping
pub mod Turns
pub mod Answering
pub mod Sending
pub mod Ending
use mongonet.Base.{
  ℕ, zero, suc, ◌+◌, ◌*◌, ◌/◌, ◌%◌, ◌≡◌, List, Bool, true, false, not, ◌||◌, ◌==◌, if◌then◌else◌,
  Option, none, some, length, Outcome, ok, err, panic, hang, Error, IoError,
}
use mongonet.Base.Errors.{◌>>=◌}
use mongonet.Document.{Document}
use mongonet.Wire.{MessageHeader, Message, header, has_response, op_query}
use mongonet.Socket.{
  ReadResult, IsRead, Reader, WriteResult, IsWritten, Sink, read_message, send_message,
}
use mongonet.Pool.{PooledConnection, ConnectionPool, get, put, mark_bad}
use mongonet.Respond.{Failure, respond_with_error}

-- A connection of the session: the client's, or one to the server by its number in the pool.
pub data End : Type 0 where
  client : End
  server : ℕ → End

-- The connections, the clock and the dialer, over the state of everything outside of the program.
pub record Network : Type 1 where
  pub World : Type 0
  pub read : End → World → ℕ → ReadResult World
  pub within : (e : End) (s : World) (n : ℕ) → IsRead n (read e s n)
  pub write : End → World → List ℕ → WriteResult World
  pub received : End → World → List ℕ
  pub written :
      (e : End) (s : World) (buf : List ℕ)
      → IsWritten (received e) (received e s) buf (write e s buf)
  pub clock : World → ℕ → ℕ
  pub dial : World → Option ℕ
  pub hook : Option (ℕ → Bool)

-- What `InterceptMongoToClient` gives.
pub record Response (W : Type 0) : Type 0 where
  pub message : Option Message
  pub error : Option Failure
  pub world : W

-- What `InterceptClientToMongo` gives: its four results, none for nil.
pub record Interception (W : Type 0) : Type 0 where
  pub message : Option Message
  pub responder : Option (Message → W → Response W)
  pub expecting : Bool
  pub error : Option Failure
  pub world : W

-- ProxyInterceptor, as far as the loop calls it. A call of `InterceptClientToMongo` may panic.
pub record Interceptor (W : Type 0) : Type 0 where
  pub intercept_client_to_mongo : Message → W → Outcome (Interception W)
  pub track_request : MessageHeader → W → W
  pub track_response : MessageHeader → W → W

-- The errors of `doLoop`
pub data SessionError : Type 0 where
  end_of_file : SessionError
  reading_client : Error → SessionError
  intercepting : Failure → SessionError
  responding : Error → SessionError
  no_connection : SessionError
  writing_mongo : Error → SessionError
  reading_mongo : Error → SessionError
  intercepting_response : Failure → SessionError
  writing_client : Error → SessionError

-- What `doLoop` returns (the pooled connection that the session keeps, and an error), and what is left.
pub record Turn (W : Type 0) : Type 0 where
  pub held : Option ℕ
  pub error : Option SessionError
  pub pool : ConnectionPool
  pub world : W

-- `x, err := m; if err != nil { failed } else { done }`
abbrev pub attempt : {A B : Type 0} → Outcome A → (Error → Outcome B) → (A → Outcome B) → Outcome B
attempt (ok a) failed done = done a
attempt (err e) failed done = failed e
attempt panic failed done = panic
attempt hang failed done = hang

-- `if err == io.EOF`
abbrev pub client_error : Error → SessionError
client_error (Error.io IoError.eof) = SessionError.end_of_file
client_error e = SessionError.reading_client e

-- `m.Header().OpCode == OP_QUERY && m.(*QueryMessage).Flags&(1<<6) != 0`
abbrev pub exhaust_bit : Message → Outcome Bool
exhaust_bit (Message.query m) = ok (m.flags / 64 % 2 == 1)
exhaust_bit _ = panic

abbrev pub in_exhaust_mode : Message → Outcome Bool
in_exhaust_mode m =
    let bit = exhaust_bit m in if (header m).op_code == op_query then bit else ok false

-- `resp.(*ReplyMessage).CursorId == 0`
abbrev pub is_last : Message → Outcome Bool
is_last (Message.reply m) = ok (m.cursor_id == 0)
is_last _ = panic

-- `if x != nil { present } else { absent }`
abbrev pub when_some : {A B : Type 0} → Option A → (A → Outcome B) → Outcome B → Outcome B
when_some none present absent = absent
when_some (some a) present absent = present a

module _ (net : Network) (marshal : Document → Option (List ℕ))
    (interceptor : Option (Interceptor net.World)) where
  open net use {World}

  abbrev pub reader : End → Reader
  reader e = record { Source = World; read = net.read e; within = net.within e }

  abbrev pub sink : End → Sink
  sink e = record {
    Store = World;
    write = net.write e;
    received = net.received e;
    written = net.written e;
  }

  abbrev pub returned :
      Option ℕ → Option SessionError → ConnectionPool → World → Outcome (Turn World)
  returned held error pool world =
      ok (record { held = held; error = error; pool = pool; world = world })

  -- The end of `doLoop` behind `defer pooledConn.Close()`
  unfoldable pub release : ℕ → Option SessionError → ConnectionPool → World → Outcome (Turn World)
  release id error pool world = put (net.clock world 0) id pool >>= λ q. returned none error q world

  abbrev pub track_response : MessageHeader → World → World
  track_response h world = elim interceptor [ none ↦ world | some i ↦ i.track_response h world ]

  -- The response, as the interceptor leaves it.
  abbrev pub respond : Option (Message → World → Response World) → Message → World → Response World
  respond none m world = record { message = some m; error = none; world = world }
  respond (some f) m world = f m world

  -- The loop over responses, in rounds. A response that is nil without an error makes `SendMessage`
  -- panic.
  unfoldable pub exchange :
      ℕ
      → ℕ
      → Bool
      → Option (Message → World → Response World)
      → ConnectionPool
      → World
      → Outcome (Turn World)
  exchange zero id exhaust responder pool world = hang
  exchange (suc fuel) id exhaust responder pool world =
      attempt (read_message (reader (server (pool.objects id).conn)) world)
        (λ e. release id (some (SessionError.reading_mongo e)) (mark_bad id pool) world)
        λ (resp, world1).
          let r = respond responder resp world1 in
          when_some r.error
            (λ e. release id (some (SessionError.intercepting_response e)) pool r.world)
            (when_some r.message
              (λ m.
                attempt (send_message (sink client) m r.world)
                  (λ e. release id (some (SessionError.writing_client e)) pool r.world)
                  λ (sent, world2).
                    let world3 = track_response (header sent) world2 in
                    let again = exchange fuel id exhaust responder pool world3 in
                    let next = is_last sent >>= λ last.
                    if last then release id none pool world3 else again in
                    if not exhaust then release id none pool world3 else next)
              panic)

  -- From the test of `pooledConn.closed` on, with the connection in hand.
  unfoldable pub send_request :
      ℕ
      → Message
      → Option (Message → World → Response World)
      → Bool
      → ℕ
      → ConnectionPool
      → World
      → Outcome (Turn World)
  send_request fuel m responder expecting id pool world =
      let sending =
        attempt (send_message (sink (server (pool.objects id).conn)) m world)
          (λ e. returned (some id) (some (SessionError.writing_mongo e)) (mark_bad id pool) world)
          λ (sent, world1).
            let going =
              in_exhaust_mode sent >>= λ exhaust. exchange fuel id exhaust responder pool world1 in
            if not expecting || not (has_response sent)
            then returned (some id) none pool world1
            else going in
      if (pool.objects id).closed then panic else sending

  -- `if pooledConn == nil { Get }`, and the rest
  unfoldable pub forward :
      ℕ
      → Message
      → Option (Message → World → Response World)
      → Bool
      → Option ℕ
      → ConnectionPool
      → World
      → Outcome (Turn World)
  forward fuel m responder expecting (some id) pool world =
      send_request fuel m responder expecting id pool world
  forward fuel m responder expecting none pool world =
      get (net.clock world) (net.dial world) net.hook pool >>= λ (given, pool1).
      when_some given (λ id. send_request fuel m responder expecting id pool1 world)
        (returned none (some SessionError.no_connection) pool1 world)

  -- `pooledConn.Close()` of a connection that may be nil
  abbrev pub close_held :
      Option ℕ → Option SessionError → ConnectionPool → World → Outcome (Turn World)
  close_held none error pool world = returned none error pool world
  close_held (some id) error pool world = release id error pool world

  -- What follows the interceptor's four results.
  unfoldable pub after_interception :
      ℕ → Interception World → Option ℕ → ConnectionPool → Outcome (Turn World)
  after_interception fuel i held pool =
      when_some i.error
        (λ e.
          when_some i.message
            (λ m.
              let answered =
                attempt (respond_with_error marshal (sink client) m (some e) i.world)
                  (λ e'. returned held (some (SessionError.responding e')) pool i.world)
                  λ world. returned held none pool world in
              if not (has_response m)
              then returned held (some (SessionError.intercepting e)) pool i.world
              else answered)
            (close_held held (some (SessionError.intercepting e)) pool i.world))
        (when_some i.message (λ m. forward fuel m i.responder i.expecting held pool i.world)
          (returned held none pool i.world))

  -- `doLoop`. The fuel bounds the responses of one request.
  unfoldable pub do_loop : ℕ → Option ℕ → ConnectionPool → World → Outcome (Turn World)
  do_loop fuel held pool world =
      attempt (read_message (reader client) world)
        (λ e. returned held (some (client_error e)) pool world)
        λ (m, world1).
          when_some interceptor
            (λ i. i.intercept_client_to_mongo m (i.track_request (header m) world1) >>= λ x.
              after_interception fuel x held pool)
            (forward fuel m none true held pool world1)

  -- `DoLoopTemp`, in turns: the session ends with the first error, and gives back what it holds.
  unfoldable pub do_loop_temp : ℕ → ℕ → Option ℕ → ConnectionPool → World → Outcome (Turn World)
  do_loop_temp zero fuel held pool world = hang
  do_loop_temp (suc turns) fuel held pool world = do_loop fuel held pool world >>= λ t.
      let again = do_loop_temp turns fuel t.held t.pool t.world in
      when_some t.error (λ e. close_held t.held (some e) t.pool t.world) again
