-- ===== src/Proxy/Answering.antt =====
-- proxy.go: a request that is passed on gets its response.
use mongonet.Base.{
  ℕ, suc, ◌<◌, ◌≡◌, refl, sym, ap, subst, ◌∙◌, List, ◌++◌, true, false, not, ◌||◌, if◌then◌else◌,
  Option, none, some, Outcome, ok, err, panic, hang, Error,
}
use mongonet.Base.Errors.{Ensures, Ensures-bind, Ensures-ok, ◌>>=◌}
use mongonet.Document.{Document}
use mongonet.Wire.{Message, has_response}
use mongonet.Socket.{serialize, read_message, send_message}
use mongonet.Socket.Send.{send_message-Ensures}
use mongonet.Pool.{ConnectionPool, get, put}
use mongonet.Pool.Lending.{IsValid, Answers, get-Ensures}
use mongonet.Pool.Returning.{put-Ensures, IsReturned}
use mongonet.Proxy.{
  client, server, Network, Interceptor, SessionError, Turn, attempt, in_exhaust_mode, returned,
  release, exchange, send_request, forward, do_loop, reader, sink,
}

pub Ensures-attempt :
    {A B : Type 0} (P : A → Type 0) (Q : B → Type 0) (m : Outcome A) (failed : Error → Outcome B)
    (done : A → Outcome B)
    → Ensures P m
    → ((e : Error) → Ensures Q (failed e))
    → ((a : A) → m ≡ ok a → P a → Ensures Q (done a))
    → Ensures Q (attempt m failed done)
Ensures-attempt P Q (ok a) failed done h f k = k a refl h
Ensures-attempt P Q (err e) failed done h f k = f e
Ensures-attempt P Q panic failed done h f k = absurd h
Ensures-attempt P Q hang failed done h f k = absurd h

module _ (net : Network) (marshal : Document → Option (List ℕ)) where
  open net use {World}

  -- The server's next message, once `m` has been sent to it (and `buf` has come to it): then the client has
  -- been sent nothing yet.
  pub record IsAnswering (conn : ℕ) (before : World) (m m' : Message) (buf : List ℕ)
      (resp : Message) : Type 0 where
    pub after : World
    pub answers :
        (w : World)
        → send_message (sink net marshal none (server conn)) m before ≡ ok (m', w)
        → net.received (server conn) w ≡ net.received (server conn) before ++ buf
        → read_message (reader net marshal none (server conn)) w ≡ ok (resp, after)
    pub silent : net.received client after ≡ net.received client before

  -- A turn that has given the client these bytes and the connection back, or could not write.
  pub data IsAnswered (before : World) (id : ℕ) (rbuf : List ℕ) (t : Turn World) : Type 0 where
    answered :
        t.error ≡ none
        → t.held ≡ none
        → net.received client t.world ≡ net.received client before ++ rbuf
        → (t.pool.objects id).closed ≡ true
        → IsAnswered before id rbuf t
    unsent :
        (e : Error) → t.error ≡ some (SessionError.writing_mongo e) → IsAnswered before id rbuf t
    lost :
        (e : Error) → t.error ≡ some (SessionError.writing_client e) → IsAnswered before id rbuf t

  pub release-Ensures :
      (i : Option (Interceptor World)) (Q : Turn World → Type 0) (id : ℕ) (e : Option SessionError)
      (p : ConnectionPool) (w : World)
      → IsValid p
      → id < p.fresh
      → (p.objects id).closed ≡ false
      → ((q : ConnectionPool)
          → (q.objects id).closed ≡ true
          → Q (record { held = none; error = e; pool = q; world = w }))
      → Ensures Q (release net marshal i id e p w)
  unfolding release
  release-Ensures i Q id e p w v l o k =
      Ensures-bind (IsReturned p id) Q (put (net.clock w 0) id p) _
        (put-Ensures (net.clock w 0) id p v l o) λ q r. k q r.1

  exchange-IsAnswered :
      (fuel id : ℕ) (p : ConnectionPool) (w after before : World) (rbuf : List ℕ)
      (resp resp' : Message)
      → IsValid p
      → id < p.fresh
      → (p.objects id).closed ≡ false
      → read_message (reader net marshal none (server ((p.objects id).conn))) w ≡ ok (resp, after)
      → net.received client after ≡ net.received client before
      → serialize resp ≡ ok (rbuf, resp')
      → Ensures (IsAnswered before id rbuf) (exchange net marshal none (suc fuel) id false none p w)
  unfolding exchange
  exchange-IsAnswered fuel id p w after before rbuf resp resp' v l o read silent s =
      let Q = IsAnswered before id rbuf in
      rw read (
        Ensures-attempt
          (λ r. (r.0 ≡ resp') × (net.received client r.1 ≡ net.received client after ++ rbuf)) Q
          (send_message (sink net marshal none client) resp after) _ _
          (send_message-Ensures (sink net marshal none client) resp resp' rbuf after s)
          (λ e. release-Ensures none Q id _ p after v l o (λ q c. IsAnswered.lost e refl))
          λ r same h.
            release-Ensures none Q id none p r.1 v l o
              (λ q c. IsAnswered.answered refl refl (h.1 ∙ ap (λ b. b ++ rbuf) silent) c))

  send_request-IsAnswered :
      (fuel id : ℕ) (m m' resp resp' : Message) (p : ConnectionPool) (before : World)
      (buf rbuf : List ℕ)
      → IsValid p
      → id < p.fresh
      → (p.objects id).closed ≡ false
      → serialize m ≡ ok (buf, m')
      → has_response m' ≡ true
      → in_exhaust_mode m' ≡ ok false
      → IsAnswering ((p.objects id).conn) before m m' buf resp
      → serialize resp ≡ ok (rbuf, resp')
      → Ensures
          (IsAnswered before id rbuf)
          (send_request net marshal none (suc fuel) m none true id p before)
  unfolding send_request
  send_request-IsAnswered fuel id m m' resp resp' p before buf rbuf v l o s expects plain a s' =
      let conn = (p.objects id).conn in
      let Q = IsAnswered before id rbuf in
      rw o (
        Ensures-attempt
          (λ r.
            (r.0 ≡ m')
            × (net.received (server conn) r.1 ≡ net.received (server conn) before ++ buf))
          Q (send_message (sink net marshal none (server conn)) m before) _ _
          (send_message-Ensures (sink net marshal none (server conn)) m m' buf before s)
          (λ e. IsAnswered.unsent e refl)
          λ r same h. going r.0 r.1 h.0 (a.answers r.1 (same ∙ ap (λ x. ok (x, r.1)) h.0) h.1))
    where
      going :
          (sent : Message) (w : World)
          → sent ≡ m'
          → read_message (reader net marshal none (server ((p.objects id).conn))) w
            ≡ ok (resp, a.after)
          → Ensures (IsAnswered before id rbuf) (
              if not true || not (has_response sent)
              then returned net marshal none (some id) none p w
              else in_exhaust_mode sent >>= λ exhaust.
                  exchange net marshal none (suc fuel) id exhaust none p w)
      going sent w e read =
          let expects' : has_response sent ≡ true = ap has_response e ∙ expects in
          let plain' : in_exhaust_mode sent ≡ ok false = ap in_exhaust_mode e ∙ plain in
          rw expects' (
            subst
              (λ x.
                Ensures (IsAnswered before id rbuf)
                  (x >>= λ exhaust. exchange net marshal none (suc fuel) id exhaust none p w))
              (sym plain')
              (exchange-IsAnswered fuel id p w a.after before rbuf resp resp' v l o read a.silent
                s'))

  -- A session without an interceptor and without a connection, on a valid pool. The client's next message
  -- is one that `Serialize` turns into bytes, expects a response and is not in exhaust mode; `Get` gives a
  -- connection; and the server, once it has been sent these bytes on it, answers by a message that `Serialize` turns into bytes.
  -- Then the turn ends without a panic: the client has been sent exactly the bytes of the answer and the
  -- connection is given back, unless a write to one of the two gives an error, which the turn returns.
  pub do_loop-IsAnswered :
      (fuel id : ℕ) (m m' resp resp' : Message) (p q : ConnectionPool) (start before : World)
      (buf rbuf : List ℕ)
      → IsValid p
      → read_message (reader net marshal none client) start ≡ ok (m, before)
      → serialize m ≡ ok (buf, m')
      → has_response m' ≡ true
      → in_exhaust_mode m' ≡ ok false
      → get (net.clock before) (net.dial before) net.hook p ≡ ok (some id, q)
      → IsAnswering ((q.objects id).conn) before m m' buf resp
      → serialize resp ≡ ok (rbuf, resp')
      → Ensures (IsAnswered before id rbuf) (do_loop net marshal none (suc fuel) none p start)
  unfolding do_loop forward
  do_loop-IsAnswered fuel id m m' resp resp' p q start before buf rbuf v r s expects plain g a s' =
      let lent =
        Ensures-ok (Answers p) (get (net.clock before) (net.dial before) net.hook p) (some id, q)
          (get-Ensures (net.clock before) (net.dial before) net.hook p v) g in
      rw (r, g)
        (send_request-IsAnswered fuel id m m' resp resp' q before buf rbuf lent.0 lent.1.known
          lent.1.open_now s expects plain a s')
