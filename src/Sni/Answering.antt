-- ===== src/Sni/Answering.antt =====
-- sni_tester.go: the answer to the command "sni".
use mongonet.Base.{
  ℕ, ◌^◌, ◌<◌, ◌≡◌, refl, sym, subst, List, ◌++◌, Option, none, some, length, Outcome, ok, err,
  panic, hang, Error,
}
use mongonet.Base.Errors.{Ensures, ◌>>=◌}
use mongonet.Document.{Document}
use mongonet.Wire.{Message, header, op_query, op_command}
use mongonet.Serialize.Layout.{IsInt32}
use mongonet.Socket.{Sink, read_message}
use mongonet.Pool.{ConnectionPool}
use mongonet.Respond.{Failure, simple_bson_convert, respond_to_command, respond_with_document}
use mongonet.Respond.Answers.{answer_bytes, SentMore, raw_bson, respond_with_document-Ensures}
use mongonet.Proxy.{
  client, Network, SessionError, Turn, after_interception, close_held, do_loop, reader, sink,
}
use mongonet.Proxy.Keeping.{IsHolding}
use mongonet.Proxy.Answering.{release-Ensures}
use mongonet.Sni.{
  sni_document, sni_response, answer, responded, intercept_query, intercept_command,
  intercept_client_to_mongo, my_interceptor,
}
use mongonet.Sni.Passing.{IsSni}

-- A message that the interceptor answers, in the form of its op code.
pub data IsAsking (unmarshal : List ℕ → Option Document) (m : Message) : Type 0 where
  by_query : IsSni unmarshal m → (header m).op_code ≡ op_query → IsAsking unmarshal m
  by_command : IsSni unmarshal m → (header m).op_code ≡ op_command → IsAsking unmarshal m

-- For these op codes the session has one way to answer.
respond_to_command-respond_with_document :
    (marshal : Document → Option (List ℕ)) (w : Sink) (unmarshal : List ℕ → Option Document)
    (m : Message) (raw : List ℕ) (s : w.Store)
    → IsAsking unmarshal m
    → respond_to_command marshal w m (raw_bson raw) s
      ≡ respond_with_document marshal w m (raw_bson raw) s
unfolding respond_to_command respond_with_document
respond_to_command-respond_with_document marshal w unmarshal m raw s (by_query a e) = rw e refl
respond_to_command-respond_with_document marshal w unmarshal m raw s (by_command a e) = rw e refl

asking :
    {unmarshal : List ℕ → Option Document} {m : Message} → IsAsking unmarshal m → IsSni unmarshal m
asking (by_query a e) = a
asking (by_command a e) = a

module _ (net : Network) (marshal : Document → Option (List ℕ))
    (unmarshal : List ℕ → Option Document) (text : Error → List ℕ) (server_name : List ℕ) where
  open net use {World}

  intercept-answer :
      (m : Message) (w : World)
      → IsSni unmarshal m
      → intercept_client_to_mongo net marshal unmarshal text server_name m w
        ≡ answer net marshal unmarshal text server_name m w
  unfolding intercept_client_to_mongo intercept_query intercept_command
  intercept-answer (Message.query mm) w (e, a) = rw (e, a) refl
  intercept-answer (Message.command mm) w a = rw a refl
  intercept-answer (Message.reply mm) w a = absurd a
  intercept-answer _ w a = absurd a

  -- The client has its answer, and the session what it had; or it could not be sent, and the session ends.
  pub data IsToldSni (held : Option ℕ) (p : ConnectionPool) (before : World) (bytes : List ℕ)
      (t : Turn World) : Type 0 where
    told :
        t.error ≡ none
        → t.held ≡ held
        → t.pool ≡ p
        → net.received client t.world ≡ net.received client before ++ bytes
        → IsToldSni held p before bytes t
    unsent :
        (e : Failure)
        → t.error ≡ some (SessionError.intercepting e)
        → t.held ≡ none
        → IsToldSni held p before bytes t

  -- A session with the interceptor of sni_tester, whatever it holds, whose client sends the command "sni" by an
  -- OP_QUERY or an OP_COMMAND, with an int32 request id, where the driver marshals the answer to fewer than
  -- 2 ^ 30 bytes. The turn ends without a panic. Either the client has been sent one message of the matching
  -- kind, which answers that request id with the document of the server's name, no connection was taken from
  -- or given to the pool, and the session goes on; or the answer could not be sent, and the session ends with
  -- an error, holding nothing.
  pub do_loop-IsToldSni :
      (Old : ℕ → Type 0) (fuel : ℕ) (held : Option ℕ) (p : ConnectionPool) (w w1 : World)
      (m : Message) (raw : List ℕ)
      → IsHolding Old held p
      → read_message (reader net marshal none client) w ≡ ok (m, w1)
      → IsAsking unmarshal m
      → IsInt32 ((header m).request_id)
      → marshal (sni_document server_name) ≡ some raw
      → length raw < 2 ^ 30
      → Ensures
          (IsToldSni held p w1 (answer_bytes ((header m).op_code) ((header m).request_id) raw))
          (do_loop net marshal
            (some (my_interceptor net marshal unmarshal text server_name))
            fuel
            held
            p
            w)
  unfolding do_loop after_interception answer sni_response simple_bson_convert
  do_loop-IsToldSni Old fuel held p w w1 m raw h read a id marshalled short =
      let s = sink net marshal none client in
      let run = respond_to_command marshal s m (raw_bson raw) w1 in
      let sent : Ensures
          (SentMore s w1 (answer_bytes ((header m).op_code) ((header m).request_id) raw)) run =
        subst
          (Ensures (SentMore s w1 (answer_bytes ((header m).op_code) ((header m).request_id) raw)))
          (sym (respond_to_command-respond_with_document marshal s unmarshal m raw w1 a))
          (respond_with_document-Ensures marshal s m raw short id w1) in
      let converted : simple_bson_convert marshal s (sni_document server_name) ≡ ok (raw_bson raw) =
        rw (marshalled, simple_bson_convert) refl in
      rw (read, intercept-answer m w1 (asking a), converted) (responds run sent)
    where
      closing :
          (left : Option ℕ) (e : Failure)
          → IsHolding Old left p
          → Ensures
              (IsToldSni held p w1 (answer_bytes ((header m).op_code) ((header m).request_id) raw))
              (close_held net marshal
                (some (my_interceptor net marshal unmarshal text server_name))
                left
                (some (SessionError.intercepting e))
                p
                w1)
      closing none e h = unsent e refl refl
      closing (some id) e h =
          let o = h.mine id refl in
          release-Ensures net marshal (some (my_interceptor net marshal unmarshal text server_name))
            (IsToldSni held p w1 (answer_bytes ((header m).op_code) ((header m).request_id) raw)) id
            (some (SessionError.intercepting e)) p w1 h.valid o.0 o.1 (λ q c. unsent e refl refl)

      responds :
          (o : Outcome World)
          → Ensures
              (SentMore
                (sink net marshal none client)
                w1
                (answer_bytes ((header m).op_code) ((header m).request_id) raw))
              o
          → Ensures
              (IsToldSni held p w1 (answer_bytes ((header m).op_code) ((header m).request_id) raw))
              (responded net marshal unmarshal text server_name w1 o >>= λ x.
                after_interception net marshal
                  (some (my_interceptor net marshal unmarshal text server_name))
                  fuel
                  x
                  held
                  p)
      responds (ok w2) k = told refl refl refl k
      responds (err e) k = closing held _ h
      responds panic k = absurd k
      responds hang k = absurd k
