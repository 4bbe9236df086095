-- ===== src/Sni.antt =====
-- cmd/sni_tester/sni_tester.go: an interceptor that answers the command "sni" itself, with the name of the
-- server that the client asked for in the TLS handshake, and passes on all else.
pub mod Passing
pub mod Answering
use mongonet.Base.{
  ℕ, List, [], ◌∷◌, Bool, true, false, not, if◌then◌else◌, Option, none, some, Outcome, ok, err,
  panic, hang, Error,
}
use mongonet.Base.Errors.{◌>>=◌}
use mongonet.Bson.{SimpleBson}
use mongonet.Document.{Value, Document, same_key}
use mongonet.Wire.{Message, MessageHeader, QueryMessage, CommandMessage}
use mongonet.Namespace.{namespace_is_command}
use mongonet.Socket.{Sink}
use mongonet.Respond.{Failure, MongoError, mongo, key_ok, simple_bson_convert, respond_to_command}
use mongonet.Proxy.{client, Network, Response, Interception, Interceptor, sink}
use mongonet.Checked.{ConnError, Checker}

-- "sni", "sniName" and "SNITesterError"
abbrev pub sni : List ℕ
sni = 115 ∷ 110 ∷ 105 ∷ []

abbrev pub sni_name : List ℕ
sni_name = 115 ∷ 110 ∷ 105 ∷ 78 ∷ 97 ∷ 109 ∷ 101 ∷ []

abbrev pub error_code : ℕ
error_code = 20000

abbrev pub error_code_name : List ℕ
error_code_name = 83 ∷ 78 ∷ 73 ∷ 84 ∷ 101 ∷ 115 ∷ 116 ∷ 101 ∷ 114 ∷ 69 ∷ 114 ∷ 114 ∷ 111 ∷ 114 ∷ []

-- `newSNIError`, of an error's text, none for nil
abbrev pub new_sni_error : Option (List ℕ) → Option Failure
new_sni_error none = none
new_sni_error (some text) =
    some (mongo (record { reason = some text; code = error_code; code_name = error_code_name }))

-- The document of the answer.
abbrev pub sni_document : List ℕ → Document
sni_document server_name =
    Document.elem sni_name (Value.string server_name)
      (Document.elem key_ok (Value.int 1) Document.empty)

-- `len(query) == 0`, or the key of the first element is not "sni"
abbrev pub asks_for_sni : Option Document → Bool
asks_for_sni none = false
asks_for_sni (some Document.empty) = false
asks_for_sni (some (Document.elem key value rest)) = same_key key sni

-- `if err != nil { panic(err) }`
abbrev pub or_panic : {A : Type 0} → Outcome A → Outcome A
or_panic (ok a) = ok a
or_panic hang = hang
or_panic _ = panic

-- `marshal` and `unmarshal` are the driver's, `text` gives an error's text, and `server_name` is the
-- session's SSLServerName.
module _ (net : Network) (marshal : Document → Option (List ℕ))
    (unmarshal : List ℕ → Option Document) (text : Error → List ℕ) (server_name : List ℕ) where
  open net use {World}

  -- `sniResponse`
  unfoldable pub sni_response : Sink → Outcome SimpleBson
  sni_response w = or_panic (simple_bson_convert marshal w (sni_document server_name))

  -- `return m, nil, true, nil`
  abbrev pub pass_on : Message → World → Outcome (Interception World)
  pass_on m world =
      ok (record {
        message = some m;
        responder = none;
        expecting = true;
        error = none;
        world = world;
      })

  abbrev pub responded : World → Outcome World → Outcome (Interception World)
  responded world (ok world1) = ok (record {
    message = none;
    responder = none;
    expecting = true;
    error = new_sni_error none;
    world = world1;
  })
  responded world (err e) = ok (record {
    message = none;
    responder = none;
    expecting = true;
    error = new_sni_error (some (text e));
    world = world;
  })
  responded world panic = panic
  responded world hang = hang

  -- `return nil, nil, true, newSNIError(RespondToCommand(mm, sniResponse()))`
  unfoldable pub answer : Message → World → Outcome (Interception World)
  answer m world = sni_response (sink net marshal none client) >>= λ raw.
      responded world (respond_to_command marshal (sink net marshal none client) m raw world)

  -- `case *QueryMessage`
  unfoldable pub intercept_query : QueryMessage → World → Outcome (Interception World)
  intercept_query mm world = namespace_is_command mm.namespace >>= λ is_command.
      if not is_command
      then pass_on (Message.query mm) world
      else if not (asks_for_sni (unmarshal mm.query.bson))
      then pass_on (Message.query mm) world
      else answer (Message.query mm) world

  -- `case *CommandMessage`
  unfoldable pub intercept_command : CommandMessage → World → Outcome (Interception World)
  intercept_command mm world =
      if not (same_key mm.cmd_name sni)
      then pass_on (Message.command mm) world
      else answer (Message.command mm) world

  -- `InterceptClientToMongo`
  unfoldable pub intercept_client_to_mongo : Message → World → Outcome (Interception World)
  intercept_client_to_mongo (Message.query mm) world = intercept_query mm world
  intercept_client_to_mongo (Message.command mm) world = intercept_command mm world
  intercept_client_to_mongo m world = pass_on m world

  -- `MyInterceptor`, which tracks nothing.
  abbrev pub my_interceptor : Interceptor World
  my_interceptor = record {
    intercept_client_to_mongo = intercept_client_to_mongo;
    track_request = λ h world. world;
    track_response = λ h world. world;
  }

-- `CheckConnection` and `CheckConnectionInterval`
abbrev pub sni_checker : (S : Type 0) → Checker S
sni_checker S = record {
  check_connection = λ s. (none, s);
  check_connection_interval = λ s. (0, s);
}
