-- ===== src/Tests/Answers.antt =====
-- session.go, proxy.go and bsonutil.go: answers of the proxy itself. server.go: the life of a server.
use mongonet.Base.{ℕ, ◌≡◌, ◌≢◌, refl, inl, List, [], ◌∷◌, true, false, Option, none, some, arith}
use mongonet.Base.Errors.{Ensures}
use mongonet.Document.{Value, Document}
use mongonet.Wire.{Message, header}
use mongonet.Respond.{
  Failure, mongo, key_code, make_bson, respond_with_error, proxy_respond_with_error,
}
use mongonet.Respond.Answers.{
  SentMore, answer_bytes, respond_with_error-Ensures, proxy_respond_with_error-respond_with_error,
}
use mongonet.Respond.Fields.{IsMade, make_bson-Ensures}
use mongonet.Server.{
  Server, new_server, initialize_server, listen, accept, kill, stop, wait, returned, crashed,
  session_run, end_session,
}
use mongonet.Server.Sessions.{IsBalanced, session_run-IsBalanced}
use mongonet.Server.Lifecycle.{
  listening, accepted, stopping, killing, ended, Reachable, here, next, IsSound, new_server-IsSound,
  initialize_server-crashed,
}
use mongonet.Tests.Connections.{slow}
use mongonet.Tests.Data.{doc, name, get_more}

-- "not allowed", with the code 13
abbrev pub refused : Option Failure
refused = some (mongo (record { reason = some name; code = 13; code_name = name }))

-- A driver that marshals each document to the same bytes.
abbrev pub marshal : Document → Option (List ℕ)
marshal _ = some doc.bson

respond_with_error-Ensures_example :
    Ensures
      (SentMore slow [] (answer_bytes 2004 7 doc.bson))
      (respond_with_error marshal slow (Message.get_more get_more) refused [])
unfolding header
respond_with_error-Ensures_example =
    respond_with_error-Ensures marshal slow (Message.get_more get_more) doc.bson (omega arith)
      (omega arith) [] refused refl

proxy_respond_with_error-respond_with_error_example :
    proxy_respond_with_error marshal slow (Message.get_more get_more) refused []
    ≡ respond_with_error marshal slow (Message.get_more get_more) refused []
unfolding header
proxy_respond_with_error-respond_with_error_example =
    proxy_respond_with_error-respond_with_error marshal slow (Message.get_more get_more) refused []
      (inl (inl refl))

abbrev arguments : List Value
arguments = Value.string name ∷ Value.int 3 ∷ Value.string key_code ∷ Value.bool true ∷ []

make_bson-Ensures_example : Ensures (IsMade arguments) (make_bson arguments)
make_bson-Ensures_example = make_bson-Ensures arguments

session_run-IsBalanced_example :
    IsBalanced true true true true true (session_run true true true true true)
session_run-IsBalanced_example = session_run-IsBalanced true true true true true

-- A server that has taken one connection, which has ended, and is killed.
abbrev accepting_server : Server
accepting_server = accept (listen true (new_server true))

abbrev killed_server : Server
killed_server = stop (kill (end_session (session_run true false false false true) accepting_server))

killed_server-Reachable : Reachable (new_server true) killed_server
unfolding session_run
killed_server-Reachable =
    next _ _
      (next _ _
        (next _ _ (next _ _ (next _ _ here (listening true refl)) (accepted refl))
          (ended false false false true (omega arith)))
        (killing refl))
      (stopping refl refl)

new_server-IsSound_example : IsSound true killed_server
new_server-IsSound_example = new_server-IsSound true killed_server killed_server-Reachable

abbrev proxy_server : Server
proxy_server = kill (listen true initialize_server)

initialize_server-crashed_example :
    (proxy_server.phase ≢ returned none)
    × ((stop proxy_server).phase ≡ crashed)
    × ((wait none proxy_server).phase ≡ crashed)
initialize_server-crashed_example =
    initialize_server-crashed proxy_server none
      (next _ _ (next _ _ here (listening true refl)) (killing refl)) refl
