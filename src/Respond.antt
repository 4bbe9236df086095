-- ===== src/Respond.antt =====
-- session.go and proxy.go: answering a client's message without the server: `RespondToCommand`,
-- `RespondToCommandMakeBSON`, `RespondWithError`, and the proxy's own `respondWithError`.
pub mod Answers
pub mod Reading
pub mod Fields
use mongonet.Base.{
  ℕ, ◌+◌, ◌*◌, List, [], ◌∷◌, Bool, true, false, ◌||◌, ◌==◌, if◌then◌else◌, Option, none, some,
  length, Outcome, ok, err, panic, Error,
}
use mongonet.Base.Errors.{◌>>=◌}
use mongonet.Word.{int32_of}
use mongonet.Bson.{SimpleBson, simple_bson_empty}
use mongonet.Document.{Value, Document, same_key, append_elem}
use mongonet.Wire.{
  MessageHeader, Message, ReplyMessage, CommandReplyMessage, MessageMessage, Section, header,
  op_reply, op_update, op_insert, op_query, op_get_more, op_delete, op_command, op_command_reply,
  op_msg,
}
use mongonet.Socket.{Sink, send_message}

-- The keys "ok", "errmsg", "code" and "codeName"
abbrev pub key_ok : List ℕ
key_ok = 111 ∷ 107 ∷ []

abbrev pub key_errmsg : List ℕ
key_errmsg = 101 ∷ 114 ∷ 114 ∷ 109 ∷ 115 ∷ 103 ∷ []

abbrev pub key_code : List ℕ
key_code = 99 ∷ 111 ∷ 100 ∷ 101 ∷ []

abbrev pub key_code_name : List ℕ
key_code_name = 99 ∷ 111 ∷ 100 ∷ 101 ∷ 78 ∷ 97 ∷ 109 ∷ 101 ∷ []

-- An error inside a MongoError is its text, none for nil.
pub record MongoError : Type 0 where
  pub reason : Option (List ℕ)
  pub code : ℕ
  pub code_name : List ℕ

-- An `error` that is not nil: a MongoError or another one, with its text.
pub data Failure : Type 0 where
  mongo : MongoError → Failure
  other : List ℕ → Failure

abbrev pub with_reason : Option (List ℕ) → Document → Document
with_reason none d = d
with_reason (some text) d = append_elem d key_errmsg (Value.string text)

-- `MongoError.ToBSON`
unfoldable pub mongo_error_to_bson : MongoError → Document
mongo_error_to_bson me =
    let doc = with_reason me.reason (Document.elem key_ok (Value.int 0) Document.empty) in
    append_elem (append_elem doc key_code (Value.int me.code)) key_code_name
      (Value.string me.code_name)

-- The document for an error, none for nil.
unfoldable pub error_bson : Option Failure → Document
error_bson none = Document.elem key_ok (Value.int 1) Document.empty
error_bson (some (mongo me)) = mongo_error_to_bson me
error_bson (some (other text)) =
    Document.elem key_ok (Value.int 0) (Document.elem key_errmsg (Value.string text) Document.empty)

-- The loop over pairs of arguments, with the flag gotOk.
unfoldable pub pairs_loop : List Value → Document → Bool → Outcome (Document × Bool)
pairs_loop (Value.string name ∷ value ∷ rest) doc got_ok =
    pairs_loop rest (append_elem doc name value) (got_ok || same_key name key_ok)
pairs_loop (_ ∷ _ ∷ rest) doc got_ok = err Error.name_not_string
pairs_loop [] doc got_ok = ok (doc, got_ok)
pairs_loop (_ ∷ []) doc got_ok = panic

abbrev pub is_odd : {A : Type 0} → List A → Bool
is_odd [] = false
is_odd (_ ∷ []) = true
is_odd (_ ∷ _ ∷ rest) = is_odd rest

abbrev pub with_ok : Document × Bool → Document
with_ok (doc, true) = doc
with_ok (doc, _) = append_elem doc key_ok (Value.int 1)

-- The document of `RespondToCommandMakeBSON`
unfoldable pub make_bson : List Value → Outcome Document
make_bson args =
    let made : Outcome Document = (do r ← pairs_loop args Document.empty false; ok (with_ok r)) in
    if is_odd args then err (Error.odd_arguments (length args)) else made

-- The header of an answer to a message with this request id.
abbrev pub answer_header : ℕ → ℕ → MessageHeader
answer_header id code = record { size = 0; request_id = 17; response_to = id; op_code = code }

abbrev pub answer_reply : ℕ → SimpleBson → ReplyMessage
answer_reply id doc = record {
  header = answer_header id op_reply;
  flags = 0;
  cursor_id = 0;
  starting_from = 0;
  number_returned = 1;
  docs = doc ∷ [];
}

abbrev pub answer_command : ℕ → SimpleBson → CommandReplyMessage
answer_command id doc = record {
  header = answer_header id op_command_reply;
  command_reply = doc;
  metadata = simple_bson_empty;
  output_docs = [];
}

abbrev pub answer_message : ℕ → SimpleBson → MessageMessage
answer_message id doc = record {
  header = answer_header id op_msg;
  flag_bits = 0;
  sections = Section.body doc ∷ [];
}

-- `marshal` is the driver's bson.Marshal; the sink is the session's connection.
module _ (marshal : Document → Option (List ℕ)) (w : Sink) where
  open w use {Store}

  -- `SimpleBSONConvert`
  unfoldable pub simple_bson_convert : Document → Outcome SimpleBson
  simple_bson_convert d = elim (marshal d) [
    | none ↦ err Error.marshal_failed
    | some raw ↦ ok (record { size = int32_of (length raw); bson = raw })
  ]

  -- `SimpleBSONConvertOrPanic`
  unfoldable pub simple_bson_convert_or_panic : Document → Outcome SimpleBson
  simple_bson_convert_or_panic d = elim (marshal d) [
    | none ↦ panic
    | some raw ↦ ok (record { size = int32_of (length raw); bson = raw })
  ]

  abbrev pub send : Message → Store → Outcome Store
  send m s = send_message w m s >>= λ r. ok r.1

  -- `RespondToCommand`
  unfoldable pub respond_to_command : Message → SimpleBson → Store → Outcome Store
  respond_to_command m doc s =
      let id = (header m).request_id in
      let code = (header m).op_code in
      if code == op_query
      then send (Message.reply (answer_reply id doc)) s
      else if code == op_insert || code == op_update || code == op_delete
      then ok s
      else if code == op_command
      then send (Message.command_reply (answer_command id doc)) s
      else if code == op_msg
      then send (Message.message (answer_message id doc)) s
      else err Error.unknown_opcode

  -- `RespondToCommandMakeBSON`
  unfoldable pub respond_to_command_make_bson : Message → List Value → Store → Outcome Store
  respond_to_command_make_bson m args s = do
    doc ← make_bson args
    doc2 ← simple_bson_convert doc
    respond_to_command m doc2 s

  -- The switch of `RespondWithError`
  unfoldable pub respond_with_document : Message → SimpleBson → Store → Outcome Store
  respond_with_document m doc s =
      let id = (header m).request_id in
      let code = (header m).op_code in
      if code == op_query || code == op_get_more
      then send (Message.reply (answer_reply id doc)) s
      else if code == op_insert || code == op_update || code == op_delete
      then ok s
      else if code == op_command
      then send (Message.command_reply (answer_command id doc)) s
      else if code == op_msg
      then send (Message.message (answer_message id doc)) s
      else err Error.unknown_opcode

  -- `RespondWithError`
  unfoldable pub respond_with_error : Message → Option Failure → Store → Outcome Store
  respond_with_error m e s = do
    doc ← simple_bson_convert (error_bson e)
    respond_with_document m doc s

  -- The switch of the proxy's `respondWithError`
  unfoldable pub proxy_respond_with_document : Message → SimpleBson → Store → Outcome Store
  proxy_respond_with_document m doc s =
      let id = (header m).request_id in
      let code = (header m).op_code in
      if code == op_query || code == op_get_more
      then send (Message.reply (answer_reply id doc)) s
      else if code == op_command
      then send (Message.command_reply (answer_command id doc)) s
      else if code == op_msg
      then send (Message.message (answer_message id doc)) s
      else panic

  -- The proxy's `respondWithError`
  unfoldable pub proxy_respond_with_error : Message → Option Failure → Store → Outcome Store
  proxy_respond_with_error m e s = do
    doc ← simple_bson_convert (error_bson e)
    proxy_respond_with_document m doc s
