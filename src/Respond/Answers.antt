-- ===== src/Respond/Answers.antt =====
-- session.go and proxy.go: the bytes of an answer that the proxy gives itself.
use mongonet.Base.{
  ℕ, ◌+◌, ◌%◌, ◌^◌, ◌<◌, ◌≡◌, ◌⊎◌, refl, sym, ap, subst, ◌∙◌, List, [], ◌∷◌, ◌++◌, true, false, inl,
  inr, Bool-cases, ◌||◌, ◌==◌, if◌then◌else◌, Option, some, length, length-append, append-nil,
  take_all, arith, ok,
}
use mongonet.Base.Errors.{Ensures, Ensures-bind, ◌>>=◌}
use mongonet.Bytes.Layout.{le32, le64}
use mongonet.Word.{int32_of}
use mongonet.Bson.{SimpleBson, simple_bson_empty}
use mongonet.Bson.Write.{IsCovered, image}
use mongonet.Document.{Document}
use mongonet.Wire.{
  Message, header, op_reply, op_update, op_insert, op_query, op_get_more, op_delete, op_command,
  op_command_reply, op_msg,
}
use mongonet.Serialize.Layout.{IsInt32, sized, frame}
use mongonet.Serialize.Queries.{IsWhole, IsReply, reply_body, serialize_reply-frame}
use mongonet.Serialize.Commands.{IsCommandReply, command_reply_body, serialize_command_reply-frame}
use mongonet.Msg.Frame.{IsMessage, message_body, serialize_message-frame}
use mongonet.Socket.{Sink, map_ok, serialize}
use mongonet.Socket.Send.{send_message-Ensures}
use mongonet.Respond.{
  Failure, error_bson, answer_header, answer_reply, answer_command, answer_message,
  simple_bson_convert, send, respond_with_document, respond_with_error, proxy_respond_with_document,
  proxy_respond_with_error,
}

-- An answer on the wire: the request's id stands in the third field.
abbrev pub answer_frame : ℕ → ℕ → List ℕ → List ℕ
answer_frame id code body = le32 (16 + length body) ++ (le32 17 ++ (le32 id ++ (le32 code ++ body)))

-- The body of a reply with one document.
abbrev pub reply_text : List ℕ → List ℕ
reply_text raw = le32 0 ++ (le64 0 ++ (le32 0 ++ (le32 1 ++ raw)))

-- The answer to a message with this op code and id: one document, in the form that the client expects.
abbrev pub answer_bytes : ℕ → ℕ → List ℕ → List ℕ
answer_bytes code id raw =
    if code == op_query || code == op_get_more
    then answer_frame id op_reply (reply_text raw)
    else if code == op_command
    then answer_frame id op_command_reply (raw ++ simple_bson_empty.bson)
    else if code == op_msg
    then answer_frame id op_msg (le32 0 ++ (0 ∷ raw))
    else []

pub answer_frame_lem :
    (id code : ℕ) (body : List ℕ)
    → 16 + length body < 2 ^ 32
    → frame (answer_header id code) body ≡ answer_frame id code body
answer_frame_lem id code body h =
    let small : (16 + length body) % 2 ^ 32 ≡ 16 + length body = omega arith in
    ap (λ n. le32 n ++ (le32 17 ++ (le32 id ++ (le32 code ++ body)))) small

-- The document of an answer.
abbrev pub raw_bson : List ℕ → SimpleBson
raw_bson raw = record { size = int32_of (length raw); bson = raw }

module _ (raw : List ℕ) (short : length raw < 2 ^ 30) where
  raw_size : int32_of (length raw) ≡ length raw
  raw_size = omega arith

  raw-image : image (raw_bson raw) ≡ raw
  raw-image = take_all (int32_of (length raw)) raw (omega (arith, raw_size))

  raw-IsWhole : IsWhole (raw_bson raw)
  raw-IsWhole = record { small = omega arith; whole = omega arith }

  raw-IsCovered : IsCovered (raw_bson raw)
  raw-IsCovered = record { small = omega arith; covered = omega arith }

  module _ (id : ℕ) (v : IsInt32 id) where
    reply-bytes :
        (m' : Message) × (serialize (Message.reply (answer_reply id (raw_bson raw)))
          ≡ ok (answer_frame id op_reply (reply_text raw), m'))
    unfolding serialize
    reply-bytes =
        let m = answer_reply id (raw_bson raw) in
        let same : reply_body m ≡ reply_text raw =
          ap (λ t. le32 0 ++ (le64 0 ++ (le32 0 ++ (le32 1 ++ t)))) (append-nil raw) in
        let valid : IsReply m = record {
          head = record { request = omega arith; response = v; code = omega arith };
          flags = omega arith;
          cursor_id = omega arith;
          starting_from = omega arith;
          number_returned = omega arith;
          docs = (raw-IsWhole, tt);
          fits = omega (arith, ap length same);
        } in
        (
          Message.reply (record m { header = sized m.header (reply_body m) }),
          ap (map_ok (λ r. (r.0, Message.reply r.1))) (serialize_reply-frame m valid)
              ∙ ap
                  (λ b. ok (b, Message.reply (record m { header = sized m.header (reply_body m) })))
                  (ap (frame m.header) same
                    ∙ answer_frame_lem id op_reply (reply_text raw) (omega arith)),
        )

    command-bytes :
        (m' : Message) × (serialize (Message.command_reply (answer_command id (raw_bson raw)))
          ≡ ok (answer_frame id op_command_reply (raw ++ simple_bson_empty.bson), m'))
    unfolding serialize
    command-bytes =
        let m = answer_command id (raw_bson raw) in
        let same : command_reply_body m ≡ raw ++ simple_bson_empty.bson =
          ap (λ t. t ++ simple_bson_empty.bson) raw-image in
        let n = length-append raw simple_bson_empty.bson in
        let valid : IsCommandReply m = record {
          head = record { request = omega arith; response = v; code = omega arith };
          reply = raw-IsCovered;
          metadata = record { small = omega arith; covered = omega arith };
          docs = tt;
          fits = omega (arith, ap length same);
        } in
        (
          Message.command_reply (record m { header = sized m.header (command_reply_body m) }),
          ap (map_ok (λ r. (r.0, Message.command_reply r.1)))
                (serialize_command_reply-frame m valid)
              ∙ ap
                  (λ b. ok (
                    b,
                    Message.command_reply
                        (record m { header = sized m.header (command_reply_body m) }),
                  ))
                  (ap (frame m.header) same
                    ∙ answer_frame_lem id op_command_reply (raw ++ simple_bson_empty.bson)
                        (omega arith)),
        )

    message-bytes :
        (m' : Message) × (serialize (Message.message (answer_message id (raw_bson raw)))
          ≡ ok (answer_frame id op_msg (le32 0 ++ (0 ∷ raw)), m'))
    unfolding serialize
    message-bytes =
        let m = answer_message id (raw_bson raw) in
        let same : message_body m ≡ le32 0 ++ (0 ∷ raw) =
          ap (λ t. le32 0 ++ (0 ∷ t)) (append-nil (image (raw_bson raw)) ∙ raw-image) in
        let valid : IsMessage m = record {
          head = record { request = omega arith; response = v; code = omega arith };
          flag_bits = omega arith;
          sections = (raw-IsCovered, tt);
          fits = omega (arith, ap length same);
        } in
        (
          Message.message (record m { header = sized m.header (message_body m) }),
          ap (map_ok (λ r. (r.0, Message.message r.1))) (serialize_message-frame m valid)
              ∙ ap
                  (λ b.
                    ok (b, Message.message (record m { header = sized m.header (message_body m) })))
                  (ap (frame m.header) same
                    ∙ answer_frame_lem id op_msg (le32 0 ++ (0 ∷ raw)) (omega arith)),
        )

-- The connection has been sent these bytes behind what it had.
abbrev pub SentMore : (w : Sink) → w.Store → List ℕ → w.Store → Type 0
SentMore w s bytes s' = w.received s' ≡ w.received s ++ bytes

send-bytes :
    (marshal : Document → Option (List ℕ)) (w : Sink) (m : Message) (s : w.Store) (bytes : List ℕ)
    → ((m' : Message) × (serialize m ≡ ok (bytes, m')))
    → Ensures (SentMore w s bytes) (send marshal w m s)
send-bytes marshal w m s bytes (m', e) =
    Ensures-bind (λ r. (r.0 ≡ m') × SentMore w s bytes r.1) (SentMore w s bytes) _ _
      (send_message-Ensures w m m' bytes s e) λ r h. h.1

not_answered :
    (code : ℕ)
    → (code == op_insert || code == op_update || code == op_delete) ≡ true
    → ((code == op_command) ≡ false) × ((code == op_msg) ≡ false)
not_answered code h = (ground arith, ground arith)

module _ (marshal : Document → Option (List ℕ)) (w : Sink) (m : Message) (raw : List ℕ)
    (short : length raw < 2 ^ 30) (v : IsInt32 ((header m).request_id)) (s : w.Store) where
  pub respond_with_document-Ensures :
      Ensures
        (SentMore w s (answer_bytes ((header m).op_code) ((header m).request_id) raw))
        (respond_with_document marshal w m (raw_bson raw) s)
  unfolding respond_with_document
  respond_with_document-Ensures =
      let code = (header m).op_code in
      let id = (header m).request_id in
      elim (Bool-cases (code == op_query || code == op_get_more)) [
        | inl q ↦ rw q (
            send-bytes marshal w _ s (answer_frame id op_reply (reply_text raw))
              (reply-bytes raw short id v))
        | inr q ↦ elim (Bool-cases (code == op_insert || code == op_update || code == op_delete)) [
          | inl i ↦
              let n = not_answered code i in rw (q, i, n.0, n.1) (sym (append-nil (w.received s)))
          | inr i ↦ elim (Bool-cases (code == op_command)) [
            | inl c ↦
                rw (q, i, c)
                  (send-bytes marshal w _ s
                    (answer_frame id op_command_reply (raw ++ simple_bson_empty.bson))
                    (command-bytes raw short id v))
            | inr c ↦ elim (Bool-cases (code == op_msg)) [
              | inl g ↦
                  rw (q, i, c, g)
                    (send-bytes marshal w _ s (answer_frame id op_msg (le32 0 ++ (0 ∷ raw)))
                      (message-bytes raw short id v))
              | inr g ↦ rw (q, i, c, g) tt
            ]
          ]
        ]
      ]

  -- For an error whose document the driver marshals to fewer than 2 ^ 30 bytes, and a message whose
  -- request id is an int32: `RespondWithError` ends without a panic. Where it gives no error it has sent,
  -- for OP_QUERY, OP_GET_MORE, OP_COMMAND and OP_MSG, exactly one message of the matching kind, which
  -- answers that request id with the document, and nothing for other messages.
  pub respond_with_error-Ensures :
      (e : Option Failure)
      → marshal (error_bson e) ≡ some raw
      → Ensures
          (SentMore w s (answer_bytes ((header m).op_code) ((header m).request_id) raw))
          (respond_with_error marshal w m e s)
  unfolding respond_with_error simple_bson_convert
  respond_with_error-Ensures e h =
      let converted : simple_bson_convert marshal w (error_bson e) ≡ ok (raw_bson raw) =
        rw (h, simple_bson_convert) refl in
      subst
        (λ c.
          Ensures (SentMore w s (answer_bytes ((header m).op_code) ((header m).request_id) raw))
            (c >>= λ doc. respond_with_document marshal w m doc s))
        (sym converted) respond_with_document-Ensures

-- The proxy has two functions that answer with an error. For the same error, and a message with the op
-- code of a query, a get-more, a command or an OP_MSG, `respondWithError` of proxy.go does what
-- `RespondWithError` of session.go does.
pub proxy_respond_with_error-respond_with_error :
    (marshal : Document → Option (List ℕ)) (w : Sink) (m : Message) (e : Option Failure)
    (s : w.Store)
    → (((header m).op_code ≡ op_query) ⊎ ((header m).op_code ≡ op_get_more))
      ⊎ (((header m).op_code ≡ op_command) ⊎ ((header m).op_code ≡ op_msg))
    → proxy_respond_with_error marshal w m e s ≡ respond_with_error marshal w m e s
unfolding respond_with_error proxy_respond_with_error respond_with_document
    proxy_respond_with_document
proxy_respond_with_error-respond_with_error marshal w m e s (inl (inl h)) = rw h refl
proxy_respond_with_error-respond_with_error marshal w m e s (inl (inr h)) = rw h refl
proxy_respond_with_error-respond_with_error marshal w m e s (inr (inl h)) = rw h refl
proxy_respond_with_error-respond_with_error marshal w m e s (inr (inr h)) = rw h refl
