-- ===== src/Respond/Reading.antt =====
-- session.go and sock.go: the client reads the answer that the proxy gave.
use mongonet.Base.{
  ℕ, ◌+◌, ◌-◌, ◌*◌, ◌≤◌, ◌≡◌, ◌⊎◌, inl, inr, refl, sym, ap, subst, ◌∙◌, List, [], ◌∷◌, ◌++◌,
  append-nil, take, drop, length, length-append, arith, ok,
}
use mongonet.Base.Errors.{◌>>=◌}
use mongonet.Bytes.Layout.{le32}
use mongonet.Bson.{simple_bson_empty}
use mongonet.Bson.Parse.{IsDoc}
use mongonet.Bson.Write.{image}
use mongonet.Bson.Docs.{IsDoc-image}
use mongonet.Wire.{
  Message, ReplyMessage, CommandReplyMessage, MessageMessage, Section, op_query, op_get_more,
  op_command, op_reply, op_command_reply, op_msg,
}
use mongonet.Serialize.Layout.{IsInt32, sized}
use mongonet.Serialize.Queries.{reply_body}
use mongonet.Serialize.Commands.{command_reply_body}
use mongonet.Parse.{parse_reply, parse_command_reply}
use mongonet.Msg.{parse_message}
use mongonet.Msg.Frame.{message_body}
use mongonet.RoundTrip.Replies.{parse_reply-reply_body, parse_command_reply-command_reply_body}
use mongonet.RoundTrip.Message.{parse_message-message_body}
use mongonet.Socket.ReadResult.{got}
use mongonet.Socket.{Reader, map_ok, parse_body, read_message}
use mongonet.Socket.Deliver.{Delivers, read_message-frame}
use mongonet.Respond.{answer_header, answer_reply, answer_command, answer_message}
use mongonet.Respond.Answers.{answer_frame, answer_frame_lem, reply_text, answer_bytes, raw_bson}

-- What a client of each kind reads: one document, in the message that answers its request id.
pub data IsRead (code id : ℕ) (raw : List ℕ) (m : Message) : Type 0 where
  reply :
      (code ≡ op_query) ⊎ (code ≡ op_get_more)
      → (r : ReplyMessage) → m ≡ Message.reply r
      → r.header.response_to ≡ id
      → r.flags ≡ 0
      → r.docs ≡ raw_bson raw ∷ []
      → IsRead code id raw m
  command_reply :
      code ≡ op_command
      → (r : CommandReplyMessage) → m ≡ Message.command_reply r
      → r.header.response_to ≡ id
      → r.command_reply ≡ raw_bson raw
      → r.output_docs ≡ []
      → IsRead code id raw m
  message :
      code ≡ op_msg
      → (r : MessageMessage) → m ≡ Message.message r
      → r.header.response_to ≡ id
      → r.sections ≡ Section.body (raw_bson raw) ∷ []
      → IsRead code id raw m

simple_bson_empty-IsDoc : IsDoc simple_bson_empty
simple_bson_empty-IsDoc = record {
  positive = omega arith;
  bounded = omega arith;
  whole = refl;
  headed = (0 ∷ [], refl);
}

module _ (r : Reader) (id : ℕ) (raw : List ℕ) (s s1 s2 : r.Source) (v : IsInt32 id)
    (doc : IsDoc (raw_bson raw)) where
  -- A message that is read from a frame.
  read_message-answer_frame :
      (code : ℕ) (body : List ℕ) (m : Message)
      → IsInt32 code
      → 16 + length body ≤ 200 * 1024 * 1024
      → parse_body (sized (answer_header id code) body) body ≡ ok m
      → r.read s 4 ≡ got (take 4 (answer_frame id code body)) s1
      → Delivers r
          (length (answer_frame id code body) - 4)
          s1
          (drop 4 (answer_frame id code body))
          s2
      → read_message r s ≡ ok (m, s2)
  read_message-answer_frame code body m c u e g d =
      let h = answer_header id code in
      let same = answer_frame_lem id code body (omega arith) in
      let missing : length (answer_frame id code body) - 4 ≡ 12 + length body = omega arith in
      read_message-frame r h body s s1 s2 (record { request = omega arith; response = v; code = c })
        u (subst (λ b. r.read s 4 ≡ got (take 4 b) s1) (sym same) g)
        (subst (λ b. Delivers r (12 + length body) s1 (drop 4 b) s2) (sym same)
          (subst (λ n. Delivers r n s1 (drop 4 (answer_frame id code body)) s2) missing d))
      ∙ ap (λ o. o >>= λ x. ok (x, s2)) e

  as_frame_g :
      {bytes bytes' : List ℕ}
      → bytes ≡ bytes'
      → r.read s 4 ≡ got (take 4 bytes) s1
      → r.read s 4 ≡ got (take 4 bytes') s1
  as_frame_g e g = subst (λ b. r.read s 4 ≡ got (take 4 b) s1) e g

  as_frame_d :
      {bytes bytes' : List ℕ}
      → bytes ≡ bytes'
      → Delivers r (length bytes - 4) s1 (drop 4 bytes) s2
      → Delivers r (length bytes' - 4) s1 (drop 4 bytes') s2
  as_frame_d e d = subst (λ b. Delivers r (length b - 4) s1 (drop 4 b) s2) e d

  -- The documents' bytes, and how many there are.
  raw-image : image (raw_bson raw) ≡ raw
  raw-image = IsDoc-image (raw_bson raw) doc

  raw-short : length raw ≤ 128 * 1024 * 1024
  raw-short = omega (arith, doc.whole, doc.bounded)

  parse_body-reply :
      parse_body (sized (answer_header id op_reply) (reply_text raw)) (reply_text raw)
      ≡ ok (
          Message.reply (record (answer_reply id (raw_bson raw)) {
            header = sized (answer_header id op_reply) (reply_text raw);
          }))
  unfolding parse_body
  parse_body-reply =
      let m = answer_reply id (raw_bson raw) in
      let h = sized (answer_header id op_reply) (reply_text raw) in
      let same : reply_body m ≡ reply_text raw = ap (λ t. reply_text t) (append-nil raw) in
      ap (map_ok Message.reply) (
        ap (parse_reply h) (sym same)
        ∙ parse_reply-reply_body h m (omega arith) (omega arith) (omega arith) (omega arith)
            (doc, tt) (omega (arith, ap length same, raw-short)))

  parse_body-command_reply :
      parse_body
        (sized (answer_header id op_command_reply) (raw ++ simple_bson_empty.bson))
        (raw ++ simple_bson_empty.bson)
      ≡ ok (
          Message.command_reply (record (answer_command id (raw_bson raw)) {
            header = sized (answer_header id op_command_reply) (raw ++ simple_bson_empty.bson);
          }))
  unfolding parse_body
  parse_body-command_reply =
      let m = answer_command id (raw_bson raw) in
      let text = raw ++ simple_bson_empty.bson in
      let h = sized (answer_header id op_command_reply) text in
      let same : command_reply_body m ≡ text = ap (λ t. t ++ simple_bson_empty.bson) raw-image in
      ap (map_ok Message.command_reply) (
        ap (parse_command_reply h) (sym same)
        ∙ parse_command_reply-command_reply_body h m doc simple_bson_empty-IsDoc tt
            (omega (arith, ap length same, raw-short, length-append raw simple_bson_empty.bson)))

  parse_body-message :
      parse_body (sized (answer_header id op_msg) (le32 0 ++ (0 ∷ raw))) (le32 0 ++ (0 ∷ raw))
      ≡ ok (
          Message.message (record (answer_message id (raw_bson raw)) {
            header = sized (answer_header id op_msg) (le32 0 ++ (0 ∷ raw));
          }))
  unfolding parse_body
  parse_body-message =
      let m = answer_message id (raw_bson raw) in
      let text = le32 0 ++ (0 ∷ raw) in
      let h = sized (answer_header id op_msg) text in
      let same : message_body m ≡ text =
        ap (λ t. le32 0 ++ (0 ∷ t)) (append-nil (image (raw_bson raw)) ∙ raw-image) in
      ap (map_ok Message.message) (
        ap (parse_message h) (sym same)
        ∙ parse_message-message_body h m (omega arith) (doc, tt)
            (omega (arith, ap length same, raw-short)))

  -- A client with an int32 request id has been sent the answer with a document (which starts with its own
  -- length, of at most 128 MB) to a message with the op code of OP_QUERY, OP_GET_MORE, OP_COMMAND or OP_MSG.
  -- Where its connection gives these bytes, the first four in one read and the others in pieces of any size,
  -- `ReadMessage` gives one message, of the kind that answers such a message, for that request id and with
  -- that document alone.
  pub read_message-answer_bytes :
      (code : ℕ)
      → ((code ≡ op_query) ⊎ (code ≡ op_get_more)) ⊎ ((code ≡ op_command) ⊎ (code ≡ op_msg))
      → r.read s 4 ≡ got (take 4 (answer_bytes code id raw)) s1
      → Delivers r (length (answer_bytes code id raw) - 4) s1 (drop 4 (answer_bytes code id raw)) s2
      → (m : Message) × (read_message r s ≡ ok (m, s2)) × IsRead code id raw m
  read_message-answer_bytes code (inl q) g d =
      let same : answer_bytes code id raw ≡ answer_frame id op_reply (reply_text raw) = replies q in
      (
        _,
        read_message-answer_frame op_reply (reply_text raw) _ (omega arith)
            (omega (arith, raw-short)) parse_body-reply (as_frame_g same g) (as_frame_d same d),
        IsRead.reply q _ refl refl refl refl,
      )
    where
      replies :
          (code ≡ op_query) ⊎ (code ≡ op_get_more)
          → answer_bytes code id raw ≡ answer_frame id op_reply (reply_text raw)
      replies (inl e) = rw e refl
      replies (inr e) = rw e refl
  read_message-answer_bytes code (inr (inl e)) g d =
      let text = raw ++ simple_bson_empty.bson in
      let same : answer_bytes code id raw ≡ answer_frame id op_command_reply text = rw e refl in
      (
        _,
        read_message-answer_frame op_command_reply text _ (omega arith)
            (omega (arith, raw-short, length-append raw simple_bson_empty.bson))
            parse_body-command_reply (as_frame_g same g) (as_frame_d same d),
        IsRead.command_reply e _ refl refl refl refl,
      )
  read_message-answer_bytes code (inr (inr e)) g d =
      let text = le32 0 ++ (0 ∷ raw) in
      let same : answer_bytes code id raw ≡ answer_frame id op_msg text = rw e refl in
      (
        _,
        read_message-answer_frame op_msg text _ (omega arith) (omega (arith, raw-short))
            parse_body-message (as_frame_g same g) (as_frame_d same d),
        IsRead.message e _ refl refl refl,
      )
