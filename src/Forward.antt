-- ===== src/Forward.antt =====
-- What a proxy does to a message (proxy.go calls `ReadMessage` on one side and `SendMessage` on the
-- other): it parses the body that came in and serializes the message for the other side.
use mongonet.Base.{ℕ, ◌^◌, ◌<◌, ◌≡◌, refl, ◌∙◌, List, ◌++◌, All, drop, length, Outcome, ok}
use mongonet.Base.Errors.{Ensures, Ensures-mono}
use mongonet.Bytes.Layout.{le32}
use mongonet.Bytes.Read.{IsByte}
use mongonet.Wire.{MessageHeader}
use mongonet.Serialize.{
  serialize_insert, serialize_update, serialize_delete, serialize_query, serialize_get_more,
  serialize_kill_cursors, serialize_command, serialize_command_reply,
}
use mongonet.Serialize.Layout.{IsHeader, sized, frame}
use mongonet.Serialize.Writes.{
  update_body, delete_body, serialize_insert-frame, serialize_update-frame, serialize_delete-frame,
}
use mongonet.Serialize.Queries.{
  query_body, get_more_body, kill_cursors_body, serialize_query-frame, serialize_get_more-frame,
  serialize_kill_cursors-frame,
}
use mongonet.Serialize.Commands.{serialize_command-frame, serialize_command_reply-frame}
use mongonet.Parse.{
  parse_insert, parse_update, parse_delete, parse_query, parse_get_more, parse_kill_cursors,
  parse_command, parse_command_reply,
}
use mongonet.Parse.Writes.{
  IsParsedInsert, parse_insert-Ensures, IsParsedUpdate, parse_update-Ensures, IsParsedDelete,
  parse_delete-Ensures,
}
use mongonet.Parse.Queries.{
  IsParsedQuery, parse_query-Ensures, IsParsedGetMore, parse_get_more-Ensures,
}
use mongonet.Parse.Cursors.{IsParsedKillCursors, parse_kill_cursors-Ensures}
use mongonet.Parse.Commands.{
  IsParsedCommand, parse_command-Ensures, IsParsedCommandReply, parse_command_reply-Ensures,
}
use mongonet.Base.{◌+◌, arith, subst, sym, ap}
use mongonet.Base.Errors.{Ensures-ok}
use mongonet.Wire.{ReplyMessage}
use mongonet.Serialize.{serialize_reply}
use mongonet.Serialize.Queries.{reply_body, IsWhole, IsReply, texts-images, serialize_reply-frame}
use mongonet.Parse.{parse_reply}
use mongonet.Parse.Cursors.{IsParsedReply, parse_reply-Ensures}
use mongonet.Msg.{parse_message}
use mongonet.Msg.Serialize.{serialize_message}
use mongonet.Msg.Frame.{message_body, IsMessage, serialize_message-frame}
use mongonet.Msg.Texts.{IsResent}
use mongonet.Msg.Parsed.{IsParsedMessage, parse_message-Ensures}

-- The bytes that go out: the header with the length of `body`, and `body`.
abbrev pub SentAs : {M : Type 0} → (M → Outcome (List ℕ × M)) → MessageHeader → List ℕ → M → Type 0
SentAs {M} serialize h body m = (m' : M) × (serialize m ≡ ok (frame h body, m'))

-- The text that came in is `body`, with `reserved` for the four reserved bytes, and further bytes.
abbrev pub ReadFrom : List ℕ → List ℕ → ℕ → Type 0
ReadFrom buf body reserved = (rest : List ℕ) × (buf ≡ le32 reserved ++ (drop 4 body ++ rest))

sent :
    {M : Type 0} (serialize : M → Outcome (List ℕ × M)) (h h' : MessageHeader) (b b' : List ℕ)
    (m m' : M)
    → serialize m ≡ ok (frame h b, m')
    → h ≡ h'
    → b ≡ b'
    → SentAs serialize h' b' m
sent serialize h h' b b' m m' e p q = (m', e ∙ (λ i. ok (frame (p i) (q i), m')))

module _ (h : MessageHeader) (buf : List ℕ) (head : IsHeader h) (bytes : All IsByte buf)
    (short : length buf < 2 ^ 62) where
  -- For a body of bytes, shorter than 2 ^ 62, behind a header of int32s: `parseInsertMessage` neither
  -- panics nor loops, and a message that it gives is serialized to the same body again, behind that
  -- header with the whole length in it.
  pub forward_insert : Ensures (SentAs serialize_insert h buf) (parse_insert h buf)
  forward_insert =
      Ensures-mono (IsParsedInsert h buf) _ _
        (λ m p.
          sent serialize_insert _ h _ buf m _ (serialize_insert-frame m p.valid) p.head p.body)
        (parse_insert-Ensures h buf head bytes short)

  -- For a body of bytes, shorter than 2 ^ 62, behind a header of int32s: `parseUpdateMessage` neither
  -- panics nor loops. A message that it gives was read from the front of the body, and is serialized to
  -- the part read, with 0 for the reserved field, behind that header with the whole length in it.
  pub forward_update :
      Ensures
        (λ m. ReadFrom buf (update_body m) m.reserved × SentAs serialize_update h (update_body m) m)
        (parse_update h buf)
  forward_update =
      Ensures-mono (IsParsedUpdate h buf) _ _
        (λ m p. (
          p.body,
          sent serialize_update _ h (update_body m) _ m
              (record m { header = sized m.header (update_body m) })
              (serialize_update-frame m p.valid) p.head refl,
        ))
        (parse_update-Ensures h buf head bytes short)

  -- For a body of bytes, shorter than 2 ^ 62, behind a header of int32s: `parseDeleteMessage` neither
  -- panics nor loops. A message that it gives was read from the front of the body, and is serialized to
  -- the part read, with 0 for the reserved field, behind that header with the whole length in it.
  pub forward_delete :
      Ensures
        (λ m. ReadFrom buf (delete_body m) m.reserved × SentAs serialize_delete h (delete_body m) m)
        (parse_delete h buf)
  forward_delete =
      Ensures-mono (IsParsedDelete h buf) _ _
        (λ m p. (
          p.body,
          sent serialize_delete _ h (delete_body m) _ m
              (record m { header = sized m.header (delete_body m) })
              (serialize_delete-frame m p.valid) p.head refl,
        ))
        (parse_delete-Ensures h buf head bytes short)

  -- For a body of bytes, shorter than 2 ^ 62, behind a header of int32s: `parseQueryMessage` neither
  -- panics nor loops. A message that it gives was read from the front of the body, and is serialized to
  -- exactly the part read, behind that header with the whole length in it.
  pub forward_query :
      Ensures
        (λ m.
          ((rest : List ℕ) × (buf ≡ query_body m ++ rest))
          × SentAs serialize_query h (query_body m) m)
        (parse_query h buf)
  forward_query =
      Ensures-mono (IsParsedQuery h buf) _ _
        (λ m p. (
          p.body,
          sent serialize_query _ h (query_body m) _ m
              (record m { header = sized m.header (query_body m) })
              (serialize_query-frame m p.valid) p.head refl,
        ))
        (parse_query-Ensures h buf head bytes short)

  -- For a body of bytes, shorter than 2 ^ 62, behind a header of int32s: `parseGetMoreMessage` neither
  -- panics nor loops. A message that it gives was read from the front of the body, and is serialized to
  -- the part read, with 0 for the reserved field, behind that header with the whole length in it.
  pub forward_get_more :
      Ensures
        (λ m.
          ReadFrom buf (get_more_body m) m.reserved
          × SentAs serialize_get_more h (get_more_body m) m)
        (parse_get_more h buf)
  forward_get_more =
      Ensures-mono (IsParsedGetMore h buf) _ _
        (λ m p. (
          p.body,
          sent serialize_get_more _ h (get_more_body m) _ m
              (record m { header = sized m.header (get_more_body m) })
              (serialize_get_more-frame m p.valid) p.head refl,
        ))
        (parse_get_more-Ensures h buf head bytes short)

  -- For a body of bytes, shorter than 2 ^ 62, behind a header of int32s: `parseKillCursorsMessage`
  -- neither panics nor loops. A message that it gives was read from the front of the body, and is
  -- serialized to the part read, with 0 for the reserved field, behind that header with the whole
  -- length in it.
  pub forward_kill_cursors :
      Ensures
        (λ m.
          ReadFrom buf (kill_cursors_body m) m.reserved
          × SentAs serialize_kill_cursors h (kill_cursors_body m) m)
        (parse_kill_cursors h buf)
  forward_kill_cursors =
      Ensures-mono (IsParsedKillCursors h buf) _ _
        (λ m p. (
          p.body,
          sent serialize_kill_cursors _ h (kill_cursors_body m) _ m
              (record m { header = sized m.header (kill_cursors_body m) })
              (serialize_kill_cursors-frame m p.valid) p.head refl,
        ))
        (parse_kill_cursors-Ensures h buf head bytes short)

-- For a body shorter than 2 ^ 62, behind a header of int32s: `parseCommandMessage` neither panics nor
-- loops, and a message that it gives is serialized to the same body again, behind that header with the
-- whole length in it.
pub forward_command :
    (h : MessageHeader) (buf : List ℕ)
    → IsHeader h
    → length buf < 2 ^ 62
    → Ensures (SentAs serialize_command h buf) (parse_command h buf)
forward_command h buf head short =
    Ensures-mono (IsParsedCommand h buf) _ _
      (λ m p.
        sent serialize_command _ h _ buf m _ (serialize_command-frame m p.valid) p.head p.body)
      (parse_command-Ensures h buf head short)

-- For a body shorter than 2 ^ 62, behind a header of int32s: `parseCommandReplyMessage` neither panics
-- nor loops, and a message that it gives is serialized to the same body again, behind that header with
-- the whole length in it.
pub forward_command_reply :
    (h : MessageHeader) (buf : List ℕ)
    → IsHeader h
    → length buf < 2 ^ 62
    → Ensures (SentAs serialize_command_reply h buf) (parse_command_reply h buf)
forward_command_reply h buf head short =
    Ensures-mono (IsParsedCommandReply h buf) _ _
      (λ m p.
        sent serialize_command_reply _ h _ buf m _ (serialize_command_reply-frame m p.valid) p.head
          p.body)
      (parse_command_reply-Ensures h buf head short)

-- For a body of bytes, 16 fewer than 2 ^ 31 at most, behind a header of int32s: `parseMessageMessage`
-- neither panics nor loops. Where it gives a message the body was flags, sections in a row and fewer than five
-- bytes behind them, and the message is serialized, behind that header with the whole length in it, to those
-- flags without the checksum bit and those sections in the same order: each with the same kind, name and
-- documents, byte for byte, and the same size, but for a document sequence without documents, which gets its
-- proper size.
pub forward_message :
    (h : MessageHeader) (buf : List ℕ)
    → IsHeader h
    → All IsByte buf
    → 16 + length buf < 2 ^ 31
    → Ensures
        (λ m. IsResent buf (message_body m) × SentAs serialize_message h (message_body m) m)
        (parse_message h buf)
forward_message h buf head bytes short =
    Ensures-mono (IsParsedMessage h buf) _ _
      (λ m p.
        let valid : IsMessage m = record {
          head = subst IsHeader (sym p.head) head;
          flag_bits = p.flag_bits;
          sections = p.sections;
          fits = omega (arith, p.shorter);
        } in
        (
          record {
            flags = m.flag_bits;
            sections = m.sections;
            text = p.text;
            rest = p.rest;
            split = p.split;
            left = p.left;
            texts = p.texts;
            sent = refl;
            shorter = p.shorter;
          },
          sent serialize_message _ h (message_body m) _ m
              (record m { header = sized m.header (message_body m) })
              (serialize_message-frame m valid) p.head refl,
        ))
      (parse_message-Ensures h buf bytes (omega arith))

-- A reply that `parseReplyMessage` read from a body of bytes (shorter than 2 ^ 62, behind a header of
-- int32s), and whose documents have exactly the bytes that they count, is serialized to the same body
-- again, behind that header with the whole length in it.
pub forward_reply :
    (h : MessageHeader) (buf : List ℕ) (m : ReplyMessage)
    → IsHeader h
    → All IsByte buf
    → length buf < 2 ^ 62
    → parse_reply h buf ≡ ok m
    → All IsWhole m.docs
    → SentAs serialize_reply h buf m
forward_reply h buf m head bytes short e whole =
    let p =
      Ensures-ok (IsParsedReply h buf) (parse_reply h buf) m (parse_reply-Ensures h buf bytes short)
        e in
    let same : reply_body m ≡ buf = rw (texts-images m.docs whole) p.body in
    let valid : IsReply m = record {
      head = subst IsHeader (sym p.head) head;
      flags = p.flags;
      cursor_id = p.cursor_id;
      starting_from = p.starting_from;
      number_returned = p.number_returned;
      docs = whole;
      fits = omega (arith, ap length same);
    } in
    sent serialize_reply _ h (reply_body m) buf m
      (record m { header = sized m.header (reply_body m) }) (serialize_reply-frame m valid) p.head
      same
