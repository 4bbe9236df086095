-- ===== src/Relay/Kinds.antt =====
-- sock.go, the parsers and `Serialize`: a message of each kind that is read and sent on.
use mongonet.Base.{ℕ, ◌+◌, ◌^◌, ◌<◌, ◌≡◌, inl, inr, refl, List, ◌++◌, All, drop, length, arith, ok}
use mongonet.Base.Errors.{Ensures, Ensures-ok}
use mongonet.Bytes.Read.{IsByte}
use mongonet.Wire.{
  MessageHeader, Message, UpdateMessage, InsertMessage, QueryMessage, GetMoreMessage, DeleteMessage,
  KillCursorsMessage, CommandMessage, CommandReplyMessage, MessageMessage, header, op_update,
  op_insert, op_query, op_get_more, op_delete, op_kill_cursors, op_command, op_command_reply,
  op_msg,
}
use mongonet.Serialize.{
  serialize_insert, serialize_update, serialize_delete, serialize_query, serialize_get_more,
  serialize_kill_cursors, serialize_command, serialize_command_reply,
}
use mongonet.Serialize.Layout.{IsHeader}
use mongonet.Serialize.Writes.{update_body, delete_body}
use mongonet.Serialize.Queries.{query_body, get_more_body, kill_cursors_body}
use mongonet.Parse.{
  parse_insert, parse_update, parse_delete, parse_query, parse_get_more, parse_kill_cursors,
  parse_command, parse_command_reply,
}
use mongonet.Msg.{parse_message}
use mongonet.Msg.Serialize.{serialize_message}
use mongonet.Msg.Texts.{IsResent}
use mongonet.Msg.Frame.{message_body}
use mongonet.Socket.{parse_body, serialize}
use mongonet.Socket.Body.{parse_body-Gives}
use mongonet.Forward.{
  SentAs, ReadFrom, forward_insert, forward_update, forward_delete, forward_query, forward_get_more,
  forward_kill_cursors, forward_command, forward_command_reply, forward_message,
}
use mongonet.Relay.{Kept, Relays, passed_on}
use mongonet.Relay.Heads.{
  reply-head, update-head, insert-head, query-head, get_more-head, delete-head, kill_cursors-head,
  command-head, command_reply-head, message-head,
}

module _ (h : MessageHeader) (body : List ℕ) (v : IsHeader h) (bytes : All IsByte body)
    (short : 16 + length body < 2 ^ 31) where
  insert-Relays :
      (m : InsertMessage)
      → h.op_code ≡ op_insert
      → parse_insert h body ≡ ok m
      → Relays h body (Message.insert m)
  unfolding serialize header
  insert-Relays m e q =
      let f =
        Ensures-ok (SentAs serialize_insert h body) (parse_insert h body) m
          (forward_insert h body v bytes (omega arith)) q in
      passed_on Message.insert serialize_insert h body body m
        (insert-head h body v bytes (omega arith) m q) refl f (Kept.whole (inl e) refl)

  update-Relays :
      (m : UpdateMessage)
      → h.op_code ≡ op_update
      → parse_update h body ≡ ok m
      → Relays h body (Message.update m)
  unfolding serialize header
  update-Relays m e q =
      let f =
        Ensures-ok
          (λ m.
            ReadFrom body (update_body m) m.reserved × SentAs serialize_update h (update_body m) m)
          (parse_update h body) m (forward_update h body v bytes (omega arith)) q in
      passed_on Message.update serialize_update h body (update_body m) m
        (update-head h body v bytes (omega arith) m q) refl f.1
        (Kept.cleared m.reserved (drop 4 (update_body m)) f.0.0 (inl (inl e)) f.0.1 refl)

  delete-Relays :
      (m : DeleteMessage)
      → h.op_code ≡ op_delete
      → parse_delete h body ≡ ok m
      → Relays h body (Message.delete m)
  unfolding serialize header
  delete-Relays m e q =
      let f =
        Ensures-ok
          (λ m.
            ReadFrom body (delete_body m) m.reserved × SentAs serialize_delete h (delete_body m) m)
          (parse_delete h body) m (forward_delete h body v bytes (omega arith)) q in
      passed_on Message.delete serialize_delete h body (delete_body m) m
        (delete-head h body v bytes (omega arith) m q) refl f.1
        (Kept.cleared m.reserved (drop 4 (delete_body m)) f.0.0 (inl (inr e)) f.0.1 refl)

  query-Relays :
      (m : QueryMessage)
      → h.op_code ≡ op_query
      → parse_query h body ≡ ok m
      → Relays h body (Message.query m)
  unfolding serialize header
  query-Relays m e q =
      let f =
        Ensures-ok
          (λ m.
            ((rest : List ℕ) × (body ≡ query_body m ++ rest))
            × SentAs serialize_query h (query_body m) m)
          (parse_query h body) m (forward_query h body v bytes (omega arith)) q in
      passed_on Message.query serialize_query h body (query_body m) m
        (query-head h body v bytes (omega arith) m q) refl f.1 (Kept.front f.0.0 e f.0.1)

  get_more-Relays :
      (m : GetMoreMessage)
      → h.op_code ≡ op_get_more
      → parse_get_more h body ≡ ok m
      → Relays h body (Message.get_more m)
  unfolding serialize header
  get_more-Relays m e q =
      let f =
        Ensures-ok
          (λ m.
            ReadFrom body (get_more_body m) m.reserved
            × SentAs serialize_get_more h (get_more_body m) m)
          (parse_get_more h body) m (forward_get_more h body v bytes (omega arith)) q in
      passed_on Message.get_more serialize_get_more h body (get_more_body m) m
        (get_more-head h body v bytes (omega arith) m q) refl f.1
        (Kept.cleared m.reserved (drop 4 (get_more_body m)) f.0.0 (inr (inl e)) f.0.1 refl)

  kill_cursors-Relays :
      (m : KillCursorsMessage)
      → h.op_code ≡ op_kill_cursors
      → parse_kill_cursors h body ≡ ok m
      → Relays h body (Message.kill_cursors m)
  unfolding serialize header
  kill_cursors-Relays m e q =
      let f =
        Ensures-ok
          (λ m.
            ReadFrom body (kill_cursors_body m) m.reserved
            × SentAs serialize_kill_cursors h (kill_cursors_body m) m)
          (parse_kill_cursors h body) m (forward_kill_cursors h body v bytes (omega arith)) q in
      passed_on Message.kill_cursors serialize_kill_cursors h body (kill_cursors_body m) m
        (kill_cursors-head h body v bytes (omega arith) m q) refl f.1
        (Kept.cleared m.reserved (drop 4 (kill_cursors_body m)) f.0.0 (inr (inr e)) f.0.1 refl)

  command-Relays :
      (m : CommandMessage)
      → h.op_code ≡ op_command
      → parse_command h body ≡ ok m
      → Relays h body (Message.command m)
  unfolding serialize header
  command-Relays m e q =
      let f =
        Ensures-ok (SentAs serialize_command h body) (parse_command h body) m
          (forward_command h body v (omega arith)) q in
      passed_on Message.command serialize_command h body body m
        (command-head h body v bytes (omega arith) m q) refl f (Kept.whole (inr (inl e)) refl)

  command_reply-Relays :
      (m : CommandReplyMessage)
      → h.op_code ≡ op_command_reply
      → parse_command_reply h body ≡ ok m
      → Relays h body (Message.command_reply m)
  unfolding serialize header
  command_reply-Relays m e q =
      let f =
        Ensures-ok (SentAs serialize_command_reply h body) (parse_command_reply h body) m
          (forward_command_reply h body v (omega arith)) q in
      passed_on Message.command_reply serialize_command_reply h body body m
        (command_reply-head h body v bytes (omega arith) m q) refl f (Kept.whole (inr (inr e)) refl)

  message-Relays :
      (m : MessageMessage)
      → h.op_code ≡ op_msg
      → parse_message h body ≡ ok m
      → Relays h body (Message.message m)
  unfolding serialize header
  message-Relays m e q =
      let f =
        Ensures-ok
          (λ m. IsResent body (message_body m) × SentAs serialize_message h (message_body m) m)
          (parse_message h body) m (forward_message h body v bytes short) q in
      passed_on Message.message serialize_message h body (message_body m) m
        (message-head h body v bytes (omega arith) m q) refl f.1 (Kept.sections e f.0)

  -- For a body of bytes behind a header of int32s, fewer than 2 ^ 31 bytes together: `ReadMessage` parses the
  -- body without a panic, by its op code. A message that it gives has that header, and unless it is an
  -- OP_REPLY, `SendMessage` puts it on the wire behind the same header, with its whole length there: an
  -- insert, a command or its reply as it came in, a query without what stood behind it, an update, a
  -- delete, a get-more or a kill-cursors with 0 for the reserved field and without what stood behind it,
  -- and an OP_MSG with the same sections in the same order, without the checksum bit and without the up to
  -- four bytes that stood behind them, in no more bytes.
  pub parse_body-Relays : Ensures (Relays h body) (parse_body h body)
  unfolding header
  parse_body-Relays = parse_body-Gives h body v bytes (omega arith) (Relays h body) (record {
    reply = λ m e q. Relays.replies e (reply-head h body v bytes (omega arith) m q);
    update = update-Relays;
    insert = insert-Relays;
    query = query-Relays;
    get_more = get_more-Relays;
    delete = delete-Relays;
    kill_cursors = kill_cursors-Relays;
    command = command-Relays;
    command_reply = command_reply-Relays;
    message = message-Relays;
  })
