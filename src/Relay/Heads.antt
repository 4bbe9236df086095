-- ===== src/Relay/Heads.antt =====
-- sock.go and the parsers: a message that `ReadMessage` gives has the header that was read.
use mongonet.Base.{ℕ, ◌^◌, ◌<◌, ◌≡◌, List, All, length, ok}
use mongonet.Base.Errors.{Ensures, Ensures-ok}
use mongonet.Bytes.Read.{IsByte}
use mongonet.Wire.{
  MessageHeader, ReplyMessage, UpdateMessage, InsertMessage, QueryMessage, GetMoreMessage,
  DeleteMessage, KillCursorsMessage, CommandMessage, CommandReplyMessage, MessageMessage, header,
}
use mongonet.Serialize.Layout.{IsHeader}
use mongonet.Parse.{
  parse_reply, parse_update, parse_insert, parse_query, parse_get_more, parse_delete,
  parse_kill_cursors, parse_command, parse_command_reply,
}
use mongonet.Parse.Writes.{
  IsParsedUpdate, parse_update-Ensures, IsParsedInsert, parse_insert-Ensures, IsParsedDelete,
  parse_delete-Ensures,
}
use mongonet.Parse.Queries.{
  IsParsedQuery, parse_query-Ensures, IsParsedGetMore, parse_get_more-Ensures,
}
use mongonet.Parse.Cursors.{
  IsParsedReply, parse_reply-Ensures, IsParsedKillCursors, parse_kill_cursors-Ensures,
}
use mongonet.Parse.Commands.{
  IsParsedCommand, parse_command-Ensures, IsParsedCommandReply, parse_command_reply-Ensures,
}
use mongonet.Msg.{parse_message}
use mongonet.Msg.Parsed.{IsParsedMessage, parse_message-Ensures}
use mongonet.Socket.{parse_body}
use mongonet.Socket.Body.{parse_body-Gives}

module _ (h : MessageHeader) (body : List ℕ) (v : IsHeader h) (bytes : All IsByte body)
    (short : length body < 2 ^ 62) where
  pub reply-head : (m : ReplyMessage) → parse_reply h body ≡ ok m → m.header ≡ h
  reply-head m q =
      (Ensures-ok (IsParsedReply h body) (parse_reply h body) m
        (parse_reply-Ensures h body bytes short) q).head

  pub update-head : (m : UpdateMessage) → parse_update h body ≡ ok m → m.header ≡ h
  update-head m q =
      (Ensures-ok (IsParsedUpdate h body) (parse_update h body) m
        (parse_update-Ensures h body v bytes short) q).head

  pub insert-head : (m : InsertMessage) → parse_insert h body ≡ ok m → m.header ≡ h
  insert-head m q =
      (Ensures-ok (IsParsedInsert h body) (parse_insert h body) m
        (parse_insert-Ensures h body v bytes short) q).head

  pub query-head : (m : QueryMessage) → parse_query h body ≡ ok m → m.header ≡ h
  query-head m q =
      (Ensures-ok (IsParsedQuery h body) (parse_query h body) m
        (parse_query-Ensures h body v bytes short) q).head

  pub get_more-head : (m : GetMoreMessage) → parse_get_more h body ≡ ok m → m.header ≡ h
  get_more-head m q =
      (Ensures-ok (IsParsedGetMore h body) (parse_get_more h body) m
        (parse_get_more-Ensures h body v bytes short) q).head

  pub delete-head : (m : DeleteMessage) → parse_delete h body ≡ ok m → m.header ≡ h
  delete-head m q =
      (Ensures-ok (IsParsedDelete h body) (parse_delete h body) m
        (parse_delete-Ensures h body v bytes short) q).head

  pub kill_cursors-head : (m : KillCursorsMessage) → parse_kill_cursors h body ≡ ok m → m.header ≡ h
  kill_cursors-head m q =
      (Ensures-ok (IsParsedKillCursors h body) (parse_kill_cursors h body) m
        (parse_kill_cursors-Ensures h body v bytes short) q).head

  pub command-head : (m : CommandMessage) → parse_command h body ≡ ok m → m.header ≡ h
  command-head m q =
      (Ensures-ok (IsParsedCommand h body) (parse_command h body) m
        (parse_command-Ensures h body v short) q).head

  pub command_reply-head :
      (m : CommandReplyMessage) → parse_command_reply h body ≡ ok m → m.header ≡ h
  command_reply-head m q =
      (Ensures-ok (IsParsedCommandReply h body) (parse_command_reply h body) m
        (parse_command_reply-Ensures h body v short) q).head

  pub message-head : (m : MessageMessage) → parse_message h body ≡ ok m → m.header ≡ h
  message-head m q =
      (Ensures-ok (IsParsedMessage h body) (parse_message h body) m
        (parse_message-Ensures h body bytes short) q).head

  -- A message that `ReadMessage` gives has the header that was read.
  pub parse_body-head : Ensures (λ m. header m ≡ h) (parse_body h body)
  unfolding header
  parse_body-head =
      parse_body-Gives h body v bytes short (λ m. header m ≡ h)
        (record {
          reply = λ m e q. reply-head m q;
          update = λ m e q. update-head m q;
          insert = λ m e q. insert-head m q;
          query = λ m e q. query-head m q;
          get_more = λ m e q. get_more-head m q;
          delete = λ m e q. delete-head m q;
          kill_cursors = λ m e q. kill_cursors-head m q;
          command = λ m e q. command-head m q;
          command_reply = λ m e q. command_reply-head m q;
          message = λ m e q. message-head m q;
        })
