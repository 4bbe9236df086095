-- ===== src/Socket/Body.antt =====
-- sock.go: `switch header.OpCode`, kind by kind.
use mongonet.Base.{ℕ, ◌^◌, ◌<◌, ◌≡◌, refl, List, ◌==◌, ==_iff, All, length, Outcome, ok}
use mongonet.Base.Errors.{Ensures, Ensures-if}
use mongonet.Bytes.Read.{IsByte}
use mongonet.Wire.{
  ReplyMessage, UpdateMessage, InsertMessage, QueryMessage, GetMoreMessage, DeleteMessage,
  KillCursorsMessage, CommandMessage, CommandReplyMessage, MessageMessage, MessageHeader, Message,
  op_reply, op_update, op_insert, op_query, op_get_more, op_delete, op_kill_cursors, op_command,
  op_command_reply, op_msg,
}
use mongonet.Msg.{parse_message}
use mongonet.Serialize.Layout.{IsHeader}
use mongonet.Parse.{
  parse_query, parse_update, parse_delete, parse_get_more, parse_insert, parse_kill_cursors,
  parse_reply, parse_command, parse_command_reply,
}
use mongonet.Parse.Writes.{
  IsParsedInsert, parse_insert-Ensures, IsParsedUpdate, parse_update-Ensures, IsParsedDelete,
  parse_delete-Ensures,
}
use mongonet.Parse.Queries.{
  IsParsedQuery, parse_query-Ensures, IsParsedGetMore, parse_get_more-Ensures,
}
use mongonet.Parse.Cursors.{
  IsParsedKillCursors, parse_kill_cursors-Ensures, IsParsedReply, parse_reply-Ensures,
}
use mongonet.Parse.Commands.{
  IsParsedCommand, parse_command-Ensures, IsParsedCommandReply, parse_command_reply-Ensures,
}
use mongonet.Msg.Parsed.{IsParsedMessage, parse_message-Ensures}
use mongonet.Socket.{map_ok, parse_body}

-- What each parser gives has `Q`, as a message.
pub record Parses (h : MessageHeader) (body : List ℕ) (Q : Message → Type 0) : Type 0 where
  pub reply :
      (m : ReplyMessage) → h.op_code ≡ op_reply → parse_reply h body ≡ ok m → Q (Message.reply m)
  pub update :
      (m : UpdateMessage)
      → h.op_code ≡ op_update
      → parse_update h body ≡ ok m
      → Q (Message.update m)
  pub insert :
      (m : InsertMessage)
      → h.op_code ≡ op_insert
      → parse_insert h body ≡ ok m
      → Q (Message.insert m)
  pub query :
      (m : QueryMessage) → h.op_code ≡ op_query → parse_query h body ≡ ok m → Q (Message.query m)
  pub get_more :
      (m : GetMoreMessage)
      → h.op_code ≡ op_get_more
      → parse_get_more h body ≡ ok m
      → Q (Message.get_more m)
  pub delete :
      (m : DeleteMessage)
      → h.op_code ≡ op_delete
      → parse_delete h body ≡ ok m
      → Q (Message.delete m)
  pub kill_cursors :
      (m : KillCursorsMessage)
      → h.op_code ≡ op_kill_cursors
      → parse_kill_cursors h body ≡ ok m
      → Q (Message.kill_cursors m)
  pub command :
      (m : CommandMessage)
      → h.op_code ≡ op_command
      → parse_command h body ≡ ok m
      → Q (Message.command m)
  pub command_reply :
      (m : CommandReplyMessage)
      → h.op_code ≡ op_command_reply
      → parse_command_reply h body ≡ ok m
      → Q (Message.command_reply m)
  pub message :
      (m : MessageMessage)
      → h.op_code ≡ op_msg
      → parse_message h body ≡ ok m
      → Q (Message.message m)

map_ok-Gives :
    {A B : Type 0} (P : A → Type 0) (Q : B → Type 0) (f : A → B) (m : Outcome A)
    → Ensures P m
    → ((a : A) → m ≡ ok a → Q (f a))
    → Ensures Q (map_ok f m)
map_ok-Gives P Q f (ok a) h k = k a refl
map_ok-Gives P Q f (Outcome.err e) h k = tt
map_ok-Gives P Q f Outcome.panic h k = h
map_ok-Gives P Q f Outcome.hang h k = h

module _ (h : MessageHeader) (body : List ℕ) (v : IsHeader h) (bytes : All IsByte body)
    (short : length body < 2 ^ 62) where
  pub parse_body-Gives : (Q : Message → Type 0) → Parses h body Q → Ensures Q (parse_body h body)
  unfolding parse_body
  parse_body-Gives Q p =
      Ensures-if Q (h.op_code == op_reply) _ _
        (λ e.
          map_ok-Gives (IsParsedReply h body) Q Message.reply (parse_reply h body)
            (parse_reply-Ensures h body bytes short) (λ m q. p.reply m ((==_iff _ _).0 e) q))
        (λ _.
          Ensures-if Q (h.op_code == op_update) _ _
            (λ e.
              map_ok-Gives (IsParsedUpdate h body) Q Message.update (parse_update h body)
                (parse_update-Ensures h body v bytes short)
                (λ m q. p.update m ((==_iff _ _).0 e) q))
            (λ _.
              Ensures-if Q (h.op_code == op_insert) _ _
                (λ e.
                  map_ok-Gives (IsParsedInsert h body) Q Message.insert (parse_insert h body)
                    (parse_insert-Ensures h body v bytes short)
                    (λ m q. p.insert m ((==_iff _ _).0 e) q))
                (λ _.
                  Ensures-if Q (h.op_code == op_query) _ _
                    (λ e.
                      map_ok-Gives (IsParsedQuery h body) Q Message.query (parse_query h body)
                        (parse_query-Ensures h body v bytes short)
                        (λ m q. p.query m ((==_iff _ _).0 e) q))
                    (λ _.
                      Ensures-if Q (h.op_code == op_get_more) _ _
                        (λ e.
                          map_ok-Gives (IsParsedGetMore h body) Q Message.get_more
                            (parse_get_more h body) (parse_get_more-Ensures h body v bytes short)
                            (λ m q. p.get_more m ((==_iff _ _).0 e) q))
                        (λ _.
                          Ensures-if Q (h.op_code == op_delete) _ _
                            (λ e.
                              map_ok-Gives (IsParsedDelete h body) Q Message.delete
                                (parse_delete h body) (parse_delete-Ensures h body v bytes short)
                                (λ m q. p.delete m ((==_iff _ _).0 e) q))
                            (λ _.
                              Ensures-if Q (h.op_code == op_kill_cursors) _ _
                                (λ e.
                                  map_ok-Gives (IsParsedKillCursors h body) Q Message.kill_cursors
                                    (parse_kill_cursors h body)
                                    (parse_kill_cursors-Ensures h body v bytes short)
                                    (λ m q. p.kill_cursors m ((==_iff _ _).0 e) q))
                                (λ _.
                                  Ensures-if Q (h.op_code == op_command) _ _
                                    (λ e.
                                      map_ok-Gives (IsParsedCommand h body) Q Message.command
                                        (parse_command h body)
                                        (parse_command-Ensures h body v short)
                                        (λ m q. p.command m ((==_iff _ _).0 e) q))
                                    (λ _.
                                      Ensures-if Q (h.op_code == op_command_reply) _ _
                                        (λ e.
                                          map_ok-Gives (IsParsedCommandReply h body) Q
                                            Message.command_reply (parse_command_reply h body)
                                            (parse_command_reply-Ensures h body v short)
                                            (λ m q. p.command_reply m ((==_iff _ _).0 e) q))
                                        (λ _.
                                          Ensures-if Q (h.op_code == op_msg) _ _
                                            (λ e.
                                              map_ok-Gives (IsParsedMessage h body) Q
                                                Message.message (parse_message h body)
                                                (parse_message-Ensures h body bytes short)
                                                (λ m q. p.message m ((==_iff _ _).0 e) q))
                                            (λ _. tt))))))))))
