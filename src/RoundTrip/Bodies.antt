-- ===== src/RoundTrip/Bodies.antt =====
-- sock.go and the parsers: the body of any message is parsed again.
use mongonet.Base.{◌+◌, ◌*◌, ◌≤◌, ◌≡◌, refl, ap, ◌∙◌, length, arith, ok}
use mongonet.Wire.{MessageHeader, Message, header}
use mongonet.Serialize.Layout.{length-cursors_image}
use mongonet.Serialize.Writes.{insert_body, update_body, delete_body}
use mongonet.Serialize.Queries.{query_body, get_more_body, kill_cursors_body, reply_body}
use mongonet.Serialize.Commands.{command_body, command_reply_body}
use mongonet.Parse.{
  parse_reply, parse_update, parse_query, parse_get_more, parse_insert, parse_delete,
  parse_kill_cursors, parse_command, parse_command_reply,
}
use mongonet.Msg.{parse_message}
use mongonet.Msg.Frame.{message_body}
use mongonet.RoundTrip.Legacy.{parse_insert-insert_body}
use mongonet.RoundTrip.Replies.{parse_reply-reply_body, parse_command_reply-command_reply_body}
use mongonet.RoundTrip.Queries.{
  parse_query-query_body, parse_get_more-get_more_body, parse_kill_cursors-kill_cursors_body,
}
use mongonet.RoundTrip.Writes.{parse_update-update_body, parse_delete-delete_body}
use mongonet.RoundTrip.Commands.{parse_command-command_body}
use mongonet.RoundTrip.Message.{parse_message-message_body}
use mongonet.Socket.{map_ok, parse_body}
use mongonet.RoundTrip.Fields.{wire_body, HasFields, as_read}

-- The body is parsed to the message again.
pub parse_body-wire_body :
    (m : Message) (h : MessageHeader)
    → HasFields m
    → h.op_code ≡ (header m).op_code
    → 16 + length (wire_body m) ≤ 200 * 1024 * 1024
    → parse_body h (wire_body m) ≡ ok (as_read h m)
unfolding parse_body header
parse_body-wire_body (Message.reply m) h (c, f, i, s, n, d) e u =
    let kind : parse_body h (reply_body m) ≡ map_ok Message.reply (parse_reply h (reply_body m)) =
      rw (e ∙ c) refl in
    kind ∙ ap (map_ok Message.reply) (parse_reply-reply_body h m f i s n d (omega arith))
parse_body-wire_body (Message.update m) h (c, n, f, d, d2) e u =
    let kind : parse_body h (update_body m)
        ≡ map_ok Message.update (parse_update h (update_body m)) =
      rw (e ∙ c) refl in
    kind ∙ ap (map_ok Message.update) (parse_update-update_body h m n f d d2 (omega arith))
parse_body-wire_body (Message.query m) h (c, f, n, k, r, d, p) e u =
    let kind : parse_body h (query_body m) ≡ map_ok Message.query (parse_query h (query_body m)) =
      rw (e ∙ c) refl in
    kind ∙ ap (map_ok Message.query) (parse_query-query_body h m f n k r d p (omega arith))
parse_body-wire_body (Message.get_more m) h (c, n, r, i) e u =
    let kind : parse_body h (get_more_body m)
        ≡ map_ok Message.get_more (parse_get_more h (get_more_body m)) =
      rw (e ∙ c) refl in
    kind ∙ ap (map_ok Message.get_more) (parse_get_more-get_more_body h m n r i (omega arith))
parse_body-wire_body (Message.insert m) h (c, f, n, d) e u =
    let kind : parse_body h (insert_body m)
        ≡ map_ok Message.insert (parse_insert h (insert_body m)) =
      rw (e ∙ c) refl in
    kind ∙ ap (map_ok Message.insert) (parse_insert-insert_body h m f n d (omega arith))
parse_body-wire_body (Message.delete m) h (c, n, f, d) e u =
    let kind : parse_body h (delete_body m)
        ≡ map_ok Message.delete (parse_delete h (delete_body m)) =
      rw (e ∙ c) refl in
    kind ∙ ap (map_ok Message.delete) (parse_delete-delete_body h m n f d (omega arith))
parse_body-wire_body (Message.kill_cursors m) h (c, n, i) e u =
    let kind : parse_body h (kill_cursors_body m)
        ≡ map_ok Message.kill_cursors (parse_kill_cursors h (kill_cursors_body m)) =
      rw (e ∙ c) refl in
    kind
    ∙ ap (map_ok Message.kill_cursors) (
        parse_kill_cursors-kill_cursors_body h m n
          (omega (arith, n, length-cursors_image m.cursor_ids)) i)
parse_body-wire_body (Message.command m) h (c, n, k, d, d2, ds) e u =
    let kind : parse_body h (command_body m)
        ≡ map_ok Message.command (parse_command h (command_body m)) =
      rw (e ∙ c) refl in
    kind ∙ ap (map_ok Message.command) (parse_command-command_body h m n k d d2 ds (omega arith))
parse_body-wire_body (Message.command_reply m) h (c, d, d2, ds) e u =
    let kind : parse_body h (command_reply_body m)
        ≡ map_ok Message.command_reply (parse_command_reply h (command_reply_body m)) =
      rw (e ∙ c) refl in
    kind
    ∙ ap (map_ok Message.command_reply)
        (parse_command_reply-command_reply_body h m d d2 ds (omega arith))
parse_body-wire_body (Message.message m) h (c, f, s) e u =
    let kind : parse_body h (message_body m)
        ≡ map_ok Message.message (parse_message h (message_body m)) =
      rw (e ∙ c) refl in
    kind ∙ ap (map_ok Message.message) (parse_message-message_body h m f s (omega arith))
