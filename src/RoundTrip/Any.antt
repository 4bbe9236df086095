-- ===== src/RoundTrip/Any.antt =====
-- Any message, that one side serializes and the other side reads from a connection.
use mongonet.Base.{
  ◌+◌, ◌*◌, ◌≤◌, ◌≡◌, ◌⊎◌, inl, inr, refl, sym, ap, subst, ◌∙◌, length, take, drop, arith, ok,
}
use mongonet.Base.Errors.{◌>>=◌}
use mongonet.Bson.{SimpleBson, no_bson}
use mongonet.Bson.Parse.{IsDoc}
use mongonet.Bson.Write.{IsCovered}
use mongonet.Bson.Docs.{IsDoc-IsCovered, All-IsCovered}
use mongonet.Wire.{Message, header}
use mongonet.Serialize.Layout.{IsHeader, sized, frame, length-cursors_image}
use mongonet.Serialize.Writes.{
  serialize_insert-frame, serialize_update-frame, serialize_delete-frame,
}
use mongonet.Serialize.Queries.{
  serialize_query-frame, serialize_get_more-frame, serialize_kill_cursors-frame,
  serialize_reply-frame,
}
use mongonet.Serialize.Commands.{serialize_command-frame, serialize_command_reply-frame}
use mongonet.Msg.Frame.{serialize_message-frame}
use mongonet.RoundTrip.Replies.{IsDoc-IsWhole}
use mongonet.RoundTrip.Message.{All-SectionCovered}
use mongonet.Socket.ReadResult.{got}
use mongonet.Socket.{Reader, map_ok, serialize, read_message}
use mongonet.Socket.Deliver.{Delivers, read_message-frame}
use mongonet.RoundTrip.Fields.{wire_body, HasFields, as_read}
use mongonet.RoundTrip.Bodies.{parse_body-wire_body}

projected : (d : SimpleBson) → IsDoc d ⊎ (d ≡ no_bson) → IsCovered d
projected d (inl h) = IsDoc-IsCovered d h
projected d (inr e) =
    subst IsCovered (sym e) (record { small = omega arith; covered = omega arith })

-- `Serialize` writes the header, with the whole length in it, and the body.
serialize-frame :
    (m : Message)
    → IsHeader (header m)
    → HasFields m
    → 16 + length (wire_body m) ≤ 200 * 1024 * 1024
    → (after : Message) × (serialize m ≡ ok (frame (header m) (wire_body m), after))
unfolding serialize header
serialize-frame (Message.reply m) v (c, f, i, s, n, d) u = (
  _,
  ap (map_ok (λ r. (r.0, Message.reply r.1))) (
      serialize_reply-frame m (record {
        head = v;
        flags = f;
        cursor_id = i;
        starting_from = s;
        number_returned = n;
        docs = IsDoc-IsWhole m.docs d;
        fits = omega arith;
      })),
)
serialize-frame (Message.update m) v (c, n, f, d, d2) u = (
  _,
  ap (map_ok (λ r. (r.0, Message.update r.1))) (
      serialize_update-frame m (record {
        head = v;
        flags = f;
        filter = IsDoc-IsCovered m.filter d;
        update = IsDoc-IsCovered m.update d2;
        fits = omega arith;
      })),
)
serialize-frame (Message.query m) v (c, f, n, k, r, d, p) u = (
  _,
  ap (map_ok (λ r. (r.0, Message.query r.1))) (
      serialize_query-frame m (record {
        head = v;
        flags = f;
        skip = k;
        n_return = r;
        query = IsDoc-IsCovered m.query d;
        project = projected m.project p;
        fits = omega arith;
      })),
)
serialize-frame (Message.get_more m) v (c, n, r, i) u = (
  _,
  ap (map_ok (λ r. (r.0, Message.get_more r.1))) (
      serialize_get_more-frame m
        (record { head = v; n_return = r; cursor_id = i; fits = omega arith })),
)
serialize-frame (Message.insert m) v (c, f, n, d) u = (
  _,
  ap (map_ok (λ r. (r.0, Message.insert r.1))) (
      serialize_insert-frame m
        (record { head = v; flags = f; docs = All-IsCovered m.docs d; fits = omega arith })),
)
serialize-frame (Message.delete m) v (c, n, f, d) u = (
  _,
  ap (map_ok (λ r. (r.0, Message.delete r.1))) (
      serialize_delete-frame m
        (record { head = v; flags = f; filter = IsDoc-IsCovered m.filter d; fits = omega arith })),
)
serialize-frame (Message.kill_cursors m) v (c, n, i) u = (
  _,
  ap (map_ok (λ r. (r.0, Message.kill_cursors r.1))) (
      serialize_kill_cursors-frame m (record {
        head = v;
        num_cursors = omega (arith, n, length-cursors_image m.cursor_ids);
        counted = n;
        cursor_ids = i;
      })),
)
serialize-frame (Message.command m) v (c, n, k, d, d2, ds) u = (
  _,
  ap (map_ok (λ r. (r.0, Message.command r.1))) (
      serialize_command-frame m (record {
        head = v;
        args = IsDoc-IsCovered m.command_args d;
        metadata = IsDoc-IsCovered m.metadata d2;
        docs = All-IsCovered m.input_docs ds;
        fits = omega arith;
      })),
)
serialize-frame (Message.command_reply m) v (c, d, d2, ds) u = (
  _,
  ap (map_ok (λ r. (r.0, Message.command_reply r.1))) (
      serialize_command_reply-frame m (record {
        head = v;
        reply = IsDoc-IsCovered m.command_reply d;
        metadata = IsDoc-IsCovered m.metadata d2;
        docs = All-IsCovered m.output_docs ds;
        fits = omega arith;
      })),
)
serialize-frame (Message.message m) v (c, f, s) u = (
  _,
  ap (map_ok (λ r. (r.0, Message.message r.1))) (
      serialize_message-frame m (record {
        head = v;
        flag_bits = f;
        sections = All-SectionCovered m.sections s;
        fits = omega arith;
      })),
)

-- A message of any kind (a header of int32s with the op code of its kind; integers of their widths, names without
-- a zero byte, documents that start with their own length, of at most 128 MB, or no projection, and as many cursor
-- identifiers as are counted; at most 200 MB on the wire) is serialized to some bytes. On a connection that gives
-- these bytes, the first four in one read and the others in pieces of any size, `ReadMessage` gives a message of
-- the same kind with the same fields, but for a reserved field and the checksum bit, which are cleared, and for
-- the length in the header, which is the whole length, and leaves the connection behind the message.
pub read_message-serialize :
    (r : Reader) (m : Message) (s s1 s2 : r.Source)
    → IsHeader (header m)
    → HasFields m
    → 16 + length (wire_body m) ≤ 200 * 1024 * 1024
    → r.read s 4 ≡ got (take 4 (frame (header m) (wire_body m))) s1
    → Delivers r (12 + length (wire_body m)) s1 (drop 4 (frame (header m) (wire_body m))) s2
    → (after : Message) × (serialize m ≡ ok (frame (header m) (wire_body m), after))
      × (read_message r s ≡ ok (as_read (sized (header m) (wire_body m)) m, s2))
read_message-serialize r m s s1 s2 v f u g d =
    let sent = serialize-frame m v f u in
    (
      sent.0,
      sent.1,
      read_message-frame r (header m) (wire_body m) s s1 s2 v u g d
          ∙ ap (λ p. p >>= λ x. ok (x, s2))
              (parse_body-wire_body m (sized (header m) (wire_body m)) f refl u),
    )
