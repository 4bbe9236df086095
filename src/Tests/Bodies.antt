-- ===== src/Tests/Bodies.antt =====
-- The wire_*.go files: messages that are parsed and serialized.
use mongonet.Base.{ℕ, ◌≡◌, refl, List, ◌++◌, arith, ok}
use mongonet.Base.Errors.{Ensures}
use mongonet.Bson.Write.{IsCovered}
use mongonet.Serialize.{serialize_insert, serialize_update, serialize_query, serialize_command}
use mongonet.Serialize.Layout.{sized, frame}
use mongonet.Serialize.Writes.{update_body}
use mongonet.Serialize.Queries.{query_body, IsWhole}
use mongonet.Parse.{parse_insert, parse_update, parse_query, parse_command}
use mongonet.Msg.Serialize.{serialize_message}
use mongonet.Msg.Frame.{message_body, serialize_message-frame}
use mongonet.Forward.{
  SentAs, ReadFrom, forward_insert, forward_update, forward_query, forward_command,
}
use mongonet.Tests.Data.{
  all_bytes-IsByte, some_header, some_header-IsHeader, doc, query_text, insert_text, update_text,
  command_text, message,
}

covered : IsCovered doc
covered = record { small = omega arith; covered = omega arith }

whole : IsWhole doc
whole = record { small = omega arith; whole = refl }

forward_insert_example :
    Ensures (SentAs serialize_insert some_header insert_text) (parse_insert some_header insert_text)
forward_insert_example =
    forward_insert some_header insert_text some_header-IsHeader (all_bytes-IsByte insert_text refl)
      (omega arith)

forward_update_example :
    Ensures
      (λ m.
        ReadFrom update_text (update_body m) m.reserved
        × SentAs serialize_update some_header (update_body m) m)
      (parse_update some_header update_text)
forward_update_example =
    forward_update some_header update_text some_header-IsHeader (all_bytes-IsByte update_text refl)
      (omega arith)

forward_query_example :
    Ensures
      (λ m.
        ((rest : List ℕ) × (query_text ≡ query_body m ++ rest))
        × SentAs serialize_query some_header (query_body m) m)
      (parse_query some_header query_text)
forward_query_example =
    forward_query some_header query_text some_header-IsHeader (all_bytes-IsByte query_text refl)
      (omega arith)

forward_command_example :
    Ensures
      (SentAs serialize_command some_header command_text)
      (parse_command some_header command_text)
forward_command_example =
    forward_command some_header command_text some_header-IsHeader (omega arith)

serialize_message-frame_example :
    serialize_message message
    ≡ ok (
      frame some_header (message_body message),
      record message { header = sized some_header (message_body message) },
    )
serialize_message-frame_example = serialize_message-frame message (record {
  head = some_header-IsHeader;
  flag_bits = omega arith;
  sections = (covered, ((covered, (covered, tt)), tt));
  fits = omega arith;
})
