-- ===== src/Tests/Deliveries.antt =====
-- sock.go: messages that arrive in pieces. The wire_*.go files: an OP_MSG and replies.
use mongonet.Base.{
  All-take, ℕ, zero, suc, ◌≡◌, refl, min, List, [], ◌∷◌, ◌++◌, All, All-drop, arith, take, drop,
  length-take, ok, panic,
}
use mongonet.Base.Errors.{Ensures, ◌>>=◌}
use mongonet.Word.{int_of, slt64}
use mongonet.Bytes.{read_int32, read_int64, slice_from, slice_to}
use mongonet.Bytes.Layout.{le32, le64}
use mongonet.Bytes.Writer.{fill, write_int32, write_byte, write_int64, copy_at}
use mongonet.Bytes.Read.{IsByte}
use mongonet.Bson.{add_sizes, docs_from, parse_simple_bson, parse_sized_bson}
use mongonet.Wire.{MessageHeader, InsertMessage}
use mongonet.Serialize.{serialize_reply, write_into, write_reply, copy_reply_docs}
use mongonet.Serialize.Layout.{IsHeader, sized, frame}
use mongonet.Serialize.Writes.{insert_body}
use mongonet.Serialize.Queries.{IsWhole}
use mongonet.Msg.{parse_message}
use mongonet.Msg.Serialize.{serialize_message}
use mongonet.Msg.Texts.{IsResent}
use mongonet.Msg.Frame.{message_body}
use mongonet.Forward.{SentAs, forward_message, forward_reply}
use mongonet.Parse.{parse_reply}
use mongonet.Socket.ReadResult.{got}
use mongonet.Socket.{ReadResult, Reader, parse_body, read_message}
use mongonet.Socket.Deliver.{Delivers, read_message-frame}
use mongonet.Tests.Connections.{Bytes}
use mongonet.Tests.Data.{
  all_bytes-IsByte, some_header, some_header-IsHeader, doc, name, message_text, reply_text, reply,
}

abbrev pub read_piece : Bytes → ℕ → ReadResult Bytes
read_piece (s, h) n = got (take (min n 20) s) (drop (min n 20) s, All-drop IsByte (min n 20) s h)

-- A connection that gives twenty bytes at most in each read.
abbrev pub pieces : Reader
pieces = record {
  Source = Bytes;
  read = read_piece;
  within = λ s n. (omega (arith, length-take (min n 20) s.0), All-take IsByte (min n 20) s.0 s.1);
}

abbrev pub insert_header : MessageHeader
insert_header = record { size = 0; request_id = 7; response_to = 0; op_code = 2002 }

pub insert_header-IsHeader : IsHeader insert_header
insert_header-IsHeader = record {
  request = omega arith;
  response = omega arith;
  code = omega arith;
}

abbrev pub two_docs : InsertMessage
two_docs = record { header = insert_header; flags = 1; namespace = name; docs = doc ∷ doc ∷ [] }

abbrev pub sent : List ℕ
sent = frame insert_header (insert_body two_docs)

pub sent-IsByte : All IsByte sent
sent-IsByte = all_bytes-IsByte sent refl

abbrev pub at_start : Bytes
at_start = (sent, sent-IsByte)

abbrev pub behind_size : Bytes
behind_size = (drop 4 sent, All-drop IsByte 4 sent sent-IsByte)

abbrev pub between : Bytes
between = (drop 20 (drop 4 sent), All-drop IsByte 20 (drop 4 sent) behind_size.1)

abbrev pub at_end : Bytes
at_end = (drop 18 (drop 20 (drop 4 sent)), All-drop IsByte 18 (drop 20 (drop 4 sent)) between.1)

-- The byte at a position.
abbrev pub index_or_zero : ℕ → List ℕ → ℕ
index_or_zero n [] = 0
index_or_zero zero (b ∷ bs) = b
index_or_zero (suc n) (b ∷ bs) = index_or_zero n bs

pub sent-Delivers : Delivers pieces 38 behind_size (drop 4 sent) at_end
sent-Delivers =
    Delivers.piece 38 7 (take 19 (drop 5 sent)) (drop 24 sent) behind_size between at_end refl
      (omega arith)
      (Delivers.piece 18 (index_or_zero 24 sent) (drop 25 sent) [] between at_end at_end refl
        (omega arith) (Delivers.all at_end))

read_message-frame_example : read_message pieces at_start ≡ (
    parse_body (sized insert_header (insert_body two_docs)) (insert_body two_docs) >>= λ m.
    ok (m, at_end))
read_message-frame_example =
    read_message-frame pieces insert_header (insert_body two_docs) at_start behind_size at_end
      insert_header-IsHeader (omega arith) refl sent-Delivers

forward_message_example :
    Ensures
      (λ m.
        IsResent message_text (message_body m)
        × SentAs serialize_message some_header (message_body m) m)
      (parse_message some_header message_text)
forward_message_example =
    forward_message some_header message_text some_header-IsHeader
      (all_bytes-IsByte message_text refl) (omega arith)

doc-IsWhole : IsWhole doc
doc-IsWhole = record { small = omega arith; whole = refl }

reply-parsed : parse_reply some_header reply_text ≡ ok reply
unfolding parse_reply read_int32 slice_from read_int64 docs_from parse_simple_bson int_of
    parse_sized_bson slt64 slice_to
reply-parsed = refl

forward_reply_example : SentAs serialize_reply some_header reply_text reply
forward_reply_example =
    forward_reply some_header reply_text reply some_header-IsHeader
      (all_bytes-IsByte reply_text refl) (omega arith) reply-parsed (doc-IsWhole, (doc-IsWhole, tt))

-- Three documents of size 0.
abbrev empty_docs_text : List ℕ
empty_docs_text = le32 8 ++ (le64 5 ++ (le32 0 ++ (le32 3 ++ (le32 0 ++ (le32 0 ++ le32 0)))))

-- A reply with three documents of size 0 is parsed, and `Serialize` of it panics.
empty_docs_panic : (parse_reply some_header empty_docs_text >>= λ m. serialize_reply m) ≡ panic
unfolding parse_reply read_int32 slice_from read_int64 docs_from parse_simple_bson int_of
    parse_sized_bson slt64 slice_to serialize_reply fill add_sizes write_into write_int32 write_byte
    write_reply write_int64 copy_reply_docs copy_at
empty_docs_panic = refl
