-- ===== src/Tests/RoundTrips.antt =====
-- Messages that are written and read again, and file names that are cut.
use mongonet.Base.{ℕ, ◌≡◌, refl, inl, List, [], ◌∷◌, All-drop, take, drop, arith, ok}
use mongonet.Bytes.Read.{IsByte}
use mongonet.Serialize.Layout.{sized, frame}
use mongonet.Wire.{MessageMessage, Message, Section, header}
use mongonet.Socket.{serialize, read_message}
use mongonet.Socket.Deliver.{Delivers}
use mongonet.RoundTrip.Fields.{wire_body, as_read}
use mongonet.RoundTrip.Any.{read_message-serialize}
use mongonet.Respond.Answers.{answer_bytes}
use mongonet.Respond.Reading.{IsRead, read_message-answer_bytes}
use mongonet.Util.{last_index, strip_loop, strip_directories}
use mongonet.Util.Stripping.{IsStripped, strip_directories-IsStripped}
use mongonet.Tests.Connections.{Bytes, buffer}
use mongonet.Tests.Data.{all_bytes-IsByte, doc, doc-IsDoc, name, name-NoNul}

-- A message with a body and a sequence of two documents, with the checksum bit.
abbrev two_sections : MessageMessage
two_sections = record {
  header = record { size = 0; request_id = 7; response_to = 0; op_code = 2013 };
  flag_bits = 3;
  sections = Section.body doc ∷ (Section.document_sequence name (doc ∷ (doc ∷ [])) ∷ []);
}

abbrev sent : List ℕ
sent = frame two_sections.header (wire_body (Message.message two_sections))

abbrev at_start : Bytes
at_start = (sent, all_bytes-IsByte sent refl)

abbrev behind_size : Bytes
behind_size = (drop 4 sent, All-drop IsByte 4 sent at_start.1)

abbrev at_end : Bytes
at_end = (drop 53 (drop 4 sent), All-drop IsByte 53 (drop 4 sent) behind_size.1)

read_message-serialize_example :
    (after : Message) × (serialize (Message.message two_sections) ≡ ok (sent, after))
    × (read_message buffer at_start
        ≡ ok (
          as_read
              (sized two_sections.header (wire_body (Message.message two_sections)))
              (Message.message two_sections),
          at_end,
        ))
unfolding header
read_message-serialize_example =
    read_message-serialize buffer (Message.message two_sections) at_start behind_size at_end
      (record { request = omega arith; response = omega arith; code = omega arith })
      (refl, omega arith, (doc-IsDoc, ((name-NoNul, (doc-IsDoc, (doc-IsDoc, tt))), tt)))
      (omega arith) refl
      (Delivers.piece 53 7 (take 52 (drop 5 sent)) [] behind_size at_end at_end refl (omega arith)
        (Delivers.all at_end))

-- The answer to a query with the request id 7.
abbrev answer_text : List ℕ
answer_text = answer_bytes 2004 7 doc.bson

abbrev answered : Bytes
answered = (answer_text, all_bytes-IsByte answer_text refl)

abbrev answer_behind_size : Bytes
answer_behind_size = (drop 4 answer_text, All-drop IsByte 4 answer_text answered.1)

abbrev answer_read : Bytes
answer_read =
    (drop 41 (drop 4 answer_text), All-drop IsByte 41 (drop 4 answer_text) answer_behind_size.1)

read_message-answer_bytes_example :
    (m : Message) × (read_message buffer answered ≡ ok (m, answer_read)) × IsRead 2004 7 doc.bson m
read_message-answer_bytes_example =
    read_message-answer_bytes buffer 7 doc.bson answered answer_behind_size answer_read
      (omega arith) doc-IsDoc 2004 (inl (inl refl)) refl
      (Delivers.piece 41 17 (take 40 (drop 5 answer_text)) [] answer_behind_size answer_read
        answer_read refl (omega arith) (Delivers.all answer_read))

-- "a/b/c"
abbrev path : List ℕ
path = 97 ∷ 47 ∷ 98 ∷ 47 ∷ 99 ∷ []

strip_directories-IsStripped_example : IsStripped 1 path (strip_directories path 1)
strip_directories-IsStripped_example = strip_directories-IsStripped path 1

-- Of two directories only one is kept where there is nothing before them.
two_of_two : strip_directories path 2 ≡ 98 ∷ 47 ∷ 99 ∷ []
unfolding strip_directories strip_loop last_index
two_of_two = refl
