-- ===== src/RoundTrip/Message.antt =====
-- wire_message.go: the parser on the body that `Serialize` writes.
use mongonet.Base.{suc, ◌^◌, ◌<◌, ◌≡◌, refl, ◌∙◌, List, [], ◌∷◌, All, length, leb, true, arith, ok}
use mongonet.Bytes.Layout.{le32}
use mongonet.Bytes.Read.{read_int32-le32}
use mongonet.Bson.Docs.{IsDoc-IsCovered, All-IsCovered}
use mongonet.Wire.{MessageHeader, MessageMessage, Section, body, document_sequence}
use mongonet.Serialize.Layout.{IsInt32}
use mongonet.Msg.{parse_message}
use mongonet.Msg.Serialize.{clear_checksum}
use mongonet.Msg.Frame.{sections_image, message_body, SectionCovered}
use mongonet.Parse.Rules.{At-start, At-next}
use mongonet.RoundTrip.{step, step_guard}
use mongonet.RoundTrip.Sections.{IsReadable, sections_from-sections_image}

-- The message with the checksum bit cleared in its flags.
abbrev pub no_checksum : MessageMessage → MessageMessage
no_checksum m = record m { flag_bits = clear_checksum m.flag_bits }

-- An OP_MSG of int32 flags, whose documents start with their own length and whose names have no zero byte, is read
-- back from its body (shorter than 2 ^ 31): the same sections, and the flags without the checksum bit.
pub parse_message-message_body :
    (h : MessageHeader) (m : MessageMessage)
    → IsInt32 m.flag_bits
    → All IsReadable m.sections
    → length (message_body m) < 2 ^ 31
    → parse_message h (message_body m) ≡ ok (record (no_checksum m) { header = h })
unfolding parse_message
parse_message-message_body h m flags hs short =
    let buf = message_body m in
    let rest = sections_image m.sections in
    let cleared = clear_checksum m.flag_bits in
    let min : leb 4 (length buf) ≡ true = ground arith in
    step_guard _ _ _ min
    ∙ step _ _ cleared (read_int32-le32 cleared rest (omega (arith, flags)))
    ∙ step _ _ m.sections (
        sections_from-sections_image m.sections (suc (length buf)) buf (le32 cleared) 4 hs
          (At-next (le32 cleared) rest (At-start buf) refl) refl (omega arith) short)

IsReadable-SectionCovered : (s : Section) → IsReadable s → SectionCovered s
IsReadable-SectionCovered (body d) h = IsDoc-IsCovered d h
IsReadable-SectionCovered (document_sequence id docs) h = All-IsCovered docs h.1

pub All-SectionCovered : (ss : List Section) → All IsReadable ss → All SectionCovered ss
All-SectionCovered [] h = tt
All-SectionCovered (s ∷ ss) h = (IsReadable-SectionCovered s h.0, All-SectionCovered ss h.1)
