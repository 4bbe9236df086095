-- ===== src/RoundTrip/Replies.antt =====
-- wire_reply.go and wire_command_reply.go: the parsers on the bodies that `Serialize` writes.
use mongonet.Base.{
  ℕ, suc, ◌^◌, ◌<◌, ◌≡◌, refl, ap, ◌∙◌, List, [], ◌∷◌, ◌++◌, true, not, leb, arith, All, length,
  length-append, ok,
}
use mongonet.Word.{int_of, slt64}
use mongonet.Word.Shifts.{int_of_small}
use mongonet.Bytes.{slice_from}
use mongonet.Bytes.Layout.{le32, le64}
use mongonet.Bytes.Read.{read_int32-le32, read_int64-le64, slice_from-append}
use mongonet.Bson.{SimpleBson, docs_from}
use mongonet.Bson.Parse.{IsDoc}
use mongonet.Bson.Write.{image, images, length-image}
use mongonet.Bson.Docs.{IsDoc-IsCovered, docs_from-images, docs_loop-images}
use mongonet.Wire.{MessageHeader, ReplyMessage, CommandReplyMessage}
use mongonet.Serialize.Layout.{IsInt32, IsInt64}
use mongonet.Serialize.Layout.{texts}
use mongonet.Serialize.Queries.{IsWhole, texts-images, reply_body}
use mongonet.Serialize.Commands.{command_reply_body}
use mongonet.Parse.{skip_bson, parse_reply, parse_command_reply}
use mongonet.Parse.Rules.{At-start, At-next}
use mongonet.RoundTrip.{step, step_guard, step_slice, parse_simple_bson-image}

pub IsDoc-IsWhole : (ds : List SimpleBson) → All IsDoc ds → All IsWhole ds
IsDoc-IsWhole [] h = tt
IsDoc-IsWhole (d ∷ ds) h =
    (record { small = omega (arith, h.0.bounded); whole = h.0.whole }, IsDoc-IsWhole ds h.1)

-- A reply of int32 fields and an int64 cursor, whose documents start with their own length, is read back from
-- its body (shorter than 2 ^ 62).
pub parse_reply-reply_body :
    (h : MessageHeader) (m : ReplyMessage)
    → IsInt32 m.flags
    → IsInt64 m.cursor_id
    → IsInt32 m.starting_from
    → IsInt32 m.number_returned
    → All IsDoc m.docs
    → length (reply_body m) < 2 ^ 62
    → parse_reply h (reply_body m) ≡ ok (record m { header = h })
unfolding parse_reply
parse_reply-reply_body h m hf hc hs hn hd short =
    let buf = reply_body m in
    let t = texts m.docs in
    let t3 = le32 m.number_returned ++ t in
    let t2 = le32 m.starting_from ++ t3 in
    let t1 = le64 m.cursor_id ++ t2 in
    let at1 = At-next (le32 m.flags) t1 (At-start buf) refl in
    let at2 = At-next (le64 m.cursor_id) t2 at1 refl in
    let at3 = At-next (le32 m.starting_from) t3 at2 refl in
    let min : leb 20 (length buf) ≡ true = ground arith in
    let front =
      le32 m.flags ++ (le64 m.cursor_id ++ (le32 m.starting_from ++ le32 m.number_returned)) in
    let same : t ≡ images m.docs = texts-images m.docs (IsDoc-IsWhole m.docs hd) in
    step_guard _ _ _ min
    ∙ step _ _ m.flags (read_int32-le32 m.flags t1 hf)
    ∙ step_slice _ buf _ t1 4 at1 refl
    ∙ step _ _ m.cursor_id (read_int64-le64 m.cursor_id t2 hc)
    ∙ step_slice _ buf _ t2 12 at2 refl
    ∙ step _ _ m.starting_from (read_int32-le32 m.starting_from t3 hs)
    ∙ step_slice _ buf _ t3 16 at3 refl
    ∙ step _ _ m.number_returned (read_int32-le32 m.number_returned t hn)
    ∙ step _ _ m.docs (
        ap (λ x. docs_from (suc (length buf)) (front ++ x) 20) same
        ∙ docs_from-images m.docs (suc (length buf)) front 20 hd refl
            (omega (arith, ap length same)) (omega (arith, ap length same)))

-- A document is skipped.
pub skip_bson-image :
    (d : SimpleBson) (t : List ℕ)
    → IsDoc d
    → length (image d ++ t) < 2 ^ 62
    → skip_bson d (image d ++ t) ≡ ok t
unfolding skip_bson slt64
skip_bson-image d t h short =
    let size = length-image d (IsDoc-IsCovered d h) in
    let both = length-append (image d) t in
    let same = int_of_small d.size (omega (arith, h.bounded)) in
    let fits : not (slt64 (length (image d ++ t)) (int_of d.size)) ≡ true =
      rw same (ground arith) in
    step_guard _ _ _ fits
    ∙ ap (slice_from (image d ++ t)) same
    ∙ slice_from-append (image d) t d.size (omega arith)

-- The answer to a command, whose documents start with their own length, is read back from its body (shorter
-- than 2 ^ 62).
pub parse_command_reply-command_reply_body :
    (h : MessageHeader) (m : CommandReplyMessage)
    → IsDoc m.command_reply
    → IsDoc m.metadata
    → All IsDoc m.output_docs
    → length (command_reply_body m) < 2 ^ 62
    → parse_command_reply h (command_reply_body m) ≡ ok (record m { header = h })
unfolding parse_command_reply
parse_command_reply-command_reply_body h m hr hm hd short =
    let rest = images m.output_docs in
    let behind = image m.metadata ++ rest in
    let both = length-append (image m.command_reply) behind in
    let last = length-append (image m.metadata) rest in
    step _ _ m.command_reply (parse_simple_bson-image m.command_reply behind hr (omega arith))
    ∙ step _ _ behind (skip_bson-image m.command_reply behind hr short)
    ∙ step _ _ m.metadata (parse_simple_bson-image m.metadata rest hm (omega arith))
    ∙ step _ _ rest (skip_bson-image m.metadata rest hm (omega arith))
    ∙ step _ _ m.output_docs
        (docs_loop-images m.output_docs (suc (length rest)) hd (omega arith) (omega arith))
