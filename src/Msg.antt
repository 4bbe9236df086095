-- ===== src/Msg.antt =====
-- wire_message.go, the parsers: OP_MSG and its two kinds of sections.
pub mod Serialize
pub mod Frame
pub mod Texts
pub mod Docs
pub mod Sections
pub mod Parsed
use mongonet.Base.{
  ℕ, zero, suc, ◌+◌, ◌-◌, ◌%◌, ◌^◌, List, [], ◌∷◌, not, leb, ◌==◌, if◌then◌else◌, length, Kind,
  Outcome, ok, err, panic, hang, Error,
}
use mongonet.Base.Errors.{◌>>=◌, ◌>>◌, guard}
use mongonet.Word.{int_of, int32_of, slt64, slt32, sub32, add_int}
use mongonet.Bytes.{slice_from, read_int32, read_cstring}
use mongonet.Bson.{SimpleBson, parse_simple_bson}
use mongonet.Wire.{MessageHeader, MessageMessage, Section, body, document_sequence}

abbrev pub body_section_kind : ℕ
body_section_kind = 0

abbrev pub document_sequence_section_kind : ℕ
document_sequence_section_kind = 1

-- `b[loc]`
unfoldable pub index : List ℕ → ℕ → Outcome ℕ
index [] loc = panic
index (b ∷ bs) zero = ok b
index (b ∷ bs) (suc loc) = index bs loc

-- A section and the new `*loc`.
unfoldable pub parse_body_section : List ℕ → ℕ → Outcome (Section × ℕ)
parse_body_section buf loc = do
  here ← slice_from buf loc
  doc ← parse_simple_bson here
  ok (body doc, add_int loc (int_of doc.size))

-- `for expectedSizeRemaining > 0`, with `docNum` for the error's text.
unfoldable pub section_docs : ℕ → List ℕ → ℕ → ℕ → ℕ → Outcome (List SimpleBson × ℕ)
section_docs zero buf loc remaining num = hang
section_docs (suc fuel) buf loc remaining num =
    let round : Outcome (List SimpleBson × ℕ) = (do
      here ← slice_from buf loc
      doc ← parse_simple_bson here
      guard (not (slt32 remaining doc.size)) (Error.document_overrun num doc.size remaining)
      (docs, end) ←
          section_docs fuel buf (add_int loc (int_of doc.size)) (sub32 remaining doc.size) (num + 1)
      ok (doc ∷ docs, end)) in
    if slt32 0 remaining then round else ok ([], loc)

unfoldable pub parse_document_sequence_section : List ℕ → ℕ → Outcome (Section × ℕ)
parse_document_sequence_section buf loc = do
  here ← slice_from buf loc
  guard (leb 4 (length here)) Error.section_too_short
  expected ← read_int32 here
  guard (not (slt64 (length here) (int_of expected))) Error.section_overrun
  at_id ← slice_from buf (loc + 4)
  id ← read_cstring at_id
  let remaining = sub32 (sub32 expected 4) (int32_of (length id + 1))
  (docs, end) ← section_docs (suc (length buf)) buf (loc + 4 + (length id + 1)) remaining 0
  ok (document_sequence id docs, end)

-- `switch kind`. The text of the last error shows `buf[0]`, a byte of the flags, and not the kind.
unfoldable pub parse_kind : ℕ → ℕ → List ℕ → ℕ → Outcome (Section × ℕ)
parse_kind kind first buf loc =
    if kind == body_section_kind
    then parse_body_section buf loc
    else if kind == document_sequence_section_kind
    then parse_document_sequence_section buf loc
    else err (Error.unknown_section_kind first)

unfoldable pub parse_section : List ℕ → ℕ → Outcome (Section × ℕ)
parse_section buf loc = do
  kind ← index buf loc
  first ← index buf 0
  parse_kind kind first buf (loc + 1)

-- `for (len(buf) - loc) >= 5`
unfoldable pub sections_from : ℕ → List ℕ → ℕ → Outcome (List Section)
sections_from zero buf loc = hang
sections_from (suc fuel) buf loc =
    let round : Outcome (List Section) = (do
      (section, next) ← parse_section buf loc
      sections ← sections_from fuel buf next
      ok (section ∷ sections)) in
    if leb (loc + 5) (length buf) then round else ok []

unfoldable pub parse_message : MessageHeader → List ℕ → Outcome MessageMessage
parse_message h buf = do
  guard (leb 4 (length buf)) (Error.below_min_length Kind.message)
  flag_bits ← read_int32 buf
  sections ← sections_from (suc (length buf)) buf 4
  ok (record { header = h; flag_bits = flag_bits; sections = sections })
