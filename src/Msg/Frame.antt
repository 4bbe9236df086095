-- ===== src/Msg/Frame.antt =====
-- What `Serialize` gives for OP_MSG.
use mongonet.Base.{
  ℕ, ◌+◌, ◌^◌, ◌<◌, ◌≡◌, refl, ap, subst, ◌∙◌, List, [], ◌∷◌, ◌++◌, arith, All, length,
  length-append, ok,
}
use mongonet.Word.{int_of, int32_of, add32, sub32}
use mongonet.Word.Shifts.{int_of_small}
use mongonet.Bytes.Writer.{done}
use mongonet.Bytes.Layout.{
  le32, Emits, Emits-bind, Emits-then, Emits-done, Emits-byte, Emits-int32, Emits-cstring,
}
use mongonet.Bson.{SimpleBson}
use mongonet.Bson.Write.{IsCovered, image, images, length-image, Emits-copy_bson, Emits-copy_docs}
use mongonet.Wire.{MessageMessage, Section, body, document_sequence}
use mongonet.Serialize.Layout.{IsInt32, IsHeader, cstring, length-cstring, sized, frame, fill-frame}
use mongonet.Msg.Serialize.{
  add_doc_sizes, section_size, write_section, write_sections, add_section_sizes, clear_checksum,
  write_message, serialize_message,
}

-- A section on the wire. The size of a document sequence counts itself, not the kind.
abbrev pub sequence_size : List ℕ → List SimpleBson → ℕ
sequence_size id docs = 4 + (length id + 1) + length (images docs)

abbrev pub section_image : Section → List ℕ
section_image (body d) = 0 ∷ image d
section_image (document_sequence id docs) =
    1 ∷ (le32 (sequence_size id docs) ++ (cstring id ++ images docs))

abbrev pub sections_image : List Section → List ℕ
sections_image [] = []
sections_image (s ∷ ss) = section_image s ++ sections_image ss

abbrev pub message_body : MessageMessage → List ℕ
message_body m = le32 (clear_checksum m.flag_bits) ++ sections_image m.sections

abbrev pub SectionCovered : Section → Type 0
SectionCovered (body d) = IsCovered d
SectionCovered (document_sequence id docs) = All IsCovered docs

pub record IsMessage (m : MessageMessage) : Type 0 where
  pub head : IsHeader m.header
  pub flag_bits : IsInt32 m.flag_bits
  pub sections : All SectionCovered m.sections
  pub fits : 16 + length (message_body m) < 2 ^ 31

add_doc_sizes-images :
    (ds : List SimpleBson) (size : ℕ)
    → All IsCovered ds
    → size + length (images ds) < 2 ^ 31
    → add_doc_sizes size ds ≡ size + length (images ds)
unfolding add_doc_sizes
add_doc_sizes-images [] size h bd = omega arith
add_doc_sizes-images (d ∷ ds) size h bd =
    let whole = length-append (image d) (images ds) in
    let here : add32 size d.size ≡ size + d.size = omega (arith, length-image d h.0) in
    rw here (
      add_doc_sizes-images ds (size + d.size) h.1 (omega (arith, length-image d h.0))
      ∙ omega (arith, length-image d h.0))

pub section_size-image :
    (s : Section)
    → SectionCovered s
    → length (section_image s) < 2 ^ 31
    → section_size s ≡ length (section_image s)
unfolding section_size
section_size-image (body d) h bd = omega (arith, length-image d h)
section_size-image (document_sequence id docs) h bd =
    let n = length-append (cstring id) (images docs) in
    let name = length-cstring id in
    let start : add32 5 (add32 (int32_of (length id)) 1) ≡ 6 + length id = omega arith in
    rw start (add_doc_sizes-images docs (6 + length id) h (omega arith) ∙ omega arith)

Emits-write_section :
    (s : Section) (loc : ℕ)
    → SectionCovered s
    → loc + length (section_image s) < 2 ^ 31
    → Emits (write_section s loc) loc (section_image s) (loc + length (section_image s))
unfolding write_section
Emits-write_section (body d) loc h bd =
    let size = length-image d h in
    let end : loc + 1 + d.size ≡ loc + length (section_image (body d)) = omega arith in
    subst (Emits (write_section (body d) loc) loc (0 ∷ image d)) end (
      Emits-then _ _ loc (loc + 1) (0 ∷ []) (image d) (loc + 1 + d.size) (Emits-byte 0 loc) refl
        (Emits-copy_bson d (loc + 1) h (omega arith)))
Emits-write_section (document_sequence id docs) loc h bd =
    let s = document_sequence id docs in
    let n = length-append (cstring id) (images docs) in
    let name = length-cstring id in
    let size : sub32 (section_size s) 1 ≡ sequence_size id docs =
      ap (λ x. sub32 x 1) (section_size-image s h (omega arith)) ∙ omega arith in
    let end : loc + 1 + 4 + length id + 1 + length (images docs) ≡ loc + length (section_image s) =
      omega arith in
    subst (Emits (write_section s loc) loc (section_image s)) end (
      Emits-then _ _ loc (loc + 1) (1 ∷ [])
        (le32 (sequence_size id docs) ++ (cstring id ++ images docs)) _ (Emits-byte 1 loc) refl
        (rw size (
          Emits-then _ _ (loc + 1) (loc + 1 + 4) (le32 (sequence_size id docs)) _ _
            (Emits-int32 (sequence_size id docs) (loc + 1) (omega arith)) refl
            (Emits-bind _ _ (loc + 1 + 4) (loc + 1 + 4 + length id + 1) (cstring id) (images docs) _
              (loc + 1 + 4 + length id + 1 + length (images docs)) (Emits-cstring id (loc + 1 + 4))
              (omega arith) (Emits-copy_docs docs (loc + 1 + 4 + length id + 1) h (omega arith))))))

Emits-write_sections :
    (ss : List Section) (loc : ℕ)
    → All SectionCovered ss
    → loc + length (sections_image ss) < 2 ^ 31
    → Emits (write_sections ss loc) loc (sections_image ss) (loc + length (sections_image ss))
unfolding write_sections
Emits-write_sections [] loc h bd =
    let end : loc ≡ loc + 0 = omega arith in
    subst (Emits (done loc) loc []) end (Emits-done loc loc)
Emits-write_sections (s ∷ ss) loc h bd =
    let n = length (section_image s) in
    let whole = length-append (section_image s) (sections_image ss) in
    let end : loc + n + length (sections_image ss) ≡ loc + length (sections_image (s ∷ ss)) =
      omega arith in
    subst (Emits (write_sections (s ∷ ss) loc) loc (sections_image (s ∷ ss))) end (
      Emits-bind (write_section s loc) (write_sections ss) loc (loc + n) (section_image s)
        (sections_image ss) (loc + n) _ (Emits-write_section s loc h.0 (omega arith)) refl
        (Emits-write_sections ss (loc + n) h.1 (omega arith)))

add_section_sizes-image :
    (ss : List Section) (size : ℕ)
    → All SectionCovered ss
    → size + length (sections_image ss) < 2 ^ 31
    → add_section_sizes size ss ≡ size + length (sections_image ss)
unfolding add_section_sizes
add_section_sizes-image [] size h bd = omega arith
add_section_sizes-image (s ∷ ss) size h bd =
    let n = length (section_image s) in
    let whole = length-append (section_image s) (sections_image ss) in
    let here : add32 size (section_size s) ≡ size + n =
      ap (add32 size) (section_size-image s h.0 (omega arith)) ∙ omega arith in
    rw here (add_section_sizes-image ss (size + n) h.1 (omega arith) ∙ omega arith)

-- `Serialize` of an OP_MSG whose fields are int32s, whose documents have the bytes that they count and
-- whose whole length is below 2 ^ 31 gives the header with that length in it, the flags with the
-- checksum bit cleared, and each section behind its kind, with the size of a document sequence. The
-- message afterwards has that length in its header.
pub serialize_message-frame :
    (m : MessageMessage)
    → IsMessage m
    → serialize_message m
      ≡ ok (frame m.header (message_body m), record m { header = sized m.header (message_body m) })
unfolding serialize_message write_message
serialize_message-frame m v =
    let size : add_section_sizes (add32 16 4) m.sections ≡ 16 + length (message_body m) =
      add_section_sizes-image m.sections 20 v.sections (omega (arith, v.fits)) ∙ omega arith in
    let small : int_of (16 + length (message_body m)) ≡ 16 + length (message_body m) =
      int_of_small _ v.fits in
    rw (size, small)
      (fill-frame m.header (write_message m) (message_body m) _ (16 + length (message_body m))
        (λ h. record m { header = h }) v.head (omega (arith, v.fits)) refl
        (Emits-then _ _ 16 20 (le32 (clear_checksum m.flag_bits)) (sections_image m.sections) _
          (Emits-int32 (clear_checksum m.flag_bits) 16 (omega (arith, v.flag_bits))) refl
          (Emits-write_sections m.sections 20 v.sections (omega (arith, v.fits)))))
