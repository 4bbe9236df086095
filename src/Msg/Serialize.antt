-- ===== src/Msg/Serialize.antt =====
-- wire_message.go, the sizes and `Serialize` of OP_MSG. The sizes are sums of int32s.
use mongonet.Base.{ℕ, ◌+◌, ◌*◌, ◌/◌, List, [], ◌∷◌, length, Outcome}
use mongonet.Word.{int_of, int32_of, add32, sub32}
use mongonet.Bytes.Writer.{Writer, ◌>>=◌, ◌>>◌, done, write_byte, write_int32, write_cstring, fill}
use mongonet.Bson.{SimpleBson}
use mongonet.Bson.Write.{copy_bson, copy_docs}
use mongonet.Wire.{MessageMessage, Section, body, document_sequence}
use mongonet.Serialize.{write_into, resize, with_message}

-- `for _, d := range dss.Documents { size += d.Size }`
unfoldable pub add_doc_sizes : ℕ → List SimpleBson → ℕ
add_doc_sizes size [] = size
add_doc_sizes size (d ∷ ds) = add_doc_sizes (add32 size d.size) ds

-- `Size`
unfoldable pub section_size : Section → ℕ
section_size (body d) = add32 1 d.size
section_size (document_sequence id docs) =
    add_doc_sizes (add32 5 (add32 (int32_of (length id)) 1)) docs

-- `WriteInto`
unfoldable pub write_section : Section → ℕ → Writer ℕ
write_section (body d) loc = do write_byte 0 loc; copy_bson d (loc + 1)
write_section (document_sequence id docs) loc = do
  write_byte 1 loc
  write_int32 (sub32 (section_size (document_sequence id docs)) 1) (loc + 1)
  loc' ← write_cstring id (loc + 1 + 4)
  copy_docs docs loc'

unfoldable pub write_sections : List Section → ℕ → Writer ℕ
write_sections [] loc = done loc
write_sections (s ∷ ss) loc = write_section s loc >>= write_sections ss

unfoldable pub add_section_sizes : ℕ → List Section → ℕ
add_section_sizes size [] = size
add_section_sizes size (s ∷ ss) = add_section_sizes (add32 size (section_size s)) ss

-- `flags &^= 1`: the lowest bit is cleared.
abbrev pub clear_checksum : ℕ → ℕ
clear_checksum flags = flags / 2 * 2

-- What `Serialize` writes behind the header.
unfoldable pub write_message : MessageMessage → Writer ℕ
write_message m = do write_int32 (clear_checksum m.flag_bits) 16; write_sections m.sections 20

unfoldable pub serialize_message : MessageMessage → Outcome (List ℕ × MessageMessage)
serialize_message m =
    let size = add_section_sizes (add32 16 4) m.sections in
    let h = resize size m.header in
    with_message (record m { header = h }) (fill (int_of size) (write_into h >> write_message m))
