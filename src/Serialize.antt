-- ===== src/Serialize.antt =====
-- The `Serialize` methods of the wire_*.go files. Each gives the bytes and the message afterwards, since
-- it stores the size in the header. The buffer is threaded by the Writer monad; positions are the
-- source's `loc`.
pub mod Layout
pub mod Writes
pub mod Queries
pub mod Commands
use mongonet.Base.{ℕ, ◌+◌, ◌*◌, ◌%◌, ◌^◌, List, [], ◌∷◌, length, Outcome, ok, err, panic, hang}
use mongonet.Word.{int_of, int32_of, add_int}
use mongonet.Bytes.Writer.{
  Writer, ◌>>=◌, ◌>>◌, done, copy_at, write_int32, write_int64, write_cstring, fill,
}
use mongonet.Bson.{SimpleBson, add_sizes}
use mongonet.Bson.Write.{copy_bson, copy_docs}
use mongonet.Wire.{
  MessageHeader, ReplyMessage, UpdateMessage, QueryMessage, GetMoreMessage, InsertMessage,
  DeleteMessage, KillCursorsMessage, CommandMessage, CommandReplyMessage,
}

-- `MessageHeader.WriteInto`
unfoldable pub write_into : MessageHeader → Writer (Unit {0})
write_into h = do
  write_int32 h.size 0
  write_int32 h.request_id 4
  write_int32 h.response_to 8
  write_int32 h.op_code 12

-- `m.header.Size = int32(size)`
abbrev pub resize : ℕ → MessageHeader → MessageHeader
resize size h = record h { size = int32_of size }

-- `return buf`, with the message as the method leaves it.
abbrev pub with_message : {M : Type 0} → M → Outcome (List ℕ) → Outcome (List ℕ × M)
with_message m (ok b) = ok (b, m)
with_message m (err e) = err e
with_message m panic = panic
with_message m hang = hang

-- What `Serialize` writes behind the header.
unfoldable pub write_query : QueryMessage → Writer ℕ
write_query m = do
  write_int32 m.flags 16
  loc ← write_cstring m.namespace 20
  write_int32 m.skip loc
  write_int32 m.n_return (loc + 4)
  loc' ← copy_bson m.query (loc + 4 + 4)
  copy_bson m.project loc'

unfoldable pub serialize_query : QueryMessage → Outcome (List ℕ × QueryMessage)
serialize_query m =
    let named = add_int (16 + 12) (length m.namespace + 1) in
    let size = add_int (add_int named (int_of m.query.size)) (int_of m.project.size) in
    let h = resize size m.header in
    with_message (record m { header = h }) (fill size (write_into h >> write_query m))

-- What `Serialize` writes behind the header.
unfoldable pub write_update : UpdateMessage → Writer ℕ
write_update m = do
  write_int32 0 16
  loc ← write_cstring m.namespace 20
  write_int32 m.flags loc
  loc' ← copy_bson m.filter (loc + 4)
  copy_bson m.update loc'

unfoldable pub serialize_update : UpdateMessage → Outcome (List ℕ × UpdateMessage)
serialize_update m =
    let named = add_int (16 + 8) (length m.namespace + 1) in
    let size = add_int (add_int named (int_of m.filter.size)) (int_of m.update.size) in
    let h = resize size m.header in
    with_message (record m { header = h }) (fill size (write_into h >> write_update m))

-- What `Serialize` writes behind the header.
unfoldable pub write_delete : DeleteMessage → Writer ℕ
write_delete m = do
  write_int32 0 16
  loc ← write_cstring m.namespace 20
  write_int32 m.flags loc
  copy_bson m.filter (loc + 4)

unfoldable pub serialize_delete : DeleteMessage → Outcome (List ℕ × DeleteMessage)
serialize_delete m =
    let named = add_int (16 + 8) (length m.namespace + 1) in
    let size = add_int named (int_of m.filter.size) in
    let h = resize size m.header in
    with_message (record m { header = h }) (fill size (write_into h >> write_delete m))

-- What `Serialize` writes behind the header.
unfoldable pub write_get_more : GetMoreMessage → Writer (Unit {0})
write_get_more m = do
  write_int32 0 16
  loc ← write_cstring m.namespace 20
  write_int32 m.n_return loc
  write_int64 m.cursor_id (loc + 4)

unfoldable pub serialize_get_more : GetMoreMessage → Outcome (List ℕ × GetMoreMessage)
serialize_get_more m =
    let size = add_int (16 + 16) (length m.namespace + 1) in
    let h = resize size m.header in
    with_message (record m { header = h }) (fill size (write_into h >> write_get_more m))

-- What `Serialize` writes behind the header.
unfoldable pub write_insert : InsertMessage → Writer ℕ
write_insert m = do write_int32 m.flags 16; loc ← write_cstring m.namespace 20; copy_docs m.docs loc

unfoldable pub serialize_insert : InsertMessage → Outcome (List ℕ × InsertMessage)
serialize_insert m =
    let size = add_sizes (add_int (16 + 4) (length m.namespace + 1)) m.docs in
    let h = resize size m.header in
    with_message (record m { header = h }) (fill size (write_into h >> write_insert m))

-- `for _, c := range m.CursorIds { writeInt64(c, buf, loc); loc += 8 }`
unfoldable pub write_cursors : List ℕ → ℕ → Writer (Unit {0})
write_cursors [] loc = done tt
write_cursors (c ∷ cs) loc = do write_int64 c loc; write_cursors cs (loc + 8)

-- What `Serialize` writes behind the header.
unfoldable pub write_kill_cursors : KillCursorsMessage → Writer (Unit {0})
write_kill_cursors m = do
  write_int32 0 16
  write_int32 m.num_cursors 20
  write_cursors m.cursor_ids 24

unfoldable pub serialize_kill_cursors : KillCursorsMessage → Outcome (List ℕ × KillCursorsMessage)
serialize_kill_cursors m =
    let size = add_int (16 + 8) (8 * int_of m.num_cursors % 2 ^ 64) in
    let h = resize size m.header in
    with_message (record m { header = h }) (fill size (write_into h >> write_kill_cursors m))

-- `for _, d := range m.Docs { copy(buf[loc:], d.BSON); loc += len(d.BSON) }`
unfoldable pub copy_reply_docs : List SimpleBson → ℕ → Writer (Unit {0})
copy_reply_docs [] loc = done tt
copy_reply_docs (d ∷ ds) loc = do copy_at d.bson loc; copy_reply_docs ds (loc + length d.bson)

-- What `Serialize` writes behind the header.
unfoldable pub write_reply : ReplyMessage → Writer (Unit {0})
write_reply m = do
  write_int32 m.flags 16
  write_int64 m.cursor_id 20
  write_int32 m.starting_from 28
  write_int32 m.number_returned 32
  copy_reply_docs m.docs 36

unfoldable pub serialize_reply : ReplyMessage → Outcome (List ℕ × ReplyMessage)
serialize_reply m =
    let size = add_sizes (16 + 20) m.docs in
    let h = resize size m.header in
    with_message (record m { header = h }) (fill size (write_into h >> write_reply m))

-- What `Serialize` writes behind the header.
unfoldable pub write_command : CommandMessage → Writer ℕ
write_command m = do
  at_name ← write_cstring m.db 16
  at_args ← write_cstring m.cmd_name at_name
  at_metadata ← copy_bson m.command_args at_args
  at_docs ← copy_bson m.metadata at_metadata
  copy_docs m.input_docs at_docs

unfoldable pub serialize_command : CommandMessage → Outcome (List ℕ × CommandMessage)
serialize_command m =
    let named = add_int (add_int 16 (length m.db + 1)) (length m.cmd_name + 1) in
    let fixed = add_int (add_int named (int_of m.command_args.size)) (int_of m.metadata.size) in
    let size = add_sizes fixed m.input_docs in
    let h = resize size m.header in
    with_message (record m { header = h }) (fill size (write_into h >> write_command m))

-- What `Serialize` writes behind the header.
unfoldable pub write_command_reply : CommandReplyMessage → Writer ℕ
write_command_reply m = do
  at_metadata ← copy_bson m.command_reply 16
  at_docs ← copy_bson m.metadata at_metadata
  copy_docs m.output_docs at_docs

unfoldable pub serialize_command_reply :
    CommandReplyMessage → Outcome (List ℕ × CommandReplyMessage)
serialize_command_reply m =
    let fixed = add_int (add_int 16 (int_of m.command_reply.size)) (int_of m.metadata.size) in
    let size = add_sizes fixed m.output_docs in
    let h = resize size m.header in
    with_message (record m { header = h }) (fill size (write_into h >> write_command_reply m))
