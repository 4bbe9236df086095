-- ===== src/RoundTrip/Fields.antt =====
-- Messages whose fields survive the way over a connection.
use mongonet.Base.{ℕ, ◌≡◌, ◌⊎◌, List, All, length}
use mongonet.Bytes.Read.{NoNul}
use mongonet.Bson.{no_bson}
use mongonet.Bson.Parse.{IsDoc}
use mongonet.Wire.{
  MessageHeader, Message, op_reply, op_update, op_insert, op_query, op_get_more, op_delete,
  op_kill_cursors, op_command, op_command_reply, op_msg,
}
use mongonet.Serialize.Layout.{IsInt32, IsInt64}
use mongonet.Serialize.Writes.{insert_body, update_body, delete_body}
use mongonet.Serialize.Queries.{query_body, get_more_body, kill_cursors_body, reply_body}
use mongonet.Serialize.Commands.{command_body, command_reply_body}
use mongonet.Msg.Frame.{message_body}
use mongonet.RoundTrip.Sections.{IsReadable}
use mongonet.RoundTrip.Message.{no_checksum}

-- What stands behind the header on the wire.
abbrev pub wire_body : Message → List ℕ
wire_body (Message.reply m) = reply_body m
wire_body (Message.update m) = update_body m
wire_body (Message.query m) = query_body m
wire_body (Message.get_more m) = get_more_body m
wire_body (Message.insert m) = insert_body m
wire_body (Message.delete m) = delete_body m
wire_body (Message.kill_cursors m) = kill_cursors_body m
wire_body (Message.command m) = command_body m
wire_body (Message.command_reply m) = command_reply_body m
wire_body (Message.message m) = message_body m

-- Its op code is that of its kind, and its fields are what they have to be to be read again: integers of their
-- widths, names without a zero byte, documents that start with their own length, of at most 128 MB, and for a
-- kill-cursors as many identifiers as it counts.
abbrev pub HasFields : Message → Type 0
HasFields (Message.reply m) =
    (m.header.op_code ≡ op_reply)
    × IsInt32 m.flags
    × IsInt64 m.cursor_id
    × IsInt32 m.starting_from
    × IsInt32 m.number_returned
    × All IsDoc m.docs
HasFields (Message.update m) =
    (m.header.op_code ≡ op_update)
    × NoNul m.namespace
    × IsInt32 m.flags
    × IsDoc m.filter
    × IsDoc m.update
HasFields (Message.query m) =
    (m.header.op_code ≡ op_query)
    × IsInt32 m.flags
    × NoNul m.namespace
    × IsInt32 m.skip
    × IsInt32 m.n_return
    × IsDoc m.query
    × (IsDoc m.project ⊎ (m.project ≡ no_bson))
HasFields (Message.get_more m) =
    (m.header.op_code ≡ op_get_more) × NoNul m.namespace × IsInt32 m.n_return × IsInt64 m.cursor_id
HasFields (Message.insert m) =
    (m.header.op_code ≡ op_insert) × IsInt32 m.flags × NoNul m.namespace × All IsDoc m.docs
HasFields (Message.delete m) =
    (m.header.op_code ≡ op_delete) × NoNul m.namespace × IsInt32 m.flags × IsDoc m.filter
HasFields (Message.kill_cursors m) =
    (m.header.op_code ≡ op_kill_cursors)
    × (m.num_cursors ≡ length m.cursor_ids)
    × All IsInt64 m.cursor_ids
HasFields (Message.command m) =
    (m.header.op_code ≡ op_command)
    × NoNul m.db
    × NoNul m.cmd_name
    × IsDoc m.command_args
    × IsDoc m.metadata
    × All IsDoc m.input_docs
HasFields (Message.command_reply m) =
    (m.header.op_code ≡ op_command_reply)
    × IsDoc m.command_reply
    × IsDoc m.metadata
    × All IsDoc m.output_docs
HasFields (Message.message m) =
    (m.header.op_code ≡ op_msg) × IsInt32 m.flag_bits × All IsReadable m.sections

-- The message with a header, and with what `Serialize` does not write cleared: a reserved field, and the
-- checksum bit of an OP_MSG.
abbrev pub as_read : MessageHeader → Message → Message
as_read h (Message.reply m) = Message.reply (record m { header = h })
as_read h (Message.update m) = Message.update (record m { header = h; reserved = 0 })
as_read h (Message.query m) = Message.query (record m { header = h })
as_read h (Message.get_more m) = Message.get_more (record m { header = h; reserved = 0 })
as_read h (Message.insert m) = Message.insert (record m { header = h })
as_read h (Message.delete m) = Message.delete (record m { header = h; reserved = 0 })
as_read h (Message.kill_cursors m) = Message.kill_cursors (record m { header = h; reserved = 0 })
as_read h (Message.command m) = Message.command (record m { header = h })
as_read h (Message.command_reply m) = Message.command_reply (record m { header = h })
as_read h (Message.message m) = Message.message (record (no_checksum m) { header = h })
