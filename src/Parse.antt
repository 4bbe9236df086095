-- ===== src/Parse.antt =====
-- The parsers of the wire_*.go files, on the body behind the header. A partly filled message that the
-- source returns beside an error is left out: `ReadMessage` passes it on and no caller looks at it.
pub mod Rules
pub mod Writes
pub mod Queries
pub mod Cursors
pub mod Commands
use mongonet.Base.{
  ℕ, zero, suc, ◌+◌, ◌*◌, ◌%◌, ◌^◌, List, [], ◌∷◌, not, ◌||◌, leb, if◌then◌else◌, length, Kind,
  Outcome, ok, Error,
}
use mongonet.Base.Errors.{◌>>=◌, ◌>>◌, guard}
use mongonet.Word.{int_of, slt64, is_neg64, add_int}
use mongonet.Bytes.{slice_from, read_int32, read_int64, read_cstring}
use mongonet.Bson.{SimpleBson, no_bson, parse_simple_bson, docs_loop, docs_from}
use mongonet.Wire.{
  MessageHeader, ReplyMessage, UpdateMessage, QueryMessage, GetMoreMessage, InsertMessage,
  DeleteMessage, KillCursorsMessage, CommandMessage, CommandReplyMessage,
}

-- `if loc < len(buf) { parseSimpleBSON(buf[loc:]) }`; else the zero value stays.
unfoldable pub parse_project : List ℕ → ℕ → Outcome SimpleBson
parse_project buf loc =
    if slt64 loc (length buf) then slice_from buf loc >>= parse_simple_bson else ok no_bson

unfoldable pub parse_query : MessageHeader → List ℕ → Outcome QueryMessage
parse_query h buf = do
  guard (leb 4 (length buf)) (Error.below_min_length Kind.query)
  flags ← read_int32 buf
  at_name ← slice_from buf 4
  namespace ← read_cstring at_name
  let loc = 4 + length namespace + 1
  guard (leb (loc + 8) (length buf)) (Error.length_too_short Kind.query)
  at_skip ← slice_from buf loc
  skip ← read_int32 at_skip
  at_return ← slice_from buf (loc + 4)
  n_return ← read_int32 at_return
  at_query ← slice_from buf (loc + 4 + 4)
  query ← parse_simple_bson at_query
  project ← parse_project buf (add_int (loc + 4 + 4) (int_of query.size))
  ok (record {
    header = h;
    flags = flags;
    namespace = namespace;
    skip = skip;
    n_return = n_return;
    query = query;
    project = project;
  })

unfoldable pub parse_update : MessageHeader → List ℕ → Outcome UpdateMessage
parse_update h buf = do
  guard (leb 4 (length buf)) (Error.below_min_length Kind.update)
  reserved ← read_int32 buf
  at_name ← slice_from buf 4
  namespace ← read_cstring at_name
  let loc = 4 + length namespace + 1
  guard (leb (loc + 4) (length buf)) (Error.length_too_short Kind.update)
  at_flags ← slice_from buf loc
  flags ← read_int32 at_flags
  at_filter ← slice_from buf (loc + 4)
  filter ← parse_simple_bson at_filter
  let loc' = add_int (loc + 4) (int_of filter.size)
  guard (not (slt64 (length buf) loc')) (Error.length_too_short Kind.update)
  at_update ← slice_from buf loc'
  update ← parse_simple_bson at_update
  ok (record {
    header = h;
    reserved = reserved;
    namespace = namespace;
    flags = flags;
    filter = filter;
    update = update;
  })

unfoldable pub parse_delete : MessageHeader → List ℕ → Outcome DeleteMessage
parse_delete h buf = do
  guard (leb 4 (length buf)) (Error.below_min_length Kind.delete)
  reserved ← read_int32 buf
  at_name ← slice_from buf 4
  namespace ← read_cstring at_name
  let loc = 4 + length namespace + 1
  guard (leb (loc + 4) (length buf)) (Error.length_too_short Kind.delete)
  at_flags ← slice_from buf loc
  flags ← read_int32 at_flags
  at_filter ← slice_from buf (loc + 4)
  filter ← parse_simple_bson at_filter
  ok (record {
    header = h;
    reserved = reserved;
    namespace = namespace;
    flags = flags;
    filter = filter;
  })

unfoldable pub parse_get_more : MessageHeader → List ℕ → Outcome GetMoreMessage
parse_get_more h buf = do
  guard (leb 4 (length buf)) (Error.below_min_length Kind.get_more)
  reserved ← read_int32 buf
  at_name ← slice_from buf 4
  namespace ← read_cstring at_name
  let loc = 4 + length namespace + 1
  guard (leb (loc + 12) (length buf)) (Error.length_too_short Kind.get_more)
  at_return ← slice_from buf loc
  n_return ← read_int32 at_return
  at_cursor ← slice_from buf (loc + 4)
  cursor_id ← read_int64 at_cursor
  ok (record {
    header = h;
    reserved = reserved;
    namespace = namespace;
    n_return = n_return;
    cursor_id = cursor_id;
  })

unfoldable pub parse_insert : MessageHeader → List ℕ → Outcome InsertMessage
parse_insert h buf = do
  guard (leb 4 (length buf)) (Error.below_min_length Kind.insert)
  flags ← read_int32 buf
  at_name ← slice_from buf 4
  namespace ← read_cstring at_name
  docs ← docs_from (suc (length buf)) buf (4 + length namespace + 1)
  ok (record { header = h; flags = flags; namespace = namespace; docs = docs })

-- `for i := 0; i < int(m.NumCursors); i++ { m.CursorIds[i] = readInt64(buf[loc:]); loc += 8 }`
unfoldable pub cursors_from : ℕ → List ℕ → ℕ → Outcome (List ℕ)
cursors_from zero buf loc = ok []
cursors_from (suc n) buf loc = do
  here ← slice_from buf loc
  c ← read_int64 here
  cs ← cursors_from n buf (loc + 8)
  ok (c ∷ cs)

abbrev pub max_int32 : ℕ
max_int32 = 2147483647

unfoldable pub parse_kill_cursors : MessageHeader → List ℕ → Outcome KillCursorsMessage
parse_kill_cursors h buf = do
  guard (leb 8 (length buf)) (Error.below_min_length Kind.kill_cursors)
  reserved ← read_int32 buf
  at_num ← slice_from buf 4
  num ← read_int32 at_num
  at_ids ← slice_from buf 8
  guard (not (slt64 (length at_ids) (int_of num * 8 % 2 ^ 64))) (Error.num_cursors_too_large num)
  guard (not (is_neg64 (int_of num) || slt64 max_int32 (int_of num)))
      (Error.num_cursors_invalid num)
  ids ← cursors_from (int_of num) buf 8
  ok (record { header = h; reserved = reserved; num_cursors = num; cursor_ids = ids })

unfoldable pub parse_reply : MessageHeader → List ℕ → Outcome ReplyMessage
parse_reply h buf = do
  guard (leb 20 (length buf)) (Error.below_min_length Kind.reply)
  flags ← read_int32 buf
  at_cursor ← slice_from buf 4
  cursor_id ← read_int64 at_cursor
  at_start ← slice_from buf 12
  starting_from ← read_int32 at_start
  at_number ← slice_from buf 16
  number_returned ← read_int32 at_number
  docs ← docs_from (suc (length buf)) buf 20
  ok (record {
    header = h;
    flags = flags;
    cursor_id = cursor_id;
    starting_from = starting_from;
    number_returned = number_returned;
    docs = docs;
  })

-- `if len(buf) < n { return err }; buf = buf[n:]`, for the name and for a document.
unfoldable pub skip_name : List ℕ → List ℕ → Outcome (List ℕ)
skip_name s buf = do
  guard (leb (length s + 1) (length buf)) (Error.length_too_short Kind.command)
  slice_from buf (length s + 1)

unfoldable pub skip_bson : SimpleBson → List ℕ → Outcome (List ℕ)
skip_bson d buf = do
  guard (not (slt64 (length buf) (int_of d.size))) (Error.length_too_short Kind.command)
  slice_from buf (int_of d.size)

unfoldable pub parse_command : MessageHeader → List ℕ → Outcome CommandMessage
parse_command h buf = do
  db ← read_cstring buf
  at_name ← skip_name db buf
  cmd_name ← read_cstring at_name
  at_args ← skip_name cmd_name at_name
  command_args ← parse_simple_bson at_args
  at_metadata ← skip_bson command_args at_args
  metadata ← parse_simple_bson at_metadata
  at_docs ← skip_bson metadata at_metadata
  input_docs ← docs_loop (suc (length at_docs)) at_docs
  ok (record {
    header = h;
    db = db;
    cmd_name = cmd_name;
    command_args = command_args;
    metadata = metadata;
    input_docs = input_docs;
  })

unfoldable pub parse_command_reply : MessageHeader → List ℕ → Outcome CommandReplyMessage
parse_command_reply h buf = do
  command_reply ← parse_simple_bson buf
  at_metadata ← skip_bson command_reply buf
  metadata ← parse_simple_bson at_metadata
  at_docs ← skip_bson metadata at_metadata
  output_docs ← docs_loop (suc (length at_docs)) at_docs
  ok (record {
    header = h;
    command_reply = command_reply;
    metadata = metadata;
    output_docs = output_docs;
  })
