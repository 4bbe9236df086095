-- ===== src/Tests/Turns.antt =====
-- proxy.go: a turn of a session, message by message.
use mongonet.Base.{
  ◌+◌, ◌≡◌, refl, sym, ap, subst, ◌∙◌, [], ◌∷◌, none, some, length, drop, All-drop, Outcome, ok,
}
use mongonet.Base.Errors.{Ensures}
use mongonet.Word.{int_of, slt64, slt32, sar32, sar64}
use mongonet.Bytes.{slice_from, slice_to, read_int32, read_int64, cstring_loop, read_cstring}
use mongonet.Bytes.Writer.{write_byte, copy_at, write_int32, write_int64, write_cstring, fill}
use mongonet.Bytes.Read.{IsByte}
use mongonet.Bson.Write.{copy_bson}
use mongonet.Bson.{parse_sized_bson, parse_simple_bson, docs_from, add_sizes}
use mongonet.Wire.{Message, QueryMessage, ReplyMessage, has_response, header}
use mongonet.Parse.{parse_project, parse_query, parse_reply}
use mongonet.Serialize.{
  write_into, write_query, serialize_query, copy_reply_docs, write_reply, serialize_reply,
}
use mongonet.Socket.{
  check_size, parse_body, parse_rest, after_read, take_size, read_rest, read_message, serialize,
  after_write, send_bytes, send_message,
}
use mongonet.Pool.{ConnectionPool, get, get_pooled, create, add_created}
use mongonet.Pool.Reach.{Reachable, Reachable-IsValid}
use mongonet.Proxy.{client, server, reader, sink, do_loop}
use mongonet.Proxy.Answering.{IsAnswering, IsAnswered, do_loop-IsAnswered}
use mongonet.Tests.Answers.{marshal}
use mongonet.Tests.Connections.{query_frame}
use mongonet.Tests.Data.{doc, name, reply_text}
use mongonet.Tests.Pools.{empty_pool, nothing}
use mongonet.Tests.Sessions.{World, network, reply_frame, at_start}

abbrev pub query : QueryMessage
query = record {
  header = record { size = 16 + 25; request_id = 7; response_to = 0; op_code = 2004 };
  flags = 4;
  namespace = name;
  skip = 0;
  n_return = 4294967295;
  query = doc;
  project = record { size = 0; bson = [] };
}

abbrev asked : World
asked = record at_start {
  client_says = (
    drop 37 (drop 4 query_frame),
    All-drop IsByte 37 (drop 4 query_frame) (All-drop IsByte 4 query_frame at_start.client_says.1),
  );
}

query-read :
    read_message (reader network marshal none client) at_start ≡ ok (Message.query query, asked)
unfolding read_message take_size read_int32 check_size read_rest after_read parse_rest parse_body
    parse_query read_cstring cstring_loop slice_from parse_project parse_simple_bson
    parse_sized_bson int_of slt64 slt32 slice_to
query-read = refl

query-sent : serialize (Message.query query) ≡ ok (query_frame, Message.query query)
unfolding serialize serialize_query fill write_into write_query write_int32 write_byte write_cstring
    copy_at int_of copy_bson sar32
query-sent = refl

-- The server has the whole query.
abbrev sent : World
sent = record asked { server_got = query_frame }

query-passed_on :
    send_message (sink network marshal none (server 6)) (Message.query query) asked
    ≡ ok (Message.query query, sent)
unfolding send_message serialize serialize_query fill write_into write_query write_int32 write_byte
    write_cstring copy_at int_of copy_bson sar32 send_bytes after_write
query-passed_on = refl

abbrev pub reply : ReplyMessage
reply = record {
  header = record { size = 16 + length reply_text; request_id = 8; response_to = 7; op_code = 1 };
  flags = 8;
  cursor_id = 5;
  starting_from = 0;
  number_returned = 2;
  docs = doc ∷ doc ∷ [];
}

abbrev answered : World
answered = record sent {
  server_says = (
    drop 50 (drop 4 reply_frame),
    All-drop IsByte 50 (drop 4 reply_frame) (All-drop IsByte 4 reply_frame at_start.server_says.1),
  );
}

reply-read :
    read_message (reader network marshal none (server 6)) sent ≡ ok (Message.reply reply, answered)
unfolding read_message take_size read_int32 check_size read_rest after_read parse_rest parse_body
    parse_reply read_int64 docs_from slice_from parse_simple_bson parse_sized_bson int_of slt64
    slt32 slice_to
reply-read = refl

pub reply-sent : serialize (Message.reply reply) ≡ ok (reply_frame, Message.reply reply)
unfolding serialize serialize_reply fill write_into write_reply write_int32 write_int64 write_byte
    copy_reply_docs copy_at int_of add_sizes sar32 sar64
reply-sent = refl

abbrev world_or : World → Outcome (Message × World) → World
world_or w (ok r) = r.1
world_or w _ = w

server-IsAnswering :
    IsAnswering network marshal 6 asked
      (Message.query query)
      (Message.query query)
      query_frame
      (Message.reply reply)
server-IsAnswering = record {
  after = answered;
  answers = λ w e got.
      subst
        (λ v.
          read_message (reader network marshal none (server 6)) v
          ≡ ok (Message.reply reply, answered))
        (ap (world_or asked) (sym query-passed_on ∙ e)) reply-read;
  silent = refl;
}

-- The pool that has given the new connection.
abbrev lending : ConnectionPool
lending = add_created 6 empty_pool

lent : get (network.clock asked) (some 6) none empty_pool ≡ ok (some 0, lending)
unfolding get get_pooled create
lent = refl

do_loop-IsAnswered_example :
    Ensures
      (IsAnswered network marshal asked 0 reply_frame)
      (do_loop network marshal none 1 none empty_pool at_start)
unfolding has_response header
do_loop-IsAnswered_example =
    do_loop-IsAnswered network marshal 0 0 (Message.query query) (Message.query query)
      (Message.reply reply) (Message.reply reply) empty_pool lending at_start asked query_frame
      reply_frame (Reachable-IsValid empty_pool (Reachable.start (λ _. nothing))) query-read
      query-sent refl refl lent server-IsAnswering reply-sent
