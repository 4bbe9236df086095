-- ===== src/Tests/Snis.antt =====
-- sni_tester.go: sessions with its interceptor.
use mongonet.Base.{
  ℕ, true, ◌+◌, ◌≡◌, ◌≢◌, refl, subst, inr, List, [], ◌++◌, drop, All-drop, false, Option, none,
  some, length, arith, ok, Error,
}
use mongonet.Base.Errors.{Ensures}
use mongonet.Word.{int_of, slt64, slt32}
use mongonet.Bytes.{slice_from, slice_to, read_int32, cstring_loop, read_cstring}
use mongonet.Bytes.Read.{IsByte}
use mongonet.Bytes.Layout.{le32}
use mongonet.Bson.{docs_loop, parse_sized_bson, parse_simple_bson}
use mongonet.Document.{Value, Document}
use mongonet.Wire.{CommandMessage, Message, header}
use mongonet.Serialize.Layout.{cstring}
use mongonet.Namespace.{namespace_is_command, index_dot, byte_at}
use mongonet.Parse.{parse_command, skip_name, skip_bson}
use mongonet.Socket.{
  check_size, parse_body, parse_rest, after_read, take_size, read_rest, read_message,
}
use mongonet.Respond.Answers.{answer_bytes}
use mongonet.Pool.Opening.{IsOpen}
use mongonet.Pool.Reach.{Reachable-IsValid}
use mongonet.Proxy.{client, reader, do_loop, do_loop_temp}
use mongonet.Proxy.Keeping.{IsHolding}
use mongonet.Sni.{sni, my_interceptor}
use mongonet.Sni.Passing.{IsSni, do_loop_temp-my_interceptor}
use mongonet.Sni.Answering.{IsAsking, IsToldSni, do_loop-IsToldSni}
use mongonet.Tests.Answers.{marshal}
use mongonet.Tests.Data.{all_bytes-IsByte, doc, name}
use mongonet.Tests.Endings
use mongonet.Tests.Pools.{busy_pool, busy_pool-Reachable}
use mongonet.Tests.Sessions
use mongonet.Tests.Turns.{query}

-- A driver that reads the document { sni: 1 } everywhere.
abbrev unmarshal : List ℕ → Option Document
unmarshal _ = some (Document.elem sni (Value.int 1) Document.empty)

not_both : ok false ≢ ok true
not_both e = cc

abbrev text : Error → List ℕ
text _ = name

query-IsSni : ¬ IsSni unmarshal (Message.query query)
unfolding namespace_is_command index_dot slice_from byte_at
query-IsSni (e, a) = not_both e

ordinary :
    (w : Endings.World) (m : Message) (w' : Endings.World)
    → read_message (reader Endings.network marshal none client) w ≡ ok (m, w')
    → ¬ IsSni unmarshal m
ordinary w m w' q = subst (λ x. ¬ IsSni unmarshal x) (Endings.from_client w m w' q).0 query-IsSni

do_loop_temp-my_interceptor_example :
    do_loop_temp Endings.network marshal
      (some (my_interceptor Endings.network marshal unmarshal text name))
      4
      1
      none
      busy_pool
      (3, ([], []))
    ≡ do_loop_temp Endings.network marshal none 4 1 none busy_pool (3, ([], []))
do_loop_temp-my_interceptor_example =
    do_loop_temp-my_interceptor Endings.network marshal unmarshal text name ordinary 4 1 none
      busy_pool (3, ([], []))

-- The command "sni" by an OP_COMMAND.
abbrev command_text : List ℕ
command_text = cstring name ++ (cstring sni ++ (doc.bson ++ doc.bson))

abbrev command_frame : List ℕ
command_frame =
    le32 (16 + length command_text) ++ (le32 7 ++ (le32 0 ++ (le32 2010 ++ command_text)))

abbrev at_start : Sessions.World
at_start = record Sessions.at_start {
  client_says = (command_frame, all_bytes-IsByte command_frame refl);
}

abbrev asked : Sessions.World
asked = record at_start {
  client_says = (
    drop 38 (drop 4 command_frame),
    All-drop IsByte 38 (drop 4 command_frame)
        (All-drop IsByte 4 command_frame at_start.client_says.1),
  );
}

abbrev sni_command : CommandMessage
sni_command = record {
  header = record { size = 16 + 26; request_id = 7; response_to = 0; op_code = 2010 };
  db = name;
  cmd_name = sni;
  command_args = doc;
  metadata = doc;
  input_docs = [];
}

command-read :
    read_message (reader Sessions.network marshal none client) at_start
    ≡ ok (Message.command sni_command, asked)
unfolding read_message take_size read_int32 check_size read_rest after_read parse_rest parse_body
    parse_command skip_name skip_bson docs_loop read_cstring cstring_loop slice_from
    parse_simple_bson parse_sized_bson int_of slt64 slt32 slice_to
command-read = refl

busy_pool-IsHolding : IsHolding (IsOpen busy_pool) none busy_pool
busy_pool-IsHolding = record {
  valid = Reachable-IsValid busy_pool busy_pool-Reachable;
  mine = λ id e. let q : none ≡ some id = e in absurd (cc);
  no_other = λ j o. inr o;
  theirs = λ j o. (o, λ e. let q : none ≡ some j = e in absurd (cc));
}

do_loop-IsToldSni_example :
    Ensures
      (IsToldSni Sessions.network marshal unmarshal text name none busy_pool asked
        (answer_bytes 2010 7 doc.bson))
      (do_loop Sessions.network marshal
        (some (my_interceptor Sessions.network marshal unmarshal text name))
        1
        none
        busy_pool
        at_start)
unfolding header
do_loop-IsToldSni_example =
    do_loop-IsToldSni Sessions.network marshal unmarshal text name (IsOpen busy_pool) 1 none
      busy_pool at_start asked (Message.command sni_command) doc.bson busy_pool-IsHolding
      command-read (IsAsking.by_command refl refl) (omega arith) refl (omega arith)
