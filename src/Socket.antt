-- ===== src/Socket.antt =====
-- sock.go: messages on a connection. The connection is a parameter: `Reader` and `Sink` are Go's
-- io.Reader and io.Writer with what their documentation promises.
pub mod Body
pub mod Read
pub mod Send
pub mod Deliver
use mongonet.Base.{
  ℕ, zero, suc, ◌+◌, ◌-◌, ◌*◌, ◌^◌, ◌≤◌, ◌<◌, ◌≡◌, ◌⊎◌, List, [], ◌∷◌, ◌++◌, Bool, not, ◌||◌, leb,
  ◌==◌, if◌then◌else◌, length, All, take, drop, replicate, Outcome, ok, err, panic, hang, Error,
  IoError,
}
use mongonet.Base.Errors.{◌>>=◌, ◌>>◌, guard}
use mongonet.Word.{slt32, sub32}
use mongonet.Bytes.{slice_from, read_int32}
use mongonet.Bytes.Read.{IsByte}
use mongonet.Wire.{
  MessageHeader, Message, op_reply, op_update, op_insert, op_query, op_get_more, op_delete,
  op_kill_cursors, op_command, op_command_reply, op_msg,
}
use mongonet.Serialize.{
  serialize_query, serialize_update, serialize_delete, serialize_get_more, serialize_insert,
  serialize_kill_cursors, serialize_reply, serialize_command, serialize_command_reply,
}
use mongonet.Msg.Serialize.{serialize_message}
use mongonet.Msg.{parse_message}
use mongonet.Parse.{
  max_int32, parse_query, parse_update, parse_delete, parse_get_more, parse_insert,
  parse_kill_cursors, parse_reply, parse_command, parse_command_reply,
}

-- What `Read` gives for a buffer: bytes, or an error (then the code looks at nothing else).
pub data ReadResult (S : Type 0) : Type 0 where
  got : List ℕ → S → ReadResult S
  failed : IoError → S → ReadResult S

abbrev pub IsRead : {S : Type 0} → ℕ → ReadResult S → Type 0
IsRead n (got bs s) = (length bs ≤ n) × All IsByte bs
IsRead n (failed e s) = Unit {0}

-- io.Reader: `Read(p)` gives at most len(p) bytes.
pub record Reader : Type 1 where
  pub Source : Type 0
  pub read : Source → ℕ → ReadResult Source
  pub within : (s : Source) (n : ℕ) → IsRead n (read s n)

-- What `Write` gives: the number of bytes taken, or an error.
pub data WriteResult (S : Type 0) : Type 0 where
  wrote : ℕ → S → WriteResult S
  broken : IoError → S → WriteResult S

-- The answer to a write of `buf` on a connection that `received` some bytes before: at most the bytes
-- of `buf`, at least one where there is one, and the connection has received those.
abbrev pub IsWritten : {S : Type 0} → (S → List ℕ) → List ℕ → List ℕ → WriteResult S → Type 0
IsWritten received before buf (wrote n s) =
    (n ≤ length buf) × ((n ≡ length buf) ⊎ (0 < n)) × (received s ≡ before ++ take n buf)
IsWritten received before buf (broken e s) = Unit {0}

-- io.Writer: `received` is what the other side has been sent so far.
pub record Sink : Type 1 where
  pub Store : Type 0
  pub write : Store → List ℕ → WriteResult Store
  pub received : Store → List ℕ
  pub written : (s : Store) (buf : List ℕ) → IsWritten received (received s) buf (write s buf)

-- The tests of the header's size.
unfoldable pub check_size : ℕ → Outcome (Unit {0})
check_size size = do
  guard (not (slt32 (200 * 1024 * 1024) size))
      (if size == 542393671 then Error.http_request size else Error.message_too_big size)
  guard (not (slt32 (sub32 size 4) 0 || slt32 max_int32 (sub32 size 4)))
      (Error.header_size_invalid size)

abbrev pub map_ok : {A B : Type 0} → (A → B) → Outcome A → Outcome B
map_ok f (ok a) = ok (f a)
map_ok f (err e) = err e
map_ok f panic = panic
map_ok f hang = hang

-- `switch header.OpCode`
unfoldable pub parse_body : MessageHeader → List ℕ → Outcome Message
parse_body h body =
    if h.op_code == op_reply
    then map_ok Message.reply (parse_reply h body)
    else if h.op_code == op_update
    then map_ok Message.update (parse_update h body)
    else if h.op_code == op_insert
    then map_ok Message.insert (parse_insert h body)
    else if h.op_code == op_query
    then map_ok Message.query (parse_query h body)
    else if h.op_code == op_get_more
    then map_ok Message.get_more (parse_get_more h body)
    else if h.op_code == op_delete
    then map_ok Message.delete (parse_delete h body)
    else if h.op_code == op_kill_cursors
    then map_ok Message.kill_cursors (parse_kill_cursors h body)
    else if h.op_code == op_command
    then map_ok Message.command (parse_command h body)
    else if h.op_code == op_command_reply
    then map_ok Message.command_reply (parse_command_reply h body)
    else if h.op_code == op_msg
    then map_ok Message.message (parse_message h body)
    else err (Error.unknown_op_code h.op_code)

-- The rest of the header and the body, from `restBuf`.
unfoldable pub parse_rest : ℕ → List ℕ → Outcome Message
parse_rest size rest = do
  guard (leb 12 (length rest)) (Error.header_too_short size)
  request_id ← read_int32 rest
  at_response ← slice_from rest 4
  response_to ← read_int32 at_response
  at_code ← slice_from rest 8
  op_code ← read_int32 at_code
  body ← slice_from rest 12
  parse_body
      (record {
        size = size;
        request_id = request_id;
        response_to = response_to;
        op_code = op_code;
      })
      body

-- What follows a read into `restBuf[read:]`, of which `missing` bytes are left: no bytes end the loop
-- and leave zeros, others go on with it.
unfoldable pub after_read :
    {S : Type 0}
    → (List ℕ → S → Outcome (List ℕ × S))
    → List ℕ
    → ℕ
    → ReadResult S
    → Outcome (List ℕ × S)
after_read next bytes missing (failed e s) = err (Error.io e)
after_read next bytes missing (got [] s) = ok (bytes ++ replicate missing 0, s)
after_read next bytes missing (got (b ∷ bs) s) = next (bytes ++ (b ∷ bs)) s

-- The first read is into a buffer of four bytes, and has to fill it.
unfoldable pub take_size : {S : Type 0} → ReadResult S → Outcome (ℕ × S)
take_size (failed e s) = err (Error.io e)
take_size (got bs s) = do
  guard (length bs == 4) (Error.size_not_read (length bs))
  size ← read_int32 bs
  ok (size, s)

module _ (r : Reader) where
  open r use {Source, read}

  -- `for read := 0; int32(read) < header.Size-4;`, with the bytes read so far.
  unfoldable pub read_rest : ℕ → ℕ → List ℕ → Source → Outcome (List ℕ × Source)
  read_rest zero want bytes s = hang
  read_rest (suc fuel) want bytes s =
      let missing = want - length bytes in
      let round : Outcome (List ℕ × Source) =
        after_read (λ bs s'. read_rest fuel want bs s') bytes missing (read s missing) in
      if slt32 (length bytes) want then round else ok (bytes, s)

  unfoldable pub read_message : Source → Outcome (Message × Source)
  read_message s = do
    (size, s1) ← take_size (read s 4)
    check_size size
    (rest, s2) ← read_rest (suc (sub32 size 4)) (sub32 size 4) [] s1
    m ← parse_rest size rest
    ok (m, s2)

-- `m.Serialize()`
unfoldable pub serialize : Message → Outcome (List ℕ × Message)
serialize (Message.reply m) = map_ok (λ r. (r.0, Message.reply r.1)) (serialize_reply m)
serialize (Message.update m) = map_ok (λ r. (r.0, Message.update r.1)) (serialize_update m)
serialize (Message.query m) = map_ok (λ r. (r.0, Message.query r.1)) (serialize_query m)
serialize (Message.get_more m) = map_ok (λ r. (r.0, Message.get_more r.1)) (serialize_get_more m)
serialize (Message.insert m) = map_ok (λ r. (r.0, Message.insert r.1)) (serialize_insert m)
serialize (Message.delete m) = map_ok (λ r. (r.0, Message.delete r.1)) (serialize_delete m)
serialize (Message.kill_cursors m) =
    map_ok (λ r. (r.0, Message.kill_cursors r.1)) (serialize_kill_cursors m)
serialize (Message.command m) = map_ok (λ r. (r.0, Message.command r.1)) (serialize_command m)
serialize (Message.command_reply m) =
    map_ok (λ r. (r.0, Message.command_reply r.1)) (serialize_command_reply m)
serialize (Message.message m) = map_ok (λ r. (r.0, Message.message r.1)) (serialize_message m)

-- What follows a write of `buf`: what it did not take is written again.
unfoldable pub after_write :
    {S : Type 0} → (List ℕ → S → Outcome S) → List ℕ → WriteResult S → Outcome S
after_write next buf (broken e s) = err (Error.write_failed e)
after_write next buf (wrote n s) =
    if n == length buf then ok s else slice_from buf n >>= λ rest. next rest s

module _ (w : Sink) where
  open w use {Store, write}

  -- `sendBytes`
  unfoldable pub send_bytes : ℕ → List ℕ → Store → Outcome Store
  send_bytes zero buf s = hang
  send_bytes (suc fuel) buf s = after_write (λ rest s'. send_bytes fuel rest s') buf (write s buf)

  -- `SendMessage`. The fuel is a round for each byte, and one more.
  unfoldable pub send_message : Message → Store → Outcome (Message × Store)
  send_message m s = do
    (buf, m') ← serialize m
    s' ← send_bytes (suc (length buf)) buf s
    ok (m', s')
