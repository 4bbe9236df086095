-- ===== src/RoundTrip/Connection.antt =====
-- A message that one side serializes and the other side reads from a connection.
use mongonet.Base.{ℕ, ◌+◌, ◌*◌, ◌≤◌, ◌≡◌, refl, ap, ◌∙◌, List, All, length, take, drop, arith, ok}
use mongonet.Base.Errors.{◌>>=◌}
use mongonet.Bytes.Read.{NoNul}
use mongonet.Bson.Parse.{IsDoc}
use mongonet.Bson.Docs.{All-IsCovered}
use mongonet.Wire.{MessageHeader, Message, InsertMessage, op_insert}
use mongonet.Serialize.{serialize_insert}
use mongonet.Serialize.Layout.{IsHeader, IsInt32, sized, frame}
use mongonet.Serialize.Writes.{insert_body, serialize_insert-frame}
use mongonet.Parse.{parse_insert}
use mongonet.RoundTrip.Legacy.{parse_insert-insert_body}
use mongonet.Socket.ReadResult.{got}
use mongonet.Socket.{Reader, map_ok, parse_body, read_message}
use mongonet.Socket.Deliver.{Delivers, read_message-frame}

parse_body-insert :
    (h : MessageHeader) (body : List ℕ)
    → h.op_code ≡ op_insert
    → parse_body h body ≡ map_ok Message.insert (parse_insert h body)
unfolding parse_body
parse_body-insert h body e = rw e refl

-- An insert (int32 fields, its op code, a namespace without a zero byte, documents that start with their
-- own length of at most 128 MB, at most 200 MB on the wire) is serialized to some bytes, and on a
-- connection that gives these bytes, the first four in one read and the others in pieces of any size,
-- `ReadMessage` gives the message as `Serialize` leaves it.
pub read_message-serialize_insert :
    (r : Reader) (m : InsertMessage) (s s1 s2 : r.Source)
    → IsHeader m.header
    → m.header.op_code ≡ op_insert
    → IsInt32 m.flags
    → NoNul m.namespace
    → All IsDoc m.docs
    → 16 + length (insert_body m) ≤ 200 * 1024 * 1024
    → r.read s 4 ≡ got (take 4 (frame m.header (insert_body m))) s1
    → Delivers r (12 + length (insert_body m)) s1 (drop 4 (frame m.header (insert_body m))) s2
    → (m' : InsertMessage) × (serialize_insert m ≡ ok (frame m.header (insert_body m), m'))
      × (read_message r s ≡ ok (Message.insert m', s2))
read_message-serialize_insert r m s s1 s2 v c hf nn hd u g d =
    let body = insert_body m in
    let h = sized m.header body in
    (
      record m { header = h },
      serialize_insert-frame m
          (record { head = v; flags = hf; docs = All-IsCovered m.docs hd; fits = omega arith }),
      read_message-frame r m.header body s s1 s2 v u g d
          ∙ ap (λ p. p >>= λ x. ok (x, s2))
              (parse_body-insert h body c
                ∙ ap (map_ok Message.insert) (parse_insert-insert_body h m hf nn hd (omega arith))),
    )
