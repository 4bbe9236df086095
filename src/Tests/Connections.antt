-- ===== src/Tests/Connections.antt =====
-- sock.go: messages on connections. namespace.go: a namespace.
use mongonet.Base.{
  ℕ, ◌+◌, ◌*◌, ◌^◌, ◌≤◌, ◌<◌, ◌≡◌, ◌↔◌, ◌⊎◌, inl, inr, refl, sym, ap, append-nil, List, [], ◌∷◌,
  ◌++◌, false, All, All-take, All-drop, arith, length, take, drop, length-take, ok,
}
use mongonet.Base.Errors.{Ensures}
use mongonet.Bytes.Layout.{le32}
use mongonet.Bytes.Read.{IsByte}
use mongonet.Wire.{Message}
use mongonet.Serialize.Layout.{sized, frame}
use mongonet.Serialize.Queries.{get_more_body, serialize_get_more-frame}
use mongonet.Socket.ReadResult.{got}
use mongonet.Socket.WriteResult.{wrote}
use mongonet.Socket.{
  ReadResult, Reader, WriteResult, IsWritten, Sink, check_size, map_ok, read_message, serialize,
  send_message,
}
use mongonet.Socket.Read.{check_size_iff, read_message-Ensures}
use mongonet.Socket.Send.{send_message-Ensures}
use mongonet.Namespace.{namespace_to_db, namespace_to_collection, namespace_is_command}
use mongonet.Namespace.Parts.{NoDot, starts_with_dollar, namespace-parts}
use mongonet.Tests.Data.{
  all_bytes-IsByte, some_header, some_header-IsHeader, name, query_text, get_more,
}

abbrev pub Bytes : Type 0
Bytes = (s : List ℕ) × All IsByte s

abbrev read_buffer : Bytes → ℕ → ReadResult Bytes
read_buffer (s, h) n = got (take n s) (drop n s, All-drop IsByte n s h)

-- A connection that gives the bytes of a buffer.
abbrev pub buffer : Reader
buffer = record {
  Source = Bytes;
  read = read_buffer;
  within = λ s n. (omega (arith, length-take n s.0), All-take IsByte n s.0 s.1);
}

abbrev pub query_frame : List ℕ
query_frame = le32 (16 + length query_text) ++ (le32 7 ++ (le32 0 ++ (le32 2004 ++ query_text)))

read_message-Ensures_example :
    Ensures (λ _. Unit {0}) (read_message buffer (query_frame, all_bytes-IsByte query_frame refl))
read_message-Ensures_example =
    read_message-Ensures buffer (query_frame, all_bytes-IsByte query_frame refl)

check_size_iff_example : (check_size (2 ^ 31 + 3) ≡ ok tt) ↔ (
    ((4 ≤ 2 ^ 31 + 3) × (2 ^ 31 + 3 ≤ 200 * 1024 * 1024))
    ⊎ ((2 ^ 31 ≤ 2 ^ 31 + 3) × (2 ^ 31 + 3 < 2 ^ 31 + 4)))
check_size_iff_example = check_size_iff (2 ^ 31 + 3) (omega arith)

abbrev pub write_slowly : List ℕ → List ℕ → WriteResult (List ℕ)
write_slowly s [] = wrote 0 s
write_slowly s (b ∷ bs) = wrote 1 (s ++ (b ∷ []))

pub write_slowly-IsWritten : (s buf : List ℕ) → IsWritten (λ t. t) s buf (write_slowly s buf)
write_slowly-IsWritten s [] = (omega arith, inl refl, sym (append-nil s))
write_slowly-IsWritten s (b ∷ bs) = (omega arith, inr (omega arith), refl)

-- A connection that takes one byte in each write.
abbrev pub slow : Sink
slow = record {
  Store = List ℕ;
  write = write_slowly;
  received = λ s. s;
  written = write_slowly-IsWritten;
}

pub sent_get_more :
    serialize (Message.get_more get_more)
    ≡ ok (
      frame some_header (get_more_body get_more),
      Message.get_more (record get_more { header = sized some_header (get_more_body get_more) }),
    )
unfolding serialize
sent_get_more = ap (map_ok (λ r. (r.0, Message.get_more r.1))) (
    serialize_get_more-frame get_more (record {
      head = some_header-IsHeader;
      n_return = omega arith;
      cursor_id = omega arith;
      fits = omega arith;
    }))

send_message-Ensures_example :
    Ensures
      (λ r.
        (r.0
          ≡ Message.get_more
              (record get_more { header = sized some_header (get_more_body get_more) }))
        × (r.1 ≡ [] ++ frame some_header (get_more_body get_more)))
      (send_message slow (Message.get_more get_more) [])
send_message-Ensures_example =
    send_message-Ensures slow (Message.get_more get_more)
      (Message.get_more (record get_more { header = sized some_header (get_more_body get_more) }))
      (frame some_header (get_more_body get_more)) [] sent_get_more

namespace-parts_example :
    (NoDot name
      × (namespace_to_db name ≡ ok name)
      × (namespace_to_collection name ≡ ok [])
      × (namespace_is_command name ≡ ok false))
    ⊎ ((db : List ℕ) × (coll : List ℕ) × (name ≡ db ++ (46 ∷ coll))
        × NoDot db
        × (namespace_to_db name ≡ ok db)
        × (namespace_to_collection name ≡ ok coll)
        × (namespace_is_command name ≡ ok (starts_with_dollar coll)))
namespace-parts_example = namespace-parts name
