-- ===== src/Tests/Relays.antt =====
-- proxy.go: an insert that comes in pieces and is passed on a byte at a time.
use mongonet.Base.{ℕ, ◌≡◌, refl, List, [], ◌++◌, arith, ok}
use mongonet.Base.Errors.{Ensures, ◌>>=◌}
use mongonet.Serialize.Layout.{sized, frame}
use mongonet.Serialize.Writes.{insert_body}
use mongonet.Socket.{parse_body, read_message, send_message}
use mongonet.Relay.{Kept, Relays}
use mongonet.Relay.Kinds.{parse_body-Relays}
use mongonet.Relay.Passing.{send_message-read_message}
use mongonet.Tests.Connections.{slow}
use mongonet.Tests.Data.{all_bytes-IsByte}
use mongonet.Tests.Deliveries.{
  pieces, insert_header, insert_header-IsHeader, two_docs, at_start, behind_size, at_end,
  sent-Delivers,
}

-- The body of an insert of two documents.
abbrev body : List ℕ
body = insert_body two_docs

parse_body-Relays_example :
    Ensures (Relays (sized insert_header body) body) (parse_body (sized insert_header body) body)
parse_body-Relays_example =
    parse_body-Relays (sized insert_header body) body
      (record { request = omega arith; response = omega arith; code = omega arith })
      (all_bytes-IsByte body refl) (omega arith)

send_message-read_message_example :
    Ensures
      (λ t.
        (out : List ℕ) × (slow.received t ≡ slow.received [] ++ frame insert_header out)
        × Kept 2002 body out)
      (read_message pieces at_start >>= λ x. send_message slow x.0 [] >>= λ y. ok y.1)
send_message-read_message_example =
    send_message-read_message pieces slow insert_header body at_start behind_size at_end []
      insert_header-IsHeader (all_bytes-IsByte body refl) (omega arith) (omega arith) refl
      sent-Delivers
