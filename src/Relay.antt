-- ===== src/Relay.antt =====
-- What a proxy does to any message: `ReadMessage` on one side and `SendMessage` on the other.
pub mod Heads
pub mod Kinds
pub mod Passing
use mongonet.Base.{ℕ, ◌≤◌, ◌≡◌, ◌⊎◌, ap, ◌∙◌, List, ◌++◌, length, Outcome, ok}
use mongonet.Bytes.Layout.{le32}
use mongonet.Wire.{
  MessageHeader, Message, header, op_reply, op_update, op_insert, op_query, op_get_more, op_delete,
  op_kill_cursors, op_command, op_command_reply, op_msg,
}
use mongonet.Serialize.Layout.{frame}
use mongonet.Msg.Texts.{IsResent}
use mongonet.Socket.{map_ok, serialize}
use mongonet.Forward.{SentAs}

-- What of a body goes out again, by the op code: all of it, its front, its front with the reserved field
-- cleared, or the flags without the checksum bit and the sections.
pub data Kept (code : ℕ) (body out : List ℕ) : Type 0 where
  whole :
      (code ≡ op_insert) ⊎ ((code ≡ op_command) ⊎ (code ≡ op_command_reply))
      → out ≡ body
      → Kept code body out
  front : (rest : List ℕ) → code ≡ op_query → body ≡ out ++ rest → Kept code body out
  cleared :
      (reserved : ℕ) (t rest : List ℕ)
      → ((code ≡ op_update) ⊎ (code ≡ op_delete))
        ⊎ ((code ≡ op_get_more) ⊎ (code ≡ op_kill_cursors))
      → body ≡ le32 reserved ++ (t ++ rest)
      → out ≡ le32 0 ++ t
      → Kept code body out
  sections : code ≡ op_msg → IsResent body out → Kept code body out

-- The message has the header that came in, and goes out behind it, with its whole length there.
pub record IsRelayed (h : MessageHeader) (body : List ℕ) (m : Message) : Type 0 where
  pub head : header m ≡ h
  pub out : List ℕ
  pub after : Message
  pub sent : serialize m ≡ ok (frame h out, after)
  pub kept : Kept h.op_code body out

-- An OP_REPLY, or a message that is passed on.
pub data Relays (h : MessageHeader) (body : List ℕ) (m : Message) : Type 0 where
  replies : h.op_code ≡ op_reply → header m ≡ h → Relays h body m
  relayed : IsRelayed h body m → Relays h body m

-- A message of one kind is passed on where its own `Serialize` writes a frame behind the header.
pub passed_on :
    {M : Type 0} (kind : M → Message) (serialize_kind : M → Outcome (List ℕ × M))
    (h : MessageHeader) (body out : List ℕ) (m : M)
    → header (kind m) ≡ h
    → serialize (kind m) ≡ map_ok (λ r. (r.0, kind r.1)) (serialize_kind m)
    → SentAs serialize_kind h out m
    → Kept h.op_code body out
    → Relays h body (kind m)
passed_on kind serialize_kind h body out m e s f k = Relays.relayed (record {
  head = e;
  out = out;
  after = kind f.0;
  sent = s ∙ ap (map_ok (λ r. (r.0, kind r.1))) f.1;
  kept = k;
})
