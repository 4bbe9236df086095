-- ===== src/Relay/Passing.antt =====
-- A message from one connection is passed on to another.
use mongonet.Base.{
  ℕ, ◌+◌, ◌*◌, ◌^◌, ◌≤◌, ◌<◌, ◌≡◌, ◌≢◌, ◌⊎◌, inl, inr, sym, ap, subst, ◌∙◌, false, Bool-cases, leb,
  leb→le, ◌%◌, List, ◌++◌, All, take, drop, length, arith, ok,
}
use mongonet.Base.Errors.{Ensures, Ensures-bind, Ensures-mono, ◌>>=◌}
use mongonet.Word.{sub32}
use mongonet.Bytes.Read.{IsByte}
use mongonet.Wire.{MessageHeader, Message, header, op_reply}
use mongonet.Serialize.Layout.{IsHeader, sized, frame}
use mongonet.Socket.{Reader, Sink, serialize, parse_body, read_message, send_message}
use mongonet.Socket.ReadResult.{got}
use mongonet.Socket.Read.{read_message-Gives}
use mongonet.Socket.Deliver.{Delivers, read_message-frame}
use mongonet.Socket.Send.{send_message-Ensures}
use mongonet.Relay.{Kept, Relays, replies, relayed}
use mongonet.Relay.Heads.{parse_body-head}
use mongonet.Relay.Kinds.{parse_body-Relays}

-- `Serialize` gives bytes, or an error.
pub record IsSafe (m : Message) : Type 0 where
  pub safe : Ensures (λ _. Unit {0}) (serialize m)

-- A message of at most 200 MB that is no OP_REPLY is serialized without a panic.
pub record IsPassable (m : Message) : Type 0 where
  pub passes : (header m).size ≤ 200 * 1024 * 1024 → ((header m).op_code ≡ op_reply) ⊎ IsSafe m

-- Nothing is read into a message that `Serialize` panics on, but for an OP_REPLY or a size above 200 MB.
pub read_message-IsPassable :
    (r : Reader) (s : r.Source) → Ensures (λ x. IsPassable x.0) (read_message r s)
read_message-IsPassable r s = read_message-Gives IsPassable parsed r s
  where
    settled :
        (h : MessageHeader) (body : List ℕ) (m : Message)
        → Relays h body m
        → ((header m).op_code ≡ op_reply) ⊎ IsSafe m
    settled h body m (replies e q) = inl (ap (λ x. x.op_code) q ∙ e)
    settled h body m (relayed p) =
        inr (record { safe = subst (Ensures (λ _. Unit {0})) (sym p.sent) tt })

    too_big :
        {h : MessageHeader} (m : Message)
        → header m ≡ h
        → (header m).size ≤ 200 * 1024 * 1024
        → leb h.size (200 * 1024 * 1024) ≡ false
        → ⊥
    too_big {h} m e l more =
        let l' : h.size ≤ 200 * 1024 * 1024 = subst (λ x. x.size ≤ 200 * 1024 * 1024) e l in
        ground arith

    parsed :
        (h : MessageHeader) (body : List ℕ)
        → IsHeader h
        → All IsByte body
        → h.size < 2 ^ 32
        → 12 + length body ≡ sub32 h.size 4
        → sub32 h.size 4 < 2 ^ 31
        → Ensures IsPassable (parse_body h body)
    parsed h body v bytes small size w = elim (Bool-cases (leb h.size (200 * 1024 * 1024))) [
      | inl fits ↦
          let l : h.size ≤ 200 * 1024 * 1024 = leb→le _ _ fits in
          Ensures-mono (Relays h body) IsPassable (parse_body h body)
            (λ m p. record { passes = λ _. settled h body m p })
            (parse_body-Relays h body v bytes (omega arith))
      | inr more ↦
          Ensures-mono (λ m. header m ≡ h) IsPassable (parse_body h body)
            (λ m e. record { passes = λ l. absurd (too_big m e l more) })
            (parse_body-head h body v bytes (omega arith))
    ]

-- A message on its way: a header of int32s and a body of bytes, of at most 200 MB together, with another op
-- code than OP_REPLY, come in on a connection (the first four bytes in one read, the others in pieces of any
-- size), and what `ReadMessage` gives is sent. Then there is no panic, and without an error the other
-- connection has been sent one message behind the same header: for an insert, a command and its reply the same
-- body; for a query a front of it; for an update, a delete, a get-more and a kill-cursors a front with the
-- reserved field cleared; for an OP_MSG the flags without the checksum bit and all sections of the body in
-- order, each with its kind, name and documents, up to fewer than five bytes at its end.
pub send_message-read_message :
    (r : Reader) (w : Sink) (h : MessageHeader) (body : List ℕ) (s s1 s2 : r.Source) (t : w.Store)
    → IsHeader h
    → All IsByte body
    → 16 + length body ≤ 200 * 1024 * 1024
    → h.op_code ≢ op_reply
    → r.read s 4 ≡ got (take 4 (frame h body)) s1
    → Delivers r (12 + length body) s1 (drop 4 (frame h body)) s2
    → Ensures
        (λ t'.
          (out : List ℕ) × (w.received t' ≡ w.received t ++ frame h out) × Kept h.op_code body out)
        (read_message r s >>= λ x. send_message w x.0 t >>= λ y. ok y.1)
send_message-read_message r w h body s s1 s2 t v bytes small plain g d =
    let Q : w.Store → Type 0 = λ t'.
      (out : List ℕ) × (w.received t' ≡ w.received t ++ frame h out) × Kept h.op_code body out in
    let h' = sized h body in
    let same : (16 + length body) % 2 ^ 32 ≡ 16 + length body = omega arith in
    subst (λ o. Ensures Q (o >>= λ x. send_message w x.0 t >>= λ y. ok y.1))
      (sym (read_message-frame r h body s s1 s2 v small g d))
      (Ensures-bind (λ x. Relays h' body x.0) Q (parse_body h' body >>= λ m. ok (m, s2)) _
        (Ensures-bind (Relays h' body) (λ x. Relays h' body x.0) (parse_body h' body) _
          (parse_body-Relays h' body
            (record { request = v.request; response = v.response; code = v.code }) bytes
            (omega arith))
          λ m p. p)
        λ x p. send x.0 p)
  where
    send :
        (m : Message)
        → Relays (sized h body) body m
        → Ensures
            (λ t'.
              (out : List ℕ) × (w.received t' ≡ w.received t ++ frame h out)
              × Kept h.op_code body out)
            (send_message w m t >>= λ y. ok y.1)
    send m (replies e q) = absurd (plain e)
    send m (relayed p) =
        Ensures-bind
          (λ y. (y.0 ≡ p.after) × (w.received y.1 ≡ w.received t ++ frame (sized h body) p.out))
          (λ t'.
            (out : List ℕ) × (w.received t' ≡ w.received t ++ frame h out)
            × Kept h.op_code body out)
          (send_message w m t) _
          (send_message-Ensures w m p.after (frame (sized h body) p.out) t p.sent)
          λ y k. (p.out, k.1, p.kept)
