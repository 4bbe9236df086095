-- ===== src/Proxy/Sending.antt =====
-- sock.go and proxy.go: what a message that is sent leaves as it was.
use mongonet.Base.{
  ℕ, zero, suc, ◌≡◌, refl, List, Bool, ◌==◌, length, leb, Outcome, ok, err, panic, hang,
}
use mongonet.Base.Errors.{Ensures, Ensures-mono}
use mongonet.Bytes.{slice_from}
use mongonet.Wire.{Message, header}
use mongonet.Serialize.{
  with_message, serialize_reply, serialize_update, serialize_query, serialize_get_more,
  serialize_insert, serialize_delete, serialize_kill_cursors, serialize_command,
  serialize_command_reply,
}
use mongonet.Msg.Serialize.{serialize_message}
use mongonet.Socket.WriteResult.{wrote, broken}
use mongonet.Socket.{Sink, WriteResult, map_ok, serialize, after_write, send_bytes, send_message}
use mongonet.Socket.Send.{send_message-Ensures}
use mongonet.Relay.Passing.{IsSafe}
use mongonet.Proxy.{in_exhaust_mode}
use mongonet.Proxy.Keeping.{Keeps, Keeps-bind, Keeps-if}

pub Keeps-Ensures :
    {A : Type 0} (P : A → Type 0) (m : Outcome A)
    → Keeps P m
    → Ensures (λ _. Unit {0}) m
    → Ensures P m
Keeps-Ensures P (ok a) h e = h
Keeps-Ensures P (err x) h e = tt
Keeps-Ensures P panic h e = e
Keeps-Ensures P hang h e = e

with_message-Keeps :
    {M : Type 0} (f : M → Message) (mode : Outcome Bool) (m : M) (o : Outcome (List ℕ))
    → in_exhaust_mode (f m) ≡ mode
    → Keeps {A = List ℕ × Message}
        (λ r. in_exhaust_mode r.1 ≡ mode)
        (map_ok (λ r. (r.0, f r.1)) (with_message m o))
with_message-Keeps f mode m (ok b) e = e
with_message-Keeps f mode m (err x) e = tt
with_message-Keeps f mode m panic e = tt
with_message-Keeps f mode m hang e = tt

-- `Serialize` sets the size in the header, and leaves the op code and the flags of a query.
serialize-in_exhaust_mode :
    (m : Message) → Keeps (λ r. in_exhaust_mode r.1 ≡ in_exhaust_mode m) (serialize m)
unfolding serialize header serialize_reply serialize_update serialize_query serialize_get_more
    serialize_insert serialize_delete serialize_kill_cursors serialize_command
    serialize_command_reply serialize_message
serialize-in_exhaust_mode (Message.reply m) =
    with_message-Keeps Message.reply (in_exhaust_mode (Message.reply m)) _ _ refl
serialize-in_exhaust_mode (Message.update m) =
    with_message-Keeps Message.update (in_exhaust_mode (Message.update m)) _ _ refl
serialize-in_exhaust_mode (Message.query m) =
    with_message-Keeps Message.query (in_exhaust_mode (Message.query m)) _ _ refl
serialize-in_exhaust_mode (Message.get_more m) =
    with_message-Keeps Message.get_more (in_exhaust_mode (Message.get_more m)) _ _ refl
serialize-in_exhaust_mode (Message.insert m) =
    with_message-Keeps Message.insert (in_exhaust_mode (Message.insert m)) _ _ refl
serialize-in_exhaust_mode (Message.delete m) =
    with_message-Keeps Message.delete (in_exhaust_mode (Message.delete m)) _ _ refl
serialize-in_exhaust_mode (Message.kill_cursors m) =
    with_message-Keeps Message.kill_cursors (in_exhaust_mode (Message.kill_cursors m)) _ _ refl
serialize-in_exhaust_mode (Message.command m) =
    with_message-Keeps Message.command (in_exhaust_mode (Message.command m)) _ _ refl
serialize-in_exhaust_mode (Message.command_reply m) =
    with_message-Keeps Message.command_reply (in_exhaust_mode (Message.command_reply m)) _ _ refl
serialize-in_exhaust_mode (Message.message m) =
    with_message-Keeps Message.message (in_exhaust_mode (Message.message m)) _ _ refl

-- What each write that takes bytes leaves, `sendBytes` leaves.
module _ (w : Sink) (R : w.Store → Type 0)
    (step : (s : w.Store) (buf : List ℕ) (n : ℕ) (s' : w.Store)
      → w.write s buf ≡ wrote n s'
      → R s
      → R s') where
  open w use {Store}

  send_bytes-Keeps : (fuel : ℕ) (buf : List ℕ) (s : Store) → R s → Keeps R (send_bytes w fuel buf s)
  unfolding send_bytes after_write slice_from
  send_bytes-Keeps zero buf s h = tt
  send_bytes-Keeps (suc fuel) buf s h =
      written (w.write s buf) refl (λ rest s' k. send_bytes-Keeps fuel rest s' k)
    where
      written :
          (x : WriteResult Store)
          → w.write s buf ≡ x
          → ((rest : List ℕ) (s' : Store) → R s' → Keeps R (send_bytes w fuel rest s'))
          → Keeps R (after_write (λ rest s'. send_bytes w fuel rest s') buf x)
      written (broken e s') q next = tt
      written (wrote n s') q next =
          let k = step s buf n s' q h in
          Keeps-if R (n == length buf) (ok s') _ (λ _. k)
            (λ _.
              Keeps-bind (λ _. Unit {0}) R (slice_from buf n) (λ rest. send_bytes w fuel rest s')
                (Keeps-if (λ _. Unit {0}) (leb n (length buf)) _ _ (λ _. tt) (λ _. tt))
                (λ rest _. next rest s' k))

  send_message-Keeps :
      (m : Message) (s : Store)
      → R s
      → Keeps (λ r. (in_exhaust_mode r.0 ≡ in_exhaust_mode m) × R r.1) (send_message w m s)
  unfolding send_message
  send_message-Keeps m s h =
      let Q : Message × Store → Type 0 = λ r. (in_exhaust_mode r.0 ≡ in_exhaust_mode m) × R r.1 in
      Keeps-bind (λ r. in_exhaust_mode r.1 ≡ in_exhaust_mode m) Q (serialize m) _
        (serialize-in_exhaust_mode m)
        λ r e.
          Keeps-bind R Q (send_bytes w (suc (length r.0)) r.0 s) _
            (send_bytes-Keeps (suc (length r.0)) r.0 s h) λ s' k. (e, k)

  send_message-safe :
      (m : Message) (s : Store) → IsSafe m → Ensures (λ _. Unit {0}) (send_message w m s)
  unfolding send_message
  send_message-safe m s h = serialized (serialize m) refl h.safe
    where
      serialized :
          (o : Outcome (List ℕ × Message))
          → serialize m ≡ o
          → Ensures (λ _. Unit {0}) o
          → Ensures (λ _. Unit {0}) (send_message w m s)
      serialized (ok (b, m')) q k =
          Ensures-mono (λ r. (r.0 ≡ m') × (w.received r.1 ≡ _)) (λ _. Unit {0}) (send_message w m s)
            (λ r _. tt) (send_message-Ensures w m m' b s q)
      serialized (err e) q k = rw (q, send_message) tt
      serialized panic q k = absurd k
      serialized hang q k = absurd k

  -- A message that `Serialize` does not panic on is sent, or gives an error.
  pub send_message-Sends :
      (m : Message) (s : Store)
      → IsSafe m
      → R s
      → Ensures (λ r. (in_exhaust_mode r.0 ≡ in_exhaust_mode m) × R r.1) (send_message w m s)
  send_message-Sends m s safe h =
      Keeps-Ensures (λ r. (in_exhaust_mode r.0 ≡ in_exhaust_mode m) × R r.1) (send_message w m s)
        (send_message-Keeps m s h) (send_message-safe m s safe)
