-- ===== src/Checked/Connection.antt =====
-- connchecker.go and sock.go: messages on a CheckedConn, the session's connection to its client.
use mongonet.Base.{
  ℕ, suc, ◌≤◌, ◌≡◌, ◌≢◌, ◌⊎◌, inl, inr, refl, List, [], ◌++◌, Option, none, some, length, take, All,
  arith, Outcome, ok, err, panic, hang, IoError,
}
use mongonet.Base.Errors.{Ensures}
use mongonet.Bytes.Read.{IsByte}
use mongonet.Wire.{Message}
use mongonet.Socket.ReadResult.{got}
use mongonet.Socket.WriteResult.{wrote, broken}
use mongonet.Socket.{
  ReadResult, IsRead, Reader, WriteResult, IsWritten, Sink, serialize, send_message,
}
use mongonet.Socket.Send.{send_message-Ensures}
use mongonet.Checked.{ConnError, Conn, Checker, checked_read, checked_write}
use mongonet.Checked.Reading.{IsStream, checked_read-Ensures}
use mongonet.Checked.Writing.{IsOutlet, checked_write-Ensures}

-- `as_io` is the error as sock.go has it in the text of its own.
module _ (c : Conn) (k : Checker c.State) (as_io : ConnError → IoError) where
  open c use {State}

  -- The two results of `Write`, or of `Read`, for a caller that looks at the error first.
  abbrev pub write_result :
      (P : ℕ × (Option ConnError × State) → Type 0) (s : State)
      (o : Outcome (ℕ × (Option ConnError × State)))
      → Ensures P o
      → WriteResult State
  write_result P s (ok (n, (none, s'))) h = wrote n s'
  write_result P s (ok (n, (some e, s'))) h = broken (as_io e) s'
  write_result P s (err e) h = broken (IoError.failed 0) s
  write_result P s panic h = absurd h
  write_result P s hang h = absurd h

  abbrev pub read_result :
      (P : List ℕ × (Option ConnError × State) → Type 0) (s : State)
      (o : Outcome (List ℕ × (Option ConnError × State)))
      → Ensures P o
      → ReadResult State
  read_result P s (ok (bytes, (none, s'))) h = got bytes s'
  read_result P s (ok (bytes, (some e, s'))) h = ReadResult.failed (as_io e) s'
  read_result P s (err e) h = ReadResult.failed (IoError.failed 0) s
  read_result P s panic h = absurd h
  read_result P s hang h = absurd h

  module _ (w : IsOutlet c k) (p : mongonet.Checked.Writing.IsPatient c k) where
    pub Took : List ℕ → State → ℕ × (Option ConnError × State) → Type 0
    Took buf s r =
        (r.0 ≤ length buf)
        × (w.taken r.1.1 ≡ w.taken s ++ take r.0 buf)
        × ((r.1.0 ≢ none) ⊎ (r.0 ≡ length buf))

    pub write_result-IsWritten :
        (buf : List ℕ) (s : State) (o : Outcome (ℕ × (Option ConnError × State)))
        (h : Ensures (Took buf s) o)
        → IsWritten w.taken (w.taken s) buf (write_result (Took buf s) s o h)
    unfolding Took
    write_result-IsWritten buf s (ok (n, (none, s'))) (l, t, inr e) = (l, inl e, t)
    write_result-IsWritten buf s (ok (n, (none, s'))) (l, t, inl z) = absurd (z refl)
    write_result-IsWritten buf s (ok (n, (some e, s'))) h = tt
    write_result-IsWritten buf s (err e) h = tt
    write_result-IsWritten buf s panic h = absurd h
    write_result-IsWritten buf s hang h = absurd h

    pub checked_write-Took :
        (buf : List ℕ) (s : State)
        → Ensures (Took buf s) (checked_write c k (suc (p.timeouts s)) buf 0 s)
    unfolding Took
    checked_write-Took buf s =
        checked_write-Ensures c k w p (suc (p.timeouts s)) buf s (omega arith)

    -- A CheckedConn as the io.Writer of `SendMessage`.
    abbrev pub checked_sink : Sink
    checked_sink = record {
      Store = State;
      write = λ s buf.
          write_result (Took buf s) s (checked_write c k (suc (p.timeouts s)) buf 0 s)
            (checked_write-Took buf s);
      received = w.taken;
      written = λ s buf.
          write_result-IsWritten buf s (checked_write c k (suc (p.timeouts s)) buf 0 s)
            (checked_write-Took buf s);
    }

    -- On a CheckedConn whose connection gives what it documents and times out a bounded number of times in a
    -- row, `SendMessage` ends without a panic. Where it gives no error, the connection under the
    -- CheckedConn has taken exactly the bytes of `Serialize`, in order, however often it timed out, and
    -- wherever in the message.
    pub send_message-checked :
        (m m' : Message) (bytes : List ℕ) (s : State)
        → serialize m ≡ ok (bytes, m')
        → Ensures
            (λ r. (r.0 ≡ m') × (w.taken r.1 ≡ w.taken s ++ bytes))
            (send_message checked_sink m s)
    send_message-checked m m' bytes s e = send_message-Ensures checked_sink m m' bytes s e

  module _ (w : IsStream c k) (p : mongonet.Checked.Reading.IsPatient c k) where
    pub Gave : ℕ → State → List ℕ × (Option ConnError × State) → Type 0
    Gave n s r = (length r.0 ≤ n) × (All IsByte r.0) × (w.given r.1.1 ≡ w.given s ++ r.0)

    pub read_result-IsRead :
        (n : ℕ) (s : State) (o : Outcome (List ℕ × (Option ConnError × State)))
        (h : Ensures (Gave n s) o)
        → IsRead n (read_result (Gave n s) s o h)
    unfolding Gave
    read_result-IsRead n s (ok (bytes, (none, s'))) (l, b, g) = (l, b)
    read_result-IsRead n s (ok (bytes, (some e, s'))) h = tt
    read_result-IsRead n s (err e) h = tt
    read_result-IsRead n s panic h = absurd h
    read_result-IsRead n s hang h = absurd h

    pub checked_read-Gave :
        (n : ℕ) (s : State) → Ensures (Gave n s) (checked_read c k (suc (p.timeouts s)) n [] s)
    unfolding Gave
    checked_read-Gave n s = checked_read-Ensures c k w p (suc (p.timeouts s)) n s (omega arith)

    -- A CheckedConn as the io.Reader of `ReadMessage`.
    abbrev pub checked_reader : Reader
    checked_reader = record {
      Source = State;
      read = λ s n.
          read_result (Gave n s) s (checked_read c k (suc (p.timeouts s)) n [] s)
            (checked_read-Gave n s);
      within = λ s n.
          read_result-IsRead n s (checked_read c k (suc (p.timeouts s)) n [] s)
            (checked_read-Gave n s);
    }
