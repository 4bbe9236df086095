-- ===== src/Checked.antt =====
-- connchecker.go: a connection that asks its checker whether to go on, each time a deadline passes.
-- The connection and the checker are parameters; an interval of 0 means that nothing is checked.
pub mod Reading
pub mod Writing
pub mod Connection
pub mod Timeouts
use mongonet.Base.{
  ℕ, zero, suc, ◌+◌, ◌-◌, ◌≤◌, ◌≡◌, List, ◌++◌, Bool, true, false, ltb, if◌then◌else◌, Option, none,
  some, length, All, take, Outcome, ok, hang, IoError,
}
use mongonet.Base.Errors.{◌>>=◌}
use mongonet.Bytes.{slice_from}
use mongonet.Bytes.Read.{IsByte}

-- An error of a connection, or of its checker.
pub data ConnError : Type 0 where
  timeout : ConnError
  io : IoError → ConnError
  refused : ℕ → ConnError

-- net.Conn: a read or a write that fails may have moved some bytes before.
pub record Conn : Type 1 where
  pub State : Type 0
  pub is_tls : Bool
  pub read : State → ℕ → List ℕ × (Option ConnError × State)
  pub write : State → List ℕ → ℕ × (Option ConnError × State)
  pub set_read_deadline : State → ℕ → Option ConnError × State
  pub set_write_deadline : State → ℕ → Option ConnError × State

-- ConnChecker
pub record Checker (S : Type 0) : Type 0 where
  pub check_connection : S → Option ConnError × S
  pub check_connection_interval : S → ℕ × S

-- `if e, ok := err.(net.Error); !ok || !e.Timeout()`
abbrev pub is_timeout : Option ConnError → Bool
is_timeout (some timeout) = true
is_timeout _ = false

-- `if err := CheckConnection(); err != nil { return }`, and the rest.
abbrev pub if_checked :
    {S : Type 0} → (S → Option ConnError × S) → Option ConnError × S → Option ConnError × S
if_checked next (some e, s) = (some e, s)
if_checked next (none, s) = next s

-- A round that is not made, with the error that ended the loop, or one that is.
abbrev pub if_ready : {A : Type 0} → Option ConnError → (ConnError → A) → A → A
if_ready (some e) stop go = stop e
if_ready none stop go = go

module _ (c : Conn) (k : Checker c.State) where
  open c use {State}

  -- The check and the deadline in front of each round, and the error that ends the loop, if any.
  unfoldable pub prepare : (State → ℕ → Option ConnError × State) → State → Option ConnError × State
  prepare set_deadline s =
      let interval = (k.check_connection_interval s).0 in
      let s1 = (k.check_connection_interval s).1 in
      if ltb 0 interval
      then if_checked (λ s2. set_deadline s2 interval) (k.check_connection s1)
      else (none, s1)

  -- `Read(b)` for a buffer of `n` bytes, with the bytes read so far.
  unfoldable pub checked_read :
      ℕ → ℕ → List ℕ → State → Outcome (List ℕ × (Option ConnError × State))
  checked_read zero n bytes s = hang
  checked_read (suc fuel) n bytes s =
      let ready = prepare c.set_read_deadline s in
      let r = c.read ready.1 (n - length bytes) in
      let e = r.1.0 in
      let more = bytes ++ r.0 in
      let again = checked_read fuel n more r.1.1 in
      if_ready ready.0 (λ e'. ok (bytes, (some e', ready.1)))
        (if c.is_tls
          then ok (more, (e, r.1.1))
          else if is_timeout e
          then again
          else ok (more, (e, r.1.1)))

  -- `Write(b)`, with the number of bytes written so far.
  unfoldable pub checked_write : ℕ → List ℕ → ℕ → State → Outcome (ℕ × (Option ConnError × State))
  checked_write zero buf n s = hang
  checked_write (suc fuel) buf n s =
      let ready = prepare c.set_write_deadline s in
      let round = slice_from buf n >>= λ rest.
      let r = c.write ready.1 rest in
      let e = r.1.0 in
      let again = checked_write fuel buf (n + r.0) r.1.1 in
      if c.is_tls
      then ok (n + r.0, (e, r.1.1))
      else if is_timeout e
      then again
      else ok (n + r.0, (e, r.1.1)) in
      if_ready ready.0 (λ e'. ok (n, (some e', ready.1))) round
