-- ===== src/Socket/Send.antt =====
-- sock.go: `sendBytes` and `SendMessage` on any connection.
use mongonet.Base.{
  ℕ, zero, suc, ◌≤◌, ◌<◌, ◌≡◌, refl, sym, ap, subst, ◌∙◌, ◌≢◌, ◌⊎◌, inl, inr, List, ◌++◌,
  append_assoc, true, false, ◌==◌, ==_iff, length, take, drop, length-drop, take-append-drop,
  take_all, arith, leb, Outcome, ok,
}
use mongonet.Base.Errors.{◌>>=◌, Ensures, Ensures-bind, Ensures-if, Ensures-mono}
use mongonet.Bytes.{slice_from}
use mongonet.Wire.{Message}
use mongonet.Socket.WriteResult.{wrote, broken}
use mongonet.Socket.{WriteResult, IsWritten, Sink, serialize, after_write, send_bytes, send_message}

-- The connection has received `all`.
Received : {S : Type 0} → (S → List ℕ) → List ℕ → S → Type 0
Received received all s = received s ≡ all

differ : (a b : ℕ) → a ≡ b → (a == b) ≢ false
differ a b same h = ground arith

pub Ensures-slice :
    {A : Type 0} (P : A → Type 0) (buf : List ℕ) (n : ℕ) (k : List ℕ → Outcome A)
    → n ≤ length buf
    → Ensures P (k (drop n buf))
    → Ensures P (slice_from buf n >>= k)
unfolding slice_from
Ensures-slice P buf n k l h = rw (leb_true n (length buf) l) h
  where
    leb_true : (a b : ℕ) → a ≤ b → leb a b ≡ true
    leb_true a b l = ground arith

after_write-Ensures :
    {S : Type 0} (received : S → List ℕ) (next : List ℕ → S → Outcome S) (fuel : ℕ)
    (before buf : List ℕ) (x : WriteResult S)
    → ((rest : List ℕ) (s : S)
        → length rest < fuel
        → Ensures (Received received (received s ++ rest)) (next rest s))
    → length buf ≤ fuel
    → IsWritten received before buf x
    → Ensures (Received received (before ++ buf)) (after_write next buf x)
unfolding after_write Received
after_write-Ensures received next fuel before buf (broken e s) k f g = tt
after_write-Ensures received next fuel before buf (wrote n s) k f (l, p, e) =
    Ensures-if (Received received (before ++ buf)) (n == length buf) _ _
      (λ h. e ∙ ap (λ t. before ++ t) (take_all n buf (omega (arith, (==_iff n (length buf)).0 h))))
      (λ h.
        let more : n ≢ length buf = (λ same. differ _ _ same h) in
        let here : received s ++ drop n buf ≡ before ++ buf =
          ap (λ t. t ++ drop n buf) e
          ∙ append_assoc before (take n buf) (drop n buf)
          ∙ ap (λ t. before ++ t) (take-append-drop n buf) in
        Ensures-slice (Received received (before ++ buf)) buf n (λ rest. next rest s) l
          (Ensures-mono (Received received (received s ++ drop n buf))
            (Received received (before ++ buf)) _ (λ s' q. q ∙ here)
            (k (drop n buf) s (rest_lt p l more f))))
  where
    rest_lt :
        (n ≡ length buf) ⊎ (0 < n)
        → n ≤ length buf
        → n ≢ length buf
        → length buf ≤ fuel
        → length (drop n buf) < fuel
    rest_lt (inl whole) l more f = absurd (more whole)
    rest_lt (inr moved) l more f = omega (arith, length-drop n buf)

module _ (w : Sink) where
  open w use {Store, received}

  -- Enough rounds for the bytes of `buf`: it is all sent, or the connection gives an error.
  send_bytes-Ensures :
      (fuel : ℕ) (buf : List ℕ) (s : Store)
      → length buf < fuel
      → Ensures (Received received (received s ++ buf)) (send_bytes w fuel buf s)
  unfolding send_bytes
  send_bytes-Ensures zero buf s h = absurd (omega arith)
  send_bytes-Ensures (suc fuel) buf s h =
      after_write-Ensures received _ fuel (received s) buf (w.write s buf)
        (λ rest s' l. send_bytes-Ensures fuel rest s' l) (omega arith) (w.written s buf)

-- On every connection, however many bytes a call of `Write` takes, `SendMessage` of a message that
-- `Serialize` turns into `buf` ends, and without an error exactly the bytes of `buf` have been sent.
pub send_message-Ensures :
    (w : Sink) (m m' : Message) (buf : List ℕ) (s : w.Store)
    → serialize m ≡ ok (buf, m')
    → Ensures (λ r. (r.0 ≡ m') × (w.received r.1 ≡ w.received s ++ buf)) (send_message w m s)
unfolding send_message Received
send_message-Ensures w m m' buf s e =
    let P : Message × w.Store → Type 0 = λ r. (r.0 ≡ m') × (w.received r.1 ≡ w.received s ++ buf) in
    subst
      (λ x. Ensures P (x >>= λ r. send_bytes w (suc (length (r.0))) (r.0) s >>= λ s'. ok (r.1, s')))
      (sym e)
      (Ensures-bind (Received w.received (w.received s ++ buf)) P
        (send_bytes w (suc (length buf)) buf s) _
        (send_bytes-Ensures w (suc (length buf)) buf s (omega arith)) λ s' q. (refl, q))
