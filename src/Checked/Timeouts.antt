-- ===== src/Checked/Timeouts.antt =====
-- connchecker.go and sock.go: a message that comes in while the connection times out.
use mongonet.Base.{
  nonempty, ℕ, zero, suc, ◌+◌, ◌-◌, ◌*◌, ◌≤◌, ◌<◌, ◌≡◌, ◌⊎◌, inl, inr, refl, sym, ap, subst, ◌∙◌,
  List, [], ◌∷◌, ◌++◌, append_assoc, Bool, true, false, if◌then◌else◌, Option, none, some, length,
  length-append, take, drop, take-append, drop-append, arith, Outcome, ok, err, panic, hang,
  IoError,
}
use mongonet.Base.Errors.{Ensures, ◌>>=◌}
use mongonet.Wire.{MessageHeader}
use mongonet.Serialize.Layout.{IsHeader, sized, frame}
use mongonet.Socket.ReadResult.{got}
use mongonet.Socket.{Reader, parse_body, read_message}
use mongonet.Socket.Deliver.{Delivers, read_message-frame}
use mongonet.Checked.{ConnError, Conn, Checker, is_timeout, if_ready, prepare, checked_read}
use mongonet.Checked.Reading.{IsStream, IsPatient}
use mongonet.Checked.Connection.{read_result, checked_reader}

-- A connection without TLS whose reads do nothing worse than time out, perhaps behind some bytes, and whose
-- checker agrees. `pending` is what is still to come. A read that does not time out gives something where there
-- is something, and up to four bytes in one piece.
pub record IsSteady (c : Conn) (k : Checker c.State) : Type 0 where
  pub plain : c.is_tls ≡ false
  pub pending : c.State → List ℕ
  pub agreed : (s : c.State) → (prepare c k c.set_read_deadline s).0 ≡ none
  pub waits : (s : c.State) → pending (prepare c k c.set_read_deadline s).1 ≡ pending s
  pub gives : (s : c.State) (n : ℕ) → pending s ≡ (c.read s n).0 ++ pending (c.read s n).1.1
  pub calm :
      (s : c.State) (n : ℕ) → ((c.read s n).1.0 ≡ none) ⊎ (is_timeout (c.read s n).1.0 ≡ true)
  pub some_bytes :
      (s : c.State) (n : ℕ)
      → (c.read s n).1.0 ≡ none
      → 0 < n
      → 0 < length (pending s)
      → 0 < length (c.read s n).0
  pub in_one :
      (s : c.State) (n : ℕ)
      → (c.read s n).1.0 ≡ none
      → n ≤ 4
      → n ≤ length (pending s)
      → length (c.read s n).0 ≡ n

-- A round that is made on a connection without TLS.
no_stop :
    {A : Type 0} (o : Option ConnError) (tls : Bool) (stop : ConnError → A) (x y : A)
    → o ≡ none
    → tls ≡ false
    → if_ready o stop (if tls then x else y) ≡ y
no_stop o tls stop x y e f = rw (e, f) refl

some_more :
    (bytes xs : List ℕ) (n left : ℕ)
    → (0 < n - length bytes → 0 < left → 0 < length xs)
    → 0 < n
    → 0 < length bytes + left
    → 0 < length (bytes ++ xs)
some_more [] xs n left h a b = h (omega arith) (omega arith)
some_more (y ∷ bytes) xs n left h a b = omega arith

-- What was read first is the front of a text that is no shorter.
front :
    (bs left text rest : List ℕ)
    → bs ++ left ≡ text ++ rest
    → length bs ≤ length text
    → (u : List ℕ) × (text ≡ bs ++ u) × (left ≡ u ++ rest)
front [] left text rest e l = (text, refl, e)
front (b ∷ bs) left [] rest e l = absurd (omega arith)
front (b ∷ bs) left (x ∷ text) rest e l =
    let same : x ≡ b = cc in
    let others : bs ++ left ≡ text ++ rest = cc in
    let h = front bs left text rest others (omega arith) in (h.0, (λ i. same i ∷ h.1 i), h.2)

module _ (c : Conn) (k : Checker c.State) (w : IsStream c k) (p : IsPatient c k)
    (q : IsSteady c k) where
  open c use {State}

  -- `Read` has gone on from the bytes that it had: without an error.
  record GoesOn (n : ℕ) (bytes : List ℕ) (s : State)
      (o : Outcome (List ℕ × (Option ConnError × State))) : Type 0 where
    more : List ℕ
    after : State
    result : o ≡ ok (bytes ++ more, (none, after))
    room : length (bytes ++ more) ≤ n
    given : q.pending s ≡ more ++ q.pending after
    progress : 0 < n → 0 < length bytes + length (q.pending s) → 0 < length (bytes ++ more)
    whole : n ≤ 4 → n ≤ length bytes + length (q.pending s) → length (bytes ++ more) ≡ n

  checked_read-GoesOn :
      (fuel n : ℕ) (bytes : List ℕ) (s : State)
      → p.timeouts s < fuel
      → length bytes ≤ n
      → GoesOn n bytes s (checked_read c k fuel n bytes s)
  unfolding checked_read
  checked_read-GoesOn zero n bytes s f l = absurd (omega arith)
  checked_read-GoesOn (suc fuel) n bytes s f l =
      let s1 = (prepare c k c.set_read_deadline s).1 in
      let m = n - length bytes in
      let r = c.read s1 m in
      let both = length-append bytes r.0 in
      let within = w.within s1 m in
      let came : q.pending s ≡ r.0 ++ q.pending r.1.1 = sym (q.waits s) ∙ q.gives s1 m in
      let total = ap length came ∙ length-append r.0 (q.pending r.1.1) in
      let same = ap length (q.waits s) in
      let again = checked_read c k fuel n (bytes ++ r.0) r.1.1 in
      let round : checked_read c k (suc fuel) n bytes s
          ≡ (if is_timeout r.1.0 then again else ok (bytes ++ r.0, (r.1.0, r.1.1))) =
        no_stop (prepare c k c.set_read_deadline s).0 c.is_tls _ _ _ (q.agreed s) q.plain in
      elim (q.calm s1 m) [
        | inl e ↦ record {
          more = r.0;
          after = r.1.1;
          result =
              round ∙ ap (λ x. if is_timeout x then again else ok (bytes ++ r.0, (x, r.1.1))) e;
          room = omega arith;
          given = came;
          progress =
              some_more bytes r.0 n (length (q.pending s))
                (λ a b. q.some_bytes s1 m e a (omega arith));
          whole = λ a b. omega (arith, q.in_one s1 m e (omega arith) (omega arith));
        }
        | inr late ↦
            let h =
              checked_read-GoesOn fuel n (bytes ++ r.0) r.1.1 (omega (arith, p.fewer s m late))
                (omega arith) in
            let assoc = append_assoc bytes r.0 h.more in
            record {
              more = r.0 ++ h.more;
              after = h.after;
              result =
                  round
                  ∙ ap (λ b. if b then again else ok (bytes ++ r.0, (r.1.0, r.1.1))) late
                  ∙ h.result
                  ∙ ap (λ x. ok (x, (none, h.after))) assoc;
              room = omega (arith, h.room, ap length assoc);
              given =
                  came
                  ∙ ap (λ x. r.0 ++ x) h.given
                  ∙ sym (append_assoc r.0 h.more (q.pending h.after));
              progress = λ a b. omega (arith, h.progress a (omega arith), ap length assoc);
              whole = λ a b. sym (ap length assoc) ∙ h.whole a (omega arith);
            }
      ]

  module _ (as_io : ConnError → IoError) where
    -- The two results of `Read`, for `ReadMessage`.
    read-got :
        (P : List ℕ × (Option ConnError × State) → Type 0) (s : State)
        (o : Outcome (List ℕ × (Option ConnError × State))) (h : Ensures P o) (bytes : List ℕ)
        (s' : State)
        → o ≡ ok (bytes, (none, s'))
        → read_result c k as_io P s o h ≡ got bytes s'
    read-got P s (ok (bs, (none, s1))) h bytes s' e = cc
    read-got P s (ok (bs, (some x, s1))) h bytes s' e = absurd cc
    read-got P s (err x) h bytes s' e = absurd cc
    read-got P s panic h bytes s' e = absurd h
    read-got P s hang h bytes s' e = absurd h

    abbrev reader : Reader
    reader = checked_reader c k as_io w p

    -- A read for `n` bytes.
    record Reads (n : ℕ) (s : State) : Type 0 where
      bytes : List ℕ
      after : State
      result : reader.read s n ≡ got bytes after
      room : length bytes ≤ n
      given : q.pending s ≡ bytes ++ q.pending after
      progress : 0 < n → 0 < length (q.pending s) → 0 < length bytes
      whole : n ≤ 4 → n ≤ length (q.pending s) → length bytes ≡ n

    reads : (n : ℕ) (s : State) → Reads n s
    reads n s =
        let h = checked_read-GoesOn (suc (p.timeouts s)) n [] s (omega arith) (omega arith) in
        record {
          bytes = h.more;
          after = h.after;
          result = read-got _ s _ _ h.more h.after h.result;
          room = h.room;
          given = h.given;
          progress = λ a b. h.progress a (omega arith);
          whole = λ a b. h.whole a (omega arith);
        }

    -- The bytes that are to come next are delivered.
    delivers :
        (fuel : ℕ) (text rest : List ℕ) (s : State)
        → length text < fuel
        → q.pending s ≡ text ++ rest
        → (s2 : State) × (q.pending s2 ≡ rest) × Delivers reader (length text) s text s2
    delivers zero text rest s f e = absurd (omega arith)
    delivers (suc fuel) [] rest s f e = (s, e, Delivers.all s)
    delivers (suc fuel) (x ∷ xs) rest s f e =
        let text = x ∷ xs in
        let r = reads (length text) s in
        let b = nonempty r.bytes (r.progress (omega arith) (omega (arith, ap length e))) in
        let u = front r.bytes (q.pending r.after) text rest (sym r.given ∙ e) r.room in
        let split : text ≡ (b.0 ∷ b.1) ++ u.0 = u.1 ∙ ap (λ t. t ++ u.0) b.2 in
        let n = ap length split in
        let whole = length-append (b.0 ∷ b.1) u.0 in
        let later = delivers fuel u.0 rest r.after (omega arith) u.2 in
        let left : length u.0 ≡ length text - length (b.0 ∷ b.1) = omega arith in
        (
          later.0,
          later.1,
          subst (λ t. Delivers reader (length text) s t later.0) (sym split)
              (Delivers.piece (length text) b.0 b.1 u.0 s r.after later.0
                (r.result ∙ ap (λ t. got t r.after) b.2) (omega arith)
                (subst (λ m. Delivers reader m r.after u.0 later.0) left later.2)),
        )

    -- For a CheckedConn without TLS whose checker agrees, over a connection whose reads do nothing worse than
    -- time out, a bounded number of times in a row and perhaps behind some bytes, and else give something (up to
    -- four bytes in one piece). Where a frame is to come next on that connection (a header of int32s and a body,
    -- of at most 200 MB together), `ReadMessage` parses exactly that body behind that header with the whole
    -- length in it, wherever in the frame the timeouts fall, and where it gives a message the connection is right
    -- behind the frame.
    pub read_message-checked_frame :
        (h : MessageHeader) (body rest : List ℕ) (s : State)
        → IsHeader h
        → 16 + length body ≤ 200 * 1024 * 1024
        → q.pending s ≡ frame h body ++ rest
        → (s2 : State) × (q.pending s2 ≡ rest)
          × (read_message (checked_reader c k as_io w p) s
              ≡ (parse_body (sized h body) body >>= λ m. ok (m, s2)))
    read_message-checked_frame h body rest s v small e =
        let text = frame h body in
        let r = reads 4 s in
        let four = r.whole (omega arith) (omega (arith, ap length e, length-append text rest)) in
        let u = front r.bytes (q.pending r.after) text rest (sym r.given ∙ e) (omega arith) in
        let size : take 4 text ≡ r.bytes = ap (take 4) u.1 ∙ take-append 4 r.bytes u.0 (sym four) in
        let behind : u.0 ≡ drop 4 text =
          sym (ap (drop 4) u.1 ∙ drop-append 4 r.bytes u.0 (sym four)) in
        let later = delivers (suc (length u.0)) u.0 rest r.after (omega arith) u.2 in
        let n : length u.0 ≡ 12 + length body = ap length behind ∙ omega arith in
        (
          later.0,
          later.1,
          read_message-frame reader h body s r.after later.0 v small
              (r.result ∙ ap (λ t. got t r.after) (sym size))
              (subst (λ t. Delivers reader (12 + length body) r.after t later.0) behind
                (subst (λ m. Delivers reader m r.after u.0 later.0) n later.2)),
        )
