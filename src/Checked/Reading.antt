-- ===== src/Checked/Reading.antt =====
-- connchecker.go: `Read` through timeouts.
use mongonet.Base.{
  ℕ, zero, suc, ◌-◌, ◌≤◌, ◌<◌, ◌≡◌, sym, ap, ◌∙◌, List, [], ◌++◌, append_assoc, append-nil, true,
  Option, none, some, length, length-append, All, All-append, arith, Outcome,
}
use mongonet.Base.Errors.{Ensures, Ensures-if}
use mongonet.Bytes.Read.{IsByte}
use mongonet.Checked.{ConnError, Conn, Checker, is_timeout, if_ready, prepare, checked_read}

-- What net.Conn documents of `Read`, with the bytes that the connection has given so far: at most as many
-- bytes as asked for, and these are given. The checker and the deadlines give none.
pub record IsStream (c : Conn) (k : Checker c.State) : Type 0 where
  pub given : c.State → List ℕ
  pub within : (s : c.State) (n : ℕ) → length ((c.read s n).0) ≤ n
  pub bytes : (s : c.State) (n : ℕ) → All IsByte ((c.read s n).0)
  pub reads : (s : c.State) (n : ℕ) → given ((c.read s n).1.1) ≡ given s ++ (c.read s n).0
  pub quiet : (s : c.State) → given ((prepare c k c.set_read_deadline s).1) ≡ given s

-- A bound on the timeouts that the connection still has: it goes down with each.
pub record IsPatient (c : Conn) (k : Checker c.State) : Type 0 where
  pub timeouts : c.State → ℕ
  pub fewer :
      (s : c.State) (n : ℕ)
      → is_timeout ((c.read ((prepare c k c.set_read_deadline s).1) n).1.0) ≡ true
      → timeouts ((c.read ((prepare c k c.set_read_deadline s).1) n).1.1) < timeouts s

pub Ensures-if_ready :
    {A : Type 0} (Q : A → Type 0) (o : Option ConnError) (stop : ConnError → Outcome A)
    (go : Outcome A)
    → ((e : ConnError) → Ensures Q (stop e))
    → Ensures Q go
    → Ensures Q (if_ready o stop go)
Ensures-if_ready Q none stop go h k = k
Ensures-if_ready Q (some e) stop go h k = h e

module _ (c : Conn) (k : Checker c.State) (w : IsStream c k) where
  open c use {State}

  -- A buffer of `n` bytes was filled, behind `bytes`, with what the connection gave.
  IsFilled : ℕ → List ℕ → State → List ℕ × (Option ConnError × State) → Type 0
  IsFilled n before s r = (length r.0 ≤ n) × (All IsByte r.0) × (w.given r.1.1 ≡ before ++ r.0)

  checked_read-IsFilled :
      (p : IsPatient c k) (fuel n : ℕ) (before bytes : List ℕ) (s : State)
      → p.timeouts s < fuel
      → length bytes ≤ n
      → All IsByte bytes
      → w.given s ≡ before ++ bytes
      → Ensures (IsFilled n before s) (checked_read c k fuel n bytes s)
  unfolding checked_read IsFilled
  checked_read-IsFilled p zero n before bytes s f l h g = absurd (omega arith)
  checked_read-IsFilled p (suc fuel) n before bytes s f l h g =
      let ready = prepare c k c.set_read_deadline s in
      let r = c.read ready.1 (n - length bytes) in
      let more = bytes ++ r.0 in
      let start : w.given ready.1 ≡ before ++ bytes = w.quiet s ∙ g in
      let given : w.given r.1.1 ≡ before ++ more =
        w.reads ready.1 (n - length bytes)
        ∙ ap (λ t. t ++ r.0) start
        ∙ append_assoc before bytes r.0 in
      let short : length more ≤ n =
        omega (arith, length-append bytes r.0, w.within ready.1 (n - length bytes)) in
      let whole = All-append IsByte bytes r.0 h (w.bytes ready.1 (n - length bytes)) in
      let Q = IsFilled n before s in
      Ensures-if_ready Q ready.0 _ _ (λ e. (l, h, start))
        (Ensures-if Q c.is_tls _ _ (λ _. (short, whole, given))
          (λ _.
            Ensures-if Q (is_timeout r.1.0) _ _
              (λ late.
                checked_read-IsFilled p fuel n before more r.1.1
                  (omega (arith, p.fewer s (n - length bytes) late)) short whole given)
              (λ _. (short, whole, given))))

-- Where the connection gives what it documents and times out only a bounded number of times in a row,
-- and there is a round for each timeout and one more: `Read` through timeouts ends without a panic, with
-- or without an error, the bytes in the buffer are at most as many as it has room for, and they are what
-- the connection has given in the meantime: nothing is lost and nothing comes twice.
pub checked_read-Ensures :
    (c : Conn) (k : Checker c.State) (w : IsStream c k) (p : IsPatient c k) (fuel n : ℕ)
    (s : c.State)
    → p.timeouts s < fuel
    → Ensures
        (λ r. (length r.0 ≤ n) × (All IsByte r.0) × (w.given r.1.1 ≡ w.given s ++ r.0))
        (checked_read c k fuel n [] s)
unfolding IsFilled
checked_read-Ensures c k w p fuel n s f =
    checked_read-IsFilled c k w p fuel n (w.given s) [] s f (omega arith) tt
      (sym (append-nil (w.given s)))
