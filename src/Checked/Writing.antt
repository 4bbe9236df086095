-- ===== src/Checked/Writing.antt =====
-- connchecker.go: `Write` through timeouts.
use mongonet.Base.{
  ℕ, zero, suc, ◌+◌, ◌-◌, ◌≤◌, ◌<◌, ◌≡◌, ◌≢◌, ◌⊎◌, inl, inr, refl, sym, ap, ◌∙◌, List, [], ◌∷◌,
  ◌++◌, append_assoc, append-nil, true, Option, none, some, length, take, drop, length-drop, arith,
}
use mongonet.Base.Errors.{Ensures, Ensures-if, Ensures-mono}
use mongonet.Socket.Send.{Ensures-slice}
use mongonet.Checked.{ConnError, Conn, Checker, is_timeout, prepare, checked_write}
use mongonet.Checked.Reading.{Ensures-if_ready}

-- What net.Conn documents of `Write`, with the bytes that the connection has taken so far: it takes
-- bytes from the front, and all of them where it gives no error. The checker and the deadlines take none.
pub record IsOutlet (c : Conn) (k : Checker c.State) : Type 0 where
  pub taken : c.State → List ℕ
  pub within : (s : c.State) (buf : List ℕ) → (c.write s buf).0 ≤ length buf
  pub writes :
      (s : c.State) (buf : List ℕ)
      → taken ((c.write s buf).1.1) ≡ taken s ++ take ((c.write s buf).0) buf
  pub whole :
      (s : c.State) (buf : List ℕ) → (c.write s buf).1.0 ≡ none → (c.write s buf).0 ≡ length buf
  pub quiet : (s : c.State) → taken ((prepare c k c.set_write_deadline s).1) ≡ taken s

-- A bound on the timeouts that the connection still has: it goes down with each.
pub record IsPatient (c : Conn) (k : Checker c.State) : Type 0 where
  pub timeouts : c.State → ℕ
  pub fewer :
      (s : c.State) (buf : List ℕ)
      → is_timeout ((c.write ((prepare c k c.set_write_deadline s).1) buf).1.0) ≡ true
      → timeouts ((c.write ((prepare c k c.set_write_deadline s).1) buf).1.1) < timeouts s

take-add : (n m k : ℕ) (xs : List ℕ) → k ≡ n + m → take n xs ++ take m (drop n xs) ≡ take k xs
take-add zero m k xs e = let same : m ≡ k = omega arith in ap (λ i. take i xs) same
take-add (suc n) m zero xs e = absurd (omega arith)
take-add (suc n) zero (suc k) [] e = refl
take-add (suc n) (suc m) (suc k) [] e = refl
take-add (suc n) m (suc k) (x ∷ xs) e = ap (λ t. x ∷ t) (take-add n m k xs (omega arith))

some-none : (e : ConnError) → ◌≢◌ {A = Option ConnError} (some e) none
some-none e z = cc

module _ (c : Conn) (k : Checker c.State) (w : IsOutlet c k) where
  open c use {State}

  -- So many bytes of `buf` were written, behind what the connection had taken before.
  IsSent : List ℕ → List ℕ → ℕ × (Option ConnError × State) → Type 0
  IsSent buf before r =
      (r.0 ≤ length buf)
      × (w.taken r.1.1 ≡ before ++ take r.0 buf)
      × ((r.1.0 ≡ none) → r.0 ≡ length buf)

  checked_write-IsSent :
      (p : IsPatient c k) (fuel n : ℕ) (before buf : List ℕ) (s : State)
      → p.timeouts s < fuel
      → n ≤ length buf
      → w.taken s ≡ before ++ take n buf
      → Ensures (IsSent buf before) (checked_write c k fuel buf n s)
  unfolding checked_write IsSent
  checked_write-IsSent p zero n before buf s f l g = absurd (omega arith)
  checked_write-IsSent p (suc fuel) n before buf s f l g =
      let ready = prepare c k c.set_write_deadline s in
      let rest = drop n buf in
      let r = c.write ready.1 rest in
      let start : w.taken ready.1 ≡ before ++ take n buf = w.quiet s ∙ g in
      let moved : w.taken r.1.1 ≡ before ++ take (n + r.0) buf =
        w.writes ready.1 rest
        ∙ ap (λ t. t ++ take r.0 rest) start
        ∙ append_assoc before (take n buf) (take r.0 rest)
        ∙ ap (λ t. before ++ t) (take-add n r.0 (n + r.0) buf refl) in
      let left = length-drop n buf in
      let short : n + r.0 ≤ length buf = omega (arith, left, w.within ready.1 rest) in
      let all : r.1.0 ≡ none → n + r.0 ≡ length buf =
        (λ e. complete n r.0 buf l left (w.whole ready.1 rest e)) in
      let Q = IsSent buf before in
      Ensures-if_ready Q ready.0 _ _ (λ e. (l, start, λ z. absurd (some-none e z)))
        (Ensures-slice Q buf n _ l (
          Ensures-if Q c.is_tls _ _ (λ _. (short, moved, all))
            (λ _.
              Ensures-if Q (is_timeout r.1.0) _ _
                (λ late.
                  checked_write-IsSent p fuel (n + r.0) before buf r.1.1
                    (omega (arith, p.fewer s rest late)) short moved)
                (λ _. (short, moved, all)))))
    where
      complete :
          (n d : ℕ) (buf : List ℕ)
          → n ≤ length buf
          → length (drop n buf) ≡ length buf - n
          → d ≡ length (drop n buf)
          → n + d ≡ length buf
      complete n d buf l left e = omega arith

-- Where the connection gives what it documents and times out only a bounded number of times in a row,
-- and there is a round for each timeout and one more: `Write` through timeouts ends without a panic. The
-- number that it gives counts the bytes of the buffer that the connection has taken, from the front, each
-- once, and without an error these are all of them.
pub checked_write-Ensures :
    (c : Conn) (k : Checker c.State) (w : IsOutlet c k) (p : IsPatient c k) (fuel : ℕ)
    (buf : List ℕ) (s : c.State)
    → p.timeouts s < fuel
    → Ensures
        (λ r.
          (r.0 ≤ length buf)
          × (w.taken r.1.1 ≡ w.taken s ++ take r.0 buf)
          × ((r.1.0 ≢ none) ⊎ (r.0 ≡ length buf)))
        (checked_write c k fuel buf 0 s)
unfolding IsSent
checked_write-Ensures c k w p fuel buf s f =
    Ensures-mono (IsSent c k w buf (w.taken s)) _ (checked_write c k fuel buf 0 s)
      (λ r h. (h.0, h.1, whole_or_not r.1.0 h.2))
      (checked_write-IsSent c k w p fuel 0 (w.taken s) buf s f (omega arith)
        (sym (append-nil (w.taken s))))
  where
    whole_or_not :
        {n : ℕ} (o : Option ConnError)
        → ((o ≡ none) → n ≡ length buf)
        → (o ≢ none) ⊎ (n ≡ length buf)
    whole_or_not none h = inr (h refl)
    whole_or_not (some e) h = inl (λ z. some-none e z)
