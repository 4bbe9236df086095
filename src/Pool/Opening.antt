-- ===== src/Pool/Opening.antt =====
-- connpool.go: which connections are in use, before and after each operation.
use mathlib.Core.Bool.{false≢true}
use mongonet.Base.{
  ℕ, zero, suc, ◌+◌, ◌<◌, ◌≡◌, ◌≢◌, ◌⊎◌, inl, inr, refl, sym, ap, subst, ◌∙◌, List, [], ◌∷◌, Bool,
  true, false, Bool-cases, ◌==◌, ==_iff, ltb, if◌then◌else◌, Option, none, some, length, arith,
}
use mongonet.Base.Errors.{Ensures, Ensures-bind, Ensures-if, Ensures-mono}
use mongonet.Pool.{
  PooledConnection, ConnectionPool, set, reopen, shut_down, get_pooled, add_created, create,
  or_create, get, put,
}
use mongonet.Pool.Lending.{set_same, set_other}

-- An object of the pool that is not closed.
abbrev pub OpenIn : ℕ → (ℕ → PooledConnection) → ℕ → Type 0
OpenIn fresh objects j = (j < fresh) × ((objects j).closed ≡ false)

abbrev pub IsOpen : ConnectionPool → ℕ → Type 0
IsOpen p j = OpenIn p.fresh p.objects j

pub same_or_other : (a b : ℕ) → (a ≡ b) ⊎ (a ≢ b)
same_or_other a b = elim (Bool-cases (a == b)) [
  | inl h ↦ inl ((==_iff a b).0 h)
  | inr h ↦ inr (λ e. apart e h)
]
  where
    apart : a ≡ b → (a == b) ≢ false
    apart e h = ground arith

-- An object that is closed now was not in use, whatever it was before.
closing-OpenIn :
    (n : ℕ) (f : ℕ → PooledConnection) (id : ℕ) (c : PooledConnection) (j : ℕ)
    → c.closed ≡ true
    → OpenIn n (set f id c) j
    → OpenIn n f j × (j ≢ id)
closing-OpenIn n f id c j h (l, o) = elim (same_or_other j id) [
  | inl e ↦ absurd (
      false≢true
        (sym o ∙ ap (λ i. (set f id c i).closed) e ∙ ap (λ x. x.closed) (set_same f id c) ∙ h))
  | inr d ↦ ((l, sym (ap (λ x. x.closed) (set_other f id j c d)) ∙ o), d)
]

pub set-OpenIn :
    (n n' : ℕ) (f : ℕ → PooledConnection) (id : ℕ) (c : PooledConnection) (j : ℕ)
    → n < suc n'
    → j ≢ id
    → OpenIn n f j
    → OpenIn n' (set f id c) j
set-OpenIn n n' f id c j h d (l, o) = (omega arith, ap (λ x. x.closed) (set_other f id j c d) ∙ o)

-- Nothing but `id` is in use that was not.
pub opening-OpenIn :
    (n : ℕ) (f : ℕ → PooledConnection) (id : ℕ) (c : PooledConnection) (j : ℕ)
    → OpenIn n (set f id c) j
    → (j ≡ id) ⊎ OpenIn n f j
opening-OpenIn n f id c j (l, o) = elim (same_or_other j id) [
  | inl e ↦ inl e
  | inr d ↦ inr (l, sym (ap (λ x. x.closed) (set_other f id j c d)) ∙ o)
]

-- What is in use behind an operation that gives out a connection, or none: that, and what was.
pub record IsOpened (p : ConnectionPool) (given : Option ℕ) (q : ConnectionPool) : Type 0 where
  pub more : (j : ℕ) → IsOpen q j → (given ≡ some j) ⊎ IsOpen p j
  pub kept : (j : ℕ) → IsOpen p j → given ≢ some j → IsOpen q j

-- What is in use behind `Put`: what was, but for that connection.
pub record IsClosed (p : ConnectionPool) (id : ℕ) (q : ConnectionPool) : Type 0 where
  pub fewer : (j : ℕ) → IsOpen q j → IsOpen p j × (j ≢ id)
  pub kept : (j : ℕ) → IsOpen p j → j ≢ id → IsOpen q j

pub put-IsClosed :
    (now id : ℕ) (p : ConnectionPool)
    → (p.objects id).closed ≡ false
    → Ensures (IsClosed p id) (put now id p)
unfolding put
put-IsClosed now id p o =
    let c : PooledConnection = record (p.objects id) { last_used_unix = now; closed = true } in
    let less : (j : ℕ) → OpenIn p.fresh (set p.objects id c) j → IsOpen p j × (j ≢ id) =
      (λ j h. closing-OpenIn p.fresh p.objects id c j refl h) in
    let stay : (j : ℕ) → IsOpen p j → j ≢ id → OpenIn p.fresh (set p.objects id c) j =
      (λ j h d. set-OpenIn p.fresh p.fresh p.objects id c j (omega arith) d h) in
    Ensures-if (IsClosed p id) ((p.objects id).closed) _ _ (λ h. absurd (false≢true (sym o ∙ h)))
      (λ _.
        Ensures-if (IsClosed p id) ((p.objects id).bad) _ _
          (λ _. record { fewer = less; kept = stay }) (λ _. record { fewer = less; kept = stay }))

some-apart : (a b : ℕ) → (some a ≢ some b) → b ≢ a
some-apart a b h e = h (ap (λ x. some x) (sym e))

IsOpened-self :
    (p q : ConnectionPool) → q.fresh ≡ p.fresh → q.objects ≡ p.objects → IsOpened p none q
IsOpened-self p q e f = record {
  more = λ j h. inr (subst (λ n. OpenIn n p.objects j) e (subst (λ o. OpenIn q.fresh o j) f h));
  kept = λ j h d.
      subst (λ n. OpenIn n q.objects j) (sym e) (subst (λ o. OpenIn p.fresh o j) (sym f) h);
}

reopen-IsOpened :
    (p : ConnectionPool) (rest : List ℕ) (id : ℕ)
    → IsOpened p (some id) (reopen (record p { pool = rest }) id)
reopen-IsOpened p rest id =
    let c = record (p.objects id) { closed = false } in
    record {
      more = λ j h. elim (opening-OpenIn p.fresh p.objects id c j h) [
        | inl e ↦ inl (ap (λ x. some x) (sym e))
        | inr o ↦ inr o
      ];
      kept =
          λ j h d. set-OpenIn p.fresh p.fresh p.objects id c j (omega arith) (some-apart id j d) h;
    }

-- The loop of `Get` gives a connection out, or leaves the objects as they were.
abbrev Opened : ConnectionPool → Option ℕ × ConnectionPool → Type 0
Opened p (none, q) = (q.fresh ≡ p.fresh) × (q.objects ≡ p.objects)
Opened p (some id, q) = IsOpened p (some id) q

Opened-rest :
    (p : ConnectionPool) (ids rest : List ℕ) (conn : ℕ) (r : Option ℕ × ConnectionPool)
    → Opened (shut_down (record p { pool = rest }) conn) r
    → Opened (record p { pool = ids }) r
Opened-rest p ids rest conn (none, q) h = h
Opened-rest p ids rest conn (some id, q) h = record { more = h.more; kept = h.kept }

reopen-Opened :
    (p : ConnectionPool) (ids rest : List ℕ) (id : ℕ)
    → Opened (record p { pool = ids }) (some id, reopen (record p { pool = rest }) id)
reopen-Opened p ids rest id =
    let h = reopen-IsOpened p rest id in record { more = h.more; kept = h.kept }

get_pooled-Opened :
    (p : ConnectionPool) (ids : List ℕ) (fuel : ℕ) (clock : ℕ → ℕ)
    → length ids < fuel
    → Ensures (Opened (record p { pool = ids })) (get_pooled fuel clock (record p { pool = ids }))
unfolding get_pooled
get_pooled-Opened p ids zero clock h = absurd (omega arith)
get_pooled-Opened p [] (suc fuel) clock h = (refl, refl)
get_pooled-Opened p (id ∷ rest) (suc fuel) clock h =
    let q : ConnectionPool = record p { pool = rest } in
    let c = p.objects id in
    Ensures-if (Opened (record p { pool = id ∷ rest }))
      (ltb (clock 0) (c.last_used_unix + p.timeout_seconds)) _ _
      (λ _. reopen-Opened p (id ∷ rest) rest id)
      (λ _.
        Ensures-mono (Opened (shut_down q c.conn)) (Opened (record p { pool = id ∷ rest })) _
          (λ r g. Opened-rest p (id ∷ rest) rest c.conn r g)
          (get_pooled-Opened (shut_down q c.conn) rest fuel (λ i. clock (suc i)) (omega arith)))

add_created-IsOpened :
    (p q : ConnectionPool) (conn : ℕ)
    → q.fresh ≡ p.fresh
    → q.objects ≡ p.objects
    → IsOpened p (some q.fresh) (add_created conn q)
add_created-IsOpened p q conn e f =
    let c : PooledConnection = record {
      conn = conn;
      last_used_unix = 0;
      closed = false;
      bad = false;
    } in
    let same = IsOpened-self p q e f in
    record {
      more = λ j h. elim (opening-OpenIn (suc q.fresh) q.objects q.fresh c j h) [
        | inl i ↦ inl (ap (λ x. some x) (sym i))
        | inr o ↦ elim (same_or_other j q.fresh) [
          | inl i ↦ inl (ap (λ x. some x) (sym i))
          | inr d ↦ relabel j (same.more j (below j o.0 d, o.1))
        ]
      ];
      kept = λ j h d.
          set-OpenIn q.fresh (suc q.fresh) q.objects q.fresh c j (omega arith)
            (some-apart q.fresh j d) (same.kept j h (λ z. never j z));
    }
  where
    below : (j : ℕ) → j < suc q.fresh → j ≢ q.fresh → j < q.fresh
    below j l d = ground arith

    never : (j : ℕ) → ◌≢◌ {A = Option ℕ} none (some j)
    never j z = cc

    relabel :
        (j : ℕ)
        → (◌≡◌ {A = Option ℕ} none (some j)) ⊎ IsOpen p j
        → (some q.fresh ≡ some j) ⊎ IsOpen p j
    relabel j (inl z) = absurd (never j z)
    relabel j (inr o) = inr o

-- An answer of `Get`.
abbrev pub Gives : ConnectionPool → Option ℕ × ConnectionPool → Type 0
Gives p (given, q) = IsOpened p given q

or_create-Gives :
    (p : ConnectionPool) (dialed : Option ℕ) (hook : Option (ℕ → Bool))
    (r : Option ℕ × ConnectionPool)
    → Opened p r
    → Gives p (or_create dialed hook r)
unfolding create
or_create-Gives p dialed hook (some id, q) h = h
or_create-Gives p none hook (none, q) (e, f) = IsOpened-self p q e f
or_create-Gives p (some conn) none (none, q) (e, f) = add_created-IsOpened p q conn e f
or_create-Gives p (some conn) (some hook) (none, q) (e, f) = elim (Bool-cases (hook conn)) [
  | inl h ↦
      subst
        (λ b. Gives p (if b then (some q.fresh, add_created conn q) else (none, shut_down q conn)))
        (sym h) (add_created-IsOpened p q conn e f)
  | inr h ↦
      subst
        (λ b. Gives p (if b then (some q.fresh, add_created conn q) else (none, shut_down q conn)))
        (sym h) (IsOpened-self p (shut_down q conn) e f)
]

pub get-Gives :
    (clock : ℕ → ℕ) (dialed : Option ℕ) (hook : Option (ℕ → Bool)) (p : ConnectionPool)
    → Ensures (Gives p) (get clock dialed hook p)
unfolding get
get-Gives clock dialed hook p =
    Ensures-bind (Opened p) (Gives p) (get_pooled (suc (length p.pool)) clock p) _
      (get_pooled-Opened p p.pool (suc (length p.pool)) clock (omega arith))
      λ r g. or_create-Gives p dialed hook r g
