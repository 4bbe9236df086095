-- ===== src/Pool/Lending.antt =====
-- connpool.go: what `Get` does to a pool whose connections are closed, not bad and in it once.
use mathlib.Core.Bool.{false≢true}
use mongonet.Base.{
  ℕ, zero, suc, ◌+◌, ◌<◌, ◌≡◌, ◌≢◌, ◌⊎◌, inl, inr, refl, sym, ap, subst, ◌∙◌, List, [], ◌∷◌, Bool,
  true, false, ◌==◌, Bool-cases, ltb, if◌then◌else◌, Option, none, some, arith, All, length,
}
use mongonet.Base.Errors.{Ensures, Ensures-bind, Ensures-if, Ensures-mono}
use mongonet.Pool.{
  PooledConnection, ConnectionPool, set, reopen, shut_down, get_pooled, add_created, create,
  or_create, get,
}

abbrev pub IsPooled : ℕ → (ℕ → PooledConnection) → ℕ → Type 0
IsPooled fresh objects id = (id < fresh) × ((objects id).closed ≡ true) × ((objects id).bad ≡ false)

abbrev pub Distinct : List ℕ → Type 0
Distinct [] = Unit {0}
Distinct (x ∷ xs) = All (λ y. y ≢ x) xs × Distinct xs

-- What waits in the pool is closed and not bad, and in it once.
pub record IsValid (p : ConnectionPool) : Type 0 where
  pub pooled : All (IsPooled p.fresh p.objects) p.pool
  pub distinct : Distinct p.pool

-- `id` is in use now, and was not before: it is new, or was closed.
pub record IsLent (p q : ConnectionPool) (id : ℕ) : Type 0 where
  pub open_now : (q.objects id).closed ≡ false
  pub good : (q.objects id).bad ≡ false
  pub known : id < q.fresh
  pub away : All (λ y. y ≢ id) q.pool
  pub unused : (id ≡ p.fresh) ⊎ ((p.objects id).closed ≡ true)

pub set_same : (f : ℕ → PooledConnection) (id : ℕ) (c : PooledConnection) → set f id c id ≡ c
set_same f id c = rw (same id)
  where
    same : (a : ℕ) → (a == a) ≡ true
    same a = ground arith

pub set_other :
    (f : ℕ → PooledConnection) (id j : ℕ) (c : PooledConnection) → j ≢ id → set f id c j ≡ f j
set_other f id j c h = rw (differ j id h)
  where
    differ : (a b : ℕ) → a ≢ b → (a == b) ≡ false
    differ a b h = ground arith

-- Objects that are not in a list do not matter to what is pooled there.
pub IsPooled-others :
    (n n' : ℕ) (f : ℕ → PooledConnection) (id : ℕ) (c : PooledConnection) (ids : List ℕ)
    → n < suc n'
    → All (λ y. y ≢ id) ids
    → All (IsPooled n f) ids
    → All (IsPooled n' (set f id c)) ids
IsPooled-others n n' f id c [] l h k = tt
IsPooled-others n n' f id c (j ∷ ids) l (d, h) ((b, cl, bd), k) =
    let e = set_other f id j c d in
    (
      (omega arith, ap (λ x. x.closed) e ∙ cl, ap (λ x. x.bad) e ∙ bd),
      IsPooled-others n n' f id c ids l h k,
    )

-- An object that is in use is not in the pool.
pub open-away :
    (n : ℕ) (f : ℕ → PooledConnection) (id : ℕ) (ids : List ℕ)
    → (f id).closed ≡ false
    → All (IsPooled n f) ids
    → All (λ y. y ≢ id) ids
open-away n f id [] e k = tt
open-away n f id (j ∷ ids) e ((b, cl, bd), k) = (
  (λ same. false≢true (sym e ∙ ap (λ x. (f x).closed) (sym same) ∙ cl)),
  open-away n f id ids e k,
)

fresh-away :
    (n : ℕ) (f : ℕ → PooledConnection) (ids : List ℕ)
    → All (IsPooled n f) ids
    → All (λ y. y ≢ n) ids
fresh-away n f [] k = tt
fresh-away n f (j ∷ ids) ((b, cl, bd), k) = ((λ same. absurd (omega arith)), fresh-away n f ids k)

-- A pool that gives one of its connections away, or none.
abbrev pub Got : ConnectionPool → Option ℕ × ConnectionPool → Type 0
Got p (none, q) = IsValid q × (q.fresh ≡ p.fresh) × (q.objects ≡ p.objects)
Got p (some id, q) = IsValid q × IsLent p q id

module _ (p : ConnectionPool) where
  open p use {fresh, objects}

  -- The pool with these connections in it.
  holding : List ℕ → ConnectionPool
  holding ids = record p { pool = ids }

  -- Given away by what is left of the pool, after a network connection is closed.
  Got-rest :
      (ids rest : List ℕ) (conn : ℕ) (r : Option ℕ × ConnectionPool)
      → Got (shut_down (holding rest) conn) r
      → Got (holding ids) r
  unfolding holding
  Got-rest ids rest conn (none, q) (v, e, f) = (v, e, f)
  Got-rest ids rest conn (some id, q) (v, l) = (
    v,
    record {
      open_now = l.open_now;
      good = l.good;
      known = l.known;
      away = l.away;
      unused = l.unused;
    },
  )

  reopen-Got :
      (id : ℕ) (rest : List ℕ)
      → IsPooled fresh objects id
      → All (λ y. y ≢ id) rest
      → All (IsPooled fresh objects) rest
      → Distinct rest
      → Got (holding (id ∷ rest)) (some id, reopen (holding rest) id)
  unfolding holding
  reopen-Got id rest (b, cl, bd) away h d =
      let c = record (objects id) { closed = false } in
      let same = set_same objects id c in
      (
        record {
          pooled = IsPooled-others fresh fresh objects id c rest (omega arith) away h;
          distinct = d;
        },
        record {
          open_now = ap (λ x. x.closed) same;
          good = ap (λ x. x.bad) same ∙ bd;
          known = b;
          away = away;
          unused = inr cl;
        },
      )

get_pooled-Got :
    (p : ConnectionPool) (ids : List ℕ) (fuel : ℕ) (clock : ℕ → ℕ)
    → IsValid (holding p ids)
    → length ids < fuel
    → Ensures (Got (holding p ids)) (get_pooled fuel clock (holding p ids))
unfolding get_pooled holding
get_pooled-Got p ids zero clock v h = absurd (omega arith)
get_pooled-Got p [] (suc fuel) clock v h = (v, refl, refl)
get_pooled-Got p (id ∷ rest) (suc fuel) clock v h =
    let q = holding p rest in
    let c = p.objects id in
    Ensures-if (Got (holding p (id ∷ rest))) (ltb (clock 0) (c.last_used_unix + p.timeout_seconds))
      _ _
      (λ _. reopen-Got p id rest ((v.pooled).0) ((v.distinct).0) ((v.pooled).1) ((v.distinct).1))
      (λ _.
        Ensures-mono (Got (shut_down q c.conn)) (Got (holding p (id ∷ rest))) _
          (λ r g. Got-rest p (id ∷ rest) rest c.conn r g)
          (get_pooled-Got (shut_down q c.conn) rest fuel (λ i. clock (suc i))
            (record { pooled = (v.pooled).1; distinct = (v.distinct).1 }) (omega arith)))

add_created-Got :
    (p q : ConnectionPool) (conn : ℕ)
    → IsValid q
    → q.fresh ≡ p.fresh
    → IsValid (add_created conn q) × IsLent p (add_created conn q) q.fresh
add_created-Got p q conn v e =
    let c : PooledConnection = record {
      conn = conn;
      last_used_unix = 0;
      closed = false;
      bad = false;
    } in
    let same = set_same q.objects q.fresh c in
    let away = fresh-away q.fresh q.objects q.pool v.pooled in
    (
      record {
        pooled =
            IsPooled-others q.fresh (suc q.fresh) q.objects q.fresh c q.pool (omega arith) away
              v.pooled;
        distinct = v.distinct;
      },
      record {
        open_now = ap (λ x. x.closed) same;
        good = ap (λ x. x.bad) same;
        known = omega arith;
        away = away;
        unused = inl e;
      },
    )

-- What a call of `Get` on `p` answers: the pool after it, and the connection if there is one.
abbrev pub Answers : ConnectionPool → Option ℕ × ConnectionPool → Type 0
Answers p (none, q) = IsValid q
Answers p (some id, q) = IsValid q × IsLent p q id

or_create-Answers :
    (p : ConnectionPool) (dialed : Option ℕ) (hook : Option (ℕ → Bool))
    (r : Option ℕ × ConnectionPool)
    → Got p r
    → Answers p (or_create dialed hook r)
unfolding create
or_create-Answers p dialed hook (some id, q) g = g
or_create-Answers p none hook (none, q) (v, e, f) = v
or_create-Answers p (some conn) none (none, q) (v, e, f) = add_created-Got p q conn v e
or_create-Answers p (some conn) (some hook) (none, q) (v, e, f) = elim (Bool-cases (hook conn)) [
  | inl h ↦
      subst
        (λ b.
          Answers p (if b then (some q.fresh, add_created conn q) else (none, shut_down q conn)))
        (sym h) (add_created-Got p q conn v e)
  | inr h ↦
      subst
        (λ b.
          Answers p (if b then (some q.fresh, add_created conn q) else (none, shut_down q conn)))
        (sym h) (record { pooled = v.pooled; distinct = v.distinct })
]

-- `Get` on a pool whose connections are closed, not bad and in it once, whatever the clock, the dialer
-- and the hook do: it ends without a panic, the pool stays so, and a connection that it gives is open,
-- not bad, no longer in the pool, and was not in use before.
pub get-Ensures :
    (clock : ℕ → ℕ) (dialed : Option ℕ) (hook : Option (ℕ → Bool)) (p : ConnectionPool)
    → IsValid p
    → Ensures (Answers p) (get clock dialed hook p)
unfolding get holding
get-Ensures clock dialed hook p v =
    Ensures-bind (Got p) (Answers p) (get_pooled (suc (length p.pool)) clock p) _
      (get_pooled-Got p p.pool (suc (length p.pool)) clock v (omega arith))
      λ r g. or_create-Answers p dialed hook r g
