-- ===== src/Proxy/Keeping.antt =====
-- proxy.go: what a session does to the pool: a connection that it takes is its own until it gives it
-- back.
use mathlib.Core.Bool.{false≢true}
use mongonet.Base.{
  ℕ, ◌≡◌, ◌≢◌, ◌⊎◌, inl, inr, refl, sym, ap, subst, ◌∙◌, Bool, true, false, if◌then◌else◌, Option,
  none, some, arith, Outcome, ok, err, panic, hang, Error,
}
use mongonet.Base.Errors.{Ensures, Ensures-mono, ◌>>=◌}
use mongonet.Pool.{PooledConnection, ConnectionPool, get, put, mark_bad, set}
use mongonet.Pool.Lending.{IsValid, Answers, get-Ensures, IsPooled-others, open-away, set_same}
use mongonet.Pool.Returning.{put-Ensures, IsReturned}
use mongonet.Pool.Opening.{
  OpenIn, IsOpen, IsClosed, Gives, get-Gives, put-IsClosed, set-OpenIn, opening-OpenIn,
  same_or_other,
}
use mongonet.Proxy.{attempt}

-- What a run comes back with has the property. It may also panic, or go on.
abbrev pub Keeps : {A : Type 0} → (A → Type 0) → Outcome A → Type 0
Keeps P (ok a) = P a
Keeps P (err e) = Unit {0}
Keeps P panic = Unit {0}
Keeps P hang = Unit {0}

Ensures-Keeps : {A : Type 0} (P : A → Type 0) (m : Outcome A) → Ensures P m → Keeps P m
Ensures-Keeps P (ok a) h = h
Ensures-Keeps P (err e) h = tt
Ensures-Keeps P panic h = tt
Ensures-Keeps P hang h = tt

pub Keeps-bind :
    {A B : Type 0} (P : A → Type 0) (Q : B → Type 0) (m : Outcome A) (f : A → Outcome B)
    → Keeps P m
    → ((a : A) → P a → Keeps Q (f a))
    → Keeps Q (m >>= f)
Keeps-bind P Q (ok a) f h k = k a h
Keeps-bind P Q (err e) f h k = tt
Keeps-bind P Q panic f h k = tt
Keeps-bind P Q hang f h k = tt

pub Keeps-attempt :
    {A B : Type 0} (Q : B → Type 0) (m : Outcome A) (failed : Error → Outcome B)
    (done : A → Outcome B)
    → ((e : Error) → Keeps Q (failed e))
    → ((a : A) → Keeps Q (done a))
    → Keeps Q (attempt m failed done)
Keeps-attempt Q (ok a) failed done h k = k a
Keeps-attempt Q (err e) failed done h k = h e
Keeps-attempt Q panic failed done h k = tt
Keeps-attempt Q hang failed done h k = tt

pub Keeps-if :
    {A : Type 0} (Q : A → Type 0) (b : Bool) (m n : Outcome A)
    → (b ≡ true → Keeps Q m)
    → (b ≡ false → Keeps Q n)
    → Keeps Q (if b then m else n)
Keeps-if Q true m n h k = h refl
Keeps-if Q false m n h k = k refl

-- A session holds `held` of a pool where other sessions use the connections `Old`: the pool is valid,
-- what is in use is the session's or theirs, and theirs are in use and not the session's.
pub record IsHolding (Old : ℕ → Type 0) (held : Option ℕ) (p : ConnectionPool) : Type 0 where
  pub valid : IsValid p
  pub mine : (id : ℕ) → held ≡ some id → IsOpen p id
  pub no_other : (j : ℕ) → IsOpen p j → (held ≡ some j) ⊎ Old j
  pub theirs : (j : ℕ) → Old j → IsOpen p j × (held ≢ some j)

pub mark_bad-IsHolding :
    (Old : ℕ → Type 0) (id : ℕ) (p : ConnectionPool)
    → IsHolding Old (some id) p
    → IsHolding Old (some id) (mark_bad id p)
mark_bad-IsHolding Old id p h =
    let c : PooledConnection = record (p.objects id) { bad = true } in
    let open_id = h.mine id refl in
    let here : OpenIn p.fresh (set p.objects id c) id =
      (open_id.0, ap (λ x. x.closed) (set_same p.objects id c) ∙ open_id.1) in
    let same : (j : ℕ) → IsOpen p j → OpenIn p.fresh (set p.objects id c) j = (λ j o.
      elim (same_or_other j id) [
        | inl e ↦ subst (OpenIn p.fresh (set p.objects id c)) (sym e) here
        | inr d ↦ set-OpenIn p.fresh p.fresh p.objects id c j (omega arith) d o
      ]) in
    record {
      valid = record {
        pooled =
            IsPooled-others p.fresh p.fresh p.objects id c p.pool (omega arith)
              (open-away p.fresh p.objects id p.pool open_id.1 h.valid.pooled) h.valid.pooled;
        distinct = h.valid.distinct;
      };
      mine = λ j e. same j (h.mine j e);
      no_other = λ j o. elim (opening-OpenIn p.fresh p.objects id c j o) [
        | inl e ↦ inl (ap (λ x. some x) (sym e))
        | inr q ↦ h.no_other j q
      ];
      theirs = λ j o. (same j (h.theirs j o).0, (h.theirs j o).1);
    }

pub Ensures-both :
    {A : Type 0} (P Q : A → Type 0) (m : Outcome A)
    → Ensures P m
    → Ensures Q m
    → Ensures (λ a. P a × Q a) m
Ensures-both P Q (ok a) h k = (h, k)
Ensures-both P Q (err e) h k = tt
Ensures-both P Q panic h k = h
Ensures-both P Q hang h k = h

pub none-some : (j : ℕ) → ◌≢◌ {A = Option ℕ} none (some j)
none-some j e = cc

some-some : (i j : ℕ) → some i ≡ some j → i ≡ j
some-some i j e = cc

not_mine :
    {Old : ℕ → Type 0} {id : ℕ} {p : ConnectionPool}
    → IsHolding Old (some id) p
    → (j : ℕ) → j ≢ id
    → (some id ≡ some j) ⊎ Old j
    → Old j
not_mine {id} h j d (inl e) = absurd (d (sym (some-some id j e)))
not_mine h j d (inr o) = o

-- Behind `Put` the session holds nothing.
pub put-IsHolding :
    (Old : ℕ → Type 0) (now id : ℕ) (p : ConnectionPool)
    → IsHolding Old (some id) p
    → Keeps (IsHolding Old none) (put now id p)
put-IsHolding Old now id p h =
    let open_id = h.mine id refl in
    Ensures-Keeps (IsHolding Old none) (put now id p) (
      Ensures-mono (λ q. IsReturned p id q × IsClosed p id q) (IsHolding Old none) (put now id p)
        (λ q r. record {
          valid = r.0.0;
          mine = λ j e. absurd (none-some j e);
          no_other = λ j o. inr (not_mine h j (r.1.fewer j o).1 (h.no_other j (r.1.fewer j o).0));
          theirs = λ j o. (
            r.1.kept j (h.theirs j o).0 (λ e. (h.theirs j o).1 (ap (λ x. some x) (sym e))),
            (λ e. none-some j e),
          );
        })
        (Ensures-both (IsReturned p id) (IsClosed p id) (put now id p)
          (put-Ensures now id p h.valid open_id.0 open_id.1) (put-IsClosed now id p open_id.1)))

-- What `Get` gives to a session that holds nothing, it holds.
pub get-IsHolding :
    (Old : ℕ → Type 0) (clock : ℕ → ℕ) (dialed : Option ℕ) (hook : Option (ℕ → Bool))
    (p : ConnectionPool)
    → IsHolding Old none p
    → Keeps (λ r. IsHolding Old r.0 r.1) (get clock dialed hook p)
get-IsHolding Old clock dialed hook p h =
    Ensures-Keeps (λ r. IsHolding Old r.0 r.1) (get clock dialed hook p)
      (Ensures-mono (λ r. Answers p r × Gives p r) (λ r. IsHolding Old r.0 r.1)
        (get clock dialed hook p) (λ r a. given r.0 r.1 a)
        (Ensures-both (Answers p) (Gives p) (get clock dialed hook p)
          (get-Ensures clock dialed hook p h.valid) (get-Gives clock dialed hook p)))
  where
    olds : (j : ℕ) → (◌≡◌ {A = Option ℕ} none (some j)) ⊎ IsOpen p j → Old j
    olds j (inl e) = absurd (none-some j e)
    olds j (inr o) = elim (h.no_other j o) [ inl e ↦ absurd (none-some j e) | inr old ↦ old ]

    away :
        (given : Option ℕ) (q : ConnectionPool)
        → Answers p (given, q)
        → (j : ℕ) → Old j
        → given ≢ some j
    away none q a j o e = none-some j e
    away (some id) q (v, l) j o e =
        let open_j = (h.theirs j o).0 in
        let same = some-some id j e in
        elim l.unused [
          | inl new ↦ absurd (omega (arith, open_j.0, same, new))
          | inr was ↦
              absurd (false≢true (sym open_j.1 ∙ ap (λ i. (p.objects i).closed) (sym same) ∙ was))
        ]

    given :
        (given : Option ℕ) (q : ConnectionPool)
        → Answers p (given, q) × Gives p (given, q)
        → IsHolding Old given q
    given none q (v, g) = record {
      valid = v;
      mine = λ j e. absurd (none-some j e);
      no_other = λ j o. inr (olds j (g.more j o));
      theirs = λ j o. (g.kept j (h.theirs j o).0 (λ e. none-some j e), (λ e. none-some j e));
    }
    given (some id) q ((v, l), g) = record {
      valid = v;
      mine = λ j e. subst (IsOpen q) (some-some id j e) (l.known, l.open_now);
      no_other = λ j o. elim (g.more j o) [ inl e ↦ inl e | inr old ↦ inr (olds j (inr old)) ];
      theirs = λ j o. let d = away (some id) q (v, l) j o in (g.kept j (h.theirs j o).0 d, d);
    }
