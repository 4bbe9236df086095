-- ===== src/Pool/Returning.antt =====
-- connpool.go: what `Put` does to a pool whose connections are closed, not bad and in it once.
use mathlib.Core.Bool.{false≢true}
use mongonet.Base.{ℕ, ◌<◌, ◌≡◌, ◌⊎◌, inl, inr, refl, sym, ap, ◌∙◌, ◌∷◌, true, false, arith, panic}
use mongonet.Base.Errors.{Ensures, Ensures-if, Ensures-mono}
use mongonet.Pool.{PooledConnection, ConnectionPool, put}
use mongonet.Pool.Lending.{IsValid, IsPooled-others, open-away, set_same}

-- What `Put` of a connection leaves: it is closed, in the pool unless it was bad, and then it is shut.
abbrev pub IsReturned : ConnectionPool → ℕ → ConnectionPool → Type 0
IsReturned p id q =
    IsValid q
    × ((q.objects id).closed ≡ true)
    × (q.fresh ≡ p.fresh)
    × (((p.objects id).bad ≡ false) × (q.pool ≡ id ∷ p.pool)
        ⊎ ((p.objects id).bad ≡ true) × (q.pool ≡ p.pool) × (q.shut ≡ (p.objects id).conn ∷ p.shut))

-- In a pool whose connections are closed, not bad and in it once, `Put` of a connection that is in
-- use (an object of the pool that is not closed) does not panic, and the pool stays so. The
-- connection is closed then. If it was not bad it is the last of the pool, else the pool's
-- connections are as before and its network connection is closed.
pub put-Ensures :
    (now id : ℕ) (p : ConnectionPool)
    → IsValid p
    → id < p.fresh
    → (p.objects id).closed ≡ false
    → Ensures (IsReturned p id) (put now id p)
unfolding put
put-Ensures now id p v k o =
    let c : PooledConnection = record (p.objects id) { last_used_unix = now; closed = true } in
    let same = set_same p.objects id c in
    let away = open-away p.fresh p.objects id p.pool o v.pooled in
    let others =
      IsPooled-others p.fresh p.fresh p.objects id c p.pool (omega arith) away v.pooled in
    Ensures-if (IsReturned p id) ((p.objects id).closed) _ _ (λ h. absurd (false≢true (sym o ∙ h)))
      (λ _.
        Ensures-if (IsReturned p id) ((p.objects id).bad) _ _
          (λ h. (
            record { pooled = others; distinct = v.distinct },
            ap (λ x. x.closed) same,
            refl,
            inr (h, refl, refl),
          ))
          (λ h. (
            record {
              pooled = ((k, ap (λ x. x.closed) same, ap (λ x. x.bad) same ∙ h), others);
              distinct = (away, v.distinct);
            },
            ap (λ x. x.closed) same,
            refl,
            inl (h, refl),
          )))

put-panic : (now id : ℕ) (p : ConnectionPool) → (p.objects id).closed ≡ true → put now id p ≡ panic
unfolding put
put-panic now id p h = rw h

put-closed :
    (now id : ℕ) (p : ConnectionPool)
    → (p.objects id).closed ≡ false
    → Ensures (λ q. (q.objects id).closed ≡ true) (put now id p)
unfolding put
put-closed now id p o =
    let c : PooledConnection = record (p.objects id) { last_used_unix = now; closed = true } in
    let P : ConnectionPool → Type 0 = λ q. (q.objects id).closed ≡ true in
    let same = ap (λ x. x.closed) (set_same p.objects id c) in
    Ensures-if P ((p.objects id).closed) _ _ (λ h. absurd (false≢true (sym o ∙ h)))
      (λ _. Ensures-if P ((p.objects id).bad) _ _ (λ _. same) (λ _. same))

-- `Put` of a connection that is in use does not panic, and in the pool that it leaves a second
-- `Put` of the same connection, at whatever time, panics.
pub put-put :
    (now later id : ℕ) (p : ConnectionPool)
    → (p.objects id).closed ≡ false
    → Ensures (λ q. put later id q ≡ panic) (put now id p)
put-put now later id p o =
    Ensures-mono (λ q. (q.objects id).closed ≡ true) (λ q. put later id q ≡ panic) (put now id p)
      (λ q h. put-panic later id q h) (put-closed now id p o)
