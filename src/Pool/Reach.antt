-- ===== src/Pool/Reach.antt =====
-- The pools that calls of `Get` and `Put` reach, in any order, and callers that mark what they hold.
use mongonet.Base.{ℕ, ◌<◌, ◌≡◌, Bool, false, Option, none, some, arith, ok}
use mongonet.Base.Errors.{Ensures-ok}
use mongonet.Pool.{PooledConnection, ConnectionPool, new_connection_pool, get, put, mark_bad}
use mongonet.Pool.Returning.{put-Ensures, IsReturned}
use mongonet.Pool.Lending.{IsValid, IsLent, Answers, IsPooled-others, open-away, get-Ensures}

-- One call. A caller puts back and marks as bad only what is in use.
pub data Step (p : ConnectionPool) : ConnectionPool → Type 0 where
  getting :
      (clock : ℕ → ℕ) (dialed : Option ℕ) (hook : Option (ℕ → Bool)) (given : Option ℕ)
      (q : ConnectionPool)
      → get clock dialed hook p ≡ ok (given, q)
      → Step p q
  putting :
      (now id : ℕ) (q : ConnectionPool)
      → id < p.fresh
      → (p.objects id).closed ≡ false
      → put now id p ≡ ok q
      → Step p q
  marking : (id : ℕ) → (p.objects id).closed ≡ false → Step p (mark_bad id p)

pub data Reachable : ConnectionPool → Type 0 where
  start : (objects : ℕ → PooledConnection) → Reachable (new_connection_pool objects)
  next : (p q : ConnectionPool) → Reachable p → Step p q → Reachable q

answer-IsValid :
    (p : ConnectionPool) (given : Option ℕ) (q : ConnectionPool) → Answers p (given, q) → IsValid q
answer-IsValid p none q a = a
answer-IsValid p (some id) q (v, l) = v

Step-IsValid : (p q : ConnectionPool) → IsValid p → Step p q → IsValid q
Step-IsValid p q v (getting clock dialed hook given q' e) = answer-IsValid p given q' (
    Ensures-ok (Answers p) (get clock dialed hook p) (given, q') (get-Ensures clock dialed hook p v)
      e)
Step-IsValid p q v (putting now id q' k o e) =
    (Ensures-ok (IsReturned p id) (put now id p) q' (put-Ensures now id p v k o) e).0
Step-IsValid p q v (marking id o) = record {
  pooled =
      IsPooled-others p.fresh p.fresh p.objects id _ p.pool (omega arith)
        (open-away p.fresh p.objects id p.pool o v.pooled) v.pooled;
  distinct = v.distinct;
}

-- However the calls of `Get` and `Put` follow each other from a new pool, where only connections in use
-- are put back or marked as bad, what waits in the pool is closed, not bad and in it once.
pub Reachable-IsValid : (p : ConnectionPool) → Reachable p → IsValid p
Reachable-IsValid p (start objects) = record { pooled = tt; distinct = tt }
Reachable-IsValid p (next p' q r s) = Step-IsValid p' q (Reachable-IsValid p' r) s

-- In a pool that the calls reach from a new one, a connection that `Get` gives is open, not bad
-- and no longer in the pool, and was not in use before: it is new or was closed.
pub get-unshared :
    (p q : ConnectionPool) (clock : ℕ → ℕ) (dialed : Option ℕ) (hook : Option (ℕ → Bool)) (id : ℕ)
    → Reachable p
    → get clock dialed hook p ≡ ok (some id, q)
    → IsLent p q id
get-unshared p q clock dialed hook id r e =
    (Ensures-ok (Answers p) (get clock dialed hook p) (some id, q)
      (get-Ensures clock dialed hook p (Reachable-IsValid p r)) e).1
