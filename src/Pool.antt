-- ===== src/Pool.antt =====
-- connpool.go: a connection pool. A PooledConnection is an object: the pool's slice and the callers
-- hold references, here indices of `objects`. A call of `Get` or `Put` is one step, since what it does
-- to the pool stands under the mutex. The clock (which does not wrap), the dialer and the hook are
-- arguments.
pub mod Lending
pub mod Returning
pub mod Reach
pub mod Opening
use mongonet.Base.{
  ℕ, zero, suc, ◌+◌, List, [], ◌∷◌, Bool, true, false, ◌==◌, ltb, if◌then◌else◌, Option, none, some,
  length, Outcome, ok, panic, hang,
}
use mongonet.Base.Errors.{◌>>=◌}

pub record PooledConnection : Type 0 where
  pub conn : ℕ
  pub last_used_unix : ℕ
  pub closed : Bool
  pub bad : Bool

-- `pool` has the last of the slice first. `shut` are the network connections closed so far, and
-- `fresh` is the index of the next object.
pub record ConnectionPool : Type 0 where
  pub timeout_seconds : ℕ
  pub pool : List ℕ
  pub total_created : ℕ
  pub objects : ℕ → PooledConnection
  pub fresh : ℕ
  pub shut : List ℕ

abbrev pub set : (ℕ → PooledConnection) → ℕ → PooledConnection → ℕ → PooledConnection
set f id c j = if j == id then c else f j

-- `NewConnectionPool`
abbrev pub new_connection_pool : (ℕ → PooledConnection) → ConnectionPool
new_connection_pool objects = record {
  timeout_seconds = 3600;
  pool = [];
  total_created = 0;
  objects = objects;
  fresh = 0;
  shut = [];
}

abbrev pub current_in_pool : ConnectionPool → ℕ
current_in_pool p = length p.pool

-- `cp.pool[last]` and `cp.pool[:last]`, where there is one
abbrev pub raw_get : ConnectionPool → Option (ℕ × ConnectionPool)
raw_get p = elim p.pool [ [] ↦ none | id ∷ rest ↦ some (id, record p { pool = rest }) ]

abbrev pub reopen : ConnectionPool → ℕ → ConnectionPool
reopen p id = record p { objects = set p.objects id (record (p.objects id) { closed = false }) }

-- `conn.conn.Close()`
abbrev pub shut_down : ConnectionPool → ℕ → ConnectionPool
shut_down p conn = record p { shut = conn ∷ p.shut }

-- The loop of `Get`; `clock i` is the time in round i.
unfoldable pub get_pooled : ℕ → (ℕ → ℕ) → ConnectionPool → Outcome (Option ℕ × ConnectionPool)
get_pooled zero clock p = hang
get_pooled (suc fuel) clock p = elim (raw_get p) [
  | none ↦ ok (none, p)
  | some (id, q) ↦
      let c = q.objects id in
      let again = get_pooled fuel (λ i. clock (suc i)) (shut_down q c.conn) in
      if ltb (clock 0) (c.last_used_unix + q.timeout_seconds)
      then ok (some id, reopen q id)
      else again
]

abbrev pub add_created : ℕ → ConnectionPool → ConnectionPool
add_created conn p = record p {
  total_created = suc p.total_created;
  objects =
      set p.objects p.fresh
        (record { conn = conn; last_used_unix = 0; closed = false; bad = false });
  fresh = suc p.fresh;
}

-- The rest of `Get`, with what the dialer gives and the hook if there is one (true for no error).
unfoldable pub create : Option ℕ → Option (ℕ → Bool) → ConnectionPool → Option ℕ × ConnectionPool
create none hook p = (none, p)
create (some conn) none p = (some p.fresh, add_created conn p)
create (some conn) (some hook) p =
    if hook conn then (some p.fresh, add_created conn p) else (none, shut_down p conn)

abbrev pub or_create :
    Option ℕ → Option (ℕ → Bool) → Option ℕ × ConnectionPool → Option ℕ × ConnectionPool
or_create dialed hook (some id, p) = (some id, p)
or_create dialed hook (none, p) = create dialed hook p

-- `Get`; none is its error.
unfoldable pub get :
    (ℕ → ℕ) → Option ℕ → Option (ℕ → Bool) → ConnectionPool → Outcome (Option ℕ × ConnectionPool)
get clock dialed hook p =
    get_pooled (suc (length p.pool)) clock p >>= λ r. ok (or_create dialed hook r)

-- `Put` at a time.
unfoldable pub put : ℕ → ℕ → ConnectionPool → Outcome ConnectionPool
put now id p =
    let c = p.objects id in
    let q = record p {
      objects = set p.objects id (record c { last_used_unix = now; closed = true });
    } in
    if c.closed
    then panic
    else if c.bad
    then ok (shut_down q c.conn)
    else ok (record q { pool = id ∷ q.pool })

-- `conn.bad = true` by a caller that holds it
abbrev pub mark_bad : ℕ → ConnectionPool → ConnectionPool
mark_bad id p = record p { objects = set p.objects id (record (p.objects id) { bad = true }) }
