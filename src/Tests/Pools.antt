-- ===== src/Tests/Pools.antt =====
-- connpool.go: a pool in use.
use mongonet.Base.{ℕ, ◌+◌, ◌<◌, ◌≡◌, ◌≢◌, refl, [], ◌∷◌, true, false, none, some, arith, panic}
use mongonet.Base.Errors.{Ensures}
use mongonet.Pool.{
  PooledConnection, ConnectionPool, new_connection_pool, add_created, get_pooled, create, get, put,
}
use mongonet.Pool.Returning.{put-Ensures, put-put, IsReturned}
use mongonet.Pool.Lending.{IsValid, IsLent, Answers, get-Ensures}
use mongonet.Pool.Reach.{Step, Reachable, Reachable-IsValid, get-unshared}

abbrev pub nothing : PooledConnection
nothing = record { conn = 0; last_used_unix = 0; closed = false; bad = false }

abbrev pub empty_pool : ConnectionPool
empty_pool = new_connection_pool (λ _. nothing)

-- One connection, number 5 of the network, in use.
abbrev pub busy_pool : ConnectionPool
busy_pool = add_created 5 empty_pool

abbrev returned : PooledConnection
returned = record { conn = 5; last_used_unix = 100; closed = true; bad = false }

-- A pool with two connections that wait in it.
abbrev idle_pool : ConnectionPool
idle_pool = record {
  timeout_seconds = 3600;
  pool = 1 ∷ 0 ∷ [];
  total_created = 2;
  objects = λ _. returned;
  fresh = 2;
  shut = [];
}

less-apart : (a b : ℕ) → a < b → a ≢ b
less-apart a b h = ground arith

idle_pool-IsValid : IsValid idle_pool
idle_pool-IsValid = record {
  pooled = ((omega arith, refl, refl), ((omega arith, refl, refl), tt));
  distinct = ((less-apart 0 1 (omega arith), tt), (tt, tt));
}

abbrev clock : ℕ → ℕ
clock i = 3700 + i

get-Ensures_example : Ensures (Answers idle_pool) (get clock none none idle_pool)
get-Ensures_example = get-Ensures clock none none idle_pool idle_pool-IsValid

pub busy_pool-Reachable : Reachable busy_pool
unfolding get get_pooled create
busy_pool-Reachable =
    Reachable.next empty_pool busy_pool (Reachable.start (λ _. nothing))
      (Step.getting clock (some 5) none (some 0) busy_pool refl)

put-Ensures_example : Ensures (IsReturned busy_pool 0) (put 100 0 busy_pool)
put-Ensures_example =
    put-Ensures 100 0 busy_pool (Reachable-IsValid busy_pool busy_pool-Reachable) (omega arith) refl

put-put_example : Ensures (λ q. put 101 0 q ≡ panic) (put 100 0 busy_pool)
put-put_example = put-put 100 101 0 busy_pool refl

get-unshared_example : IsLent empty_pool busy_pool 0
unfolding get get_pooled create
get-unshared_example =
    get-unshared empty_pool busy_pool clock (some 5) none 0 (Reachable.start (λ _. nothing)) refl
