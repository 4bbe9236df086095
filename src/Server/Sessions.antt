-- ===== src/Server/Sessions.antt =====
-- session.go: what each run of a session does, and how often.
use mongonet.Base.{ℕ, suc, ◌≡◌, List, [], ◌∷◌, Bool, not, ◌||◌, ◌&&◌, ◌==◌, if◌then◌else◌, arith}
use mongonet.Server.{
  Action, handshake, create_worker, do_loop, nil_worker, close_conn, close_worker, session_done,
  session_run, count_done,
}

abbrev pub number : Action → ℕ
number handshake = 0
number create_worker = 1
number do_loop = 2
number nil_worker = 3
number close_conn = 4
number close_worker = 5
number session_done = 6

-- How often an action is in a run.
abbrev pub count : Action → List Action → ℕ
count a [] = 0
count a (b ∷ bs) = let rest = count a bs in if number a == number b then suc rest else rest

-- The numbers 0 and 1
abbrev pub once_if : Bool → ℕ
once_if b = if b then 1 else 0

-- Every branch of a run, as a record of what it did.
pub record IsBalanced (contextual tls shaken failed worker : Bool) (acts : List Action)
    : Type 0 where
  pub conn_closed : count close_conn acts ≡ 1
  pub created : count create_worker acts ≡ once_if (not tls || shaken)
  pub worker_closed : count close_worker acts ≡ once_if ((not tls || shaken) && worker)
  pub looped : count do_loop acts ≡ once_if ((not tls || shaken) && (worker && not failed))
  pub panicked : count nil_worker acts ≡ once_if ((not tls || shaken) && (not worker && not failed))
  pub left_group : count session_done acts ≡ once_if contextual

-- A session, with or without TLS and a context, whether or not its handshake succeeds, and whether the factory
-- gives a worker, an error, both or neither. It closes its connection once. It asks the factory once, unless a
-- handshake failed, and closes the worker once where the factory gave one, also along with an error, and never
-- otherwise. It runs the worker once where there is one and no error, and panics where there is neither. It
-- leaves the wait group once where the factory has contexts, in that case too, and never otherwise.
pub session_run-IsBalanced :
    (contextual tls shaken failed worker : Bool)
    → IsBalanced contextual tls shaken failed worker
        (session_run contextual tls shaken failed worker)
unfolding session_run
session_run-IsBalanced contextual tls shaken failed worker = record {
  conn_closed = ground arith;
  created = ground arith;
  worker_closed = ground arith;
  looped = ground arith;
  panicked = ground arith;
  left_group = ground arith;
}

pub count_done-session_run :
    (contextual tls shaken failed worker : Bool)
    → count_done (session_run contextual tls shaken failed worker) ≡ (if contextual then 1 else 0)
unfolding session_run
count_done-session_run contextual tls shaken failed worker = ground arith
