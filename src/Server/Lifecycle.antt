-- ===== src/Server/Lifecycle.antt =====
-- server.go: the states that a server reaches, and when `Run` comes back.
use mathlib.Core.Bool.{false≢true}
use mongonet.Base.{
  ℕ, ◌-◌, ◌<◌, ◌≡◌, ◌≢◌, inl, inr, refl, sym, ap, ◌∙◌, List, Bool, true, false, Bool-cases,
  if◌then◌else◌, leb, Option, arith,
}
use mongonet.Server.Sessions.{count_done-session_run}
use mongonet.Server.{
  Action, session_run, RunError, starting, accepting, waiting, returned, crashed, Server,
  new_server, initialize_server, listen, accept, accept_failed, kill, stop, wait, count_done,
  end_session,
}

-- What a goroutine or the environment does next. A session ends with whatever the factory gave it; where that
-- makes it panic the program ends, behind what the step does.
pub data Step (s : Server) : Server → Type 0 where
  listening : (b : Bool) → s.phase ≡ starting → Step s (listen b s)
  accepted : s.phase ≡ accepting → Step s (accept s)
  not_accepted : s.phase ≡ accepting → Step s (accept_failed s)
  killing : s.killed ≡ false → Step s (kill s)
  stopping : s.phase ≡ accepting → s.killed ≡ true → Step s (stop s)
  waited :
      (e : Option RunError)
      → s.phase ≡ waiting e
      → (s.manager ≡ true → s.group ≡ 0)
      → Step s (wait e s)
  ended :
      (tls shaken failed worker : Bool)
      → 0 < s.running
      → Step s (end_session (session_run s.contextual tls shaken failed worker) s)

pub data Reachable (s : Server) : Server → Type 0 where
  here : Reachable s s
  next : (t u : Server) → Reachable s t → Step t u → Reachable s u

-- A server with a session manager: its wait group counts the sessions where the factory has contexts,
-- none runs before it listens, and none runs any more when `Run` has come back.
pub record IsSound (contextual : Bool) (s : Server) : Type 0 where
  pub managed : s.manager ≡ true
  pub factory : s.contextual ≡ contextual
  pub alive : s.phase ≢ crashed
  pub counted : s.group ≡ (if contextual then s.running else 0)
  pub early : s.phase ≡ starting → s.running ≡ 0
  pub over : (e : Option RunError) → s.phase ≡ returned e → contextual ≡ true → s.running ≡ 0

accept-IsSound :
    (contextual : Bool) (s : Server)
    → IsSound contextual s
    → s.phase ≡ accepting
    → IsSound contextual (accept s)
accept-IsSound true s h e =
    rw (h.factory, h.managed)
      (record {
        managed = refl;
        factory = refl;
        alive = λ z. absurd (ground arith);
        counted = omega (arith, h.counted);
        early = λ z. absurd (ground arith);
        over = λ e' z c. absurd (ground arith);
      })
accept-IsSound false s h e = rw h.factory (record {
  managed = h.managed;
  factory = refl;
  alive = h.alive;
  counted = h.counted;
  early = λ z. absurd (ground arith);
  over = λ e' z c. absurd (ground arith);
})

stop-IsSound : (contextual : Bool) (s : Server) → IsSound contextual s → IsSound contextual (stop s)
stop-IsSound contextual s h = rw h.managed (record {
  managed = refl;
  factory = h.factory;
  alive = λ z. cc;
  counted = h.counted;
  early = λ z. absurd cc;
  over = λ e z c. absurd cc;
})

wait-IsSound :
    (contextual : Bool) (s : Server) (e : Option RunError)
    → IsSound contextual s
    → s.group ≡ 0
    → IsSound contextual (wait e s)
wait-IsSound contextual s e h g = rw h.managed (record {
  managed = refl;
  factory = h.factory;
  alive = λ z. cc;
  counted = h.counted;
  early = λ z. absurd cc;
  over = λ e' z c. empty contextual c h.counted;
})
  where
    empty :
        (contextual : Bool)
        → contextual ≡ true
        → s.group ≡ (if contextual then s.running else 0)
        → s.running ≡ 0
    empty contextual c k = ground (arith, g)

end_session-IsSound :
    (contextual : Bool) (s : Server) (acts : List Action)
    → IsSound contextual s
    → 0 < s.running
    → count_done acts ≡ (if contextual then 1 else 0)
    → IsSound contextual (end_session acts s)
end_session-IsSound contextual s acts h r d = rw (fits contextual h.counted d) (record {
  managed = h.managed;
  factory = h.factory;
  alive = h.alive;
  counted = fewer contextual h.counted d;
  early = λ z. omega (arith, h.early z);
  over = λ e z c. omega (arith, h.over e z c);
})
  where
    fits :
        (contextual : Bool)
        → s.group ≡ (if contextual then s.running else 0)
        → count_done acts ≡ (if contextual then 1 else 0)
        → leb (count_done acts) s.group ≡ true
    fits true k d = ground arith
    fits false k d = ground arith

    fewer :
        (contextual : Bool)
        → s.group ≡ (if contextual then s.running else 0)
        → count_done acts ≡ (if contextual then 1 else 0)
        → s.group - count_done acts ≡ (if contextual then s.running - 1 else 0)
    fewer true k d = omega arith
    fewer false k d = omega arith

Step-IsSound :
    (contextual : Bool) (s t : Server) → IsSound contextual s → Step s t → IsSound contextual t
Step-IsSound ctx s t h (listening true e) = record {
  managed = h.managed;
  factory = h.factory;
  alive = λ z. cc;
  counted = h.counted;
  early = λ z. absurd cc;
  over = λ e' z c. absurd cc;
}
Step-IsSound ctx s t h (listening false e) = record {
  managed = h.managed;
  factory = h.factory;
  alive = λ z. cc;
  counted = h.counted;
  early = λ z. absurd cc;
  over = λ e' z c. h.early e;
}
Step-IsSound ctx s t h (accepted e) = accept-IsSound ctx s h e
Step-IsSound ctx s t h (not_accepted e) = record {
  managed = h.managed;
  factory = h.factory;
  alive = λ z. cc;
  counted = h.counted;
  early = λ z. absurd cc;
  over = λ e' z c. absurd cc;
}
Step-IsSound ctx s t h (killing e) = record {
  managed = h.managed;
  factory = h.factory;
  alive = h.alive;
  counted = h.counted;
  early = h.early;
  over = h.over;
}
Step-IsSound ctx s t h (stopping e k) = stop-IsSound ctx s h
Step-IsSound ctx s t h (waited e p g) = wait-IsSound ctx s e h (g h.managed)
Step-IsSound ctx s t h (ended tls shaken failed worker r) =
    end_session-IsSound ctx s (session_run s.contextual tls shaken failed worker) h r (
      count_done-session_run s.contextual tls shaken failed worker
      ∙ ap (λ b. if b then 1 else 0) h.factory)

Reachable-IsSound :
    (contextual : Bool) (s t : Server) → IsSound contextual s → Reachable s t → IsSound contextual t
Reachable-IsSound ctx s t h here = h
Reachable-IsSound ctx s t h (next u v r st) =
    Step-IsSound ctx u v (Reachable-IsSound ctx s u h r) st

-- A server of `NewServer`, in whatever order connections come, sessions end and the server is killed:
-- no goroutine of it panics on the session manager or the wait group, and the wait group counts the
-- running sessions where the factory makes workers with a context. With such a factory `Run` comes back
-- only when no session runs any more.
pub new_server-IsSound :
    (contextual : Bool) (t : Server) → Reachable (new_server contextual) t → IsSound contextual t
new_server-IsSound contextual t r =
    Reachable-IsSound contextual (new_server contextual) t
      (record {
        managed = refl;
        factory = refl;
        alive = λ z. cc;
        counted = none_yet contextual;
        early = λ z. refl;
        over = λ e z c. refl;
      })
      r
  where
    none_yet : (contextual : Bool) → ◌≡◌ {A = ℕ} 0 (if contextual then 0 else 0)
    none_yet true = refl
    none_yet false = refl

-- A server without a session manager.
record IsUnmanaged (s : Server) : Type 0 where
  unmanaged : s.manager ≡ false
  plain : s.contextual ≡ false
  early : s.phase ≡ starting → s.listening ≡ false
  over : (e : Option RunError) → s.phase ≡ returned e → s.listening ≡ false

Step-IsUnmanaged : (s t : Server) → IsUnmanaged s → Step s t → IsUnmanaged t
Step-IsUnmanaged s t h (listening true e) = record {
  unmanaged = h.unmanaged;
  plain = h.plain;
  early = λ z. absurd cc;
  over = λ e' z. absurd cc;
}
Step-IsUnmanaged s t h (listening false e) = record {
  unmanaged = h.unmanaged;
  plain = h.plain;
  early = λ z. absurd cc;
  over = λ e' z. h.early e;
}
Step-IsUnmanaged s t h (accepted e) =
    rw h.plain (record { unmanaged = h.unmanaged; plain = refl; early = h.early; over = h.over })
Step-IsUnmanaged s t h (not_accepted e) = record {
  unmanaged = h.unmanaged;
  plain = h.plain;
  early = λ z. absurd cc;
  over = λ e' z. absurd cc;
}
Step-IsUnmanaged s t h (killing e) = record {
  unmanaged = h.unmanaged;
  plain = h.plain;
  early = h.early;
  over = h.over;
}
Step-IsUnmanaged s t h (stopping e k) =
    rw h.unmanaged (record {
      unmanaged = refl;
      plain = h.plain;
      early = λ z. absurd cc;
      over = λ e' z. absurd cc;
    })
Step-IsUnmanaged s t h (waited e p g) =
    rw h.unmanaged (record {
      unmanaged = refl;
      plain = h.plain;
      early = λ z. absurd cc;
      over = λ e' z. absurd cc;
    })
Step-IsUnmanaged s t h (ended tls shaken failed worker r) =
    elim (Bool-cases
      (leb (count_done (session_run s.contextual tls shaken failed worker)) s.group)) [
        | inl q ↦
            rw q
              (record { unmanaged = h.unmanaged; plain = h.plain; early = h.early; over = h.over })
        | inr q ↦ rw q (record {
          unmanaged = h.unmanaged;
          plain = h.plain;
          early = λ z. absurd cc;
          over = λ e' z. absurd cc;
        })
      ]

Reachable-IsUnmanaged : (s t : Server) → IsUnmanaged s → Reachable s t → IsUnmanaged t
Reachable-IsUnmanaged s t h here = h
Reachable-IsUnmanaged s t h (next u v r st) =
    Step-IsUnmanaged u v (Reachable-IsUnmanaged s u h r) st

-- The server of a proxy, as `InitializeServer` makes it, has no session manager. Once it listens, `Run`
-- never comes back: when the server is killed, the stop of the sessions panics, and when a connection
-- cannot be accepted, the wait for the sessions does.
pub initialize_server-crashed :
    (t : Server) (e : Option RunError)
    → Reachable initialize_server t
    → t.listening ≡ true
    → (t.phase ≢ returned e) × ((stop t).phase ≡ crashed) × ((wait e t).phase ≡ crashed)
initialize_server-crashed t e r l =
    let h =
      Reachable-IsUnmanaged initialize_server t
        (record { unmanaged = refl; plain = refl; early = λ z. refl; over = λ e' z. absurd cc })
        r in
    ((λ z. absurd (false≢true (sym (h.over e z) ∙ l))), rw h.unmanaged refl, rw h.unmanaged refl)
