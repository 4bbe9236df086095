-- ===== src/Server.antt =====
-- server.go and session.go: the life of a server and of its sessions. `Run` and the sessions are
-- goroutines: the steps are what each does between two points where another one may go on. The listener,
-- the factory's workers and TLS are the environment.
pub mod Lifecycle
pub mod Sessions
pub mod Tls
use mongonet.Base.{
  ℕ, zero, suc, ◌+◌, ◌-◌, ◌<◌, ◌≡◌, List, [], ◌∷◌, ◌++◌, Bool, true, false, ◌==◌, leb,
  if◌then◌else◌, Option, none, some,
}

-- What `Session.Run` does to what it was given. The call of `DoLoopTemp` on a worker that is nil panics, and
-- the deferred function runs all the same.
pub data Action : Type 0 where
  handshake create_worker do_loop nil_worker close_conn close_worker session_done : Action

-- The deferred function of `Session.Run`: `contextual` tells whether the factory makes workers with a
-- context, `worker` whether there is one.
abbrev pub finish : Bool → Bool → List Action
finish contextual worker =
    close_conn
    ∷ ((if worker then close_worker ∷ [] else []) ++ (if contextual then session_done ∷ [] else []))

-- From the creation of the worker on: `failed` tells whether there is an error, `worker` whether there is a
-- worker, which may come along with an error.
abbrev pub with_worker : Bool → Bool → Bool → List Action
with_worker contextual failed worker =
    create_worker
    ∷ (if failed
        then finish contextual worker
        else if worker
        then do_loop ∷ finish contextual worker
        else nil_worker ∷ finish contextual worker)

-- `Session.Run`: with TLS there is a handshake, which may fail, and then there is no worker yet.
unfoldable pub session_run : Bool → Bool → Bool → Bool → Bool → List Action
session_run contextual tls shaken failed worker =
    if tls
    then handshake
      ∷ (if shaken then with_worker contextual failed worker else finish contextual false)
    else with_worker contextual failed worker

-- Where `Run` stands, and with which error it comes back (none for nil).
pub data RunError : Type 0 where
  cannot_listen could_not_accept : RunError

pub data Phase : Type 0 where
  starting : Phase
  accepting : Phase
  waiting : Option RunError → Phase
  returned : Option RunError → Phase
  crashed : Phase

-- `manager` tells whether the server has a sessionManager, `contextual` whether its factory makes
-- workers with a context. `group` is the counter of the wait group, `running` counts the sessions, and
-- `stopped` tells whether the sessions' context is done, `listening` whether the server has its address.
pub record Server : Type 0 where
  pub manager : Bool
  pub contextual : Bool
  pub phase : Phase
  pub killed : Bool
  pub stopped : Bool
  pub group : ℕ
  pub running : ℕ
  pub listening : Bool

-- `NewServer`
abbrev pub new_server : Bool → Server
new_server contextual = record {
  manager = true;
  contextual = contextual;
  phase = starting;
  killed = false;
  stopped = false;
  group = 0;
  running = 0;
  listening = false;
}

-- `Proxy.InitializeServer`: no session manager, and the proxy is the factory, without contexts.
abbrev pub initialize_server : Server
initialize_server = record {
  manager = false;
  contextual = false;
  phase = starting;
  killed = false;
  stopped = false;
  group = 0;
  running = 0;
  listening = false;
}

-- `net.Listen` fails, or not.
abbrev pub listen : Bool → Server → Server
listen false s = record s { phase = returned (some cannot_listen) }
listen _ s = record s { phase = accepting; listening = true }

-- A connection is accepted: `sessionWG.Add(1)` where the factory has contexts, and `go c.Run(conn)`.
abbrev pub accept : Server → Server
accept s =
    let go : Server = record s { running = suc s.running } in
    let add : Server =
      if s.manager then record go { group = suc s.group } else record s { phase = crashed } in
    if s.contextual then add else go

-- `Accept` fails.
abbrev pub accept_failed : Server → Server
accept_failed s = record s { phase = waiting (some could_not_accept) }

-- `close(s.killChan)`
abbrev pub kill : Server → Server
kill s = record s { killed = true }

-- `<-s.killChan`: the context of the sessions is stopped.
abbrev pub stop : Server → Server
stop s =
    if s.manager
    then record s { phase = waiting none; stopped = true }
    else record s { phase = crashed }

-- The deferred function, with the error that is returned: it goes on when the wait group is empty.
abbrev pub wait : Option RunError → Server → Server
wait e s = if s.manager then record s { phase = returned e } else record s { phase = crashed }

-- How often a session takes itself out of the wait group.
abbrev pub count_done : List Action → ℕ
count_done [] = 0
count_done (session_done ∷ acts) = suc (count_done acts)
count_done (_ ∷ acts) = count_done acts

-- A session has run to its end. A wait group below zero panics.
abbrev pub end_session : List Action → Server → Server
end_session acts s =
    if leb (count_done acts) s.group
    then record s { running = s.running - 1; group = s.group - count_done acts }
    else record s { phase = crashed }
