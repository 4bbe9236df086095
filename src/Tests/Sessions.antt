-- ===== src/Tests/Sessions.antt =====
-- proxy.go: a session between a client that sends one query and a server that answers it.
use mongonet.Base.{
  ℕ, ◌+◌, ◌≡◌, ◌↔◌, refl, sym, ap, List, [], ◌++◌, take_all, inl, none, some, arith, length, take,
}
use mongonet.Bytes.Layout.{le32}
use mongonet.Socket.ReadResult.{got}
use mongonet.Socket.WriteResult.{wrote}
use mongonet.Socket.{ReadResult, WriteResult, IsRead, IsWritten}
use mongonet.Pool.Lending.{IsValid}
use mongonet.Pool.Opening.{IsOpen}
use mongonet.Pool.Reach.{Reachable-IsValid}
use mongonet.Proxy.{End, client, server, Network, do_loop_temp}
use mongonet.Proxy.Keeping.{Keeps}
use mongonet.Proxy.Turns.{do_loop_temp-IsOpen}
use mongonet.Tests.Answers.{marshal}
use mongonet.Tests.Connections.{Bytes, buffer, query_frame}
use mongonet.Tests.Data.{all_bytes-IsByte, reply_text}
use mongonet.Tests.Pools.{busy_pool, busy_pool-Reachable}

-- What client and server still have to say, and what they have been sent.
pub record World : Type 0 where
  pub client_says : Bytes
  pub client_got : List ℕ
  pub server_says : Bytes
  pub server_got : List ℕ

abbrev map_read : {A B : Type 0} → (A → B) → ReadResult A → ReadResult B
map_read f (got b a) = got b (f a)
map_read f (ReadResult.failed e a) = ReadResult.failed e (f a)

abbrev read_end : End → World → ℕ → ReadResult World
read_end client w n = map_read (λ s. record w { client_says = s }) (buffer.read w.client_says n)
read_end (server _) w n = map_read (λ s. record w { server_says = s }) (buffer.read w.server_says n)

pub read_end-IsRead : (e : End) (w : World) (n : ℕ) → IsRead n (read_end e w n)
read_end-IsRead client w n = buffer.within w.client_says n
read_end-IsRead (server _) w n = buffer.within w.server_says n

abbrev write_end : End → World → List ℕ → WriteResult World
write_end client w buf = wrote (length buf) (record w { client_got = w.client_got ++ buf })
write_end (server _) w buf = wrote (length buf) (record w { server_got = w.server_got ++ buf })

take_whole : (xs ys : List ℕ) → xs ++ ys ≡ xs ++ take (length ys) ys
take_whole xs ys = ap (λ t. xs ++ t) (sym (take_all (length ys) ys (omega arith)))

abbrev got_by : End → World → List ℕ
got_by client w = w.client_got
got_by (server _) w = w.server_got

pub write_end-IsWritten :
    (e : End) (w : World) (buf : List ℕ) → IsWritten (got_by e) (got_by e w) buf (write_end e w buf)
write_end-IsWritten client w buf = (omega arith, inl refl, take_whole w.client_got buf)
write_end-IsWritten (server _) w buf = (omega arith, inl refl, take_whole w.server_got buf)

-- The dialer gives the connection number 6 of the network.
abbrev pub network : Network
network = record {
  World = World;
  read = read_end;
  within = read_end-IsRead;
  write = write_end;
  received = got_by;
  written = write_end-IsWritten;
  clock = λ w i. 3700 + i;
  dial = λ w. some 6;
  hook = none;
}

abbrev pub reply_frame : List ℕ
reply_frame = le32 (16 + length reply_text) ++ (le32 8 ++ (le32 7 ++ (le32 1 ++ reply_text)))

abbrev query_bytes : Bytes
query_bytes = (query_frame, all_bytes-IsByte query_frame refl)

abbrev pub at_start : World
at_start = record {
  client_says = query_bytes;
  client_got = [];
  server_says = (reply_frame, all_bytes-IsByte reply_frame refl);
  server_got = [];
}

do_loop_temp-IsOpen_example :
    Keeps
      (λ t. (t.held ≡ none) × IsValid t.pool × ((j : ℕ) → IsOpen t.pool j ↔ IsOpen busy_pool j))
      (do_loop_temp network marshal none 2 1 none busy_pool at_start)
do_loop_temp-IsOpen_example =
    do_loop_temp-IsOpen network marshal none 2 1 busy_pool at_start
      (Reachable-IsValid busy_pool busy_pool-Reachable)
