-- ===== src/Tests/Endings.antt =====
-- proxy.go: sessions that come to an end.
use mongonet.Base.{
  All-take, ℕ, zero, suc, ◌+◌, ◌*◌, ◌≤◌, ◌<◌, ◌≡◌, ◌↔◌, inl, inr, refl, sym, ap, subst, ◌∙◌, List,
  [], ◌++◌, false, ◌==◌, if◌then◌else◌, none, some, arith, length, take, drop, length-take, All,
  All-drop, take_all, Bool-cases, ==_iff, Outcome, ok, err, Error, IoError,
}
use mongonet.Base.Errors.{Ensures}
use mongonet.Word.{int_of, slt64, slt32}
use mongonet.Bytes.{slice_from, slice_to, read_int32, read_int64, cstring_loop, read_cstring}
use mongonet.Bytes.Read.{IsByte}
use mongonet.Bson.{parse_sized_bson, parse_simple_bson, docs_from}
use mongonet.Wire.{Message, header, op_reply}
use mongonet.Parse.{parse_project, parse_query, parse_reply}
use mongonet.Socket.ReadResult.{got}
use mongonet.Socket.WriteResult.{wrote}
use mongonet.Socket.{
  ReadResult, WriteResult, IsRead, IsWritten, check_size, parse_body, parse_rest, after_read,
  take_size, read_rest, read_message,
}
use mongonet.Pool.Lending.{IsValid}
use mongonet.Pool.Opening.{IsOpen}
use mongonet.Pool.Reach.{Reachable-IsValid}
use mongonet.Relay.Passing.{IsSafe}
use mongonet.Proxy.{End, client, server, Network, reader, in_exhaust_mode, do_loop_temp}
use mongonet.Proxy.Ending.{IsCalm, do_loop_temp-Ensures}
use mongonet.Tests.Answers.{marshal}
use mongonet.Tests.Connections.{query_frame}
use mongonet.Tests.Data.{all_bytes-IsByte}
use mongonet.Tests.Pools.{busy_pool, busy_pool-Reachable}
use mongonet.Tests.Sessions.{reply_frame}
use mongonet.Tests.Turns.{query, reply, reply-sent}

-- How many queries the client still sends, and what client and server have been sent.
abbrev pub World : Type 0
World = (left : ℕ) × (List ℕ × List ℕ)

-- The first four bytes of a frame, or what follows.
abbrev pub part : List ℕ → ℕ → List ℕ
part frame n = if n == 4 then take 4 frame else take n (drop 4 frame)

-- The client's queries end; the server has an answer at any time.
abbrev pub read_end : End → World → ℕ → ReadResult World
read_end client (zero, g) n = ReadResult.failed IoError.eof (zero, g)
read_end client (suc k, g) n = got (part query_frame n) (if n == 4 then (suc k, g) else (k, g))
read_end (server _) w n = got (part reply_frame n) w

part-IsRead :
    (frame : List ℕ) (n : ℕ)
    → All IsByte frame
    → (length (part frame n) ≤ n) × All IsByte (part frame n)
part-IsRead frame n h = elim (Bool-cases (n == 4)) [
  | inl e ↦
      let four : n ≡ 4 = (==_iff n 4).0 e in
      rw e (omega (arith, length-take 4 frame), All-take IsByte 4 frame h)
  | inr e ↦ rw e (
    omega (arith, length-take n (drop 4 frame)),
    All-take IsByte n (drop 4 frame) (All-drop IsByte 4 frame h),
  )
]

pub read_end-IsRead : (e : End) (w : World) (n : ℕ) → IsRead n (read_end e w n)
read_end-IsRead client (zero, g) n = tt
read_end-IsRead client (suc k, g) n = part-IsRead query_frame n (all_bytes-IsByte query_frame refl)
read_end-IsRead (server _) w n = part-IsRead reply_frame n (all_bytes-IsByte reply_frame refl)

abbrev pub write_end : End → World → List ℕ → WriteResult World
write_end client (k, (c, s)) buf = wrote (length buf) (k, (c ++ buf, s))
write_end (server _) (k, (c, s)) buf = wrote (length buf) (k, (c, s ++ buf))

abbrev pub got_by : End → World → List ℕ
got_by client (k, (c, s)) = c
got_by (server _) (k, (c, s)) = s

take_whole : (xs ys : List ℕ) → xs ++ ys ≡ xs ++ take (length ys) ys
take_whole xs ys = ap (λ t. xs ++ t) (sym (take_all (length ys) ys (omega arith)))

pub write_end-IsWritten :
    (e : End) (w : World) (buf : List ℕ) → IsWritten (got_by e) (got_by e w) buf (write_end e w buf)
write_end-IsWritten client (k, (c, s)) buf = (omega arith, inl refl, take_whole c buf)
write_end-IsWritten (server _) (k, (c, s)) buf = (omega arith, inl refl, take_whole s buf)

abbrev pub network : Network
network = record {
  World = World;
  read = read_end;
  within = read_end-IsRead;
  write = write_end;
  received = got_by;
  written = write_end-IsWritten;
  clock = λ w i. 3700 + i;
  dial = λ w. some 6;
  hook = none;
}

no_query :
    (g : List ℕ × List ℕ)
    → read_message (reader network marshal none client) (zero, g) ≡ err (Error.io IoError.eof)
unfolding read_message take_size
no_query g = refl

query-read :
    (k : ℕ) (g : List ℕ × List ℕ)
    → read_message (reader network marshal none client) (suc k, g)
      ≡ ok (Message.query query, (k, g))
unfolding read_message take_size read_int32 check_size read_rest after_read parse_rest parse_body
    parse_query read_cstring cstring_loop slice_from parse_project parse_simple_bson
    parse_sized_bson int_of slt64 slt32 slice_to
query-read k g = refl

reply-read :
    (id : ℕ) (w : World)
    → read_message (reader network marshal none (server id)) w ≡ ok (Message.reply reply, w)
unfolding read_message take_size read_int32 check_size read_rest after_read parse_rest parse_body
    parse_reply read_int64 docs_from slice_from parse_simple_bson parse_sized_bson int_of slt64
    slt32 slice_to
reply-read id w = refl

of_ok :
    {m m' : Message} {w w' : World}
    → ◌≡◌ {A = Outcome (Message × World)} (ok (m, w)) (ok (m', w'))
    → (m ≡ m') × (w ≡ w')
of_ok e = (cc, cc)

-- What a read that gives a message gives.
pub from_client :
    (w : World) (m : Message) (w' : World)
    → read_message (reader network marshal none client) w ≡ ok (m, w')
    → (Message.query query ≡ m) × (w'.0 < w.0)
from_client (zero, g) m w' q = absurd (cc (no_query g))
from_client (suc k, g) m w' q =
    let same = of_ok (sym (query-read k g) ∙ q) in
    let fewer : ◌≡◌ {A = World} (k, g) w' = same.1 in (same.0, omega (arith, ap (λ x. x.0) fewer))

from_server :
    (id : ℕ) (w : World) (m : Message) (w' : World)
    → read_message (reader network marshal none (server id)) w ≡ ok (m, w')
    → (Message.reply reply ≡ m) × (w'.0 ≤ w.0)
from_server id w m w' q =
    let same = of_ok (sym (reply-read id w) ∙ q) in
    let as_much : w ≡ w' = same.1 in (same.0, omega (arith, ap (λ x. x.0) as_much))

reply-IsSafe : IsSafe (Message.reply reply)
reply-IsSafe = record { safe = rw reply-sent tt }

moderate :
    (e : End) (w : World) (m : Message) (w' : World)
    → read_message (reader network marshal none e) w ≡ ok (m, w')
    → (header m).size ≤ 200 * 1024 * 1024
unfolding header
moderate client w m w' q =
    subst (λ x. (header x).size ≤ 200 * 1024 * 1024) (from_client w m w' q).0 (omega arith)
moderate (server id) w m w' q =
    subst (λ x. (header x).size ≤ 200 * 1024 * 1024) (from_server id w m w' q).0 (omega arith)

replies :
    (e : End) (w : World) (m : Message) (w' : World)
    → read_message (reader network marshal none e) w ≡ ok (m, w')
    → (header m).op_code ≡ op_reply
    → IsSafe m
unfolding header
replies client w m w' q e =
    let two : ◌≡◌ {A = ℕ} 2004 1 = ap (λ x. (header x).op_code) (from_client w m w' q).0 ∙ e in
    absurd (omega arith)
replies (server id) w m w' q e = subst IsSafe (from_server id w m w' q).0 reply-IsSafe

no_more_written :
    (e : End) (w : World) (buf : List ℕ) (n : ℕ) (w' : World)
    → write_end e w buf ≡ wrote n w'
    → w'.0 ≤ w.0
no_more_written client (k, (c, s)) buf n w' q =
    let same : (k, (c ++ buf, s)) ≡ w' = cc in omega (arith, ap (λ x. x.0) same)
no_more_written (server _) (k, (c, s)) buf n w' q =
    let same : (k, (c, s ++ buf)) ≡ w' = cc in omega (arith, ap (λ x. x.0) same)

network-IsCalm : IsCalm network marshal
unfolding header
network-IsCalm = record {
  moderate = moderate;
  replies = replies;
  plain = λ w m w' q. subst (λ x. in_exhaust_mode x ≡ ok false) (from_client w m w' q).0 refl;
  requests = λ w. w.0;
  fewer = λ w m w' q. (from_client w m w' q).1;
  no_more_read = λ id w m w' q. (from_server id w m w' q).1;
  no_more_written = no_more_written;
}

do_loop_temp-Ensures_example :
    Ensures
      (λ t. (t.held ≡ none) × IsValid t.pool × ((j : ℕ) → IsOpen t.pool j ↔ IsOpen busy_pool j))
      (do_loop_temp network marshal none 4 1 none busy_pool (3, ([], [])))
unfolding network-IsCalm
do_loop_temp-Ensures_example =
    do_loop_temp-Ensures network marshal network-IsCalm 4 0 busy_pool (3, ([], [])) (omega arith)
      (Reachable-IsValid busy_pool busy_pool-Reachable)
