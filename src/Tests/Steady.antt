-- ===== src/Tests/Steady.antt =====
-- connchecker.go and sock.go: a message on a connection that times out in the middle of it.
use mongonet.Base.{
  All-take, ℕ, zero, suc, ◌≤◌, ◌<◌, ◌≡◌, ◌⊎◌, inl, inr, refl, sym, List, [], ◌∷◌, ◌++◌, false, true,
  Option, none, some, All, All-drop, arith, length, take, drop, length-take, take-append-drop, ok,
}
use mongonet.Base.Errors.{◌>>=◌}
use mongonet.Bytes.Read.{IsByte}
use mongonet.Serialize.Layout.{sized, frame}
use mongonet.Socket.{parse_body, read_message}
use mongonet.Checked.{ConnError, timeout, Conn, Checker, is_timeout, prepare}
use mongonet.Checked.Reading.{IsStream, IsPatient}
use mongonet.Checked.Connection.{checked_reader}
use mongonet.Checked.Timeouts.{IsSteady, read_message-checked_frame}
use mongonet.Tests.Connections.{Bytes}
use mongonet.Tests.Checks.{some-none}
use mongonet.Tests.Data.{all_bytes-IsByte, some_header, some_header-IsHeader, query_text}
use mongonet.Tests.Late.{as_io}

-- What was given, what is still to come, and the timeouts that are left.
abbrev Line : Type 0
Line = (given : List ℕ) × (pending : Bytes) × ℕ

-- A read for at most `n` bytes that gives at most `m` of them.
abbrev give : List ℕ → Bytes → ℕ → Option ConnError → ℕ → List ℕ × (Option ConnError × Line)
give given (s, h) m error left =
    (take m s, (error, (given ++ take m s, (drop m s, All-drop IsByte m s h), left)))

abbrev at_most_one : ℕ → ℕ
at_most_one zero = zero
at_most_one (suc n) = 1

-- With a timeout left, one byte comes and the connection times out; then as many come as are asked for.
abbrev read_line : Line → ℕ → List ℕ × (Option ConnError × Line)
read_line (given, pending, suc left) n = give given pending (at_most_one n) (some timeout) left
read_line (given, pending, zero) n = give given pending n none zero

abbrev line : Conn
line = record {
  State = Line;
  is_tls = false;
  read = read_line;
  write = λ s buf. (length buf, (none, s));
  set_read_deadline = λ s n. (none, s);
  set_write_deadline = λ s n. (none, s);
}

-- A checker that is content, every 5 seconds.
abbrev content : Checker Line
content = record { check_connection = λ s. (none, s); check_connection_interval = λ s. (5, s) }

at_most_one-within : (n : ℕ) → at_most_one n ≤ n
at_most_one-within zero = omega arith
at_most_one-within (suc n) = omega arith

read_line-within : (s : Line) (n : ℕ) → length ((read_line s n).0) ≤ n
read_line-within (g, p, zero) n = omega (arith, length-take n p.0)
read_line-within (g, p, suc left) n =
    omega (arith, length-take (at_most_one n) p.0, at_most_one-within n)

read_line-IsByte : (s : Line) (n : ℕ) → All IsByte ((read_line s n).0)
read_line-IsByte (g, p, zero) n = All-take IsByte n p.0 p.1
read_line-IsByte (g, p, suc left) n = All-take IsByte (at_most_one n) p.0 p.1

read_line-reads : (s : Line) (n : ℕ) → (read_line s n).1.1.0 ≡ s.0 ++ (read_line s n).0
read_line-reads (g, p, zero) n = refl
read_line-reads (g, p, suc left) n = refl

line-IsStream : IsStream line content
unfolding prepare
line-IsStream = record {
  given = λ s. s.0;
  within = read_line-within;
  bytes = read_line-IsByte;
  reads = read_line-reads;
  quiet = λ s. refl;
}

read_line-fewer :
    (s : Line) (n : ℕ) → is_timeout (read_line s n).1.0 ≡ true → (read_line s n).1.1.2 < s.2
read_line-fewer (g, p, zero) n h = absurd cc
read_line-fewer (g, p, suc left) n h = omega arith

line-IsPatient : IsPatient line content
unfolding prepare
line-IsPatient = record { timeouts = λ s. s.2; fewer = read_line-fewer }

read_line-gives : (s : Line) (n : ℕ) → s.1.0 ≡ (read_line s n).0 ++ (read_line s n).1.1.1.0
read_line-gives (g, p, zero) n = sym (take-append-drop n p.0)
read_line-gives (g, p, suc left) n = sym (take-append-drop (at_most_one n) p.0)

read_line-calm :
    (s : Line) (n : ℕ) → ((read_line s n).1.0 ≡ none) ⊎ (is_timeout (read_line s n).1.0 ≡ true)
read_line-calm (g, p, zero) n = inl refl
read_line-calm (g, p, suc left) n = inr refl

read_line-some_bytes :
    (s : Line) (n : ℕ)
    → (read_line s n).1.0 ≡ none
    → 0 < n
    → 0 < length s.1.0
    → 0 < length (read_line s n).0
read_line-some_bytes (g, p, zero) n e a b = omega (arith, length-take n p.0)
read_line-some_bytes (g, p, suc left) n e a b = absurd (some-none timeout e)

read_line-in_one :
    (s : Line) (n : ℕ)
    → (read_line s n).1.0 ≡ none
    → n ≤ 4
    → n ≤ length s.1.0
    → length (read_line s n).0 ≡ n
read_line-in_one (g, p, zero) n e a b = omega (arith, length-take n p.0)
read_line-in_one (g, p, suc left) n e a b = absurd (some-none timeout e)

line-IsSteady : IsSteady line content
unfolding prepare
line-IsSteady = record {
  plain = refl;
  pending = λ s. s.1.0;
  agreed = λ s. refl;
  waits = λ s. refl;
  gives = read_line-gives;
  calm = read_line-calm;
  some_bytes = read_line-some_bytes;
  in_one = read_line-in_one;
}

-- A frame, a byte of the next one, and three timeouts on the way.
abbrev on_the_line : Line
on_the_line =
    let text = frame some_header query_text ++ (7 ∷ []) in
    ([], (text, all_bytes-IsByte text refl), 3)

read_message-checked_frame_example :
    (s2 : Line) × (line-IsSteady.pending s2 ≡ 7 ∷ [])
    × (read_message (checked_reader line content as_io line-IsStream line-IsPatient) on_the_line
        ≡ (parse_body (sized some_header query_text) query_text >>= λ m. ok (m, s2)))
unfolding line-IsSteady
read_message-checked_frame_example =
    read_message-checked_frame line content line-IsStream line-IsPatient line-IsSteady as_io
      some_header query_text (7 ∷ []) on_the_line some_header-IsHeader (omega arith) refl
