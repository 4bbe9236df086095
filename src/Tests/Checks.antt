-- ===== src/Tests/Checks.antt =====
-- connchecker.go: connections that time out.
use mongonet.Base.{
  ℕ, zero, suc, ◌≤◌, ◌<◌, ◌≡◌, ◌≢◌, ◌⊎◌, refl, List, [], ◌∷◌, ◌++◌, true, false, Option, none, some,
  length, length-take, take, All, arith,
}
use mongonet.Base.Errors.{Ensures}
use mongonet.Bytes.Read.{IsByte}
use mongonet.Checked.{
  ConnError, timeout, Conn, Checker, is_timeout, prepare, checked_read, checked_write,
}
use mongonet.Checked.Reading.{IsStream, checked_read-Ensures}
use mongonet.Checked.Writing.{IsOutlet, checked_write-Ensures}

-- What was read or written, and the timeouts that are left.
abbrev pub Traffic : Type 0
Traffic = (bytes : List ℕ) × ℕ

-- With a timeout left, one byte of a 7 comes and the connection times out; then all of them come.
abbrev pub some_bytes : ℕ → List ℕ
some_bytes zero = []
some_bytes (suc n) = 7 ∷ []

abbrev pub read_late : Traffic → ℕ → List ℕ × (Option ConnError × Traffic)
read_late (bytes, suc left) n = (some_bytes n, (some timeout, (bytes ++ some_bytes n, left)))
read_late (bytes, zero) n = (some_bytes n, (none, (bytes ++ some_bytes n, zero)))

abbrev pub write_late : Traffic → List ℕ → ℕ × (Option ConnError × Traffic)
write_late (bytes, suc left) buf =
    (length (take 1 buf), (some timeout, (bytes ++ take (length (take 1 buf)) buf, left)))
write_late (bytes, zero) buf = (length buf, (none, (bytes ++ take (length buf) buf, zero)))

abbrev pub late : Conn
late = record {
  State = Traffic;
  is_tls = false;
  read = read_late;
  write = write_late;
  set_read_deadline = λ s n. (none, s);
  set_write_deadline = λ s n. (none, s);
}

-- A checker that is content, every 5 seconds.
abbrev pub content : Checker Traffic
content = record { check_connection = λ s. (none, s); check_connection_interval = λ s. (5, s) }

some_bytes-within : (n : ℕ) → length (some_bytes n) ≤ n
some_bytes-within zero = omega arith
some_bytes-within (suc n) = omega arith

some_bytes-IsByte : (n : ℕ) → All IsByte (some_bytes n)
some_bytes-IsByte zero = tt
some_bytes-IsByte (suc n) = (omega arith, tt)

read_late-within : (s : Traffic) (n : ℕ) → length ((read_late s n).0) ≤ n
read_late-within (bytes, zero) n = some_bytes-within n
read_late-within (bytes, suc left) n = some_bytes-within n

read_late-IsByte : (s : Traffic) (n : ℕ) → All IsByte ((read_late s n).0)
read_late-IsByte (bytes, zero) n = some_bytes-IsByte n
read_late-IsByte (bytes, suc left) n = some_bytes-IsByte n

read_late-reads : (s : Traffic) (n : ℕ) → (read_late s n).1.1.0 ≡ s.0 ++ (read_late s n).0
read_late-reads (bytes, zero) n = refl
read_late-reads (bytes, suc left) n = refl

pub late-IsStream : IsStream late content
unfolding prepare
late-IsStream = record {
  given = λ s. s.0;
  within = read_late-within;
  bytes = read_late-IsByte;
  reads = read_late-reads;
  quiet = λ s. refl;
}

read_late-fewer :
    (s : Traffic) (n : ℕ) → is_timeout (read_late s n).1.0 ≡ true → (read_late s n).1.1.1 < s.1
read_late-fewer (bytes, zero) n h = absurd cc
read_late-fewer (bytes, suc left) n h = omega arith

pub read_late-IsPatient : mongonet.Checked.Reading.IsPatient late content
unfolding prepare
read_late-IsPatient = record { timeouts = λ s. s.1; fewer = read_late-fewer }

checked_read-Ensures_example :
    Ensures
      (λ r. (length r.0 ≤ 10) × (All IsByte r.0) × (r.1.1.0 ≡ [] ++ r.0))
      (checked_read late content 4 10 [] ([], 3))
unfolding read_late-IsPatient late-IsStream
checked_read-Ensures_example =
    checked_read-Ensures late content late-IsStream read_late-IsPatient 4 10 ([], 3) (omega arith)

write_late-within : (s : Traffic) (buf : List ℕ) → (write_late s buf).0 ≤ length buf
write_late-within (bytes, zero) buf = omega arith
write_late-within (bytes, suc left) buf = omega (arith, length-take 1 buf)

write_late-writes :
    (s : Traffic) (buf : List ℕ) → (write_late s buf).1.1.0 ≡ s.0 ++ take ((write_late s buf).0) buf
write_late-writes (bytes, zero) buf = refl
write_late-writes (bytes, suc left) buf = refl

pub some-none : (e : ConnError) → ◌≢◌ {A = Option ConnError} (some e) none
some-none e z = cc

write_late-whole :
    (s : Traffic) (buf : List ℕ) → (write_late s buf).1.0 ≡ none → (write_late s buf).0 ≡ length buf
write_late-whole (bytes, zero) buf h = refl
write_late-whole (bytes, suc left) buf h = absurd (some-none timeout h)

pub late-IsOutlet : IsOutlet late content
unfolding prepare
late-IsOutlet = record {
  taken = λ s. s.0;
  within = write_late-within;
  writes = write_late-writes;
  whole = write_late-whole;
  quiet = λ s. refl;
}

write_late-fewer :
    (s : Traffic) (buf : List ℕ)
    → is_timeout (write_late s buf).1.0 ≡ true
    → (write_late s buf).1.1.1 < s.1
write_late-fewer (bytes, zero) buf h = absurd cc
write_late-fewer (bytes, suc left) buf h = omega arith

pub write_late-IsPatient : mongonet.Checked.Writing.IsPatient late content
unfolding prepare
write_late-IsPatient = record { timeouts = λ s. s.1; fewer = write_late-fewer }

checked_write-Ensures_example :
    Ensures
      (λ r. (r.0 ≤ 3) × (r.1.1.0 ≡ [] ++ take r.0 (1 ∷ 2 ∷ 3 ∷ [])) × ((r.1.0 ≢ none) ⊎ (r.0 ≡ 3)))
      (checked_write late content 3 (1 ∷ 2 ∷ 3 ∷ []) 0 ([], 2))
unfolding write_late-IsPatient late-IsOutlet
checked_write-Ensures_example =
    checked_write-Ensures late content late-IsOutlet write_late-IsPatient 3 (1 ∷ 2 ∷ 3 ∷ []) ([], 2)
      (omega arith)
