-- ===== src/Socket/Read.antt =====
-- sock.go: `ReadMessage` on any connection.
use mongonet.Base.{
  ℕ, zero, suc, ◌+◌, ◌-◌, ◌*◌, ◌^◌, ◌≤◌, ◌<◌, ◌≡◌, ◌↔◌, ◌⊎◌, refl, List, [], ◌∷◌, ◌++◌, false, leb,
  leb→le, ◌==◌, ==_iff, All, All-append, length, length-append, replicate, length-replicate, arith,
  Outcome, ok,
}
use mongonet.Base.Errors.{Ensures, Ensures-bind, Ensures-guard, Ensures-if}
use mongonet.Word.{slt32, sub32}
use mongonet.Bytes.Layout.{le32}
use mongonet.Bytes.Read.{IsByte}
use mongonet.Wire.{MessageHeader, Message}
use mongonet.Serialize.Layout.{IsHeader}
use mongonet.Parse.Rules.{At-start, At-next, At-length, At-IsByte, rule_int32, At-int32, rule_slice}
use mongonet.Socket.Body.{parse_body-Gives}
use mongonet.Socket.ReadResult.{got, failed}
use mongonet.Socket.{
  Reader, ReadResult, IsRead, check_size, parse_body, parse_rest, after_read, take_size, read_rest,
  read_message,
}

-- The sizes (int32 bit patterns) that pass the tests of `ReadMessage` are those from 4 bytes to 200 MB,
-- and the four smallest negative ones, where taking 4 away wraps around to a large positive number.
pub check_size_iff :
    (size : ℕ)
    → size < 2 ^ 32
    → (check_size size ≡ ok tt)
      ↔ (((4 ≤ size) × (size ≤ 200 * 1024 * 1024)) ⊎ ((2 ^ 31 ≤ size) × (size < 2 ^ 31 + 4)))
unfolding check_size slt32
check_size_iff size h = ground arith

-- What `restBuf` holds: the bytes that were asked for.
IsRest : {S : Type 0} → ℕ → List ℕ × S → Type 0
IsRest want r = (length r.0 ≡ want) × All IsByte r.0

zeros-IsByte : (n : ℕ) → All IsByte (replicate n 0)
zeros-IsByte zero = tt
zeros-IsByte (suc n) = (omega arith, zeros-IsByte n)

after_read-Ensures :
    {S : Type 0} (next : List ℕ → S → Outcome (List ℕ × S)) (want fuel : ℕ) (bytes : List ℕ)
    (x : ReadResult S)
    → ((bs : List ℕ) (s : S)
        → length bs ≤ want
        → want - length bs < fuel
        → All IsByte bs
        → Ensures (IsRest want) (next bs s))
    → length bytes ≤ want
    → want - length bytes ≤ fuel
    → All IsByte bytes
    → IsRead (want - length bytes) x
    → Ensures (IsRest want) (after_read next bytes (want - length bytes) x)
unfolding after_read IsRest
after_read-Ensures next want fuel bytes (failed e s) k l f h g = tt
after_read-Ensures next want fuel bytes (got [] s) k l f h g = (
  omega (
    arith,
    length-append bytes (replicate (want - length bytes) 0),
    length-replicate {A = ℕ} (want - length bytes) 0,
  ),
  All-append IsByte bytes _ h (zeros-IsByte (want - length bytes)),
)
after_read-Ensures next want fuel bytes (got (b ∷ bs) s) k l f h (short, g) =
    let n = length-append bytes (b ∷ bs) in
    k (bytes ++ (b ∷ bs)) s (omega (arith, n)) (omega (arith, n))
      (All-append IsByte bytes (b ∷ bs) h g)

unread : (n want : ℕ) → n ≤ want → want < 2 ^ 31 → slt32 n want ≡ false → n ≡ want
unfolding slt32
unread n want l w h = ground arith

module _ (r : Reader) where
  open r use {Source, read}

  read_rest-Ensures :
      (fuel want : ℕ) (bytes : List ℕ) (s : Source)
      → want < 2 ^ 31
      → length bytes ≤ want
      → want - length bytes < fuel
      → All IsByte bytes
      → Ensures (IsRest want) (read_rest r fuel want bytes s)
  unfolding read_rest IsRest
  read_rest-Ensures zero want bytes s w l f h = absurd (omega arith)
  read_rest-Ensures (suc fuel) want bytes s w l f h =
      let missing = want - length bytes in
      Ensures-if (IsRest want) (slt32 (length bytes) want) _ _
        (λ e.
          after_read-Ensures _ want fuel bytes (read s missing)
            (λ bs s' l' f' h'. read_rest-Ensures fuel want bs s' w l' f' h') l (omega arith) h
            (r.within s missing))
        (λ e. (unread (length bytes) want l w e, h))

take_size-Ensures :
    {S : Type 0} (x : ReadResult S) → IsRead 4 x → Ensures (λ r. r.0 < 2 ^ 32) (take_size x)
unfolding take_size
take_size-Ensures (failed e s) g = tt
take_size-Ensures (got bs s) (l, g) =
    Ensures-guard (λ r. r.0 < 2 ^ 32) (length bs == 4) _ _
      λ e.
        let four : length bs ≡ 4 = (==_iff _ _).0 e in
        rule_int32 (λ r. r.0 < 2 ^ 32) bs _ g (omega arith) λ size t hs e'. hs

check_size-Ensures :
    (size : ℕ) → size < 2 ^ 32 → Ensures (λ _. sub32 size 4 < 2 ^ 31) (check_size size)
unfolding check_size slt32
check_size-Ensures size h = ground arith

-- `parse` gives what a header of int32s and the bytes behind it parse to.
module _ (P : Message → Type 0)
    (parsed : (h : MessageHeader) (body : List ℕ)
      → IsHeader h
      → All IsByte body
      → h.size < 2 ^ 32
      → 12 + length body ≡ sub32 h.size 4
      → sub32 h.size 4 < 2 ^ 31
      → Ensures P (parse_body h body)) where
  parse_rest-Gives :
      (size : ℕ) (rest : List ℕ)
      → size < 2 ^ 32
      → All IsByte rest
      → length rest ≡ sub32 size 4
      → sub32 size 4 < 2 ^ 31
      → Ensures P (parse_rest size rest)
  unfolding parse_rest
  parse_rest-Gives size rest hs bytes whole short =
      Ensures-guard P (leb 12 (length rest)) _ _ λ min.
        let enough : 12 ≤ length rest = leb→le _ _ min in
        rule_int32 P rest _ bytes (omega arith) λ request t hr e.
          let at = At-next (le32 request) t (At-start rest) e in
          At-int32 P 4 at refl _ bytes (omega (arith, At-length at)) λ response u hp at1.
            At-int32 P 8 at1 refl _ bytes (omega (arith, At-length at1)) λ code body hc at2.
              rule_slice P rest _ body 12 _ at2 refl (
                parsed _ body (record { request = hr; response = hp; code = hc })
                  (At-IsByte at2 bytes) hs (omega (arith, At-length at2)) short)

  -- A message that `ReadMessage` gives was parsed from such a header and such bytes.
  pub read_message-Gives : (r : Reader) (s : r.Source) → Ensures (λ x. P x.0) (read_message r s)
  unfolding read_message IsRest
  read_message-Gives r s =
      let Q : Message × r.Source → Type 0 = λ x. P x.0 in
      Ensures-bind (λ x. x.0 < 2 ^ 32) Q (take_size (r.read s 4)) _
        (take_size-Ensures _ (r.within s 4))
        λ x hx.
          let size = x.0 in
          let want = sub32 size 4 in
          Ensures-bind (λ _. want < 2 ^ 31) Q (check_size size) _ (check_size-Ensures size hx)
            λ _ hw.
              Ensures-bind (IsRest want) Q (read_rest r (suc want) want [] x.1) _
                (read_rest-Ensures r (suc want) want [] x.1 hw (omega arith) (omega arith) tt)
                λ y hy.
                  Ensures-bind P Q (parse_rest size y.0) _
                    (parse_rest-Gives size y.0 hx hy.1 hy.0 hw) λ m p. p

-- On every connection, whatever bytes it gives and however it cuts them up, `ReadMessage` ends in
-- a message or in an error: it does not panic, and its loops end.
pub read_message-Ensures : (r : Reader) (s : r.Source) → Ensures (λ _. Unit {0}) (read_message r s)
read_message-Ensures r s =
    read_message-Gives (λ _. Unit {0})
      (λ h body v bytes small size w.
        parse_body-Gives h body v bytes (omega arith) (λ _. Unit {0})
          (record {
            reply = λ m e q. tt;
            update = λ m e q. tt;
            insert = λ m e q. tt;
            query = λ m e q. tt;
            get_more = λ m e q. tt;
            delete = λ m e q. tt;
            kill_cursors = λ m e q. tt;
            command = λ m e q. tt;
            command_reply = λ m e q. tt;
            message = λ m e q. tt;
          }))
      r s
