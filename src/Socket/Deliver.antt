-- ===== src/Socket/Deliver.antt =====
-- sock.go: `ReadMessage` on a connection that delivers a whole message, in pieces of any size.
use mongonet.Base.{
  ℕ, zero, suc, ◌+◌, ◌-◌, ◌^◌, ◌*◌, ◌≤◌, ◌<◌, ◌≡◌, refl, sym, ap, ◌∙◌, List, [], ◌∷◌, ◌++◌,
  append_assoc, append-nil, true, false, arith, length, length-append, take, drop, ◌%◌, ok,
}
use mongonet.Base.Errors.{◌>>=◌}
use mongonet.Word.{slt32, sub32}
use mongonet.Bytes.Layout.{le32}
use mongonet.Bytes.Read.{read_int32-le32}
use mongonet.Wire.{MessageHeader}
use mongonet.Serialize.Layout.{IsHeader, sized, frame}
use mongonet.Parse.Rules.{At-start, At-next}
use mongonet.RoundTrip.{step, step_guard, step_slice}
use mongonet.Socket.ReadResult.{got}
use mongonet.Socket.{
  Reader, check_size, after_read, take_size, read_rest, parse_body, parse_rest, read_message,
}

module _ (r : Reader) where
  open r use {Source, read}

  -- Reads for `missing` bytes, each of what is still missing, give these bytes and no more.
  pub data Delivers : ℕ → Source → List ℕ → Source → Type 0 where
    all : (s : Source) → Delivers 0 s [] s
    piece :
        (missing b : ℕ) (bs rest : List ℕ) (s s1 s2 : Source)
        → read s missing ≡ got (b ∷ bs) s1
        → length (b ∷ bs) ≤ missing
        → Delivers (missing - length (b ∷ bs)) s1 rest s2
        → Delivers missing s ((b ∷ bs) ++ rest) s2

  slt32_lt : (a b : ℕ) → a < b → b < 2 ^ 31 → slt32 a b ≡ true
  unfolding slt32
  slt32_lt a b l h = ground arith

  slt32_same : (a : ℕ) → slt32 a a ≡ false
  unfolding slt32
  slt32_same a = ground arith

  read_rest-Delivers :
      (fuel want missing : ℕ) (acc bs : List ℕ) (s s' : Source)
      → Delivers missing s bs s'
      → missing + length acc ≡ want
      → want < 2 ^ 31
      → missing < fuel
      → read_rest r fuel want acc s ≡ ok (acc ++ bs, s')
  unfolding read_rest after_read
  read_rest-Delivers zero want missing acc bs s s' d e w f = absurd (omega arith)
  read_rest-Delivers (suc fuel) want missing acc bs s s' (all s0) e w f =
      let same : length acc ≡ want = omega arith in rw (same, slt32_same want, append-nil) refl
  read_rest-Delivers (suc fuel) want missing acc bs s s' (piece m b bs' rest s0 s1 s2 g l d) e w f =
      let gap : want - length acc ≡ missing = omega arith in
      rw (slt32_lt (length acc) want (omega arith) w, gap, g)
        (read_rest-Delivers fuel want (missing - length (b ∷ bs')) (acc ++ (b ∷ bs')) rest s1 s' d
            (omega (arith, length-append acc (b ∷ bs'))) w (omega arith)
          ∙ ap (λ t. ok (t, s')) (append_assoc acc (b ∷ bs') rest))

  parse_rest-frame :
      (h : MessageHeader) (size : ℕ) (body : List ℕ)
      → IsHeader h
      → parse_rest size (drop 4 (frame h body)) ≡ parse_body (record h { size = size }) body
  unfolding parse_rest
  parse_rest-frame h size body v =
      let buf = drop 4 (frame h body) in
      let at =
        At-next (le32 h.request_id) (le32 h.response_to ++ (le32 h.op_code ++ body)) (At-start buf)
          refl in
      let at1 = At-next (le32 h.response_to) (le32 h.op_code ++ body) at refl in
      let at2 = At-next (le32 h.op_code) body at1 refl in
      step_guard _ _ _ (ground arith)
      ∙ step _ _ _ (read_int32-le32 h.request_id _ v.request)
      ∙ step_slice _ buf _ _ 4 at refl
      ∙ step _ _ _ (read_int32-le32 h.response_to _ v.response)
      ∙ step_slice _ buf _ _ 8 at1 refl
      ∙ step _ _ _ (read_int32-le32 h.op_code _ v.code)
      ∙ step_slice _ buf _ _ 12 at2 refl

  take_size-frame :
      (size : ℕ) (s : Source) → size < 2 ^ 32 → take_size (got (le32 size) s) ≡ ok (size, s)
  unfolding take_size
  take_size-frame size s h = ap (λ m. m >>= λ n. ok (n, s)) (read_int32-le32 size [] h)

  check_size-small : (size : ℕ) → 16 ≤ size → size ≤ 200 * 1024 * 1024 → check_size size ≡ ok tt
  unfolding check_size slt32
  check_size-small size l u = ground arith

  -- On a connection whose first read of four bytes gives those of a frame (a header of int32s and a body,
  -- of at most 200 MB together), and whose further reads give the rest of the frame in pieces of any
  -- size, `ReadMessage` parses exactly that body behind that header with the whole length in it, and
  -- leaves the connection behind the frame.
  pub read_message-frame :
      (h : MessageHeader) (body : List ℕ) (s s1 s2 : Source)
      → IsHeader h
      → 16 + length body ≤ 200 * 1024 * 1024
      → read s 4 ≡ got (take 4 (frame h body)) s1
      → Delivers (12 + length body) s1 (drop 4 (frame h body)) s2
      → read_message r s ≡ (parse_body (sized h body) body >>= λ m. ok (m, s2))
  unfolding read_message
  read_message-frame h body s s1 s2 v u g d =
      let n = 16 + length body in
      let small : n % 2 ^ 32 ≡ n = omega arith in
      let size : read s 4 ≡ got (le32 n) s1 = g ∙ ap (λ x. got (le32 x) s1) small in
      let want : sub32 n 4 ≡ 12 + length body = omega arith in
      step _ _ (n, s1) (ap take_size size ∙ take_size-frame n s1 (omega arith))
      ∙ step _ _ tt (check_size-small n (omega arith) u)
      ∙ step (read_rest r (suc (sub32 n 4)) (sub32 n 4) [] s1)
          (λ x. parse_rest n x.0 >>= λ m. ok (m, x.1)) (drop 4 (frame h body), s2)
          (rw want (
            read_rest-Delivers (suc (12 + length body)) (12 + length body) (12 + length body) [] _
              s1 s2 d (omega arith) (omega arith) (omega arith)))
      ∙ ap (λ m. m >>= λ x. ok (x, s2))
          (parse_rest-frame h n body v
            ∙ ap (λ z. parse_body (record h { size = z }) body) (sym small))
