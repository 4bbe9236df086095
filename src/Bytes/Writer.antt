-- ===== src/Bytes/Writer.antt =====
-- Code that fills a buffer: the writers of wireutil.go, and what each leaves in the buffer.
use mongonet.Base.{
  ℕ, zero, suc, ◌+◌, ◌-◌, ◌^◌, List, [], ◌∷◌, ◌++◌, leb, if◌then◌else◌, length, take, drop,
  replicate, Outcome, ok, err, panic, hang,
}
use mongonet.Word.{byte_of, sar32, sar64}

-- A run over the buffer `buf`, which the Go code holds by reference: it changes bytes in place
-- and never the length.
abbrev pub Writer : Type 0 → Type 0
Writer A = List ℕ → Outcome (A × List ℕ)

infixl 5 ◌>>=◌ ◌>>◌
abbrev pub ◌>>=◌ : {A B : Type 0} → Writer A → (A → Writer B) → Writer B
◌>>=◌ m f buf = elim (m buf) [
  | ok (a, buf') ↦ f a buf'
  | err e ↦ err e
  | panic ↦ panic
  | hang ↦ hang
]

abbrev pub ◌>>◌ : {B : Type 0} → Writer (Unit {0}) → Writer B → Writer B
m >> k = m >>= λ _. k

-- The value of a run that changes nothing.
abbrev pub done : {A : Type 0} → A → Writer A
done a buf = ok (a, buf)

-- `buf[loc] = v`
set_byte : List ℕ → ℕ → ℕ → Outcome (List ℕ)
set_byte [] loc v = panic
set_byte (b ∷ bs) zero v = ok (v ∷ bs)
set_byte (b ∷ bs) (suc loc) v = elim (set_byte bs loc v) [
  | ok bs' ↦ ok (b ∷ bs')
  | err e ↦ err e
  | panic ↦ panic
  | hang ↦ hang
]

unfoldable pub write_byte : ℕ → ℕ → Writer (Unit {0})
unfolding set_byte
write_byte v loc buf = elim (set_byte buf loc v) [
  | ok buf' ↦ ok (tt, buf')
  | err e ↦ err e
  | panic ↦ panic
  | hang ↦ hang
]

-- `copy(buf[loc:], src)`: as much of `src` as fits.
unfoldable pub copy_at : List ℕ → ℕ → Writer (Unit {0})
copy_at src loc buf =
    let room = length buf - loc in
    let filled = take loc buf ++ (take room src ++ drop (loc + length (take room src)) buf) in
    if leb loc (length buf) then ok (tt, filled) else panic

unfoldable pub write_int32 : ℕ → ℕ → Writer (Unit {0})
write_int32 i loc = do
  write_byte (byte_of i) loc
  write_byte (byte_of (sar32 i 8)) (loc + 1)
  write_byte (byte_of (sar32 i 16)) (loc + 2)
  write_byte (byte_of (sar32 i 24)) (loc + 3)

unfoldable pub write_int64 : ℕ → ℕ → Writer (Unit {0})
write_int64 i loc = do
  write_byte (byte_of i) loc
  write_byte (byte_of (sar64 i 8)) (loc + 1)
  write_byte (byte_of (sar64 i 16)) (loc + 2)
  write_byte (byte_of (sar64 i 24)) (loc + 3)
  write_byte (byte_of (sar64 i 32)) (loc + 4)
  write_byte (byte_of (sar64 i 40)) (loc + 5)
  write_byte (byte_of (sar64 i 48)) (loc + 6)
  write_byte (byte_of (sar64 i 56)) (loc + 7)

-- The result is the new `*loc`.
unfoldable pub write_cstring : List ℕ → ℕ → Writer ℕ
write_cstring s loc = do copy_at s loc; write_byte 0 (loc + length s); done (loc + length s + 1)

-- `buf := make([]byte, size)`, a run over it, `return buf`.
unfoldable pub fill : {A : Type 0} → ℕ → Writer A → Outcome (List ℕ)
fill size w = if leb (2 ^ 63) size then panic else elim (w (replicate size 0)) [
  | ok (_, buf) ↦ ok buf
  | err e ↦ err e
  | panic ↦ panic
  | hang ↦ hang
]
