-- ===== src/Bytes.antt =====
-- wireutil.go and the slice operations that the package uses. A byte slice is the list of its
-- bytes; a position in it is a Go int.
pub mod Writer
pub mod Layout
pub mod Read
use Prim.Native.Nat.{bit_or}
use mongonet.Base.{
  ℕ, zero, suc, ◌+◌, ◌*◌, ◌%◌, ◌^◌, ◌<◌, List, [], ◌∷◌, ◌++◌, ◌==◌, ltb, leb, if◌then◌else◌, length,
  take, drop, Outcome, ok, err, panic, Error,
}
use mongonet.Base.Errors.{◌>>=◌, ◌>>◌}
use mongonet.Word.{byte_of, sar32, sar64}

-- `b[n:]` and `b[0:n]`. (The upper bound of the second is the capacity in Go, at least the length;
-- each use stands behind a check against the length.)
unfoldable pub slice_from : List ℕ → ℕ → Outcome (List ℕ)
slice_from b n = if leb n (length b) then ok (drop n b) else panic

unfoldable pub slice_to : List ℕ → ℕ → Outcome (List ℕ)
slice_to b n = if leb n (length b) then ok (take n b) else panic

-- The terms `int32(b[k]) << 8k` do not overlap; the last drops what leaves 32 bits.
unfoldable pub read_int32 : List ℕ → Outcome ℕ
read_int32 (b0 ∷ b1 ∷ b2 ∷ b3 ∷ _) =
    ok (bit_or (bit_or (bit_or b0 (b1 * 2 ^ 8)) (b2 * 2 ^ 16)) (b3 * 2 ^ 24) % 2 ^ 32)
read_int32 _ = panic

unfoldable pub read_int64 : List ℕ → Outcome ℕ
read_int64 (b0 ∷ b1 ∷ b2 ∷ b3 ∷ b4 ∷ b5 ∷ b6 ∷ b7 ∷ _) =
    let low = bit_or (bit_or (bit_or b0 (b1 * 2 ^ 8)) (b2 * 2 ^ 16)) (b3 * 2 ^ 24) in
    let mid = bit_or (bit_or low (b4 * 2 ^ 32)) (b5 * 2 ^ 40) in
    ok (bit_or (bit_or mid (b6 * 2 ^ 48)) (b7 * 2 ^ 56) % 2 ^ 64)
read_int64 _ = panic

-- The loop over `i`; the first list is what it has not reached.
unfoldable pub cstring_loop : List ℕ → List ℕ → ℕ → Outcome (List ℕ)
cstring_loop [] b i = err Error.no_terminator
cstring_loop (c ∷ cs) b i =
    let rest = cstring_loop cs b (suc i) in if c == 0 then slice_to b i else rest

unfoldable pub read_cstring : List ℕ → Outcome (List ℕ)
unfolding cstring_loop
read_cstring b = cstring_loop b b 0
