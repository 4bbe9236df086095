-- ===== src/Bytes/Read.antt =====
-- The readers of wireutil.go on the bytes that the writers make, and on any bytes.
use Prim.Native.Nat.{bit_or}
use mongonet.Base.{
  ℕ, suc, ◌+◌, ◌*◌, ◌/◌, ◌%◌, ◌^◌, ◌≤◌, ◌<◌, ◌≡◌, refl, ap, ◌∙◌, List, [], ◌∷◌, ◌++◌, append_assoc,
  append-nil, All-append, arith, leb, ◌==◌, length, length-append, All, take, drop, take-append,
  drop-append, true, false, inl, inr, Bool-cases, ==_iff, ok,
}
use mongonet.Base.Errors.{Ensures}
use mongonet.Word.Bits.{bit_or_disjoint}
use mongonet.Bytes.{slice_from, slice_to, read_int32, read_int64, cstring_loop, read_cstring}
use mongonet.Bytes.Layout.{le32, le64}

abbrev pub IsByte : ℕ → Type 0
IsByte b = b < 256

-- No byte ends a C string.
abbrev pub NoNul : List ℕ → Type 0
NoNul = All λ c. 0 < c

pub slice_from-append : (x y : List ℕ) (n : ℕ) → n ≡ length x → slice_from (x ++ y) n ≡ ok y
unfolding slice_from
slice_from-append x y n e =
    let fits : leb n (length (x ++ y)) ≡ true = ground (arith, length-append x y) in
    rw (fits, drop-append n x y e)

pub slice_from_le : (b : List ℕ) (n : ℕ) → n ≤ length b → slice_from b n ≡ ok (drop n b)
unfolding slice_from
slice_from_le b n h = let fits : leb n (length b) ≡ true = ground arith in rw fits

pub slice_to_le : (b : List ℕ) (n : ℕ) → n ≤ length b → slice_to b n ≡ ok (take n b)
unfolding slice_to
slice_to_le b n h = let fits : leb n (length b) ≡ true = ground arith in rw fits

-- Four bytes as one number.
or_bytes32 :
    (b0 b1 b2 b3 : ℕ)
    → IsByte b0
    → IsByte b1
    → IsByte b2
    → bit_or (bit_or (bit_or b0 (b1 * 2 ^ 8)) (b2 * 2 ^ 16)) (b3 * 2 ^ 24)
      ≡ b0 + b1 * 2 ^ 8 + b2 * 2 ^ 16 + b3 * 2 ^ 24
or_bytes32 b0 b1 b2 b3 h0 h1 h2 = rw (
  bit_or_disjoint 8 b0 b1 (omega arith),
  bit_or_disjoint 16 (b0 + b1 * 2 ^ 8) b2 (omega arith),
  bit_or_disjoint 24 (b0 + b1 * 2 ^ 8 + b2 * 2 ^ 16) b3 (omega arith),
)

-- `readInt32` reads back the four little-endian bytes of an int32, whatever follows them.
pub read_int32-le32 : (i : ℕ) (rest : List ℕ) → i < 2 ^ 32 → read_int32 (le32 i ++ rest) ≡ ok i
unfolding read_int32
read_int32-le32 i rest h = ap ok (
    ap (λ t. t % 2 ^ 32)
      (or_bytes32 (i % 256) (i / 2 ^ 8 % 256) (i / 2 ^ 16 % 256) (i / 2 ^ 24 % 256) (omega arith)
        (omega arith) (omega arith))
    ∙ omega arith)

or_bytes64 :
    (b0 b1 b2 b3 b4 b5 b6 b7 : ℕ)
    → All IsByte (b0 ∷ b1 ∷ b2 ∷ b3 ∷ b4 ∷ b5 ∷ b6 ∷ [])
    → bit_or
        (bit_or
          (bit_or
            (bit_or
              (bit_or (bit_or (bit_or b0 (b1 * 2 ^ 8)) (b2 * 2 ^ 16)) (b3 * 2 ^ 24))
              (b4 * 2 ^ 32))
            (b5 * 2 ^ 40))
          (b6 * 2 ^ 48))
        (b7 * 2 ^ 56)
      ≡ b0
        + b1 * 2 ^ 8
        + b2 * 2 ^ 16
        + b3 * 2 ^ 24
        + b4 * 2 ^ 32
        + b5 * 2 ^ 40
        + b6 * 2 ^ 48
        + b7 * 2 ^ 56
or_bytes64 b0 b1 b2 b3 b4 b5 b6 b7 h =
    let s3 = b0 + b1 * 2 ^ 8 + b2 * 2 ^ 16 + b3 * 2 ^ 24 in
    let s4 = s3 + b4 * 2 ^ 32 in
    let s5 = s4 + b5 * 2 ^ 40 in
    rw (
      or_bytes32 b0 b1 b2 b3 h.0 h.1.0 h.1.1.0,
      bit_or_disjoint 32 s3 b4 (omega arith),
      bit_or_disjoint 40 s4 b5 (omega arith),
      bit_or_disjoint 48 s5 b6 (omega arith),
      bit_or_disjoint 56 (s5 + b6 * 2 ^ 48) b7 (omega arith),
    )

-- `readInt64` reads back the eight little-endian bytes of an int64, whatever follows them.
pub read_int64-le64 : (i : ℕ) (rest : List ℕ) → i < 2 ^ 64 → read_int64 (le64 i ++ rest) ≡ ok i
unfolding read_int64
read_int64-le64 i rest h = ap ok (
    ap (λ t. t % 2 ^ 64)
      (or_bytes64 (i % 256) (i / 2 ^ 8 % 256) (i / 2 ^ 16 % 256) (i / 2 ^ 24 % 256)
        (i / 2 ^ 32 % 256) (i / 2 ^ 40 % 256) (i / 2 ^ 48 % 256) (i / 2 ^ 56 % 256) (omega arith))
    ∙ omega arith)

-- On four bytes or more the reader gives an int32; on bytes it is the one that they spell.
pub read_int32-Ensures : (b : List ℕ) → 4 ≤ length b → Ensures (λ i. i < 2 ^ 32) (read_int32 b)
unfolding read_int32
read_int32-Ensures [] h = absurd (omega arith)
read_int32-Ensures (b0 ∷ []) h = absurd (omega arith)
read_int32-Ensures (b0 ∷ b1 ∷ []) h = absurd (omega arith)
read_int32-Ensures (b0 ∷ b1 ∷ b2 ∷ []) h = absurd (omega arith)
read_int32-Ensures (b0 ∷ b1 ∷ b2 ∷ b3 ∷ r) h = omega arith

pub read_int64-Ensures : (b : List ℕ) → 8 ≤ length b → Ensures (λ i. i < 2 ^ 64) (read_int64 b)
unfolding read_int64
read_int64-Ensures [] h = absurd (omega arith)
read_int64-Ensures (b0 ∷ []) h = absurd (omega arith)
read_int64-Ensures (b0 ∷ b1 ∷ []) h = absurd (omega arith)
read_int64-Ensures (b0 ∷ b1 ∷ b2 ∷ []) h = absurd (omega arith)
read_int64-Ensures (b0 ∷ b1 ∷ b2 ∷ b3 ∷ []) h = absurd (omega arith)
read_int64-Ensures (b0 ∷ b1 ∷ b2 ∷ b3 ∷ b4 ∷ []) h = absurd (omega arith)
read_int64-Ensures (b0 ∷ b1 ∷ b2 ∷ b3 ∷ b4 ∷ b5 ∷ []) h = absurd (omega arith)
read_int64-Ensures (b0 ∷ b1 ∷ b2 ∷ b3 ∷ b4 ∷ b5 ∷ b6 ∷ []) h = absurd (omega arith)
read_int64-Ensures (b0 ∷ b1 ∷ b2 ∷ b3 ∷ b4 ∷ b5 ∷ b6 ∷ b7 ∷ r) h = omega arith

pub le32-read_int32 :
    (b : List ℕ) (i : ℕ) → All IsByte b → read_int32 b ≡ ok i → le32 i ++ drop 4 b ≡ b
unfolding read_int32
le32-read_int32 (b0 ∷ b1 ∷ b2 ∷ b3 ∷ r) i h e =
    let v = or_bytes32 b0 b1 b2 b3 (omega arith) (omega arith) (omega arith) in ground (arith, v)
le32-read_int32 [] i h e = absurd (cc)
le32-read_int32 (b0 ∷ []) i h e = absurd (cc)
le32-read_int32 (b0 ∷ b1 ∷ []) i h e = absurd (cc)
le32-read_int32 (b0 ∷ b1 ∷ b2 ∷ []) i h e = absurd (cc)

pub le64-read_int64 :
    (b : List ℕ) (i : ℕ) → All IsByte b → read_int64 b ≡ ok i → le64 i ++ drop 8 b ≡ b
unfolding read_int64
le64-read_int64 (b0 ∷ b1 ∷ b2 ∷ b3 ∷ b4 ∷ b5 ∷ b6 ∷ b7 ∷ r) i h e =
    let v = or_bytes64 b0 b1 b2 b3 b4 b5 b6 b7 (omega arith) in ground (arith, v)
le64-read_int64 [] i h e = absurd (cc)
le64-read_int64 (b0 ∷ []) i h e = absurd (cc)
le64-read_int64 (b0 ∷ b1 ∷ []) i h e = absurd (cc)
le64-read_int64 (b0 ∷ b1 ∷ b2 ∷ []) i h e = absurd (cc)
le64-read_int64 (b0 ∷ b1 ∷ b2 ∷ b3 ∷ []) i h e = absurd (cc)
le64-read_int64 (b0 ∷ b1 ∷ b2 ∷ b3 ∷ b4 ∷ []) i h e = absurd (cc)
le64-read_int64 (b0 ∷ b1 ∷ b2 ∷ b3 ∷ b4 ∷ b5 ∷ []) i h e = absurd (cc)
le64-read_int64 (b0 ∷ b1 ∷ b2 ∷ b3 ∷ b4 ∷ b5 ∷ b6 ∷ []) i h e = absurd (cc)

-- The scan finds the first zero byte behind `p`.
cstring_loop-append :
    (s rest p : List ℕ) (i : ℕ)
    → NoNul s
    → i ≡ length p
    → cstring_loop (s ++ (0 ∷ rest)) (p ++ (s ++ (0 ∷ rest))) i ≡ ok (p ++ s)
unfolding cstring_loop slice_to
cstring_loop-append [] rest p i h e = rw append-nil (
    slice_to_le (p ++ (0 ∷ rest)) i (omega (arith, length-append p (0 ∷ rest)))
    ∙ ap ok (take-append i p (0 ∷ rest) e))
cstring_loop-append (c ∷ s) rest p i h e =
    let more : (c == 0) ≡ false = ground arith in
    rw (more, ← append_assoc p (c ∷ []) (s ++ (0 ∷ rest)), ← append_assoc p (c ∷ []) s)
      (cstring_loop-append s rest (p ++ (c ∷ [])) (suc i) h.1
        (omega (arith, length-append p (c ∷ []))))

-- `readCString` reads back a string without a zero byte from that string, a zero byte and anything else.
pub read_cstring-append : (s rest : List ℕ) → NoNul s → read_cstring (s ++ (0 ∷ rest)) ≡ ok s
unfolding read_cstring
read_cstring-append s rest h = cstring_loop-append s rest [] 0 h refl

-- What the reader gives is the part before the first zero byte.
abbrev pub IsCstringOf : List ℕ → List ℕ → Type 0
IsCstringOf b s = (t : List ℕ) × (b ≡ s ++ (0 ∷ t)) × NoNul s

cstring_loop-Ensures :
    (cs p : List ℕ) (i : ℕ)
    → NoNul p
    → i ≡ length p
    → Ensures (IsCstringOf (p ++ cs)) (cstring_loop cs (p ++ cs) i)
unfolding cstring_loop
cstring_loop-Ensures [] p i h e = tt
cstring_loop-Ensures (c ∷ cs) p i h e = elim (Bool-cases (c == 0)) [
  | inl stop ↦
      rw
        (
          stop,
          slice_to_le (p ++ (c ∷ cs)) i (omega (arith, length-append p (c ∷ cs))),
          take-append i p (c ∷ cs) e,
        )
        (cs, ap (λ t. p ++ (t ∷ cs)) ((==_iff c 0).0 stop), h)
  | inr more ↦
      rw (more, ← append_assoc p (c ∷ []) cs)
        (cstring_loop-Ensures cs (p ++ (c ∷ [])) (suc i)
          (All-append _ p (c ∷ []) h (ground arith, tt)) (omega (arith, length-append p (c ∷ []))))
]

pub read_cstring-Ensures : (b : List ℕ) → Ensures (IsCstringOf b) (read_cstring b)
unfolding read_cstring
read_cstring-Ensures b = cstring_loop-Ensures b [] 0 tt refl
