-- ===== src/Bson/Parse.antt =====
-- What `parse_simple_bson` accepts, and that a document is read back.
use mongonet.Base.{
  ℕ, zero, suc, ◌+◌, ◌^◌, ◌≤◌, ◌<◌, ◌≡◌, sym, ap, List, [], ◌++◌, append-nil, append_assoc, arith,
  leb, ◌==◌, not, ◌||◌, Bool, true, false, inl, inr, Bool-cases, length, length-append, take, drop,
  take-append, take-append-drop, length-take, ok,
}
use mongonet.Base.Errors.{Ensures, Ensures-bind, Ensures-guard}
use mongonet.Word.{int_of, is_neg64, slt64}
use mongonet.Word.Shifts.{int_of_small}
use mongonet.Bytes.{read_int32}
use mongonet.Bytes.Layout.{le32}
use mongonet.Bytes.Read.{slice_to_le, read_int32-Ensures, read_int32-le32}
use mongonet.Bson.{SimpleBson, max_bson_size, parse_sized_bson, parse_simple_bson}

-- `d` was read at the front of `b`: its bytes stand there, and `size` counts some of them, at
-- least one.
pub record IsDocAt (b : List ℕ) (d : SimpleBson) : Type 0 where
  pub positive : 0 < d.size
  pub small : d.size < 2 ^ 31
  pub covered : d.size ≤ length d.bson
  pub fits : d.size ≤ length b
  pub front : (t : List ℕ) × (b ≡ d.bson ++ t)

sized_doc :
    (size : ℕ) (b : List ℕ)
    → 0 < size
    → size < 2 ^ 31
    → size ≤ length b
    → IsDocAt b (record { size = size; bson = take size b })
sized_doc size b pos small fits = record {
  positive = pos;
  small = small;
  covered = omega (arith, length-take size b);
  fits = fits;
  front = (drop size b, sym (take-append-drop size b));
}

abbrev in_range : ℕ → Bool
in_range size = not (slt64 max_bson_size (int_of size) || is_neg64 (int_of size))

-- The two tests leave a size from 0 to 128 MB that the bytes cover.
sizes_left :
    (size : ℕ)
    → size < 2 ^ 32
    → in_range size ≡ true
    → (int_of size ≡ size) × (size ≤ max_bson_size)
unfolding slt64 int_of
sizes_left size h e = ground arith

-- `int(size) > len(b)` is false of such a size only if `b` has that many bytes, or half the range.
covered_left :
    (size n : ℕ) → size ≤ max_bson_size → n < 2 ^ 63 → not (slt64 n size) ≡ true → size ≤ n
unfolding slt64
covered_left size n h k e = ground arith

parse_sized_bson-Ensures :
    (size : ℕ) (b : List ℕ)
    → 0 < size
    → size < 2 ^ 32
    → length b < 2 ^ 63
    → Ensures (IsDocAt b) (parse_sized_bson size b)
unfolding parse_sized_bson
parse_sized_bson-Ensures size b pos h short = Ensures-guard (IsDocAt b) (in_range size) _ _ λ e.
    let (same, big) = sizes_left size h e in
    Ensures-guard (IsDocAt b) (not (slt64 (length b) (int_of size))) _ _ λ e'.
      let fits : size ≤ length b = covered_left size (length b) big short (rw (← same) e') in
      rw (same, slice_to_le b size fits) (sized_doc size b pos (omega arith) fits)

-- On fewer than 2 ^ 63 bytes `parseSimpleBSON` does not panic: it gives an error, or a document whose
-- bytes stand at their front, whose size is above 0 and at most the number of the bytes of each.
pub parse_simple_bson-Ensures :
    (b : List ℕ) → length b < 2 ^ 63 → Ensures (IsDocAt b) (parse_simple_bson b)
unfolding parse_simple_bson int_of
parse_simple_bson-Ensures b short = Ensures-guard (IsDocAt b) (leb 4 (length b)) _ _ λ e.
    Ensures-bind (λ i. i < 2 ^ 32) (IsDocAt b) _ _ (read_int32-Ensures b (ground arith))
      λ i h. elim (Bool-cases (int_of i == 0)) [
        | inl zero_size ↦ rw zero_size (record {
          positive = omega arith;
          small = omega arith;
          covered = ground arith;
          fits = ground arith;
          front = ([], sym (append-nil b));
        })
        | inr other ↦ rw other (parse_sized_bson-Ensures i b (not_zero i other) h short)
      ]
  where
    not_zero : (i : ℕ) → (int_of i == 0) ≡ false → 0 < i
    not_zero zero e = absurd (ground arith)
    not_zero (suc i) e = omega arith

-- A document with its own length in front, of at most 128 MB.
pub record IsDoc (d : SimpleBson) : Type 0 where
  pub positive : 0 < d.size
  pub bounded : d.size ≤ max_bson_size
  pub whole : length d.bson ≡ d.size
  pub headed : (t : List ℕ) × (d.bson ≡ le32 d.size ++ t)

-- A document with its own length in front, of at most 128 MB, is read back by `parseSimpleBSON`
-- whatever follows it, where the whole is shorter than 2 ^ 63.
pub parse_simple_bson-append :
    (d : SimpleBson) (rest : List ℕ)
    → IsDoc d
    → length (d.bson ++ rest) < 2 ^ 63
    → parse_simple_bson (d.bson ++ rest) ≡ ok d
unfolding parse_simple_bson parse_sized_bson slt64
parse_simple_bson-append d rest h short =
    let n = length (d.bson ++ rest) in
    let long : n ≡ d.size + length rest = omega (arith, length-append d.bson rest) in
    let head : read_int32 (d.bson ++ rest) ≡ ok d.size =
      rw (h.headed.1, append_assoc (le32 d.size) h.headed.0 rest)
        (read_int32-le32 d.size (h.headed.0 ++ rest) (omega arith)) in
    let same = int_of_small d.size (omega arith) in
    let four : 4 ≤ d.size = omega (arith, ap length h.headed.1) in
    let enough : leb 4 n ≡ true = ground arith in
    let nonzero : (d.size == 0) ≡ false = ground arith in
    let sized : in_range d.size ≡ true = rw same (ground arith) in
    let fits : not (slt64 n (int_of d.size)) ≡ true = rw same (ground arith) in
    rw (
      enough,
      head,
      sized,
      fits,
      same,
      nonzero,
      slice_to_le (d.bson ++ rest) d.size (omega arith),
      take-append d.size d.bson rest (omega arith),
    )
