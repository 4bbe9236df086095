-- ===== src/RoundTrip/Sequences.antt =====
-- wire_message.go: the parsers on a body section and on a document sequence.
use mongonet.Base.{
  ℕ, zero, suc, ◌+◌, ◌^◌, ◌<◌, ◌≤◌, ◌≡◌, refl, ap, ◌∙◌, true, false, not, leb, List, [], ◌∷◌, ◌++◌,
  append_assoc, All, length, length-append, arith, Outcome, ok,
}
use mongonet.Word.{int_of, int32_of, slt32, slt64, sub32, add_int}
use mongonet.Word.Shifts.{int_of_small}
use mongonet.Bytes.Layout.{le32}
use mongonet.Bytes.Read.{NoNul, read_int32-le32}
use mongonet.Bson.{SimpleBson}
use mongonet.Bson.Parse.{IsDoc}
use mongonet.Bson.Write.{image, images, length-image}
use mongonet.Bson.Docs.{IsDoc-IsCovered}
use mongonet.Wire.{Section, body, document_sequence}
use mongonet.Serialize.Layout.{cstring, length-cstring}
use mongonet.Msg.{parse_body_section, section_docs, parse_document_sequence_section}
use mongonet.Msg.Frame.{sequence_size}
use mongonet.Parse.Rules.{At, At-next, At-length, after_document}
use mongonet.RoundTrip.{
  step, step_guard, step_slice, slt64-within, read_cstring-cstring, parse_simple_bson-image,
}

-- The text from here on, in other parentheses.
pub At-same : {buf p t u : List ℕ} → t ≡ u → At buf p t → At buf p u
At-same {p} e at = record { split = at.split ∙ ap (λ x. p ++ x) e }

more_left : (n : ℕ) → 0 < n → n < 2 ^ 31 → slt32 0 n ≡ true
unfolding slt32
more_left n pos small = ground arith

not_over : (n size : ℕ) → size ≤ n → n < 2 ^ 31 → not (slt32 n size) ≡ true
unfolding slt32
not_over n size fits small = ground arith

abbrev pub section_to : Section → ℕ → Outcome (Section × ℕ)
section_to s n = ok (s, n)

abbrev docs_to : List SimpleBson → ℕ → Outcome (List SimpleBson × ℕ)
docs_to ds n = ok (ds, n)

section_docs-images :
    (ds : List SimpleBson) (fuel : ℕ) (buf p t : List ℕ) (loc num : ℕ)
    → All IsDoc ds
    → At buf p (images ds ++ t)
    → loc ≡ length p
    → length (images ds) < fuel
    → length buf < 2 ^ 31
    → section_docs fuel buf loc (length (images ds)) num ≡ ok (ds, loc + length (images ds))
unfolding section_docs
section_docs-images ds zero buf p t loc num h at l enough short = absurd (omega arith)
section_docs-images [] (suc fuel) buf p t loc num h at l enough short =
    let end : loc ≡ loc + 0 = omega arith in
    let stop : slt32 0 0 ≡ false = unfold slt32 in refl in rw stop (ap (docs_to []) end)
section_docs-images (d ∷ ds) (suc fuel) buf p t loc num h at l enough short =
    let rest = images ds in
    let doc = h.0 in
    let size = length-image d (IsDoc-IsCovered d doc) in
    let both = length-append (image d) rest in
    let behind = length-append (image d) (rest ++ t) in
    let end_of = length-append rest t in
    let at1 = At-same (append_assoc (image d) rest t) at in
    let here = At-length at1 in
    let more : slt32 0 (length (image d ++ rest)) ≡ true =
      more_left _ (omega (arith, doc.positive)) (omega arith) in
    let fits : not (slt32 (length (image d ++ rest)) d.size) ≡ true =
      not_over _ _ (omega arith) (omega arith) in
    let next = after_document loc d (IsDoc-IsCovered d doc) (omega arith) in
    let left : sub32 (length (image d ++ rest)) d.size ≡ length rest = omega arith in
    let end : loc + d.size + length rest ≡ loc + length (image d ++ rest) = omega arith in
    let run : Outcome (List SimpleBson × ℕ) =
      section_docs fuel buf (add_int loc (int_of d.size)) (sub32 (length (image d ++ rest)) d.size)
        (num + 1) in
    rw more (
      step_slice _ buf p (image d ++ (rest ++ t)) loc at1 l
      ∙ step _ _ d (parse_simple_bson-image d (rest ++ t) doc (omega arith))
      ∙ step_guard _ _ _ fits
      ∙ step {A = List SimpleBson × ℕ} run (λ x. docs_to (d ∷ x.0) x.1)
          (ds, loc + d.size + length rest)
          (rw (next, left)
            (section_docs-images ds fuel buf (p ++ image d) t (loc + d.size) (num + 1) h.1
              (At-next (image d) (rest ++ t) at1 refl) (omega (arith, length-append p (image d)))
              (omega (arith, doc.positive)) short))
      ∙ ap (docs_to (d ∷ ds)) end)

pub parse_body_section-image :
    (d : SimpleBson) (buf p t : List ℕ) (loc : ℕ)
    → IsDoc d
    → At buf p (image d ++ t)
    → loc ≡ length p
    → length buf < 2 ^ 31
    → parse_body_section buf loc ≡ ok (body d, loc + d.size)
unfolding parse_body_section
parse_body_section-image d buf p t loc h at l short =
    let size = length-image d (IsDoc-IsCovered d h) in
    let here = At-length at in
    let all = length-append (image d) t in
    step_slice _ buf p (image d ++ t) loc at l
    ∙ step _ _ d (parse_simple_bson-image d t h (omega arith))
    ∙ ap (λ n. ok (body d, n)) (after_document loc d (IsDoc-IsCovered d h) (omega arith))

pub parse_document_sequence_section-image :
    (id : List ℕ) (docs : List SimpleBson) (buf p t : List ℕ) (loc : ℕ)
    → NoNul id
    → All IsDoc docs
    → At buf p (le32 (sequence_size id docs) ++ (cstring id ++ (images docs ++ t)))
    → loc ≡ length p
    → length buf < 2 ^ 31
    → parse_document_sequence_section buf loc
      ≡ ok (document_sequence id docs, loc + 4 + (length id + 1) + length (images docs))
unfolding parse_document_sequence_section
parse_document_sequence_section-image id docs buf p t loc nn h at l short =
    let size = sequence_size id docs in
    let rest = images docs ++ t in
    let whole = le32 size ++ (cstring id ++ rest) in
    let here = At-length at in
    let name = length-cstring id in
    let all = length-append (cstring id) rest in
    let both = length-append (images docs) t in
    let at1 = At-next (le32 size) (cstring id ++ rest) at refl in
    let at2 = At-next (cstring id) rest at1 refl in
    let enough : leb 4 (length whole) ≡ true = ground arith in
    let fits : not (slt64 (length whole) (int_of size)) ≡ true =
      rw (int_of_small size (omega arith))
        (slt64-within (length whole) size (omega arith) (omega arith)) in
    let left : sub32 (sub32 size 4) (int32_of (length id + 1)) ≡ length (images docs) =
      omega arith in
    let run : Outcome (List SimpleBson × ℕ) =
      section_docs (suc (length buf)) buf (loc + 4 + (length id + 1))
        (sub32 (sub32 size 4) (int32_of (length id + 1))) 0 in
    step_slice _ buf p whole loc at l
    ∙ step_guard _ _ _ enough
    ∙ step _ _ size (read_int32-le32 size (cstring id ++ rest) (omega arith))
    ∙ step_guard _ _ _ fits
    ∙ step_slice _ buf (p ++ le32 size) (cstring id ++ rest) (loc + 4) at1
        (omega (arith, length-append p (le32 size)))
    ∙ step _ _ id (read_cstring-cstring id rest nn)
    ∙ step {A = List SimpleBson × ℕ} run (λ x. section_to (document_sequence id x.0) x.1)
        (docs, loc + 4 + (length id + 1) + length (images docs))
        (rw left (
          section_docs-images docs (suc (length buf)) buf ((p ++ le32 size) ++ cstring id) t _ 0 h
            at2
            (omega
              (arith, length-append (p ++ le32 size) (cstring id), length-append p (le32 size)))
            (omega arith) short))
