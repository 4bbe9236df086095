-- ===== src/Bson/Docs.antt =====
-- The two loops that read documents, and the text that they read.
use mongonet.Base.{
  ℕ, zero, suc, ◌+◌, ◌^◌, ◌≤◌, ◌<◌, ◌≡◌, refl, sym, ap, ◌∙◌, List, [], ◌∷◌, ◌++◌, append-nil,
  append_assoc, arith, ltb, true, false, inl, inr, Bool-cases, length, length-append, All, take,
  drop, take-append_le, take_all, drop_all, drop-drop, take-append-drop, length-drop, ok,
}
use mongonet.Base.Errors.{Ensures, Ensures-bind}
use mongonet.Word.{int_of, add_int}
use mongonet.Word.Shifts.{int_of_small}
use mongonet.Bytes.{slice_from}
use mongonet.Bytes.Read.{slice_from_le, slice_from-append}
use mongonet.Bson.{SimpleBson, parse_simple_bson, docs_loop, docs_from}
use mongonet.Bson.Parse.{IsDocAt, IsDoc, parse_simple_bson-Ensures, parse_simple_bson-append}
use mongonet.Bson.Write.{IsCovered, image, images, length-image}

-- `ds` were read one behind the other from `b`, to its end.
abbrev pub IsDocsOf : List ℕ → List SimpleBson → Type 0
IsDocsOf b [] = b ≡ []
IsDocsOf b (d ∷ ds) = IsDocAt b d × IsDocsOf (drop d.size b) ds

pub docs_loop-Ensures :
    (fuel : ℕ) (buf : List ℕ)
    → length buf < fuel
    → length buf < 2 ^ 63
    → Ensures (IsDocsOf buf) (docs_loop fuel buf)
unfolding docs_loop
docs_loop-Ensures zero buf h short = absurd (omega arith)
docs_loop-Ensures (suc fuel) [] h short = refl
docs_loop-Ensures (suc fuel) (c ∷ cs) h short =
    Ensures-bind (IsDocAt (c ∷ cs)) (IsDocsOf (c ∷ cs)) _ _
      (parse_simple_bson-Ensures (c ∷ cs) short)
      λ d at_front.
        rw (int_of_small d.size at_front.small, slice_from_le (c ∷ cs) d.size at_front.fits)
          (Ensures-bind (IsDocsOf (drop d.size (c ∷ cs))) (IsDocsOf (c ∷ cs)) _ _
            (docs_loop-Ensures fuel (drop d.size (c ∷ cs))
              (omega (arith, length-drop d.size (c ∷ cs), at_front.positive, at_front.fits))
              (omega (arith, length-drop d.size (c ∷ cs))))
            λ ds rest. (at_front, rest))

pub docs_from-Ensures :
    (fuel : ℕ) (buf : List ℕ) (loc : ℕ)
    → loc ≤ length buf
    → length buf < loc + fuel
    → length buf < 2 ^ 63
    → Ensures (IsDocsOf (drop loc buf)) (docs_from fuel buf loc)
unfolding docs_from
docs_from-Ensures zero buf loc within h short = absurd (omega arith)
docs_from-Ensures (suc fuel) buf loc within h short = elim (Bool-cases (ltb loc (length buf))) [
  | inl more ↦
      rw (more, slice_from_le buf loc within)
        (Ensures-bind (IsDocAt (drop loc buf)) (IsDocsOf (drop loc buf)) _ _
          (parse_simple_bson-Ensures (drop loc buf) (omega (arith, length-drop loc buf)))
          λ d at_front.
            let next : add_int loc (int_of d.size) ≡ loc + d.size =
              ap (add_int loc) (int_of_small d.size at_front.small)
              ∙ omega (arith, at_front.fits, length-drop loc buf) in
            rw next (
              Ensures-bind (IsDocsOf (drop (loc + d.size) buf)) (IsDocsOf (drop loc buf)) _ _
                (docs_from-Ensures fuel buf (loc + d.size)
                  (omega (arith, at_front.fits, length-drop loc buf))
                  (omega (arith, at_front.positive)) short)
                λ ds rest. (at_front, rw (drop-drop loc d.size (loc + d.size) buf refl) rest)))
  | inr done ↦ rw (done, drop_all loc buf (ground arith)) refl
]

-- What was read covers its sizes, and its counted bytes are the whole text.
pub IsDocsOf-IsCovered : (b : List ℕ) (ds : List SimpleBson) → IsDocsOf b ds → All IsCovered ds
IsDocsOf-IsCovered b [] h = tt
IsDocsOf-IsCovered b (d ∷ ds) h =
    (record { small = h.0.small; covered = h.0.covered }, IsDocsOf-IsCovered (drop d.size b) ds h.1)

pub image-IsDocAt : (b : List ℕ) (d : SimpleBson) → IsDocAt b d → image d ≡ take d.size b
image-IsDocAt b d h = rw (h.front.1, take-append_le d.size d.bson h.front.0 h.covered)

pub images-IsDocsOf : (b : List ℕ) (ds : List SimpleBson) → IsDocsOf b ds → images ds ≡ b
images-IsDocsOf b [] h = sym h
images-IsDocsOf b (d ∷ ds) h =
    rw (image-IsDocAt b d h.0, images-IsDocsOf (drop d.size b) ds h.1) (take-append-drop d.size b)

-- Documents that carry their lengths are read back.
pub IsDoc-image : (d : SimpleBson) → IsDoc d → image d ≡ d.bson
IsDoc-image d h = take_all d.size d.bson (omega (arith, h.whole))

pub IsDoc-IsCovered : (d : SimpleBson) → IsDoc d → IsCovered d
IsDoc-IsCovered d h = record { small = omega (arith, h.bounded); covered = omega (arith, h.whole) }

pub All-IsCovered : (ds : List SimpleBson) → All IsDoc ds → All IsCovered ds
All-IsCovered [] h = tt
All-IsCovered (d ∷ ds) h = (IsDoc-IsCovered d h.0, All-IsCovered ds h.1)

-- How long the text is, with a document's own bytes or its image.
image_lengths :
    (d : SimpleBson) (ds : List SimpleBson) (p : List ℕ)
    → IsDoc d
    → (length (image d ++ images ds) ≡ d.size + length (images ds))
      × (length (p ++ (image d ++ images ds)) ≡ length p + d.size + length (images ds))
image_lengths d ds p doc =
    let size = length-image d (IsDoc-IsCovered d doc) in
    let both = length-append (image d) (images ds) in
    (omega arith, omega (arith, length-append p (image d ++ images ds)))

pub docs_from-images :
    (ds : List SimpleBson) (fuel : ℕ) (p : List ℕ) (loc : ℕ)
    → All IsDoc ds
    → loc ≡ length p
    → length (images ds) < fuel
    → length (p ++ images ds) < 2 ^ 63
    → docs_from fuel (p ++ images ds) loc ≡ ok ds
unfolding docs_from
docs_from-images ds zero p loc h e f short = absurd (omega arith)
docs_from-images [] (suc fuel) p loc h e f short =
    rw (append-nil p) (let stop : ltb loc (length p) ≡ false = ground arith in rw stop)
docs_from-images (d ∷ ds) (suc fuel) p loc h e f short =
    let doc = h.0 in
    let rest = images ds in
    let size = doc.whole in
    let lengths = image_lengths d ds p doc in
    let more : ltb loc (length (p ++ (image d ++ rest))) ≡ true =
      ground (arith, lengths, doc.positive) in
    let next : add_int loc (int_of d.size) ≡ loc + d.size =
      ap (add_int loc) (int_of_small d.size (omega (arith, doc.bounded))) ∙ omega arith in
    let here = parse_simple_bson-append d rest doc (omega (arith, length-append d.bson rest)) in
    let later =
      docs_from-images ds fuel (p ++ d.bson) (loc + d.size) h.1
        (omega (arith, length-append p d.bson)) (omega (arith, doc.positive))
        (omega (arith, length-append (p ++ d.bson) rest, length-append p d.bson)) in
    rw (more, slice_from-append p (image d ++ rest) loc e, IsDoc-image d doc)
      (rw (here, next, ← append_assoc p d.bson rest, later))

docs_loop_step :
    (d : SimpleBson) (rest : List ℕ) (ds : List SimpleBson) (fuel : ℕ)
    → IsDoc d
    → length (d.bson ++ rest) < 2 ^ 63
    → docs_loop fuel rest ≡ ok ds
    → docs_loop (suc fuel) (d.bson ++ rest) ≡ ok (d ∷ ds)
docs_loop_step d rest ds fuel h short ih = go (d.bson ++ rest) refl
  where
    here : parse_simple_bson (d.bson ++ rest) ≡ ok d
    here = parse_simple_bson-append d rest h short

    cut : slice_from (d.bson ++ rest) (int_of d.size) ≡ ok rest
    cut =
        ap (slice_from (d.bson ++ rest)) (int_of_small d.size (omega (arith, h.bounded)))
        ∙ slice_from-append d.bson rest d.size (omega (arith, h.whole))

    go : (b : List ℕ) → b ≡ d.bson ++ rest → docs_loop (suc fuel) b ≡ ok (d ∷ ds)
    go [] e = absurd (omega (arith, ap length e, length-append d.bson rest, h.whole, h.positive))
    go (c ∷ cs) e =
        unfold docs_loop in
        rw (ap parse_simple_bson e ∙ here, ap (λ t. slice_from t (int_of d.size)) e ∙ cut, ih)

pub docs_loop-images :
    (ds : List SimpleBson) (fuel : ℕ)
    → All IsDoc ds
    → length (images ds) < fuel
    → length (images ds) < 2 ^ 63
    → docs_loop fuel (images ds) ≡ ok ds
docs_loop-images ds zero h f short = absurd (omega arith)
docs_loop-images [] (suc fuel) h f short = unfold docs_loop in refl
docs_loop-images (d ∷ ds) (suc fuel) h f short =
    let doc = h.0 in
    let size = doc.whole in
    let lengths = image_lengths d ds [] doc in
    rw (IsDoc-image d doc) (
      docs_loop_step d (images ds) ds fuel doc (omega (arith, length-append d.bson (images ds)))
        (docs_loop-images ds fuel h.1 (omega (arith, doc.positive)) (omega arith)))
