-- ===== src/Bson/Write.antt =====
-- Writing documents (bsonutil.go, `Copy`), and the bytes that are in the buffer afterwards.
use mongonet.Base.{
  ℕ, ◌+◌, ◌^◌, ◌≤◌, ◌<◌, ◌≡◌, ap, subst, ◌∙◌, List, [], ◌∷◌, ◌++◌, append-nil, arith, length,
  length-append, All, take, length-take,
}
use mongonet.Word.{int_of, add_int}
use mongonet.Word.Shifts.{int_of_small}
use mongonet.Bytes.Writer.{Writer, ◌>>=◌, ◌>>◌, copy_at, done}
use mongonet.Bytes.Layout.{Emits, Emits-bind, Emits-then, Emits-done, Emits-copy_at}
use mongonet.Bson.{SimpleBson, add_sizes}

-- `Copy`: the new `*loc` goes by `Size`, whatever the length of the bytes.
unfoldable pub copy_bson : SimpleBson → ℕ → Writer ℕ
copy_bson d loc = do copy_at d.bson loc; done (add_int loc (int_of d.size))

-- `for _, d := range docs { d.Copy(&loc, buf) }`
unfoldable pub copy_docs : List SimpleBson → ℕ → Writer ℕ
copy_docs [] loc = done loc
copy_docs (d ∷ ds) loc = copy_bson d loc >>= copy_docs ds

-- The size of a document counts bytes that it has.
pub record IsCovered (d : SimpleBson) : Type 0 where
  pub small : d.size < 2 ^ 31
  pub covered : d.size ≤ length d.bson

-- The bytes that `size` counts, of one document and of several.
abbrev pub image : SimpleBson → List ℕ
image d = take d.size d.bson

abbrev pub images : List SimpleBson → List ℕ
images [] = []
images (d ∷ ds) = image d ++ images ds

pub length-image : (d : SimpleBson) → IsCovered d → length (image d) ≡ d.size
length-image d h = omega (arith, length-take d.size d.bson)

-- Where the position cannot leave the range of an int, `Copy` leaves the counted bytes and moves
-- on by their number.
pub Emits-copy_bson :
    (d : SimpleBson) (loc : ℕ)
    → IsCovered d
    → loc < 2 ^ 63
    → Emits (copy_bson d loc) loc (image d) (loc + d.size)
unfolding copy_bson
Emits-copy_bson d loc h bd =
    let here : add_int loc (int_of d.size) ≡ loc + d.size =
      ap (add_int loc) (int_of_small d.size h.small) ∙ omega arith in
    subst (Emits (copy_bson d loc) loc (image d)) here (
      subst (λ t. Emits (copy_bson d loc) loc t (add_int loc (int_of d.size)))
        (append-nil (image d))
        (Emits-then _ _ loc (loc + d.size) (image d) [] _
          (Emits-copy_at d.bson d.size loc h.covered) (omega (arith, length-image d h))
          (Emits-done _ _)))

pub Emits-copy_docs :
    (ds : List SimpleBson) (loc : ℕ)
    → All IsCovered ds
    → loc + length (images ds) < 2 ^ 63
    → Emits (copy_docs ds loc) loc (images ds) (loc + length (images ds))
unfolding copy_docs
Emits-copy_docs [] loc h bd =
    subst (λ t. Emits (done loc) loc [] t) (omega arith) (Emits-done loc loc)
Emits-copy_docs (d ∷ ds) loc h bd =
    let size = length-image d h.0 in
    let whole = length-append (image d) (images ds) in
    subst (Emits (copy_docs (d ∷ ds) loc) loc (images (d ∷ ds))) (omega arith) (
      Emits-bind (copy_bson d loc) (copy_docs ds) loc (loc + d.size) (image d) (images ds)
        (loc + d.size) (loc + d.size + length (images ds)) (Emits-copy_bson d loc h.0 (omega arith))
        (omega arith) (Emits-copy_docs ds (loc + d.size) h.1 (omega arith)))

-- The sum of the sizes is the number of the bytes that they count.
pub add_sizes-images :
    (ds : List SimpleBson) (size : ℕ)
    → All IsCovered ds
    → size + length (images ds) < 2 ^ 63
    → add_sizes size ds ≡ size + length (images ds)
unfolding add_sizes
add_sizes-images [] size h bd = omega arith
add_sizes-images (d ∷ ds) size h bd =
    let whole = length-append (image d) (images ds) in
    let here : add_int size (int_of d.size) ≡ size + d.size =
      ap (add_int size) (int_of_small d.size h.0.small) ∙ omega (arith, length-image d h.0) in
    rw here (
      add_sizes-images ds (size + d.size) h.1 (omega (arith, length-image d h.0))
      ∙ omega (arith, length-image d h.0))
