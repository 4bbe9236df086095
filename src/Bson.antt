-- ===== src/Bson.antt =====
-- The documents of bsonutil.go as the wire code sees them: `SimpleBSON`, its parser and its copy, and
-- the two loops that read documents up to the end of a message.
pub mod Parse
pub mod Docs
pub mod Write
use mongonet.Base.{
  ℕ, zero, suc, ◌+◌, ◌*◌, ◌%◌, ◌^◌, List, [], ◌∷◌, not, ◌||◌, ◌==◌, ltb, leb, if◌then◌else◌, length,
  Outcome, ok, err, hang, Error,
}
use mongonet.Base.Errors.{◌>>=◌, ◌>>◌, guard}
use mongonet.Word.{int_of, is_neg64, slt64, add_int}
use mongonet.Bytes.{slice_from, slice_to, read_int32}

pub record SimpleBson : Type 0 where
  pub size : ℕ
  pub bson : List ℕ

-- Go's zero value, a nil slice.
abbrev pub no_bson : SimpleBson
no_bson = record { size = 0; bson = [] }

-- `SimpleBSONEmpty`
abbrev pub simple_bson_empty : SimpleBson
simple_bson_empty = record { size = 5; bson = 5 ∷ 0 ∷ 0 ∷ 0 ∷ 0 ∷ [] }

abbrev pub max_bson_size : ℕ
max_bson_size = 128 * 1024 * 1024

-- The last part of `parseSimpleBSON`, behind the test for the shortcut of size 0.
unfoldable pub parse_sized_bson : ℕ → List ℕ → Outcome SimpleBson
parse_sized_bson size b = do
  guard (not (slt64 max_bson_size (int_of size) || is_neg64 (int_of size)))
      (Error.bson_size_invalid size)
  guard (not (slt64 (length b) (int_of size))) (Error.bson_overrun size (length b))
  bytes ← slice_to b (int_of size)
  ok (record { size = size; bson = bytes })

unfoldable pub parse_simple_bson : List ℕ → Outcome SimpleBson
parse_simple_bson b = do
  guard (leb 4 (length b)) (Error.bson_too_short (length b))
  size ← read_int32 b
  if int_of size == 0 then ok (record { size = 4; bson = b }) else parse_sized_bson size b

-- `for len(buf) > 0 { parseSimpleBSON(buf); buf = buf[doc.Size:] }`
unfoldable pub docs_loop : ℕ → List ℕ → Outcome (List SimpleBson)
docs_loop zero buf = hang
docs_loop (suc fuel) [] = ok []
docs_loop (suc fuel) (c ∷ cs) = do
  doc ← parse_simple_bson (c ∷ cs)
  rest ← slice_from (c ∷ cs) (int_of doc.size)
  docs ← docs_loop fuel rest
  ok (doc ∷ docs)

-- `for loc < len(buf) { parseSimpleBSON(buf[loc:]); loc += int(doc.Size) }`
unfoldable pub docs_from : ℕ → List ℕ → ℕ → Outcome (List SimpleBson)
docs_from zero buf loc = hang
docs_from (suc fuel) buf loc =
    let round : Outcome (List SimpleBson) = (do
      here ← slice_from buf loc
      doc ← parse_simple_bson here
      docs ← docs_from fuel buf (add_int loc (int_of doc.size))
      ok (doc ∷ docs)) in
    if ltb loc (length buf) then round else ok []

-- `for _, d := range docs { size += int(d.Size) }`
unfoldable pub add_sizes : ℕ → List SimpleBson → ℕ
add_sizes size [] = size
add_sizes size (d ∷ ds) = add_sizes (add_int size (int_of d.size)) ds
