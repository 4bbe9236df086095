-- ===== src/Document/Path.antt =====
-- bsonutil.go: `BSONWalk` and `BSONWalkHelp`, on a path of keys (what strings.Split gives). A slice is changed
-- in place, so that the model gives the document as it is afterwards. The documents of an array are
-- taken not to be nil; `Value.other 0` is the nil interface. Where the code makes a document contain
-- itself, the model has an error of its own.
pub mod Setting
use mongonet.Base.{
  ℕ, zero, suc, ◌+◌, ◌-◌, List, [], ◌∷◌, Bool, true, false, ltb, if◌then◌else◌, Option, none, some,
  Outcome, ok, err, panic, Error,
}
use mongonet.Base.Errors.{◌>>=◌}
use mongonet.Document.{Value, Document, Documents, Values, bson_index_of}
use mongonet.Document.Walk.{VisitError, delete_me, failed, Visited, value_or}

-- `current[idx]`, none out of range
abbrev pub elem_at : ℕ → Document → Option (List ℕ × Value)
elem_at i Document.empty = none
elem_at zero (Document.elem key value rest) = some (key, value)
elem_at (suc i) (Document.elem key value rest) = elem_at i rest

-- `current[idx] = bson.E{key, value}`
abbrev pub set_elem : ℕ → List ℕ → Value → Document → Document
set_elem i key value Document.empty = Document.empty
set_elem zero key value (Document.elem k v rest) = Document.elem key value rest
set_elem (suc i) key value (Document.elem k v rest) = Document.elem k v (set_elem i key value rest)

-- `append(current[0:idx], current[idx+1:]...)`
abbrev pub remove : ℕ → Document → Document
remove i Document.empty = Document.empty
remove zero (Document.elem k v rest) = rest
remove (suc i) (Document.elem k v rest) = Document.elem k v (remove i rest)

-- What that leaves in the old slice: the last element is there twice.
abbrev pub shift : ℕ → Document → Document
shift i Document.empty = Document.empty
shift zero (Document.elem k v Document.empty) = Document.elem k v Document.empty
shift zero (Document.elem k v (Document.elem k' v' rest)) =
    Document.elem k' v' (shift zero (Document.elem k' v' rest))
shift (suc i) (Document.elem k v rest) = Document.elem k v (shift i rest)

-- What becomes of the document at hand. `shortened`: an element was deleted from it, and its place gets the
-- shorter slice. `misplaced`: that went into the parent's element at the index. `dropped`: DELETE_ME.
pub data Below : Type 0 where
  stays : Document → Below
  shortened : Document → Below
  misplaced : ℕ → Document → Document → Below
  dropped : Below

-- `elem := &(current)[idx]`
abbrev pub with_elem :
    {A : Type 0} → Option (List ℕ × Value) → (List ℕ → Value → Outcome A) → Outcome A
with_elem none next = panic
with_elem (some (key, value)) next = next key value

-- `prev[docPath[len(docPath)-2]].Value = fixed`, after an empty array that was stepped over at index `i`.
abbrev pub misplace : ℕ → Document → Document → Outcome Document
misplace i fixed d =
    with_elem (elem_at i d) (λ key value. ok (set_elem i key (Value.document fixed) d))

-- The parent, with the element that was walked into.
abbrev pub put_back : ℕ → List ℕ → Document → Below → Outcome Below
put_back i key d (stays d') = ok (stays (set_elem i key (Value.document d') d))
put_back i key d (shortened d') = ok (stays (set_elem i key (Value.document d') d))
put_back i key d (misplaced j fixed shifted) =
    misplace j fixed (set_elem i key (Value.document shifted) d) >>= λ d'. ok (stays d')
put_back i key d dropped = ok dropped

abbrev pub count_elems : Document → ℕ
count_elems Document.empty = 0
count_elems (Document.elem k v rest) = suc (count_elems rest)

-- A deletion beside an empty array in the document of the call: the shorter slice goes into the element at
-- the array's index, and contains it unless that is the last one of the old slice.
abbrev pub entangle : ℕ → ℕ → Document → Outcome Below
entangle j i d =
    let shifted = misplace j (remove i d) (shift i d) >>= λ d'. ok (stays d') in
    if ltb (suc j) (count_elems d) then err Error.contains_itself else shifted

-- A deletion: in an array, in an element's document or the document of the call, and beside an empty array.
abbrev pub delete : Bool → Bool → Option ℕ → ℕ → Document → Outcome Below
delete true top skipped i d = ok dropped
delete _ top none i d = ok (shortened (remove i d))
delete _ true (some j) i d = entangle j i d
delete _ _ (some j) i d = ok (misplaced j (remove i d) (shift i d))

-- What follows `Visit`
abbrev pub settle : Option VisitError → Outcome Below → Document → Outcome Below
settle none deleted d = ok (stays d)
settle (some delete_me) deleted d = deleted
settle (some failed) deleted d = err Error.visit_failed

abbrev pub is_empty : List ℕ → Bool
is_empty [] = true
is_empty _ = false

-- The documents that are left of a []bson.D
abbrev pub remaining : Below → Documents → Documents
remaining (stays d) ds = Documents.a_document d ds
remaining (shortened d) ds = Documents.a_document d ds
remaining _ ds = ds

-- A member of a slice of values after its walk, with DELETE_ME as an empty document, and how many of these
-- there are.
abbrev pub replaced : Below → Value
replaced (stays d) = Value.document d
replaced (shortened d) = Value.document d
replaced _ = Value.document Document.empty

abbrev pub deletions : Below → ℕ
deletions dropped = 1
deletions _ = 0

-- The loop that fills newArr: it skips nil and empty documents, and asserts that all else is a document.
abbrev pub compact : Values → Outcome Values
compact Values.no_values = ok Values.no_values
compact (Values.a_value (Value.document Document.empty) vs) = compact vs
compact (Values.a_value (Value.document (Document.elem k v d)) vs) =
    compact vs >>= λ rest. ok (Values.a_value (Value.document (Document.elem k v d)) rest)
compact (Values.a_value (Value.other zero) vs) = compact vs
compact (Values.a_value _ vs) = panic

abbrev pub count_values : Values → ℕ
count_values Values.no_values = 0
count_values (Values.a_value v vs) = suc (count_values vs)

-- newArr has this many members more, which stay nil.
abbrev pub pad : ℕ → Values → Values
pad n (Values.a_value v vs) = Values.a_value v (pad (n - 1) vs)
pad zero Values.no_values = Values.no_values
pad (suc n) Values.no_values = Values.a_value (Value.other 0) (pad n Values.no_values)

-- The new value of the element, from that of its type. The new slice is an []interface{} either way.
abbrev pub without : (Values → Value) → ℕ → Values → Outcome Value
without same zero vs = ok (same vs)
without same (suc n) vs =
    compact vs >>= λ kept. ok (Value.interfaces (pad (count_values vs - suc n) kept))

-- `if idx < 0 { return }`, and the rest
abbrev pub if_found : {A : Type 0} → Option ℕ → A → (ℕ → A) → A
if_found none absent present = absent
if_found (some i) absent present = present i

-- `if pieceOffset == len(path)-1`, with the pieces behind
abbrev pub if_last : {A : Type 0} → List (List ℕ) → A → A → A
if_last [] end next = end
if_last (_ ∷ _) end next = next

-- The document that a walk outside of an array returns. Such a walk drops and misplaces nothing itself.
abbrev pub returned : Below → Outcome Document
returned (stays d) = ok d
returned (shortened d) = ok d
returned _ = panic

module _ {S : Type 0} (visit : S → List ℕ → Value → Visited S) where
  -- The loops over the arrays, with the walk of a document in them.
  unfoldable pub walk_each :
      (S → Document → Outcome (Below × S)) → S → Documents → Outcome (Documents × S)
  walk_each walk s Documents.no_documents = ok (Documents.no_documents, s)
  walk_each walk s (Documents.a_document d ds) =
      walk s d >>= λ (b, s1). walk_each walk s1 ds >>= λ (ds', s2). ok (remaining b ds', s2)

  unfoldable pub walk_members :
      (S → Document → Outcome (Below × S)) → S → Values → Outcome (Values × (ℕ × S))
  walk_members walk s Values.no_values = ok (Values.no_values, (0, s))
  walk_members walk s (Values.a_value (Value.document d) vs) = walk s d >>= λ (b, s1).
      walk_members walk s1 vs >>= λ (vs', (n, s2)).
      ok (Values.a_value (replaced b) vs', (n + deletions b, s2))
  walk_members walk s (Values.a_value v vs) =
      walk_members walk s vs >>= λ (vs', (n, s1)). ok (Values.a_value v vs', (n, s1))

  -- The last piece: the element is visited.
  unfoldable pub visit_at :
      Bool → Bool → Option ℕ → S → ℕ → List ℕ → Value → Document → Outcome (Below × S)
  visit_at in_array top skipped s i key value d =
      let v = visit s key value in
      let d' = set_elem i v.key (value_or value v.value) d in
      let done = settle v.error (delete in_array top skipped i d') d' >>= λ b. ok (b, v.state) in
      if is_empty key then panic else done

  -- What follows the search for a piece, with the walk of the pieces behind it (in an array, below, and
  -- beside an empty array). `last` tells whether there are none.
  unfoldable pub walk_from :
      (S → Document → Outcome (Below × S))
      → (S → Document → Outcome (Below × S))
      → (ℕ → S → Document → Outcome (Below × S))
      → S
      → ℕ
      → List ℕ
      → Value
      → Document
      → Outcome (Below × S)
  walk_from inside below beside s i key (Value.document sub) d =
      below s sub >>= λ (b, s1). put_back i key d b >>= λ b'. ok (b', s1)
  walk_from inside below beside s i key (Value.documents ds) d =
      walk_each inside s ds >>= λ (ds', s1). ok (stays (set_elem i key (Value.documents ds') d), s1)
  walk_from inside below beside s i key (Value.array Values.no_values) d = beside i s d
  walk_from inside below beside s i key (Value.array vs) d =
      walk_members inside s vs >>= λ (vs', (n, s1)).
      without Value.array n vs' >>= λ value. ok (stays (set_elem i key value d), s1)
  walk_from inside below beside s i key (Value.interfaces Values.no_values) d = beside i s d
  walk_from inside below beside s i key (Value.interfaces vs) d =
      walk_members inside s vs >>= λ (vs', (n, s1)).
      without Value.interfaces n vs' >>= λ value. ok (stays (set_elem i key value d), s1)
  walk_from inside below beside s i key _ d = ok (stays d, s)

  -- The loop over the pieces of the path. `top` holds as long as `current` is the document of the call,
  -- `skipped` is the index of an empty array that the last piece stepped over.
  unfoldable pub walk_path :
      Bool → Bool → Option ℕ → List (List ℕ) → S → Document → Outcome (Below × S)
  walk_path in_array top skipped [] s d = ok (stays d, s)
  walk_path in_array top skipped (piece ∷ path) s d =
      let inside : S → Document → Outcome (Below × S) = walk_path true true none path in
      let below : S → Document → Outcome (Below × S) = walk_path in_array false none path in
      let beside : ℕ → S → Document → Outcome (Below × S) =
        λ i. walk_path in_array top (some i) path in
      if_found (bson_index_of d piece) (ok (stays d, s)) (λ i. with_elem (elem_at i d) (λ key value.
        if_last path (visit_at in_array top skipped s i key value d)
          (walk_from inside below beside s i key value d)))

  -- `BSONWalk`: `BSONWalkHelp` outside of an array.
  unfoldable pub bson_walk : List (List ℕ) → S → Document → Outcome (Document × S)
  bson_walk path s d =
      walk_path false true none path s d >>= λ (b, s1). returned b >>= λ d'. ok (d', s1)
