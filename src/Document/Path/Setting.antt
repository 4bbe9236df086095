-- ===== src/Document/Path/Setting.antt =====
-- bsonutil.go: `BSONWalk` with a visitor that sets a value, through nested documents.
use mongonet.Base.{
  ℕ, zero, suc, ◌≡◌, refl, sym, ap, ◌∙◌, List, [], ◌∷◌, Bool, true, false, Bool-cases, inl, inr,
  if◌then◌else◌, none, some, All, Outcome, ok,
}
use mongonet.Document.{Value, Document, same_key, bson_index_of}
use mongonet.Document.Walk.{Visited}
use mongonet.Document.Walk.Deleting.{NoArrays, IsPlain}
use mongonet.Document.Path.{
  Below, stays, elem_at, set_elem, is_empty, visit_at, walk_from, walk_path, bson_walk,
}

-- The first element with the key gets another value.
abbrev pub replace_first : List ℕ → (Value → Value) → Document → Document
replace_first piece g Document.empty = Document.empty
replace_first piece g (Document.elem key value rest) =
    let later = replace_first piece g rest in
    if same_key key piece then Document.elem key (g value) rest else Document.elem key value later

-- The value at a path of keys below a value is replaced, if there is one.
abbrev pub replace_below : List (List ℕ) → (Value → Value) → Value → Value
replace_below [] f value = f value
replace_below (piece ∷ path) f (Value.document d) =
    Value.document (replace_first piece (replace_below path f) d)
replace_below (piece ∷ path) f value = value

abbrev pub replace_at : List (List ℕ) → (Value → Value) → Document → Document
replace_at [] f d = d
replace_at (piece ∷ path) f d = replace_first piece (replace_below path f) d

-- A visitor that keeps the key and sets the value to a function of the old one.
pub record IsSetting {S : Type 0} (f : Value → Value) (visit : S → List ℕ → Value → Visited S)
    : Type 0 where
  pub succeeds : (s : S) (key : List ℕ) (value : Value) → (visit s key value).error ≡ none
  pub named : (s : S) (key : List ℕ) (value : Value) → (visit s key value).key ≡ key
  pub sets : (s : S) (key : List ℕ) (value : Value) → (visit s key value).value ≡ some (f value)

-- Where a piece is found in a document, by its index and by its key.
data Located (piece : List ℕ) (g : Value → Value) (d : Document) : Type 0 where
  absent : bson_index_of d piece ≡ none → replace_first piece g d ≡ d → Located piece g d
  present :
      (i : ℕ) (key : List ℕ) (value : Value)
      → bson_index_of d piece ≡ some i
      → elem_at i d ≡ some (key, value)
      → same_key key piece ≡ true
      → IsPlain value
      → set_elem i key (g value) d ≡ replace_first piece g d
      → Located piece g d

later-Located :
    (piece : List ℕ) (g : Value → Value) (k : List ℕ) (v : Value) (rest : Document)
    → same_key k piece ≡ false
    → Located piece g rest
    → Located piece g (Document.elem k v rest)
unfolding bson_index_of
later-Located piece g k v rest h (absent e r) = absent (rw (h, e) refl) (rw (h, r) refl)
later-Located piece g k v rest h (present i key value e at same plain r) =
    present (suc i) key value (rw (h, e) refl) at same plain (rw (h, r) refl)

locate : (piece : List ℕ) (g : Value → Value) (d : Document) → NoArrays d → Located piece g d
unfolding bson_index_of NoArrays
locate piece g Document.empty n = absent refl refl
locate piece g (Document.elem k v rest) n = elim (Bool-cases (same_key k piece)) [
  | inl h ↦ present 0 k v (rw h refl) refl h n.0 (rw h refl)
  | inr h ↦ later-Located piece g k v rest h (locate piece g rest n.1)
]

set_elem-elem_at :
    (i : ℕ) (key : List ℕ) (value : Value) (d : Document)
    → elem_at i d ≡ some (key, value)
    → set_elem i key value d ≡ d
set_elem-elem_at i key value Document.empty e = refl
set_elem-elem_at zero key value (Document.elem k v rest) e =
    let same_k : k ≡ key = cc in let same_v : v ≡ value = cc in rw (same_k, same_v) refl
set_elem-elem_at (suc i) key value (Document.elem k v rest) e =
    ap (Document.elem k v) (set_elem-elem_at i key value rest e)

not_empty :
    (key piece : List ℕ) → same_key key piece ≡ true → is_empty piece ≡ false → is_empty key ≡ false
not_empty [] [] e h = h
not_empty [] (x ∷ xs) e h = absurd cc
not_empty (x ∷ xs) piece e h = refl

module _ {S : Type 0} (visit : S → List ℕ → Value → Visited S) (f : Value → Value)
    (setting : IsSetting f visit) where
  -- A walk that goes on, with this document.
  StaysAt : Document → Outcome (Below × S) → Type 0
  StaysAt d o = (s : S) × (o ≡ ok (stays d, s))

  visit_at-stays :
      (in_array top : Bool) (s : S) (i : ℕ) (key : List ℕ) (value : Value) (d : Document)
      → is_empty key ≡ false
      → StaysAt (set_elem i key (f value) d) (visit_at visit in_array top none s i key value d)
  unfolding visit_at StaysAt
  visit_at-stays in_array top s i key value d h = (
    (visit s key value).state,
    rw (h, setting.succeeds s key value, setting.named s key value, setting.sets s key value) refl,
  )

  walk_path-stays :
      (in_array top : Bool) (path : List (List ℕ)) (s : S) (d : Document)
      → All (λ piece. is_empty piece ≡ false) path
      → NoArrays d
      → StaysAt (replace_at path f d) (walk_path visit in_array top none path s d)
  unfolding walk_path walk_from StaysAt NoArrays
  walk_path-stays in_array top [] s d a n = (s, refl)
  walk_path-stays in_array top (piece ∷ []) s d a n = elim (locate piece (replace_below [] f) d n) [
    | absent e r ↦ (s, rw (e, r) refl)
    | present i key value e at same plain r ↦
        let v = visit_at-stays in_array top s i key value d (not_empty key piece same a.0) in
        (v.0, rw (e, at) (v.1 ∙ ap (λ x. ok (stays x, v.0)) r))
  ]
  walk_path-stays in_array top (piece ∷ next ∷ path) s d a n =
      elim (locate piece (replace_below (next ∷ path) f) d n) [
        | absent e r ↦ (s, rw (e, r) refl)
        | present i key value e at same plain r ↦
            let w =
              entered (λ sub. walk_path-stays in_array false (next ∷ path) s sub a.1) value i key at
                plain r in
            (w.0, rw (e, at) w.1)
      ]
    where
      entered :
          ((sub : Document)
            → NoArrays sub
            → StaysAt
                (replace_at (next ∷ path) f sub)
                (walk_path visit in_array false none (next ∷ path) s sub))
          → (value : Value) (i : ℕ) (key : List ℕ) → elem_at i d ≡ some (key, value)
          → IsPlain value
          → set_elem i key (replace_below (next ∷ path) f value) d
            ≡ replace_at (piece ∷ next ∷ path) f d
          → StaysAt (replace_at (piece ∷ next ∷ path) f d) (
              walk_from visit
                (walk_path visit true true none (next ∷ path))
                (walk_path visit in_array false none (next ∷ path))
                (λ j. walk_path visit in_array top (some j) (next ∷ path))
                s
                i
                key
                value
                d)
      entered below (Value.document sub) i key at plain r =
          let w = below sub plain in (w.0, rw w.1 (ap (λ x. ok (stays x, w.0)) r))
      entered below (Value.documents ds) i key at plain r = absurd plain
      entered below (Value.array vs) i key at plain r = absurd plain
      entered below (Value.interfaces vs) i key at plain r = absurd plain
      entered below _ i key at plain r =
          (s, ap (λ x. ok (stays x, s)) (sym (set_elem-elem_at i key _ d at) ∙ r))

  -- With a visitor that sets the value to a function of the old one, on a document without arrays and a
  -- path without an empty key: `BSONWalk` replaces the value at the path, where each key stands for the first
  -- element that has it, by the function's, and nothing else; where the path leads nowhere, the document
  -- stays as it was.
  pub bson_walk-replace_at :
      (path : List (List ℕ)) (s : S) (d : Document)
      → All (λ piece. is_empty piece ≡ false) path
      → NoArrays d
      → (s' : S) × (bson_walk visit path s d ≡ ok (replace_at path f d, s'))
  unfolding bson_walk StaysAt
  bson_walk-replace_at path s d a n =
      let w = walk_path-stays false true path s d a n in (w.0, rw w.1 refl)
