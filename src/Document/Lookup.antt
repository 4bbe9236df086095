-- ===== src/Document/Lookup.antt =====
-- Where a key stands in a document.
use mongonet.Base.{ℕ, zero, suc, ◌≡◌, List, true, false, Bool-cases, inl, inr, Option, none, some}
use mongonet.Document.{Value, Document, same_key, bson_index_of}

-- No element has the key.
abbrev pub Lacks : Document → List ℕ → Type 0
Lacks Document.empty name = Unit {0}
Lacks (Document.elem k v rest) name = (same_key k name ≡ false) × Lacks rest name

-- The element at a position has the key, and no earlier one does.
abbrev pub FirstAt : Document → List ℕ → ℕ → Type 0
FirstAt Document.empty name i = ⊥
FirstAt (Document.elem k v rest) name zero = same_key k name ≡ true
FirstAt (Document.elem k v rest) name (suc i) = (same_key k name ≡ false) × FirstAt rest name i

-- An answer of `BSONIndexOf`: the first position of the key, or none where no element has it.
abbrev pub IsIndex : Document → List ℕ → Option ℕ → Type 0
IsIndex d name none = Lacks d name
IsIndex d name (some i) = FirstAt d name i

later-IsIndex :
    (k : List ℕ) (v : Value) (rest : Document) (name : List ℕ) (o : Option ℕ)
    → same_key k name ≡ false
    → IsIndex rest name o
    → IsIndex (Document.elem k v rest) name (elim o [ none ↦ none | some i ↦ some (suc i) ])
later-IsIndex k v rest name none h l = (h, l)
later-IsIndex k v rest name (some i) h l = (h, l)

-- `BSONIndexOf` gives the first position of the key in the document, and -1 only where no element of
-- it has that key.
pub bson_index_of-IsIndex : (d : Document) (name : List ℕ) → IsIndex d name (bson_index_of d name)
unfolding bson_index_of
bson_index_of-IsIndex Document.empty name = tt
bson_index_of-IsIndex (Document.elem k v rest) name = elim (Bool-cases (same_key k name)) [
  | inl h ↦ rw h h
  | inr h ↦ rw h (later-IsIndex k v rest name _ h (bson_index_of-IsIndex rest name))
]
