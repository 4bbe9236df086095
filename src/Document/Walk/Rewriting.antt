-- ===== src/Document/Walk/Rewriting.antt =====
-- bsonutil.go: `BSONWalkAll` with a visitor that sets values, such as one that hides them.
use mongonet.Base.{
  ℕ, ◌≡◌, ◌≢◌, refl, ap, List, [], ◌∷◌, Bool, true, false, Bool-cases, inl, inr, Option, none, some,
  Outcome,
}
use mongonet.Base.Errors.{Ensures, Ensures-bind}
use mongonet.Document.{Value, Document, Documents, Values, same_key}
use mongonet.Document.Walk.{
  VisitError, delete_me, failed, Visited, Walked, result, value_or, after_visit, visit_elem,
  walk_document, walk_value, walk_documents, walk_values, walk_item, bson_walk_all,
}

-- One of two conditions, by a test.
abbrev pub At : Bool → Type 0 → Type 0 → Type 0
At true there elsewhere = there
At false there elsewhere = elsewhere

module _ (field_name : List ℕ) (P : Value → Type 0) where
  -- Each element with the key, at any depth but below another such element, has a value with `P`.
  unfoldable mutual
    pub InDocument : Document → Type 0
    InDocument Document.empty = Unit {0}
    InDocument (Document.elem key value rest) =
        At (same_key key field_name) (P value) (InValue value) × InDocument rest

    pub InValue : Value → Type 0
    InValue (Value.document d) = InDocument d
    InValue (Value.documents ds) = InDocuments ds
    InValue (Value.array vs) = InValues vs
    InValue (Value.interfaces vs) = InValues vs
    InValue _ = Unit {0}

    pub InDocuments : Documents → Type 0
    InDocuments Documents.no_documents = Unit {0}
    InDocuments (Documents.a_document d ds) = InDocument d × InDocuments ds

    pub InValues : Values → Type 0
    InValues Values.no_values = Unit {0}
    InValues (Values.a_value v vs) = InItem v × InValues vs

    pub InItem : Value → Type 0
    InItem (Value.document d) = InDocument d
    InItem _ = Unit {0}

abbrev pub SetTo : (Value → Type 0) → Option Value → Type 0
SetTo P none = ⊥
SetTo P (some v) = P v

-- A visitor that does not ask to delete an element, keeps its key, and, without an error, sets a value
-- with `P`.
pub record IsRewriting {S : Type 0} (field_name : List ℕ) (P : Value → Type 0)
    (visit : S → List ℕ → Value → Visited S) : Type 0 where
  pub kept : (s : S) (key : List ℕ) (value : Value) → (visit s key value).error ≢ some delete_me
  pub named : (s : S) (key : List ℕ) (value : Value) → (visit s key value).key ≡ key
  pub set :
      (s : S) (key : List ℕ) (value : Value)
      → (visit s key value).error ≡ none
      → SetTo P ((visit s key value).value)

-- The keys of a document, in order.
abbrev pub keys : Document → List (List ℕ)
keys Document.empty = []
keys (Document.elem key value rest) = key ∷ keys rest

Ensures-after_visit :
    {S : Type 0} (Q : Walked S → Type 0) (e : Option VisitError) (here : Walked S)
    (next : Outcome (Walked S))
    → e ≢ some delete_me
    → (e ≡ none → Ensures Q next)
    → Ensures Q (after_visit e here next)
Ensures-after_visit Q none here next k h = h refl
Ensures-after_visit Q (some delete_me) here next k h = absurd (k refl)
Ensures-after_visit Q (some failed) here next k h = tt

none-some : ◌≢◌ {A = Option VisitError} none (some delete_me)
none-some e = cc

module _ {S : Type 0} (field_name : List ℕ) (P : Value → Type 0)
    (visit : S → List ℕ → Value → Visited S) (rewriting : IsRewriting field_name P visit) where
  -- What the visit of an element leaves, once its old value is walked.
  record IsVisited (key : List ℕ) (v : Visited S) : Type 0 where
    kept : v.error ≢ some delete_me
    named : v.key ≡ key
    set :
        v.error ≡ none
        → (value : Value) → InValue field_name P value
        → At
            (same_key key field_name)
            (P (value_or value v.value))
            (InValue field_name P (value_or value v.value))

  value_or-SetTo : (o : Option Value) (value : Value) → SetTo P o → P (value_or value o)
  value_or-SetTo none value h = absurd h
  value_or-SetTo (some v) value h = h

  visit_elem-IsVisited :
      (s : S) (key : List ℕ) (value : Value)
      → IsVisited key (visit_elem field_name visit s key value)
  unfolding visit_elem
  visit_elem-IsVisited s key value = elim (Bool-cases (same_key key field_name)) [
    | inl h ↦ rw h (record {
      kept = rewriting.kept s key value;
      named = rewriting.named s key value;
      set = λ e value' w. rw h (value_or-SetTo _ value' (rewriting.set s key value e));
    })
    | inr h ↦ rw h (record { kept = none-some; named = refl; set = λ e value' w. rw h w })
  ]

  IsRewritten : Document → Walked S → Type 0
  IsRewritten d w =
      (w.deleted ≡ false) × InDocument field_name P w.walked × (keys w.walked ≡ keys d)

  result-InDocument :
      (d : Document) (w : Walked S) → IsRewritten d w → InDocument field_name P (result w)
  unfolding IsRewritten
  result-InDocument d w (e, i, k) = rw e i

  elem-IsRewritten :
      (key key' : List ℕ) (value old : Value) (rest : Document) (w : Walked S)
      → key' ≡ key
      → At (same_key key field_name) (P value) (InValue field_name P value)
      → IsRewritten rest w
      → IsRewritten
          (Document.elem key old rest)
          (record w { walked = Document.elem key' value w.walked })
  unfolding IsRewritten InDocument
  elem-IsRewritten key key' value old rest w e a (d, i, k) = rw e (d, (a, i), ap (λ ks. key ∷ ks) k)

  mutual
    unfolding walk_document InDocument IsRewritten

    walk_document-IsRewritten :
        (s : S) (d : Document) → Ensures (IsRewritten d) (walk_document field_name visit s d)
    walk_document-IsRewritten s Document.empty = (refl, tt, refl)
    walk_document-IsRewritten s (Document.elem key value rest) =
        let v = visit_elem field_name visit s key value in
        let h = visit_elem-IsVisited s key value in
        let Q = IsRewritten (Document.elem key value rest) in
        Ensures-after_visit Q v.error _ _ h.kept (λ e.
          Ensures-bind (λ r. InValue field_name P r.0) Q (walk_value field_name visit v.state value)
            _ (walk_value-InValue v.state value)
            λ r i.
              Ensures-bind (IsRewritten rest) Q (walk_document field_name visit r.1 rest) _
                (walk_document-IsRewritten r.1 rest)
                λ w j.
                  elem-IsRewritten key v.key (value_or r.0 v.value) value rest w h.named
                    (h.set e r.0 i) j)

    walk_value-InValue :
        (s : S) (v : Value)
        → Ensures (λ r. InValue field_name P r.0) (walk_value field_name visit s v)
    walk_value-InValue s (Value.document d) =
        Ensures-bind (IsRewritten d) (λ r. InValue field_name P r.0)
          (walk_document field_name visit s d) _ (walk_document-IsRewritten s d) λ w j. j.1
    walk_value-InValue s (Value.documents ds) =
        Ensures-bind (λ r. InDocuments field_name P r.0) (λ r. InValue field_name P r.0)
          (walk_documents field_name visit s ds) _ (walk_documents-InDocuments s ds) λ r i. i
    walk_value-InValue s (Value.array vs) =
        Ensures-bind (λ r. InValues field_name P r.0) (λ r. InValue field_name P r.0)
          (walk_values field_name visit s vs) _ (walk_values-InValues s vs) λ r i. i
    walk_value-InValue s (Value.interfaces vs) =
        Ensures-bind (λ r. InValues field_name P r.0) (λ r. InValue field_name P r.0)
          (walk_values field_name visit s vs) _ (walk_values-InValues s vs) λ r i. i
    walk_value-InValue s _ = tt

    walk_documents-InDocuments :
        (s : S) (ds : Documents)
        → Ensures (λ r. InDocuments field_name P r.0) (walk_documents field_name visit s ds)
    walk_documents-InDocuments s Documents.no_documents = tt
    walk_documents-InDocuments s (Documents.a_document d ds) =
        let Q : Documents × S → Type 0 = λ r. InDocuments field_name P r.0 in
        Ensures-bind (IsRewritten d) Q (walk_document field_name visit s d) _
          (walk_document-IsRewritten s d)
          λ w j.
            Ensures-bind Q Q (walk_documents field_name visit w.state ds) _
              (walk_documents-InDocuments w.state ds) λ r i. (result-InDocument d w j, i)

    walk_values-InValues :
        (s : S) (vs : Values)
        → Ensures (λ r. InValues field_name P r.0) (walk_values field_name visit s vs)
    walk_values-InValues s Values.no_values = tt
    walk_values-InValues s (Values.a_value v vs) =
        let Q : Values × S → Type 0 = λ r. InValues field_name P r.0 in
        Ensures-bind (λ r. InItem field_name P r.0) Q (walk_item field_name visit s v) _
          (walk_item-InItem s v)
          λ r j.
            Ensures-bind Q Q (walk_values field_name visit r.1 vs) _ (walk_values-InValues r.1 vs)
              λ r' i. (j, i)

    walk_item-InItem :
        (s : S) (v : Value)
        → Ensures (λ r. InItem field_name P r.0) (walk_item field_name visit s v)
    walk_item-InItem s (Value.document d) =
        Ensures-bind (IsRewritten d) (λ r. InItem field_name P r.0)
          (walk_document field_name visit s d) _ (walk_document-IsRewritten s d)
          λ w j. result-InDocument d w j
    walk_item-InItem s _ = tt

  -- With a visitor that never asks to delete an element, keeps its key, and sets its value to one with
  -- `P` unless it gives an error: `BSONWalkAll` ends without a panic, and where it gives no error, the
  -- document has the keys that it had, in order, and each of its elements with the field's name has a
  -- value with `P`, as have those in its nested documents and in the documents of its arrays, at any depth
  -- that is not below another such element.
  pub bson_walk_all-InDocument :
      (s : S) (d : Document)
      → Ensures
          (λ r. InDocument field_name P r.0 × (keys r.0 ≡ keys d))
          (bson_walk_all field_name visit s d)
  unfolding IsRewritten
  bson_walk_all-InDocument s d =
      Ensures-bind (IsRewritten d) (λ r. InDocument field_name P r.0 × (keys r.0 ≡ keys d))
        (walk_document field_name visit s d) _ (walk_document-IsRewritten s d)
        λ w h. (result-InDocument d w h, rw h.0 h.2)
