-- ===== src/Document/Walk.antt =====
-- bsonutil.go: `BSONWalkAll`. A document's slice is changed in place: the walk gives what the slice of
-- its argument holds afterwards, which is what the caller still has, and whether it returned nil.
-- The visitor, with its own state, is a parameter; it changes the element it is given, and nothing inside
-- of the old value.
pub mod Rewriting
pub mod Deleting
use mongonet.Base.{
  ℕ, ◌≡◌, List, Bool, true, false, if◌then◌else◌, Option, none, some, Outcome, ok, err, Error,
}
use mongonet.Base.Errors.{◌>>=◌}
use mongonet.Document.{Value, Document, Documents, Values, same_key}

-- What `Visit` returns: DELETE_ME, or another error.
pub data VisitError : Type 0 where
  delete_me failed : VisitError

-- The element after `Visit`: its key, its value where that was set, and the error.
pub record Visited (S : Type 0) : Type 0 where
  pub key : List ℕ
  pub value : Option Value
  pub error : Option VisitError
  pub state : S

-- `walked` is the slice of the argument afterwards; the result is nil where `deleted` holds.
pub record Walked (S : Type 0) : Type 0 where
  pub walked : Document
  pub deleted : Bool
  pub state : S

-- The result of a walk, with nil as the empty document.
abbrev pub result : {S : Type 0} → Walked S → Document
result w = if w.deleted then Document.empty else w.walked

abbrev pub value_or : Value → Option Value → Value
value_or v none = v
value_or v (some new) = new

-- Behind `Visit`: DELETE_ME ends the walk with nil, another error with an error.
abbrev pub after_visit :
    {S : Type 0} → Option VisitError → Walked S → Outcome (Walked S) → Outcome (Walked S)
after_visit none here next = next
after_visit (some delete_me) here next = ok here
after_visit (some failed) here next = err Error.visit_failed

module _ {S : Type 0} (field_name : List ℕ) (visit : S → List ℕ → Value → Visited S) where
  -- `if elem.Key == fieldName { visitor.Visit(elemDoc) }`
  unfoldable pub visit_elem : S → List ℕ → Value → Visited S
  visit_elem s key value =
      if same_key key field_name
      then visit s key value
      else record { key = key; value = none; error = none; state = s }

  -- The old value of an element is walked, also where the visitor has set a new one.
  unfoldable mutual
    pub walk_document : S → Document → Outcome (Walked S)
    walk_document s Document.empty =
        ok (record { walked = Document.empty; deleted = false; state = s })
    walk_document s (Document.elem key value rest) =
        let v = visit_elem s key value in
        after_visit v.error
          (record {
            walked = Document.elem v.key (value_or value v.value) rest;
            deleted = true;
            state = v.state;
          })
          (walk_value v.state value >>= λ (value', s1). walk_document s1 rest >>= λ w.
            ok (record w { walked = Document.elem v.key (value_or value' v.value) w.walked }))

    -- The switch on the type of an element's value. The result of a nested document is not stored.
    pub walk_value : S → Value → Outcome (Value × S)
    walk_value s (Value.document d) =
        walk_document s d >>= λ w. ok (Value.document w.walked, w.state)
    walk_value s (Value.documents ds) =
        walk_documents s ds >>= λ (ds', s1). ok (Value.documents ds', s1)
    walk_value s (Value.array vs) = walk_values s vs >>= λ (vs', s1). ok (Value.array vs', s1)
    walk_value s (Value.interfaces vs) =
        walk_values s vs >>= λ (vs', s1). ok (Value.interfaces vs', s1)
    walk_value s v = ok (v, s)

    pub walk_documents : S → Documents → Outcome (Documents × S)
    walk_documents s Documents.no_documents = ok (Documents.no_documents, s)
    walk_documents s (Documents.a_document d ds) = walk_document s d >>= λ w.
        walk_documents w.state ds >>= λ (ds', s1). ok (Documents.a_document (result w) ds', s1)

    pub walk_values : S → Values → Outcome (Values × S)
    walk_values s Values.no_values = ok (Values.no_values, s)
    walk_values s (Values.a_value v vs) = walk_item s v >>= λ (v', s1).
        walk_values s1 vs >>= λ (vs', s2). ok (Values.a_value v' vs', s2)

    -- A member of an array is walked if it is a document.
    pub walk_item : S → Value → Outcome (Value × S)
    walk_item s (Value.document d) =
        walk_document s d >>= λ w. ok (Value.document (result w), w.state)
    walk_item s v = ok (v, s)

  -- `BSONWalkAll`
  abbrev pub bson_walk_all : S → Document → Outcome (Document × S)
  bson_walk_all s d = walk_document s d >>= λ w. ok (result w, w.state)
