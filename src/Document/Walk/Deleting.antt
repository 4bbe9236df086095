-- ===== src/Document/Walk/Deleting.antt =====
-- bsonutil.go: `BSONWalkAll` with a visitor that deletes.
use mongonet.Base.{ℕ, ◌≡◌, refl, ap, ◌∙◌, List, false, Bool-cases, inl, inr, none, some}
use mongonet.Base.Errors.{Ensures, Ensures-bind}
use mongonet.Document.{Value, Document, same_key}
use mongonet.Document.Lookup.{Lacks}
use mongonet.Document.Walk.{
  delete_me, Visited, Walked, visit_elem, walk_document, walk_value, bson_walk_all,
}

-- There is no array in the document, at any depth.
unfoldable mutual
  pub NoArrays : Document → Type 0
  NoArrays Document.empty = Unit {0}
  NoArrays (Document.elem key value rest) = IsPlain value × NoArrays rest

  pub IsPlain : Value → Type 0
  IsPlain (Value.document d) = NoArrays d
  IsPlain (Value.documents ds) = ⊥
  IsPlain (Value.array vs) = ⊥
  IsPlain (Value.interfaces vs) = ⊥
  IsPlain _ = Unit {0}

-- A visitor that leaves the element as it is, and asks to delete it.
pub record IsDeleting {S : Type 0} (visit : S → List ℕ → Value → Visited S) : Type 0 where
  pub deletes : (s : S) (key : List ℕ) (value : Value) → (visit s key value).error ≡ some delete_me
  pub named : (s : S) (key : List ℕ) (value : Value) → (visit s key value).key ≡ key
  pub unset : (s : S) (key : List ℕ) (value : Value) → (visit s key value).value ≡ none

module _ {S : Type 0} (field_name : List ℕ) (visit : S → List ℕ → Value → Visited S)
    (deleting : IsDeleting visit) where
  -- The document is as it was, and deleted as a whole only where one of its own elements has the name.
  IsKept : Document → Walked S → Type 0
  IsKept d w = (w.walked ≡ d) × (Lacks d field_name → w.deleted ≡ false)

  mutual
    unfolding walk_document visit_elem IsKept NoArrays

    walk_document-IsKept :
        (s : S) (d : Document)
        → NoArrays d
        → Ensures (IsKept d) (walk_document field_name visit s d)
    walk_document-IsKept s Document.empty n = (refl, λ l. refl)
    walk_document-IsKept s (Document.elem key value rest) n =
        elim (Bool-cases (same_key key field_name)) [
          | inl h ↦
              rw
                (
                  h,
                  deleting.deletes s key value,
                  deleting.named s key value,
                  deleting.unset s key value,
                )
                (refl, λ l. absurd cc)
          | inr h ↦ rw h (
              Ensures-bind (λ r. r.0 ≡ value) (IsKept (Document.elem key value rest))
                (walk_value field_name visit s value) _ (walk_value-kept s value n.0)
                λ r e.
                  Ensures-bind (IsKept rest) (IsKept (Document.elem key value rest))
                    (walk_document field_name visit r.1 rest) _ (walk_document-IsKept r.1 rest n.1)
                    λ w k. (
                      ap (λ v. Document.elem key v w.walked) e ∙ ap (Document.elem key value) k.0,
                      λ l. k.1 l.1,
                    ))
        ]

    walk_value-kept :
        (s : S) (v : Value) → IsPlain v → Ensures (λ r. r.0 ≡ v) (walk_value field_name visit s v)
    walk_value-kept s (Value.document d) n =
        Ensures-bind (IsKept d) (λ r. r.0 ≡ Value.document d) (walk_document field_name visit s d) _
          (walk_document-IsKept s d n) λ w k. ap Value.document k.0
    walk_value-kept s (Value.documents ds) n = absurd n
    walk_value-kept s (Value.array vs) n = absurd n
    walk_value-kept s (Value.interfaces vs) n = absurd n
    walk_value-kept s _ n = refl

  -- A visitor that asks to delete each element with the field's name, and changes none itself, on a
  -- document that has no array and no such element of its own: `BSONWalkAll` ends without a panic and
  -- gives the document as it was, so that it deletes none of the elements in the nested documents.
  pub bson_walk_all-nested :
      (s : S) (d : Document)
      → NoArrays d
      → Lacks d field_name
      → Ensures (λ r. r.0 ≡ d) (bson_walk_all field_name visit s d)
  unfolding IsKept
  bson_walk_all-nested s d n l =
      Ensures-bind (IsKept d) (λ r. r.0 ≡ d) (walk_document field_name visit s d) _
        (walk_document-IsKept s d n) λ w k. rw (k.1 l) k.0
