-- ===== src/Tests/Walks.antt =====
-- bsonutil.go: walks over documents.
use mongonet.Base.{ℕ, suc, ◌≡◌, ◌≢◌, refl, List, [], ◌∷◌, Option, none, some, ok}
use mongonet.Base.Errors.{Ensures}
use mongonet.Document.{Value, Document, Values}
use mongonet.Document.Walk.{
  VisitError, delete_me, Visited, bson_walk_all, walk_document, visit_elem,
}
use mongonet.Document.Walk.Rewriting.{InDocument, IsRewriting, keys, bson_walk_all-InDocument}
use mongonet.Document.Walk.Deleting.{NoArrays, IsDeleting, bson_walk_all-nested}
use mongonet.Tests.Data.{name}

abbrev pwd : List ℕ
pwd = 112 ∷ 119 ∷ 100 ∷ []

-- Sets each value to 0, and counts.
abbrev hide : ℕ → List ℕ → Value → Visited ℕ
hide n key value = record { key = key; value = some (Value.int 0); error = none; state = suc n }

none-some : ◌≢◌ {A = Option VisitError} none (some delete_me)
none-some e = cc

hide-IsRewriting : IsRewriting pwd (λ v. v ≡ Value.int 0) hide
hide-IsRewriting = record {
  kept = λ s key value. none-some;
  named = λ s key value. refl;
  set = λ s key value e. refl;
}

-- { "a.b": { pwd: 3 } }
abbrev nested : Document
nested =
    Document.elem name (Value.document (Document.elem pwd (Value.int 3) Document.empty))
      Document.empty

-- { pwd: 4, "a.b": [ { pwd: 3 } ] }
abbrev listed : Document
listed = Document.elem pwd (Value.int 4) (
    Document.elem name
      (Value.array (
        Values.a_value (Value.document (Document.elem pwd (Value.int 3) Document.empty))
          Values.no_values))
      Document.empty)

bson_walk_all-InDocument_example :
    Ensures
      (λ r. InDocument pwd (λ v. v ≡ Value.int 0) r.0 × (keys r.0 ≡ keys listed))
      (bson_walk_all pwd hide 0 listed)
bson_walk_all-InDocument_example =
    bson_walk_all-InDocument pwd (λ v. v ≡ Value.int 0) hide hide-IsRewriting 0 listed

-- Two elements are visited.
listed_walk :
    bson_walk_all pwd hide 0 listed
    ≡ ok (
      Document.elem pwd (Value.int 0) (
          Document.elem name
            (Value.array (
              Values.a_value
                (Value.document (Document.elem pwd (Value.int 0) Document.empty))
                Values.no_values))
            Document.empty),
      2,
    )
unfolding walk_document visit_elem
listed_walk = refl

abbrev drop_it : ℕ → List ℕ → Value → Visited ℕ
drop_it n key value = record { key = key; value = none; error = some delete_me; state = n }

drop_it-IsDeleting : IsDeleting drop_it
drop_it-IsDeleting = record {
  deletes = λ s key value. refl;
  named = λ s key value. refl;
  unset = λ s key value. refl;
}

bson_walk_all-nested_example : Ensures (λ r. r.0 ≡ nested) (bson_walk_all pwd drop_it 0 nested)
unfolding NoArrays
bson_walk_all-nested_example =
    bson_walk_all-nested pwd drop_it drop_it-IsDeleting 0 nested ((tt, tt), tt) (refl, tt)
