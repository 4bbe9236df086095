-- ===== src/Tests/Paths.antt =====
-- bsonutil.go: walks along a path.
use mongonet.Base.{ℕ, suc, ◌≡◌, refl, List, [], ◌∷◌, none, some, ok, err, panic, Error}
use mongonet.Document.{Value, Document, Values, bson_index_of}
use mongonet.Document.Walk.{delete_me, Visited}
use mongonet.Document.Walk.Deleting.{NoArrays}
use mongonet.Document.Path.{walk_members, visit_at, walk_from, walk_path, bson_walk}
use mongonet.Document.Path.Setting.{IsSetting, replace_at, bson_walk-replace_at}

-- The keys "a" and "b"
abbrev key_a : List ℕ
key_a = 97 ∷ []

abbrev key_b : List ℕ
key_b = 98 ∷ []

abbrev one : List ℕ → ℕ → Document
one key n = Document.elem key (Value.int n) Document.empty

-- { a: { b: 3, a: 4 }, b: 5 }
abbrev tree : Document
tree =
    Document.elem key_a (Value.document (Document.elem key_b (Value.int 3) (one key_a 4)))
      (one key_b 5)

-- Sets each value to 0, and counts.
abbrev clear : ℕ → List ℕ → Value → Visited ℕ
clear n key value = record { key = key; value = some (Value.int 0); error = none; state = suc n }

clear-IsSetting : IsSetting (λ _. Value.int 0) clear
clear-IsSetting = record {
  succeeds = λ s key value. refl;
  named = λ s key value. refl;
  sets = λ s key value. refl;
}

bson_walk-replace_at_example :
    (s' : ℕ) × (bson_walk clear (key_a ∷ key_b ∷ []) 0 tree
      ≡ ok (replace_at (key_a ∷ key_b ∷ []) (λ _. Value.int 0) tree, s'))
unfolding NoArrays
bson_walk-replace_at_example =
    bson_walk-replace_at clear (λ _. Value.int 0) clear-IsSetting (key_a ∷ key_b ∷ []) 0 tree
      (refl, (refl, tt)) ((tt, (tt, tt)), (tt, tt))

abbrev drop_it : ℕ → List ℕ → Value → Visited ℕ
drop_it n key value = record { key = key; value = none; error = some delete_me; state = n }

-- Deleting a.b leaves { a: { a: 4 }, b: 5 }.
deleted_below :
    bson_walk drop_it (key_a ∷ key_b ∷ []) 0 tree
    ≡ ok (Document.elem key_a (Value.document (one key_a 4)) (one key_b 5), 0)
unfolding bson_walk walk_path walk_from visit_at bson_index_of
deleted_below = refl

-- An empty array beside an element with the next key: the walk of a.b on { a: [], b: 5 } visits b itself.
abbrev beside_array : Document
beside_array = Document.elem key_a (Value.array Values.no_values) (one key_b 5)

visited_beside :
    bson_walk clear (key_a ∷ key_b ∷ []) 0 beside_array
    ≡ ok (Document.elem key_a (Value.array Values.no_values) (one key_b 0), 1)
unfolding bson_walk walk_path walk_from visit_at bson_index_of
visited_beside = refl

-- Deleting it puts the shortened document into its own element a.
entangled_beside : bson_walk drop_it (key_a ∷ key_b ∷ []) 0 beside_array ≡ err Error.contains_itself
unfolding bson_walk walk_path walk_from visit_at bson_index_of
entangled_beside = refl

-- { a: [ { b: 3 }, 7 ] }
abbrev mixed : Document
mixed =
    Document.elem key_a
      (Value.array (
        Values.a_value (Value.document (one key_b 3))
          (Values.a_value (Value.int 7) Values.no_values)))
      Document.empty

-- A deletion in an array with a member that is no document panics.
deleted_mixed : bson_walk drop_it (key_a ∷ key_b ∷ []) 0 mixed ≡ panic
unfolding bson_walk walk_path walk_from walk_members visit_at bson_index_of
deleted_mixed = refl
