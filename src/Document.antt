-- ===== src/Document.antt =====
-- bsonutil.go on bson.D, the driver's ordered documents: looking up a key, and the getters. A value
-- has the Go type of its constructor; a float64 is its bit pattern.
pub mod Lookup
pub mod Walk
pub mod Path
use mongonet.Base.{
  ℕ, zero, suc, ◌+◌, ◌%◌, ◌^◌, ◌≡◌, List, [], ◌∷◌, Bool, true, false, not, ◌&&◌, ◌==◌,
  if◌then◌else◌, Option, none, some, Outcome, ok, err, Error,
}
use mongonet.Base.Errors.{◌>>=◌}
use mongonet.Word.{int_of}

-- bson.D, a list of bson.E, with []bson.D and the slices of values (primitive.A, []interface{}).
mutual
  pub data Value : Type 0 where
    string : List ℕ → Value
    int : ℕ → Value
    int32 : ℕ → Value
    int64 : ℕ → Value
    float64 : ℕ → Value
    bool : Bool → Value
    document : Document → Value
    documents : Documents → Value
    array : Values → Value
    interfaces : Values → Value
    other : ℕ → Value

  pub data Document : Type 0 where
    empty : Document
    elem : List ℕ → Value → Document → Document

  pub data Documents : Type 0 where
    no_documents : Documents
    a_document : Document → Documents → Documents

  pub data Values : Type 0 where
    no_values : Values
    a_value : Value → Values → Values

-- `==` on strings
abbrev pub same_key : List ℕ → List ℕ → Bool
same_key [] [] = true
same_key [] (y ∷ ys) = false
same_key (x ∷ xs) [] = false
same_key (x ∷ xs) (y ∷ ys) = (x == y) && same_key xs ys

-- `BSONIndexOf`, none for -1
unfoldable pub bson_index_of : Document → List ℕ → Option ℕ
bson_index_of Document.empty name = none
bson_index_of (Document.elem key value rest) name =
    let later = bson_index_of rest name in
    if same_key key name then some 0 else elim later [ none ↦ none | some i ↦ some (suc i) ]

-- `append(doc, bson.E{key, value})`
unfoldable pub append_elem : Document → List ℕ → Value → Document
append_elem Document.empty key value = Document.elem key value Document.empty
append_elem (Document.elem k v rest) key value = Document.elem k v (append_elem rest key value)

-- `GetAsString`. The getters' second result, the name of the Go type, is left out.
unfoldable pub get_as_string : Value → Outcome (List ℕ)
get_as_string (Value.string s) = ok s
get_as_string _ = err Error.not_string

-- `getAsBsonDocsArray`
unfoldable pub get_as_bson_docs_array : Values → Outcome Documents
get_as_bson_docs_array Values.no_values = ok Documents.no_documents
get_as_bson_docs_array (Values.a_value (Value.document d) rest) = do
  docs ← get_as_bson_docs_array rest
  ok (Documents.a_document d docs)
get_as_bson_docs_array (Values.a_value _ rest) = err Error.not_bson

-- `GetAsBSON`
unfoldable pub get_as_bson : Value → Outcome Document
get_as_bson (Value.document d) = ok d
get_as_bson _ = err Error.not_bson

-- `GetAsBSONDocs`
unfoldable pub get_as_bson_docs : Value → Outcome Documents
get_as_bson_docs (Value.documents docs) = ok docs
get_as_bson_docs (Value.array vs) = get_as_bson_docs_array vs
get_as_bson_docs (Value.interfaces vs) = get_as_bson_docs_array vs
get_as_bson_docs _ = err Error.not_array

-- `truncate` is Go's conversion of a float64 to an int, `is_zero` its comparison with 0.0.
module _ (truncate : ℕ → ℕ) (is_zero : ℕ → Bool) where
  -- `GetAsInt`
  unfoldable pub get_as_int : Value → Outcome ℕ
  get_as_int (Value.int n) = ok n
  get_as_int (Value.int32 n) = ok (int_of n)
  get_as_int (Value.int64 n) = ok n
  get_as_int (Value.float64 f) = ok (truncate f)
  get_as_int _ = err Error.not_number

  -- `GetAsBool`
  unfoldable pub get_as_bool : Value → Outcome Bool
  get_as_bool (Value.bool b) = ok b
  get_as_bool (Value.int n) = ok (not (n == 0))
  get_as_bool (Value.int32 n) = ok (not (int_of n == 0))
  get_as_bool (Value.int64 n) = ok (not (n == 0))
  get_as_bool (Value.float64 f) = ok (not (is_zero f))
  get_as_bool _ = err Error.not_bool
