-- ===== src/Namespace/Parts.antt =====
-- What the three functions on a namespace give, from one cut of it at the first dot.
use mathlib.Core.Option
use mongonet.Base.{
  ℕ, suc, ◌+◌, ◌≤◌, ◌<◌, ◌≡◌, ◌≢◌, ◌⊎◌, inl, inr, refl, sym, ap, ◌∙◌, List, [], ◌∷◌, ◌++◌,
  append_assoc, Bool, true, false, Bool-cases, ◌==◌, ==_iff, leb, if◌then◌else◌, none, some, All,
  length, length-append, take-append, arith, ok,
}
use mongonet.Bytes.{slice_from, slice_to}
use mongonet.Bytes.Read.{slice_from-append}
use mongonet.Namespace.{
  dot, dollar, index_dot, byte_at, is_command_at, namespace_is_command, to_db_at, namespace_to_db,
  to_collection_at, namespace_to_collection,
}

abbrev pub NoDot : List ℕ → Type 0
NoDot s = All (λ b. b ≢ dot) s

abbrev pub starts_with_dollar : List ℕ → Bool
starts_with_dollar [] = false
starts_with_dollar (b ∷ bs) = b == dollar

-- A string cut at its first dot, if it has one.
data Cut (ns : List ℕ) : Type 0 where
  whole : NoDot ns → index_dot ns ≡ none → Cut ns
  at_dot :
      (db coll : List ℕ)
      → NoDot db
      → ns ≡ db ++ (dot ∷ coll)
      → index_dot ns ≡ some (length db)
      → Cut ns

other : (a b : ℕ) → (a == b) ≡ false → a ≢ b
other a b h = λ e. apart a b h e
  where
    apart : (a b : ℕ) → (a == b) ≡ false → a ≢ b
    apart a b h e = ground arith

index_dot-false :
    (b : ℕ) (bs : List ℕ) → (b == dot) ≡ false → index_dot (b ∷ bs) ≡ Option.map suc (index_dot bs)
unfolding index_dot
index_dot-false b bs h = rw h

cut : (ns : List ℕ) → Cut ns
unfolding index_dot
cut [] = Cut.whole tt refl
cut (b ∷ bs) = elim (Bool-cases (b == dot)) [
  | inl h ↦
      Cut.at_dot [] bs tt (ap (λ x. x ∷ bs) ((==_iff b dot).0 h))
        (ap (λ t. if t then some 0 else Option.map suc (index_dot bs)) h)
  | inr h ↦ elim (cut bs) [
    | whole n e ↦ Cut.whole (other b dot h, n) (index_dot-false b bs h ∙ ap (Option.map suc) e)
    | at_dot db coll n s e ↦
        Cut.at_dot (b ∷ db) coll (other b dot h, n) (ap (λ t. b ∷ t) s)
          (index_dot-false b bs h ∙ ap (Option.map suc) e)
  ]
]

fits : (a b : ℕ) → a ≤ b → leb a b ≡ true
fits a b l = ground arith

longer : (a b : ℕ) → b < a → leb a b ≡ false
longer a b l = ground arith

slice_to-append : (x y : List ℕ) → slice_to (x ++ y) (length x) ≡ ok x
unfolding slice_to
slice_to-append x y = rw (
  fits (length x) (length (x ++ y)) (omega (arith, length-append x y)),
  take-append (length x) x y refl,
)

byte_at-second :
    (db : List ℕ) (a b : ℕ) (t : List ℕ) → byte_at (db ++ (a ∷ b ∷ t)) (suc (length db)) ≡ ok b
unfolding byte_at
byte_at-second [] a b t = refl
byte_at-second (x ∷ db) a b t = byte_at-second db a b t

starts_at :
    (db coll : List ℕ)
    → is_command_at (db ++ (dot ∷ coll)) (some (length db)) ≡ ok (starts_with_dollar coll)
starts_at db [] =
    rw (
      fits (length (db ++ (dot ∷ []))) (length db + 1) (omega (arith, length-append db (dot ∷ []))))
starts_at db (c ∷ cs) = rw (
  longer (length (db ++ (dot ∷ c ∷ cs))) (length db + 1)
      (omega (arith, length-append db (dot ∷ c ∷ cs))),
  byte_at_next,
)
  where
    byte_at_next : byte_at (db ++ (dot ∷ c ∷ cs)) (length db + 1) ≡ ok c
    byte_at_next =
        let one : length db + 1 ≡ suc (length db) = omega arith in
        ap (byte_at (db ++ (dot ∷ c ∷ cs))) one ∙ byte_at-second db dot c cs

-- A namespace is a database name without a dot, or that followed by a dot and a collection name (which
-- may have dots itself). `NamespaceToDB` and `NamespaceToCollection` give these parts, no collection
-- where there is no dot, and `NamespaceIsCommand` tells whether the collection name starts with '$'.
-- None of them panics.
pub namespace-parts :
    (ns : List ℕ)
    → (NoDot ns
        × (namespace_to_db ns ≡ ok ns)
        × (namespace_to_collection ns ≡ ok [])
        × (namespace_is_command ns ≡ ok false))
      ⊎ ((db : List ℕ) × (coll : List ℕ) × (ns ≡ db ++ (dot ∷ coll))
          × NoDot db
          × (namespace_to_db ns ≡ ok db)
          × (namespace_to_collection ns ≡ ok coll)
          × (namespace_is_command ns ≡ ok (starts_with_dollar coll)))
unfolding namespace_to_db namespace_to_collection namespace_is_command
namespace-parts ns = elim (cut ns) [
  | whole n e ↦ inl (n, ap (to_db_at ns) e, ap (to_collection_at ns) e, ap (is_command_at ns) e)
  | at_dot db coll n s e ↦ inr (
    db,
    coll,
    s,
    n,
    (ap (to_db_at ns) e ∙ ap (λ x. slice_to x (length db)) s ∙ slice_to-append db (dot ∷ coll)),
    (ap (to_collection_at ns) e
        ∙ ap (λ x. slice_from x (length db + 1)) s
        ∙ ap (λ x. slice_from x (length db + 1)) (sym (append_assoc db (dot ∷ []) coll))
        ∙ slice_from-append (db ++ (dot ∷ [])) coll (length db + 1)
            (omega (arith, length-append db (dot ∷ [])))),
    (ap (is_command_at ns) e ∙ ap (λ x. is_command_at x (some (length db))) s ∙ starts_at db coll),
  )
]
