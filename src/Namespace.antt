-- ===== src/Namespace.antt =====
-- namespace.go: the parts of a namespace, "db.collection". A string is the list of its bytes.
pub mod Parts
use mongonet.Base.{
  ℕ, zero, suc, ◌+◌, ◌≤◌, ◌≡◌, ◌≢◌, ◌↔◌, refl, sym, ap, ◌∙◌, List, [], ◌∷◌, ◌++◌, Bool, true, false,
  ◌==◌, ==_iff, leb, if◌then◌else◌, Option, none, some, All, length, take, drop, arith, Outcome, ok,
  panic,
}
use mathlib.Core.Option
use mongonet.Base.Errors.{◌>>=◌}
use mongonet.Bytes.{slice_from, slice_to}

-- '.' and '$'
abbrev pub dot : ℕ
dot = 46

abbrev pub dollar : ℕ
dollar = 36

-- `strings.IndexByte(ns, '.')`, none for -1
unfoldable pub index_dot : List ℕ → Option ℕ
index_dot [] = none
index_dot (b ∷ bs) = let rest = index_dot bs in if b == dot then some 0 else Option.map suc rest

unfoldable pub byte_at : List ℕ → ℕ → Outcome ℕ
byte_at [] n = panic
byte_at (b ∷ bs) zero = ok b
byte_at (b ∷ bs) (suc n) = byte_at bs n

abbrev pub is_command_at : List ℕ → Option ℕ → Outcome Bool
is_command_at ns none = ok false
is_command_at ns (some idx) =
    if leb (length ns) (idx + 1) then ok false else byte_at ns (idx + 1) >>= λ b. ok (b == dollar)

-- `NamespaceIsCommand`
unfoldable pub namespace_is_command : List ℕ → Outcome Bool
namespace_is_command ns = is_command_at ns (index_dot ns)

abbrev pub to_db_at : List ℕ → Option ℕ → Outcome (List ℕ)
to_db_at ns none = ok ns
to_db_at ns (some idx) = slice_to ns idx

-- `NamespaceToDB`
unfoldable pub namespace_to_db : List ℕ → Outcome (List ℕ)
namespace_to_db ns = to_db_at ns (index_dot ns)

abbrev pub to_collection_at : List ℕ → Option ℕ → Outcome (List ℕ)
to_collection_at ns none = ok []
to_collection_at ns (some idx) = slice_from ns (idx + 1)

-- `NamespaceToCollection`
unfoldable pub namespace_to_collection : List ℕ → Outcome (List ℕ)
namespace_to_collection ns = to_collection_at ns (index_dot ns)
