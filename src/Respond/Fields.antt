-- ===== src/Respond/Fields.antt =====
-- session.go: the document that `RespondToCommandMakeBSON` puts together.
use mathlib.Core.Bool.{false≢true}
use mongonet.Base.{
  ℕ, ◌≡◌, ◌⊎◌, inl, inr, refl, sym, ap, ◌∙◌, List, [], ◌∷◌, Bool, true, false, ◌||◌,
}
use mongonet.Base.Errors.{Ensures, Ensures-bind, Ensures-if, Ensures-mono}
use mongonet.Document.{Value, Document, same_key, append_elem}
use mongonet.Respond.{key_ok, pairs_loop, is_odd, with_ok, make_bson}

-- The elements that the arguments name, in order.
abbrev pub pairs_of : List Value → Document
pairs_of (Value.string name ∷ value ∷ rest) = Document.elem name value (pairs_of rest)
pairs_of (_ ∷ _ ∷ rest) = pairs_of rest
pairs_of _ = Document.empty

abbrev pub concat : Document → Document → Document
concat Document.empty e = e
concat (Document.elem k v d) e = Document.elem k v (concat d e)

abbrev pub has_key : Document → List ℕ → Bool
has_key Document.empty name = false
has_key (Document.elem k v rest) name = same_key k name || has_key rest name

concat-append_elem :
    (d : Document) (k : List ℕ) (v : Value) (e : Document)
    → concat (append_elem d k v) e ≡ concat d (Document.elem k v e)
unfolding append_elem
concat-append_elem Document.empty k v e = refl
concat-append_elem (Document.elem k' v' d) k v e =
    ap (Document.elem k' v') (concat-append_elem d k v e)

or_assoc : (a b c : Bool) → ((a || b) || c) ≡ (a || (b || c))
or_assoc true b c = refl
or_assoc false b c = refl

or_false : (a : Bool) → (a || false) ≡ a
or_false true = refl
or_false false = refl

concat-empty : (d : Document) → concat d Document.empty ≡ d
concat-empty Document.empty = refl
concat-empty (Document.elem k v d) = ap (Document.elem k v) (concat-empty d)

-- The loop has read all pairs.
abbrev IsRead : List Value → Document → Bool → Document × Bool → Type 0
IsRead args doc got r =
    (r.0 ≡ concat doc (pairs_of args)) × (r.1 ≡ (got || has_key (pairs_of args) key_ok))

pairs_loop-Ensures :
    (args : List Value) (doc : Document) (got : Bool)
    → is_odd args ≡ false
    → Ensures (IsRead args doc got) (pairs_loop args doc got)
unfolding pairs_loop
pairs_loop-Ensures [] doc got h = (sym (concat-empty doc), sym (or_false got))
pairs_loop-Ensures (Value.string name ∷ value ∷ rest) doc got h =
    Ensures-mono (IsRead rest (append_elem doc name value) (got || same_key name key_ok))
      (IsRead (Value.string name ∷ value ∷ rest) doc got) _
      (λ r p. (
        p.0 ∙ concat-append_elem doc name value (pairs_of rest),
        p.1 ∙ or_assoc got (same_key name key_ok) (has_key (pairs_of rest) key_ok),
      ))
      (pairs_loop-Ensures rest (append_elem doc name value) (got || same_key name key_ok) h)
pairs_loop-Ensures (_ ∷ _ ∷ rest) doc got h = tt
pairs_loop-Ensures (_ ∷ []) doc got h = absurd (false≢true (sym h))

has_key-append_elem :
    (d : Document) (k : List ℕ) (v : Value)
    → same_key k k ≡ true
    → has_key (append_elem d k v) k ≡ true
unfolding append_elem
has_key-append_elem Document.empty k v h = rw h refl
has_key-append_elem (Document.elem k' v' d) k v h =
    rw (has_key-append_elem d k v h) (or_true (same_key k' k))
  where
    or_true : (a : Bool) → (a || true) ≡ true
    or_true true = refl
    or_true _ = refl

-- The document is that of the pairs, with an "ok" behind them where none of them is one.
abbrev pub IsMade : List Value → Document → Type 0
IsMade args d =
    (has_key d key_ok ≡ true)
    × ((d ≡ pairs_of args)
        ⊎ ((has_key (pairs_of args) key_ok ≡ false)
            × (d ≡ append_elem (pairs_of args) key_ok (Value.int 1))))

with_ok-IsMade :
    (args : List Value) (r : Document × Bool)
    → IsRead args Document.empty false r
    → IsMade args (with_ok r)
with_ok-IsMade args (d, true) (e, f) = (ap (λ x. has_key x key_ok) e ∙ sym f, inl e)
with_ok-IsMade args (d, false) (e, f) = (
  has_key-append_elem d key_ok (Value.int 1) refl,
  inr (sym f, ap (λ x. append_elem x key_ok (Value.int 1)) e),
)

-- Whatever its arguments, `RespondToCommandMakeBSON` puts its document together without a panic. It
-- gives an error, or a document that has the key "ok": the pairs of the arguments in order, and behind
-- them an "ok" of 1 only where none of the pairs has that key.
pub make_bson-Ensures : (args : List Value) → Ensures (IsMade args) (make_bson args)
unfolding make_bson
make_bson-Ensures args =
    Ensures-if (IsMade args) (is_odd args) _ _ (λ _. tt)
      (λ h.
        Ensures-bind (IsRead args Document.empty false) (IsMade args)
          (pairs_loop args Document.empty false) _ (pairs_loop-Ensures args Document.empty false h)
          (λ r p. with_ok-IsMade args r p))
