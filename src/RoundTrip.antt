-- ===== src/RoundTrip.antt =====
-- A message that is serialized and parsed again. The steps of the parsers on the bytes that they expect.
pub mod Legacy
pub mod Replies
pub mod Queries
pub mod Writes
pub mod Commands
pub mod Sequences
pub mod Sections
pub mod Message
pub mod Fields
pub mod Bodies
pub mod Any
pub mod Connection
use mongonet.Base.{
  ℕ, ◌+◌, ◌^◌, ◌<◌, ◌≤◌, ◌≡◌, refl, sym, ap, subst, ◌∙◌, Bool, true, not, List, [], ◌∷◌, ◌++◌,
  append-nil, append_assoc, All, length, leb, arith, Outcome, ok, Error, length-append,
}
use mongonet.Base.Errors.{◌>>=◌, ◌>>◌, guard}
use mongonet.Word.{int_of, slt64, add_int}
use mongonet.Word.Shifts.{int_of_small}
use mongonet.Bytes.{slice_from, read_int32, read_int64, read_cstring}
use mongonet.Bytes.Layout.{le32, le64}
use mongonet.Bytes.Read.{
  NoNul, slice_from-append, read_int32-le32, read_int64-le64, read_cstring-append,
}
use mongonet.Bson.{SimpleBson, parse_simple_bson}
use mongonet.Bson.Parse.{IsDoc, parse_simple_bson-append}
use mongonet.Bson.Write.{image}
use mongonet.Bson.Docs.{IsDoc-image, IsDoc-IsCovered}
use mongonet.Serialize.Layout.{IsInt32, IsInt64, cstring}
use mongonet.Parse.Rules.{At, after_document}

module _ {A B : Type 0} where
  pub step : (m : Outcome A) (k : A → Outcome B) (a : A) → m ≡ ok a → (m >>= k) ≡ k a
  step m k a e = ap (λ x. x >>= k) e

pub step_guard :
    {B : Type 0} (b : Bool) (e : Error) (k : Outcome B) → b ≡ true → (guard b e >> k) ≡ k
step_guard b e k h = ap (λ x. guard x e >> k) h

-- A place within a length.
pub slt64-within : (n loc : ℕ) → loc ≤ n → n < 2 ^ 62 → not (slt64 n loc) ≡ true
unfolding slt64
slt64-within n loc fits short = ground arith

pub read_cstring-cstring : (s u : List ℕ) → NoNul s → read_cstring (cstring s ++ u) ≡ ok s
read_cstring-cstring s u h = ap read_cstring (append_assoc s (0 ∷ []) u) ∙ read_cstring-append s u h

-- A document that carries its length, at the front of its text.
pub parse_simple_bson-image :
    (d : SimpleBson) (u : List ℕ)
    → IsDoc d
    → length (image d ++ u) < 2 ^ 63
    → parse_simple_bson (image d ++ u) ≡ ok d
parse_simple_bson-image d u h short =
    ap (λ x. parse_simple_bson (x ++ u)) (IsDoc-image d h)
    ∙ parse_simple_bson-append d u h (subst (λ x. length (x ++ u) < 2 ^ 63) (IsDoc-image d h) short)

pub parse_simple_bson-last :
    (d : SimpleBson) → IsDoc d → length (image d) < 2 ^ 63 → parse_simple_bson (image d) ≡ ok d
parse_simple_bson-last d h short =
    ap parse_simple_bson (sym (append-nil (image d)))
    ∙ parse_simple_bson-image d [] h
        (subst (λ x. length x < 2 ^ 63) (sym (append-nil (image d))) short)

module _ {B : Type 0} (k : List ℕ → Outcome B) where
  pub step_slice :
      (buf p t : List ℕ) (loc : ℕ) → At buf p t → loc ≡ length p → (slice_from buf loc >>= k) ≡ k t
  step_slice buf p t loc at l =
      step (slice_from buf loc) k t
        (ap (λ b. slice_from b loc) at.split ∙ slice_from-append p t loc l)
