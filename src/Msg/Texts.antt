-- ===== src/Msg/Texts.antt =====
-- wire_message.go: the text that the sections of an OP_MSG are read from.
use mongonet.Base.{
  ℕ, ◌%◌, ◌^◌, ◌<◌, ◌≤◌, ◌≡◌, ◌⊎◌, refl, ap, ◌∙◌, List, [], ◌∷◌, ◌++◌, append_assoc, length,
  length-append, arith, ok,
}
use mongonet.Bytes.Layout.{le32}
use mongonet.Bson.{SimpleBson}
use mongonet.Bson.Write.{image, images}
use mongonet.Wire.{Section, body, document_sequence}
use mongonet.Serialize.Layout.{cstring}
use mongonet.Msg.{index}
use mongonet.Msg.Serialize.{clear_checksum}
use mongonet.Msg.Frame.{sequence_size, section_image, sections_image}
use mongonet.Parse.Rules.{At}

-- A document sequence on the wire, with the size that stands there.
abbrev pub sequence_text : ℕ → List ℕ → List SimpleBson → List ℕ
sequence_text size id docs = 1 ∷ (le32 size ++ (cstring id ++ images docs))

-- The kind and the bytes of a section. The size of a document sequence counts its own bytes, in an int32; only
-- where there are no documents may it be another one.
abbrev pub IsTextOf : Section → List ℕ → Type 0
IsTextOf (body d) t = t ≡ 0 ∷ image d
IsTextOf (document_sequence id docs) t =
    (size : ℕ) × (t ≡ sequence_text size id docs)
    × ((size ≡ sequence_size id docs % 2 ^ 32) ⊎ (docs ≡ []))

-- The sections one behind the other.
abbrev pub AreTextsOf : List Section → List ℕ → Type 0
AreTextsOf [] t = t ≡ []
AreTextsOf (s ∷ ss) t = (t1 t2 : List ℕ) × (t ≡ t1 ++ t2) × IsTextOf s t1 × AreTextsOf ss t2

pub IsTextOf-length :
    (s : Section) (t : List ℕ) → IsTextOf s t → length t ≡ length (section_image s)
IsTextOf-length (body d) t h = ap length h
IsTextOf-length (document_sequence id docs) t (size, e, _) = ap length e ∙ refl

pub AreTextsOf-length :
    (ss : List Section) (t : List ℕ) → AreTextsOf ss t → length t ≡ length (sections_image ss)
AreTextsOf-length [] t h = ap length h
AreTextsOf-length (s ∷ ss) t (t1, t2, e, h, hs) = omega (
  arith,
  ap length e,
  length-append t1 t2,
  length-append (section_image s) (sections_image ss),
  IsTextOf-length s t1 h,
  AreTextsOf-length ss t2 hs,
)

-- What was read in two steps.
pub At-join :
    {buf u : List ℕ} (p x y : List ℕ) → At buf ((p ++ x) ++ y) u → At buf (p ++ (x ++ y)) u
At-join {u} p x y at = record { split = at.split ∙ ap (λ t. t ++ u) (append_assoc p x y) }

-- The byte behind what was read, and the first one.
pub index-append : (p u : List ℕ) (x : ℕ) → index (p ++ x ∷ u) (length p) ≡ ok x
unfolding index
index-append [] u x = refl
index-append (y ∷ p) u x = index-append p u x

pub first_byte : (buf : List ℕ) → 0 < length buf → (x : ℕ) × (index buf 0 ≡ ok x)
unfolding index
first_byte [] h = absurd (omega arith)
first_byte (x ∷ buf) h = (x, refl)

-- A body that goes out again: what came in was flags, sections, and fewer than five bytes behind them; what goes
-- out is the flags without the checksum bit and the same sections in order, in no more bytes.
pub record IsResent (buf out : List ℕ) : Type 0 where
  pub flags : ℕ
  pub sections : List Section
  pub text : List ℕ
  pub rest : List ℕ
  pub split : buf ≡ le32 flags ++ (text ++ rest)
  pub left : length rest < 5
  pub texts : AreTextsOf sections text
  pub sent : out ≡ le32 (clear_checksum flags) ++ sections_image sections
  pub shorter : length out ≤ length buf
