-- ===== src/Serialize/Layout.antt =====
-- A message as it stands on the wire: the header, with the whole length, and the body.
use mongonet.Base.{
  ℕ, ◌+◌, ◌*◌, ◌%◌, ◌^◌, ◌<◌, ◌≡◌, refl, List, [], ◌∷◌, ◌++◌, arith, All, length, length-append, ok,
}
use mongonet.Bytes.Writer.{Writer, ◌>>◌, fill, write_int64}
use mongonet.Bytes.Layout.{
  le32, le64, Emits, Emits-then, Emits-done, Emits-int32, Emits-int64, fill-Emits, Emits-copy_all,
}
use mongonet.Bson.{SimpleBson}
use mongonet.Wire.{MessageHeader}
use mongonet.Serialize.{write_into, resize, with_message, write_cursors, copy_reply_docs}

abbrev pub IsInt32 : ℕ → Type 0
IsInt32 i = i < 2 ^ 32

abbrev pub IsInt64 : ℕ → Type 0
IsInt64 i = i < 2 ^ 64

-- The fields that a header keeps; the size is written anew.
pub record IsHeader (h : MessageHeader) : Type 0 where
  pub request : IsInt32 h.request_id
  pub response : IsInt32 h.response_to
  pub code : IsInt32 h.op_code

abbrev pub cstring : List ℕ → List ℕ
cstring s = s ++ (0 ∷ [])

pub length-cstring : (s : List ℕ) → length (cstring s) ≡ length s + 1
length-cstring s = length-append s (0 ∷ [])

abbrev pub header_image : MessageHeader → List ℕ
header_image h = le32 h.size ++ (le32 h.request_id ++ (le32 h.response_to ++ le32 h.op_code))

-- The header of a message with this body.
abbrev pub sized : MessageHeader → List ℕ → MessageHeader
sized h body = resize (16 + length body) h

abbrev pub frame : MessageHeader → List ℕ → List ℕ
frame h body = header_image (sized h body) ++ body

Emits-write_into :
    (size : ℕ) (h : MessageHeader)
    → IsHeader h
    → Emits (write_into (resize size h)) 0 (header_image (resize size h)) tt
unfolding write_into
Emits-write_into size h v =
    Emits-then _ _ 0 4 _ _ _ (Emits-int32 (size % 2 ^ 32) 0 (omega arith)) refl (
      Emits-then _ _ 4 8 _ _ _ (Emits-int32 h.request_id 4 v.request) refl (
        Emits-then _ _ 8 12 _ _ _ (Emits-int32 h.response_to 8 v.response) refl
          (Emits-int32 h.op_code 12 v.code)))

-- A method that writes the header and then the body gives the frame, and the message with the size
-- in its header.
pub fill-frame :
    {A M : Type 0} (h : MessageHeader) (w : Writer A) (body : List ℕ) (a : A) (size : ℕ)
    (after : MessageHeader → M)
    → IsHeader h
    → 16 + length body < 2 ^ 63
    → size ≡ 16 + length body
    → Emits w 16 body a
    → with_message (after (resize size h)) (fill size (write_into (resize size h) >> w))
      ≡ ok (frame h body, after (sized h body))
fill-frame h w body a size after v short same e = rw (
  same,
  fill-Emits (16 + length body) (write_into (sized h body) >> w) (frame h body) a short
      (omega arith)
      (Emits-then (write_into (sized h body)) w 0 16 (header_image (sized h body)) body a
        (Emits-write_into (16 + length body) h v) refl e),
)

abbrev pub cursors_image : List ℕ → List ℕ
cursors_image [] = []
cursors_image (c ∷ cs) = le64 c ++ cursors_image cs

pub length-cursors_image : (cs : List ℕ) → length (cursors_image cs) ≡ 8 * length cs
length-cursors_image [] = refl
length-cursors_image (c ∷ cs) = omega (arith, length-cursors_image cs)

pub Emits-write_cursors :
    (cs : List ℕ) (loc : ℕ)
    → All IsInt64 cs
    → Emits (write_cursors cs loc) loc (cursors_image cs) tt
unfolding write_cursors
Emits-write_cursors [] loc h = Emits-done loc tt
Emits-write_cursors (c ∷ cs) loc h =
    Emits-then (write_int64 c loc) (write_cursors cs (loc + 8)) loc (loc + 8) (le64 c)
      (cursors_image cs) tt (Emits-int64 c loc h.0) refl (Emits-write_cursors cs (loc + 8) h.1)

-- The loop of a reply goes by the bytes' own length.
abbrev pub texts : List SimpleBson → List ℕ
texts [] = []
texts (d ∷ ds) = d.bson ++ texts ds

pub Emits-copy_reply_docs :
    (ds : List SimpleBson) (loc : ℕ) → Emits (copy_reply_docs ds loc) loc (texts ds) tt
unfolding copy_reply_docs
Emits-copy_reply_docs [] loc = Emits-done loc tt
Emits-copy_reply_docs (d ∷ ds) loc =
    Emits-then _ (copy_reply_docs ds (loc + length d.bson)) loc (loc + length d.bson) d.bson
      (texts ds) tt (Emits-copy_all d.bson loc) refl (Emits-copy_reply_docs ds _)
