-- ===== src/RoundTrip/Sections.antt =====
-- wire_message.go: the parsers on the sections that `Serialize` writes.
use mongonet.Base.{
  ℕ, zero, suc, ◌+◌, ◌^◌, ◌<◌, ◌≤◌, ◌≡◌, refl, ap, ◌∙◌, true, false, leb, List, [], ◌∷◌, ◌++◌,
  append_assoc, All, length, length-append, arith, ok,
}
use mongonet.Bytes.Layout.{le32}
use mongonet.Bytes.Read.{NoNul}
use mongonet.Bson.Parse.{IsDoc}
use mongonet.Bson.Write.{image, images, length-image}
use mongonet.Bson.Docs.{IsDoc-IsCovered}
use mongonet.Wire.{Section, body, document_sequence}
use mongonet.Serialize.Layout.{cstring, length-cstring}
use mongonet.Msg.{index, parse_kind, parse_section, sections_from}
use mongonet.Msg.Frame.{sequence_size, section_image, sections_image}
use mongonet.Msg.Texts.{index-append, first_byte}
use mongonet.Parse.Rules.{At, At-next, At-length}
use mongonet.RoundTrip.{step}
use mongonet.RoundTrip.Sequences.{
  At-same, section_to, parse_body_section-image, parse_document_sequence_section-image,
}

-- A section of documents that carry their own lengths, under a name without a zero byte.
abbrev pub IsReadable : Section → Type 0
IsReadable (body d) = IsDoc d
IsReadable (document_sequence id docs) = NoNul id × All IsDoc docs

abbrev kind_of : Section → ℕ
kind_of (body d) = 0
kind_of (document_sequence id docs) = 1

parse_kind-image :
    (s : Section) (first : ℕ) (buf p t : List ℕ) (loc : ℕ)
    → IsReadable s
    → At buf p (section_image s ++ t)
    → loc ≡ length p
    → length buf < 2 ^ 31
    → parse_kind (kind_of s) first buf (loc + 1) ≡ ok (s, loc + length (section_image s))
unfolding parse_kind
parse_kind-image (body d) first buf p t loc h at l short =
    let size = length-image d (IsDoc-IsCovered d h) in
    let end : loc + 1 + d.size ≡ loc + length (section_image (body d)) = omega arith in
    parse_body_section-image d buf (p ++ 0 ∷ []) t (loc + 1) h
      (At-next (0 ∷ []) (image d ++ t) at refl) (omega (arith, length-append p (0 ∷ []))) short
    ∙ ap (section_to (body d)) end
parse_kind-image (document_sequence id docs) first buf p t loc h at l short =
    let s = document_sequence id docs in
    let size = le32 (sequence_size id docs) in
    let name = length-cstring id in
    let all = length-append (cstring id) (images docs) in
    let end : loc + 1 + 4 + (length id + 1) + length (images docs)
        ≡ loc + length (section_image s) =
      omega arith in
    let at1 =
      At-same (ap (λ x. size ++ x) (append_assoc (cstring id) (images docs) t))
        (At-next (1 ∷ []) (size ++ ((cstring id ++ images docs) ++ t)) at refl) in
    parse_document_sequence_section-image id docs buf (p ++ 1 ∷ []) t (loc + 1) h.0 h.1 at1
      (omega (arith, length-append p (1 ∷ []))) short
    ∙ ap (section_to s) end

-- A section takes five bytes, the least that the loop goes on for.
section_image-five : (s : Section) → IsReadable s → 5 ≤ length (section_image s)
section_image-five (body d) h =
    omega (arith, length-image d (IsDoc-IsCovered d h), ap length h.headed.1, h.whole)
section_image-five (document_sequence id docs) h =
    omega (arith, length-cstring id, length-append (cstring id) (images docs))

parse_section-image :
    (s : Section) (buf p t : List ℕ) (loc : ℕ)
    → IsReadable s
    → At buf p (section_image s ++ t)
    → loc ≡ length p
    → length buf < 2 ^ 31
    → parse_section buf loc ≡ ok (s, loc + length (section_image s))
unfolding parse_section
parse_section-image s buf p t loc h at l short =
    let first =
      first_byte buf
        (omega (arith, At-length at, length-append (section_image s) t, section_image-five s h)) in
    step _ _ (kind_of s) (kind_at s at)
    ∙ step _ _ first.0 first.1
    ∙ parse_kind-image s first.0 buf p t loc h at l short
  where
    kind_at : (s : Section) → At buf p (section_image s ++ t) → index buf loc ≡ ok (kind_of s)
    kind_at (body d) at =
        ap (λ b. index b loc) at.split ∙ ap (index _) l ∙ index-append p (image d ++ t) 0
    kind_at (document_sequence id docs) at =
        ap (λ b. index b loc) at.split ∙ ap (index _) l ∙ index-append p _ 1

pub sections_from-sections_image :
    (ss : List Section) (fuel : ℕ) (buf p : List ℕ) (loc : ℕ)
    → All IsReadable ss
    → At buf p (sections_image ss)
    → loc ≡ length p
    → length (sections_image ss) < fuel
    → length buf < 2 ^ 31
    → sections_from fuel buf loc ≡ ok ss
unfolding sections_from
sections_from-sections_image ss zero buf p loc h at l enough short = absurd (omega arith)
sections_from-sections_image [] (suc fuel) buf p loc h at l enough short =
    let here = At-length at in
    let stop : leb (loc + 5) (length buf) ≡ false = ground arith in rw stop refl
sections_from-sections_image (s ∷ ss) (suc fuel) buf p loc h at l enough short =
    let rest = sections_image ss in
    let here = At-length at in
    let five = section_image-five s h.0 in
    let both = length-append (section_image s) rest in
    let more : leb (loc + 5) (length buf) ≡ true = ground arith in
    rw
      (
        more,
        parse_section-image s buf p rest loc h.0 at l short,
        sections_from-sections_image ss fuel buf (p ++ section_image s)
            (loc + length (section_image s)) h.1 (At-next (section_image s) rest at refl)
            (omega (arith, length-append p (section_image s))) (omega arith) short,
      )
      refl
