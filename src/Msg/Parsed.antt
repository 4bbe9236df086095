-- ===== src/Msg/Parsed.antt =====
-- wire_message.go: what a parsed OP_MSG says of the text that it was read from.
use mongonet.Base.{
  nonempty, ℕ, zero, suc, ◌+◌, ◌^◌, ◌≤◌, ◌<◌, ◌≡◌, refl, sym, ◌∙◌, List, [], ◌∷◌, ◌++◌, arith, All,
  false, inl, inr, ap, append_assoc, Bool-cases, leb, leb→le, length, length-append,
}
use mongonet.Base.Errors.{Ensures, Ensures-bind, Ensures-guard}
use mongonet.Bytes.Layout.{le32}
use mongonet.Bytes.Read.{IsByte}
use mongonet.Wire.{MessageHeader, MessageMessage, Section, body, document_sequence}
use mongonet.Serialize.Layout.{IsInt32}
use mongonet.Msg.{sections_from, parse_message}
use mongonet.Msg.Frame.{section_image, message_body, SectionCovered}
use mongonet.Msg.Texts.{AreTextsOf, IsTextOf-length, AreTextsOf-length}
use mongonet.Parse.Rules.{At, At-start, At-drop, At-next, At-length, rule_int32}
use mongonet.Msg.Sections.{SectionUpTo, parse_section-Ensures}

-- The text that is left are sections, and fewer than five bytes behind them.
record SectionsFrom (t : List ℕ) (ss : List Section) : Type 0 where
  covered : All SectionCovered ss
  text : List ℕ
  rest : List ℕ
  split : t ≡ text ++ rest
  texts : AreTextsOf ss text
  left : length rest < 5

sections_from-Ensures :
    (fuel : ℕ) (buf p t : List ℕ) (loc : ℕ)
    → At buf p t
    → loc ≡ length p
    → length buf < loc + fuel
    → All IsByte buf
    → length buf < 2 ^ 62
    → Ensures (SectionsFrom t) (sections_from fuel buf loc)
unfolding sections_from
sections_from-Ensures zero buf p t loc at l enough bytes short =
    absurd (omega (arith, At-length at))
sections_from-Ensures (suc fuel) buf p t loc at l enough bytes short =
    elim (Bool-cases (leb (loc + 5) (length buf))) [
      | inl more ↦
          let c = nonempty t (omega (arith, leb→le (loc + 5) (length buf) more, At-length at)) in
          let at1 : At buf p (c.0 ∷ c.1) = record { split = at.split ∙ ap (λ x. p ++ x) c.2 } in
          rw more (
            Ensures-bind (SectionUpTo buf p loc) (SectionsFrom t) _ _
              (parse_section-Ensures buf p c.1 loc c.0 at1 l bytes short)
              λ r h.
                Ensures-bind (SectionsFrom h.behind) (SectionsFrom t) _ _
                  (sections_from-Ensures fuel buf (p ++ h.text) h.behind r.1 h.there
                    (omega (arith, h.end, length-append p h.text))
                    (omega
                      (arith, h.end, IsTextOf-length r.0 h.text h.is_text, section_image-pos r.0))
                    bytes short)
                  λ ss k. record {
                    covered = (h.covered, k.covered);
                    text = h.text ++ k.text;
                    rest = k.rest;
                    split = behind_both h.text h.behind k.text k.rest h.there k.split;
                    texts = (h.text, k.text, refl, h.is_text, k.texts);
                    left = k.left;
                  })
      | inr stop ↦ rw stop (record {
        covered = tt;
        text = [];
        rest = t;
        split = refl;
        texts = refl;
        left = few (length buf) (length t) stop (omega (arith, At-length at));
      })
    ]
  where
    few : (n m : ℕ) → leb (loc + 5) n ≡ false → n ≡ loc + m → m < 5
    few n m stop e = ground arith

    section_image-pos : (s : Section) → 0 < length (section_image s)
    section_image-pos (body d) = omega arith
    section_image-pos (document_sequence id docs) = omega arith

    behind_both :
        (text behind text1 rest : List ℕ)
        → At buf (p ++ text) behind
        → behind ≡ text1 ++ rest
        → t ≡ (text ++ text1) ++ rest
    behind_both text behind text1 rest there e =
        let at2 : At buf p (text ++ behind) = record {
          split = there.split ∙ append_assoc p text behind;
        } in
        sym (At-drop (length p) at refl)
        ∙ At-drop (length p) at2 refl
        ∙ ap (λ x. text ++ x) e
        ∙ sym (append_assoc text text1 rest)

-- The header is the given one, and the body is the flags, the sections in order, each with the bytes of what it
-- holds, and fewer than five bytes behind them. The sections can be serialized in no more bytes.
pub record IsParsedMessage (h : MessageHeader) (buf : List ℕ) (m : MessageMessage) : Type 0 where
  pub head : m.header ≡ h
  pub flag_bits : IsInt32 m.flag_bits
  pub sections : All SectionCovered m.sections
  pub text : List ℕ
  pub rest : List ℕ
  pub split : buf ≡ le32 m.flag_bits ++ (text ++ rest)
  pub texts : AreTextsOf m.sections text
  pub left : length rest < 5
  pub shorter : length (message_body m) ≤ length buf

-- For a body of bytes shorter than 2 ^ 62: `parseMessageMessage` neither panics nor loops. The message
-- that it gives has the given header, the flags that stand at the front of the body, and the sections that stand
-- behind them, in order and to within four bytes of the end of the body, each with the bytes of its documents
-- and its name; on the wire it takes no more bytes than the body.
pub parse_message-Ensures :
    (h : MessageHeader) (buf : List ℕ)
    → All IsByte buf
    → length buf < 2 ^ 62
    → Ensures (IsParsedMessage h buf) (parse_message h buf)
unfolding parse_message
parse_message-Ensures h buf bytes short =
    let Q = IsParsedMessage h buf in
    Ensures-guard Q (leb 4 (length buf)) _ _ λ min.
      let enough : 4 ≤ length buf = leb→le _ _ min in
      rule_int32 Q buf _ bytes enough λ flags t hf e.
        let at = At-next (le32 flags) t (At-start buf) e in
        Ensures-bind (SectionsFrom t) Q _ _
          (sections_from-Ensures (suc (length buf)) buf (le32 flags) t 4 at refl (omega arith) bytes
            short)
          λ ss k. record {
            head = refl;
            flag_bits = hf;
            sections = k.covered;
            text = k.text;
            rest = k.rest;
            split = e ∙ ap (λ x. le32 flags ++ x) k.split;
            texts = k.texts;
            left = k.left;
            shorter = omega (
              arith,
              AreTextsOf-length ss k.text k.texts,
              At-length at,
              ap length k.split,
              length-append k.text k.rest,
            );
          }
