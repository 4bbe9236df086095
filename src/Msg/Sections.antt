-- ===== src/Msg/Sections.antt =====
-- wire_message.go: a section of either kind.
use mongonet.Base.{
  ℕ, suc, ◌+◌, ◌^◌, ◌≤◌, ◌<◌, ◌≡◌, refl, ◌∙◌, List, [], ◌∷◌, ◌++◌, arith, All, ok, inl, inr, ◌⊎◌,
  ◌%◌, subst, ap, ==_iff, Bool-cases, not, leb, leb→le, ◌==◌, length, length-append,
}
use mongonet.Base.Errors.{Ensures, Ensures-bind, Ensures-guard}
use mongonet.Word.{int_of, slt64, sub32, int32_of}
use mongonet.Bytes.Layout.{le32}
use mongonet.Bytes.Read.{IsByte}
use mongonet.Bson.{SimpleBson}
use mongonet.Bson.Write.{image, images, length-image}
use mongonet.Wire.{Section}
use mongonet.Serialize.Layout.{cstring, length-cstring}
use mongonet.Msg.{
  index, parse_body_section, parse_document_sequence_section, parse_kind, parse_section,
}
use mongonet.Msg.Frame.{sequence_size, SectionCovered}
use mongonet.Msg.Texts.{sequence_text, IsTextOf, At-join, index-append, first_byte}
use mongonet.Parse.Rules.{
  At, At-next, At-length, At-IsByte, rule_slice, rule_int32, At-bson, At-cstring, after_document,
}
use mongonet.Msg.Docs.{DocsUpTo, section_docs-Ensures}

-- A section was read from `loc`, behind `p`, up to the end `r.1`: it stands there.
pub record SectionUpTo (buf p : List ℕ) (loc : ℕ) (r : Section × ℕ) : Type 0 where
  pub covered : SectionCovered r.0
  pub text : List ℕ
  pub is_text : IsTextOf r.0 text
  pub behind : List ℕ
  pub there : At buf (p ++ text) behind
  pub end : r.1 ≡ loc + length text

parse_body_section-Ensures :
    (buf p t : List ℕ) (loc : ℕ)
    → At buf p (0 ∷ t)
    → loc ≡ length p
    → length buf < 2 ^ 62
    → Ensures (SectionUpTo buf p loc) (parse_body_section buf (loc + 1))
unfolding parse_body_section
parse_body_section-Ensures buf p t loc at l short =
    let at0 = At-next (0 ∷ []) t at refl in
    At-bson (SectionUpTo buf p loc) (loc + 1) at0 (omega (arith, length-append p (0 ∷ []))) _
      (omega arith)
      λ d u hd at1 n.
        let next = after_document (loc + 1) d hd (omega (arith, At-length at)) in
        record {
          covered = hd;
          text = 0 ∷ image d;
          is_text = refl;
          behind = u;
          there = At-join p (0 ∷ []) (image d) at1;
          end = next ∙ omega (arith, length-image d hd);
        }

-- The size that a document sequence starts with.
announced :
    (expected l n : ℕ)
    → expected < 2 ^ 32
    → n < 2 ^ 62
    → l < 2 ^ 62
    → sub32 (sub32 expected 4) (int32_of (n + 1)) ≡ l
    → expected ≡ (4 + (n + 1) + l) % 2 ^ 32
announced expected l n h hn hl e = omega arith

parse_document_sequence_section-Ensures :
    (buf p t : List ℕ) (loc : ℕ)
    → At buf p (1 ∷ t)
    → loc ≡ length p
    → All IsByte buf
    → length buf < 2 ^ 62
    → Ensures (SectionUpTo buf p loc) (parse_document_sequence_section buf (loc + 1))
unfolding parse_document_sequence_section
parse_document_sequence_section-Ensures buf p t loc at l bytes short =
    let Q = SectionUpTo buf p loc in
    let p0 = p ++ 1 ∷ [] in
    let at0 = At-next (1 ∷ []) t at refl in
    let start : loc + 1 ≡ length p0 = omega (arith, length-append p (1 ∷ [])) in
    rule_slice Q buf p0 t (loc + 1) _ at0 start (
      Ensures-guard Q (leb 4 (length t)) _ _ λ min.
        let enough : 4 ≤ length t = leb→le _ _ min in
        rule_int32 Q t _ (At-IsByte at0 bytes) enough λ expected u he e.
          let at1 = At-next (le32 expected) u at0 e in
          Ensures-guard Q (not (slt64 (length t) (int_of expected))) _ _ λ _.
            At-cstring Q (loc + 1 + 4) at1 (omega (arith, start, length-append p0 (le32 expected)))
              _
              λ id u1 nn at2.
                let front = (p0 ++ le32 expected) ++ cstring id in
                let p2 = length-append (p0 ++ le32 expected) (cstring id) in
                let name = length-cstring id in
                let first : loc + 1 + 4 + (length id + 1) ≡ length front =
                  omega (arith, start, p2, length-append p0 (le32 expected)) in
                let left = sub32 (sub32 expected 4) (int32_of (length id + 1)) in
                Ensures-bind (DocsUpTo buf front (loc + 1 + 4 + (length id + 1)) left) Q _ _
                  (section_docs-Ensures (suc (length buf)) buf front u1 _ left 0 at2 first
                    (omega arith) short (omega arith))
                  λ r h. record {
                    covered = h.covered;
                    text = sequence_text expected id r.0;
                    is_text = (
                      expected,
                      refl,
                      announces id r.0 expected he (omega (arith, first, At-length at2))
                          (omega (arith, At-length h.there, length-append front (images r.0)))
                          h.counted,
                    );
                    behind = h.behind;
                    there = At-join p (1 ∷ []) (le32 expected ++ (cstring id ++ images r.0)) (
                        At-join p0 (le32 expected) (cstring id ++ images r.0)
                          (At-join (p0 ++ le32 expected) (cstring id) (images r.0) h.there));
                    end = h.end ∙ omega (arith, length-append (cstring id) (images r.0), name);
                  })
  where
    announces :
        (id : List ℕ) (docs : List SimpleBson) (expected : ℕ)
        → expected < 2 ^ 32
        → length id < 2 ^ 62
        → length (images docs) < 2 ^ 62
        → (sub32 (sub32 expected 4) (int32_of (length id + 1)) ≡ length (images docs))
          ⊎ ((2 ^ 31 ≤ sub32 (sub32 expected 4) (int32_of (length id + 1))) × (docs ≡ []))
        → (expected ≡ sequence_size id docs % 2 ^ 32) ⊎ (docs ≡ [])
    announces id docs expected he hi hd (inl e) =
        inl (announced expected (length (images docs)) (length id) he hi hd e)
    announces id docs expected he hi hd (inr e) = inr e.1

parse_kind-Ensures :
    (kind first : ℕ) (buf p t : List ℕ) (loc : ℕ)
    → At buf p (kind ∷ t)
    → loc ≡ length p
    → All IsByte buf
    → length buf < 2 ^ 62
    → Ensures (SectionUpTo buf p loc) (parse_kind kind first buf (loc + 1))
unfolding parse_kind
parse_kind-Ensures kind first buf p t loc at l bytes short = elim (Bool-cases (kind == 0)) [
  | inl e ↦
      let at0 = subst (λ k. At buf p (k ∷ t)) ((==_iff kind 0).0 e) at in
      rw e (parse_body_section-Ensures buf p t loc at0 l short)
  | inr e ↦ elim (Bool-cases (kind == 1)) [
    | inl e' ↦
        let at1 = subst (λ k. At buf p (k ∷ t)) ((==_iff kind 1).0 e') at in
        rw (e, e') (parse_document_sequence_section-Ensures buf p t loc at1 l bytes short)
    | inr e' ↦ rw (e, e') tt
  ]
]

pub parse_section-Ensures :
    (buf p t : List ℕ) (loc kind : ℕ)
    → At buf p (kind ∷ t)
    → loc ≡ length p
    → All IsByte buf
    → length buf < 2 ^ 62
    → Ensures (SectionUpTo buf p loc) (parse_section buf loc)
unfolding parse_section
parse_section-Ensures buf p t loc kind at l bytes short =
    let first = first_byte buf (omega (arith, At-length at)) in
    let here : index buf loc ≡ ok kind =
      ap (λ b. index b loc) at.split ∙ ap (index (p ++ kind ∷ t)) l ∙ index-append p t kind in
    rw (here, first.1) (parse_kind-Ensures kind first.0 buf p t loc at l bytes short)
