-- ===== src/Msg/Docs.antt =====
-- wire_message.go: the documents of a document sequence.
use mongonet.Base.{
  ℕ, zero, suc, ◌+◌, ◌^◌, ◌≤◌, ◌<◌, ◌≡◌, refl, sym, ◌∙◌, List, [], ◌++◌, arith, All, true, false,
  inl, inr, ◌⊎◌, ap, append-nil, Bool-cases, not, length, length-append,
}
use mongonet.Base.Errors.{Ensures, Ensures-bind, Ensures-guard}
use mongonet.Word.{slt32, sub32}
use mongonet.Bson.{SimpleBson}
use mongonet.Bson.Write.{IsCovered, image, images, length-image}
use mongonet.Msg.{section_docs}
use mongonet.Msg.Texts.{At-join}
use mongonet.Parse.Rules.{At, At-length, At-bson, after_document}

-- Documents were read from `loc`, behind `p`, up to the end `r.1`: their bytes stand there, as many as were
-- announced, or none where that is a negative number.
pub record DocsUpTo (buf p : List ℕ) (loc remaining : ℕ) (r : List SimpleBson × ℕ) : Type 0 where
  pub covered : All IsCovered r.0
  pub end : r.1 ≡ loc + length (images r.0)
  pub behind : List ℕ
  pub there : At buf (p ++ images r.0) behind
  pub counted : (remaining ≡ length (images r.0)) ⊎ ((2 ^ 31 ≤ remaining) × (r.0 ≡ []))

fits_left :
    (remaining size : ℕ)
    → remaining < 2 ^ 32
    → slt32 0 remaining ≡ true
    → size < 2 ^ 31
    → not (slt32 remaining size) ≡ true
    → (remaining < 2 ^ 31) × (size ≤ remaining)
unfolding slt32
fits_left remaining size r more small fits = ground arith

none_left :
    (remaining : ℕ)
    → remaining < 2 ^ 32
    → slt32 0 remaining ≡ false
    → (remaining ≡ 0) ⊎ (2 ^ 31 ≤ remaining)
unfolding slt32
none_left remaining r stop = ground arith

pub section_docs-Ensures :
    (fuel : ℕ) (buf p t : List ℕ) (loc remaining num : ℕ)
    → At buf p t
    → loc ≡ length p
    → length buf < loc + fuel
    → length buf < 2 ^ 62
    → remaining < 2 ^ 32
    → Ensures (DocsUpTo buf p loc remaining) (section_docs fuel buf loc remaining num)
unfolding section_docs
section_docs-Ensures zero buf p t loc remaining num at l enough short r32 =
    absurd (omega (arith, At-length at))
section_docs-Ensures (suc fuel) buf p t loc remaining num at l enough short r32 =
    let Q = DocsUpTo buf p loc remaining in
    elim (Bool-cases (slt32 0 remaining)) [
      | inl more ↦ rw more (
          At-bson Q loc at l _ (omega arith) λ d u hd at1 n.
            Ensures-guard Q (not (slt32 remaining d.size)) _ _ λ fits.
              let left = fits_left remaining d.size r32 more hd.small fits in
              rw (after_document loc d hd (omega (arith, At-length at))) (
                Ensures-bind (DocsUpTo buf (p ++ image d) (loc + d.size) (sub32 remaining d.size)) Q
                  _ _
                  (section_docs-Ensures fuel buf (p ++ image d) u (loc + d.size)
                    (sub32 remaining d.size) (num + 1) at1
                    (omega (arith, length-append p (image d), length-image d hd))
                    (omega (arith, n.0)) short (omega arith))
                  λ r h. record {
                    covered = (hd, h.covered);
                    end =
                        omega
                          (arith, h.end, length-append (image d) (images r.0), length-image d hd);
                    behind = h.behind;
                    there = At-join p (image d) (images r.0) h.there;
                    counted = elim h.counted [
                      | inl e ↦ inl (
                          omega (
                            arith,
                            e,
                            left.0,
                            left.1,
                            length-append (image d) (images r.0),
                            length-image d hd,
                          ))
                      | inr z ↦ absurd (omega (arith, z.0, left.0, left.1))
                    ];
                  }))
      | inr stop ↦ rw stop (record {
        covered = tt;
        end = omega arith;
        behind = t;
        there = record { split = at.split ∙ ap (λ x. x ++ t) (sym (append-nil p)) };
        counted = elim (none_left remaining r32 stop) [ inl e ↦ inl e | inr e ↦ inr (e, refl) ];
      })
    ]
