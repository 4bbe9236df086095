-- ===== src/Parse/Queries.antt =====
-- OP_QUERY and OP_GET_MORE: what a parsed message says of its text.
use mongonet.Base.{
  ℕ, ◌+◌, ◌^◌, ◌≤◌, ◌<◌, ◌≡◌, refl, ap, ◌∙◌, List, [], ◌++◌, append_assoc, arith, All, length,
  length-append, drop, leb, leb→le, inl, inr, Bool-cases,
}
use mongonet.Base.Errors.{Ensures, Ensures-bind, Ensures-guard}
use mongonet.Word.{slt64}
use mongonet.Bytes.Layout.{le32, le64}
use mongonet.Bytes.Read.{IsByte}
use mongonet.Bson.{no_bson}
use mongonet.Bson.Write.{IsCovered, image}
use mongonet.Wire.{MessageHeader, QueryMessage, GetMoreMessage}
use mongonet.Serialize.Layout.{IsHeader, cstring, length-cstring}
use mongonet.Serialize.Queries.{query_body, IsQuery, get_more_body, IsGetMore}
use mongonet.Parse.{parse_query, parse_project, parse_get_more}
use mongonet.Parse.Rules.{
  At, At-next, At-length, At-start, rule_int32, At-int32, At-int64, At-cstring, At-bson,
  after_document, DocNext, At-last_bson,
}

-- The body is the text, but for bytes that may follow.
pub record IsParsedQuery (h : MessageHeader) (buf : List ℕ) (m : QueryMessage) : Type 0 where
  pub head : m.header ≡ h
  pub valid : IsQuery m
  pub body : (rest : List ℕ) × (buf ≡ query_body m ++ rest)

-- The text is the body with the reserved field that was read; bytes may follow it.
pub record IsParsedGetMore (h : MessageHeader) (buf : List ℕ) (m : GetMoreMessage) : Type 0 where
  pub head : m.header ≡ h
  pub valid : IsGetMore m
  pub body : (rest : List ℕ) × (buf ≡ le32 m.reserved ++ (drop 4 (get_more_body m) ++ rest))

no_bson-IsCovered : IsCovered no_bson
no_bson-IsCovered = record { small = omega arith; covered = omega arith }

parse_project-Ensures :
    (buf p t : List ℕ) (loc : ℕ)
    → At buf p t
    → loc ≡ length p
    → length buf < 2 ^ 62
    → Ensures (DocNext buf p) (parse_project buf loc)
unfolding parse_project
parse_project-Ensures buf p t loc at l short = elim (Bool-cases (slt64 loc (length buf))) [
  | inl more ↦ rw more (At-last_bson buf p t loc at l (omega arith))
  | inr none_left ↦ rw none_left (no_bson-IsCovered, (t, At-next [] t at refl))
]

module _ (h : MessageHeader) (buf : List ℕ) (head : IsHeader h) (bytes : All IsByte buf)
    (short : length buf < 2 ^ 62) where
  pub parse_query-Ensures : Ensures (IsParsedQuery h buf) (parse_query h buf)
  unfolding parse_query
  parse_query-Ensures =
      let Q = IsParsedQuery h buf in
      Ensures-guard Q (leb 4 (length buf)) _ _ λ min.
        rule_int32 Q buf _ bytes (ground (arith, min)) λ flags t hf e.
          At-cstring Q 4 (At-next (le32 flags) t (At-start buf) e) refl _ λ s u nn at.
            let name = length-cstring s in
            let p = le32 flags ++ cstring s in
            let n = At-length at in
            let loc : ℕ = 4 + length s + 1 in
            Ensures-guard Q (leb (loc + 8) (length buf)) _ _ λ more.
              let room : loc + 8 ≤ length buf = leb→le _ _ more in
              At-int32 Q loc at (omega arith) _ bytes (omega arith) λ skip u1 hs at1.
                let n1 = At-length at1 in
                let p1 = length-append p (le32 skip) in
                At-int32 Q (loc + 4) at1 (omega arith) _ bytes (omega arith) λ n_return u2 hn at2.
                  let n2 = At-length at2 in
                  let p2 = length-append (p ++ le32 skip) (le32 n_return) in
                  At-bson Q (loc + 4 + 4) at2 (omega arith) _ (omega arith) λ query u3 hq at3 m3.
                    let n3 = At-length at3 in
                    let next = after_document (loc + 4 + 4) query hq (omega arith) in
                    Ensures-bind (DocNext buf (p ++ le32 skip ++ le32 n_return ++ image query)) Q _
                      _ (parse_project-Ensures buf _ u3 _ at3 (next ∙ omega arith) short)
                      λ project r.
                        let inner =
                          cstring s
                          ++ (le32 skip ++ (le32 n_return ++ (image query ++ image project))) in
                        let text : buf ≡ (le32 flags ++ inner) ++ r.1.0 =
                          r.1.1.split ∙ simp append_assoc in
                        record {
                          head = refl;
                          valid = record {
                            head = head;
                            flags = hf;
                            skip = hs;
                            n_return = hn;
                            query = hq;
                            project = r.0;
                            fits = omega (arith, ap length text, length-append inner r.1.0);
                          };
                          body = (r.1.0, text);
                        }

  pub parse_get_more-Ensures : Ensures (IsParsedGetMore h buf) (parse_get_more h buf)
  unfolding parse_get_more
  parse_get_more-Ensures =
      let Q = IsParsedGetMore h buf in
      Ensures-guard Q (leb 4 (length buf)) _ _ λ min.
        rule_int32 Q buf _ bytes (ground (arith, min)) λ reserved t hr e.
          At-cstring Q 4 (At-next (le32 reserved) t (At-start buf) e) refl _ λ s u nn at.
            let name = length-cstring s in
            let p = le32 reserved ++ cstring s in
            let n = At-length at in
            let loc : ℕ = 4 + length s + 1 in
            Ensures-guard Q (leb (loc + 12) (length buf)) _ _ λ more.
              let room : loc + 12 ≤ length buf = leb→le _ _ more in
              At-int32 Q loc at (omega arith) _ bytes (omega arith) λ n_return u1 hn at1.
                let n1 = At-length at1 in
                let p1 = length-append p (le32 n_return) in
                At-int64 Q (loc + 4) at1 (omega arith) _ bytes (omega arith) λ cursor u2 hc at2.
                  let text : buf
                      ≡ le32 reserved ++ ((cstring s ++ (le32 n_return ++ le64 cursor)) ++ u2) =
                    at2.split ∙ simp append_assoc in
                  record {
                    head = refl;
                    valid = record {
                      head = head;
                      n_return = hn;
                      cursor_id = hc;
                      fits = omega (arith, ap length text, length-append {0});
                    };
                    body = (u2, text);
                  }
