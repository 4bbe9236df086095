-- ===== src/Parse/Writes.antt =====
-- OP_INSERT, OP_UPDATE and OP_DELETE: what a parsed message says of the body that it was read from.
use mongonet.Base.{
  ℕ, suc, ◌+◌, ◌^◌, ◌≤◌, ◌<◌, ◌≡◌, refl, sym, ap, subst, ◌∙◌, List, ◌++◌, append_assoc, arith, All,
  length, length-append, drop, leb, leb→le, not, ok,
}
use mongonet.Base.Errors.{Ensures, Ensures-bind, Ensures-guard}
use mongonet.Word.{int_of, slt64, add_int}
use mongonet.Bytes.Layout.{le32}
use mongonet.Bytes.Read.{IsByte}
use mongonet.Bson.{docs_from}
use mongonet.Bson.Docs.{IsDocsOf, docs_from-Ensures, IsDocsOf-IsCovered, images-IsDocsOf}
use mongonet.Bson.Write.{image, images}
use mongonet.Wire.{MessageHeader, InsertMessage, UpdateMessage, DeleteMessage}
use mongonet.Serialize.Layout.{IsHeader, cstring, length-cstring}
use mongonet.Serialize.Writes.{insert_body, IsInsert, update_body, IsUpdate, delete_body, IsDelete}
use mongonet.Parse.{parse_insert, parse_update, parse_delete}
use mongonet.Parse.Rules.{
  At-next, At-length, At-start, At-drop, rule_int32, At-int32, At-cstring, At-bson, after_document,
}

-- The message has the given header and can be serialized, and its body is the text.
pub record IsParsedInsert (h : MessageHeader) (buf : List ℕ) (m : InsertMessage) : Type 0 where
  pub head : m.header ≡ h
  pub valid : IsInsert m
  pub body : insert_body m ≡ buf

module _ (h : MessageHeader) (buf : List ℕ) (head : IsHeader h) (bytes : All IsByte buf)
    (short : length buf < 2 ^ 62) where
  pub parse_insert-Ensures : Ensures (IsParsedInsert h buf) (parse_insert h buf)
  unfolding parse_insert
  parse_insert-Ensures =
      let Q = IsParsedInsert h buf in
      Ensures-guard Q (leb 4 (length buf)) _ _ λ min.
        rule_int32 Q buf _ bytes (ground (arith, min)) λ flags t hf e.
          At-cstring Q 4 (At-next (le32 flags) t (At-start buf) e) refl _ λ s u nn at.
            let loc : 4 + length s + 1 ≡ length (le32 flags ++ cstring s) =
              omega (arith, length-cstring s) in
            Ensures-bind (IsDocsOf u) Q _ _
              (subst
                (λ r. Ensures (IsDocsOf r) (docs_from (suc (length buf)) buf (4 + length s + 1)))
                (At-drop (4 + length s + 1) at loc)
                (docs_from-Ensures (suc (length buf)) buf (4 + length s + 1)
                  (omega (arith, At-length at)) (omega arith) (omega arith)))
              λ docs read.
                let same : le32 flags ++ (cstring s ++ images docs) ≡ buf =
                  rw (images-IsDocsOf u docs read) (sym at.split) in
                record {
                  head = refl;
                  valid = record {
                    head = head;
                    flags = hf;
                    docs = IsDocsOf-IsCovered u docs read;
                    fits = omega (arith, ap length same);
                  };
                  body = same;
                }

-- The text is the body with the reserved field that was read; bytes may follow it.
pub record IsParsedUpdate (h : MessageHeader) (buf : List ℕ) (m : UpdateMessage) : Type 0 where
  pub head : m.header ≡ h
  pub valid : IsUpdate m
  pub body : (rest : List ℕ) × (buf ≡ le32 m.reserved ++ (drop 4 (update_body m) ++ rest))

pub record IsParsedDelete (h : MessageHeader) (buf : List ℕ) (m : DeleteMessage) : Type 0 where
  pub head : m.header ≡ h
  pub valid : IsDelete m
  pub body : (rest : List ℕ) × (buf ≡ le32 m.reserved ++ (drop 4 (delete_body m) ++ rest))

module _ (h : MessageHeader) (buf : List ℕ) (head : IsHeader h) (bytes : All IsByte buf)
    (short : length buf < 2 ^ 62) where
  pub parse_update-Ensures : Ensures (IsParsedUpdate h buf) (parse_update h buf)
  unfolding parse_update
  parse_update-Ensures =
      let Q = IsParsedUpdate h buf in
      Ensures-guard Q (leb 4 (length buf)) _ _ λ min.
        rule_int32 Q buf _ bytes (ground (arith, min)) λ reserved t hr e.
          At-cstring Q 4 (At-next (le32 reserved) t (At-start buf) e) refl _ λ s u nn at.
            let name = length-cstring s in
            let p = le32 reserved ++ cstring s in
            let n = At-length at in
            Ensures-guard Q (leb (4 + length s + 1 + 4) (length buf)) _ _ λ more.
              let room : 4 + length s + 1 + 4 ≤ length buf = leb→le _ _ more in
              At-int32 Q (4 + length s + 1) at (omega arith) _ bytes (omega arith)
                λ flags u1 hf at1.
                  At-bson Q (4 + length s + 1 + 4) at1 (omega (arith, length-append p (le32 flags)))
                    _ (omega arith)
                    λ filter u2 hfl at2 n2.
                      let loc =
                        after_document (4 + length s + 1 + 4) filter hfl
                          (omega (arith, At-length at1)) in
                      Ensures-guard Q
                        (not (
                          slt64 (length buf) (add_int (4 + length s + 1 + 4) (int_of filter.size))))
                        _ _
                        λ _.
                          At-bson Q _ at2
                            (loc
                              ∙ omega (
                                arith,
                                At-length at1,
                                At-length at2,
                                length-append p (le32 flags),
                                n2.1,
                              ))
                            (λ x. ok (record {
                              header = h;
                              reserved = reserved;
                              namespace = s;
                              flags = flags;
                              filter = filter;
                              update = x;
                            }))
                            (omega arith)
                            λ update u3 hu at3 n3.
                              let text : buf
                                  ≡ le32 reserved
                                    ++ ((cstring s
                                          ++ (le32 flags ++ (image filter ++ image update)))
                                        ++ u3) =
                                at3.split ∙ simp append_assoc in
                              record {
                                head = refl;
                                valid = record {
                                  head = head;
                                  flags = hf;
                                  filter = hfl;
                                  update = hu;
                                  fits = omega (
                                    arith,
                                    ap length text,
                                    length-append
                                        (cstring s
                                          ++ (le32 flags ++ (image filter ++ image update)))
                                        u3,
                                  );
                                };
                                body = (u3, text);
                              }

  pub parse_delete-Ensures : Ensures (IsParsedDelete h buf) (parse_delete h buf)
  unfolding parse_delete
  parse_delete-Ensures =
      let Q = IsParsedDelete h buf in
      Ensures-guard Q (leb 4 (length buf)) _ _ λ min.
        rule_int32 Q buf _ bytes (ground (arith, min)) λ reserved t hr e.
          At-cstring Q 4 (At-next (le32 reserved) t (At-start buf) e) refl _ λ s u nn at.
            let name = length-cstring s in
            let p = le32 reserved ++ cstring s in
            let n = At-length at in
            Ensures-guard Q (leb (4 + length s + 1 + 4) (length buf)) _ _ λ more.
              let room : 4 + length s + 1 + 4 ≤ length buf = leb→le _ _ more in
              At-int32 Q (4 + length s + 1) at (omega arith) _ bytes (omega arith)
                λ flags u1 hf at1.
                  At-bson Q (4 + length s + 1 + 4) at1 (omega (arith, length-append p (le32 flags)))
                    _ (omega arith)
                    λ filter u2 hfl at2 n2.
                      let text : buf
                          ≡ le32 reserved ++ ((cstring s ++ (le32 flags ++ image filter)) ++ u2) =
                        at2.split ∙ simp append_assoc in
                      record {
                        head = refl;
                        valid = record {
                          head = head;
                          flags = hf;
                          filter = hfl;
                          fits = omega (
                            arith,
                            ap length text,
                            length-append (cstring s ++ (le32 flags ++ image filter)) u2,
                          );
                        };
                        body = (u2, text);
                      }
