-- ===== src/RoundTrip/Legacy.antt =====
-- wire_insert.go: the parser on the body that `Serialize` writes.
use mongonet.Base.{
  suc, ◌+◌, ◌^◌, ◌<◌, ◌≡◌, refl, sym, ap, ◌∙◌, ◌++◌, append_assoc, arith, All, length,
  length-append, ok,
}
use mongonet.Bytes.Layout.{le32}
use mongonet.Bytes.Read.{NoNul, read_int32-le32}
use mongonet.Bson.{docs_from}
use mongonet.Bson.Parse.{IsDoc}
use mongonet.Bson.Write.{images}
use mongonet.Bson.Docs.{docs_from-images}
use mongonet.Wire.{MessageHeader, InsertMessage}
use mongonet.Serialize.Layout.{IsInt32, cstring, length-cstring}
use mongonet.Serialize.Writes.{insert_body}
use mongonet.Parse.{parse_insert}
use mongonet.Parse.Rules.{At-start, At-next}
use mongonet.RoundTrip.{step, step_guard, step_slice, read_cstring-cstring}

-- An insert whose flags are an int32, whose namespace has no zero byte and whose documents start with
-- their own length, of at most 128 MB, is read back from its body (shorter than 2 ^ 62): the same flags,
-- namespace and documents.
pub parse_insert-insert_body :
    (h : MessageHeader) (m : InsertMessage)
    → IsInt32 m.flags
    → NoNul m.namespace
    → All IsDoc m.docs
    → length (insert_body m) < 2 ^ 62
    → parse_insert h (insert_body m) ≡ ok (record m { header = h })
unfolding parse_insert
parse_insert-insert_body h m hf nn hd short =
    let buf = insert_body m in
    let rest = cstring m.namespace ++ images m.docs in
    let at = At-next (le32 m.flags) rest (At-start buf) refl in
    let name = length-cstring m.namespace in
    let whole : le32 m.flags ++ rest ≡ (le32 m.flags ++ cstring m.namespace) ++ images m.docs =
      sym (append_assoc (le32 m.flags) (cstring m.namespace) (images m.docs)) in
    step_guard _ _ _ (ground arith)
    ∙ step _ _ _ (read_int32-le32 m.flags rest hf)
    ∙ step_slice _ buf (le32 m.flags) rest 4 at refl
    ∙ step _ _ _ (read_cstring-cstring m.namespace (images m.docs) nn)
    ∙ step _ _ m.docs (
        ap (λ b. docs_from (suc (length buf)) b (4 + length m.namespace + 1)) whole
        ∙ docs_from-images m.docs (suc (length buf)) (le32 m.flags ++ cstring m.namespace) _ hd
            (omega arith) (omega (arith, length-append (cstring m.namespace) (images m.docs)))
            (omega (arith, length-append (cstring m.namespace) (images m.docs))))
