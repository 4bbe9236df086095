-- ===== src/RoundTrip/Writes.antt =====
-- wire_update.go and wire_delete.go: the parsers on the bodies that `Serialize` writes.
use mongonet.Base.{
  ◌+◌, ◌^◌, ◌<◌, ◌≡◌, refl, ◌∙◌, ◌++◌, true, not, leb, arith, length, length-append, ok,
}
use mongonet.Word.{slt64, int_of, add_int}
use mongonet.Bytes.Layout.{le32}
use mongonet.Bytes.Read.{NoNul, read_int32-le32}
use mongonet.Bson.Parse.{IsDoc}
use mongonet.Bson.Write.{image, length-image}
use mongonet.Bson.Docs.{IsDoc-IsCovered}
use mongonet.Wire.{MessageHeader, UpdateMessage, DeleteMessage}
use mongonet.Serialize.Layout.{IsInt32, cstring, length-cstring}
use mongonet.Serialize.Writes.{update_body, delete_body}
use mongonet.Parse.{parse_update, parse_delete}
use mongonet.Parse.Rules.{At-start, At-next, At-length, after_document}
use mongonet.RoundTrip.{
  step, step_guard, step_slice, slt64-within, read_cstring-cstring, parse_simple_bson-image,
  parse_simple_bson-last,
}

-- An update with int32 flags, whose namespace has no zero byte and whose documents start with their own length
-- is read back from its body (shorter than 2 ^ 62), with the reserved field cleared.
pub parse_update-update_body :
    (h : MessageHeader) (m : UpdateMessage)
    → NoNul m.namespace
    → IsInt32 m.flags
    → IsDoc m.filter
    → IsDoc m.update
    → length (update_body m) < 2 ^ 62
    → parse_update h (update_body m) ≡ ok (record m { header = h; reserved = 0 })
unfolding parse_update
parse_update-update_body h m nn hf h1 h2 short =
    let buf = update_body m in
    let t3 = image m.filter ++ image m.update in
    let t2 = le32 m.flags ++ t3 in
    let t1 = cstring m.namespace ++ t2 in
    let loc = 4 + length m.namespace + 1 in
    let name = length-cstring m.namespace in
    let at1 = At-next (le32 0) t1 (At-start buf) refl in
    let at2 = At-next (cstring m.namespace) t2 at1 refl in
    let at3 = At-next (le32 m.flags) t3 at2 refl in
    let at4 = At-next (image m.filter) (image m.update) at3 refl in
    let front = length-append (le32 0 ++ cstring m.namespace) (le32 m.flags) in
    let front3 = length-append ((le32 0 ++ cstring m.namespace) ++ le32 m.flags) (image m.filter) in
    let size = length-image m.filter (IsDoc-IsCovered m.filter h1) in
    let parts = length-append (image m.filter) (image m.update) in
    let whole = At-length at3 in
    let min : leb 4 (length buf) ≡ true = ground arith in
    let enough : leb (loc + 4) (length buf) ≡ true = ground arith in
    let next = after_document (loc + 4) m.filter (IsDoc-IsCovered m.filter h1) (omega arith) in
    let fits : not (slt64 (length buf) (add_int (loc + 4) (int_of m.filter.size))) ≡ true =
      rw next (slt64-within (length buf) (loc + 4 + m.filter.size) (omega arith) short) in
    step_guard _ _ _ min
    ∙ step _ _ 0 (read_int32-le32 0 t1 (omega arith))
    ∙ step_slice _ buf _ t1 4 at1 refl
    ∙ step _ _ m.namespace (read_cstring-cstring m.namespace t2 nn)
    ∙ step_guard _ _ _ enough
    ∙ step_slice _ buf _ t2 loc at2 (omega arith)
    ∙ step _ _ m.flags (read_int32-le32 m.flags t3 hf)
    ∙ step_slice _ buf _ t3 (loc + 4) at3 (omega arith)
    ∙ step _ _ m.filter (parse_simple_bson-image m.filter (image m.update) h1 (omega arith))
    ∙ step_guard _ _ _ fits
    ∙ step_slice _ buf _ (image m.update) _ at4 (next ∙ omega arith)
    ∙ step _ _ m.update (parse_simple_bson-last m.update h2 (omega arith))

-- Likewise a delete.
pub parse_delete-delete_body :
    (h : MessageHeader) (m : DeleteMessage)
    → NoNul m.namespace
    → IsInt32 m.flags
    → IsDoc m.filter
    → length (delete_body m) < 2 ^ 62
    → parse_delete h (delete_body m) ≡ ok (record m { header = h; reserved = 0 })
unfolding parse_delete
parse_delete-delete_body h m nn hf h1 short =
    let buf = delete_body m in
    let t3 = image m.filter in
    let t2 = le32 m.flags ++ t3 in
    let t1 = cstring m.namespace ++ t2 in
    let loc = 4 + length m.namespace + 1 in
    let name = length-cstring m.namespace in
    let at1 = At-next (le32 0) t1 (At-start buf) refl in
    let at2 = At-next (cstring m.namespace) t2 at1 refl in
    let at3 = At-next (le32 m.flags) t3 at2 refl in
    let front = length-append (le32 0 ++ cstring m.namespace) (le32 m.flags) in
    let whole = At-length at3 in
    let min : leb 4 (length buf) ≡ true = ground arith in
    let enough : leb (loc + 4) (length buf) ≡ true = ground arith in
    step_guard _ _ _ min
    ∙ step _ _ 0 (read_int32-le32 0 t1 (omega arith))
    ∙ step_slice _ buf _ t1 4 at1 refl
    ∙ step _ _ m.namespace (read_cstring-cstring m.namespace t2 nn)
    ∙ step_guard _ _ _ enough
    ∙ step_slice _ buf _ t2 loc at2 (omega arith)
    ∙ step _ _ m.flags (read_int32-le32 m.flags t3 hf)
    ∙ step_slice _ buf _ t3 (loc + 4) at3 (omega arith)
    ∙ step _ _ m.filter (parse_simple_bson-last m.filter h1 (omega arith))
