-- ===== src/RoundTrip/Commands.antt =====
-- wire_command.go: the parser on the body that `Serialize` writes.
use mongonet.Base.{
  ℕ, suc, ◌+◌, ◌^◌, ◌<◌, ◌≡◌, sym, ◌∙◌, List, ◌++◌, true, leb, arith, All, length, length-append,
  ok,
}
use mongonet.Bytes.Read.{NoNul, slice_from-append}
use mongonet.Bson.Parse.{IsDoc}
use mongonet.Bson.Write.{image, images}
use mongonet.Bson.Docs.{docs_loop-images}
use mongonet.Wire.{MessageHeader, CommandMessage}
use mongonet.Serialize.Layout.{cstring, length-cstring}
use mongonet.Serialize.Commands.{command_body}
use mongonet.Parse.{skip_name, parse_command}
use mongonet.RoundTrip.{step, step_guard, read_cstring-cstring, parse_simple_bson-image}
use mongonet.RoundTrip.Replies.{skip_bson-image}

skip_name-cstring : (s t : List ℕ) → skip_name s (cstring s ++ t) ≡ ok t
unfolding skip_name
skip_name-cstring s t =
    let name = length-cstring s in
    let both = length-append (cstring s) t in
    let enough : leb (length s + 1) (length (cstring s ++ t)) ≡ true = ground arith in
    step_guard _ _ _ enough ∙ slice_from-append (cstring s) t (length s + 1) (sym name)

-- A command whose names have no zero byte and whose documents start with their own length is read back from
-- its body (shorter than 2 ^ 62).
pub parse_command-command_body :
    (h : MessageHeader) (m : CommandMessage)
    → NoNul m.db
    → NoNul m.cmd_name
    → IsDoc m.command_args
    → IsDoc m.metadata
    → All IsDoc m.input_docs
    → length (command_body m) < 2 ^ 62
    → parse_command h (command_body m) ≡ ok (record m { header = h })
unfolding parse_command
parse_command-command_body h m nd nc ha hm hd short =
    let t4 = images m.input_docs in
    let t3 = image m.metadata ++ t4 in
    let t2 = image m.command_args ++ t3 in
    let t1 = cstring m.cmd_name ++ t2 in
    let l1 = length-append (cstring m.db) t1 in
    let l2 = length-append (cstring m.cmd_name) t2 in
    let l3 = length-append (image m.command_args) t3 in
    let l4 = length-append (image m.metadata) t4 in
    step _ _ m.db (read_cstring-cstring m.db t1 nd)
    ∙ step _ _ t1 (skip_name-cstring m.db t1)
    ∙ step _ _ m.cmd_name (read_cstring-cstring m.cmd_name t2 nc)
    ∙ step _ _ t2 (skip_name-cstring m.cmd_name t2)
    ∙ step _ _ m.command_args (parse_simple_bson-image m.command_args t3 ha (omega arith))
    ∙ step _ _ t3 (skip_bson-image m.command_args t3 ha (omega arith))
    ∙ step _ _ m.metadata (parse_simple_bson-image m.metadata t4 hm (omega arith))
    ∙ step _ _ t4 (skip_bson-image m.metadata t4 hm (omega arith))
    ∙ step _ _ m.input_docs
        (docs_loop-images m.input_docs (suc (length t4)) hd (omega arith) (omega arith))
