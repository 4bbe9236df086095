-- ===== src/Parse/Commands.antt =====
-- OP_COMMAND and OP_COMMAND_REPLY: what a parsed message says of its text.
use mongonet.Base.{
  ℕ, suc, ◌+◌, ◌^◌, ◌<◌, ◌≡◌, refl, sym, ap, subst, ◌∙◌, List, ◌++◌, arith, length, length-append,
  leb, not, true, Outcome, ok,
}
use mongonet.Base.Errors.{Ensures, Ensures-bind, ◌>>=◌}
use mongonet.Word.{slt64}
use mongonet.Word.Shifts.{int_of_small}
use mongonet.Bytes.Read.{slice_from-append}
use mongonet.Bson.{SimpleBson}
use mongonet.Bson.Docs.{IsDocsOf, docs_loop-Ensures, IsDocsOf-IsCovered, images-IsDocsOf}
use mongonet.Bson.Write.{IsCovered, image, images, length-image}
use mongonet.Wire.{MessageHeader, CommandMessage, CommandReplyMessage}
use mongonet.Serialize.Layout.{IsHeader, cstring, length-cstring}
use mongonet.Serialize.Commands.{command_body, IsCommand, command_reply_body, IsCommandReply}
use mongonet.Parse.{parse_command, parse_command_reply, skip_name, skip_bson}
use mongonet.Parse.Rules.{rule_cstring, rule_bson}

-- The body is the whole text.
pub record IsParsedCommand (h : MessageHeader) (buf : List ℕ) (m : CommandMessage) : Type 0 where
  pub head : m.header ≡ h
  pub valid : IsCommand m
  pub body : command_body m ≡ buf

pub record IsParsedCommandReply (h : MessageHeader) (buf : List ℕ) (m : CommandReplyMessage)
    : Type 0 where
  pub head : m.header ≡ h
  pub valid : IsCommandReply m
  pub body : command_reply_body m ≡ buf

-- What was read is skipped.
pub skip_name-append : (s u : List ℕ) → skip_name s (cstring s ++ u) ≡ ok u
unfolding skip_name
skip_name-append s u =
    let n = length-append (cstring s) u in
    let fits : leb (length s + 1) (length (cstring s ++ u)) ≡ true =
      ground (arith, n, length-cstring s) in
    rw fits (slice_from-append (cstring s) u (length s + 1) (omega (arith, length-cstring s)))

pub skip_bson-append :
    (d : SimpleBson) (u : List ℕ)
    → IsCovered d
    → length (image d ++ u) < 2 ^ 62
    → skip_bson d (image d ++ u) ≡ ok u
unfolding skip_bson slt64
skip_bson-append d u hd short =
    let n = length-append (image d) u in
    let fits : not (slt64 (length (image d ++ u)) d.size) ≡ true =
      ground (arith, n, length-image d hd, hd.small) in
    rw (int_of_small d.size hd.small, fits)
      (slice_from-append (image d) u d.size (omega (arith, length-image d hd)))

rule_skip_name :
    {B : Type 0} (Q : B → Type 0) (s u t : List ℕ) (k : List ℕ → Outcome B)
    → t ≡ cstring s ++ u
    → Ensures Q (k u)
    → Ensures Q (skip_name s t >>= k)
rule_skip_name Q s u t k e h =
    subst (λ m. Ensures Q (m >>= k)) (sym (ap (skip_name s) e ∙ skip_name-append s u)) h

rule_skip_bson :
    {B : Type 0} (Q : B → Type 0) (d : SimpleBson) (u t : List ℕ) (k : List ℕ → Outcome B)
    → IsCovered d
    → t ≡ image d ++ u
    → length t < 2 ^ 62
    → Ensures Q (k u)
    → Ensures Q (skip_bson d t >>= k)
rule_skip_bson Q d u t k hd e short h =
    subst (λ m. Ensures Q (m >>= k))
      (sym (ap (skip_bson d) e ∙ skip_bson-append d u hd (subst (λ x. length x < 2 ^ 62) e short)))
      h

module _ (h : MessageHeader) (buf : List ℕ) (head : IsHeader h) (short : length buf < 2 ^ 62) where
  pub parse_command_reply-Ensures : Ensures (IsParsedCommandReply h buf) (parse_command_reply h buf)
  unfolding parse_command_reply
  parse_command_reply-Ensures =
      let Q = IsParsedCommandReply h buf in
      rule_bson Q buf _ (omega arith) λ reply u hr e n. rule_skip_bson Q reply u buf _ hr e short (
        rule_bson Q u _ (omega arith) λ metadata u1 hm e1 n1.
          rule_skip_bson Q metadata u1 u _ hm e1 (omega arith) (
            Ensures-bind (IsDocsOf u1) Q _ _
              (docs_loop-Ensures (suc (length u1)) u1 (omega arith) (omega arith))
              λ docs read.
                let same : image reply ++ (image metadata ++ images docs) ≡ buf =
                  rw (images-IsDocsOf u1 docs read, ← e1, ← e) refl in
                record {
                  head = refl;
                  valid = record {
                    head = head;
                    reply = hr;
                    metadata = hm;
                    docs = IsDocsOf-IsCovered u1 docs read;
                    fits = omega (arith, ap length same);
                  };
                  body = same;
                }))

  pub parse_command-Ensures : Ensures (IsParsedCommand h buf) (parse_command h buf)
  unfolding parse_command
  parse_command-Ensures =
      let Q = IsParsedCommand h buf in
      rule_cstring Q buf _ λ db u0 nn0 e0.
        let n0 = ap length e0 ∙ length-append (cstring db) u0 in
        rule_skip_name Q db u0 buf _ e0 (
          rule_cstring Q u0 _ λ name u1 nn1 e1.
            let n1 = ap length e1 ∙ length-append (cstring name) u1 in
            rule_skip_name Q name u1 u0 _ e1 (
              rule_bson Q u1 _ (omega arith) λ args u2 ha e2 n2.
                rule_skip_bson Q args u2 u1 _ ha e2 (omega arith) (
                  rule_bson Q u2 _ (omega arith) λ metadata u3 hm e3 n3.
                    rule_skip_bson Q metadata u3 u2 _ hm e3 (omega arith) (
                      Ensures-bind (IsDocsOf u3) Q _ _
                        (docs_loop-Ensures (suc (length u3)) u3 (omega arith) (omega arith))
                        λ docs read.
                          let same : cstring db
                                ++ (cstring name ++ (image args ++ (image metadata ++ images docs)))
                              ≡ buf =
                            rw (images-IsDocsOf u3 docs read, ← e3, ← e2, ← e1, ← e0) refl in
                          record {
                            head = refl;
                            valid = record {
                              head = head;
                              args = ha;
                              metadata = hm;
                              docs = IsDocsOf-IsCovered u3 docs read;
                              fits = omega (arith, ap length same);
                            };
                            body = same;
                          }))))
