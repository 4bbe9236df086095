-- ===== src/Parse/Cursors.antt =====
-- OP_KILL_CURSORS and OP_REPLY: what a parsed message says of its text.
use mongonet.Base.{
  ℕ, zero, suc, ◌+◌, ◌*◌, ◌%◌, ◌^◌, ◌≤◌, ◌<◌, ◌≡◌, refl, sym, ap, subst, ◌∙◌, List, [], ◌++◌,
  append_assoc, arith, All, length, length-append, drop, leb, leb→le, not, ◌||◌, Bool, true,
}
use mongonet.Base.Errors.{Ensures, Ensures-bind, Ensures-guard}
use mongonet.Word.{int_of, slt64, is_neg64}
use mongonet.Bytes.Layout.{le32, le64}
use mongonet.Bytes.Read.{IsByte}
use mongonet.Bson.{docs_from}
use mongonet.Bson.Docs.{IsDocsOf, docs_from-Ensures, IsDocsOf-IsCovered, images-IsDocsOf}
use mongonet.Bson.Write.{IsCovered, images}
use mongonet.Wire.{MessageHeader, KillCursorsMessage, ReplyMessage}
use mongonet.Serialize.Layout.{IsHeader, IsInt32, IsInt64, cursors_image}
use mongonet.Serialize.Queries.{kill_cursors_body, IsKillCursors}
use mongonet.Parse.{parse_kill_cursors, parse_reply, cursors_from, max_int32}
use mongonet.Parse.Rules.{
  At, At-next, At-length, At-start, At-drop, rule_int32, rule_slice, At-int32, At-int64,
}

-- The count is that of the identifiers; bytes may follow them.
pub record IsParsedKillCursors (h : MessageHeader) (buf : List ℕ) (m : KillCursorsMessage)
    : Type 0 where
  pub head : m.header ≡ h
  pub valid : IsKillCursors m
  pub body : (rest : List ℕ) × (buf ≡ le32 m.reserved ++ (drop 4 (kill_cursors_body m) ++ rest))

-- `n` identifiers behind `p`.
abbrev CursorsNext : List ℕ → List ℕ → ℕ → List ℕ → Type 0
CursorsNext buf p n cs =
    (length cs ≡ n) × All IsInt64 cs × ((u : List ℕ) × At buf (p ++ cursors_image cs) u)

cursors_from-Ensures :
    (n : ℕ) (buf p t : List ℕ) (loc : ℕ)
    → At buf p t
    → loc ≡ length p
    → All IsByte buf
    → 8 * n ≤ length t
    → Ensures (CursorsNext buf p n) (cursors_from n buf loc)
unfolding cursors_from
cursors_from-Ensures zero buf p t loc at l bytes room = (refl, tt, (t, At-next [] t at refl))
cursors_from-Ensures (suc n) buf p t loc at l bytes room =
    let Q = CursorsNext buf p (suc n) in
    At-int64 Q loc at l _ bytes (omega arith) λ c u hc at1.
      Ensures-bind (CursorsNext buf (p ++ le64 c) n) Q _ _
        (cursors_from-Ensures n buf (p ++ le64 c) u (loc + 8) at1
          (omega (arith, length-append p (le64 c))) bytes
          (omega (arith, At-length at, At-length at1, length-append p (le64 c))))
        λ cs r. (
          ap suc r.0,
          (hc, r.1),
          (
            r.2.0,
            record { split = r.2.1.split ∙ ap (λ x. x ++ r.2.0) (append_assoc p (le64 c) _) },
          ),
        )

-- The tests leave a count from 0 to 2 ^ 31 - 1 whose identifiers the text has.
abbrev in_range : ℕ → Bool
in_range num = not (is_neg64 (int_of num) || slt64 max_int32 (int_of num))

counts_left :
    (num n : ℕ)
    → num < 2 ^ 32
    → n < 2 ^ 62
    → not (slt64 n (int_of num * 8 % 2 ^ 64)) ≡ true
    → in_range num ≡ true
    → (int_of num ≡ num) × (num < 2 ^ 31) × (8 * num ≤ n)
unfolding slt64 int_of
counts_left num n h short e f = ground arith

module _ (h : MessageHeader) (buf : List ℕ) (head : IsHeader h) (bytes : All IsByte buf)
    (short : length buf < 2 ^ 62) where
  pub parse_kill_cursors-Ensures : Ensures (IsParsedKillCursors h buf) (parse_kill_cursors h buf)
  unfolding parse_kill_cursors
  parse_kill_cursors-Ensures =
      let Q = IsParsedKillCursors h buf in
      Ensures-guard Q (leb 8 (length buf)) _ _ λ min.
        let enough : 8 ≤ length buf = leb→le _ _ min in
        rule_int32 Q buf _ bytes (omega arith) λ reserved t hr e.
          let start = At-next (le32 reserved) t (At-start buf) e in
          At-int32 Q 4 start refl _ bytes (omega (arith, At-length start)) λ num u hn at.
            rule_slice Q buf _ u 8 _ at refl (
              Ensures-guard Q (not (slt64 (length u) (int_of num * 8 % 2 ^ 64))) _ _ λ room.
                Ensures-guard Q (in_range num) _ _ λ range.
                  let fits =
                    counts_left num (length u) hn (omega (arith, At-length at)) room range in
                  Ensures-bind (CursorsNext buf (le32 reserved ++ le32 num) (int_of num)) Q _ _
                    (cursors_from-Ensures (int_of num) buf (le32 reserved ++ le32 num) u 8 at refl
                      bytes (omega (arith, fits.0, fits.2)))
                    λ ids r. record {
                      head = refl;
                      valid = record {
                        head = head;
                        num_cursors = fits.1;
                        counted = omega (arith, fits.0, r.0);
                        cursor_ids = r.1;
                      };
                      body = (r.2.0, r.2.1.split ∙ simp append_assoc);
                    })

-- The bytes of a reply in front of its documents.
abbrev pub reply_fields : ReplyMessage → List ℕ
reply_fields m =
    le32 m.flags ++ (le64 m.cursor_id ++ (le32 m.starting_from ++ le32 m.number_returned))

-- The fields and the counted bytes of the documents are the text. A document may have more bytes
-- than it counts: the shortcut for an empty one takes all that is left.
pub record IsParsedReply (h : MessageHeader) (buf : List ℕ) (m : ReplyMessage) : Type 0 where
  pub head : m.header ≡ h
  pub flags : IsInt32 m.flags
  pub cursor_id : IsInt64 m.cursor_id
  pub starting_from : IsInt32 m.starting_from
  pub number_returned : IsInt32 m.number_returned
  pub docs : All IsCovered m.docs
  pub body : reply_fields m ++ images m.docs ≡ buf

module _ (h : MessageHeader) (buf : List ℕ) (bytes : All IsByte buf)
    (short : length buf < 2 ^ 62) where
  -- For a body of bytes shorter than 2 ^ 62: `parseReplyMessage` neither panics nor loops. The message
  -- that it gives has the given header, fields in range and documents with the bytes that they count;
  -- the body is the fields and those bytes, and nothing else.
  pub parse_reply-Ensures : Ensures (IsParsedReply h buf) (parse_reply h buf)
  unfolding parse_reply
  parse_reply-Ensures =
      let Q = IsParsedReply h buf in
      Ensures-guard Q (leb 20 (length buf)) _ _ λ min.
        let enough : 20 ≤ length buf = leb→le _ _ min in
        rule_int32 Q buf _ bytes (omega arith) λ flags t hf e.
          let at = At-next (le32 flags) t (At-start buf) e in
          let n = At-length at in
          At-int64 Q 4 at refl _ bytes (omega arith) λ cursor u1 hc at1.
            let n1 = At-length at1 in
            At-int32 Q 12 at1 refl _ bytes (omega arith) λ start u2 hs at2.
              let n2 = At-length at2 in
              At-int32 Q 16 at2 refl _ bytes (omega arith) λ number u3 hn at3.
                Ensures-bind (IsDocsOf u3) Q _ _
                  (subst (λ r. Ensures (IsDocsOf r) (docs_from (suc (length buf)) buf 20))
                    (At-drop 20 at3 refl)
                    (docs_from-Ensures (suc (length buf)) buf 20 enough (omega arith)
                      (omega arith)))
                  λ docs read. record {
                    head = refl;
                    flags = hf;
                    cursor_id = hc;
                    starting_from = hs;
                    number_returned = hn;
                    docs = IsDocsOf-IsCovered u3 docs read;
                    body = rw (images-IsDocsOf u3 docs read) (sym at3.split);
                  }
