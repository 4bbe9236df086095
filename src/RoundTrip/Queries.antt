-- ===== src/RoundTrip/Queries.antt =====
-- wire_query.go, wire_get_more.go and wire_kill_cursors.go: the parsers on the bodies that `Serialize` writes.
use mongonet.Base.{
  ℕ, ◌+◌, ◌*◌, ◌%◌, ◌^◌, ◌<◌, ◌≡◌, ◌⊎◌, inl, inr, refl, sym, ap, ◌∙◌, List, [], ◌∷◌, ◌++◌, true,
  false, not, ◌||◌, leb, arith, All, length, length-append, ok,
}
use mongonet.Word.{int_of, slt64, is_neg64}
use mongonet.Word.Shifts.{int_of_small}
use mongonet.Bytes.Layout.{le32, le64}
use mongonet.Bytes.Read.{NoNul, read_int32-le32, read_int64-le64}
use mongonet.Bson.{SimpleBson, no_bson}
use mongonet.Bson.Parse.{IsDoc}
use mongonet.Bson.Write.{image, length-image}
use mongonet.Bson.Docs.{IsDoc-IsCovered}
use mongonet.Wire.{MessageHeader, QueryMessage, GetMoreMessage, KillCursorsMessage}
use mongonet.Serialize.Layout.{
  IsInt32, IsInt64, cstring, length-cstring, cursors_image, length-cursors_image,
}
use mongonet.Serialize.Queries.{query_body, get_more_body, kill_cursors_body}
use mongonet.Parse.{
  parse_project, parse_query, parse_get_more, max_int32, cursors_from, parse_kill_cursors,
}
use mongonet.Parse.Rules.{At, At-start, At-next, At-length, after_document}
use mongonet.RoundTrip.{
  step, step_guard, step_slice, read_cstring-cstring, parse_simple_bson-image,
  parse_simple_bson-last,
}

-- The projection stands at the end, or there is none.
parse_project-image :
    (d : SimpleBson) (buf p : List ℕ) (loc : ℕ)
    → IsDoc d ⊎ (d ≡ no_bson)
    → At buf p (image d)
    → loc ≡ length p
    → length buf < 2 ^ 62
    → parse_project buf loc ≡ ok d
unfolding parse_project slt64
parse_project-image d buf p loc (inl h) at l short =
    let here = At-length at in
    let size = length-image d (IsDoc-IsCovered d h) in
    let more : slt64 loc (length buf) ≡ true = ground (arith, h.positive) in
    rw more (step_slice _ buf p (image d) loc at l ∙ parse_simple_bson-last d h (omega arith))
parse_project-image d buf p loc (inr e) at l short =
    let nothing : length (image d) ≡ 0 = ap (λ x. length (image x)) e in
    let here = At-length at in
    let stop : slt64 loc (length buf) ≡ false = ground arith in rw (stop, e) refl

-- A query of int32 fields, whose namespace has no zero byte, whose document starts with its own length, and
-- likewise the projection, where there is one, is read back from its body (shorter than 2 ^ 62).
pub parse_query-query_body :
    (h : MessageHeader) (m : QueryMessage)
    → IsInt32 m.flags
    → NoNul m.namespace
    → IsInt32 m.skip
    → IsInt32 m.n_return
    → IsDoc m.query
    → IsDoc m.project ⊎ (m.project ≡ no_bson)
    → length (query_body m) < 2 ^ 62
    → parse_query h (query_body m) ≡ ok (record m { header = h })
unfolding parse_query
parse_query-query_body h m hf nn hs hn hq hp short =
    let buf = query_body m in
    let t4 = image m.query ++ image m.project in
    let t3 = le32 m.n_return ++ t4 in
    let t2 = le32 m.skip ++ t3 in
    let t1 = cstring m.namespace ++ t2 in
    let loc = 4 + length m.namespace + 1 in
    let name = length-cstring m.namespace in
    let at1 = At-next (le32 m.flags) t1 (At-start buf) refl in
    let at2 = At-next (cstring m.namespace) t2 at1 refl in
    let at3 = At-next (le32 m.skip) t3 at2 refl in
    let at4 = At-next (le32 m.n_return) t4 at3 refl in
    let at5 = At-next (image m.query) (image m.project) at4 refl in
    let front : length (le32 m.flags ++ cstring m.namespace) ≡ loc = omega arith in
    let front3 : length ((le32 m.flags ++ cstring m.namespace) ++ le32 m.skip) ≡ loc + 4 =
      omega (arith, length-append (le32 m.flags ++ cstring m.namespace) (le32 m.skip)) in
    let front4 : length (((le32 m.flags ++ cstring m.namespace) ++ le32 m.skip) ++ le32 m.n_return)
        ≡ loc + 4 + 4 =
      omega (
        arith,
        length-append ((le32 m.flags ++ cstring m.namespace) ++ le32 m.skip) (le32 m.n_return),
      ) in
    let size = length-image m.query (IsDoc-IsCovered m.query hq) in
    let whole = At-length at4 in
    let parts = length-append (image m.query) (image m.project) in
    let min : leb 4 (length buf) ≡ true = ground arith in
    let enough : leb (loc + 8) (length buf) ≡ true = ground arith in
    let next = after_document (loc + 4 + 4) m.query (IsDoc-IsCovered m.query hq) (omega arith) in
    step_guard _ _ _ min
    ∙ step _ _ m.flags (read_int32-le32 m.flags t1 hf)
    ∙ step_slice _ buf _ t1 4 at1 refl
    ∙ step _ _ m.namespace (read_cstring-cstring m.namespace t2 nn)
    ∙ step_guard _ _ _ enough
    ∙ step_slice _ buf _ t2 loc at2 (sym front)
    ∙ step _ _ m.skip (read_int32-le32 m.skip t3 hs)
    ∙ step_slice _ buf _ t3 (loc + 4) at3 (sym front3)
    ∙ step _ _ m.n_return (read_int32-le32 m.n_return t4 hn)
    ∙ step_slice _ buf _ t4 (loc + 4 + 4) at4 (sym front4)
    ∙ step _ _ m.query (parse_simple_bson-image m.query (image m.project) hq (omega arith))
    ∙ step _ _ m.project (
        ap (parse_project buf) next
        ∙ parse_project-image m.project buf _ (loc + 4 + 4 + m.query.size) hp at5
            (omega (
              arith,
              length-append
                  (((le32 m.flags ++ cstring m.namespace) ++ le32 m.skip) ++ le32 m.n_return)
                  (image m.query),
            ))
            short)

-- A get-more of an int32 and an int64, whose namespace has no zero byte, is read back from its body (shorter
-- than 2 ^ 62), with the reserved field cleared.
pub parse_get_more-get_more_body :
    (h : MessageHeader) (m : GetMoreMessage)
    → NoNul m.namespace
    → IsInt32 m.n_return
    → IsInt64 m.cursor_id
    → length (get_more_body m) < 2 ^ 62
    → parse_get_more h (get_more_body m) ≡ ok (record m { header = h; reserved = 0 })
unfolding parse_get_more
parse_get_more-get_more_body h m nn hn hc short =
    let buf = get_more_body m in
    let t3 = le64 m.cursor_id in
    let t2 = le32 m.n_return ++ t3 in
    let t1 = cstring m.namespace ++ t2 in
    let loc = 4 + length m.namespace + 1 in
    let name = length-cstring m.namespace in
    let at1 = At-next (le32 0) t1 (At-start buf) refl in
    let at2 = At-next (cstring m.namespace) t2 at1 refl in
    let at3 = At-next (le32 m.n_return) t3 at2 refl in
    let whole = At-length at2 in
    let min : leb 4 (length buf) ≡ true = ground arith in
    let enough : leb (loc + 12) (length buf) ≡ true = ground arith in
    step_guard _ _ _ min
    ∙ step _ _ 0 (read_int32-le32 0 t1 (omega arith))
    ∙ step_slice _ buf _ t1 4 at1 refl
    ∙ step _ _ m.namespace (read_cstring-cstring m.namespace t2 nn)
    ∙ step_guard _ _ _ enough
    ∙ step_slice _ buf _ t2 loc at2 (omega arith)
    ∙ step _ _ m.n_return (read_int32-le32 m.n_return t3 hn)
    ∙ step_slice _ buf _ t3 (loc + 4) at3
        (omega (arith, length-append (le32 0 ++ cstring m.namespace) (le32 m.n_return)))
    ∙ step _ _ m.cursor_id (read_int64-le64 m.cursor_id [] hc)

cursors_from-cursors_image :
    (cs buf p : List ℕ) (loc : ℕ)
    → All IsInt64 cs
    → At buf p (cursors_image cs)
    → loc ≡ length p
    → cursors_from (length cs) buf loc ≡ ok cs
unfolding cursors_from
cursors_from-cursors_image [] buf p loc h at l = refl
cursors_from-cursors_image (c ∷ cs) buf p loc h at l =
    step_slice _ buf p (cursors_image (c ∷ cs)) loc at l
    ∙ step _ _ c (read_int64-le64 c (cursors_image cs) h.0)
    ∙ step _ _ cs (
        cursors_from-cursors_image cs buf (p ++ le64 c) (loc + 8) h.1
          (At-next (le64 c) (cursors_image cs) at refl) (omega (arith, length-append p (le64 c))))

num_fits : (n l : ℕ) → l ≡ 8 * n → n < 2 ^ 28 → not (slt64 l (n * 8 % 2 ^ 64)) ≡ true
unfolding slt64
num_fits n l e small = ground arith

num_in_range : (n : ℕ) → n < 2 ^ 28 → not (is_neg64 n || slt64 max_int32 n) ≡ true
unfolding slt64
num_in_range n small = ground arith

-- A kill-cursors with as many int64s as it counts, below 2 ^ 28, is read back from its body, with the reserved
-- field cleared.
pub parse_kill_cursors-kill_cursors_body :
    (h : MessageHeader) (m : KillCursorsMessage)
    → m.num_cursors ≡ length m.cursor_ids
    → m.num_cursors < 2 ^ 28
    → All IsInt64 m.cursor_ids
    → parse_kill_cursors h (kill_cursors_body m) ≡ ok (record m { header = h; reserved = 0 })
unfolding parse_kill_cursors
parse_kill_cursors-kill_cursors_body h m counted small hc =
    let buf = kill_cursors_body m in
    let n = m.num_cursors in
    let t2 = cursors_image m.cursor_ids in
    let t1 = le32 n ++ t2 in
    let at1 = At-next (le32 0) t1 (At-start buf) refl in
    let at2 = At-next (le32 n) t2 at1 refl in
    let ids = length-cursors_image m.cursor_ids in
    let same = int_of_small n (omega arith) in
    let min : leb 8 (length buf) ≡ true = ground arith in
    let fits : not (slt64 (length t2) (int_of n * 8 % 2 ^ 64)) ≡ true =
      rw same (num_fits n (length t2) (omega arith) small) in
    let valid : not (is_neg64 (int_of n) || slt64 max_int32 (int_of n)) ≡ true =
      rw same (num_in_range n small) in
    step_guard _ _ _ min
    ∙ step _ _ 0 (read_int32-le32 0 t1 (omega arith))
    ∙ step_slice _ buf _ t1 4 at1 refl
    ∙ step _ _ n (read_int32-le32 n t2 (omega arith))
    ∙ step_slice _ buf _ t2 8 at2 refl
    ∙ step_guard _ _ _ fits
    ∙ step_guard _ _ _ valid
    ∙ step _ _ m.cursor_ids (
        ap (λ k. cursors_from k buf 8) (same ∙ counted)
        ∙ cursors_from-cursors_image m.cursor_ids buf (le32 0 ++ le32 n) 8 hc at2 refl)
