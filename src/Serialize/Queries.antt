-- ===== src/Serialize/Queries.antt =====
-- The frames of the messages about cursors: OP_QUERY, OP_GET_MORE, OP_KILL_CURSORS and OP_REPLY.
use mongonet.Base.{
  ℕ, ◌+◌, ◌*◌, ◌%◌, ◌^◌, ◌<◌, ◌≡◌, refl, ap, ◌∙◌, List, [], ◌∷◌, ◌++◌, arith, All, take_all, length,
  length-append, ok,
}
use mongonet.Word.{int_of, add_int}
use mongonet.Word.Shifts.{int_of_small}
use mongonet.Bytes.Layout.{
  le32, le64, Emits-bind, Emits-then, Emits-int32, Emits-int64, Emits-cstring,
}
use mongonet.Bson.{SimpleBson, add_sizes}
use mongonet.Bson.Write.{IsCovered, image, images, length-image, Emits-copy_bson, add_sizes-images}
use mongonet.Wire.{ReplyMessage, QueryMessage, GetMoreMessage, KillCursorsMessage}
use mongonet.Serialize.{
  write_query, write_get_more, write_kill_cursors, write_reply, serialize_query, serialize_get_more,
  serialize_kill_cursors, serialize_reply,
}
use mongonet.Serialize.Layout.{
  IsInt32, IsInt64, IsHeader, cstring, length-cstring, sized, frame, fill-frame, cursors_image,
  length-cursors_image, Emits-write_cursors, texts, Emits-copy_reply_docs,
}

abbrev pub query_body : QueryMessage → List ℕ
query_body m =
    le32 m.flags
    ++ (cstring m.namespace
        ++ (le32 m.skip ++ (le32 m.n_return ++ (image m.query ++ image m.project))))

pub record IsQuery (m : QueryMessage) : Type 0 where
  pub head : IsHeader m.header
  pub flags : IsInt32 m.flags
  pub skip : IsInt32 m.skip
  pub n_return : IsInt32 m.n_return
  pub query : IsCovered m.query
  pub project : IsCovered m.project
  pub fits : 16 + length (query_body m) < 2 ^ 63

pub serialize_query-frame :
    (m : QueryMessage)
    → IsQuery m
    → serialize_query m
      ≡ ok (frame m.header (query_body m), record m { header = sized m.header (query_body m) })
unfolding serialize_query write_query
serialize_query-frame m v =
    let n = length m.namespace in
    let query = length-image m.query v.query in
    let project = length-image m.project v.project in
    let named : length (query_body m) ≡ 4 + (n + 1) + 4 + 4 + m.query.size + m.project.size =
      omega (arith, length-append {0}) in
    let size : add_int (add_int (add_int (16 + 12) (n + 1)) (int_of m.query.size))
          (int_of m.project.size)
        ≡ 16 + length (query_body m) =
      omega (
        arith,
        int_of_small m.query.size v.query.small,
        int_of_small m.project.size v.project.small,
        v.fits,
      ) in
    fill-frame m.header (write_query m) (query_body m) _ _ (λ h. record m { header = h }) v.head
      v.fits size
      (Emits-then _ _ 16 20 (le32 m.flags) _ _ (Emits-int32 m.flags 16 v.flags) refl (
        Emits-bind _ _ 20 (20 + n + 1) (cstring m.namespace) _ _ _ (Emits-cstring m.namespace 20)
          (omega (arith, length-cstring m.namespace))
          (Emits-then _ _ (20 + n + 1) (20 + n + 1 + 4) (le32 m.skip) _ _
            (Emits-int32 m.skip _ v.skip) refl
            (Emits-then _ _ (20 + n + 1 + 4) (20 + n + 1 + 4 + 4) (le32 m.n_return) _ _
              (Emits-int32 m.n_return _ v.n_return) refl
              (Emits-bind _ _ (20 + n + 1 + 4 + 4) (20 + n + 1 + 4 + 4 + m.query.size)
                (image m.query) _ _ _ (Emits-copy_bson m.query _ v.query (omega (arith, v.fits)))
                (omega arith) (Emits-copy_bson m.project _ v.project (omega (arith, v.fits))))))))

-- The first field is reserved, and 0 on the wire.
abbrev pub get_more_body : GetMoreMessage → List ℕ
get_more_body m = le32 0 ++ (cstring m.namespace ++ (le32 m.n_return ++ le64 m.cursor_id))

pub record IsGetMore (m : GetMoreMessage) : Type 0 where
  pub head : IsHeader m.header
  pub n_return : IsInt32 m.n_return
  pub cursor_id : IsInt64 m.cursor_id
  pub fits : 16 + length (get_more_body m) < 2 ^ 63

pub serialize_get_more-frame :
    (m : GetMoreMessage)
    → IsGetMore m
    → serialize_get_more m
      ≡ ok
          (frame m.header (get_more_body m), record m { header = sized m.header (get_more_body m) })
unfolding serialize_get_more write_get_more
serialize_get_more-frame m v =
    let n = length m.namespace in
    let named : length (get_more_body m) ≡ 4 + (n + 1) + 4 + 8 = omega (arith, length-append {0}) in
    let size : add_int (16 + 16) (n + 1) ≡ 16 + length (get_more_body m) = omega (arith, v.fits) in
    fill-frame m.header (write_get_more m) (get_more_body m) _ _ (λ h. record m { header = h })
      v.head v.fits size
      (Emits-then _ _ 16 20 (le32 0) _ _ (Emits-int32 0 16 (omega arith)) refl (
        Emits-bind _ _ 20 (20 + n + 1) (cstring m.namespace) _ _ _ (Emits-cstring m.namespace 20)
          (omega (arith, length-cstring m.namespace))
          (Emits-then _ _ (20 + n + 1) (20 + n + 1 + 4) (le32 m.n_return) _ _
            (Emits-int32 m.n_return _ v.n_return) refl (Emits-int64 m.cursor_id _ v.cursor_id))))

abbrev pub kill_cursors_body : KillCursorsMessage → List ℕ
kill_cursors_body m = le32 0 ++ (le32 m.num_cursors ++ cursors_image m.cursor_ids)

-- The count is that of the identifiers.
pub record IsKillCursors (m : KillCursorsMessage) : Type 0 where
  pub head : IsHeader m.header
  pub num_cursors : m.num_cursors < 2 ^ 31
  pub counted : m.num_cursors ≡ length m.cursor_ids
  pub cursor_ids : All IsInt64 m.cursor_ids

pub serialize_kill_cursors-frame :
    (m : KillCursorsMessage)
    → IsKillCursors m
    → serialize_kill_cursors m
      ≡ ok (
        frame m.header (kill_cursors_body m),
        record m { header = sized m.header (kill_cursors_body m) },
      )
unfolding serialize_kill_cursors write_kill_cursors
serialize_kill_cursors-frame m v =
    let ids = length-cursors_image m.cursor_ids in
    let size : add_int (16 + 8) (8 * int_of m.num_cursors % 2 ^ 64)
        ≡ 16 + length (kill_cursors_body m) =
      omega (arith, int_of_small m.num_cursors v.num_cursors, v.counted, v.num_cursors) in
    fill-frame m.header (write_kill_cursors m) (kill_cursors_body m) _ _
      (λ h. record m { header = h }) v.head (omega (arith, v.counted, v.num_cursors)) size
      (Emits-then _ _ 16 20 (le32 0) _ _ (Emits-int32 0 16 (omega arith)) refl (
        Emits-then _ _ 20 24 (le32 m.num_cursors) _ _
          (Emits-int32 m.num_cursors 20 (omega (arith, v.num_cursors))) refl
          (Emits-write_cursors m.cursor_ids 24 v.cursor_ids)))

abbrev pub reply_body : ReplyMessage → List ℕ
reply_body m =
    le32 m.flags
    ++ (le64 m.cursor_id ++ (le32 m.starting_from ++ (le32 m.number_returned ++ texts m.docs)))

-- A document whose size is the number of its bytes.
pub record IsWhole (d : SimpleBson) : Type 0 where
  pub small : d.size < 2 ^ 31
  pub whole : length d.bson ≡ d.size

pub record IsReply (m : ReplyMessage) : Type 0 where
  pub head : IsHeader m.header
  pub flags : IsInt32 m.flags
  pub cursor_id : IsInt64 m.cursor_id
  pub starting_from : IsInt32 m.starting_from
  pub number_returned : IsInt32 m.number_returned
  pub docs : All IsWhole m.docs
  pub fits : 16 + length (reply_body m) < 2 ^ 63

pub whole-IsCovered : (ds : List SimpleBson) → All IsWhole ds → All IsCovered ds
whole-IsCovered [] h = tt
whole-IsCovered (d ∷ ds) h =
    (record { small = h.0.small; covered = omega (arith, h.0.whole) }, whole-IsCovered ds h.1)

pub texts-images : (ds : List SimpleBson) → All IsWhole ds → texts ds ≡ images ds
texts-images [] h = refl
texts-images (d ∷ ds) h =
    rw (take_all d.size d.bson (omega (arith, h.0.whole)), texts-images ds h.1)

-- `Serialize` of a reply whose fields are in range, whose documents have exactly the bytes that they
-- count and whose length is below 2 ^ 63 gives the header with that length in it, the fields and the
-- documents, and the message with that length in its header.
pub serialize_reply-frame :
    (m : ReplyMessage)
    → IsReply m
    → serialize_reply m
      ≡ ok (frame m.header (reply_body m), record m { header = sized m.header (reply_body m) })
unfolding serialize_reply write_reply
serialize_reply-frame m v =
    let same = ap length (texts-images m.docs v.docs) in
    let size : add_sizes (16 + 20) m.docs ≡ 16 + length (reply_body m) =
      add_sizes-images m.docs 36 (whole-IsCovered m.docs v.docs) (omega (arith, v.fits))
      ∙ omega arith in
    fill-frame m.header (write_reply m) (reply_body m) _ _ (λ h. record m { header = h }) v.head
      v.fits size
      (Emits-then _ _ 16 20 (le32 m.flags) _ _ (Emits-int32 m.flags 16 v.flags) refl (
        Emits-then _ _ 20 28 (le64 m.cursor_id) _ _ (Emits-int64 m.cursor_id 20 v.cursor_id) refl (
          Emits-then _ _ 28 32 (le32 m.starting_from) _ _
            (Emits-int32 m.starting_from 28 v.starting_from) refl
            (Emits-then _ _ 32 36 (le32 m.number_returned) _ _
              (Emits-int32 m.number_returned 32 v.number_returned) refl
              (Emits-copy_reply_docs m.docs 36)))))
