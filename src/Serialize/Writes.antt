-- ===== src/Serialize/Writes.antt =====
-- The frames of the three writes: OP_INSERT, OP_UPDATE and OP_DELETE.
use mongonet.Base.{
  ℕ, ◌+◌, ◌^◌, ◌<◌, ◌≡◌, refl, ap, ◌∙◌, List, ◌++◌, arith, All, length, length-append, ok,
}
use mongonet.Word.{int_of, add_int}
use mongonet.Word.Shifts.{int_of_small}
use mongonet.Bytes.Layout.{le32, Emits-bind, Emits-then, Emits-int32, Emits-cstring}
use mongonet.Bson.{add_sizes}
use mongonet.Bson.Write.{
  IsCovered, image, images, length-image, Emits-copy_bson, Emits-copy_docs, add_sizes-images,
}
use mongonet.Wire.{UpdateMessage, InsertMessage, DeleteMessage}
use mongonet.Serialize.{
  write_update, write_delete, write_insert, serialize_update, serialize_delete, serialize_insert,
}
use mongonet.Serialize.Layout.{IsInt32, IsHeader, cstring, length-cstring, sized, frame, fill-frame}

abbrev pub insert_body : InsertMessage → List ℕ
insert_body m = le32 m.flags ++ (cstring m.namespace ++ images m.docs)

pub record IsInsert (m : InsertMessage) : Type 0 where
  pub head : IsHeader m.header
  pub flags : IsInt32 m.flags
  pub docs : All IsCovered m.docs
  pub fits : 16 + length (insert_body m) < 2 ^ 63

pub serialize_insert-frame :
    (m : InsertMessage)
    → IsInsert m
    → serialize_insert m
      ≡ ok (frame m.header (insert_body m), record m { header = sized m.header (insert_body m) })
unfolding serialize_insert write_insert
serialize_insert-frame m v =
    let n = length m.namespace in
    let named : length (insert_body m) ≡ 4 + (n + 1) + length (images m.docs) =
      omega (arith, length-append {0}) in
    let size : add_sizes (add_int (16 + 4) (n + 1)) m.docs ≡ 16 + length (insert_body m) =
      ap (λ s. add_sizes s m.docs) (omega (arith, v.fits))
      ∙ add_sizes-images m.docs (20 + (n + 1)) v.docs (omega (arith, v.fits))
      ∙ omega arith in
    fill-frame m.header (write_insert m) (insert_body m) _ _ (λ h. record m { header = h }) v.head
      v.fits size
      (Emits-then _ _ 16 20 (le32 m.flags) _ _ (Emits-int32 m.flags 16 v.flags) refl (
        Emits-bind _ _ 20 (20 + n + 1) (cstring m.namespace) (images m.docs) _ _
          (Emits-cstring m.namespace 20) (omega (arith, length-cstring m.namespace))
          (Emits-copy_docs m.docs _ v.docs (omega (arith, v.fits)))))

-- The first field is reserved, and 0 on the wire whatever the message holds.
abbrev pub update_body : UpdateMessage → List ℕ
update_body m =
    le32 0 ++ (cstring m.namespace ++ (le32 m.flags ++ (image m.filter ++ image m.update)))

pub record IsUpdate (m : UpdateMessage) : Type 0 where
  pub head : IsHeader m.header
  pub flags : IsInt32 m.flags
  pub filter : IsCovered m.filter
  pub update : IsCovered m.update
  pub fits : 16 + length (update_body m) < 2 ^ 63

pub serialize_update-frame :
    (m : UpdateMessage)
    → IsUpdate m
    → serialize_update m
      ≡ ok (frame m.header (update_body m), record m { header = sized m.header (update_body m) })
unfolding serialize_update write_update
serialize_update-frame m v =
    let n = length m.namespace in
    let filter = length-image m.filter v.filter in
    let update = length-image m.update v.update in
    let named : length (update_body m) ≡ 4 + (n + 1) + 4 + m.filter.size + m.update.size =
      omega (arith, length-append {0}) in
    let size : add_int (add_int (add_int (16 + 8) (n + 1)) (int_of m.filter.size))
          (int_of m.update.size)
        ≡ 16 + length (update_body m) =
      omega (
        arith,
        int_of_small m.filter.size v.filter.small,
        int_of_small m.update.size v.update.small,
        v.fits,
      ) in
    fill-frame m.header (write_update m) (update_body m) _ _ (λ h. record m { header = h }) v.head
      v.fits size
      (Emits-then _ _ 16 20 (le32 0) _ _ (Emits-int32 0 16 (omega arith)) refl (
        Emits-bind _ _ 20 (20 + n + 1) (cstring m.namespace) _ _ _ (Emits-cstring m.namespace 20)
          (omega (arith, length-cstring m.namespace))
          (Emits-then _ _ (20 + n + 1) (20 + n + 1 + 4) (le32 m.flags) _ _
            (Emits-int32 m.flags _ v.flags) refl
            (Emits-bind _ _ (20 + n + 1 + 4) (20 + n + 1 + 4 + m.filter.size) (image m.filter) _ _ _
              (Emits-copy_bson m.filter _ v.filter (omega (arith, v.fits))) (omega arith)
              (Emits-copy_bson m.update _ v.update (omega (arith, v.fits)))))))

abbrev pub delete_body : DeleteMessage → List ℕ
delete_body m = le32 0 ++ (cstring m.namespace ++ (le32 m.flags ++ image m.filter))

pub record IsDelete (m : DeleteMessage) : Type 0 where
  pub head : IsHeader m.header
  pub flags : IsInt32 m.flags
  pub filter : IsCovered m.filter
  pub fits : 16 + length (delete_body m) < 2 ^ 63

pub serialize_delete-frame :
    (m : DeleteMessage)
    → IsDelete m
    → serialize_delete m
      ≡ ok (frame m.header (delete_body m), record m { header = sized m.header (delete_body m) })
unfolding serialize_delete write_delete
serialize_delete-frame m v =
    let n = length m.namespace in
    let filter = length-image m.filter v.filter in
    let named : length (delete_body m) ≡ 4 + (n + 1) + 4 + m.filter.size =
      omega (arith, length-append {0}) in
    let size : add_int (add_int (16 + 8) (n + 1)) (int_of m.filter.size)
        ≡ 16 + length (delete_body m) =
      omega (arith, int_of_small m.filter.size v.filter.small, v.fits) in
    fill-frame m.header (write_delete m) (delete_body m) _ _ (λ h. record m { header = h }) v.head
      v.fits size
      (Emits-then _ _ 16 20 (le32 0) _ _ (Emits-int32 0 16 (omega arith)) refl (
        Emits-bind _ _ 20 (20 + n + 1) (cstring m.namespace) _ _ _ (Emits-cstring m.namespace 20)
          (omega (arith, length-cstring m.namespace))
          (Emits-then _ _ (20 + n + 1) (20 + n + 1 + 4) (le32 m.flags) _ _
            (Emits-int32 m.flags _ v.flags) refl
            (Emits-copy_bson m.filter _ v.filter (omega (arith, v.fits))))))
