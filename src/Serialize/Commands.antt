-- ===== src/Serialize/Commands.antt =====
-- The frames of OP_COMMAND and OP_COMMAND_REPLY.
use mongonet.Base.{
  ℕ, ◌+◌, ◌^◌, ◌<◌, ◌≡◌, ap, ◌∙◌, List, ◌++◌, arith, All, length, length-append, ok,
}
use mongonet.Word.{int_of, add_int}
use mongonet.Word.Shifts.{int_of_small}
use mongonet.Bytes.Layout.{Emits-bind, Emits-cstring}
use mongonet.Bson.{add_sizes}
use mongonet.Bson.Write.{
  IsCovered, image, images, length-image, Emits-copy_bson, Emits-copy_docs, add_sizes-images,
}
use mongonet.Wire.{CommandMessage, CommandReplyMessage}
use mongonet.Serialize.{
  write_command, write_command_reply, serialize_command, serialize_command_reply,
}
use mongonet.Serialize.Layout.{IsHeader, cstring, length-cstring, sized, frame, fill-frame}

abbrev pub command_body : CommandMessage → List ℕ
command_body m =
    cstring m.db
    ++ (cstring m.cmd_name ++ (image m.command_args ++ (image m.metadata ++ images m.input_docs)))

pub record IsCommand (m : CommandMessage) : Type 0 where
  pub head : IsHeader m.header
  pub args : IsCovered m.command_args
  pub metadata : IsCovered m.metadata
  pub docs : All IsCovered m.input_docs
  pub fits : 16 + length (command_body m) < 2 ^ 63

pub serialize_command-frame :
    (m : CommandMessage)
    → IsCommand m
    → serialize_command m
      ≡ ok (frame m.header (command_body m), record m { header = sized m.header (command_body m) })
unfolding serialize_command write_command
serialize_command-frame m v =
    let n = length m.db + 1 in
    let k = length m.cmd_name + 1 in
    let a = m.command_args.size in
    let b = m.metadata.size in
    let args = length-image m.command_args v.args in
    let metadata = length-image m.metadata v.metadata in
    let parts : length (command_body m) ≡ n + k + a + b + length (images m.input_docs) =
      omega (arith, length-append {0}) in
    let fixed : add_int (add_int (add_int (add_int 16 n) k) (int_of a)) (int_of b)
        ≡ 16 + n + k + a + b =
      omega (arith, int_of_small a v.args.small, int_of_small b v.metadata.small, v.fits) in
    let size : add_sizes (add_int (add_int (add_int (add_int 16 n) k) (int_of a)) (int_of b))
          m.input_docs
        ≡ 16 + length (command_body m) =
      ap (λ s. add_sizes s m.input_docs) fixed
      ∙ add_sizes-images m.input_docs (16 + n + k + a + b) v.docs (omega (arith, v.fits))
      ∙ omega arith in
    fill-frame m.header (write_command m) (command_body m) _ _ (λ h. record m { header = h }) v.head
      v.fits size
      (Emits-bind _ _ 16 (16 + length m.db + 1) (cstring m.db) _ _ _ (Emits-cstring m.db 16)
        (omega (arith, length-cstring m.db))
        (Emits-bind _ _ _ (16 + length m.db + 1 + length m.cmd_name + 1) (cstring m.cmd_name) _ _ _
          (Emits-cstring m.cmd_name _) (omega (arith, length-cstring m.cmd_name))
          (Emits-bind _ _ _ (16 + length m.db + 1 + length m.cmd_name + 1 + a)
            (image m.command_args) _ _ _
            (Emits-copy_bson m.command_args _ v.args (omega (arith, v.fits))) (omega arith)
            (Emits-bind _ _ _ (16 + length m.db + 1 + length m.cmd_name + 1 + a + b)
              (image m.metadata) _ _ _
              (Emits-copy_bson m.metadata _ v.metadata (omega (arith, v.fits))) (omega arith)
              (Emits-copy_docs m.input_docs _ v.docs (omega (arith, v.fits)))))))

abbrev pub command_reply_body : CommandReplyMessage → List ℕ
command_reply_body m = image m.command_reply ++ (image m.metadata ++ images m.output_docs)

pub record IsCommandReply (m : CommandReplyMessage) : Type 0 where
  pub head : IsHeader m.header
  pub reply : IsCovered m.command_reply
  pub metadata : IsCovered m.metadata
  pub docs : All IsCovered m.output_docs
  pub fits : 16 + length (command_reply_body m) < 2 ^ 63

pub serialize_command_reply-frame :
    (m : CommandReplyMessage)
    → IsCommandReply m
    → serialize_command_reply m
      ≡ ok (
        frame m.header (command_reply_body m),
        record m { header = sized m.header (command_reply_body m) },
      )
unfolding serialize_command_reply write_command_reply
serialize_command_reply-frame m v =
    let a = m.command_reply.size in
    let b = m.metadata.size in
    let reply = length-image m.command_reply v.reply in
    let metadata = length-image m.metadata v.metadata in
    let parts : length (command_reply_body m) ≡ a + b + length (images m.output_docs) =
      omega (arith, length-append {0}) in
    let fixed : add_int (add_int 16 (int_of a)) (int_of b) ≡ 16 + a + b =
      omega (arith, int_of_small a v.reply.small, int_of_small b v.metadata.small, v.fits) in
    let size : add_sizes (add_int (add_int 16 (int_of a)) (int_of b)) m.output_docs
        ≡ 16 + length (command_reply_body m) =
      ap (λ s. add_sizes s m.output_docs) fixed
      ∙ add_sizes-images m.output_docs (16 + a + b) v.docs (omega (arith, v.fits))
      ∙ omega arith in
    fill-frame m.header (write_command_reply m) (command_reply_body m) _ _
      (λ h. record m { header = h }) v.head v.fits size
      (Emits-bind _ _ 16 (16 + a) (image m.command_reply) _ _ _
        (Emits-copy_bson m.command_reply 16 v.reply (omega arith)) (omega arith)
        (Emits-bind _ _ _ (16 + a + b) (image m.metadata) _ _ _
          (Emits-copy_bson m.metadata _ v.metadata (omega (arith, v.fits))) (omega arith)
          (Emits-copy_docs m.output_docs _ v.docs (omega (arith, v.fits)))))
