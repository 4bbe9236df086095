-- ===== src/Tests/Data.antt =====
-- Messages and their bytes.
use mongonet.Base.{ℕ, ◌≡◌, refl, List, [], ◌∷◌, ◌++◌, Bool, true, ltb, ◌&&◌, All, arith}
use mongonet.Bytes.Layout.{le32, le64}
use mongonet.Bytes.Read.{IsByte, NoNul}
use mongonet.Bson.{SimpleBson}
use mongonet.Bson.Parse.{IsDoc}
use mongonet.Wire.{
  MessageHeader, InsertMessage, GetMoreMessage, ReplyMessage, MessageMessage, Section,
}
use mongonet.Serialize.Layout.{IsHeader, cstring}

abbrev pub all_bytes : List ℕ → Bool
all_bytes [] = true
all_bytes (b ∷ bs) = ltb b 256 && all_bytes bs

pub all_bytes-IsByte : (bs : List ℕ) → all_bytes bs ≡ true → All IsByte bs
all_bytes-IsByte [] h = tt
all_bytes-IsByte (b ∷ bs) h = (ground (arith, h), all_bytes-IsByte bs (ground (arith, h)))

abbrev pub some_header : MessageHeader
some_header = record { size = 0; request_id = 7; response_to = 0; op_code = 2004 }

pub some_header-IsHeader : IsHeader some_header
some_header-IsHeader = record { request = omega arith; response = omega arith; code = omega arith }

-- { a: true }
abbrev pub doc : SimpleBson
doc = record { size = 9; bson = 9 ∷ 0 ∷ 0 ∷ 0 ∷ 8 ∷ 97 ∷ 0 ∷ 1 ∷ 0 ∷ [] }

pub doc-IsDoc : IsDoc doc
doc-IsDoc = record {
  positive = omega arith;
  bounded = omega arith;
  whole = refl;
  headed = (8 ∷ 97 ∷ 0 ∷ 1 ∷ 0 ∷ [], refl);
}

-- "a.b"
abbrev pub name : List ℕ
name = 97 ∷ 46 ∷ 98 ∷ []

pub name-NoNul : NoNul name
name-NoNul = (omega arith, (omega arith, (omega arith, tt)))

abbrev pub query_text : List ℕ
query_text = le32 4 ++ (cstring name ++ (le32 0 ++ (le32 4294967295 ++ doc.bson)))

abbrev pub insert_text : List ℕ
insert_text = le32 0 ++ (cstring name ++ (doc.bson ++ doc.bson))

abbrev pub update_text : List ℕ
update_text = le32 0 ++ (cstring name ++ (le32 1 ++ (doc.bson ++ doc.bson)))

abbrev pub delete_text : List ℕ
delete_text = le32 0 ++ (cstring name ++ (le32 1 ++ doc.bson))

abbrev pub get_more_text : List ℕ
get_more_text = le32 0 ++ (cstring name ++ (le32 10 ++ le64 123456789012))

abbrev pub kill_cursors_text : List ℕ
kill_cursors_text = le32 0 ++ (le32 1 ++ le64 123456789012)

abbrev pub command_text : List ℕ
command_text = cstring name ++ (cstring name ++ (doc.bson ++ (doc.bson ++ doc.bson)))

abbrev pub command_reply_text : List ℕ
command_reply_text = doc.bson ++ (doc.bson ++ doc.bson)

abbrev pub message_text : List ℕ
message_text = le32 0 ++ (0 ∷ (doc.bson ++ (1 ∷ (le32 17 ++ (cstring name ++ doc.bson)))))

abbrev pub reply_text : List ℕ
reply_text = le32 8 ++ (le64 5 ++ (le32 0 ++ (le32 2 ++ (doc.bson ++ doc.bson))))

abbrev pub insert : InsertMessage
insert = record { header = some_header; flags = 1; namespace = name; docs = doc ∷ doc ∷ [] }

abbrev pub get_more : GetMoreMessage
get_more = record {
  header = some_header;
  reserved = 0;
  namespace = name;
  n_return = 10;
  cursor_id = 123456789012;
}

abbrev pub reply : ReplyMessage
reply = record {
  header = some_header;
  flags = 8;
  cursor_id = 5;
  starting_from = 0;
  number_returned = 2;
  docs = doc ∷ doc ∷ [];
}

abbrev pub message : MessageMessage
message = record {
  header = some_header;
  flag_bits = 3;
  sections = Section.body doc ∷ Section.document_sequence name (doc ∷ doc ∷ []) ∷ [];
}
