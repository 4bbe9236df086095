-- ===== src/Wire.antt =====
-- wire.go and the types of wire_message.go: the header, the ten messages and their op codes. An int32
-- is its bit pattern, a string the list of its bytes, a slice a list.
use mongonet.Base.{ℕ, List, Bool, true, false}
use mongonet.Bson.{SimpleBson}

abbrev pub op_reply : ℕ
op_reply = 1

abbrev pub op_update : ℕ
op_update = 2001

abbrev pub op_insert : ℕ
op_insert = 2002

abbrev pub op_query : ℕ
op_query = 2004

abbrev pub op_get_more : ℕ
op_get_more = 2005

abbrev pub op_delete : ℕ
op_delete = 2006

abbrev pub op_kill_cursors : ℕ
op_kill_cursors = 2007

abbrev pub op_command : ℕ
op_command = 2010

abbrev pub op_command_reply : ℕ
op_command_reply = 2011

abbrev pub op_msg : ℕ
op_msg = 2013

pub record MessageHeader : Type 0 where
  pub size : ℕ
  pub request_id : ℕ
  pub response_to : ℕ
  pub op_code : ℕ

pub record ReplyMessage : Type 0 where
  pub header : MessageHeader
  pub flags : ℕ
  pub cursor_id : ℕ
  pub starting_from : ℕ
  pub number_returned : ℕ
  pub docs : List SimpleBson

pub record UpdateMessage : Type 0 where
  pub header : MessageHeader
  pub reserved : ℕ
  pub namespace : List ℕ
  pub flags : ℕ
  pub filter : SimpleBson
  pub update : SimpleBson

pub record QueryMessage : Type 0 where
  pub header : MessageHeader
  pub flags : ℕ
  pub namespace : List ℕ
  pub skip : ℕ
  pub n_return : ℕ
  pub query : SimpleBson
  pub project : SimpleBson

pub record GetMoreMessage : Type 0 where
  pub header : MessageHeader
  pub reserved : ℕ
  pub namespace : List ℕ
  pub n_return : ℕ
  pub cursor_id : ℕ

pub record InsertMessage : Type 0 where
  pub header : MessageHeader
  pub flags : ℕ
  pub namespace : List ℕ
  pub docs : List SimpleBson

pub record DeleteMessage : Type 0 where
  pub header : MessageHeader
  pub reserved : ℕ
  pub namespace : List ℕ
  pub flags : ℕ
  pub filter : SimpleBson

pub record KillCursorsMessage : Type 0 where
  pub header : MessageHeader
  pub reserved : ℕ
  pub num_cursors : ℕ
  pub cursor_ids : List ℕ

pub record CommandMessage : Type 0 where
  pub header : MessageHeader
  pub db : List ℕ
  pub cmd_name : List ℕ
  pub command_args : SimpleBson
  pub metadata : SimpleBson
  pub input_docs : List SimpleBson

pub record CommandReplyMessage : Type 0 where
  pub header : MessageHeader
  pub command_reply : SimpleBson
  pub metadata : SimpleBson
  pub output_docs : List SimpleBson

-- The types behind the interface `MessageMessageSection`.
pub data Section : Type 0 where
  body : SimpleBson → Section
  document_sequence : List ℕ → List SimpleBson → Section

pub record MessageMessage : Type 0 where
  pub header : MessageHeader
  pub flag_bits : ℕ
  pub sections : List Section

-- The types behind the interface `Message`.
pub data Message : Type 0 where
  reply : ReplyMessage → Message
  update : UpdateMessage → Message
  query : QueryMessage → Message
  get_more : GetMoreMessage → Message
  insert : InsertMessage → Message
  delete : DeleteMessage → Message
  kill_cursors : KillCursorsMessage → Message
  command : CommandMessage → Message
  command_reply : CommandReplyMessage → Message
  message : MessageMessage → Message

unfoldable pub header : Message → MessageHeader
header (reply m) = m.header
header (update m) = m.header
header (query m) = m.header
header (get_more m) = m.header
header (insert m) = m.header
header (delete m) = m.header
header (kill_cursors m) = m.header
header (command m) = m.header
header (command_reply m) = m.header
header (message m) = m.header

unfoldable pub has_response : Message → Bool
has_response (query m) = true
has_response (get_more m) = true
has_response (command m) = true
has_response (message m) = true
has_response (reply m) = false
has_response (update m) = false
has_response (insert m) = false
has_response (delete m) = false
has_response (kill_cursors m) = false
has_response (command_reply m) = false
