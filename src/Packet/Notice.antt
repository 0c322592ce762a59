-- ===== src/Packet/Notice.antt =====
-- StaticLib1/PacketClass.h:134-218, the packets of the messages between servers while a user is loaded. A text is the list of its
-- bytes, a number its bit pattern.
pub mod Codec
use graduation_server.Common.{ℕ, List, [], ◌∷◌}
use graduation_server.Stream.{
  Stream, Reader, pure, ◌>>=◌, write_word, write_str, read_word, read_str,
}
use graduation_server.Packet.Wire.{Field, word, str, ◌<<◌}
use graduation_server.Packet.Codes.{
  e_i_chtting_notify_id, e_i_db_req_load_data, e_i_db_ans_parse_data, e_i_login_notify_id_loaded,
}

pub data NoticePacket : Type 0 where
  i_chtting_notify_id : (client_id : ℕ) → (oid_account_id : ℕ) → NoticePacket
  i_db_req_load_data : (client_id : ℕ) → (oid_account_id : ℕ) → NoticePacket
  i_db_ans_parse_data : (client_id : ℕ) → (name : List ℕ) → (result : ℕ) → NoticePacket
  i_login_notify_id_loaded : (client_id : ℕ) → (name : List ℕ) → (result : ℕ) → NoticePacket

-- `type()` of each class.
unfoldable pub type_notice : NoticePacket → ℕ
type_notice (i_chtting_notify_id _ _) = e_i_chtting_notify_id
type_notice (i_db_req_load_data _ _) = e_i_db_req_load_data
type_notice (i_db_ans_parse_data _ _ _) = e_i_db_ans_parse_data
type_notice (i_login_notify_id_loaded _ _ _) = e_i_login_notify_id_loaded

unfoldable pub encode_notice : NoticePacket → Stream → Stream
encode_notice (i_chtting_notify_id client_id oid_account_id) s =
    s << write_word 8 e_i_chtting_notify_id << write_word 8 client_id << write_word 8 oid_account_id
encode_notice (i_db_req_load_data client_id oid_account_id) s =
    s << write_word 8 e_i_db_req_load_data << write_word 8 client_id << write_word 8 oid_account_id
encode_notice (i_db_ans_parse_data client_id name result) s =
    s
    << write_word 8 e_i_db_ans_parse_data
    << write_word 8 client_id
    << write_str name
    << write_word 1 result
encode_notice (i_login_notify_id_loaded client_id name result) s =
    s
    << write_word 8 e_i_login_notify_id_loaded
    << write_word 8 client_id
    << write_str name
    << write_word 1 result

-- `decode` on an object whose fields have the values given. Classes without fields inherit the
-- empty `decode`.
unfoldable pub decode_notice : NoticePacket → Reader NoticePacket
decode_notice (i_chtting_notify_id client_id oid_account_id) = do
  client_id' ← read_word 8 client_id
  oid_account_id' ← read_word 8 oid_account_id
  pure (i_chtting_notify_id client_id' oid_account_id')
decode_notice (i_db_req_load_data client_id oid_account_id) = do
  client_id' ← read_word 8 client_id
  oid_account_id' ← read_word 8 oid_account_id
  pure (i_db_req_load_data client_id' oid_account_id')
decode_notice (i_db_ans_parse_data client_id name result) = do
  client_id' ← read_word 8 client_id
  name' ← read_str name
  result' ← read_word 1 result
  pure (i_db_ans_parse_data client_id' name' result')
decode_notice (i_login_notify_id_loaded client_id name result) = do
  client_id' ← read_word 8 client_id
  name' ← read_str name
  result' ← read_word 1 result
  pure (i_login_notify_id_loaded client_id' name' result')

-- The object that `new` makes: the fields are zeros and empty texts.
unfoldable pub blank_notice : NoticePacket → NoticePacket
blank_notice (i_chtting_notify_id _ _) = i_chtting_notify_id 0 0
blank_notice (i_db_req_load_data _ _) = i_db_req_load_data 0 0
blank_notice (i_db_ans_parse_data _ _ _) = i_db_ans_parse_data 0 [] 0
blank_notice (i_login_notify_id_loaded _ _ _) = i_login_notify_id_loaded 0 [] 0

-- The wire format: the fields behind the type, in order.
unfoldable pub fields_notice : NoticePacket → List Field
fields_notice (i_chtting_notify_id client_id oid_account_id) =
    word 8 client_id ∷ word 8 oid_account_id ∷ []
fields_notice (i_db_req_load_data client_id oid_account_id) =
    word 8 client_id ∷ word 8 oid_account_id ∷ []
fields_notice (i_db_ans_parse_data client_id name result) =
    word 8 client_id ∷ str name ∷ word 1 result ∷ []
fields_notice (i_login_notify_id_loaded client_id name result) =
    word 8 client_id ∷ str name ∷ word 1 result ∷ []
