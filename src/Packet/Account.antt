-- ===== src/Packet/Account.antt =====
-- StaticLib1/PacketClass.h:10-132, the packets of signing in: exit, terminal notice, heartbeat, id and password. A text is the list of its
-- bytes, a number its bit pattern.
pub mod Codec
use graduation_server.Common.{ℕ, List, [], ◌∷◌}
use graduation_server.Stream.{
  Stream, Reader, pure, ◌>>=◌, write_word, write_str, read_word, read_str,
}
use graduation_server.Packet.Wire.{Field, word, str, ◌<<◌}
use graduation_server.Packet.Codes.{
  e_c_req_exit, e_s_ans_exit, e_i_notify_terminal, e_c_notify_heartbeat, e_c_req_id_pw,
  e_s_ans_id_pw_fail, e_s_ans_id_pw_success, e_i_db_req_id_pw, e_i_db_ans_id_pw,
}

pub data AccountPacket : Type 0 where
  c_req_exit : AccountPacket
  s_ans_exit : AccountPacket
  i_notify_terminal : AccountPacket
  c_notify_heartbeat : AccountPacket
  c_req_id_pw : (id : List ℕ) → (password : List ℕ) → AccountPacket
  s_ans_id_pw_fail : AccountPacket
  s_ans_id_pw_success : (ip : List ℕ) → (port : ℕ) → (name : List ℕ) → AccountPacket
  i_db_req_id_pw : (client_id : ℕ) → (id : List ℕ) → (password : List ℕ) → AccountPacket
  i_db_ans_id_pw : (client_id : ℕ) → (oid_account_id : ℕ) → (result : ℕ) → AccountPacket

-- `type()` of each class.
unfoldable pub type_account : AccountPacket → ℕ
type_account c_req_exit = e_c_req_exit
type_account s_ans_exit = e_s_ans_exit
type_account i_notify_terminal = e_i_notify_terminal
type_account c_notify_heartbeat = e_c_notify_heartbeat
type_account (c_req_id_pw _ _) = e_c_req_id_pw
type_account s_ans_id_pw_fail = e_s_ans_id_pw_fail
type_account (s_ans_id_pw_success _ _ _) = e_s_ans_id_pw_success
type_account (i_db_req_id_pw _ _ _) = e_i_db_req_id_pw
type_account (i_db_ans_id_pw _ _ _) = e_i_db_ans_id_pw

unfoldable pub encode_account : AccountPacket → Stream → Stream
encode_account c_req_exit s = s << write_word 8 e_c_req_exit
encode_account s_ans_exit s = s << write_word 8 e_s_ans_exit
encode_account i_notify_terminal s = s << write_word 8 e_i_notify_terminal
encode_account c_notify_heartbeat s = s << write_word 8 e_c_notify_heartbeat
encode_account (c_req_id_pw id password) s =
    s << write_word 8 e_c_req_id_pw << write_str id << write_str password
encode_account s_ans_id_pw_fail s = s << write_word 8 e_s_ans_id_pw_fail
encode_account (s_ans_id_pw_success ip port name) s =
    s << write_word 8 e_s_ans_id_pw_success << write_str ip << write_word 4 port << write_str name
encode_account (i_db_req_id_pw client_id id password) s =
    s
    << write_word 8 e_i_db_req_id_pw
    << write_word 8 client_id
    << write_str id
    << write_str password
encode_account (i_db_ans_id_pw client_id oid_account_id result) s =
    s
    << write_word 8 e_i_db_ans_id_pw
    << write_word 8 client_id
    << write_word 8 oid_account_id
    << write_word 1 result

-- `decode` on an object whose fields have the values given. Classes without fields inherit the
-- empty `decode`.
unfoldable pub decode_account : AccountPacket → Reader AccountPacket
decode_account c_req_exit = pure c_req_exit
decode_account s_ans_exit = pure s_ans_exit
decode_account i_notify_terminal = pure i_notify_terminal
decode_account c_notify_heartbeat = pure c_notify_heartbeat
decode_account (c_req_id_pw id password) = do
  id' ← read_str id
  password' ← read_str password
  pure (c_req_id_pw id' password')
decode_account s_ans_id_pw_fail = pure s_ans_id_pw_fail
decode_account (s_ans_id_pw_success ip port name) = do
  ip' ← read_str ip
  port' ← read_word 4 port
  name' ← read_str name
  pure (s_ans_id_pw_success ip' port' name')
decode_account (i_db_req_id_pw client_id id password) = do
  client_id' ← read_word 8 client_id
  id' ← read_str id
  password' ← read_str password
  pure (i_db_req_id_pw client_id' id' password')
decode_account (i_db_ans_id_pw client_id oid_account_id result) = do
  client_id' ← read_word 8 client_id
  oid_account_id' ← read_word 8 oid_account_id
  result' ← read_word 1 result
  pure (i_db_ans_id_pw client_id' oid_account_id' result')

-- The object that `new` makes: the fields are zeros and empty texts.
unfoldable pub blank_account : AccountPacket → AccountPacket
blank_account c_req_exit = c_req_exit
blank_account s_ans_exit = s_ans_exit
blank_account i_notify_terminal = i_notify_terminal
blank_account c_notify_heartbeat = c_notify_heartbeat
blank_account (c_req_id_pw _ _) = c_req_id_pw [] []
blank_account s_ans_id_pw_fail = s_ans_id_pw_fail
blank_account (s_ans_id_pw_success _ _ _) = s_ans_id_pw_success [] 0 []
blank_account (i_db_req_id_pw _ _ _) = i_db_req_id_pw 0 [] []
blank_account (i_db_ans_id_pw _ _ _) = i_db_ans_id_pw 0 0 0

-- The wire format: the fields behind the type, in order.
unfoldable pub fields_account : AccountPacket → List Field
fields_account c_req_exit = []
fields_account s_ans_exit = []
fields_account i_notify_terminal = []
fields_account c_notify_heartbeat = []
fields_account (c_req_id_pw id password) = str id ∷ str password ∷ []
fields_account s_ans_id_pw_fail = []
fields_account (s_ans_id_pw_success ip port name) = str ip ∷ word 4 port ∷ str name ∷ []
fields_account (i_db_req_id_pw client_id id password) =
    word 8 client_id ∷ str id ∷ str password ∷ []
fields_account (i_db_ans_id_pw client_id oid_account_id result) =
    word 8 client_id ∷ word 8 oid_account_id ∷ word 1 result ∷ []
