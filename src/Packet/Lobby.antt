-- ===== src/Packet/Lobby.antt =====
-- StaticLib1/PacketClass.h:220-371, the packets of chat and the lobby. A text is the list of its
-- bytes, a number its bit pattern.
pub mod Codec
use graduation_server.Common.{ℕ, List, [], ◌∷◌}
use graduation_server.Stream.{
  Stream, Reader, pure, ◌>>=◌, write_word, write_str, read_word, read_str,
}
use graduation_server.Packet.Wire.{Field, word, str, ◌<<◌}
use graduation_server.Packet.Codes.{
  e_c_req_regist_chatting_name, e_c_req_chatting, e_s_ans_chatting, e_c_req_lobby_info,
  e_s_ans_lobby_info, e_c_req_enter_room, e_s_ans_enter_room, e_s_notify_server_ip,
}

pub data LobbyPacket : Type 0 where
  c_req_regist_chatting_name : (name : List ℕ) → LobbyPacket
  c_req_chatting : (text : List ℕ) → LobbyPacket
  s_ans_chatting : (name : List ℕ) → (text : List ℕ) → LobbyPacket
  c_req_lobby_info : (member_count : ℕ) → (room_num : ℕ) → LobbyPacket
  s_ans_lobby_info : (member_count : ℕ) → (room_num : ℕ) → LobbyPacket
  c_req_enter_room : (member_count : ℕ) → (room_num : ℕ) → LobbyPacket
  s_ans_enter_room : (member_count : ℕ) → (room_num : ℕ) → LobbyPacket
  s_notify_server_ip : (ip : List ℕ) → (port : ℕ) → LobbyPacket

-- `type()` of each class.
unfoldable pub type_lobby : LobbyPacket → ℕ
type_lobby (c_req_regist_chatting_name _) = e_c_req_regist_chatting_name
type_lobby (c_req_chatting _) = e_c_req_chatting
type_lobby (s_ans_chatting _ _) = e_s_ans_chatting
type_lobby (c_req_lobby_info _ _) = e_c_req_lobby_info
type_lobby (s_ans_lobby_info _ _) = e_s_ans_lobby_info
type_lobby (c_req_enter_room _ _) = e_c_req_enter_room
type_lobby (s_ans_enter_room _ _) = e_s_ans_enter_room
type_lobby (s_notify_server_ip _ _) = e_s_notify_server_ip

unfoldable pub encode_lobby : LobbyPacket → Stream → Stream
encode_lobby (c_req_regist_chatting_name name) s =
    s << write_word 8 e_c_req_regist_chatting_name << write_str name
encode_lobby (c_req_chatting text) s = s << write_word 8 e_c_req_chatting << write_str text
encode_lobby (s_ans_chatting name text) s =
    s << write_word 8 e_s_ans_chatting << write_str name << write_str text
encode_lobby (c_req_lobby_info member_count room_num) s =
    s << write_word 8 e_c_req_lobby_info << write_word 8 member_count << write_word 8 room_num
encode_lobby (s_ans_lobby_info member_count room_num) s =
    s << write_word 8 e_s_ans_lobby_info << write_word 8 member_count << write_word 8 room_num
encode_lobby (c_req_enter_room member_count room_num) s =
    s << write_word 8 e_c_req_enter_room << write_word 8 member_count << write_word 8 room_num
encode_lobby (s_ans_enter_room member_count room_num) s =
    s << write_word 8 e_s_ans_enter_room << write_word 8 member_count << write_word 8 room_num
encode_lobby (s_notify_server_ip ip port) s =
    s << write_word 8 e_s_notify_server_ip << write_str ip << write_word 4 port

-- `decode` on an object whose fields have the values given. Classes without fields inherit the
-- empty `decode`.
unfoldable pub decode_lobby : LobbyPacket → Reader LobbyPacket
decode_lobby (c_req_regist_chatting_name name) = do
  name' ← read_str name
  pure (c_req_regist_chatting_name name')
decode_lobby (c_req_chatting text) = do text' ← read_str text; pure (c_req_chatting text')
decode_lobby (s_ans_chatting name text) = do
  name' ← read_str name
  text' ← read_str text
  pure (s_ans_chatting name' text')
decode_lobby (c_req_lobby_info member_count room_num) = do
  member_count' ← read_word 8 member_count
  room_num' ← read_word 8 room_num
  pure (c_req_lobby_info member_count' room_num')
decode_lobby (s_ans_lobby_info member_count room_num) = do
  member_count' ← read_word 8 member_count
  room_num' ← read_word 8 room_num
  pure (s_ans_lobby_info member_count' room_num')
decode_lobby (c_req_enter_room member_count room_num) = do
  member_count' ← read_word 8 member_count
  room_num' ← read_word 8 room_num
  pure (c_req_enter_room member_count' room_num')
decode_lobby (s_ans_enter_room member_count room_num) = do
  member_count' ← read_word 8 member_count
  room_num' ← read_word 8 room_num
  pure (s_ans_enter_room member_count' room_num')
decode_lobby (s_notify_server_ip ip port) = do
  ip' ← read_str ip
  port' ← read_word 4 port
  pure (s_notify_server_ip ip' port')

-- The object that `new` makes: the fields are zeros and empty texts.
unfoldable pub blank_lobby : LobbyPacket → LobbyPacket
blank_lobby (c_req_regist_chatting_name _) = c_req_regist_chatting_name []
blank_lobby (c_req_chatting _) = c_req_chatting []
blank_lobby (s_ans_chatting _ _) = s_ans_chatting [] []
blank_lobby (c_req_lobby_info _ _) = c_req_lobby_info 0 0
blank_lobby (s_ans_lobby_info _ _) = s_ans_lobby_info 0 0
blank_lobby (c_req_enter_room _ _) = c_req_enter_room 0 0
blank_lobby (s_ans_enter_room _ _) = s_ans_enter_room 0 0
blank_lobby (s_notify_server_ip _ _) = s_notify_server_ip [] 0

-- The wire format: the fields behind the type, in order.
unfoldable pub fields_lobby : LobbyPacket → List Field
fields_lobby (c_req_regist_chatting_name name) = str name ∷ []
fields_lobby (c_req_chatting text) = str text ∷ []
fields_lobby (s_ans_chatting name text) = str name ∷ str text ∷ []
fields_lobby (c_req_lobby_info member_count room_num) = word 8 member_count ∷ word 8 room_num ∷ []
fields_lobby (s_ans_lobby_info member_count room_num) = word 8 member_count ∷ word 8 room_num ∷ []
fields_lobby (c_req_enter_room member_count room_num) = word 8 member_count ∷ word 8 room_num ∷ []
fields_lobby (s_ans_enter_room member_count room_num) = word 8 member_count ∷ word 8 room_num ∷ []
fields_lobby (s_notify_server_ip ip port) = str ip ∷ word 4 port ∷ []
