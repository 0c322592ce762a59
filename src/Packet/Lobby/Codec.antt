-- ===== src/Packet/Lobby/Codec.antt =====
-- The packets of Packet/Lobby.antt: what `encode` writes, and what `decode` takes.
use graduation_server.Common.{[], ◌∷◌, ◌^◌, ◌≤◌, ◌<◌, ◌≡◌, ◌⊎◌, inl, refl, All, arith, length}
use graduation_server.Common.Words.{le_bytes}
use graduation_server.Stream.{Stream}
use graduation_server.Stream.Reads.{Reads, Reads-pure, Reads-bind, read_word-Reads, read_str-Reads}
use graduation_server.Packet.Wire.{IsField, wire, word, write_fields}
use graduation_server.Packet.Lobby.{
  LobbyPacket, type_lobby, encode_lobby, decode_lobby, blank_lobby, fields_lobby,
  c_req_regist_chatting_name, c_req_chatting, s_ans_chatting, c_req_lobby_info, s_ans_lobby_info,
  c_req_enter_room, s_ans_enter_room, s_notify_server_ip,
}

pub encode_lobby-fields :
    (p : LobbyPacket) (s : Stream)
    → encode_lobby p s ≡ write_fields (word 8 (type_lobby p) ∷ fields_lobby p) s
unfolding encode_lobby type_lobby fields_lobby write_fields
encode_lobby-fields (c_req_regist_chatting_name name) s = refl
encode_lobby-fields (c_req_chatting text) s = refl
encode_lobby-fields (s_ans_chatting name text) s = refl
encode_lobby-fields (c_req_lobby_info member_count room_num) s = refl
encode_lobby-fields (s_ans_lobby_info member_count room_num) s = refl
encode_lobby-fields (c_req_enter_room member_count room_num) s = refl
encode_lobby-fields (s_ans_enter_room member_count room_num) s = refl
encode_lobby-fields (s_notify_server_ip ip port) s = refl

pub decode_lobby-Reads :
    (p : LobbyPacket)
    → All IsField (fields_lobby p)
    → Reads (decode_lobby (blank_lobby p)) (wire (fields_lobby p)) p
unfolding decode_lobby blank_lobby fields_lobby wire
decode_lobby-Reads (c_req_regist_chatting_name name) h =
    Reads-bind _ (read_str-Reads [] name h.0) (Reads-pure _)
decode_lobby-Reads (c_req_chatting text) h =
    Reads-bind _ (read_str-Reads [] text h.0) (Reads-pure _)
decode_lobby-Reads (s_ans_chatting name text) h =
    Reads-bind _ (read_str-Reads [] name h.0)
      (Reads-bind _ (read_str-Reads [] text h.1.0) (Reads-pure _))
decode_lobby-Reads (c_req_lobby_info member_count room_num) h =
    Reads-bind _ (read_word-Reads 8 0 member_count h.0)
      (Reads-bind _ (read_word-Reads 8 0 room_num h.1.0) (Reads-pure _))
decode_lobby-Reads (s_ans_lobby_info member_count room_num) h =
    Reads-bind _ (read_word-Reads 8 0 member_count h.0)
      (Reads-bind _ (read_word-Reads 8 0 room_num h.1.0) (Reads-pure _))
decode_lobby-Reads (c_req_enter_room member_count room_num) h =
    Reads-bind _ (read_word-Reads 8 0 member_count h.0)
      (Reads-bind _ (read_word-Reads 8 0 room_num h.1.0) (Reads-pure _))
decode_lobby-Reads (s_ans_enter_room member_count room_num) h =
    Reads-bind _ (read_word-Reads 8 0 member_count h.0)
      (Reads-bind _ (read_word-Reads 8 0 room_num h.1.0) (Reads-pure _))
decode_lobby-Reads (s_notify_server_ip ip port) h =
    Reads-bind _ (read_str-Reads [] ip h.0)
      (Reads-bind _ (read_word-Reads 4 0 port h.1.0) (Reads-pure _))

pub type_lobby-lt : (p : LobbyPacket) → type_lobby p < 256 ^ 8
unfolding type_lobby
type_lobby-lt (c_req_regist_chatting_name _) = omega arith
type_lobby-lt (c_req_chatting _) = omega arith
type_lobby-lt (s_ans_chatting _ _) = omega arith
type_lobby-lt (c_req_lobby_info _ _) = omega arith
type_lobby-lt (s_ans_lobby_info _ _) = omega arith
type_lobby-lt (c_req_enter_room _ _) = omega arith
type_lobby-lt (s_ans_enter_room _ _) = omega arith
type_lobby-lt (s_notify_server_ip _ _) = omega arith

-- A packet that takes no bytes has no fields.
pub lobby_empty : (p : LobbyPacket) → (1 ≤ length (wire (fields_lobby p))) ⊎ (blank_lobby p ≡ p)
unfolding fields_lobby blank_lobby wire le_bytes
lobby_empty (c_req_regist_chatting_name _) = inl (omega arith)
lobby_empty (c_req_chatting _) = inl (omega arith)
lobby_empty (s_ans_chatting _ _) = inl (omega arith)
lobby_empty (c_req_lobby_info _ _) = inl (omega arith)
lobby_empty (s_ans_lobby_info _ _) = inl (omega arith)
lobby_empty (c_req_enter_room _ _) = inl (omega arith)
lobby_empty (s_ans_enter_room _ _) = inl (omega arith)
lobby_empty (s_notify_server_ip _ _) = inl (omega arith)
