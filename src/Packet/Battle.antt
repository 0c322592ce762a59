-- ===== src/Packet/Battle.antt =====
-- StaticLib1/PacketClass.h:373-501, the packets of a match: users, moves, bullets, enemies. A text is the list of its
-- bytes, a number its bit pattern.
pub mod Codec
use graduation_server.Common.{ℕ, List, [], ◌∷◌}
use graduation_server.Stream.{Stream, Reader, pure, ◌>>=◌, write_word, read_word}
use graduation_server.Packet.Wire.{Field, word, ◌<<◌}
use graduation_server.Packet.Codes.{
  e_c_req_player_move, e_i_user_info, e_s_ans_player_move, e_c_req_fire_bullet, e_s_ans_fire_bullet,
  e_c_req_make_enemy,
}

pub data BattlePacket : Type 0 where
  c_req_player_move : (room_num : ℕ) → (x : ℕ) → (y : ℕ) → BattlePacket
  i_user_info : (room_num : ℕ) → (user1_id : ℕ) → (user2_id : ℕ) → BattlePacket
  s_ans_player_move : (room_num : ℕ) → (x : ℕ) → (y : ℕ) → BattlePacket
  c_req_fire_bullet : (room_num : ℕ) → (x : ℕ) → (y : ℕ) → BattlePacket
  s_ans_fire_bullet : (room_num : ℕ) → (x : ℕ) → (y : ℕ) → BattlePacket
  c_req_make_enemy : (room_num : ℕ) → (x : ℕ) → BattlePacket

-- `type()` of each class.
unfoldable pub type_battle : BattlePacket → ℕ
type_battle (c_req_player_move _ _ _) = e_c_req_player_move
type_battle (i_user_info _ _ _) = e_i_user_info
type_battle (s_ans_player_move _ _ _) = e_s_ans_player_move
type_battle (c_req_fire_bullet _ _ _) = e_c_req_fire_bullet
type_battle (s_ans_fire_bullet _ _ _) = e_s_ans_fire_bullet
type_battle (c_req_make_enemy _ _) = e_c_req_make_enemy

unfoldable pub encode_battle : BattlePacket → Stream → Stream
encode_battle (c_req_player_move room_num x y) s =
    s
    << write_word 8 e_c_req_player_move
    << write_word 8 room_num
    << write_word 4 x
    << write_word 4 y
encode_battle (i_user_info room_num user1_id user2_id) s =
    s
    << write_word 8 e_i_user_info
    << write_word 8 room_num
    << write_word 8 user1_id
    << write_word 8 user2_id
encode_battle (s_ans_player_move room_num x y) s =
    s
    << write_word 8 e_s_ans_player_move
    << write_word 8 room_num
    << write_word 4 x
    << write_word 4 y
encode_battle (c_req_fire_bullet room_num x y) s =
    s
    << write_word 8 e_c_req_fire_bullet
    << write_word 8 room_num
    << write_word 4 x
    << write_word 4 y
encode_battle (s_ans_fire_bullet room_num x y) s =
    s
    << write_word 8 e_s_ans_fire_bullet
    << write_word 8 room_num
    << write_word 4 x
    << write_word 4 y
encode_battle (c_req_make_enemy room_num x) s =
    s << write_word 8 e_c_req_make_enemy << write_word 8 room_num << write_word 4 x

-- `decode` on an object whose fields have the values given. Classes without fields inherit the
-- empty `decode`.
unfoldable pub decode_battle : BattlePacket → Reader BattlePacket
decode_battle (c_req_player_move room_num x y) = do
  room_num' ← read_word 8 room_num
  x' ← read_word 4 x
  y' ← read_word 4 y
  pure (c_req_player_move room_num' x' y')
decode_battle (i_user_info room_num user1_id user2_id) = do
  room_num' ← read_word 8 room_num
  user1_id' ← read_word 8 user1_id
  user2_id' ← read_word 8 user2_id
  pure (i_user_info room_num' user1_id' user2_id')
decode_battle (s_ans_player_move room_num x y) = do
  room_num' ← read_word 8 room_num
  x' ← read_word 4 x
  y' ← read_word 4 y
  pure (s_ans_player_move room_num' x' y')
decode_battle (c_req_fire_bullet room_num x y) = do
  room_num' ← read_word 8 room_num
  x' ← read_word 4 x
  y' ← read_word 4 y
  pure (c_req_fire_bullet room_num' x' y')
decode_battle (s_ans_fire_bullet room_num x y) = do
  room_num' ← read_word 8 room_num
  x' ← read_word 4 x
  y' ← read_word 4 y
  pure (s_ans_fire_bullet room_num' x' y')
decode_battle (c_req_make_enemy room_num x) = do
  room_num' ← read_word 8 room_num
  x' ← read_word 4 x
  pure (c_req_make_enemy room_num' x')

-- The object that `new` makes: the fields are zeros and empty texts.
unfoldable pub blank_battle : BattlePacket → BattlePacket
blank_battle (c_req_player_move _ _ _) = c_req_player_move 0 0 0
blank_battle (i_user_info _ _ _) = i_user_info 0 0 0
blank_battle (s_ans_player_move _ _ _) = s_ans_player_move 0 0 0
blank_battle (c_req_fire_bullet _ _ _) = c_req_fire_bullet 0 0 0
blank_battle (s_ans_fire_bullet _ _ _) = s_ans_fire_bullet 0 0 0
blank_battle (c_req_make_enemy _ _) = c_req_make_enemy 0 0

-- The wire format: the fields behind the type, in order.
unfoldable pub fields_battle : BattlePacket → List Field
fields_battle (c_req_player_move room_num x y) = word 8 room_num ∷ word 4 x ∷ word 4 y ∷ []
fields_battle (i_user_info room_num user1_id user2_id) =
    word 8 room_num ∷ word 8 user1_id ∷ word 8 user2_id ∷ []
fields_battle (s_ans_player_move room_num x y) = word 8 room_num ∷ word 4 x ∷ word 4 y ∷ []
fields_battle (c_req_fire_bullet room_num x y) = word 8 room_num ∷ word 4 x ∷ word 4 y ∷ []
fields_battle (s_ans_fire_bullet room_num x y) = word 8 room_num ∷ word 4 x ∷ word 4 y ∷ []
fields_battle (c_req_make_enemy room_num x) = word 8 room_num ∷ word 4 x ∷ []
