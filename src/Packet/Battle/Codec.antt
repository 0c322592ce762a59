-- ===== src/Packet/Battle/Codec.antt =====
-- The packets of Packet/Battle.antt: what `encode` writes, and what `decode` takes.
use graduation_server.Common.{◌∷◌, ◌^◌, ◌≤◌, ◌<◌, ◌≡◌, ◌⊎◌, inl, refl, All, arith, length}
use graduation_server.Common.Words.{le_bytes}
use graduation_server.Stream.{Stream}
use graduation_server.Stream.Reads.{Reads, Reads-pure, Reads-bind, read_word-Reads}
use graduation_server.Packet.Wire.{IsField, wire, word, write_fields}
use graduation_server.Packet.Battle.{
  BattlePacket, type_battle, encode_battle, decode_battle, blank_battle, fields_battle,
  c_req_player_move, i_user_info, s_ans_player_move, c_req_fire_bullet, s_ans_fire_bullet,
  c_req_make_enemy,
}

pub encode_battle-fields :
    (p : BattlePacket) (s : Stream)
    → encode_battle p s ≡ write_fields (word 8 (type_battle p) ∷ fields_battle p) s
unfolding encode_battle type_battle fields_battle write_fields
encode_battle-fields (c_req_player_move room_num x y) s = refl
encode_battle-fields (i_user_info room_num user1_id user2_id) s = refl
encode_battle-fields (s_ans_player_move room_num x y) s = refl
encode_battle-fields (c_req_fire_bullet room_num x y) s = refl
encode_battle-fields (s_ans_fire_bullet room_num x y) s = refl
encode_battle-fields (c_req_make_enemy room_num x) s = refl

pub decode_battle-Reads :
    (p : BattlePacket)
    → All IsField (fields_battle p)
    → Reads (decode_battle (blank_battle p)) (wire (fields_battle p)) p
unfolding decode_battle blank_battle fields_battle wire
decode_battle-Reads (c_req_player_move room_num x y) h =
    Reads-bind _ (read_word-Reads 8 0 room_num h.0) (
      Reads-bind _ (read_word-Reads 4 0 x h.1.0)
        (Reads-bind _ (read_word-Reads 4 0 y h.1.1.0) (Reads-pure _)))
decode_battle-Reads (i_user_info room_num user1_id user2_id) h =
    Reads-bind _ (read_word-Reads 8 0 room_num h.0) (
      Reads-bind _ (read_word-Reads 8 0 user1_id h.1.0)
        (Reads-bind _ (read_word-Reads 8 0 user2_id h.1.1.0) (Reads-pure _)))
decode_battle-Reads (s_ans_player_move room_num x y) h =
    Reads-bind _ (read_word-Reads 8 0 room_num h.0) (
      Reads-bind _ (read_word-Reads 4 0 x h.1.0)
        (Reads-bind _ (read_word-Reads 4 0 y h.1.1.0) (Reads-pure _)))
decode_battle-Reads (c_req_fire_bullet room_num x y) h =
    Reads-bind _ (read_word-Reads 8 0 room_num h.0) (
      Reads-bind _ (read_word-Reads 4 0 x h.1.0)
        (Reads-bind _ (read_word-Reads 4 0 y h.1.1.0) (Reads-pure _)))
decode_battle-Reads (s_ans_fire_bullet room_num x y) h =
    Reads-bind _ (read_word-Reads 8 0 room_num h.0) (
      Reads-bind _ (read_word-Reads 4 0 x h.1.0)
        (Reads-bind _ (read_word-Reads 4 0 y h.1.1.0) (Reads-pure _)))
decode_battle-Reads (c_req_make_enemy room_num x) h =
    Reads-bind _ (read_word-Reads 8 0 room_num h.0)
      (Reads-bind _ (read_word-Reads 4 0 x h.1.0) (Reads-pure _))

pub type_battle-lt : (p : BattlePacket) → type_battle p < 256 ^ 8
unfolding type_battle
type_battle-lt (c_req_player_move _ _ _) = omega arith
type_battle-lt (i_user_info _ _ _) = omega arith
type_battle-lt (s_ans_player_move _ _ _) = omega arith
type_battle-lt (c_req_fire_bullet _ _ _) = omega arith
type_battle-lt (s_ans_fire_bullet _ _ _) = omega arith
type_battle-lt (c_req_make_enemy _ _) = omega arith

-- A packet that takes no bytes has no fields.
pub battle_empty : (p : BattlePacket) → (1 ≤ length (wire (fields_battle p))) ⊎ (blank_battle p ≡ p)
unfolding fields_battle blank_battle wire le_bytes
battle_empty (c_req_player_move _ _ _) = inl (omega arith)
battle_empty (i_user_info _ _ _) = inl (omega arith)
battle_empty (s_ans_player_move _ _ _) = inl (omega arith)
battle_empty (c_req_fire_bullet _ _ _) = inl (omega arith)
battle_empty (s_ans_fire_bullet _ _ _) = inl (omega arith)
battle_empty (c_req_make_enemy _ _) = inl (omega arith)
