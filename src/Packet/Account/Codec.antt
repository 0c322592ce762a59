-- ===== src/Packet/Account/Codec.antt =====
-- The packets of Packet/Account.antt: what `encode` writes, and what `decode` takes.
use graduation_server.Common.{[], ◌∷◌, ◌^◌, ◌≤◌, ◌<◌, ◌≡◌, ◌⊎◌, inl, inr, refl, All, arith, length}
use graduation_server.Common.Words.{le_bytes}
use graduation_server.Stream.{Stream}
use graduation_server.Stream.Reads.{Reads, Reads-pure, Reads-bind, read_word-Reads, read_str-Reads}
use graduation_server.Packet.Wire.{IsField, wire, word, write_fields}
use graduation_server.Packet.Account.{
  AccountPacket, type_account, encode_account, decode_account, blank_account, fields_account,
  c_req_exit, s_ans_exit, i_notify_terminal, c_notify_heartbeat, c_req_id_pw, s_ans_id_pw_fail,
  s_ans_id_pw_success, i_db_req_id_pw, i_db_ans_id_pw,
}

pub encode_account-fields :
    (p : AccountPacket) (s : Stream)
    → encode_account p s ≡ write_fields (word 8 (type_account p) ∷ fields_account p) s
unfolding encode_account type_account fields_account write_fields
encode_account-fields c_req_exit s = refl
encode_account-fields s_ans_exit s = refl
encode_account-fields i_notify_terminal s = refl
encode_account-fields c_notify_heartbeat s = refl
encode_account-fields (c_req_id_pw id password) s = refl
encode_account-fields s_ans_id_pw_fail s = refl
encode_account-fields (s_ans_id_pw_success ip port name) s = refl
encode_account-fields (i_db_req_id_pw client_id id password) s = refl
encode_account-fields (i_db_ans_id_pw client_id oid_account_id result) s = refl

pub decode_account-Reads :
    (p : AccountPacket)
    → All IsField (fields_account p)
    → Reads (decode_account (blank_account p)) (wire (fields_account p)) p
unfolding decode_account blank_account fields_account wire
decode_account-Reads c_req_exit h = Reads-pure c_req_exit
decode_account-Reads s_ans_exit h = Reads-pure s_ans_exit
decode_account-Reads i_notify_terminal h = Reads-pure i_notify_terminal
decode_account-Reads c_notify_heartbeat h = Reads-pure c_notify_heartbeat
decode_account-Reads (c_req_id_pw id password) h =
    Reads-bind _ (read_str-Reads [] id h.0)
      (Reads-bind _ (read_str-Reads [] password h.1.0) (Reads-pure _))
decode_account-Reads s_ans_id_pw_fail h = Reads-pure s_ans_id_pw_fail
decode_account-Reads (s_ans_id_pw_success ip port name) h =
    Reads-bind _ (read_str-Reads [] ip h.0) (
      Reads-bind _ (read_word-Reads 4 0 port h.1.0)
        (Reads-bind _ (read_str-Reads [] name h.1.1.0) (Reads-pure _)))
decode_account-Reads (i_db_req_id_pw client_id id password) h =
    Reads-bind _ (read_word-Reads 8 0 client_id h.0) (
      Reads-bind _ (read_str-Reads [] id h.1.0)
        (Reads-bind _ (read_str-Reads [] password h.1.1.0) (Reads-pure _)))
decode_account-Reads (i_db_ans_id_pw client_id oid_account_id result) h =
    Reads-bind _ (read_word-Reads 8 0 client_id h.0) (
      Reads-bind _ (read_word-Reads 8 0 oid_account_id h.1.0)
        (Reads-bind _ (read_word-Reads 1 0 result h.1.1.0) (Reads-pure _)))

pub type_account-lt : (p : AccountPacket) → type_account p < 256 ^ 8
unfolding type_account
type_account-lt c_req_exit = omega arith
type_account-lt s_ans_exit = omega arith
type_account-lt i_notify_terminal = omega arith
type_account-lt c_notify_heartbeat = omega arith
type_account-lt (c_req_id_pw _ _) = omega arith
type_account-lt s_ans_id_pw_fail = omega arith
type_account-lt (s_ans_id_pw_success _ _ _) = omega arith
type_account-lt (i_db_req_id_pw _ _ _) = omega arith
type_account-lt (i_db_ans_id_pw _ _ _) = omega arith

-- A packet that takes no bytes has no fields.
pub account_empty :
    (p : AccountPacket) → (1 ≤ length (wire (fields_account p))) ⊎ (blank_account p ≡ p)
unfolding fields_account blank_account wire le_bytes
account_empty c_req_exit = inr refl
account_empty s_ans_exit = inr refl
account_empty i_notify_terminal = inr refl
account_empty c_notify_heartbeat = inr refl
account_empty (c_req_id_pw _ _) = inl (omega arith)
account_empty s_ans_id_pw_fail = inr refl
account_empty (s_ans_id_pw_success _ _ _) = inl (omega arith)
account_empty (i_db_req_id_pw _ _ _) = inl (omega arith)
account_empty (i_db_ans_id_pw _ _ _) = inl (omega arith)
