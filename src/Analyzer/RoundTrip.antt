-- ===== src/Analyzer/RoundTrip.antt =====
-- A packet that `encode` of StaticLib1/PacketClass.h wrote comes back from `PacketAnalyzer::analyzer`.
use graduation_server.Common.{
  ℕ, ◌+◌, ◌-◌, ◌^◌, ◌≤◌, ◌<◌, ◌≡◌, ◌≢◌, ap, ◌∙◌, ◌⊎◌, some, List, ◌∷◌, ◌++◌, append_assoc, arith,
  length, length-append, take, drop, take-append, drop-append, take-append_more, length-take, All,
}
use graduation_server.Common.{inl, inr}
use graduation_server.Common.Words.{
  le_bytes, length-le_bytes, le_value-le_bytes, load, load-store, store,
}
use graduation_server.Stream.{Stream, stream_size, initialize, set}
use graduation_server.Stream.Cursor.{IsValid, Appends, contents, unread}
use graduation_server.Stream.Reads.{Reads, Reads-map}
use graduation_server.Packet.{
  Packet, account, notice, lobby, battle, round, packet_type, encode, decode, blank, fields,
  get_packet,
}
use graduation_server.Packet.Wire.{IsField, word, wire, write_fields, write_fields-Appends}
use graduation_server.Packet.Account.Codec.{
  encode_account-fields, decode_account-Reads, type_account-lt, account_empty,
}
use graduation_server.Packet.Notice.Codec.{
  encode_notice-fields, decode_notice-Reads, type_notice-lt, notice_empty,
}
use graduation_server.Packet.Lobby.Codec.{
  encode_lobby-fields, decode_lobby-Reads, type_lobby-lt, lobby_empty,
}
use graduation_server.Packet.Battle.Codec.{
  encode_battle-fields, decode_battle-Reads, type_battle-lt, battle_empty,
}
use graduation_server.Packet.Round.Codec.{
  encode_round-fields, decode_round-Reads, type_round-lt, round_empty,
}
use graduation_server.Analyzer.{analyzer, decode_from, fill}
use graduation_server.Analyzer.Factory.{get_packet-packet_type}
use graduation_server.Packet.Codes.{e_s_notify_server_ip}

encode-fields :
    (p : Packet) (s : Stream) → encode p s ≡ write_fields (word 8 (packet_type p) ∷ fields p) s
unfolding encode packet_type fields
encode-fields (account p) s = encode_account-fields p s
encode-fields (notice p) s = encode_notice-fields p s
encode-fields (lobby p) s = encode_lobby-fields p s
encode-fields (battle p) s = encode_battle-fields p s
encode-fields (round p) s = encode_round-fields p s

-- If the fields of a packet are in range, decoding into a new object of its class takes exactly
-- their bytes and gives the packet.
pub decode-Reads :
    (p : Packet) → All IsField (fields p) → Reads (decode (blank p)) (wire (fields p)) p
unfolding decode blank fields
decode-Reads (account p) h = Reads-map account (decode_account-Reads p h)
decode-Reads (notice p) h = Reads-map notice (decode_notice-Reads p h)
decode-Reads (lobby p) h = Reads-map lobby (decode_lobby-Reads p h)
decode-Reads (battle p) h = Reads-map battle (decode_battle-Reads p h)
decode-Reads (round p) h = Reads-map round (decode_round-Reads p h)

packet_type_small : (p : Packet) → packet_type p < 256 ^ 8
unfolding packet_type
packet_type_small (account p) = type_account-lt p
packet_type_small (notice p) = type_notice-lt p
packet_type_small (lobby p) = type_lobby-lt p
packet_type_small (battle p) = type_battle-lt p
packet_type_small (round p) = type_round-lt p

-- A packet whose fields are in range and fit the stream is written as its type and its fields.
pub encode-Appends :
    (p : Packet) (s : Stream)
    → All IsField (fields p)
    → s.offset + (8 + length (wire (fields p))) ≤ stream_size
    → Appends s (encode p s) (le_bytes 8 (packet_type p) ++ wire (fields p))
encode-Appends p s h k = rw (encode-fields p s) (
    unfold wire in
    write_fields-Appends (word 8 (packet_type p) ∷ fields p) s (packet_type_small p, h)
      (omega (
        arith,
        length-append (le_bytes 8 (packet_type p)) (wire (fields p)),
        length-le_bytes 8 (packet_type p),
      )))

-- A stream over the first bytes of a buffer has just these to read.
set-unread :
    (row : List ℕ) (size : ℕ)
    → size ≤ stream_size
    → size ≤ length row
    → (s : Stream) × (set row size initialize ≡ some s) × IsValid s × (unread s ≡ take size row)
unfolding set initialize
set-unread row size h k = (
  record { offset = size; read_pt = 0; bytes = store (λ _. 0) 0 (take size row) },
  ground arith,
  record { reads = omega arith; writes = h },
  ap (load (store (λ _. 0) 0 (take size row)) 0) (omega (arith, length-take size row k))
      ∙ load-store (λ _. 0) 0 (take size row),
)

decode_from_lem :
    (p : Packet) (row rest : List ℕ) (size : ℕ)
    → All IsField (fields p)
    → size ≤ stream_size
    → size ≤ length row
    → take size row ≡ wire (fields p) ++ rest
    → decode_from row size (blank p) ≡ some (some p)
unfolding decode_from
decode_from_lem p row rest size h k l e =
    let (s, made, valid, left) = set-unread row size k l in
    let (t, decoded, _, _) = (decode-Reads p h).run s rest valid (left ∙ e) in
    ground (arith, made, decoded)

side : {A B C : Type 0} → (B → C) → A ⊎ B → A ⊎ C
side f (inl a) = inl a
side f (inr b) = inr (f b)

packet_empty : (p : Packet) → (1 ≤ length (wire (fields p))) ⊎ (blank p ≡ p)
unfolding fields blank
packet_empty (account p) = side (ap account) (account_empty p)
packet_empty (notice p) = side (ap notice) (notice_empty p)
packet_empty (lobby p) = side (ap lobby) (lobby_empty p)
packet_empty (battle p) = side (ap battle) (battle_empty p)
packet_empty (round p) = side (ap round) (round_empty p)

analyzer_header :
    (t : ℕ) (row : List ℕ) (size : ℕ)
    → t < 256 ^ 8
    → analyzer (le_bytes 8 t ++ row) size ≡ fill (le_bytes 8 t ++ row) size (get_packet t)
unfolding analyzer
analyzer_header t row size h = ground (
  arith,
  length-append (le_bytes 8 t) row,
  length-le_bytes 8 t,
  take-append 8 (le_bytes 8 t) row (length-le_bytes 8 t),
  le_value-le_bytes 8 t h,
)

fill_lem :
    (p : Packet) (row junk : List ℕ) (size : ℕ)
    → All IsField (fields p)
    → drop 8 row ≡ wire (fields p) ++ junk
    → 8 + length (wire (fields p)) ≤ size
    → size ≤ 8 + stream_size
    → size ≤ 8 + length (wire (fields p)) + length junk
    → fill row size (some (blank p)) ≡ some (some p)
unfolding fill
fill_lem p row junk size h e lo hi over = ground (
  arith,
  packet_empty p,
  decode_from_lem p (drop 8 row) (take (size - 8 - length (wire (fields p))) junk) (size - 8) h
      (omega arith) (rw e (omega (arith, length-append (wire (fields p)) junk)))
      (rw e (take-append_more (size - 8) (wire (fields p)) junk (omega arith))),
)

pub contents-encode :
    (p : Packet)
    → All IsField (fields p)
    → 8 + length (wire (fields p)) ≤ stream_size
    → contents (encode p initialize) ≡ le_bytes 8 (packet_type p) ++ wire (fields p)
unfolding initialize load
contents-encode p h room = (encode-Appends p initialize h (omega arith)).written

-- A packet other than S_NOTIFY_SERVER_IP, whose fields are in range and fit a stream together with
-- its type, is given back by the analyzer from its encoded bytes, with any bytes behind them and
-- for any size that covers the packet, is covered by the bytes, and exceeds the stream by no more
-- than the type.
pub analyzer-encode :
    (p : Packet) (junk : List ℕ) (size : ℕ)
    → packet_type p ≢ e_s_notify_server_ip
    → All IsField (fields p)
    → 8 + length (wire (fields p)) ≤ size
    → size ≤ 8 + stream_size
    → 8 + length (wire (fields p)) ≤ stream_size
    → size ≤ 8 + length (wire (fields p)) + length junk
    → analyzer (contents (encode p initialize) ++ junk) size ≡ some (some p)
analyzer-encode p junk size known h lo hi room over =
    let head = le_bytes 8 (packet_type p) in
    rw (contents-encode p h room, append_assoc head (wire (fields p)) junk)
      (analyzer_header (packet_type p) (wire (fields p) ++ junk) size (packet_type_small p)
        ∙ ap (fill (head ++ (wire (fields p) ++ junk)) size) (get_packet-packet_type p known)
        ∙ fill_lem p _ junk size h
            (drop-append 8 head (wire (fields p) ++ junk) (length-le_bytes 8 (packet_type p))) lo hi
            over)
