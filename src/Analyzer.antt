-- ===== src/Analyzer.antt =====
-- StaticLib1/PacketAnalyzer.cpp: from the bytes behind a frame's length to a packet.
pub mod RoundTrip
pub mod Factory
use graduation_server.Common.{
  ℕ, ◌-◌, Option, none, some, List, ltb, if◌then◌else◌, length, take, drop,
}
use graduation_server.Common.Words.{le_value}
use graduation_server.Stream.{Stream, initialize, set}
use graduation_server.Packet.{Packet, decode, get_packet}

-- `Stream stream(row, size); packet->decode(stream);`
pub decode_from : List ℕ → ℕ → Packet → Option (Option Packet)
decode_from row size packet = elim (set row size initialize) [
  | none ↦ none
  | some stream ↦ elim (decode packet stream) [ none ↦ none | some (p, _) ↦ some (some p) ]
]

pub fill : List ℕ → ℕ → Option Packet → Option (Option Packet)
unfolding decode_from
fill row size none = some none
fill row size (some packet) =
    if ltb 8 size then decode_from (drop 8 row) (size - 8) packet else some (some packet)

-- `row` holds the bytes from the pointer `rowPacket` to the end of its buffer. The outer `none` is
-- undefined behaviour, the inner one the null pointer.
unfoldable pub analyzer : List ℕ → ℕ → Option (Option Packet)
unfolding fill
analyzer row size =
    if ltb (length row) 8 then none else fill row size (get_packet (le_value (take 8 row)))
