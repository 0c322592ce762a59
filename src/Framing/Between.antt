-- ===== src/Framing/Between.antt =====
-- StaticLib1/TerminalSession.cpp: frames between servers, on sockets that block.
pub mod Delivery
use graduation_server.Common.{
  ℕ, ◌+◌, ◌-◌, ◌^◌, Option, none, some, List, [], ◌∷◌, ◌++◌, ltb, leb, ◌==◌, if◌then◌else◌, length,
  take, drop, Loop, ended, aborted, running,
}
use graduation_server.Common.Words.{Bytes, le_bytes, le_value, load, store, sign_extend}
use graduation_server.Stream.{stream_size, initialize}
use graduation_server.Packet.{Packet, encode}
use graduation_server.Analyzer.{analyzer}

-- `sendPacket`: what `::send` is called with, from a new buffer that holds anything. The copy of the
-- stream takes four bytes more than the stream has, out of an array and into one of 10240 bytes each.
unfoldable pub send_between : Bytes → Packet → Option (List ℕ)
send_between junk packet =
    let stream = encode packet initialize in
    let buffer =
      store (store junk 0 (le_bytes 4 (4 + stream.offset))) 4
        (load stream.bytes 0 (4 + stream.offset)) in
    if leb (8 + stream.offset) stream_size then some (load buffer 0 (4 + stream.offset)) else none

-- The bytes in all that is to come.
abbrev pub join : List (List ℕ) → List ℕ
join [] = []
join (c ∷ cs) = c ++ join cs

-- What a call of `::recv` gives: bytes, none of them where the other side has closed, or SOCKET_ERROR.
pub data Recv : Type 0 where
  came : List ℕ → Recv
  socket_error : Recv

-- Calls that all succeed.
abbrev pub calls : List (List ℕ) → List Recv
calls [] = []
calls (c ∷ cs) = came c ∷ calls cs

-- The loop around `::recv`, by what the calls give. It runs on while they give no byte. SOCKET_ERROR is -1,
-- so that the next call writes over the last byte that came; where none is left, it writes in front of
-- the array, which is undefined.
unfoldable pub gather : ℕ → List ℕ → List Recv → Loop (List ℕ × List Recv)
gather len got [] = if ltb (length got) len then running else ended (got, [])
gather len got (came c ∷ cs) =
    let rest = gather len (got ++ c) cs in
    if ltb (length got) len then rest else ended (got, came c ∷ cs)
gather len got (socket_error ∷ cs) =
    let rest = gather len (take (length got - 1) got) cs in
    let again = if length got == 0 then aborted else rest in
    if ltb (length got) len then again else ended (got, socket_error ∷ cs)

-- The first four bytes of the array as an `int`; a negative length is below every size.
abbrev pub wanted_len : ℕ → ℕ
wanted_len v = if ltb v (2 ^ 31) then v else 0

-- The array, whose bytes behind those that came are what was there before.
abbrev pub row_data : Bytes → List ℕ → List ℕ
row_data leftover got = got ++ load leftover (length got) (stream_size - length got)

-- What is done with the gathered bytes. The analyzer is given the length with the four bytes in front;
-- the null pointer for a packet that it does not know is the inner `none`.
unfoldable pub analyze : Bytes → List ℕ → Loop (Option Packet)
analyze leftover got =
    elim (analyzer (drop 4 (row_data leftover got))
      (sign_extend (le_value (take 4 (row_data leftover got))))) [
        | none ↦ aborted
        | some packet ↦ ended packet
      ]

abbrev pub with_rest : List Recv → Loop (Option Packet) → Loop (Option Packet × List Recv)
with_rest rest (ended packet) = ended (packet, rest)
with_rest rest aborted = aborted
with_rest rest running = running

-- `onRecv`: the packet, and the chunks that were not asked for.
unfoldable pub recv_between : Bytes → List Recv → Loop (Option Packet × List Recv)
unfolding gather analyze
recv_between leftover [] = running
recv_between leftover (socket_error ∷ cs) = ended (none, cs)
recv_between leftover (came [] ∷ cs) = ended (none, cs)
recv_between leftover (came (b ∷ bs) ∷ cs) =
    elim (gather (wanted_len (le_value (take 4 (row_data leftover (b ∷ bs))))) (b ∷ bs) cs) [
      | ended (got, rest) ↦ with_rest rest (analyze leftover got)
      | aborted ↦ aborted
      | running ↦ running
    ]
