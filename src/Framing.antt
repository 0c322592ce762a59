-- ===== src/Framing.antt =====
-- StaticLib1/IOCPSession.cpp:12-27, 73-117 and 182-205: how a packet becomes the bytes that go to the
-- socket, in one piece or several. What the socket does with a chunk is outside: `on_send` is called
-- with the number of bytes that went.
pub mod Sending
pub mod Receiving
pub mod Between
use graduation_server.Common.{
  ℕ, ◌+◌, ◌-◌, ◌%◌, ◌^◌, Bool, true, false, Option, none, some, List, [], ◌∷◌, ltb, leb,
  if◌then◌else◌, length,
}
use graduation_server.Common.Words.{Bytes, le_bytes, load, store}
use graduation_server.Stream.{Stream, stream_size, initialize}
use graduation_server.Stream.Cursor.{contents}
use graduation_server.Packet.{Packet, encode}

-- The buffer has as many bytes as a stream, SOCKET_BUF_SIZE.
pub record IoData : Type 0 where
  pub total_bytes : ℕ
  pub current_bytes : ℕ
  pub buffer : Bytes

abbrev pub clear : IoData
clear = record { total_bytes = 0; current_bytes = 0; buffer = λ _. 0 }

-- The frame: a length of four bytes that counts itself, then the stream. A frame that is longer than the
-- buffer is written past its end, which is undefined.
unfoldable pub fill_buffer : Stream → Option IoData
fill_buffer stream =
    if leb (4 + stream.offset) stream_size
    then some (record {
      total_bytes = 4 + stream.offset;
      current_bytes = 0;
      buffer = store (store (λ _. 0) 0 (le_bytes 4 (4 + stream.offset))) 4 (contents stream);
    })
    else none

-- `setData`: the answer, and the data after it.
unfoldable pub set_data : Stream → Option (Bool × IoData)
set_data stream =
    if leb stream_size stream.offset
    then some (false, clear)
    else elim (fill_buffer stream) [ none ↦ none | some d ↦ some (true, d) ]

-- `wsabuf`: the chunk from the current byte on.
unfoldable pub wsabuf : IoData → List ℕ
wsabuf d = load d.buffer d.current_bytes (d.total_bytes - d.current_bytes)

-- `sendPacket`: the chunk handed to the socket, and the data kept for the rest. Its length is the
-- length of the stream without the four bytes before it.
unfoldable pub send_packet : Packet → Option (Option (List ℕ) × IoData)
send_packet packet =
    let stream = encode packet initialize in
    elim (set_data stream) [
      | none ↦ none
      | some (ok, d) ↦ if ok then some (some (load d.buffer 0 stream.offset), d) else some (none, d)
    ]

-- `onSend` with `needMoreIO`: the next chunk, if one is needed.
unfoldable pub on_send : ℕ → IoData → Option (List ℕ) × IoData
on_send transfer_size d =
    let e : IoData = record d { current_bytes = d.current_bytes + transfer_size } in
    if ltb e.current_bytes e.total_bytes then (some (wsabuf e), e) else (none, e)
