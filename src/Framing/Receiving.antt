-- ===== src/Framing/Receiving.antt =====
-- StaticLib1/IOCPSession.cpp:19-51, 150-170 and 227-288: from the bytes that a socket gave to packages.
-- Where areas overlap, memcpy is taken to move them.
pub mod Passes
pub mod Frames
pub mod Parts
use graduation_server.Common.{
  ℕ, zero, suc, ◌+◌, ◌-◌, ◌%◌, ◌^◌, Bool, true, false, Option, none, some, List, [], ◌∷◌, ◌++◌, ltb,
  leb, ◌==◌, if◌then◌else◌, length, Loop, ended, aborted, running,
}
use graduation_server.Common.Words.{Bytes, le_value, load, store, sign_extend}
use graduation_server.Packet.{Packet}
use graduation_server.Analyzer.{analyzer}
use graduation_server.Framing.{IoData, clear}

-- `sizeof(main_buffer_)`
abbrev pub main_size : ℕ
main_size = 1024000

-- `ioData_[IO_READ]`, the buffer that keeps what was not yet read, `packageStorage` by the packets of its
-- packages, and the place and length of the last request to the socket.
pub record Receiver : Type 0 where
  pub io : IoData
  pub main_buffer : Bytes
  pub main_buffer_offset : ℕ
  pub package_storage : List Packet
  pub wanted : ℕ × ℕ

-- The socket writes what it got where the last request said.
abbrev pub arrive : List ℕ → Receiver → Receiver
arrive bytes r = record r { io = record r.io { buffer = store r.io.buffer (r.wanted.0) bytes } }

-- The length that the buffer begins with, an `int`.
abbrev pub packet_len : IoData → ℕ
packet_len d = sign_extend (le_value (load d.buffer 0 4))

-- `setupTotalBytes`: the offset and the data after it.
unfoldable pub setup_total_bytes : IoData → ℕ × IoData
setup_total_bytes d =
    if d.total_bytes == 0
    then (4, record d { total_bytes = packet_len d })
    else (0, record d { total_bytes = (d.total_bytes + packet_len d) % 2 ^ 64 })

-- `needMoreIO`
abbrev pub need_more_io : ℕ → IoData → Bool × IoData
need_more_io transfer_size d = (
  ltb (d.current_bytes + transfer_size) d.total_bytes,
  record d { current_bytes = d.current_bytes + transfer_size },
)

-- `isRecving` where more is needed: the rest is asked for, and the length is added again.
unfoldable pub ask_more : Receiver → Receiver
unfolding setup_total_bytes
ask_more r = record r {
  io = (setup_total_bytes r.io).1;
  wanted = (r.io.current_bytes, r.io.total_bytes - r.io.current_bytes);
}

unfoldable pub recv_stand_by : Receiver → Receiver
recv_stand_by r = record r { io = clear; wanted = (0, 10240) }

-- The bytes go to `&main_buffer_ + main_buffer_offset`, which lies outside the buffer unless the offset
-- is 0; a copy that is too long ends the program.
unfoldable pub copy_in : Receiver → Option Receiver
copy_in r =
    if r.main_buffer_offset == 0
    then if leb r.io.current_bytes main_size
      then some (record r {
        main_buffer = store r.main_buffer 0 (load r.io.buffer 0 r.io.current_bytes);
        main_buffer_offset = r.io.current_bytes;
        io = record r.io { total_bytes = r.io.current_bytes };
      })
      else none
    else none

unfoldable pub zeros : ℕ → List ℕ
zeros zero = []
zeros (suc n) = 0 ∷ zeros n

-- `packetData`, an array of 200 bytes.
unfoldable pub packet_data : ℕ → ℕ → Receiver → List ℕ
packet_data offset n r = load r.main_buffer offset n ++ zeros (200 - n)

-- The last statements of a pass: the package is stored and its bytes go.
unfoldable pub take_package : ℕ → Packet → Receiver → Receiver
take_package n packet r = record r {
  package_storage = r.package_storage ++ (packet ∷ []);
  main_buffer = λ i. if ltb i (main_size - n) then r.main_buffer (i + n) else r.main_buffer i;
  main_buffer_offset = r.main_buffer_offset - n;
  io = record r.io { total_bytes = r.main_buffer_offset - n };
}

-- The test on a packet's length: a size below zero or above 200 makes memcpy leave its arrays.
abbrev pub fits_data : ℕ → Bool
fits_data n = if ltb n 4 then false else leb n 204

-- The packet in front, which has `n` bytes with its length. The null pointer is used in the log line.
unfoldable pub front_packet : ℕ → ℕ → Receiver → Option Packet
front_packet offset n r =
    if fits_data n
    then elim (analyzer (packet_data offset (n - 4) r) (n - 4)) [
      | none ↦ none
      | some none ↦ none
      | some (some packet) ↦ some packet
    ]
    else none

abbrev pub front_len : Receiver → ℕ
front_len r = le_value (load r.main_buffer 0 4)

-- The `while` loop; `fuel` counts its passes.
unfoldable pub unpack : ℕ → ℕ → Receiver → Loop Receiver
unfolding front_packet take_package
unpack zero offset r = running
unpack (suc fuel) offset r =
    if ltb r.main_buffer_offset 8
    then ended r
    else if ltb r.io.total_bytes (front_len r)
    then ended r
    else elim (front_packet offset (front_len r) r) [
      | none ↦ aborted
      | some packet ↦ unpack fuel offset (take_package (front_len r) packet r)
    ]

-- The end of `onRecv`.
abbrev pub stand_by : Loop Receiver → Loop Receiver
stand_by (ended r) = ended (recv_stand_by r)
stand_by aborted = aborted
stand_by running = running

-- What follows where no more is needed.
unfoldable pub read_all : ℕ → Receiver → Loop Receiver
unfolding copy_in unpack
read_all offset r = elim (copy_in r) [
  | none ↦ aborted
  | some s ↦ stand_by (unpack (s.main_buffer_offset + 1) offset s)
]

-- `onRecv`
unfoldable pub on_recv : ℕ → Receiver → Loop Receiver
unfolding setup_total_bytes ask_more read_all
on_recv transfer_size r =
    let (offset, d) = setup_total_bytes r.io in
    let (more, e) = need_more_io transfer_size d in
    let s : Receiver = record r { io = e } in if more then ended (ask_more s) else read_all offset s
