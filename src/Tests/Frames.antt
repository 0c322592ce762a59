-- ===== src/Tests/Frames.antt =====
-- Runs of the receiving sides: frames of a packet of signing in, 22 bytes each.
use graduation_server.Common.{
  ℕ, ◌≤◌, ◌≡◌, ◌≢◌, refl, ap, inl, arith, some, List, [], ◌∷◌, ◌++◌, append-nil, length,
  length-append, ended, running, find,
}
use graduation_server.Common.Words.{load}
use graduation_server.Packet.{Packet}
use graduation_server.JobQueue.{JobQueue, new_queue, jobs, read_queue, write_queue}
use graduation_server.Framing.{clear}
use graduation_server.Framing.Sending.{frame}
use graduation_server.Framing.Receiving.{Receiver, arrive, unpack, on_recv}
use graduation_server.Framing.Receiving.Frames.{IsIdle, on_recv-frames}
use graduation_server.Framing.Receiving.Passes.{IsSmall, frames}
use graduation_server.Framing.Receiving.Parts.{unpack_ends}
use graduation_server.Framing.Between.{join, calls, recv_between}
use graduation_server.Framing.Between.Delivery.{recv_between-frame}
use graduation_server.Contents.Workers.{Package, Server, worker, io_read, process}
use graduation_server.Contents.Workers.Delivery.{packages, handle_all, settled, process-worker}
use graduation_server.Login.{Login, login_table}
use graduation_server.Tests.Packets.{
  sign_in, sign_in-IsField, sign_in_size, sign_in_type, frame_size,
}
use graduation_server.Tests.SessionList.{client_session, alive}
use graduation_server.Tests.Servers.{login_world}

abbrev fresh_receiver : Receiver
fresh_receiver = record {
  io = clear;
  main_buffer = λ i. 0;
  main_buffer_offset = 0;
  package_storage = [];
  wanted = (0, 10240);
}

fresh_receiver-IsIdle : IsIdle fresh_receiver
fresh_receiver-IsIdle = record { at_start = refl; none_kept = refl; asked = refl }

sign_in-IsSmall : IsSmall sign_in
sign_in-IsSmall = record {
  known = ground (arith, sign_in_type);
  in_range = sign_in-IsField;
  small = omega (arith, sign_in_size);
}

abbrev two_frames : List Packet
two_frames = sign_in ∷ (sign_in ∷ [])

-- The first three bytes of a third frame.
abbrev start_of_frame : List ℕ
start_of_frame = 22 ∷ (0 ∷ (0 ∷ []))

two_frames_size : length (frames two_frames) ≡ 44
two_frames_size = omega (
  arith,
  length-append (frame sign_in) (frames (sign_in ∷ [])),
  length-append (frame sign_in) [],
  frame_size,
)

on_recv-frames_example :
    (v : Receiver) × (on_recv
        (length (frames two_frames ++ start_of_frame))
        (arrive (frames two_frames ++ start_of_frame) fresh_receiver)
      ≡ ended v)
    × (v.package_storage ≡ two_frames)
    × (load v.main_buffer 0 v.main_buffer_offset ≡ start_of_frame)
    × (v.main_buffer_offset ≡ 3)
    × (v.io ≡ clear)
    × (v.wanted ≡ (0, 10240))
on_recv-frames_example =
    on_recv-frames fresh_receiver sign_in (sign_in ∷ []) start_of_frame fresh_receiver-IsIdle
      (sign_in-IsSmall, (sign_in-IsSmall, tt)) (inl (omega arith))
      (omega (arith, two_frames_size, length-append (frames two_frames) start_of_frame))

unpack_ends_example : unpack 1 4 fresh_receiver ≢ running
unpack_ends_example = unpack_ends 1 4 fresh_receiver (omega arith)

long_first : 4 ≤ length (frame sign_in)
long_first = omega (arith, frame_size)

recv_between-frame_example :
    (rest : List (List ℕ)) × (lost : List ℕ) × (recv_between
        (λ i. 7)
        (calls (frame sign_in ∷ (frame sign_in ∷ [])))
      ≡ ended (some sign_in, calls rest))
    × (lost ++ join rest ≡ frame sign_in)
recv_between-frame_example =
    recv_between-frame (λ i. 7) sign_in (frame sign_in) (frame sign_in ∷ []) (frame sign_in)
      (ground (arith, sign_in_type)) sign_in-IsField (omega (arith, sign_in_size)) long_first
      (ap (λ t. frame sign_in ++ t) (append-nil (frame sign_in)))

abbrev login_server_at_rest : Server Login
login_server_at_rest = record {
  package_queue = new_queue;
  receivers = (200, fresh_receiver) ∷ [];
  senders = [];
  world = login_world;
}

found_receiver : find 200 login_server_at_rest.receivers ≡ some fresh_receiver
unfolding find
found_receiver = refl

process-worker_example :
    (u : Server Login) × (q : JobQueue Package) × (worker 200
        (io_read (frames two_frames))
        login_server_at_rest
      ≡ some u)
    × (process login_table 2 u
        ≡ settled login_table q u (handle_all login_table (packages 200 two_frames) login_world))
    × (jobs q ≡ [])
unfolding jobs read_queue write_queue
process-worker_example =
    process-worker login_table 200 sign_in (sign_in ∷ []) login_server_at_rest fresh_receiver
      client_session alive.1 found_receiver fresh_receiver-IsIdle refl
      (sign_in-IsSmall, (sign_in-IsSmall, tt)) (omega (arith, two_frames_size))
