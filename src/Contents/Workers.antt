-- ===== src/Contents/Workers.antt =====
-- StaticLib1/IOCPServer.cpp:161-212, the threads that take what the sockets completed, and
-- StaticLib1/ContentsProcess.cpp:63-108, the threads that run the handlers. One completion is one step, and so
-- is one package with its handler. `run` holds no lock while the handler works, so this is how a single
-- thread of handlers behaves; what several of them do at once is not modelled.
pub mod Delivery
use graduation_server.Common.{
  ℕ, zero, suc, ◌+◌, Option, none, some, List, [], ◌∷◌, ◌++◌, find, update, ◌==◌, if◌then◌else◌,
  length, Loop, ended, aborted, running,
}
use graduation_server.Sessions.{close_session}
use graduation_server.World.{World}
use graduation_server.Packet.{Packet}
use graduation_server.JobQueue.{JobQueue, push, pop}
use graduation_server.Framing.{IoData, on_send}
use graduation_server.Framing.Receiving.{Receiver, arrive, on_recv}
use graduation_server.Contents.{RunFunc, run}

-- `session_`, by its pointer, and `packet_`.
pub record Package : Type 0 where
  pub session : ℕ
  pub packet : Packet

-- `packageQueue_`, the receiving and the sending halves of the sessions by their pointers, and the rest.
pub record Server (S : Type 0) : Type 0 where
  pub package_queue : JobQueue Package
  pub receivers : List (ℕ × Receiver)
  pub senders : List (ℕ × IoData)
  pub world : World S

-- What `GetQueuedCompletionStatus` tells of a session: bytes that came, a number of bytes that went, or
-- an error. No byte means that the other side has closed.
pub data Completion : Type 0 where
  io_read : List ℕ → Completion
  io_write : ℕ → Completion
  io_error : ℕ → Completion

-- `putPackage` of each package that `PopPackage` gives until `IsEmpty`.
unfoldable pub put_packages : ℕ → List Packet → JobQueue Package → JobQueue Package
put_packages p [] q = q
put_packages p (packet ∷ more) q =
    put_packages p more (push (record { session = p; packet = packet }) q)

module _ {S : Type 0} where
  unfoldable pub read_in : ℕ → Receiver → Server S → Server S
  unfolding put_packages
  read_in p r s = record s {
    package_queue = put_packages p r.package_storage s.package_queue;
    receivers = update p (record r { package_storage = [] }) s.receivers;
  }

  -- `SESSIONMANAGER.closeSession(session)`; two levels of its re-entry are enough.
  unfoldable pub close : ℕ → Server S → Option (Server S)
  close p s = elim (close_session 2 p s.world.sessions) [
    | none ↦ none
    | some (_, m) ↦ some (record s { world = record s.world { sessions = m } })
  ]

  unfoldable pub received : ℕ → Loop Receiver → Server S → Option (Server S)
  unfolding read_in
  received p (ended r) s = some (read_in p r s)
  received p aborted s = none
  received p running s = none

  unfoldable pub work_read : ℕ → List ℕ → Server S → Option (Server S)
  unfolding received close
  work_read p [] s = close p s
  work_read p (b ∷ bs) s = elim (find p s.receivers) [
    | none ↦ none
    | some r ↦ received p (on_recv (length (b ∷ bs)) (arrive (b ∷ bs) r)) s
  ]

  unfoldable pub work_write : ℕ → ℕ → Server S → Option (Server S)
  unfolding close
  work_write p zero s = close p s
  work_write p (suc n) s = elim (find p s.senders) [
    | none ↦ none
    | some d ↦ some (record s { senders = update p ((on_send (suc n) d).1) s.senders })
  ]

  unfoldable pub work : ℕ → Completion → Server S → Option (Server S)
  unfolding work_read work_write
  work p (io_read bytes) s = work_read p bytes s
  work p (io_write n) s = work_write p n s
  work p (io_error n) s = close p s

  -- One pass of `workerThread`, whose every branch uses the session: a completion for a session that was
  -- freed is undefined.
  unfoldable pub worker : ℕ → Completion → Server S → Option (Server S)
  unfolding work
  worker p completion s = elim (find p s.world.sessions.heap) [
    | none ↦ none
    | some _ ↦ work p completion s
  ]

  unfoldable pub run_package : List (ℕ × RunFunc S) → Package → World S → Option (World S)
  run_package table job w = elim (run table job.session job.packet w) [
    | none ↦ none
    | some (_, v) ↦ some v
  ]

  -- `execute`
  unfoldable pub execute : List (ℕ × RunFunc S) → Server S → Option (Server S)
  unfolding run_package
  execute table s = elim (pop s.package_queue) [
    | none ↦ none
    | some (none, q) ↦ some (record s { package_queue = q })
    | some (some job, q) ↦ elim (run_package table job s.world) [
      | none ↦ none
      | some v ↦ some (record s { package_queue = q; world = v })
    ]
  ]

  -- So many passes of `process`, in one thread.
  unfoldable pub process : List (ℕ × RunFunc S) → ℕ → Server S → Option (Server S)
  unfolding execute
  process table zero s = some s
  process table (suc n) s = elim (execute table s) [ none ↦ none | some v ↦ process table n v ]
