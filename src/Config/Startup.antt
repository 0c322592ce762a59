-- ===== src/Config/Startup.antt =====
-- StaticLib1/Server.cpp, IOCPServer.cpp:16-74 and ContentsProcess.cpp:14-44: how a server starts from its
-- configuration. What the socket calls answer comes from outside. The thread objects are named by the
-- index in their array.
use graduation_server.Common.{
  ℕ, zero, suc, ◌+◌, ◌^◌, ◌≤◌, ◌≡◌, refl, inl, inr, Bool, Bool-cases, true, false, Option, none,
  some, List, [], ◌∷◌, arith, ltb, if◌then◌else◌,
}
use graduation_server.Config.{
  Start, ok, exits, broken, ◌>>=◌, Xml, Tag, server, name, contents, part, int_of, ip_of, not_null,
}
use graduation_server.Config.Terminals.{TerminalManager}
use graduation_server.Config.Terminals

-- SIZE_64, the room of both arrays of threads.
abbrev pub max_thread : ℕ
max_thread = 64

pub data ServerStatus : Type 0 where
  server_stop server_initialize server_ready : ServerStatus

pub record ServerObject : Type 0 where
  pub ip : List ℕ
  pub port : ℕ
  pub worker_thread_count : ℕ
  pub status : ServerStatus

-- What CreateIoCompletionPort, WSASocket, bind and listen answer.
pub record Answers : Type 0 where
  pub iocp : Bool
  pub socket : Bool
  pub bound : Bool
  pub listening : Bool

-- `MAX < count` on `int`s.
abbrev pub exceeds : ℕ → Bool
exceeds count = if ltb count (2 ^ 31) then ltb max_thread count else false

-- The number of rounds of `for (int i = 0; i < count; ++i)`.
abbrev pub rounds : ℕ → ℕ
rounds count = if ltb count (2 ^ 31) then count else 0

-- That loop from `i` on; an index beyond the array is undefined.
unfoldable pub make_threads : ℕ → ℕ → Start (List ℕ)
make_threads zero i = ok []
make_threads (suc n) i =
    let rest = make_threads n (i + 1) in
    if ltb i max_thread then rest >>= (λ more. ok (i ∷ more)) else broken

-- `createListenSocket`, each failure of which ends the process.
unfoldable pub create_listen_socket : Answers → Start (Unit {0})
create_listen_socket a =
    if a.socket then if a.bound then if a.listening then ok tt else exits else exits else exits

-- `IOCPServer::run` up to its loop over the console: false, or the server with its worker threads.
unfoldable pub run : Answers → ServerObject → Start (Option (ServerObject × List ℕ))
unfolding make_threads create_listen_socket
run a s =
    if exceeds s.worker_thread_count
    then exits
    else if a.iocp
    then (do
      _ ← create_listen_socket a
      threads ← make_threads (rounds s.worker_thread_count) 0
      ok (some (record s { status = server_ready }, threads)))
    else ok none

module _ {N : Type 0} (xml : Xml N) where
  -- `Server::initialize`, with the terminals first. The name of the program is only logged, but its element
  -- must be there.
  unfoldable pub initialize :
      ℕ → List ℕ → N → TerminalManager → ServerObject → Start (TerminalManager × ServerObject)
  initialize leftover buffer config m s = do
    after ← Terminals.initialize xml leftover buffer config m
    root ← part xml server config
    elim root [
      | none ↦ ok (after, s)
      | some node ↦ do
        addr ← ip_of xml node
        number ← int_of xml Tag.port s.port node
        count ← int_of xml Tag.thread_count s.worker_thread_count node
        title ← part xml name config
        _ ← not_null title
        ok (
          after,
          record {
            ip = addr;
            port = number;
            worker_thread_count = count;
            status = server_initialize;
          },
        )
    ]

  -- `ContentsProcess::initialize` up to the handlers; `processCount` starts at 0.
  unfoldable pub start_contents : N → Start (List ℕ)
  unfolding make_threads
  start_contents config = do
    root ← part xml contents config
    elim root [
      | none ↦ exits
      | some node ↦ do
        count ← int_of xml Tag.thread_count 0 node
        if exceeds count then exits else make_threads (rounds count) 0
    ]

-- The indices from `i` on.
abbrev pub indices : ℕ → ℕ → List ℕ
indices zero i = []
indices (suc n) i = i ∷ indices n (i + 1)

make_threads_lem : (n i : ℕ) → n + i ≤ max_thread → make_threads n i ≡ ok (indices n i)
unfolding make_threads
make_threads_lem zero i h = refl
make_threads_lem (suc n) i h =
    let room : ltb i max_thread ≡ true = ground arith in
    rw (room, make_threads_lem n (i + 1) (omega arith)) refl

-- What a number of threads comes to.
abbrev pub bounded : ℕ → Start (List ℕ)
bounded count = if exceeds count then exits else ok (indices (rounds count) 0)

within : (count : ℕ) → exceeds count ≡ false → rounds count ≤ max_thread
within count e = ground arith

-- The threads of the handlers stay within their array whatever number the configuration asks for: more than
-- the array has room for end the process, a negative number gives none, and any other number just as
-- many. The configuration has the part for the handlers, with a number.
pub start_contents-bounded :
    {N : Type 0} (xml : Xml N) (config node : N) (count : ℕ)
    → part xml contents config ≡ ok (some node)
    → int_of xml Tag.thread_count 0 node ≡ ok count
    → start_contents xml config ≡ bounded count
unfolding start_contents
start_contents-bounded xml config node count there counted = elim (Bool-cases (exceeds count)) [
  | inl over ↦ rw (start_contents, there, counted, over) refl
  | inr fits ↦
      rw (start_contents, there, counted, fits)
        (make_threads_lem (rounds count) 0 (omega (arith, within count fits)))
]

-- The same for the threads of the completion port, where the socket calls succeed.
pub run-bounded :
    (a : Answers) (s : ServerObject)
    → a.iocp ≡ true
    → a.socket ≡ true
    → a.bound ≡ true
    → a.listening ≡ true
    → run a s ≡ (
        bounded s.worker_thread_count >>= λ threads.
        ok (some (record s { status = server_ready }, threads)))
unfolding run create_listen_socket
run-bounded a s port socket bound listening = elim (Bool-cases (exceeds s.worker_thread_count)) [
  | inl over ↦ simp over
  | inr fits ↦
      let made =
        make_threads_lem (rounds s.worker_thread_count) 0
          (omega (arith, within s.worker_thread_count fits)) in
      simp (fits, port, socket, bound, listening, made)
]
