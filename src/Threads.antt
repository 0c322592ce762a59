-- ===== src/Threads.antt =====
-- StaticLib1/Thread.cpp and Lock.cpp: threads and the locks that they were made with. Pointers to locks are
-- numbers into a heap; what the operating system does with mutexes and threads is outside.
pub mod Users
pub mod Counting
pub mod Reachable
pub mod Cycles
pub mod Scopes
use graduation_server.Common.{
  ℕ, zero, suc, ◌+◌, ◌-◌, ◌%◌, ◌^◌, Bool, true, false, Option, none, some, List, [], ◌∷◌, ltb, ◌==◌,
  if◌then◌else◌, find, insert, erase, update,
}

-- `lockId_`, `threadId_` and `numberOfThreadUsing_`.
pub record Lock : Type 0 where
  pub lock_id : ℕ
  pub thread_id : ℕ
  pub number_of_thread_using : ℕ

pub record Thread : Type 0 where
  pub id : ℕ
  pub lock : Option ℕ

-- `threadPool_`, the locks by their pointers, and `idSeed_`.
pub record Threads : Type 0 where
  pub thread_pool : List (ℕ × Thread)
  pub locks : List (ℕ × Lock)
  pub id_seed : ℕ

-- `new Lock(name)` at a new place, with `generalId`.
unfoldable pub new_lock : ℕ → ℕ → Threads → Threads
new_lock p leftover s = record s {
  locks =
      insert p (record { lock_id = s.id_seed; thread_id = leftover; number_of_thread_using = 0 })
        s.locks;
  id_seed = (s.id_seed + 1) % 2 ^ 64;
}

-- `increaseCountNumberOfThreadUsing` and `decreaseCountNumberOfThreadUsing`
abbrev pub increase : Lock → Lock
increase l = record l { number_of_thread_using = l.number_of_thread_using + 1 }

abbrev pub decrease : Lock → Lock
decrease l = record l { number_of_thread_using = l.number_of_thread_using - 1 }

-- `ThreadManager::put`
abbrev pub put : Thread → Threads → Threads
put t s = record s { thread_pool = insert t.id t s.thread_pool }

-- `ThreadManager::at`
abbrev pub at : ℕ → Threads → Option Thread
at id s = find id s.thread_pool

-- `ThreadManager::remove`
abbrev pub remove : ℕ → Threads → Threads
remove id s = record s { thread_pool = erase id s.thread_pool }

-- `Thread::Thread` without a lock.
unfoldable pub new_thread : ℕ → Threads → Threads
new_thread id s = put (record { id = id; lock = none }) s

-- `Thread::Thread` with a lock, which `setLock` uses through its pointer.
unfoldable pub new_thread_with : ℕ → ℕ → Threads → Option Threads
new_thread_with id p s = elim (find p s.locks) [
  | none ↦ none
  | some l ↦
      some (
        put (record { id = id; lock = some p })
          (record s { locks = update p (increase l) s.locks }))
]

-- The end of the destructor: the last thread that uses the lock deletes it.
unfoldable pub drop_lock : Option ℕ → Threads → Option Threads
drop_lock none s = some s
drop_lock (some p) s = elim (find p s.locks) [
  | none ↦ none
  | some l ↦ some (
      if ltb 1 l.number_of_thread_using
      then record s { locks = update p (decrease l) s.locks }
      else record s { locks = erase p s.locks })
]

-- `Thread::~Thread`
unfoldable pub delete_thread : Thread → Threads → Option Threads
unfolding drop_lock
delete_thread t s = drop_lock t.lock (remove t.id s)

-- What `searchLockCycle` comes to: the lock or the null pointer; a lock that was deleted is used; or
-- push_back throws, since there is no memory for one more element of `trace`.
pub data Search : Type 0 where
  tells : Option ℕ → Search
  strays out_of_memory : Search

-- One pass of the loop for a thread, up to `trace.push_back(threadLock)`.
abbrev pub look : ℕ → Thread → Threads → (Lock → Search) → Search
look goal t s push = elim t.lock [
  | none ↦ tells none
  | some p ↦ elim (find p s.locks) [
    | none ↦ strays
    | some l ↦ let pushed = push l in if l.lock_id == goal then tells (some p) else pushed
  ]
]

-- The loop. Of `trace` only the first element is read, whose id is `goal`; each pass adds one more, and `room`
-- is how many more there is memory for.
unfoldable pub search_from : ℕ → ℕ → Thread → Threads → Search
search_from zero goal t s = look goal t s (λ l. out_of_memory)
search_from (suc room) goal t s =
    look goal t s
      (λ l. elim (at l.thread_id s) [ none ↦ tells none | some u ↦ search_from room goal u s ])

-- `searchLockCycle`, whose first push_back is that of the new lock, and `checkDeadLock`; `me` is the id of
-- the thread that asks.
unfoldable pub check_dead_lock : ℕ → ℕ → ℕ → Threads → Search
unfolding search_from
check_dead_lock zero me goal s = elim (at me s) [ none ↦ tells none | some t ↦ out_of_memory ]
check_dead_lock (suc room) me goal s = elim (at me s) [
  | none ↦ tells none
  | some t ↦ search_from room goal t s
]
