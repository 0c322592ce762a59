-- ===== src/Threads/Scopes.antt =====
-- StaticLib1/Lock.cpp:45-59 and 90-131: the scopes that SAFE_LOCK opens, with their recursive mutexes. A
-- mutex is that of the lock with the same pointer. `lockingFile_` and `lockingLine_`, which nothing
-- reads, are left out.
pub mod Held
pub mod Came
pub mod Exclusion
pub mod Balance
use graduation_server.Common.{
  ℕ, ◌+◌, ◌-◌, Bool, true, false, Option, none, some, List, [], ◌∷◌, ◌==◌, if◌then◌else◌, find,
  update,
}
use graduation_server.Threads.{Lock, Threads, Search, tells, strays, out_of_memory, check_dead_lock}

-- A `std::recursive_mutex`: how often it is locked, and by which thread.
pub record Mutex : Type 0 where
  pub owner : ℕ
  pub depth : ℕ

abbrev pub free_mutex : Mutex
free_mutex = record { owner = 0; depth = 0 }

-- `lock()`; `none` while the thread has to wait.
unfoldable pub lock_mutex : ℕ → Mutex → Option Mutex
lock_mutex me m =
    if m.depth == 0
    then some (record { owner = me; depth = 1 })
    else if m.owner == me
    then some (record { owner = me; depth = m.depth + 1 })
    else none

-- `unlock()`; `none` is undefined, since the thread does not hold the mutex.
unfoldable pub unlock_mutex : ℕ → Mutex → Option Mutex
unlock_mutex me m =
    if m.depth == 0
    then none
    else if m.owner == me
    then some (record { owner = m.owner; depth = m.depth - 1 })
    else none

-- The threads with their locks, the mutexes by the pointers of their locks, and `_shutdown`.
pub record Locking : Type 0 where
  pub threads : Threads
  pub mutexes : List (ℕ × Mutex)
  pub shutdown : Bool

-- What a constructor comes to: `lock_` of the scope and the new state; the thread waits; the process ends;
-- the search for a dead lock throws; or what it does is undefined.
pub data Entry : Type 0 where
  came : Option ℕ → Locking → Entry
  waits exits throws undefined : Entry

-- `setThreadId`
abbrev pub set_thread_id : ℕ → ℕ → Threads → Threads
set_thread_id p me s = elim (find p s.locks) [
  | none ↦ s
  | some l ↦ record s { locks = update p (record l { thread_id = me }) s.locks }
]

-- `lock_->lock(...)` and `lock->setThreadId(...)`.
unfoldable pub hold : ℕ → ℕ → Locking → Entry
hold me p s = elim (find p s.mutexes) [
  | none ↦ undefined
  | some m ↦ elim (lock_mutex me m) [
    | none ↦ waits
    | some taken ↦
        came (some p)
          (record s { threads = set_thread_id p me s.threads; mutexes = update p taken s.mutexes })
  ]
]

-- `std::lock` of both mutexes, which are one if the lock found is the lock asked for.
unfoldable pub hold_both : ℕ → ℕ → ℕ → Locking → Entry
hold_both me p d s = elim (find p s.mutexes) [
  | none ↦ undefined
  | some m ↦ elim (lock_mutex me m) [
    | none ↦ waits
    | some taken ↦
        let mutexes' = update p taken s.mutexes in
        elim (find d mutexes') [
          | none ↦ undefined
          | some n ↦ elim (lock_mutex me n) [
            | none ↦ waits
            | some both ↦ came (some p) (record s { mutexes = update d both mutexes' })
          ]
        ]
  ]
]

-- What the constructor does with the answer of the check. `stern` is the build with STERN_MODE, whose
-- report ends the process.
unfoldable pub on_check : Bool → ℕ → ℕ → Search → Locking → Entry
unfolding hold hold_both
on_check stern me p out_of_memory s = throws
on_check stern me p strays s = undefined
on_check stern me p (tells none) s = hold me p s
on_check stern me p (tells (some d)) s = if stern then exits else hold_both me p d s

-- `LockSafeScope::LockSafeScope` in the thread `me`; `leftover` is what an unassigned `lock_` holds.
unfoldable pub construct : Bool → ℕ → ℕ → Option ℕ → Option ℕ → Locking → Entry
unfolding on_check
construct stern room me leftover none s = came leftover s
construct stern room me leftover (some p) s =
    if s.shutdown then came leftover s else elim (find p s.threads.locks) [
      | none ↦ undefined
      | some l ↦ on_check stern me p (check_dead_lock room me l.lock_id s.threads) s
    ]

-- `LockSafeScope::~LockSafeScope`; `none` is undefined.
unfoldable pub destruct : ℕ → Option ℕ → Locking → Option Locking
destruct me none s = some s
destruct me (some p) s = if s.shutdown then some s else elim (find p s.mutexes) [
  | none ↦ none
  | some m ↦ elim (unlock_mutex me m) [
    | none ↦ none
    | some left ↦ some (record s { mutexes = update p left s.mutexes })
  ]
]
