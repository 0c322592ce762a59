-- ===== src/Threads/Reachable.antt =====
-- The states of threads and locks that programs reach: StaticLib1/Thread.cpp:5-76.
use graduation_server.Common.{ℕ, ◌≡◌, refl, sym, ◌∙◌, none, some, [], find}
use graduation_server.Threads.{
  Thread, Threads, new_lock, new_thread, new_thread_with, delete_thread,
}
use graduation_server.Threads.Users.{counted, IsCounted}
use graduation_server.Threads.Counting.{
  new_lock-IsCounted, new_thread-IsCounted, new_thread_with-IsCounted, delete_thread-IsCounted,
}

-- What programs do with threads and locks: a lock is made at a new place, a thread with a new id is made
-- without a lock or with one that is there, and a thread of the pool is deleted.
pub data Step : Threads → Threads → Type 0 where
  lock_made :
      (p leftover : ℕ) {s : Threads} → find p s.locks ≡ none → Step s (new_lock p leftover s)
  thread_made : (id : ℕ) {s : Threads} → find id s.thread_pool ≡ none → Step s (new_thread id s)
  thread_made_with :
      (id p : ℕ) {s v : Threads}
      → find id s.thread_pool ≡ none
      → new_thread_with id p s ≡ some v
      → Step s v
  thread_deleted :
      (t : Thread) {s v : Threads}
      → find t.id s.thread_pool ≡ some t
      → delete_thread t s ≡ some v
      → Step s v

abbrev pub no_threads : Threads
no_threads = record { thread_pool = []; locks = []; id_seed = 0 }

pub data Reach : Threads → Type 0 where
  start : Reach no_threads
  later : {s v : Threads} → Reach s → Step s v → Reach v

Step-IsCounted : {s v : Threads} → Step s v → IsCounted s → IsCounted v
Step-IsCounted {s = s} (lock_made p leftover fresh) c = new_lock-IsCounted p leftover s fresh c
Step-IsCounted {s = s} (thread_made id fresh) c = new_thread-IsCounted id s fresh c
Step-IsCounted {s = s} {v = v} (thread_made_with id p fresh ran) c =
    new_thread_with-IsCounted id p s v fresh c ran
Step-IsCounted {s = s} {v = v} (thread_deleted t there ran) c =
    let (u, ran_too, counted) = delete_thread-IsCounted t s there c in
    rw (inner (sym ran_too ∙ ran)) at counted
  where
    inner : {u w : Threads} → some u ≡ some w → u ≡ w
    inner f = cc

-- In every state that is reached from no threads and no locks, no id is twice in the pool and each lock
-- counts the threads that use it, so that no thread in the pool has a lock that was deleted.
pub Reach-IsCounted : {s : Threads} → Reach s → IsCounted s
unfolding find
Reach-IsCounted start = record { distinct = tt; counts = λ p. refl }
Reach-IsCounted (later r step) = Step-IsCounted step (Reach-IsCounted r)
