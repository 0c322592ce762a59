-- ===== src/Tests/Running.antt =====
-- Runs of threads, locks, tasks and terminals: thread 1 waits for a lock of thread 2 and the other way round.
use graduation_server.Common.{
  ℕ, ◌≡◌, ◌↔◌, refl, arith, false, none, some, List, [], ◌∷◌, find, insert, update, erase, ◌==◌,
}
use graduation_server.Threads.{
  Lock, Thread, Threads, tells, out_of_memory, new_lock, new_thread_with, delete_thread, drop_lock,
  check_dead_lock,
}
use graduation_server.Threads.Reachable.{
  Reach, start, later, lock_made, thread_made_with, thread_deleted, no_threads, Reach-IsCounted,
}
use graduation_server.Threads.Users.{IsCounted}
use graduation_server.Threads.Cycles.{Leads, IsRing, check_dead_lock_iff, check_dead_lock_fills}
use graduation_server.Connecting.{Connection, connecting}
use graduation_server.Tasks.{TaskNode, new_node, process_round}
use graduation_server.Tasks.Rounds.{survivors, due, process_round-survivors}

abbrev thread_1 : Thread
thread_1 = record { id = 1; lock = some 10 }

abbrev thread_2 : Thread
thread_2 = record { id = 2; lock = some 20 }

-- The lock at 10 was last held by thread 2, that at 20 by thread 1.
abbrev waiting : Threads
waiting = record {
  thread_pool = (1, thread_1) ∷ ((2, thread_2) ∷ []);
  locks =
      (10, record { lock_id = 0; thread_id = 2; number_of_thread_using = 1 })
      ∷ ((20, record { lock_id = 1; thread_id = 1; number_of_thread_using = 1 }) ∷ []);
  id_seed = 2;
}

found_1 : find 1 waiting.thread_pool ≡ some thread_1
unfolding find
found_1 = refl

found_2 : find 2 waiting.thread_pool ≡ some thread_2
unfolding find
found_2 = refl

check_dead_lock_iff_example :
    ((room : ℕ) × (check_dead_lock room 1 1 waiting ≡ tells (some 20)))
    ↔ Leads 1 waiting thread_1 20
check_dead_lock_iff_example = check_dead_lock_iff 1 1 20 thread_1 waiting found_1

data OneOfBoth : Thread → Type 0 where
  first : OneOfBoth thread_1
  second : OneOfBoth thread_2

both-IsRing : IsRing 7 waiting OneOfBoth
unfolding find
both-IsRing = record { goes_on = λ t m. around m }
  where
    around :
        {t : Thread}
        → OneOfBoth t
        → (q : ℕ) × (l : Lock) × (u : Thread) × (t.lock ≡ some q)
          × (find q waiting.locks ≡ some l)
          × ((l.lock_id == 7) ≡ false)
          × (find l.thread_id waiting.thread_pool ≡ some u)
          × OneOfBoth u
    around first = (
      10,
      record { lock_id = 0; thread_id = 2; number_of_thread_using = 1 },
      thread_2,
      refl,
      refl,
      refl,
      refl,
      second,
    )
    around second = (
      20,
      record { lock_id = 1; thread_id = 1; number_of_thread_using = 1 },
      thread_1,
      refl,
      refl,
      refl,
      refl,
      first,
    )

check_dead_lock_fills_example : check_dead_lock 1000 1 7 waiting ≡ out_of_memory
check_dead_lock_fills_example =
    check_dead_lock_fills 1 7 1000 waiting thread_1 OneOfBoth found_1 both-IsRing first

-- A lock, two threads with it, and the first of them deleted.
one_lock : Threads
one_lock = new_lock 10 0 no_threads

abbrev after_deletion : Threads
after_deletion = record {
  thread_pool = (2, record { id = 2; lock = some 10 }) ∷ [];
  locks = (10, record { lock_id = 0; thread_id = 0; number_of_thread_using = 1 }) ∷ [];
  id_seed = 1;
}

abbrev after_one : Threads
after_one = record {
  thread_pool = (1, thread_1) ∷ [];
  locks = (10, record { lock_id = 0; thread_id = 0; number_of_thread_using = 1 }) ∷ [];
  id_seed = 1;
}

abbrev after_two : Threads
after_two = record {
  thread_pool = (1, thread_1) ∷ ((2, record { id = 2; lock = some 10 }) ∷ []);
  locks = (10, record { lock_id = 0; thread_id = 0; number_of_thread_using = 2 }) ∷ [];
  id_seed = 1;
}

deletion_reached : Reach after_deletion
unfolding one_lock new_lock new_thread_with delete_thread drop_lock find insert update erase
deletion_reached =
    later
      (later
        (later (later start (lock_made 10 0 {s = no_threads} refl))
          (thread_made_with 1 10 {s = one_lock} {v = after_one} refl refl))
        (thread_made_with 2 10 {s = after_one} {v = after_two} refl refl))
      (thread_deleted thread_1 {s = after_two} {v = after_deletion} refl refl)

Reach-IsCounted_example : IsCounted after_deletion
Reach-IsCounted_example = Reach-IsCounted deletion_reached

-- One node that is due, and one whose work is gone.
abbrev two_nodes : List (ℕ × TaskNode)
two_nodes =
    (30, new_node 100 (some 5) 1 0)
    ∷ ((31, record { work_object = none; freq_sec = 1; duration_sec = 0; next_tick = 0 }) ∷ [])

process_round-survivors_example :
    process_round 102 two_nodes ≡ (survivors 102 two_nodes, due 102 two_nodes)
process_round-survivors_example =
    process_round-survivors 102 two_nodes (((λ e. omega (arith, e)), tt), (tt, tt))

abbrev new_connection : Connection
new_connection = record {
  phase = connecting 0;
  ready = false;
  shutdown = false;
  notified = 0;
  handed = [];
}
