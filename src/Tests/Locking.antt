-- ===== src/Tests/Locking.antt =====
-- Runs of scopes: a lock at 10 that a thread enters twice, and a thread that was made with the lock.
use graduation_server.Common.{
  ℕ, ◌≡◌, refl, inl, inr, arith, true, false, none, some, [], ◌∷◌, find, insert, update,
}
use graduation_server.Threads.{Lock, Thread, Threads, search_from, check_dead_lock}
use graduation_server.Threads.Scopes.{
  free_mutex, Locking, came, waits, exits, lock_mutex, hold, on_check, construct, destruct,
}
use graduation_server.Threads.Scopes.Held.{Section}
use graduation_server.Threads.Scopes.Exclusion.{Reach, start, later, made, entered, Reach-exclusive}
use graduation_server.Threads.Scopes.Balance.{own_lock_kept}

abbrev plain_lock : ℕ → Lock
plain_lock last = record { lock_id = 0; thread_id = last; number_of_thread_using = 0 }

-- Thread 1 is in no pool.
abbrev plain_threads : ℕ → Threads
plain_threads last = record { thread_pool = []; locks = (10, plain_lock last) ∷ []; id_seed = 1 }

abbrev at_depth : ℕ → ℕ → Locking
at_depth last n = record {
  threads = plain_threads last;
  mutexes = (10, record { owner = last; depth = n }) ∷ [];
  shutdown = false;
}

abbrev once : Section
once = record { thread = 1; lock = 10 }

nested : Reach (plain_threads 0) (record { locking = at_depth 1 2; sections = once ∷ (once ∷ []) })
unfolding construct on_check hold lock_mutex check_dead_lock search_from find insert update
nested =
    later
      (later
        (later start (
          made 10
            {s = record {
              locking = record { threads = plain_threads 0; mutexes = []; shutdown = false };
              sections = [];
            }}
            refl))
        (entered false 5 1 10 none (some 10) {s = record { locking = at_depth 0 0; sections = [] }}
          (at_depth 1 1) refl))
      (entered false 5 1 10 none (some 10)
        {s = record { locking = at_depth 1 1; sections = once ∷ [] }} (at_depth 1 2) refl)

Reach-exclusive_example : once.thread ≡ once.thread
Reach-exclusive_example = Reach-exclusive once once nested refl (inl refl) (inr (inl refl)) refl

-- Thread 1 was made with the lock.
abbrev owner_thread : Thread
owner_thread = record { id = 1; lock = some 10 }

abbrev owned_locking : Locking
owned_locking = record {
  threads = record {
    thread_pool = (1, owner_thread) ∷ [];
    locks = (10, plain_lock 0) ∷ [];
    id_seed = 1;
  };
  mutexes = (10, free_mutex) ∷ [];
  shutdown = false;
}

own_lock_kept_example :
    (construct true 5 1 none (some 10) owned_locking ≡ exits)
    × ((v u : Locking) × (construct false 5 1 none (some 10) owned_locking ≡ came (some 10) v)
        × (destruct 1 (some 10) v ≡ some u)
        × (construct false 5 2 none (some 10) u ≡ waits))
unfolding find
own_lock_kept_example =
    own_lock_kept 4 1 2 10 0 none owner_thread (plain_lock 0) owned_locking refl refl refl refl refl
      (λ e. omega (arith, e)) refl
