-- ===== src/Threads/Scopes/Balance.antt =====
-- What scopes leave behind: StaticLib1/Lock.cpp:90-131.
use graduation_server.Common.{
  ℕ, zero, suc, ◌+◌, ◌≡◌, ◌≢◌, ◌⊎◌, inl, inr, refl, ◌∙◌, Bool, true, false, Option, none, some,
  arith, ◌==◌, find, update, find-update_self,
}
use graduation_server.Threads.Cycles.{finds}
use graduation_server.Threads.{Lock, Thread, Threads, Search, tells, search_from, check_dead_lock}
use graduation_server.Threads.Scopes.{
  waits, exits, Mutex, lock_mutex, unlock_mutex, Locking, came, set_thread_id, hold, hold_both,
  on_check, construct, destruct,
}

same_id : (a : ℕ) → (a == a) ≡ true
same_id a = ground arith

-- A thread that was made with the lock is told that its own lock is a dead lock.
own_lock :
    (room me p : ℕ) (t : Thread) (l : Lock) (s : Threads)
    → find me s.thread_pool ≡ some t
    → t.lock ≡ some p
    → find p s.locks ≡ some l
    → check_dead_lock (suc room) me l.lock_id s ≡ tells (some p)
unfolding check_dead_lock search_from
own_lock room me p t l s mine has there =
    rw (check_dead_lock, mine) (finds room l.lock_id p l t s has there (same_id l.lock_id))

-- A thread outside the pool is told nothing.
no_thread :
    (room me goal : ℕ) (s : Threads)
    → find me s.thread_pool ≡ none
    → check_dead_lock room me goal s ≡ tells none
unfolding check_dead_lock
no_thread zero me goal s absent = rw (check_dead_lock, absent) refl
no_thread (suc room) me goal s absent = rw (check_dead_lock, absent) refl

abbrev locked : ℕ → ℕ → Mutex
locked me n = record { owner = me; depth = n }

lock_free : (me o : ℕ) → lock_mutex me (locked o 0) ≡ some (locked me 1)
unfolding lock_mutex
lock_free me o = refl

lock_again : (me : ℕ) → lock_mutex me (locked me 1) ≡ some (locked me 2)
unfolding lock_mutex
lock_again me = ground arith

unlock_twice : (me : ℕ) → unlock_mutex me (locked me 2) ≡ some (locked me 1)
unfolding unlock_mutex
unlock_twice me = ground arith

lock_others : (me other : ℕ) → other ≢ me → lock_mutex other (locked me 1) ≡ none
unfolding lock_mutex
lock_others me other away = ground arith

module _ (p me : ℕ) (s : Locking) (up : s.shutdown ≡ false) where
  construct_checked :
      (stern : Bool) (room : ℕ) (leftover : Option ℕ) (l : Lock) {answer : Search}
      → find p s.threads.locks ≡ some l
      → check_dead_lock room me l.lock_id s.threads ≡ answer
      → construct stern room me leftover (some p) s ≡ on_check stern me p answer s
  unfolding construct
  construct_checked stern room leftover l there told = simp (up, there, told)

  destruct_held :
      (m left : Mutex)
      → find p s.mutexes ≡ some m
      → unlock_mutex me m ≡ some left
      → destruct me (some p) s ≡ some (record s { mutexes = update p left s.mutexes })
  unfolding destruct
  destruct_held m left f e = simp (up, f, e)

hold_waits :
    (p other : ℕ) (m : Mutex) (s : Locking)
    → find p s.mutexes ≡ some m
    → lock_mutex other m ≡ none
    → hold other p s ≡ waits
unfolding hold
hold_waits p other m s f e = rw (hold, f, e) refl

hold_taken :
    (p me : ℕ) (m taken : Mutex) (s : Locking)
    → find p s.mutexes ≡ some m
    → lock_mutex me m ≡ some taken
    → hold me p s
      ≡ came
          (some p)
          (record s { threads = set_thread_id p me s.threads; mutexes = update p taken s.mutexes })
unfolding hold
hold_taken p me m taken s f e = rw (hold, f, e) refl

abbrev twice : ℕ → ℕ → Locking → Locking
twice p me s = record s { mutexes = update p (locked me 2) (update p (locked me 1) s.mutexes) }

hold_both_same :
    (p me o : ℕ) (s : Locking)
    → find p s.mutexes ≡ some (locked o 0)
    → hold_both me p p s ≡ came (some p) (twice p me s)
unfolding hold_both
hold_both_same p me o s f =
    let now = find-update_self p (locked me 1) (locked o 0) s.mutexes f in
    rw (hold_both, f, lock_free me o, now, lock_again me) refl

abbrev after_twice : ℕ → ℕ → Locking → Locking
after_twice p me s = record s {
  mutexes = update p (locked me 1) (update p (locked me 2) (update p (locked me 1) s.mutexes));
}

-- A thread that was made with a lock and opens a scope on that lock while it is free is told of a dead lock.
-- A stern build then ends the process. Any other build locks the mutex twice and gives it back once, so
-- that after the scope every thread outside the pool that opens one on the lock waits.
pub own_lock_kept :
    (room me other p o : ℕ) (leftover : Option ℕ) (t : Thread) (l : Lock) (s : Locking)
    → find me s.threads.thread_pool ≡ some t
    → t.lock ≡ some p
    → find p s.threads.locks ≡ some l
    → find p s.mutexes ≡ some (locked o 0)
    → s.shutdown ≡ false
    → other ≢ me
    → find other s.threads.thread_pool ≡ none
    → (construct true (suc room) me leftover (some p) s ≡ exits)
      × ((v u : Locking) × (construct false (suc room) me leftover (some p) s ≡ came (some p) v)
          × (destruct me (some p) v ≡ some u)
          × (construct false (suc room) other leftover (some p) u ≡ waits))
unfolding on_check
own_lock_kept room me other p o leftover t l s mine has there free up away absent =
    let told = own_lock room me p t l s.threads mine has there in
    let once = find-update_self p (locked me 1) (locked o 0) s.mutexes free in
    let again =
      find-update_self p (locked me 2) (locked me 1) (update p (locked me 1) s.mutexes) once in
    let kept =
      find-update_self p (locked me 1) (locked me 2)
        (update p (locked me 2) (update p (locked me 1) s.mutexes)) again in
    (
      construct_checked p me s up true (suc room) leftover l there told,
      (
        twice p me s,
        after_twice p me s,
        construct_checked p me s up false (suc room) leftover l there told
            ∙ hold_both_same p me o s free,
        destruct_held p me (twice p me s) up (locked me 2) (locked me 1) again (unlock_twice me),
        construct_checked p other (after_twice p me s) up false (suc room) leftover l there
              (no_thread (suc room) other l.lock_id s.threads absent)
            ∙ hold_waits p other (locked me 1) (after_twice p me s) kept
                (lock_others me other away),
      ),
    )

lock_mine :
    (me : ℕ) (m : Mutex)
    → (m.depth ≡ 0) ⊎ (m.owner ≡ me)
    → (lock_mutex me m ≡ some (locked me (m.depth + 1)))
      × (unlock_mutex me (locked me (m.depth + 1)) ≡ some (locked me m.depth))
unfolding lock_mutex unlock_mutex
lock_mine me m (inl idle) = (ground arith, ground arith)
lock_mine me m (inr mine) = (ground arith, ground arith)

-- Where the check finds nothing and the mutex is free or the thread's own, a scope comes through, holds the
-- mutex once more in between, and its end leaves the mutex as often locked as before.
pub scope_balanced :
    (stern : Bool) (room me p : ℕ) (leftover : Option ℕ) (l : Lock) (m : Mutex) (s : Locking)
    → s.shutdown ≡ false
    → find p s.threads.locks ≡ some l
    → check_dead_lock room me l.lock_id s.threads ≡ tells none
    → find p s.mutexes ≡ some m
    → (m.depth ≡ 0) ⊎ (m.owner ≡ me)
    → (v u : Locking) × (construct stern room me leftover (some p) s ≡ came (some p) v)
      × (find p v.mutexes ≡ some (locked me (m.depth + 1)))
      × (destruct me (some p) v ≡ some u)
      × (find p u.mutexes ≡ some (locked me m.depth))
unfolding on_check
scope_balanced stern room me p leftover l m s up there told f which =
    let (taken, given) = lock_mine me m which in
    let v : Locking = record s {
      threads = set_thread_id p me s.threads;
      mutexes = update p (locked me (m.depth + 1)) s.mutexes;
    } in
    let once = find-update_self p (locked me (m.depth + 1)) m s.mutexes f in
    (
      v,
      record v { mutexes = update p (locked me m.depth) v.mutexes },
      construct_checked p me s up stern room leftover l there told
          ∙ hold_taken p me m (locked me (m.depth + 1)) s f taken,
      once,
      destruct_held p me v up (locked me (m.depth + 1)) (locked me m.depth) once given,
      find-update_self p (locked me m.depth) (locked me (m.depth + 1)) v.mutexes once,
    )
