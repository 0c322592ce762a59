-- ===== src/Threads/Cycles.antt =====
-- The search for a cycle of locks: StaticLib1/Lock.cpp:163-217.
use graduation_server.Common.{
  ℕ, zero, suc, ◌<◌, ◌≡◌, ◌≢◌, ◌↔◌, ◌⊎◌, inl, inr, Bool-cases, Option-cases, refl, sym, ap, ◌∙◌,
  true, false, Option, none, some, arith, ◌==◌, find,
}
use graduation_server.Threads.{
  Lock, Thread, Threads, Search, tells, strays, out_of_memory, look, search_from, check_dead_lock,
}

-- From the lock of a thread to the thread that last held it, and so on, up to a lock with the id sought.
pub data Leads (goal : ℕ) (s : Threads) : Thread → ℕ → Type 0 where
  here :
      {t : Thread} {p : ℕ} (l : Lock)
      → t.lock ≡ some p
      → find p s.locks ≡ some l
      → (l.lock_id == goal) ≡ true
      → Leads goal s t p
  there :
      {t : Thread} {p : ℕ} (q : ℕ) (l : Lock) (u : Thread)
      → t.lock ≡ some q
      → find q s.locks ≡ some l
      → (l.lock_id == goal) ≡ false
      → find l.thread_id s.thread_pool ≡ some u
      → Leads goal s u p
      → Leads goal s t p

-- One pass of the loop that goes on to the next thread.
passes :
    (room goal q : ℕ) (l : Lock) (t u : Thread) (s : Threads)
    → t.lock ≡ some q
    → find q s.locks ≡ some l
    → (l.lock_id == goal) ≡ false
    → find l.thread_id s.thread_pool ≡ some u
    → search_from (suc room) goal t s ≡ search_from room goal u s
unfolding search_from
passes room goal q l t u s has e f next = rw (search_from, has, look, e, f, next) refl

pub finds :
    (room goal q : ℕ) (l : Lock) (t : Thread) (s : Threads)
    → t.lock ≡ some q
    → find q s.locks ≡ some l
    → (l.lock_id == goal) ≡ true
    → search_from room goal t s ≡ tells (some q)
unfolding search_from
finds zero goal q l t s has e f = rw (search_from, has, look, e, f) refl
finds (suc room) goal q l t s has e f = rw (search_from, has, look, e, f) refl

search_complete :
    (goal : ℕ) (s : Threads) {t : Thread} {p : ℕ}
    → Leads goal s t p
    → (room : ℕ) × (search_from room goal t s ≡ tells (some p))
search_complete goal s {t = t} (here l has e f) = (0, finds 0 goal _ l t s has e f)
search_complete goal s {t = t} (there q l u has e f next more) =
    let (room, answer) = search_complete goal s more in
    (suc room, passes room goal q l t u s has e f next ∙ answer)

told_same : {q p : ℕ} → tells (some q) ≡ tells (some p) → q ≡ p
told_same h = cc

not_none : {p : ℕ} → tells none ≢ tells (some p)
not_none h = cc

-- A pass that comes to a lock has found it, or what follows the push has.
look_sound :
    (goal : ℕ) (s : Threads) (t : Thread) (p : ℕ) (push : Lock → Search)
    → look goal t s push ≡ tells (some p)
    → Leads goal s t p
      ⊎ ((q : ℕ) × (l : Lock) × (t.lock ≡ some q)
          × (find q s.locks ≡ some l)
          × ((l.lock_id == goal) ≡ false)
          × (push l ≡ tells (some p)))
look_sound goal s t p push ran = elim (Option-cases t.lock) [
  | inl none_held ↦ absurd (not_none (rw (none_held, look) at ran))
  | inr (q, has) ↦ elim (Option-cases (find q s.locks)) [
    | inl e ↦ absurd (astray (rw (has, look, e) at ran))
    | inr (l, e) ↦ elim (Bool-cases (l.lock_id == goal)) [
      | inl f ↦
          let same : q ≡ p = told_same (rw (has, look, e, f) at ran) in
          inl (here l (has ∙ ap some same) (ap (λ (k : ℕ). find k s.locks) (sym same) ∙ e) f)
      | inr f ↦ inr (q, l, has, e, f, rw (has, look, e, f) at ran)
    ]
  ]
]
  where
    astray : strays ≢ tells (some p)
    astray h = cc

full : {p : ℕ} → out_of_memory ≢ tells (some p)
full h = cc

search_sound :
    (room goal : ℕ) (s : Threads) (t : Thread) (p : ℕ)
    → search_from room goal t s ≡ tells (some p)
    → Leads goal s t p
unfolding search_from
search_sound zero goal s t p ran = elim (look_sound goal s t p _ ran) [
  | inl leads ↦ leads
  | inr (q, l, has, e, f, pushed) ↦ absurd (full pushed)
]
search_sound (suc room) goal s t p ran = elim (look_sound goal s t p _ ran) [
  | inl leads ↦ leads
  | inr (q, l, has, e, f, pushed) ↦ elim (Option-cases (find l.thread_id s.thread_pool)) [
    | inl next ↦ absurd (not_none (rw (next) at pushed))
    | inr (u, next) ↦ there q l u has e f next (search_sound room goal s u p (rw (next) at pushed))
  ]
]

-- The check answers a lock exactly when the locks of the thread that asks lead to it: it has the id sought,
-- and none before it on the way has. There is memory enough for the way.
pub check_dead_lock_iff :
    (me goal p : ℕ) (t : Thread) (s : Threads)
    → find me s.thread_pool ≡ some t
    → ((room : ℕ) × (check_dead_lock room me goal s ≡ tells (some p))) ↔ Leads goal s t p
unfolding check_dead_lock
check_dead_lock_iff me goal p t s mine = (
  λ answer. answered (answer.0) (answer.1),
  λ leads.
      let (room, answer) = search_complete goal s leads in
      (suc room, rw (check_dead_lock, mine) answer),
)
  where
    answered : (room : ℕ) → check_dead_lock room me goal s ≡ tells (some p) → Leads goal s t p
    answered zero ran = absurd (full (rw (check_dead_lock, mine) at ran))
    answered (suc room) ran = search_sound room goal s t p (rw (check_dead_lock, mine) at ran)

-- Where a measure of threads falls with each step to the thread that last held a lock, and each lock that
-- a thread has is there, the search ends with any room above the measure.
pub search_from_ends :
    (rank : Thread → ℕ) (goal : ℕ) (s : Threads) (room : ℕ) (t : Thread)
    → ((v : Thread) (q : ℕ) → v.lock ≡ some q → (l : Lock) × (find q s.locks ≡ some l))
    → ((v u : Thread) (q : ℕ) (l : Lock)
        → v.lock ≡ some q
        → find q s.locks ≡ some l
        → find l.thread_id s.thread_pool ≡ some u
        → rank u < rank v)
    → rank t < room
    → (answer : Option ℕ) × (search_from room goal t s ≡ tells answer)
unfolding search_from
search_from_ends rank goal s zero t alive falls l = absurd (omega arith)
search_from_ends rank goal s (suc room) t alive falls less = elim (Option-cases t.lock) [
  | inl none_held ↦ (none, rw (search_from, none_held, look) refl)
  | inr (q, has) ↦
      let (l, e) = alive t q has in
      elim (Bool-cases (l.lock_id == goal)) [
        | inl f ↦ (some q, finds (suc room) goal q l t s has e f)
        | inr f ↦ elim (Option-cases (find l.thread_id s.thread_pool)) [
          | inl next ↦ (none, rw (search_from, has, look, e, f, next) refl)
          | inr (u, next) ↦
              let (answer, ran) =
                search_from_ends rank goal s room u alive falls
                  (omega (arith, falls t u q l has e next, less)) in
              (answer, passes room goal q l t u s has e f next ∙ ran)
        ]
      ]
]

-- Threads that go round among themselves: each has a lock with another id than the one sought, which a
-- thread of theirs held last.
pub record IsRing (goal : ℕ) (s : Threads) (InRing : Thread → Type 0) : Type 0 where
  pub goes_on :
      (t : Thread)
      → InRing t
      → (q : ℕ) × (l : Lock) × (u : Thread) × (t.lock ≡ some q)
        × (find q s.locks ≡ some l)
        × ((l.lock_id == goal) ≡ false)
        × (find l.thread_id s.thread_pool ≡ some u)
        × InRing u

ring_fills :
    (goal : ℕ) (s : Threads) (InRing : Thread → Type 0) (room : ℕ) (t : Thread)
    → IsRing goal s InRing
    → InRing t
    → search_from room goal t s ≡ out_of_memory
unfolding search_from
ring_fills goal s InRing zero t ring mine =
    let (q, l, u, has, e, f, next, theirs) = ring.goes_on t mine in
    rw (search_from, has, look, e, f) refl
ring_fills goal s InRing (suc room) t ring mine =
    let (q, l, u, has, e, f, next, theirs) = ring.goes_on t mine in
    passes room goal q l t u s has e f next ∙ ring_fills goal s InRing room u ring theirs

-- The check of a thread whose locks lead into a ring that the lock sought is no part of does not come to an
-- answer: it adds an element to the trace in each pass, however many there is memory for, until adding
-- one throws.
pub check_dead_lock_fills :
    (me goal room : ℕ) (s : Threads) (t : Thread) (InRing : Thread → Type 0)
    → find me s.thread_pool ≡ some t
    → IsRing goal s InRing
    → InRing t
    → check_dead_lock room me goal s ≡ out_of_memory
unfolding check_dead_lock
check_dead_lock_fills me goal zero s t InRing mine ring inside = rw (check_dead_lock, mine) refl
check_dead_lock_fills me goal (suc room) s t InRing mine ring inside =
    rw (check_dead_lock, mine) (ring_fills goal s InRing room t ring inside)

-- A thread that held its own lock last is such a ring by itself, for any other lock that is sought.
pub own_lock-IsRing :
    (goal p : ℕ) (l : Lock) (t : Thread) (s : Threads)
    → t.lock ≡ some p
    → find p s.locks ≡ some l
    → (l.lock_id == goal) ≡ false
    → find l.thread_id s.thread_pool ≡ some t
    → IsRing goal s (λ u. u ≡ t)
own_lock-IsRing goal p l t s has e f last = record {
  goes_on = λ u same. (p, l, t, ap (λ (v : Thread). v.lock) same ∙ has, e, f, last, refl);
}
