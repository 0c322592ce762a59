-- ===== src/Threads/Scopes/Exclusion.antt =====
-- Mutual exclusion by the scopes of StaticLib1/Lock.cpp:90-131.
use graduation_server.Common.{
  ℕ, ◌≡◌, ◌≢◌, inl, inr, Bool-cases, refl, sym, ap, ◌∙◌, Bool, true, false, Option, none, some,
  List, [], ◌∷◌, ◌++◌, arith, find, update, insert, ◌==◌, find-insert_self, find-insert_ne,
}
use mathlib.Core.Path.{subst}
use graduation_server.Threads.{Threads}
use graduation_server.Threads.Scopes.{
  Mutex, free_mutex, unlock_mutex, Locking, came, construct, destruct,
}
use graduation_server.Threads.Scopes.Came.{Came, construct-Came, construct_up, destruct_lem}
use graduation_server.Threads.Scopes.Held.{
  Section, Within, IsHeld, AreHeld, Locks, mutex_of, AreOf-Within, taken-IsHeld, entered-IsHeld,
  beside-IsHeld, left-IsHeld, without-IsHeld, mutex_of-update,
}

-- The mutex of the lock `q` after the mutex of `p` was overwritten.
module _ (P : ℕ → Mutex → Type 0) (p q : ℕ) (m taken : Mutex) (ms : List (ℕ × Mutex)) where
  either_mutex :
      find p ms ≡ some m
      → (P p taken)
      → (p ≢ q → P q (mutex_of (find q ms)))
      → P q (mutex_of (find q (update p taken ms)))
  either_mutex f mine other = elim (mutex_of-update p q m taken ms f) [
    | inl (here, now) ↦ subst (P q) (sym now) (subst (λ k. P k taken) here mine)
    | inr (away, now) ↦ subst (P q) (sym now) (other away)
  ]

at_lock :
    (p : ℕ) (m : Mutex) (ms : List (ℕ × Mutex)) (xs : List Section)
    → find p ms ≡ some m
    → AreHeld ms xs
    → IsHeld m p xs
at_lock p m ms xs f h = subst (λ o. IsHeld (mutex_of o) p xs) f (h p)

Locks-AreHeld :
    (me p : ℕ) (ms after : List (ℕ × Mutex)) (xs : List Section)
    → Locks me p ms after
    → AreHeld ms xs
    → AreHeld after xs
Locks-AreHeld me p ms after xs (m, taken, f, e, same) h =
    subst (λ n. AreHeld n xs) (sym same)
      λ q.
        either_mutex (λ k n. IsHeld n k xs) p q m taken ms f
          (taken-IsHeld me p m taken xs e (at_lock p m ms xs f h)) (λ _. h q)

Locks-entered :
    (me p : ℕ) (ms after : List (ℕ × Mutex)) (xs : List Section)
    → Locks me p ms after
    → AreHeld ms xs
    → AreHeld after (record { thread = me; lock = p } ∷ xs)
Locks-entered me p ms after xs (m, taken, f, e, same) h =
    let ys : List Section = record { thread = me; lock = p } ∷ xs in
    subst (λ n. AreHeld n ys) (sym same)
      λ q.
        either_mutex (λ k n. IsHeld n k ys) p q m taken ms f
          (entered-IsHeld me p m taken xs e (at_lock p m ms xs f h))
          (λ away. beside-IsHeld me p q (mutex_of (find q ms)) xs away (h q))

-- The state, and the sections of code under a scope that are open.
pub record Program : Type 0 where
  pub locking : Locking
  pub sections : List Section

-- What threads do: the lock of a new mutex is made, the threads and their locks change, a scope is opened
-- under a lock, a thread leaves a section of its own, and the shutdown begins.
pub data Step : Program → Program → Type 0 where
  made :
      (p : ℕ) {s : Program}
      → find p s.locking.mutexes ≡ none
      → Step s (record s {
        locking = record s.locking { mutexes = insert p free_mutex s.locking.mutexes };
      })
  changed :
      (threads : Threads) {s : Program}
      → Step s (record s { locking = record s.locking { threads = threads } })
  entered :
      (stern : Bool) (fuel me p : ℕ) (leftover o : Option ℕ) {s : Program} (v : Locking)
      → construct stern fuel me leftover (some p) s.locking ≡ came o v
      → Step s (record { locking = v; sections = record { thread = me; lock = p } ∷ s.sections })
  left :
      (me p : ℕ) (xs ys : List Section) {s : Program} (v : Locking)
      → s.sections ≡ xs ++ (record { thread = me; lock = p } ∷ ys)
      → destruct me (some p) s.locking ≡ some v
      → Step s (record { locking = v; sections = xs ++ ys })
  shut_down : {s : Program} → Step s (record s { locking = record s.locking { shutdown = true } })

pub data Reach (threads : Threads) : Program → Type 0 where
  start : Reach threads (record {
    locking = record { threads = threads; mutexes = []; shutdown = false };
    sections = [];
  })
  later : {s v : Program} → Reach threads s → Step s v → Reach threads v

abbrev IsExclusive : Program → Type 0
IsExclusive s = s.locking.shutdown ≡ false → AreHeld s.locking.mutexes s.sections

entered-AreHeld :
    (me p : ℕ) (s v : Locking) (xs : List Section)
    → Came me p s v
    → AreHeld s.mutexes xs
    → AreHeld v.mutexes (record { thread = me; lock = p } ∷ xs)
entered-AreHeld me p s v xs (mid, first, up, inl same) h =
    subst (λ n. AreHeld n (record { thread = me; lock = p } ∷ xs)) (sym same)
      (Locks-entered me p s.mutexes mid xs first h)
entered-AreHeld me p s v xs (mid, first, up, inr (d, second)) h =
    Locks-AreHeld me d mid v.mutexes (record { thread = me; lock = p } ∷ xs) second
      (Locks-entered me p s.mutexes mid xs first h)

left-AreHeld :
    (me p : ℕ) (m rest : Mutex) (ms : List (ℕ × Mutex)) (xs ys : List Section)
    → find p ms ≡ some m
    → unlock_mutex me m ≡ some rest
    → AreHeld ms (xs ++ (record { thread = me; lock = p } ∷ ys))
    → AreHeld (update p rest ms) (xs ++ ys)
left-AreHeld me p m rest ms xs ys f e h q =
    let x : Section = record { thread = me; lock = p } in
    either_mutex (λ k n. IsHeld n k (xs ++ ys)) p q m rest ms f
      (left-IsHeld me p m rest xs ys e (at_lock p m ms (xs ++ (x ∷ ys)) f h))
      (λ _. without-IsHeld q (mutex_of (find q ms)) x xs ys (h q))

mutex_of-insert :
    (p q : ℕ) (ms : List (ℕ × Mutex))
    → find p ms ≡ none
    → mutex_of (find q (insert p free_mutex ms)) ≡ mutex_of (find q ms)
unfolding find insert
mutex_of-insert p q ms fresh = elim (Bool-cases (p == q)) [
  | inl e ↦
      let same : p ≡ q = ground arith in
      ap (λ (k : ℕ). mutex_of (find k (insert p free_mutex ms))) (sym same)
      ∙ ap mutex_of (find-insert_self p free_mutex ms fresh)
      ∙ ap mutex_of (sym fresh)
      ∙ ap (λ (k : ℕ). mutex_of (find k ms)) same
  | inr e ↦ ap mutex_of (find-insert_ne p q free_mutex ms (ground arith))
]

Step-IsExclusive : {s v : Program} → Step s v → IsExclusive s → IsExclusive v
Step-IsExclusive {s} (made p fresh) h = λ up q.
    subst (λ m. IsHeld m q s.sections) (sym (mutex_of-insert p q s.locking.mutexes fresh)) (h up q)
Step-IsExclusive (changed threads) h = h
Step-IsExclusive {s} (entered stern fuel me p leftover o v ran) h = λ up.
    let before = construct_up stern fuel me p leftover o s.locking v ran up in
    entered-AreHeld me p s.locking v s.sections
      (construct-Came stern fuel me p leftover o s.locking v before ran) (h before)
Step-IsExclusive {s} (left me p xs ys v split ran) h = λ up.
    let (before, (m, rest, f, e, same)) = destruct_lem me p s.locking v ran up in
    subst (λ n. AreHeld n (xs ++ ys)) (sym same)
      (left-AreHeld me p m rest s.locking.mutexes xs ys f e
        (subst (λ n. AreHeld s.locking.mutexes n) split (h before)))
Step-IsExclusive shut_down h = λ up. absurd (no up)
  where
    no : true ≢ false
    no e = cc

Reach-IsExclusive : {threads : Threads} {s : Program} → Reach threads s → IsExclusive s
unfolding find
Reach-IsExclusive start = λ up p. record { counted = omega arith; owned = tt }
Reach-IsExclusive (later r step) = Step-IsExclusive step (Reach-IsExclusive r)

-- In every state that a program reaches from no mutexes and no open scopes before it shuts down, two
-- sections that are open under one lock are of one thread, whatever the checks for dead locks answer and
-- whatever else happens to threads and their locks.
pub Reach-exclusive :
    {threads : Threads} {s : Program} (x y : Section)
    → Reach threads s
    → s.locking.shutdown ≡ false
    → Within x s.sections
    → Within y s.sections
    → x.lock ≡ y.lock
    → x.thread ≡ y.thread
Reach-exclusive {s = s} x y r up in_x in_y same =
    let m = mutex_of (find y.lock s.locking.mutexes) in
    let held : IsHeld m y.lock s.sections = Reach-IsExclusive r up y.lock in
    AreOf-Within y.lock m.owner x s.sections held.owned in_x same
    ∙ sym (AreOf-Within y.lock m.owner y s.sections held.owned in_y refl)
