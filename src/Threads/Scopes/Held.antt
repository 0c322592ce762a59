-- ===== src/Threads/Scopes/Held.antt =====
-- Which sections a mutex holds: StaticLib1/Lock.cpp:45-59.
use graduation_server.Common.{
  ℕ, ◌+◌, ◌≤◌, ◌≡◌, ◌≢◌, ◌⊎◌, inl, inr, Bool-cases, sym, ap, ◌∙◌, Option, none, some, List, [], ◌∷◌,
  ◌++◌, arith, ◌==◌, if◌then◌else◌, find, update, find-update_self, find-update_ne,
}
use mathlib.Core.Path.{subst}
use graduation_server.Threads.Scopes.{Mutex, free_mutex, lock_mutex, unlock_mutex}

-- A section of code under a scope: its thread and its lock.
pub record Section : Type 0 where
  pub thread : ℕ
  pub lock : ℕ

abbrev pub here : Section → ℕ → ℕ
here x p = if x.lock == p then 1 else 0

-- The number of sections open under a lock.
abbrev pub open_under : ℕ → List Section → ℕ
open_under p [] = 0
open_under p (x ∷ more) = here x p + open_under p more

-- Each section under the lock is one of this thread.
abbrev pub AreOf : ℕ → ℕ → List Section → Type 0
AreOf p t [] = Unit {0}
AreOf p t (x ∷ more) = (x.lock ≡ p → x.thread ≡ t) × AreOf p t more

abbrev pub Within : Section → List Section → Type 0
Within x [] = ⊥
Within x (y ∷ more) = (x ≡ y) ⊎ Within x more

-- A lock that has no mutex yet holds nobody.
abbrev pub mutex_of : Option Mutex → Mutex
mutex_of none = free_mutex
mutex_of (some m) = m

-- The sections under a lock are of the owner of its mutex and no more than it counts.
pub record IsHeld (m : Mutex) (p : ℕ) (sections : List Section) : Type 0 where
  pub counted : open_under p sections ≤ m.depth
  pub owned : AreOf p m.owner sections

abbrev pub AreHeld : List (ℕ × Mutex) → List Section → Type 0
AreHeld mutexes sections = (p : ℕ) → IsHeld (mutex_of (find p mutexes)) p sections

-- One mutex was locked, by the thread `me`.
abbrev pub Locks : ℕ → ℕ → List (ℕ × Mutex) → List (ℕ × Mutex) → Type 0
Locks me p mutexes after =
    (m taken : Mutex) × (find p mutexes ≡ some m)
    × (lock_mutex me m ≡ some taken)
    × (after ≡ update p taken mutexes)

pub AreOf-Within :
    (p t : ℕ) (x : Section) (xs : List Section)
    → AreOf p t xs
    → Within x xs
    → x.lock ≡ p
    → x.thread ≡ t
AreOf-Within p t x [] h w e = elim w [ ]
AreOf-Within p t x (y ∷ more) h (inl same) e =
    ap (λ (s : Section). s.thread) same ∙ h.0 (ap (λ (s : Section). s.lock) (sym same) ∙ e)
AreOf-Within p t x (y ∷ more) h (inr w) e = AreOf-Within p t x more (h.1) w e

-- Where no section is open under the lock, they are of any thread.
AreOf-none : (p t : ℕ) (xs : List Section) → open_under p xs ≡ 0 → AreOf p t xs
AreOf-none p t [] h = tt
AreOf-none p t (x ∷ more) h = (λ e. absurd (ground arith), AreOf-none p t more (omega arith))

open_under-append :
    (p : ℕ) (xs ys : List Section) → open_under p (xs ++ ys) ≡ open_under p xs + open_under p ys
open_under-append p [] ys = omega arith
open_under-append p (x ∷ more) ys = omega (arith, open_under-append p more ys)

AreOf-without :
    (p t : ℕ) (x : Section) (xs ys : List Section)
    → AreOf p t (xs ++ (x ∷ ys))
    → AreOf p t (xs ++ ys)
AreOf-without p t x [] ys h = h.1
AreOf-without p t x (y ∷ more) ys h = (h.0, AreOf-without p t x more ys (h.1))

lock_mutex_lem :
    (me : ℕ) (m taken : Mutex)
    → lock_mutex me m ≡ some taken
    → (taken.depth ≡ m.depth + 1) × (taken.owner ≡ me) × ((m.depth ≡ 0) ⊎ (m.owner ≡ me))
unfolding lock_mutex
lock_mutex_lem me m taken e = elim (Bool-cases (m.depth == 0)) [
  | inl idle ↦ (ground arith, ground arith, inl (ground arith))
  | inr busy ↦ (ground arith, ground arith, inr (ground arith))
]

unlock_mutex_lem :
    (me : ℕ) (m left : Mutex)
    → unlock_mutex me m ≡ some left
    → (left.depth + 1 ≡ m.depth) × (left.owner ≡ m.owner)
unfolding unlock_mutex
unlock_mutex_lem me m left e = (ground arith, ground arith)

-- A mutex may be locked once more, and then hold one section more.
pub taken-IsHeld :
    (me p : ℕ) (m taken : Mutex) (xs : List Section)
    → lock_mutex me m ≡ some taken
    → IsHeld m p xs
    → IsHeld taken p xs
taken-IsHeld me p m taken xs e h =
    let (more, mine, which) = lock_mutex_lem me m taken e in
    record {
      counted = omega (arith, more, h.counted);
      owned = elim which [
        | inl idle ↦ AreOf-none p taken.owner xs (omega (arith, idle, h.counted))
        | inr same ↦ subst (λ t. AreOf p t xs) (same ∙ sym mine) h.owned
      ];
    }

pub entered-IsHeld :
    (me p : ℕ) (m taken : Mutex) (xs : List Section)
    → lock_mutex me m ≡ some taken
    → IsHeld m p xs
    → IsHeld taken p (record { thread = me; lock = p } ∷ xs)
entered-IsHeld me p m taken xs e h =
    let (more, mine, which) = lock_mutex_lem me m taken e in
    let counts : open_under p xs ≤ m.depth = h.counted in
    record {
      counted = ground arith;
      owned = (λ _. sym mine, (taken-IsHeld me p m taken xs e h).owned);
    }

-- The section of another lock does not matter.
pub beside-IsHeld :
    (me p q : ℕ) (m : Mutex) (xs : List Section)
    → p ≢ q
    → IsHeld m q xs
    → IsHeld m q (record { thread = me; lock = p } ∷ xs)
beside-IsHeld me p q m xs away h =
    let counts : open_under q xs ≤ m.depth = h.counted in
    record { counted = ground arith; owned = (λ e. absurd (away e), h.owned) }

pub left-IsHeld :
    (me p : ℕ) (m left : Mutex) (xs ys : List Section)
    → unlock_mutex me m ≡ some left
    → IsHeld m p (xs ++ (record { thread = me; lock = p } ∷ ys))
    → IsHeld left p (xs ++ ys)
left-IsHeld me p m left xs ys e h =
    let (less, same) = unlock_mutex_lem me m left e in
    let x : Section = record { thread = me; lock = p } in
    let counts : open_under p (xs ++ (x ∷ ys)) ≤ m.depth = h.counted in
    record {
      counted = ground (arith, open_under-append p xs ys, open_under-append p xs (x ∷ ys));
      owned =
          subst (λ t. AreOf p t (xs ++ ys)) (sym same) (AreOf-without p m.owner x xs ys h.owned);
    }

pub without-IsHeld :
    (q : ℕ) (m : Mutex) (x : Section) (xs ys : List Section)
    → IsHeld m q (xs ++ (x ∷ ys))
    → IsHeld m q (xs ++ ys)
without-IsHeld q m x xs ys h =
    let counts : open_under q (xs ++ (x ∷ ys)) ≤ m.depth = h.counted in
    record {
      counted = omega (arith, open_under-append q xs ys, open_under-append q xs (x ∷ ys), counts);
      owned = AreOf-without q m.owner x xs ys h.owned;
    }

-- Which mutex stands under a lock after another was overwritten.
pub mutex_of-update :
    (p q : ℕ) (m taken : Mutex) (ms : List (ℕ × Mutex))
    → find p ms ≡ some m
    → ((p ≡ q) × (mutex_of (find q (update p taken ms)) ≡ taken))
      ⊎ ((p ≢ q) × (mutex_of (find q (update p taken ms)) ≡ mutex_of (find q ms)))
mutex_of-update p q m taken ms f = elim (Bool-cases (p == q)) [
  | inl e ↦
      let same : p ≡ q = ground arith in
      inl (
        same,
        ap mutex_of (
            ap (λ (k : ℕ). find k (update p taken ms)) (sym same)
            ∙ find-update_self p taken m ms f),
      )
  | inr e ↦
      let away : p ≢ q = ground arith in inr (away, ap mutex_of (find-update_ne p q taken ms away))
]
