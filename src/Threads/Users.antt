-- ===== src/Threads/Users.antt =====
-- The threads of the pool that use a lock: StaticLib1/Thread.cpp:112-143.
use graduation_server.Common.{
  ℕ, ◌+◌, ◌≡◌, ◌≢◌, inl, inr, Bool-cases, refl, sym, ap, ◌∙◌, true, false, Option, none, some, List,
  [], ◌∷◌, arith, ◌==◌, if◌then◌else◌, find, insert, erase, find-insert_ne, find-erase-none,
}
use graduation_server.Threads.{Lock, Thread, Threads}

-- One for a thread with this lock.
abbrev pub uses : ℕ → Option ℕ → ℕ
uses p none = 0
uses p (some q) = if q == p then 1 else 0

-- The number of threads with a lock.
abbrev pub users : ℕ → List (ℕ × Thread) → ℕ
users p [] = 0
users p ((id, t) ∷ more) = uses p t.lock + users p more

-- What a lock counts; a lock that is not there counts none.
abbrev pub counted : Option Lock → ℕ
counted none = 0
counted (some l) = l.number_of_thread_using

-- No id twice.
abbrev pub AreDistinct : List (ℕ × Thread) → Type 0
AreDistinct [] = Unit {0}
AreDistinct ((id, t) ∷ more) = (find id more ≡ none) × AreDistinct more

-- Each lock counts the threads that use it; so a lock that is used is there.
pub record IsCounted (s : Threads) : Type 0 where
  pub distinct : AreDistinct s.thread_pool
  pub counts : (p : ℕ) → users p s.thread_pool ≡ counted (find p s.locks)

pub agrees : (j id : ℕ) → (j == id) ≡ true → j ≡ id
agrees j id e = ground arith

pub differs : (j id : ℕ) → (j == id) ≡ false → j ≢ id
differs j id e = ground arith

erase_absent : (id : ℕ) (pool : List (ℕ × Thread)) → find id pool ≡ none → erase id pool ≡ pool
unfolding find erase
erase_absent id [] h = refl
erase_absent id ((j, u) ∷ more) h = elim (Bool-cases (j == id)) [
  | inl e ↦ absurd (some_none (rw (e) at h))
  | inr e ↦ rw (e) (ap (λ m. (j, u) ∷ m) (erase_absent id more (rw (e) at h)))
]
  where
    some_none : {v : Thread} → some v ≢ none
    some_none f = cc

pub users-insert :
    (p id : ℕ) (t : Thread) (pool : List (ℕ × Thread))
    → find id pool ≡ none
    → users p (insert id t pool) ≡ users p pool + uses p t.lock
unfolding find insert
users-insert p id t [] h = omega arith
users-insert p id t ((j, u) ∷ more) h = ground (arith, users-insert p id t more)

pub insert-AreDistinct :
    (id : ℕ) (t : Thread) (pool : List (ℕ × Thread))
    → find id pool ≡ none
    → AreDistinct pool
    → AreDistinct (insert id t pool)
unfolding find insert
insert-AreDistinct id t [] h d = (refl, tt)
insert-AreDistinct id t ((j, u) ∷ more) h d = elim (Bool-cases (j == id)) [
  | inl e ↦ absurd (some_none (rw (e) at h))
  | inr e ↦
      let away : find id more ≡ none = rw (e) at h in
      rw (e) (
        find-insert_ne id j t more (λ f. differs j id e (sym f)) ∙ d.0,
        insert-AreDistinct id t more away (d.1),
      )
]
  where
    some_none : {v : Thread} → some v ≢ none
    some_none f = cc

pub users-erase :
    (p id : ℕ) (t : Thread) (pool : List (ℕ × Thread))
    → AreDistinct pool
    → find id pool ≡ some t
    → users p (erase id pool) + uses p t.lock ≡ users p pool
unfolding find erase
users-erase p id t [] d h = absurd (none_some h)
  where
    none_some : {v : Thread} → none ≢ some v
    none_some f = cc
users-erase p id t ((j, u) ∷ more) d h = elim (Bool-cases (j == id)) [
  | inl e ↦
      let here : u ≡ t = inner (rw (e) at h) in
      let gone : find id more ≡ none = ap (λ (k : ℕ). find k more) (sym (agrees j id e)) ∙ d.0 in
      rw (e, erase_absent id more gone, here) (omega arith)
  | inr e ↦ rw (e) (omega (arith, users-erase p id t more (d.1) (rw (e) at h)))
]
  where
    inner : {v w : Thread} → some v ≡ some w → v ≡ w
    inner f = cc

pub erase-AreDistinct :
    (id : ℕ) (pool : List (ℕ × Thread)) → AreDistinct pool → AreDistinct (erase id pool)
unfolding erase
erase-AreDistinct id [] d = tt
erase-AreDistinct id ((j, u) ∷ more) d = elim (Bool-cases (j == id)) [
  | inl e ↦ rw (e) (erase-AreDistinct id more (d.1))
  | inr e ↦ rw (e) (find-erase-none j id more (d.0), erase-AreDistinct id more (d.1))
]
