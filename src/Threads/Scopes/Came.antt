-- ===== src/Threads/Scopes/Came.antt =====
-- What a scope that came through, and the end of a scope, did to the mutexes: StaticLib1/Lock.cpp:90-131.
use graduation_server.Common.{
  ℕ, ◌≡◌, ◌≢◌, ◌⊎◌, inl, inr, Bool-cases, Option-cases, refl, sym, ap, ◌∙◌, Bool, true, false,
  Option, none, some, List, find, update,
}
use graduation_server.Threads.{Search, tells, strays, out_of_memory, check_dead_lock}
use graduation_server.Threads.Scopes.{
  waits, exits, throws, undefined, Mutex, lock_mutex, unlock_mutex, Locking, came, hold, hold_both,
  on_check, construct, destruct,
}
use graduation_server.Threads.Scopes.Held.{Locks}

-- What a constructor that came through did: it locked the mutex, and perhaps another one after it.
abbrev pub Came : ℕ → ℕ → Locking → Locking → Type 0
Came me p s v =
    (mid : List (ℕ × Mutex)) × Locks me p s.mutexes mid
    × (v.shutdown ≡ s.shutdown)
    × ((v.mutexes ≡ mid) ⊎ ((d : ℕ) × Locks me d mid v.mutexes))

state : {o r : Option ℕ} {u v : Locking} → came o u ≡ came r v → u ≡ v
state e = cc

not_undefined : {o : Option ℕ} {v : Locking} → undefined ≢ came o v
not_undefined h = cc

not_waits : {o : Option ℕ} {v : Locking} → waits ≢ came o v
not_waits h = cc

hold-Came : (me p : ℕ) (s v : Locking) (o : Option ℕ) → hold me p s ≡ came o v → Came me p s v
unfolding hold
hold-Came me p s v o e = elim (Option-cases (find p s.mutexes)) [
  | inl f ↦ absurd (not_undefined (rw (hold, f) at e))
  | inr (m, f) ↦ elim (Option-cases (lock_mutex me m)) [
    | inl g ↦ absurd (not_waits (rw (hold, f, g) at e))
    | inr (taken, g) ↦
        let now = state (rw (hold, f, g) at e) in
        (
          update p taken s.mutexes,
          (m, taken, f, g, refl),
          ap (λ (u : Locking). u.shutdown) (sym now),
          inl (ap (λ (u : Locking). u.mutexes) (sym now)),
        )
  ]
]

hold_both-Came :
    (me p d : ℕ) (s v : Locking) (o : Option ℕ) → hold_both me p d s ≡ came o v → Came me p s v
unfolding hold_both
hold_both-Came me p d s v o e = elim (Option-cases (find p s.mutexes)) [
  | inl f ↦ absurd (not_undefined (rw (hold_both, f) at e))
  | inr (m, f) ↦ elim (Option-cases (lock_mutex me m)) [
    | inl g ↦ absurd (not_waits (rw (hold_both, f, g) at e))
    | inr (taken, g) ↦ elim (Option-cases (find d (update p taken s.mutexes))) [
      | inl j ↦ absurd (not_undefined (rw (hold_both, f, g, j) at e))
      | inr (n, j) ↦ elim (Option-cases (lock_mutex me n)) [
        | inl k ↦ absurd (not_waits (rw (hold_both, f, g, j, k) at e))
        | inr (both, k) ↦
            let now = state (rw (hold_both, f, g, j, k) at e) in
            (
              update p taken s.mutexes,
              (m, taken, f, g, refl),
              ap (λ (u : Locking). u.shutdown) (sym now),
              inr (d, (n, both, j, k, ap (λ (u : Locking). u.mutexes) (sym now))),
            )
      ]
    ]
  ]
]

on_check-Came :
    (stern : Bool) (me p : ℕ) (answer : Search) (s v : Locking) (o : Option ℕ)
    → on_check stern me p answer s ≡ came o v
    → Came me p s v
unfolding on_check
on_check-Came stern me p out_of_memory s v o e = absurd (no e)
  where
    no : throws ≢ came o v
    no h = cc
on_check-Came stern me p strays s v o e = absurd (not_undefined e)
on_check-Came stern me p (tells none) s v o e = hold-Came me p s v o e
on_check-Came true me p (tells (some d)) s v o e = absurd (no e)
  where
    no : exits ≢ came o v
    no h = cc
on_check-Came false me p (tells (some d)) s v o e = hold_both-Came me p d s v o e

pub construct-Came :
    (stern : Bool) (room me p : ℕ) (leftover o : Option ℕ) (s v : Locking)
    → s.shutdown ≡ false
    → construct stern room me leftover (some p) s ≡ came o v
    → Came me p s v
unfolding construct
construct-Came stern room me p leftover o s v up e = elim (Option-cases (find p s.threads.locks)) [
  | inl f ↦ absurd (not_undefined (rw (construct, up, f) at e))
  | inr (l, f) ↦
      on_check-Came stern me p (check_dead_lock room me l.lock_id s.threads) s v o
        (rw (construct, up, f) at e)
]

construct_down :
    (stern : Bool) (room me p : ℕ) (leftover : Option ℕ) (s : Locking)
    → s.shutdown ≡ true
    → construct stern room me leftover (some p) s ≡ came leftover s
unfolding construct
construct_down stern room me p leftover s down = simp down

destruct_down : (me p : ℕ) (s : Locking) → s.shutdown ≡ true → destruct me (some p) s ≡ some s
unfolding destruct
destruct_down me p s down = simp down

pub construct_up :
    (stern : Bool) (room me p : ℕ) (leftover o : Option ℕ) (s v : Locking)
    → construct stern room me leftover (some p) s ≡ came o v
    → v.shutdown ≡ false
    → s.shutdown ≡ false
unfolding construct
construct_up stern room me p leftover o s v e up = elim (Bool-cases s.shutdown) [
  | inl down ↦
      ap (λ (u : Locking). u.shutdown)
        (state (sym (construct_down stern room me p leftover s down) ∙ e))
      ∙ up
  | inr fine ↦ fine
]

pub destruct_lem :
    (me p : ℕ) (s v : Locking)
    → destruct me (some p) s ≡ some v
    → v.shutdown ≡ false
    → (s.shutdown ≡ false)
      × ((m rest : Mutex) × (find p s.mutexes ≡ some m)
          × (unlock_mutex me m ≡ some rest)
          × (v.mutexes ≡ update p rest s.mutexes))
unfolding destruct
destruct_lem me p s v e up = elim (Bool-cases s.shutdown) [
  | inl down ↦
      let still : s.shutdown ≡ false =
        ap (λ (u : Locking). u.shutdown) (inner (sym (destruct_down me p s down) ∙ e)) ∙ up in
      absurd (no (sym down ∙ still))
  | inr fine ↦ (
    fine,
    elim (Option-cases (find p s.mutexes)) [
      | inl f ↦ absurd (none_some (rw (destruct, fine, f) at e))
      | inr (m, f) ↦ elim (Option-cases (unlock_mutex me m)) [
        | inl g ↦ absurd (none_some (rw (destruct, fine, f, g) at e))
        | inr (rest, g) ↦
            let now = inner (rw (destruct, fine, f, g) at e) in
            (m, rest, f, g, ap (λ (u : Locking). u.mutexes) (sym now))
      ]
    ],
  )
]
  where
    no : true ≢ false
    no h = cc

    none_some : {u : Locking} → none ≢ some u
    none_some h = cc

    inner : {u w : Locking} → some u ≡ some w → u ≡ w
    inner h = cc
