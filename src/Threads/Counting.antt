-- ===== src/Threads/Counting.antt =====
-- The count of the threads that use a lock: StaticLib1/Thread.cpp:15-76.
use graduation_server.Common.{
  ℕ, ◌≤◌, ◌≡◌, ◌≢◌, inl, inr, Bool-cases, Option-cases, refl, sym, ap, ◌∙◌, false, none, some, List,
  arith, ltb, ◌==◌, ==_refl, if◌then◌else◌, find, insert, erase, update, find-erase_self,
  find-erase_ne, find-update_self, find-update_ne, find-insert_ne, find-insert_self,
}
use graduation_server.Threads.{
  Lock, Thread, Threads, new_lock, increase, decrease, remove, new_thread, new_thread_with,
  drop_lock, delete_thread,
}
use graduation_server.Threads.Users.{
  uses, users, counted, IsCounted, users-insert, insert-AreDistinct, users-erase, erase-AreDistinct,
  agrees, differs,
}

pub new_lock-IsCounted :
    (p leftover : ℕ) (s : Threads)
    → find p s.locks ≡ none
    → IsCounted s
    → IsCounted (new_lock p leftover s)
unfolding new_lock
new_lock-IsCounted p leftover s fresh c = record {
  distinct = c.distinct;
  counts = λ q. elim (Bool-cases (p == q)) [
    | inl e ↦
        let same = agrees p q e in
        c.counts q
        ∙ ap counted (ap (λ (k : ℕ). find k s.locks) (sym same) ∙ fresh)
        ∙ sym (
            ap counted (
              ap (λ (k : ℕ). find k (insert p (made s) s.locks)) (sym same)
              ∙ find-insert_self p (made s) s.locks fresh))
    | inr e ↦ c.counts q ∙ ap counted (sym (find-insert_ne p q (made s) s.locks (differs p q e)))
  ];
}
  where
    made : Threads → Lock
    made u = record { lock_id = u.id_seed; thread_id = leftover; number_of_thread_using = 0 }

pub new_thread-IsCounted :
    (id : ℕ) (s : Threads)
    → find id s.thread_pool ≡ none
    → IsCounted s
    → IsCounted (new_thread id s)
unfolding new_thread
new_thread-IsCounted id s fresh c = record {
  distinct = insert-AreDistinct id (record { id = id; lock = none }) s.thread_pool fresh c.distinct;
  counts = λ q.
      omega (
        arith,
        users-insert q id (record { id = id; lock = none }) s.thread_pool fresh,
        c.counts q,
      );
}

-- One thread more for the lock `p`, and one in its count.
with_lock_counts :
    (id p q : ℕ) (l : Lock) (s : Threads)
    → find p s.locks ≡ some l
    → find id s.thread_pool ≡ none
    → IsCounted s
    → users q (insert id (record { id = id; lock = some p }) s.thread_pool)
      ≡ counted (find q (update p (increase l) s.locks))
with_lock_counts id p q l s there fresh c =
    let sum = users-insert q id (record { id = id; lock = some p }) s.thread_pool fresh in
    elim (Bool-cases (p == q)) [
      | inl e ↦
          let same = agrees p q e in
          let now : find q (update p (increase l) s.locks) ≡ some (increase l) =
            ap (λ (k : ℕ). find k (update p (increase l) s.locks)) (sym same)
            ∙ find-update_self p (increase l) l s.locks there in
          let before : users q s.thread_pool ≡ l.number_of_thread_using =
            c.counts q ∙ ap counted (ap (λ (k : ℕ). find k s.locks) (sym same) ∙ there) in
          sum ∙ rw (e) (omega (arith, before)) ∙ sym (ap counted now)
      | inr e ↦
          sum
          ∙ rw (e) (omega (arith, c.counts q))
          ∙ ap counted (sym (find-update_ne p q (increase l) s.locks (differs p q e)))
    ]

pub new_thread_with-IsCounted :
    (id p : ℕ) (s v : Threads)
    → find id s.thread_pool ≡ none
    → IsCounted s
    → new_thread_with id p s ≡ some v
    → IsCounted v
unfolding new_thread_with
new_thread_with-IsCounted id p s v fresh c ran = elim (Option-cases (find p s.locks)) [
  | inl e ↦ absurd (none_some (rw (new_thread_with, e) at ran))
  | inr (l, e) ↦
      let now : IsCounted (record {
        thread_pool = insert id (record { id = id; lock = some p }) s.thread_pool;
        locks = update p (increase l) s.locks;
        id_seed = s.id_seed;
      }) =
        record {
          distinct =
              insert-AreDistinct id (record { id = id; lock = some p }) s.thread_pool fresh
                c.distinct;
          counts = λ q. with_lock_counts id p q l s e fresh c;
        } in
      rw (inner (rw (new_thread_with, e) at ran)) at now
]
  where
    none_some : {u : Threads} → none ≢ some u
    none_some f = cc

    inner : {u w : Threads} → some u ≡ some w → u ≡ w
    inner f = cc

-- One thread less for the lock `p`, and one less in its count, with which it goes.
lock_left : ℕ → Lock → List (ℕ × Lock) → List (ℕ × Lock)
lock_left p l locks =
    if ltb 1 l.number_of_thread_using then update p (decrease l) locks else erase p locks

own_use : (p : ℕ) → uses p (some p) ≡ 1
own_use p = rw (==_refl p) refl

last_user : (n : ℕ) → ltb 1 n ≡ false → n ≤ 1
last_user n h = ground arith

lock_left_counts :
    (p q : ℕ) (t : Thread) (l : Lock) (s : Threads)
    → find t.id s.thread_pool ≡ some t
    → t.lock ≡ some p
    → find p s.locks ≡ some l
    → IsCounted s
    → users q (erase t.id s.thread_pool) ≡ counted (find q (lock_left p l s.locks))
unfolding lock_left
lock_left_counts p q t l s there has e c =
    let less = users-erase q t.id t s.thread_pool c.distinct there in
    elim (Bool-cases (p == q)) [
      | inl f ↦
          let same = agrees p q f in
          let one : uses q t.lock ≡ 1 = ap (uses q) has ∙ rw (f) refl in
          let before : users q s.thread_pool ≡ l.number_of_thread_using =
            c.counts q ∙ ap counted (ap (λ (k : ℕ). find k s.locks) (sym same) ∙ e) in
          elim (Bool-cases (ltb 1 l.number_of_thread_using)) [
            | inl m ↦ rw (m) (
                omega (arith, less, one, before)
                ∙ sym (
                    ap counted (
                      ap (λ (k : ℕ). find k (update p (decrease l) s.locks)) (sym same)
                      ∙ find-update_self p (decrease l) l s.locks e)))
            | inr m ↦ rw (m) (
                omega (arith, less, one, before, last_user l.number_of_thread_using m)
                ∙ sym (
                    ap counted (
                      ap (λ (k : ℕ). find k (erase p s.locks)) (sym same)
                      ∙ find-erase_self p s.locks)))
          ]
      | inr f ↦
          let none_less : uses q t.lock ≡ 0 = ap (uses q) has ∙ rw (f) refl in
          let kept : users q (erase t.id s.thread_pool) ≡ counted (find q s.locks) =
            omega (arith, less, none_less, c.counts q) in
          elim (Bool-cases (ltb 1 l.number_of_thread_using)) [
            | inl m ↦
                rw (m) (
                  kept ∙ ap counted (sym (find-update_ne p q (decrease l) s.locks (differs p q f))))
            | inr m ↦ rw (m) (kept ∙ ap counted (sym (find-erase_ne p q s.locks (differs p q f))))
          ]
    ]

dropped :
    (p : ℕ) (l : Lock) (s : Threads)
    → find p s.locks ≡ some l
    → drop_lock (some p) s ≡ some (record s { locks = lock_left p l s.locks })
unfolding drop_lock lock_left
dropped p l s e = elim (Bool-cases (ltb 1 l.number_of_thread_using)) [
  | inl m ↦ rw (drop_lock, e, m) refl
  | inr m ↦ rw (drop_lock, e, m) refl
]

-- Deleting a thread that is in the pool is defined, and every lock counts what threads are left.
pub delete_thread-IsCounted :
    (t : Thread) (s : Threads)
    → find t.id s.thread_pool ≡ some t
    → IsCounted s
    → (v : Threads) × (delete_thread t s ≡ some v) × IsCounted v
unfolding delete_thread
delete_thread-IsCounted t s there c = elim (Option-cases t.lock) [
  | inl none_held ↦ (
    remove t.id s,
    rw (none_held, drop_lock) refl,
    record {
      distinct = erase-AreDistinct t.id s.thread_pool c.distinct;
      counts = λ q. omega (
        arith,
        users-erase q t.id t s.thread_pool c.distinct there,
        c.counts q,
        ap (uses q) none_held,
      );
    },
  )
  | inr (p, has) ↦ elim (Option-cases (find p s.locks)) [
    | inl e ↦ absurd (
        omega (
          arith,
          users-erase p t.id t s.thread_pool c.distinct there,
          c.counts p,
          ap counted e,
          ap (uses p) has,
          own_use p,
        ))
    | inr (l, e) ↦ (
      record (remove t.id s) { locks = lock_left p l s.locks },
      rw (has) (dropped p l (remove t.id s) e),
      record {
        distinct = erase-AreDistinct t.id s.thread_pool c.distinct;
        counts = λ q. lock_left_counts p q t l s there has e c;
      },
    )
  ]
]
