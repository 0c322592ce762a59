-- ===== src/Tasks/Rounds.antt =====
-- What the rounds of StaticLib1/Task.cpp:73-94 do to the nodes of a task.
use graduation_server.Common.{
  ℕ, ◌+◌, ◌%◌, ◌^◌, ◌<◌, ◌≡◌, ◌≢◌, inl, inr, Bool-cases, refl, sym, ap, ap₂, ◌∙◌, true, false,
  Option, some, List, [], ◌∷◌, ◌++◌, arith, ltb, lt→ltb, ◌==◌, ==_refl, ==_ne, if◌then◌else◌, All,
}
use graduation_server.Common.Words.{sign_extend}
use graduation_server.Tasks.{
  TaskNode, slt, new_node, expired, tick, visit, remove_node, remove_all, process_round,
}

-- The nodes that are left, each after its tick, in the same order.
abbrev pub survivors : ℕ → List (ℕ × TaskNode) → List (ℕ × TaskNode)
survivors now [] = []
survivors now ((p, n) ∷ more) =
    if expired now n then survivors now more else (p, (tick now n).0) ∷ survivors now more

-- The works of the nodes that are left and due.
abbrev pub due : ℕ → List (ℕ × TaskNode) → List (Option ℕ)
due now [] = []
due now ((p, n) ∷ more) = if expired now n then due now more else (tick now n).1 ++ due now more

-- No place is twice in the list.
abbrev pub AreApart : List (ℕ × TaskNode) → Type 0
AreApart [] = Unit {0}
AreApart ((p, n) ∷ more) = All (λ (e : ℕ × TaskNode). p ≢ e.0) more × AreApart more

visited_away :
    (now p : ℕ) (nodes : List (ℕ × TaskNode))
    → All (λ (e : ℕ × TaskNode). p ≢ e.0) nodes
    → All (λ (e : ℕ × TaskNode). p ≢ e.0) ((visit now nodes).0)
      × All (λ (q : ℕ). p ≢ q) ((visit now nodes).1)
unfolding visit
visited_away now p [] h = (tt, tt)
visited_away now p ((q, n) ∷ more) h =
    let (nodes, dead) = visited_away now p more (h.1) in
    elim (Bool-cases (expired now n)) [
      | inl e ↦ rw (e) ((h.0, nodes), (h.0, dead))
      | inr e ↦ rw (e) ((h.0, nodes), dead)
    ]

remove_away :
    (p : ℕ) (nodes : List (ℕ × TaskNode))
    → All (λ (e : ℕ × TaskNode). p ≢ e.0) nodes
    → remove_node p nodes ≡ nodes
unfolding remove_node
remove_away p [] h = refl
remove_away p ((q, n) ∷ more) h =
    rw (==_ne q p (λ e. h.0 (sym e))) (ap (λ m. (q, n) ∷ m) (remove_away p more (h.1)))

remove_all_kept :
    (p : ℕ) (n : TaskNode) (dead : List ℕ) (nodes : List (ℕ × TaskNode))
    → All (λ (q : ℕ). p ≢ q) dead
    → remove_all dead ((p, n) ∷ nodes) ≡ (p, n) ∷ remove_all dead nodes
unfolding remove_all remove_node
remove_all_kept p n [] nodes h = refl
remove_all_kept p n (q ∷ dead) nodes h =
    rw (==_ne p q (h.0)) (remove_all_kept p n dead (remove_node q nodes) (h.1))

remove_all_gone :
    (p : ℕ) (n : TaskNode) (dead : List ℕ) (nodes : List (ℕ × TaskNode))
    → All (λ (e : ℕ × TaskNode). p ≢ e.0) nodes
    → remove_all (p ∷ dead) ((p, n) ∷ nodes) ≡ remove_all dead nodes
unfolding remove_all remove_node
remove_all_gone p n dead nodes h = rw (==_refl p) (ap (remove_all dead) (remove_away p nodes h))

rounds_by :
    (now : ℕ) (nodes : List (ℕ × TaskNode))
    → AreApart nodes
    → (remove_all ((visit now nodes).1) ((visit now nodes).0) ≡ survivors now nodes)
      × ((visit now nodes).2 ≡ due now nodes)
unfolding visit remove_all
rounds_by now [] h = (refl, refl)
rounds_by now ((p, n) ∷ more) h =
    let (nodes, dead) = visited_away now p more (h.0) in
    let (left, told) = rounds_by now more (h.1) in
    elim (Bool-cases (expired now n)) [
      | inl e ↦
          rw (e) (remove_all_gone p n ((visit now more).1) ((visit now more).0) nodes ∙ left, told)
      | inr e ↦ rw (e) (
        remove_all_kept p ((tick now n).0) ((visit now more).1) ((visit now more).0) dead
            ∙ ap (λ m. (p, (tick now n).0) ∷ m) left,
        ap (λ m. (tick now n).1 ++ m) told,
      )
    ]

-- A round takes away exactly the nodes that have expired and lets each other node tick once, in the order
-- of the list. No node is twice in the list.
pub process_round-survivors :
    (now : ℕ) (nodes : List (ℕ × TaskNode))
    → AreApart nodes
    → process_round now nodes ≡ (survivors now nodes, due now nodes)
unfolding process_round
process_round-survivors now nodes h =
    let (left, told) = rounds_by now nodes h in ap₂ (λ m t. (m, t)) left told

slt_plain : (a b : ℕ) → a < 2 ^ 63 → b < 2 ^ 63 → slt a b ≡ ltb a b
slt_plain a b h k =
    ap₂ ltb {x = (a + 2 ^ 63) % 2 ^ 64} (omega (arith, h)) (omega (arith, k)) ∙ shifted a b
  where
    shifted : (x y : ℕ) → ltb (x + 2 ^ 63) (y + 2 ^ 63) ≡ ltb x y
    shifted x y = ground arith

next_plain :
    (now freq : ℕ) → freq < 2 ^ 31 → now < 2 ^ 62 → (now + sign_extend freq) % 2 ^ 64 ≡ now + freq
next_plain now freq small early = ground arith

over_plain :
    (duration now : ℕ)
    → duration < 2 ^ 31
    → duration < now
    → now < 2 ^ 62
    → slt (sign_extend duration) now ≡ true
over_plain duration now small past late =
    let plain : sign_extend duration ≡ duration = ground arith in
    rw (plain) (slt_plain duration now (omega arith) (omega arith) ∙ lt→ltb duration now past)

-- A node whose work was told at one tick tells it at a later tick exactly when more seconds than its
-- frequency have gone by. The ticks are before 2^62 and the frequency is below 2^31.
pub tick-tick :
    (now later w : ℕ) (n : TaskNode)
    → n.work_object ≡ some w
    → slt n.next_tick now ≡ true
    → n.freq_sec < 2 ^ 31
    → now < 2 ^ 62
    → later < 2 ^ 62
    → ((tick now n).1 ≡ some w ∷ [])
      × ((tick later ((tick now n).0)).1
          ≡ (if ltb (now + n.freq_sec) later then some w ∷ [] else []))
unfolding tick
tick-tick now later w n has due_now small early late =
    let next : (now + sign_extend n.freq_sec) % 2 ^ 64 ≡ now + n.freq_sec =
      next_plain now n.freq_sec small early in
    let order : slt (now + n.freq_sec) later ≡ ltb (now + n.freq_sec) later =
      slt_plain (now + n.freq_sec) later (omega arith) (omega arith) in
    elim (Bool-cases (ltb (now + n.freq_sec) later)) [
      | inl e ↦ (rw (tick, due_now, has) refl, rw (tick, due_now, next, order, e, has) refl)
      | inr e ↦ (rw (tick, due_now, has) refl, rw (tick, due_now, next, order, e) refl)
    ]

-- A task with a duration is taken away in the first round after the clock itself has passed the duration:
-- its work is not told, however short the time since it was added. The duration is positive and below 2^31,
-- and the tick is before 2^62.
pub process_round_expired :
    (now added p w freq duration : ℕ)
    → 0 < duration
    → duration < 2 ^ 31
    → duration < now
    → now < 2 ^ 62
    → process_round now ((p, new_node added (some w) freq duration) ∷ []) ≡ ([], [])
unfolding process_round visit expired remove_all remove_node
process_round_expired now added p w freq duration positive small past late =
    let finite : (duration == 0) ≡ false = ==_ne duration 0 (λ e. omega (arith, e, positive)) in
    let over : slt (sign_extend duration) now ≡ true = over_plain duration now small past late in
    let gone : expired now (new_node added (some w) freq duration) ≡ true =
      rw (finite, over) refl in
    rw (process_round, gone, ==_refl p) refl
