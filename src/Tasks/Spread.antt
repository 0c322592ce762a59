-- ===== src/Tasks/Spread.antt =====
-- StaticLib1/Task.cpp:110-129 and 139-154: the tasks that the configuration asks for, and which of them
-- gets which node.
use graduation_server.Common.{
  ℕ, zero, suc, ◌+◌, ◌%◌, ◌^◌, ◌<◌, ◌≤◌, ◌≡◌, inl, inr, Bool-cases, refl, sym, ap, ◌∙◌, true, false,
  Option, none, some, List, [], ◌∷◌, ◌++◌, arith, append-nil, append_assoc, length, length-append,
  ltb, ◌==◌, if◌then◌else◌, find, update, find-update_self, find-update_ne, find-append, or_else,
}
use mathlib.Core.Path.{subst}
use graduation_server.Config.{Start, ok, ◌>>=◌, Xml, Tag, task, part, int_of}
use graduation_server.Tasks.{TaskNode, TaskManager, new_node, index_of, add}

-- The tasks that the loop of `initialize` makes, each with the next index.
unfoldable pub make_tasks : ℕ → List (ℕ × List (ℕ × TaskNode)) → List (ℕ × List (ℕ × TaskNode))
make_tasks zero pool = pool
make_tasks (suc n) pool = make_tasks n (pool ++ ((length pool, []) ∷ []))

-- A negative number asks for no tasks, and `add` takes it for none.
abbrev pub not_negative : ℕ → ℕ
not_negative n = if ltb n (2 ^ 31) then n else 0

-- `TaskManager::initialize`; without the element the number of threads stays as it was.
unfoldable pub initialize : {N : Type 0} → Xml N → N → TaskManager → Start TaskManager
unfolding make_tasks
initialize xml config m = do
  root ← part xml task config
  elim root [
    | none ↦ ok m
    | some node ↦ do
      count ← int_of xml Tag.thread_count m.thread_count node
      ok (record m {
        thread_count = not_negative count;
        task_pool = make_tasks (not_negative count) m.task_pool;
      })
  ]

-- One call of `add`: the time, the place of the new node, and the arguments.
pub record Request : Type 0 where
  pub now : ℕ
  pub place : ℕ
  pub work : Option ℕ
  pub freq : ℕ
  pub duration : ℕ

unfoldable pub add_all : List Request → TaskManager → Option TaskManager
unfolding add
add_all [] m = some m
add_all (r ∷ more) m = elim (add r.now r.place r.work r.freq r.duration m) [
  | none ↦ none
  | some v ↦ add_all more v
]

abbrev pub node_of : Request → ℕ × TaskNode
node_of r = (r.place, new_node r.now r.work r.freq r.duration)

-- The nodes of the requests that come in the turn of task `i` of `n`; the first request is number `k`.
abbrev pub turns : ℕ → ℕ → ℕ → List Request → List (ℕ × TaskNode)
turns n i k [] = []
turns n i k (r ∷ more) =
    let rest = turns n i (k + 1) more in if k % n == i then node_of r ∷ rest else rest

-- The tasks up to `n` are there, with these nodes.
abbrev pub HasTasks : ℕ → (ℕ → List (ℕ × TaskNode)) → List (ℕ × List (ℕ × TaskNode)) → Type 0
HasTasks n f pool = (i : ℕ) → i < n → find i pool ≡ some (f i)

-- Just the tasks below `lo` are there, without nodes.
abbrev IsSized : ℕ → List (ℕ × List (ℕ × TaskNode)) → Type 0
IsSized lo pool =
    (length pool ≡ lo) × ((i : ℕ) → find i pool ≡ (if ltb i lo then some [] else none))

IsSized-grown :
    (lo : ℕ) (pool : List (ℕ × List (ℕ × TaskNode)))
    → IsSized lo pool
    → IsSized (suc lo) (pool ++ ((length pool, []) ∷ []))
unfolding find
IsSized-grown lo pool (size, has) = (
  omega (arith, length-append pool ((length pool, []) ∷ []), size),
  λ i.
      find-append i pool ((length pool, []) ∷ [])
      ∙ ap (λ o. or_else o (if length pool == i then some [] else none)) (has i)
      ∙ ap
          (λ (n : ℕ).
            or_else (if ltb i lo then some [] else none) (if n == i then some [] else none))
          size
      ∙ last i,
)
  where
    last :
        (i : ℕ)
        → or_else {V = List (ℕ × TaskNode)}
            (if ltb i lo then some [] else none)
            (if lo == i then some [] else none)
          ≡ (if ltb i (suc lo) then some [] else none)
    last i = ground arith

IsSized-at :
    (a b : ℕ) (pool : List (ℕ × List (ℕ × TaskNode))) → a ≡ b → IsSized a pool → IsSized b pool
IsSized-at a b pool e = subst (λ n. IsSized n pool) e

make_tasks-IsSized :
    (n lo : ℕ) (pool : List (ℕ × List (ℕ × TaskNode)))
    → IsSized lo pool
    → IsSized (n + lo) (make_tasks n pool)
unfolding make_tasks
make_tasks-IsSized zero lo pool sized = IsSized-at (lo) (0 + lo) pool (omega arith) sized
make_tasks-IsSized (suc n) lo pool sized =
    IsSized-at (n + suc lo) (suc n + lo) (make_tasks n (pool ++ ((length pool, []) ∷ [])))
      (omega arith)
      (make_tasks-IsSized n (suc lo) (pool ++ ((length pool, []) ∷ []))
        (IsSized-grown lo pool sized))

-- What the tasks hold after one more node.
abbrev after_one : TaskManager → (ℕ → List (ℕ × TaskNode)) → Request → TaskManager
after_one m f r =
    let index = m.node_count % m.thread_count in
    record m {
      task_pool = update index (f index ++ (node_of r ∷ [])) m.task_pool;
      node_count = m.node_count + 1;
    }

index_small : (count threads : ℕ) → count < 2 ^ 31 → index_of count threads ≡ some (count % threads)
unfolding index_of
index_small count threads small = ground arith

-- Behind the greatest `int` the index is negative, unless the number of threads divides 2^31.
pub add_over :
    (r : Request) (m : TaskManager)
    → m.node_count ≡ 2 ^ 31
    → 0 < m.thread_count
    → ((2 ^ 31) % m.thread_count == 0) ≡ false
    → add r.now r.place r.work r.freq r.duration m ≡ none
unfolding add index_of
add_over r m over some_task uneven =
    let enough : ltb m.thread_count 1 ≡ false = ground arith in simp (enough, over, uneven)

add_step :
    (f : ℕ → List (ℕ × TaskNode)) (r : Request) (m : TaskManager)
    → 0 < m.thread_count
    → m.node_count < 2 ^ 31
    → HasTasks m.thread_count f m.task_pool
    → add r.now r.place r.work r.freq r.duration m ≡ some (after_one m f r)
unfolding add
add_step f r m some_task small has =
    let there = has (m.node_count % m.thread_count) (grind arith) in
    let enough : ltb m.thread_count 1 ≡ false = ground arith in
    let index : index_of m.node_count m.thread_count ≡ some (m.node_count % m.thread_count) =
      index_small m.node_count m.thread_count small in
    let counted : (m.node_count + 1) % 2 ^ 32 ≡ m.node_count + 1 = ground arith in
    simp (enough, index, there, counted)

-- The nodes of each task after one more.
abbrev with_one : ℕ → ℕ → Request → (ℕ → List (ℕ × TaskNode)) → ℕ → List (ℕ × TaskNode)
with_one n k r f i = f i ++ (if k % n == i then node_of r ∷ [] else [])

has_one :
    (f : ℕ → List (ℕ × TaskNode)) (r : Request) (m : TaskManager)
    → 0 < m.thread_count
    → HasTasks m.thread_count f m.task_pool
    → HasTasks m.thread_count (with_one m.thread_count m.node_count r f) (after_one m f r).task_pool
has_one f r m some_task has i l =
    let index = m.node_count % m.thread_count in
    elim (Bool-cases (index == i)) [
      | inl e ↦
          let same : index ≡ i = ground arith in
          rw (e) (
            subst (λ (k : ℕ). find k (after_one m f r).task_pool ≡ some (f k ++ (node_of r ∷ [])))
              same
              (find-update_self index (f index ++ (node_of r ∷ [])) (f index) m.task_pool
                (has index (grind arith))))
      | inr e ↦ rw (e) (
          find-update_ne index i (f index ++ (node_of r ∷ [])) m.task_pool (ground arith)
          ∙ has i l
          ∙ ap some (sym (append-nil (f i))))
    ]

turns_step :
    (n i k : ℕ) (r : Request) (more : List Request) (f : ℕ → List (ℕ × TaskNode))
    → with_one n k r f i ++ turns n i (k + 1) more ≡ f i ++ turns n i k (r ∷ more)
turns_step n i k r more f = elim (Bool-cases (k % n == i)) [
  | inl e ↦ rw (e) (append_assoc (f i) (node_of r ∷ []) (turns n i (k + 1) more))
  | inr e ↦ rw (e) (append_assoc (f i) [] (turns n i (k + 1) more))
]

add_all_lem :
    (f : ℕ → List (ℕ × TaskNode)) (rs : List Request) (m : TaskManager)
    → 0 < m.thread_count
    → m.node_count + length rs ≤ 2 ^ 31
    → HasTasks m.thread_count f m.task_pool
    → (v : TaskManager) × (add_all rs m ≡ some v)
      × HasTasks m.thread_count (λ i. f i ++ turns m.thread_count i m.node_count rs) v.task_pool
unfolding add_all
add_all_lem f [] m some_task room has = (m, refl, λ i l. has i l ∙ ap some (sym (append-nil (f i))))
add_all_lem f (r ∷ more) m some_task room has =
    let n = m.thread_count in
    let next = after_one m f r in
    let (v, ran, holds) =
      add_all_lem (with_one n m.node_count r f) more next some_task (omega (arith, room))
        (has_one f r m some_task has) in
    (
      v,
      rw (add_all, add_step f r m some_task (omega (arith, room)) has) ran,
      λ i l. holds i l ∙ ap some (turns_step n i m.node_count r more f),
    )

no_tasks : IsSized 0 []
unfolding find
no_tasks = (refl, λ i. ground arith)

made_tasks : (n : ℕ) → HasTasks n (λ _. []) (make_tasks n [])
made_tasks n j l =
    let (_, has) = make_tasks-IsSized n 0 [] no_tasks in
    let below : ltb j (n + 0) ≡ true = ground arith in has j ∙ rw (below) refl

-- A task manager that starts with a positive number of threads has a task for every node that is added
-- later, up to 2^31 of them: no index is out of range. The tasks take turns, so that task `i` holds, in order,
-- the nodes whose number leaves the rest `i` on division by the number of threads. The configuration has
-- the part for the tasks, with that number.
pub initialize-add_all :
    {N : Type 0} (xml : Xml N) (config root : N) (leftover count i : ℕ) (rs : List Request)
    → part xml task config ≡ ok (some root)
    → int_of xml Tag.thread_count leftover root ≡ ok count
    → i < count
    → count < 2 ^ 31
    → length rs ≤ 2 ^ 31
    → (m v : TaskManager) × (initialize xml config
          (record { thread_count = leftover; task_pool = []; node_count = 0 })
        ≡ ok m)
      × (add_all rs m ≡ some v)
      × (find i v.task_pool ≡ some (turns count i 0 rs))
unfolding initialize
initialize-add_all xml config root leftover count i rs there counted l small room =
    let asked : not_negative count ≡ count = ground arith in
    let m : TaskManager = record {
      thread_count = count;
      task_pool = make_tasks count [];
      node_count = 0;
    } in
    let (v, ran, holds) =
      add_all_lem (λ _. []) rs m (omega arith) (omega (arith, room)) (made_tasks count) in
    (m, v, rw (initialize, there, counted, asked) refl, ran, holds i l)
