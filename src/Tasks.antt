-- ===== src/Tasks.antt =====
-- StaticLib1/Task.cpp: tasks that are due from time to time. A number of seconds is the bit pattern of an
-- `int`, a tick that of a `time_t`. The clock stands still during one round of a task's list.
pub mod Rounds
pub mod Spread
use graduation_server.Common.{
  ℕ, zero, suc, ◌+◌, ◌-◌, ◌%◌, ◌^◌, Bool, true, false, Option, none, some, List, [], ◌∷◌, ◌++◌, ltb,
  ◌==◌, if◌then◌else◌, find, insert, update,
}
use graduation_server.Common.Words.{sign_extend}

-- `workObject_`, an object by its number, or the null pointer.
pub record TaskNode : Type 0 where
  pub work_object : Option ℕ
  pub freq_sec : ℕ
  pub duration_sec : ℕ
  pub next_tick : ℕ

-- The order of signed numbers of 64 bits.
abbrev pub slt : ℕ → ℕ → Bool
slt a b = ltb ((a + 2 ^ 63) % 2 ^ 64) ((b + 2 ^ 63) % 2 ^ 64)

-- `nextTick`
abbrev pub set_next_tick : ℕ → TaskNode → TaskNode
set_next_tick now n = record n { next_tick = (now + sign_extend n.freq_sec) % 2 ^ 64 }

abbrev pub new_node : ℕ → Option ℕ → ℕ → ℕ → TaskNode
new_node now work freq duration =
    set_next_tick now
      (record { work_object = work; freq_sec = freq; duration_sec = duration; next_tick = 0 })

-- TICK_INFINTY is 0.
unfoldable pub expired : ℕ → TaskNode → Bool
expired now n = elim n.work_object [
  | none ↦ true
  | some w ↦ if n.duration_sec == 0 then false else slt (sign_extend n.duration_sec) now
]

-- `tick`: the node, and the works that were told.
unfoldable pub tick : ℕ → TaskNode → TaskNode × List (Option ℕ)
tick now n = if slt n.next_tick now then (set_next_tick now n, n.work_object ∷ []) else (n, [])

-- The first loop of `process`: the list by the pointers of its nodes, `deleteNodes`, and the works told.
unfoldable pub visit : ℕ → List (ℕ × TaskNode) → List (ℕ × TaskNode) × List ℕ × List (Option ℕ)
unfolding expired tick
visit now [] = ([], [], [])
visit now ((p, n) ∷ more) =
    let (nodes, dead, told) = visit now more in
    if expired now n
    then ((p, n) ∷ nodes, p ∷ dead, told)
    else ((p, (tick now n).0) ∷ nodes, dead, (tick now n).1 ++ told)

-- `remove`: `std::list::remove` takes each entry with the pointer away.
unfoldable pub remove_node : ℕ → List (ℕ × TaskNode) → List (ℕ × TaskNode)
remove_node p [] = []
remove_node p ((q, n) ∷ more) =
    let rest = remove_node p more in if q == p then rest else (q, n) ∷ rest

-- The second loop.
unfoldable pub remove_all : List ℕ → List (ℕ × TaskNode) → List (ℕ × TaskNode)
unfolding remove_node
remove_all [] nodes = nodes
remove_all (p ∷ more) nodes = remove_all more (remove_node p nodes)

-- One round of `process`.
unfoldable pub process_round : ℕ → List (ℕ × TaskNode) → List (ℕ × TaskNode) × List (Option ℕ)
unfolding visit remove_all
process_round now nodes = let (seen, dead, told) = visit now nodes in (remove_all dead seen, told)

-- `taskPool_` by its indices, `threadCount_` as an `int` that is not negative, and `nodeCount` as the bit
-- pattern of an `int`.
pub record TaskManager : Type 0 where
  pub thread_count : ℕ
  pub task_pool : List (ℕ × List (ℕ × TaskNode))
  pub node_count : ℕ

-- `nodeCount % threadCount_`, which takes the sign of `nodeCount`; `none` is a negative index.
unfoldable pub index_of : ℕ → ℕ → Option ℕ
index_of count threads =
    if ltb count (2 ^ 31)
    then some (count % threads)
    else if (2 ^ 32 - count) % threads == 0
    then some 0
    else none

-- `TaskManager::add`; the node stands at a new place. An index without a task is undefined, and so is a
-- negative one. The count goes round from the greatest `int` to the least.
unfoldable pub add : ℕ → ℕ → Option ℕ → ℕ → ℕ → TaskManager → Option TaskManager
unfolding index_of
add now p work freq duration m =
    if ltb m.thread_count 1 then some m else elim (index_of m.node_count m.thread_count) [
      | none ↦ none
      | some index ↦ elim (find index m.task_pool) [
        | none ↦ none
        | some nodes ↦ some (record m {
          task_pool =
              update index (nodes ++ ((p, new_node now work freq duration) ∷ [])) m.task_pool;
          node_count = (m.node_count + 1) % 2 ^ 32;
        })
      ]
    ]
