-- ===== src/JobQueue.antt =====
-- StaticLib1/ThreadJobQueue.h: the queue through which the sessions hand packages to the threads that
-- run the handlers. The lock makes one operation one step.
use graduation_server.Common.{
  ℕ, ◌+◌, ◌≡◌, refl, Bool, true, false, Option, none, some, List, [], ◌∷◌, ◌++◌, not, Bool-cases,
  inl, inr, append-nil, append_assoc, arith, length, length-append, ◌==◌, if◌then◌else◌,
}

-- `queue_[WRITE_QUEUE]`, `queue_[READ_QUEUE]`, and whether `writeQueue_` points to the first of them;
-- `readQueue_` points to the other.
pub record JobQueue {ℓ} (T : Type ℓ) : Type ℓ where
  pub queue_write : List T
  pub queue_read : List T
  pub writes_first : Bool

module _ {ℓ} {T : Type ℓ} where
  abbrev pub new_queue : JobQueue T
  new_queue = record { queue_write = []; queue_read = []; writes_first = true }

  -- `*readQueue_` and `*writeQueue_`
  unfoldable pub read_queue : JobQueue T → List T
  read_queue q = if q.writes_first then q.queue_read else q.queue_write

  unfoldable pub write_queue : JobQueue T → List T
  write_queue q = if q.writes_first then q.queue_write else q.queue_read

  pub set_read : List T → JobQueue T → JobQueue T
  set_read ts q =
      if q.writes_first then record q { queue_read = ts } else record q { queue_write = ts }

  pub set_write : List T → JobQueue T → JobQueue T
  set_write ts q =
      if q.writes_first then record q { queue_write = ts } else record q { queue_read = ts }

  pub push : T → JobQueue T → JobQueue T
  unfolding set_write write_queue
  push t q = set_write (write_queue q ++ (t ∷ [])) q

  -- Only the two pointers are exchanged.
  pub swap : JobQueue T → JobQueue T
  swap q = record q { writes_first = not q.writes_first }

  pub size : JobQueue T → ℕ
  size q = length q.queue_write + length q.queue_read

  -- Of the queue to read alone.
  pub is_empty : JobQueue T → Bool
  unfolding read_queue
  is_empty q = elim (read_queue q) [ [] ↦ true | _ ∷ _ ↦ false ]

  -- `front` and `pop` of the queue to read; both are undefined on an empty queue.
  pub take_front : JobQueue T → Option (Option T × JobQueue T)
  unfolding read_queue set_read
  take_front q = elim (read_queue q) [ [] ↦ none | t ∷ rest ↦ some (some t, set_read rest q) ]

  -- What `pop` stores in its argument and leaves in the queue; the inner `none` is the answer false.
  pub pop : JobQueue T → Option (Option T × JobQueue T)
  unfolding size is_empty swap take_front
  pop q =
      if size q == 0
      then some (none, q)
      else if is_empty q
      then take_front (swap q)
      else take_front q

  -- The abstract queue: the jobs in the order in which they leave.
  unfoldable pub jobs : JobQueue T → List T
  unfolding read_queue write_queue
  jobs q = read_queue q ++ write_queue q

  -- A pushed job leaves after all that are in the queue.
  pub jobs-push : (t : T) (q : JobQueue T) → jobs (push t q) ≡ jobs q ++ (t ∷ [])
  unfolding push jobs
  jobs-push t q = elim (Bool-cases q.writes_first) [
    | inl e ↦ ground (arith, e, append_assoc q.queue_read q.queue_write (t ∷ []))
    | inr e ↦ ground (arith, e, append_assoc q.queue_write q.queue_read (t ∷ []))
  ]

  pub size-jobs : (q : JobQueue T) → size q ≡ length (jobs q)
  unfolding size jobs
  size-jobs q = elim (Bool-cases q.writes_first) [
    | inl e ↦ ground (arith, e, length-append q.queue_read q.queue_write)
    | inr e ↦ ground (arith, e, length-append q.queue_write q.queue_read)
  ]

  -- Taking a job from the queue of jobs at its front.
  abbrev pub first_job : List T → Option T × List T
  first_job [] = (none, [])
  first_job (t ∷ rest) = (some t, rest)

  pop_at :
      (ws rs : List T) (b : Bool)
      → (v : JobQueue T) × (pop (record { queue_write = ws; queue_read = rs; writes_first = b })
          ≡ some (
            (first_job (jobs (record { queue_write = ws; queue_read = rs; writes_first = b }))).0,
            v,
          ))
        × (jobs v
            ≡ (first_job (jobs (record { queue_write = ws; queue_read = rs; writes_first = b }))).1)
  unfolding pop jobs
  pop_at [] [] true =
      (record { queue_write = []; queue_read = []; writes_first = true }, refl, refl)
  pop_at (t ∷ ws) [] true = (
    record { queue_write = ws; queue_read = []; writes_first = false },
    ground arith,
    append-nil ws,
  )
  pop_at ws (t ∷ rs) true =
      (record { queue_write = ws; queue_read = rs; writes_first = true }, ground arith, refl)
  pop_at [] [] false =
      (record { queue_write = []; queue_read = []; writes_first = false }, refl, refl)
  pop_at [] (t ∷ rs) false = (
    record { queue_write = []; queue_read = rs; writes_first = true },
    ground arith,
    append-nil rs,
  )
  pop_at (t ∷ ws) rs false =
      (record { queue_write = ws; queue_read = rs; writes_first = false }, ground arith, refl)

  -- `pop` never takes from an empty queue. It answers the job that has been longest in the queue and
  -- keeps the others in order, and answers false exactly when no job is there.
  pub pop_lem :
      (q : JobQueue T)
      → (v : JobQueue T) × (pop q ≡ some ((first_job (jobs q)).0, v))
        × (jobs v ≡ (first_job (jobs q)).1)
  pop_lem q = pop_at q.queue_write q.queue_read q.writes_first
