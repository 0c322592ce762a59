-- ===== src/Contents/Workers/Delivery.antt =====
-- From the bytes of a socket to the handlers: the packages go through the queue in their order.
use graduation_server.Common.{
  ℕ, suc, ◌+◌, ◌≤◌, ◌≡◌, refl, sym, ap, ◌∙◌, inl, inr, Option, none, some, List, [], ◌∷◌, ◌++◌,
  append-nil, append_assoc, arith, length, length-append, All, find, ended, Option-cases,
}
use graduation_server.Sessions.{Session}
use graduation_server.World.{World}
use graduation_server.Packet.{Packet}
use graduation_server.JobQueue.{
  JobQueue, new_queue, read_queue, write_queue, push, pop, jobs, jobs-push, first_job, pop_lem,
}
use graduation_server.Framing.Receiving.{Receiver, arrive, on_recv}
use graduation_server.Framing.Sending.{frame}
use graduation_server.Framing.Receiving.Frames.{IsIdle, on_recv-frames}
use graduation_server.Framing.Receiving.Passes.{IsSmall, frames, length-frame}
use graduation_server.Contents.{RunFunc}
use graduation_server.Contents.Workers.{
  Package, Server, io_read, put_packages, read_in, received, work_read, worker, run_package, work,
  execute, process,
}

-- The packages of a session's packets.
abbrev pub packages : ℕ → List Packet → List Package
packages p [] = []
packages p (packet ∷ more) = record { session = p; packet = packet } ∷ packages p more

module _ {S : Type 0} (table : List (ℕ × RunFunc S)) where
  -- The handlers of packages, one after the other.
  abbrev pub handle_all : List Package → World S → Option (World S)
  handle_all [] w = some w
  handle_all (x ∷ more) w = elim (run_package table x w) [
    | none ↦ none
    | some v ↦ handle_all more v
  ]

  -- A server whose world and queue are exchanged, where the handlers came to a world.
  abbrev pub settled : JobQueue Package → Server S → Option (World S) → Option (Server S)
  settled q s none = none
  settled q s (some w) = some (record s { package_queue = q; world = w })

  process_by :
      (xs : List Package) (s : Server S)
      → jobs s.package_queue ≡ xs
      → (q : JobQueue Package) × (process table (length xs) s ≡ settled q s (handle_all xs s.world))
        × (jobs q ≡ [])
  unfolding process execute jobs read_queue write_queue
  process_by [] s e = (s.package_queue, refl, e)
  process_by (x ∷ xs) s e =
      let (q, popped, left) = pop_lem s.package_queue in
      let first : pop s.package_queue ≡ some (some x, q) =
        popped ∙ ap (λ js. some ((first_job js).0, q)) e in
      elim (Option-cases (run_package table x s.world)) [
        | inl f ↦ (new_queue, rw (process, execute, first, handle_all, f) refl, refl)
        | inr (w, f) ↦
            let (r, ran, none_left) =
              process_by xs (record s { package_queue = q; world = w })
                (left ∙ ap (λ js. (first_job js).1) e) in
            (r, rw (process, execute, first, handle_all, f) ran, none_left)
      ]

jobs-put_packages :
    (p : ℕ) (ps : List Packet) (q : JobQueue Package)
    → jobs (put_packages p ps q) ≡ jobs q ++ packages p ps
unfolding put_packages
jobs-put_packages p [] q = sym (append-nil (jobs q))
jobs-put_packages p (packet ∷ more) q =
    jobs-put_packages p more (push (record { session = p; packet = packet }) q)
    ∙ ap (λ js. js ++ packages p more) (jobs-push (record { session = p; packet = packet }) q)
    ∙ append_assoc (jobs q) (record { session = p; packet = packet } ∷ []) (packages p more)

-- The completion of a receipt, where the receiver came to an end.
worker_read :
    {S : Type 0} (p : ℕ) (bytes : List ℕ) (s : Server S) (r v : Receiver) (x : Session)
    → find p s.world.sessions.heap ≡ some x
    → 1 ≤ length bytes
    → find p s.receivers ≡ some r
    → on_recv (length bytes) (arrive bytes r) ≡ ended v
    → worker p (io_read bytes) s ≡ some (read_in p v s)
unfolding worker work work_read received
worker_read p [] s r v x alive some_bytes there ran = absurd (omega arith)
worker_read p (b ∷ bs) s r v x alive some_bytes there ran =
    rw (worker, alive, work, work_read, there, ran, received) refl

length-packages : (p : ℕ) (ps : List Packet) → length (packages p ps) ≡ length ps
length-packages p [] = refl
length-packages p (packet ∷ more) = ap suc (length-packages p more)

module _ {S : Type 0} (table : List (ℕ × RunFunc S)) where
  -- As many passes of the thread that runs the handlers as there are packages in the queue run the handlers
  -- of all of them, in the order of the queue, and leave the queue empty. A handler that is undefined makes
  -- the whole undefined.
  pub process-jobs :
      (s : Server S)
      → (q : JobQueue Package) × (process table (length (jobs s.package_queue)) s
          ≡ settled table q s (handle_all table (jobs s.package_queue) s.world))
        × (jobs q ≡ [])
  process-jobs s = process_by table (jobs s.package_queue) s refl

  -- Frames that come whole and together from the socket of a session are handled: after the completion of
  -- the receipt, as many passes of one thread as there are packages in the queue run the handlers for what was queued
  -- before and then for the packets of these frames, in their order, each for that session. The session
  -- is there, its receiver was idle without packages, there is a frame at least, each packet is known to the analyzer
  -- with a frame of at most 204 bytes, and all the bytes fit the buffer.
  pub process-worker :
      (p : ℕ) (packet : Packet) (more : List Packet) (s : Server S) (r : Receiver) (x : Session)
      → find p s.world.sessions.heap ≡ some x
      → find p s.receivers ≡ some r
      → IsIdle r
      → r.package_storage ≡ []
      → All IsSmall (packet ∷ more)
      → length (frames (packet ∷ more)) ≤ 10240
      → (u : Server S) × (q : JobQueue Package) × (worker p (io_read (frames (packet ∷ more))) s
          ≡ some u)
        × (process table (length (jobs s.package_queue) + length (packet ∷ more)) u
            ≡ settled table q u
                (handle_all table (jobs s.package_queue ++ packages p (packet ∷ more)) s.world))
        × (jobs q ≡ [])
  unfolding read_in
  process-worker p packet more s r x alive there idle empty small fits =
      let ps = packet ∷ more in
      let all : frames ps ++ [] ≡ frames ps = append-nil (frames ps) in
      let (v, ran, stored, _, _, _, _) =
        on_recv-frames r packet more [] idle small (inl (omega arith))
          (omega (arith, fits, ap length all)) in
      let some_bytes : 1 ≤ length (frames ps) =
        omega (arith, length-append (frame packet) (frames more), length-frame packet) in
      let u = read_in p v s in
      let waiting : jobs u.package_queue ≡ jobs s.package_queue ++ packages p ps =
        jobs-put_packages p v.package_storage s.package_queue
        ∙ ap (λ qs. jobs s.package_queue ++ packages p qs) (stored ∙ ap (λ qs. qs ++ ps) empty) in
      let passes : length (jobs s.package_queue ++ packages p ps)
          ≡ length (jobs s.package_queue) + length ps =
        length-append (jobs s.package_queue) (packages p ps)
        ∙ ap (λ (n : ℕ). length (jobs s.package_queue) + n) (length-packages p ps) in
      let (q, handled, none_left) = process-jobs u in
      (
        u,
        q,
        worker_read p (frames ps) s r v x alive some_bytes there (rw (all) at ran),
        rw (waiting, passes) at handled,
        none_left,
      )
