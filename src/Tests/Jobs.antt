-- ===== src/Tests/Jobs.antt =====
-- Runs of the job queue.
use graduation_server.Common.{ℕ, ◌≡◌, some}
use graduation_server.JobQueue.{JobQueue, new_queue, push, pop, jobs, first_job, pop_lem}

abbrev two_jobs : JobQueue ℕ
two_jobs = push 5 (push 4 new_queue)

pop_lem_example :
    (v : JobQueue ℕ) × (pop two_jobs ≡ some ((first_job (jobs two_jobs)).0, v))
    × (jobs v ≡ (first_job (jobs two_jobs)).1)
pop_lem_example = pop_lem two_jobs
