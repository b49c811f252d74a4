-- ===== src/Analysis/Queue.antt =====
-- `AIQueue` of backend/internal/analysis/ai_queue.go: the bounded channel between the pipeline and the
-- workers. What a worker does with a session goes through HTTP and the database, and is not modelled.
use secure_mail_scope_sih.Common.{
  ℕ, Option, none, some, List, [], ◌∷◌, ◌++◌, ltb, if◌then◌else◌, length, Text,
}
use secure_mail_scope_sih.Common.{positive_or}

-- The channel's capacity and contents, and the number of workers; a session is any type.
pub record AiQueue {ℓ} (S : Type ℓ) : Type ℓ where
  pub workers : ℕ
  pub capacity : ℕ
  pub jobs : List S

module _ {ℓ} {S : Type ℓ} where
  -- `NewAIQueue`, from the values of AI_WORKERS and AI_QUEUE_SIZE.
  unfoldable pub new_ai_queue : Text → Text → AiQueue S
  new_ai_queue workers_str queue_size_str = record {
    workers = positive_or 2 workers_str;
    capacity = positive_or 100 queue_size_str;
    jobs = [];
  }

  -- `Enqueue`: a full queue drops the session.
  unfoldable pub enqueue : S → AiQueue S → AiQueue S
  enqueue s q = if ltb (length q.jobs) q.capacity then record q { jobs = q.jobs ++ s ∷ [] } else q

  unfoldable pub taken_from : List S → AiQueue S → Option S × AiQueue S
  taken_from [] q = (none, q)
  taken_from (s ∷ ss) q = (some s, record q { jobs = ss })

  -- A worker's receive, `range q.jobQueue`; on an empty queue it waits.
  unfoldable pub receive : AiQueue S → Option S × AiQueue S
  unfolding taken_from
  receive q = taken_from q.jobs q
