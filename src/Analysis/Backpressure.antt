-- ===== src/Analysis/Backpressure.antt =====
-- The queue of backend/internal/analysis/ai_queue.go against an unbounded one.
use secure_mail_scope_sih.Common.{
  ◌≤◌, ◌≡◌, refl, sym, ap, ◌∙◌, inl, inr, Option, none, some, List, [], ◌∷◌, ◌++◌, arith, ltb,
  if◌then◌else◌, Bool-cases, length, length-append, Text,
}
use mathlib.Core.List.{append_assoc, append-nil}
use secure_mail_scope_sih.Analysis.Queue.{AiQueue, new_ai_queue, enqueue, receive, taken_from}

-- What the pipeline and the workers do to the queue, in the order in which they get at it.
pub data Op {ℓ} (S : Type ℓ) : Type ℓ where
  put : S → Op S
  take_one : Op S

-- The queue, with the sessions that it accepted and those that the workers received, in order.
pub record History {ℓ} (S : Type ℓ) : Type ℓ where
  pub queue : AiQueue S
  pub enqueued : List S
  pub received : List S

module _ {ℓ} {S : Type ℓ} where
  some_list : Option S → List S
  some_list none = []
  some_list (some s) = s ∷ []

  -- One operation; a session counts as enqueued where the channel has room.
  unfoldable pub op : Op S → History S → History S
  unfolding some_list
  op (put s) h = record h {
    queue = enqueue s h.queue;
    enqueued =
        if ltb (length h.queue.jobs) h.queue.capacity then h.enqueued ++ s ∷ [] else h.enqueued;
  }
  op take_one h =
      let (s, q) = receive h.queue in record h { queue = q; received = h.received ++ some_list s }

  unfoldable pub ops : List (Op S) → History S → History S
  ops [] h = h
  ops (o ∷ os) h = ops os (op o h)

  -- The queue is within its bound, and what was received and what waits is what was enqueued, in order.
  pub record IsFifo (h : History S) : Type ℓ where
    pub bounded : length h.queue.jobs ≤ h.queue.capacity
    pub in_order : h.received ++ h.queue.jobs ≡ h.enqueued

  taken-IsFifo :
      (jobs : List S) (h : History S)
      → h.queue.jobs ≡ jobs
      → length jobs ≤ h.queue.capacity
      → h.received ++ jobs ≡ h.enqueued
      → IsFifo (record h {
        queue = (taken_from jobs h.queue).1;
        received = h.received ++ some_list (taken_from jobs h.queue).0;
      })
  unfolding taken_from some_list
  taken-IsFifo [] h e bounded in_order = record {
    bounded = rw e bounded;
    in_order =
        ap (λ l. l ++ h.queue.jobs) (append-nil h.received)
        ∙ ap (λ l. h.received ++ l) e
        ∙ in_order;
  }
  taken-IsFifo (s ∷ jobs) h e bounded in_order = record {
    bounded = ground arith;
    in_order = append_assoc h.received (s ∷ []) jobs ∙ in_order;
  }

  op-IsFifo : (o : Op S) (h : History S) → IsFifo h → IsFifo (op o h)
  unfolding op enqueue receive
  op-IsFifo (put s) h f = elim (Bool-cases (ltb (length h.queue.jobs) h.queue.capacity)) [
    | inl room ↦ rw room (record {
      bounded = rw (length-append h.queue.jobs (s ∷ [])) (ground arith);
      in_order =
          sym (append_assoc h.received h.queue.jobs (s ∷ [])) ∙ ap (λ l. l ++ s ∷ []) f.in_order;
    })
    | inr full ↦ rw full (record { bounded = f.bounded; in_order = f.in_order })
  ]
  op-IsFifo take_one h f = taken-IsFifo h.queue.jobs h refl f.bounded f.in_order

  ops-IsFifo : (os : List (Op S)) (h : History S) → IsFifo h → IsFifo (ops os h)
  unfolding ops
  ops-IsFifo [] h f = f
  ops-IsFifo (o ∷ os) h f = ops-IsFifo os (op o h) (op-IsFifo o h f)

  -- From a queue made of any settings, whatever the pipeline and the workers do in any order, no more
  -- sessions wait than the queue's capacity, and the sessions received so far, then those that wait, are
  -- the sessions that were not dropped, in their order.
  pub queue-IsFifo :
      (os : List (Op S)) (workers_str queue_size_str : Text)
      → IsFifo (
          ops os (record {
            queue = new_ai_queue workers_str queue_size_str;
            enqueued = [];
            received = [];
          }))
  unfolding new_ai_queue
  queue-IsFifo os workers_str queue_size_str =
      ops-IsFifo os _ (record { bounded = omega arith; in_order = refl })
