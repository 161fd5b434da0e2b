-- ===== src/Scheduling/Queue.antt =====
-- `SchedulerTask` of src/game/scheduling/scheduler.h, and what the scheduler relies on of
-- `std::priority_queue`: no element comes before the one on top in the order of the comparator,
-- here `TaskComparator`. Which of several that expire at the same time it is, is left open.
use forgotten_land.Base.{
  ℕ, suc, ◌≤◌, ◌≡◌, ◌⊎◌, ◌↔◌, Bool, false, ltb, arith, List, [], ◌∷◌, Option, none, some, length,
}

-- `action` names the closure; `expiration` is the time point of `getCycle`.
pub record SchedulerTask : Type 0 where
  pub event_id : ℕ
  pub expiration : ℕ
  pub action : ℕ

abbrev pub In : SchedulerTask → List SchedulerTask → Type 0
In t [] = ⊥
In t (u ∷ us) = (t ≡ u) ⊎ In t us

-- `TaskComparator`: whether `rhs` comes before `lhs`.
unfoldable pub task_comparator : SchedulerTask → SchedulerTask → Bool
task_comparator lhs rhs = ltb rhs.expiration lhs.expiration

pub record PriorityQueue : Type 1 where
  pub Queue : Type 0
  pub empty : Queue
  pub push : SchedulerTask → Queue → Queue
  pub top : Queue → Option SchedulerTask
  pub pop : Queue → Queue
  pub contents : Queue → List SchedulerTask
  pub contents-empty : contents empty ≡ []
  pub contents-push :
      (t u : SchedulerTask) (q : Queue) → In u (contents (push t q)) ↔ ((u ≡ t) ⊎ In u (contents q))
  pub length-push :
      (t : SchedulerTask) (q : Queue) → length (contents (push t q)) ≡ suc (length (contents q))
  pub top_none : (q : Queue) → top q ≡ none → contents q ≡ []
  pub top_least :
      (q : Queue) (t u : SchedulerTask)
      → top q ≡ some t
      → In u (contents q)
      → task_comparator t u ≡ false
  pub contents-pop :
      (q : Queue) (t u : SchedulerTask)
      → top q ≡ some t
      → In u (contents q) ↔ ((u ≡ t) ⊎ In u (contents (pop q)))
  pub length-pop :
      (q : Queue) (t : SchedulerTask)
      → top q ≡ some t
      → length (contents q) ≡ suc (length (contents (pop q)))

-- So the task on top expires first.
pub top-le :
    (queue : PriorityQueue) (q : queue.Queue) (t u : SchedulerTask)
    → queue.top q ≡ some t
    → In u (queue.contents q)
    → t.expiration ≤ u.expiration
unfolding task_comparator
top-le queue q t u e h = ground (arith, queue.top_least q t u e h)
