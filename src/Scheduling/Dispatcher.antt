-- ===== src/Scheduling/Dispatcher.antt =====
-- `Dispatcher` of src/game/scheduling/tasks.cpp: the list of tasks that the game's thread runs.
-- Adding and taking are done under the lock; a task runs outside of it. Time point 0 is
-- `SYSTEM_TIME_ZERO`, which never expires.
pub mod Order
use forgotten_land.Base.{
  ℕ, ◌+◌, Bool, true, not, ◌&&◌, List, [], ◌∷◌, ◌++◌, Option, none, some, ltb, ◌==◌, if◌then◌else◌,
}
use forgotten_land.Base.Words.{u64}
use forgotten_land.Scheduling.Queue.{SchedulerTask}
use forgotten_land.Scheduling.Scheduler.{ThreadState, is_running}

pub record Task : Type 0 where
  pub expiration : ℕ
  pub action : ℕ

-- The two overloads of `createTask`.
unfoldable pub create_task : ℕ → Task
create_task action = record { expiration = 0; action = action }

unfoldable pub create_task_expiring : ℕ → ℕ → ℕ → Task
create_task_expiring now ms action = record { expiration = now + ms; action = action }

unfoldable pub has_expired : ℕ → Task → Bool
has_expired now t = not (t.expiration == 0) && ltb t.expiration now

pub record Dispatcher : Type 0 where
  pub state : ThreadState
  pub task_list : List Task
  pub dispatcher_cycle : ℕ

unfoldable pub add_task : Task → Bool → Dispatcher → Dispatcher
add_task t push_front d =
    if is_running d.state
    then record d { task_list = if push_front then t ∷ d.task_list else d.task_list ++ t ∷ [] }
    else d

-- What `threadMain` of the scheduler does with an event that has fired: `setDontExpire`, and the
-- task goes to the front.
unfoldable pub hand_over : SchedulerTask → Dispatcher → Dispatcher
hand_over t = add_task (create_task t.action) true

-- One round of `threadMain` that finds a task: the action that is run, if any.
unfoldable pub run_task : ℕ → Dispatcher → Option Task × Dispatcher
unfolding has_expired
run_task now d = elim d.task_list [
  | [] ↦ (none, d)
  | t ∷ rest ↦
      let d' : Dispatcher = record d { task_list = rest } in
      if has_expired now t
      then (none, d')
      else (some t, record d' { dispatcher_cycle = u64 (d.dispatcher_cycle + 1) })
]
