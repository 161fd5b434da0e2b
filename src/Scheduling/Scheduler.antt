-- ===== src/Scheduling/Scheduler.antt =====
-- `Scheduler` of src/game/scheduling/scheduler.cpp. Each operation holds the lock, so a run is a
-- sequence of whole operations. The set of active events is a list with no order; signals only
-- wake the thread.
pub mod Events
pub mod Progress
use forgotten_land.Base.{
  ℕ, zero, suc, ◌+◌, Bool, true, false, ◌&&◌, ◌||◌, List, [], ◌∷◌, Option, none, some, leb, ◌==◌,
  if◌then◌else◌,
}
use forgotten_land.Base.Ids.{contains, insert, erase}
use forgotten_land.Base.Words.{u32}
use forgotten_land.Scheduling.Queue.{SchedulerTask, PriorityQueue}

pub data ThreadState : Type 0 where
  running closing terminated : ThreadState

abbrev pub is_running : ThreadState → Bool
is_running ThreadState.running = true
is_running _ = false

-- `createSchedulerTask`
unfoldable pub create_scheduler_task : ℕ → ℕ → ℕ → SchedulerTask
create_scheduler_task now delay action = record {
  event_id = 0;
  expiration = now + delay;
  action = action;
}

-- `if (++lastEventId == 0) lastEventId = 1`
unfoldable pub next_event_id : ℕ → ℕ
next_event_id last = let id = u32 (last + 1) in if id == 0 then 1 else id

module _ (queue : PriorityQueue) where
  open queue use {Queue, empty, push, top, pop}

  pub record Scheduler : Type 0 where
    pub state : ThreadState
    pub last_event_id : ℕ
    pub event_list : Queue
    pub event_ids : List ℕ

  -- The identifier is 0 where the scheduler does not run; the task is deleted then.
  unfoldable pub add_event : SchedulerTask → Scheduler → ℕ × Scheduler
  add_event task s =
      let fresh = task.event_id == 0 in
      let next = next_event_id s.last_event_id in
      let id = if fresh then next else task.event_id in
      if is_running s.state
      then (
        id,
        record s {
          last_event_id = if fresh then next else s.last_event_id;
          event_list = push (record task { event_id = id }) s.event_list;
          event_ids = insert id s.event_ids;
        },
      )
      else (0, s)

  unfoldable pub stop_event : ℕ → Scheduler → Bool × Scheduler
  stop_event id s =
      if id == 0
      then (false, s)
      else if contains id s.event_ids
      then (true, record s { event_ids = erase id s.event_ids })
      else (false, s)

  -- One round of `threadMain` at time `now`: if the wait for the event on top has timed out, it is
  -- taken off, and handed to the dispatcher if it was not stopped.
  unfoldable pub fire : ℕ → Scheduler → Option SchedulerTask × Scheduler
  fire now s = elim (top s.event_list) [
    | none ↦ (none, s)
    | some task ↦
        let popped : Scheduler = record s { event_list = pop s.event_list } in
        if leb task.expiration now
        then (if contains task.event_id s.event_ids
            then (some task, record popped { event_ids = erase task.event_id s.event_ids })
            else (none, popped))
        else (none, s)
  ]

  unfoldable pub shutdown : Scheduler → Scheduler
  shutdown s = record s { state = ThreadState.terminated; event_list = empty; event_ids = [] }
