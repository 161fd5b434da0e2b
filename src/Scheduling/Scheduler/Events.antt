-- ===== src/Scheduling/Scheduler/Events.antt =====
-- Histories of the scheduler of src/game/scheduling/scheduler.cpp: the calls of other threads and
-- the rounds of its own, in the order in which they take the lock.
use forgotten_land.Base.{
  ℕ, suc, ◌+◌, ◌≤◌, ◌<◌, ◌≡◌, refl, true, List, [], ◌∷◌, Option, none, some, ◌⊎◌, inl, inr, leb,
  ◌==◌, Option-cases, Bool-cases, if◌then◌else◌, arith,
}
use forgotten_land.Base.Ids.{
  contains, erase, occurrences, occurrences-contains, occurrences-erase_found, occurrences-erase,
  occurrences-insert, occurrences-insert_once,
}
use forgotten_land.Scheduling.Queue.{SchedulerTask, PriorityQueue}
use forgotten_land.Scheduling.Scheduler.{
  Scheduler, add_event, stop_event, fire, next_event_id, ThreadState,
}

unfoldable pub runs_of : ℕ → List SchedulerTask → ℕ
runs_of id [] = 0
runs_of id (t ∷ ts) = let rest = runs_of id ts in if t.event_id == id then suc rest else rest

unfoldable pub add_option : Option SchedulerTask → List SchedulerTask → List SchedulerTask
add_option none ts = ts
add_option (some t) ts = t ∷ ts

runs_of-add_option :
    (id : ℕ) (o : Option SchedulerTask) (ts : List SchedulerTask)
    → runs_of id (add_option o ts) ≡ runs_of id (add_option o []) + runs_of id ts
unfolding add_option runs_of
runs_of-add_option id none ts = omega arith
runs_of-add_option id (some t) ts = ground arith

module _ (queue : PriorityQueue) where
  pub data Op : Type 0 where
    add : SchedulerTask → Op
    stop fire_at : ℕ → Op

  -- What one call hands to the dispatcher, and the state after it.
  unfoldable pub step : Op → Scheduler queue → Option SchedulerTask × Scheduler queue
  step (Op.add t) s = (none, (add_event queue t s).1)
  step (Op.stop id) s = (none, (stop_event queue id s).1)
  step (Op.fire_at now) s = fire queue now s

  unfoldable pub run : List Op → Scheduler queue → List SchedulerTask × Scheduler queue
  run [] s = ([], s)
  run (op ∷ ops) s = let (o, s') = step op s in let (ts, s'') = run ops s' in (add_option o ts, s'')

  -- How often a history gives an identifier to an event.
  unfoldable pub added_by : ℕ → Op → Scheduler queue → ℕ
  added_by id (Op.add t) s = if (add_event queue t s).0 == id then 1 else 0
  added_by id _ s = 0

  unfoldable pub added : ℕ → List Op → Scheduler queue → ℕ
  added id [] s = 0
  added id (op ∷ ops) s = added_by id op s + added id ops (step op s).1

  -- A round of the thread hands over nothing, or the task on top, whose identifier it erases.
  fire-cases :
      (now : ℕ) (s : Scheduler queue)
      → (((fire queue now s).0 ≡ none) × ((fire queue now s).1.event_ids ≡ s.event_ids))
        ⊎ ((t : SchedulerTask) × ((fire queue now s).0 ≡ some t)
            × (contains t.event_id s.event_ids ≡ true)
            × ((fire queue now s).1.event_ids ≡ erase t.event_id s.event_ids))
  unfolding fire
  fire-cases now s = elim (Option-cases (queue.top s.event_list)) [
    | inl e ↦ inl (rw (fire, e) refl, rw (fire, e) refl)
    | inr (t, e) ↦ elim (Bool-cases (leb t.expiration now)) [
      | inl due ↦ elim (Bool-cases (contains t.event_id s.event_ids)) [
        | inl active ↦
            inr (t, rw (fire, e, due, active) refl, active, rw (fire, e, due, active) refl)
        | inr stopped ↦ inl (rw (fire, e, due, stopped) refl, rw (fire, e, due, stopped) refl)
      ]
      | inr early ↦ inl (rw (fire, e, early) refl, rw (fire, e, early) refl)
    ]
  ]

  step-occurrences :
      (id : ℕ) (op : Op) (s : Scheduler queue)
      → runs_of id (add_option (step op s).0 []) + occurrences id (step op s).1.event_ids
        ≤ occurrences id s.event_ids + added_by id op s
  unfolding step added_by runs_of add_option add_event stop_event fire
  step-occurrences id (Op.add t) s = ground (
    arith,
    occurrences-insert id (if t.event_id == 0 then next_event_id s.last_event_id else t.event_id)
        s.event_ids,
  )
  step-occurrences id (Op.stop j) s = ground (arith, occurrences-erase id j s.event_ids)
  step-occurrences id (Op.fire_at now) s = elim (fire-cases now s) [
    | inl (nothing, same) ↦ rw nothing (rw same (omega arith))
    | inr (t, handed, active, erased) ↦
        rw handed
          (rw erased (ground (arith, occurrences-erase_found id t.event_id s.event_ids active)))
  ]

  step-Once :
      (id : ℕ) (op : Op) (s : Scheduler queue)
      → occurrences id s.event_ids ≤ 1
      → occurrences id (step op s).1.event_ids ≤ 1
  unfolding step add_event stop_event fire
  step-Once id (Op.add t) s h = ground (
    arith,
    occurrences-insert_once id
        (if t.event_id == 0 then next_event_id s.last_event_id else t.event_id) s.event_ids h,
  )
  step-Once id (Op.stop j) s h = ground (arith, occurrences-erase id j s.event_ids)
  step-Once id (Op.fire_at now) s h = elim (fire-cases now s) [
    | inl (nothing, same) ↦ rw same h
    | inr (t, handed, active, erased) ↦
        rw erased (omega (arith, occurrences-erase id t.event_id s.event_ids))
  ]

  run-occurrences :
      (id : ℕ) (ops : List Op) (s : Scheduler queue)
      → runs_of id (run ops s).0 + occurrences id (run ops s).1.event_ids
        ≤ occurrences id s.event_ids + added id ops s
  unfolding run added runs_of
  run-occurrences id [] s = omega arith
  run-occurrences id (op ∷ ops) s = omega (
    arith,
    runs_of-add_option id (step op s).0 (run ops (step op s).1).0,
    step-occurrences id op s,
    run-occurrences id ops (step op s).1,
  )

  run-Once :
      (id : ℕ) (ops : List Op) (s : Scheduler queue)
      → occurrences id s.event_ids ≤ 1
      → occurrences id (run ops s).1.event_ids ≤ 1
  unfolding run
  run-Once id [] s h = h
  run-Once id (op ∷ ops) s h = run-Once id ops (step op s).1 (step-Once id op s h)

  -- The scheduler when its thread starts.
  unfoldable pub start : Scheduler queue
  start = record {
    state = ThreadState.running;
    last_event_id = 0;
    event_list = queue.empty;
    event_ids = [];
  }

  -- In every history from the start, events with an identifier are run at most as often as
  -- the identifier was given to one.
  pub run-start_le : (id : ℕ) (ops : List Op) → runs_of id (run ops start).0 ≤ added id ops start
  unfolding start occurrences
  run-start_le id ops = omega (arith, run-occurrences id ops start)

  stop_event-occurrences :
      (id : ℕ) (s : Scheduler queue)
      → 0 < id
      → occurrences id s.event_ids ≤ 1
      → occurrences id (stop_event queue id s).1.event_ids ≡ 0
  unfolding stop_event
  stop_event-occurrences id s positive once = elim (Bool-cases (contains id s.event_ids)) [
    | inl active ↦ ground (arith, occurrences-erase_found id id s.event_ids active)
    | inr gone ↦ ground (arith, occurrences-contains id s.event_ids gone)
  ]

  -- Whatever happened before from the start on: once an event is stopped, none with its
  -- identifier, which is not 0, is run later, unless the identifier is given again.
  pub run-stop_event :
      (id : ℕ) (before later : List Op)
      → 0 < id
      → added id later (stop_event queue id (run before start).1).1 ≡ 0
      → runs_of id (run later (stop_event queue id (run before start).1).1).0 ≡ 0
  unfolding start occurrences
  run-stop_event id before later positive fresh = omega (
    arith,
    run-occurrences id later (stop_event queue id (run before start).1).1,
    stop_event-occurrences id (run before start).1 positive
        (run-Once id before start (omega arith)),
  )
