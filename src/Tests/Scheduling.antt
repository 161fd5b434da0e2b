-- ===== src/Tests/Scheduling.antt =====
-- Runs of the scheduler and of the dispatcher on concrete events.
use forgotten_land.Base.{◌≤◌, ◌≡◌, refl, ap, inl, inr, List, [], ◌∷◌, arith}
use forgotten_land.Base.Ids.{contains, insert, erase, occurrences}
use forgotten_land.Scheduling.Queue.{SchedulerTask, In}
use forgotten_land.Scheduling.ListQueue.{list_queue, least, others, list_top, list_pop}
use forgotten_land.Scheduling.Scheduler.{
  ThreadState, Scheduler, create_scheduler_task, next_event_id, add_event, stop_event, fire,
  shutdown,
}
use forgotten_land.Scheduling.Scheduler.Events.{
  Op, step, run, added, added_by, runs_of, add_option, start, run-start_le, run-stop_event,
}
use forgotten_land.Scheduling.Scheduler.Progress.{
  Idle, HandedOver, drain, drain-Idle, drain-HandedOver, drain-Runs,
}
use forgotten_land.Scheduling.Dispatcher.{Task, Dispatcher}
use forgotten_land.Scheduling.Dispatcher.Order.{rounds, add_all, alive, rounds-add_all}

program : Unit {0}
unfolding least others list_top list_pop contains insert erase create_scheduler_task next_event_id
    add_event stop_event fire shutdown step run added added_by runs_of add_option occurrences start
    drain
program = tt

abbrev before : List (Op list_queue)
before = Op.add (create_scheduler_task 0 20 7) ∷ Op.add (create_scheduler_task 0 10 8) ∷ []

abbrev later : List (Op list_queue)
later = Op.fire_at 30 ∷ Op.fire_at 30 ∷ []

run-stop_event_example :
    runs_of 1
      (run list_queue later
        (stop_event list_queue 1 (run list_queue before (start list_queue)).1).1).0
    ≡ 0
run-stop_event_example =
    run-stop_event list_queue 1 before later (omega arith) (unfold program in refl)

other_event_runs :
    runs_of 2
      (run list_queue later
        (stop_event list_queue 1 (run list_queue before (start list_queue)).1).1).0
    ≡ 1
other_event_runs = unfold program in refl

run-start_le_example :
    runs_of 2 (run list_queue (Op.add (create_scheduler_task 0 20 7) ∷ later) (start list_queue)).0
    ≤ added list_queue 2 (Op.add (create_scheduler_task 0 20 7) ∷ later) (start list_queue)
run-start_le_example = run-start_le list_queue 2 (Op.add (create_scheduler_task 0 20 7) ∷ later)

abbrev late : SchedulerTask
late = record { event_id = 1; expiration = 20; action = 7 }

abbrev soon : SchedulerTask
soon = record { event_id = 2; expiration = 10; action = 8 }

abbrev armed : Scheduler list_queue
armed = record {
  state = ThreadState.running;
  last_event_id = 2;
  event_list = late ∷ soon ∷ [];
  event_ids = 1 ∷ 2 ∷ [];
}

armed_order : (drain list_queue 2 30 armed).0 ≡ soon ∷ late ∷ []
armed_order = unfold program in refl

drain-Idle_example : Idle list_queue 15 (drain list_queue 2 15 armed).1
drain-Idle_example = drain-Idle list_queue 2 15 armed (omega arith)

drain-HandedOver_example :
    HandedOver 30 10 armed.event_ids
      (drain list_queue 2 30 armed).0
      (drain list_queue 2 30 armed).1.event_ids
drain-HandedOver_example = drain-HandedOver list_queue 2 30 10 armed (λ u h. elim h [
  | inl e ↦ rw e (omega arith)
  | inr (inl e) ↦ rw e (omega arith)
  | inr (inr m) ↦ absurd m
])

drain-Runs_example : In soon (drain list_queue 2 15 armed).0
drain-Runs_example =
    drain-Runs list_queue 2 15 armed soon (omega arith) (inr (inl refl)) (omega arith)
      (unfold program in refl)
      (λ v h same. elim h [
        | inl e ↦ absurd (omega (arith, same, ap (λ (w : SchedulerTask). w.event_id) e))
        | inr (inl e) ↦ e
        | inr (inr m) ↦ absurd m
      ])

abbrev waiting_task : Task
waiting_task = record { expiration = 0; action = 4 }

abbrev expired_task : Task
expired_task = record { expiration = 50; action = 5 }

abbrev idle_dispatcher : Dispatcher
idle_dispatcher = record {
  state = ThreadState.running;
  task_list = waiting_task ∷ [];
  dispatcher_cycle = 0;
}

rounds-add_all_example :
    rounds 3 60 (add_all (expired_task ∷ waiting_task ∷ []) idle_dispatcher)
    ≡ alive 60 (waiting_task ∷ expired_task ∷ waiting_task ∷ [])
rounds-add_all_example = rounds-add_all 60 (expired_task ∷ waiting_task ∷ []) idle_dispatcher refl
