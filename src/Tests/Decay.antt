-- ===== src/Tests/Decay.antt =====
-- Items that decay at their time, one that is taken out before, and one whose end takes others along.
use forgotten_land.Base.{
  ℕ, ◌≤◌, ◌⊎◌, ◌+◌, ◌*◌, ◌≡◌, refl, false, List, [], ◌∷◌, ◌++◌, map, Option, none, some, ◌==◌,
  if◌then◌else◌, leb, arith,
}
use forgotten_land.Base.Ids.{contains, insert, erase, occurrences}
use forgotten_land.Base.Words.{u32}
use forgotten_land.Scheduling.ListQueue.{list_queue, list_top, list_pop, least, others}
use forgotten_land.Scheduling.Scheduler.{
  ThreadState, create_scheduler_task, next_event_id, add_event, stop_event, fire,
}
use forgotten_land.Decay.Items.{
  Item, get_duration, set_duration, set_decaying, set_duration_timestamp, can_decay,
  increment_reference_counter, decrement_reference_counter,
}
use forgotten_land.Decay.Entries.{
  find_entry, erase_entry, put_entry, push_back, swap_out, last_of, without_last, take_due,
}
use forgotten_land.Decay.Timetable.{
  Call, Game, Decaying, release_item, let_go, stop_decay, add_check, stop_check, forget, set_check,
  schedule, start_decay, watch, call, calls, decay_item, decay_items_of, check_again, check_decay,
  game_stop_decay, game_start_decay, decrement_all, cleanup, give_back, game_acquire, game_release,
}
use forgotten_land.Decay.Histories.{Op, round, step, run}
use forgotten_land.Decay.Places.{items_of}
use forgotten_land.Decay.Order.{IsOrdered}
use forgotten_land.Decay.References.{run-reference_counter}
use forgotten_land.Decay.Ascending.{run-IsOrdered}
use forgotten_land.Decay.Pending.{Covers}
use forgotten_land.Decay.Vigil.{run-Covers}
use forgotten_land.Decay.Due.{entry_items, check_decay-due}

program : Unit {0}
unfolding contains insert erase occurrences list_top list_pop least others create_scheduler_task
    next_event_id add_event stop_event get_duration set_duration set_decaying set_duration_timestamp
    can_decay increment_reference_counter decrement_reference_counter find_entry erase_entry
    put_entry push_back swap_out last_of without_last take_due release_item let_go stop_decay
    add_check stop_check forget set_check schedule start_decay watch call calls decay_item
    decay_items_of check_again check_decay game_stop_decay game_start_decay decrement_all cleanup
    give_back game_acquire game_release step run items_of IsOrdered round fire
program = tt

-- An item with as many milliseconds left as a hundred times its number.
abbrev fresh : ℕ → Item
fresh i = record {
  id = 7;
  duration = some (100 * i);
  decay_state = none;
  duration_timestamp = none;
  unique_id = false;
  removed = false;
  reference_counter = 1;
}

abbrev calm : Game
calm = record {
  types = λ id. record { decay_to = 8; decay_time = 60 };
  internal_decay_item = λ i items. [];
  check_action = 0;
}

-- The end of item 1 takes item 2 along.
abbrev nested : Game
nested = record calm {
  internal_decay_item = λ i items. if i == 1 then Call.stop 2 300 ∷ [] else [];
}

abbrev at_rest : Decaying list_queue
at_rest = record {
  decay_map = [];
  event_id = 0;
  items = fresh;
  to_release = [];
  game_releases = [];
  game_references = λ i. 0;
  scheduler = record {
    state = ThreadState.running;
    last_event_id = 0;
    event_list = [];
    event_ids = [];
  };
  dispatched = 0;
}

-- At 100 the items 2, 1 and 3 start; 1 is due at 200, 2 at 300 and 3 at 400.
abbrev started : List Op
started = Op.start_at 100 2 ∷ Op.start_at 100 1 ∷ Op.start_at 100 3 ∷ []

abbrev checked : List Op
checked = started ++ Op.round_at 200 ∷ Op.check_at 310 ∷ []

-- The check runs at 310; then item 3 is stopped.
abbrev history : List Op
history = started ++ Op.round_at 200 ∷ Op.check_at 310 ∷ Op.stop_at 320 3 ∷ []

abbrev order_of : Option (Decaying list_queue) → List ℕ × List ℕ
order_of none = ([], [])
order_of (some d) = (items_of d.decay_map, d.to_release)

sorted_by_time : order_of (run list_queue calm started at_rest) ≡ (1 ∷ 2 ∷ 3 ∷ [], [])
sorted_by_time = unfold program in refl

released_in_order : order_of (run list_queue calm history at_rest) ≡ ([], 1 ∷ 2 ∷ 3 ∷ [])
released_in_order = unfold program in refl

-- The end of item 1 at 210 erases the entry of item 2, at which the iterator stands.
dangling : run list_queue nested (started ++ Op.round_at 200 ∷ Op.check_at 210 ∷ []) at_rest ≡ none
dangling = unfold program in refl

abbrev reached : List Op → Decaying list_queue
reached ops = elim (run list_queue calm ops at_rest) [ none ↦ at_rest | some d ↦ d ]

-- The end of an item takes it from the game, which gives its own reference to release; of item 1
-- another item, 9, comes, and the references are given back in the end.
abbrev removing : Game
removing = record calm {
  internal_decay_item =
      λ i items. if i == 1 then Call.acquire 9 ∷ Call.release 1 ∷ [] else Call.release i ∷ [];
}

abbrev removed : List Op
removed = history ++ Op.clean ∷ []

abbrev swept : Decaying list_queue
swept = elim (run list_queue removing removed at_rest) [ none ↦ at_rest | some d ↦ d ]

-- Nobody holds item 1 any more, the game still holds item 3, and item 9 twice.
counters_left :
    map (λ i. (swept.items i).reference_counter) (1 ∷ 2 ∷ 3 ∷ 9 ∷ []) ≡ 0 ∷ 0 ∷ 1 ∷ 2 ∷ []
counters_left = unfold program in refl

run-reference_counter_example :
    (swept.items 1).reference_counter
    ≡ u32 (
        (at_rest.items 1).reference_counter
        + swept.game_references 1
        + occurrences 1 (items_of swept.decay_map)
        + occurrences 1 swept.to_release)
run-reference_counter_example =
    run-reference_counter list_queue removing removed at_rest swept refl refl (λ i. refl)
      (λ i. omega arith) (unfold program in refl) 1

run-IsOrdered_example : IsOrdered (reached started).decay_map
run-IsOrdered_example =
    run-IsOrdered list_queue calm started at_rest (reached started) (unfold program in tt)
      (unfold program in refl)

check_decay-due_example :
    (d' : Decaying list_queue) × (due : List ℕ) × (check_decay list_queue calm 310 (reached started)
      ≡ some d')
    × ((k : ℕ)
        → entry_items (find_entry k d'.decay_map)
          ≡ (if leb k 310 then [] else entry_items (find_entry k (reached started).decay_map)))
    × (d'.to_release ≡ (reached started).to_release ++ due)
    × (due ++ items_of d'.decay_map ≡ items_of (reached started).decay_map)
check_decay-due_example =
    check_decay-due list_queue calm 310 (reached started)
      (run-IsOrdered list_queue calm started at_rest (reached started) (unfold program in tt)
        (unfold program in refl))
      (λ i items. tt)

-- After the check at 310 that for item 3 is on its way.
run-Covers_example :
    (1 ≤ (reached checked).dispatched) ⊎ Covers list_queue 400 (reached checked).scheduler
run-Covers_example =
    run-Covers list_queue calm checked at_rest (reached checked)
      (record { timestamp = 400; decay_items = 3 ∷ [] }) [] refl refl (unfold program in refl)
      (unfold program in refl)
