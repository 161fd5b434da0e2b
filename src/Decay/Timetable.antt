-- ===== src/Decay/Timetable.antt =====
-- `Decay` of src/items/decay/decay.cpp. Items are their numbers; `Decaying` has the map, the
-- event, the items, those that decay gave to the game to release, the scheduler, and how many
-- checks it has handed to the dispatcher that have not run. An operation takes place at one time.
use forgotten_land.Base.{
  ℕ, ◌+◌, ◌-◌, ◌^◌, max, not, ◌&&◌, ◌||◌, List, [], ◌∷◌, ◌++◌, Option, none, some, ltb, ◌==◌,
  if◌then◌else◌, length,
}
use forgotten_land.Base.Ids.{contains, update}
use forgotten_land.Base.Words.{u32, u64, is_negative, not_below_zero}
use forgotten_land.Scheduling.Queue.{PriorityQueue}
use forgotten_land.Scheduling.Scheduler.{Scheduler, add_event, stop_event, create_scheduler_task}
use forgotten_land.Decay.Items.{
  Item, ItemType, ItemDecayState, has_attribute, get_int_attr, get_decaying, is_decaying,
  is_stopping, get_duration, set_duration, set_decaying, set_duration_timestamp, can_decay,
  increment_reference_counter, decrement_reference_counter,
}
use forgotten_land.Decay.Entries.{
  Entry, find_entry, erase_entry, put_entry, push_back, swap_out, take_due,
}

-- SCHEDULER_MINTICKS
abbrev pub min_ticks : ℕ
min_ticks = 50

-- What the rest of the game does while an item decays: it calls the decay of other items, changes
-- items, but for their reference counter, takes references to items and gives items to release.
pub data Call : Type 0 where
  start stop : ℕ → ℕ → Call
  change : ℕ → Item → Call
  acquire release : ℕ → Call

-- What `Game::internalDecayItem` calls goes with the item and with the items as they are by then.
-- `check_action` names the closure of `Decay::checkDecay`.
pub record Game : Type 0 where
  pub types : ℕ → ItemType
  pub internal_decay_item : ℕ → (ℕ → Item) → List Call
  pub check_action : ℕ

-- `ToReleaseItems` is two lists, of the items that decay gave to it and of those that the rest of the
-- game gave. `game_references` counts, in 32 bits, the references that the game has taken since the
-- start less those that it has given back: no code keeps this number.
module _ (queue : PriorityQueue) where
  pub record Decaying : Type 0 where
    pub decay_map : List Entry
    pub event_id : ℕ
    pub items : ℕ → Item
    pub to_release : List ℕ
    pub game_releases : List ℕ
    pub game_references : ℕ → ℕ
    pub scheduler : Scheduler queue
    pub dispatched : ℕ

  abbrev pub set_item : ℕ → Item → Decaying → Decaying
  set_item i item d = record d { items = update d.items i item }

  -- `Game::ReleaseItem`
  unfoldable pub release_item : ℕ → Decaying → Decaying
  release_item i d = record d { to_release = d.to_release ++ i ∷ [] }

  -- The same, and `incrementReferenceCounter`, where the rest of the game calls them.
  unfoldable pub game_release : ℕ → Decaying → Decaying
  game_release i d = record d { game_releases = d.game_releases ++ i ∷ [] }

  unfoldable pub game_acquire : ℕ → Decaying → Decaying
  game_acquire i d = record (set_item i (increment_reference_counter (d.items i)) d) {
    game_references = update d.game_references i (u32 (d.game_references i + 1));
  }

  -- In `stopDecay`, the changes of the item that was found.
  unfoldable pub let_go : ℕ → ℕ → Decaying → Decaying
  unfolding release_item
  let_go now i d =
      let item = d.items i in
      let kept =
        if has_attribute item.duration then set_duration (get_duration now item) item else item in
      release_item i (set_item i (record kept { decay_state = none }) d)

  unfoldable pub stop_decay : ℕ → ℕ → ℕ → Decaying → Decaying
  stop_decay now i timestamp d = elim (find_entry timestamp d.decay_map) [
    | none ↦ d
    | some decay_items ↦
        let gone = let_go now i d in
        if not (contains i decay_items)
        then d
        else if length decay_items == 1
        then record gone { decay_map = erase_entry timestamp gone.decay_map }
        else record gone { decay_map = put_entry timestamp (swap_out i decay_items) gone.decay_map }
  ]

  -- `eventId = g_scheduler.addEvent(...)`
  unfoldable pub add_check : Game → ℕ → ℕ → Decaying → Decaying
  add_check g now delay d =
      let (id, scheduler) =
        add_event queue (create_scheduler_task now (max min_ticks delay) g.check_action)
          d.scheduler in
      record d { event_id = id; scheduler = scheduler }

  unfoldable pub stop_check : Decaying → Decaying
  stop_check d = record d { scheduler = (stop_event queue d.event_id d.scheduler).1 }

  -- The parts of `startDecay`: the item is taken from the map, an event is set where it decays
  -- before all others, and it is put in the map.
  unfoldable pub forget : ℕ → ℕ → Decaying → Decaying
  forget now i d = elim (d.items i).duration_timestamp [
    | none ↦ d
    | some timestamp ↦ stop_decay now i timestamp d
  ]

  unfoldable pub set_check : Game → ℕ → ℕ → Decaying → Decaying
  set_check g now duration d = elim d.decay_map [
    | [] ↦ add_check g now duration d
    | e ∷ es ↦
        if ltb (now + duration) e.timestamp then add_check g now duration (stop_check d) else d
  ]

  unfoldable pub schedule : Game → ℕ → ℕ → ℕ → Decaying → Decaying
  schedule g now i duration d =
      let d' = set_check g now duration d in
      let item =
        set_duration_timestamp (now + duration)
          (set_decaying ItemDecayState.decaying_true (increment_reference_counter (d'.items i))) in
      record (set_item i item d') { decay_map = push_back (now + duration) i d'.decay_map }

  unfoldable pub start_decay : Game → ℕ → ℕ → ℕ → Decaying → Decaying
  start_decay g now i duration d = schedule g now i duration (forget now i d)

  -- The iterator of `checkDecay` stands at the entry of a time stamp: `none` once it is erased.
  unfoldable pub watch : Option ℕ → Decaying → Option Decaying
  watch none d = some d
  watch (some k) d = elim (find_entry k d.decay_map) [ none ↦ none | some decay_items ↦ some d ]

  unfoldable pub call : Game → ℕ → Option ℕ → Call → Decaying → Option Decaying
  call g now it (Call.start i duration) d = elim (watch it (forget now i d)) [
    | none ↦ none
    | some d' ↦ some (schedule g now i duration d')
  ]
  call g now it (Call.stop i timestamp) d = watch it (stop_decay now i timestamp d)
  call g now it (Call.change i item) d =
      some (set_item i (record item { reference_counter = (d.items i).reference_counter }) d)
  call g now it (Call.acquire i) d = some (game_acquire i d)
  call g now it (Call.release i) d = some (game_release i d)

  unfoldable pub calls : Game → ℕ → Option ℕ → List Call → Decaying → Option Decaying
  calls g now it [] d = some d
  calls g now it (c ∷ cs) d = elim (call g now it c d) [
    | none ↦ none
    | some d' ↦ calls g now it cs d'
  ]

  -- The body of the loop of `checkDecay` over the items, and the loop.
  unfoldable pub decay_item : Game → ℕ → Option ℕ → ℕ → Decaying → Option Decaying
  decay_item g now it i d =
      let item = d.items i in
      if not (can_decay g.types item)
      then some (
          set_item i
            (set_decaying ItemDecayState.decaying_false (set_duration (get_duration now item) item))
            d)
      else let waiting = set_item i (set_decaying ItemDecayState.decaying_false item) d in
        calls g now it (g.internal_decay_item i waiting.items) waiting

  unfoldable pub decay_items_of : Game → ℕ → Option ℕ → List ℕ → Decaying → Option Decaying
  decay_items_of g now it [] d = some d
  decay_items_of g now it (i ∷ is) d = elim (decay_item g now it i d) [
    | none ↦ none
    | some d' ↦ decay_items_of g now it is (release_item i d')
  ]

  abbrev pub first_timestamp : List Entry → Option ℕ
  first_timestamp [] = none
  first_timestamp (e ∷ es) = some e.timestamp

  unfoldable pub check_again : Game → ℕ → Option ℕ → Decaying → Decaying
  check_again g now none d = d
  check_again g now (some k) d = add_check g now (not_below_zero (k + (2 ^ 64 - u64 now))) d

  unfoldable pub check_decay : Game → ℕ → Decaying → Option Decaying
  check_decay g now d =
      let (temp_items, rest) = take_due now d.decay_map in
      let it = first_timestamp rest in
      elim (decay_items_of g now it temp_items (record d { decay_map = rest })) [
        | none ↦ none
        | some d' ↦ some (check_again g now it d')
      ]

  -- `startDecay`, `stopDecay` and the release of items in `Game`.
  unfoldable pub game_stop_decay : ℕ → ℕ → Decaying → Decaying
  game_stop_decay now i d =
      let item = d.items i in
      if not (has_attribute item.decay_state) then d else elim item.duration_timestamp [
        | none ↦ set_item i (record item { decay_state = none }) d
        | some timestamp ↦
            let d' = stop_decay now i timestamp d in
            set_item i (record (d'.items i) { duration_timestamp = none }) d'
      ]

  unfoldable pub game_start_decay : Game → ℕ → ℕ → Decaying → Option Decaying
  game_start_decay g now i d =
      let item = d.items i in
      let decaying = is_decaying (get_decaying item) in
      let able = can_decay g.types item in
      let duration = u32 (get_int_attr item.duration) in
      if is_stopping (get_decaying item) || (not able && decaying)
      then some (game_stop_decay now i d)
      else if not able || decaying
      then some d
      else if not (is_negative duration) && ltb 0 duration
      then some (start_decay g now i duration d)
      else calls g now none (g.internal_decay_item i d.items) d

  unfoldable pub decrement_all : List ℕ → Decaying → Decaying
  decrement_all [] d = d
  decrement_all (i ∷ is) d =
      decrement_all is (set_item i (decrement_reference_counter (d.items i)) d)

  unfoldable pub give_back : List ℕ → Decaying → Decaying
  give_back [] d = d
  give_back (i ∷ is) d =
      give_back is (record (set_item i (decrement_reference_counter (d.items i)) d) {
        game_references = update d.game_references i (u32 (d.game_references i + (2 ^ 32 - 1)));
      })

  -- The loop over items of `Game::cleanup`. An item whose counter is 0 is deleted.
  unfoldable pub cleanup : Decaying → Decaying
  cleanup d =
      let d' = decrement_all d.to_release d in
      record (give_back d.game_releases (record d' { to_release = [] })) { game_releases = [] }
