-- ===== src/Decay/Histories.antt =====
-- Histories of src/items/decay/decay.cpp: calls of the game and checks of the scheduler in any order,
-- with whatever the game calls while an item decays, and what the single operations keep.
use forgotten_land.Base.{zero, suc, ℕ, ◌≡◌, List, [], ◌∷◌, Option, none, some}
use forgotten_land.Scheduling.Queue.{PriorityQueue}
use forgotten_land.Scheduling.Scheduler.{fire}
use forgotten_land.Decay.Items.{Item}
use forgotten_land.Decay.Entries.{take_due}
use forgotten_land.Decay.Timetable.{
  Call, Game, Decaying, set_item, release_item, game_release, game_acquire, stop_decay, schedule,
  call, check_again, check_decay, game_stop_decay, game_start_decay, cleanup, first_timestamp,
}

pub data Op : Type 0 where
  start_at stop_at : ℕ → ℕ → Op
  round_at check_at : ℕ → Op
  change_item : ℕ → Item → Op
  acquire_item give_item : ℕ → Op
  clean : Op

-- Whether a check is under way: its time, and where its iterator stands.
pub data Context : Type 0 where
  outside : Context
  checking : ℕ → Option ℕ → Context

module _ (queue : PriorityQueue) where
  -- A round of the scheduler, which hands its task to the dispatcher.
  unfoldable pub round : ℕ → Decaying queue → Decaying queue
  round now d =
      let (task, scheduler) = fire queue now d.scheduler in
      record d {
        scheduler = scheduler;
        dispatched = elim task [ none ↦ d.dispatched | some t ↦ suc d.dispatched ];
      }

  -- What the single operations keep. `pending` are the items that a check has taken off the map and not
  -- yet released.
  pub record Kept (P : Context → List ℕ → Decaying queue → Type 0) : Type 0 where
    pub keep_stop :
        (c : Context) (now i timestamp : ℕ) (pending : List ℕ) (d : Decaying queue)
        → P c pending d
        → P c pending (stop_decay queue now i timestamp d)
    pub keep_schedule :
        (c : Context) (g : Game) (now i duration : ℕ) (pending : List ℕ) (d : Decaying queue)
        → P c pending d
        → P c pending (schedule queue g now i duration d)
    pub keep_change :
        (c : Context) (i : ℕ) (item : Item) (pending : List ℕ) (d : Decaying queue)
        → item.reference_counter ≡ (d.items i).reference_counter
        → P c pending d
        → P c pending (set_item queue i item d)
    pub keep_release :
        (c : Context) (i : ℕ) (pending : List ℕ) (d : Decaying queue)
        → P c (i ∷ pending) d
        → P c pending (release_item queue i d)
    pub keep_game_release :
        (c : Context) (i : ℕ) (pending : List ℕ) (d : Decaying queue)
        → P c pending d
        → P c pending (game_release queue i d)
    pub keep_game_acquire :
        (c : Context) (i : ℕ) (pending : List ℕ) (d : Decaying queue)
        → P c pending d
        → P c pending (game_acquire queue i d)
    pub keep_due :
        (now n : ℕ) (d : Decaying queue)
        → P Context.outside [] d
        → P
            (Context.checking now (first_timestamp queue (take_due now d.decay_map).1))
            (take_due now d.decay_map).0
            (record d { decay_map = (take_due now d.decay_map).1; dispatched = n })
    pub keep_again :
        (g : Game) (now : ℕ) (it : Option ℕ) (d : Decaying queue)
        → P (Context.checking now it) [] d
        → P Context.outside [] (check_again queue g now it d)
    pub keep_cleanup :
        (d : Decaying queue) → P Context.outside [] d → P Context.outside [] (cleanup queue d)
    pub keep_round :
        (now : ℕ) (d : Decaying queue) → P Context.outside [] d → P Context.outside [] (round now d)

  -- A check runs when the scheduler has handed one over. `none` once a check has followed an iterator to an entry that was erased.
  unfoldable pub step : Game → Op → Decaying queue → Option (Decaying queue)
  step g (Op.start_at now i) d = game_start_decay queue g now i d
  step g (Op.stop_at now i) d = some (game_stop_decay queue now i d)
  step g (Op.round_at now) d = some (round now d)
  step g (Op.check_at now) d = elim d.dispatched [
    | zero ↦ some d
    | suc n ↦ check_decay queue g now (record d { dispatched = n })
  ]
  step g (Op.change_item i item) d = call queue g 0 none (Call.change i item) d
  step g (Op.acquire_item i) d = some (game_acquire queue i d)
  step g (Op.give_item i) d = some (game_release queue i d)
  step g Op.clean d = some (cleanup queue d)

  unfoldable pub run : Game → List Op → Decaying queue → Option (Decaying queue)
  run g [] d = some d
  run g (op ∷ ops) d = elim (step g op d) [ none ↦ none | some d' ↦ run g ops d' ]
