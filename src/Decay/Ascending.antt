-- ===== src/Decay/Ascending.antt =====
-- The order of the map in every history of src/items/decay/decay.cpp.
use mathlib.Core.Path.{subst}
use forgotten_land.Base.{
  ℕ, ◌+◌, ◌≡◌, sym, inl, inr, List, some, ◌==◌, length, Bool-cases, Option-cases,
}
use forgotten_land.Base.Ids.{contains}
use forgotten_land.Scheduling.Queue.{PriorityQueue}
use forgotten_land.Decay.Entries.{find_entry, swap_out}
use forgotten_land.Decay.Timetable.{
  Game, Decaying, release_item, game_release, game_acquire, let_go, stop_decay, schedule,
}
use forgotten_land.Decay.Checks.{set_check-kept, check_again-kept, cleanup-kept}
use forgotten_land.Decay.Histories.{Kept, Op, round, run}
use forgotten_land.Decay.Keeping.{run-kept_some}
use forgotten_land.Decay.Order.{
  IsOrdered, erase_entry-IsOrdered, put_entry-IsOrdered, push_back-IsOrdered, swap_out-is_empty,
  take_due-IsOrdered,
}

module _ (queue : PriorityQueue) where
  unfoldable Ordered : List ℕ → Decaying queue → Type 0
  Ordered pending d = IsOrdered d.decay_map

  stop_decay-Ordered :
      (now i timestamp : ℕ) (pending : List ℕ) (d : Decaying queue)
      → Ordered pending d
      → Ordered pending (stop_decay queue now i timestamp d)
  unfolding Ordered stop_decay let_go release_item
  stop_decay-Ordered now i timestamp pending d h =
      elim (Option-cases (find_entry timestamp d.decay_map)) [
        | inl not_there ↦ rw (stop_decay, not_there) h
        | inr (xs, there) ↦ elim (Bool-cases (contains i xs)) [
          | inl found ↦ elim (Bool-cases (length xs == 1)) [
            | inl single ↦
                rw (stop_decay, there, found, single)
                  (erase_entry-IsOrdered timestamp d.decay_map h)
            | inr several ↦
                rw (stop_decay, there, found, several)
                  (put_entry-IsOrdered timestamp (swap_out i xs) d.decay_map
                    (swap_out-is_empty i xs found several) h)
          ]
          | inr not_found ↦ rw (stop_decay, there, not_found) h
        ]
      ]

  schedule-Ordered :
      (g : Game) (now i duration : ℕ) (pending : List ℕ) (d : Decaying queue)
      → Ordered pending d
      → Ordered pending (schedule queue g now i duration d)
  unfolding Ordered schedule
  schedule-Ordered g now i duration pending d h =
      push_back-IsOrdered (now + duration) i _
        (subst IsOrdered (sym (set_check-kept queue g now duration d).0) h)

  Ordered-Kept : Kept queue (λ c. Ordered)
  unfolding Ordered release_item game_release game_acquire round
  Ordered-Kept = record {
    keep_stop = λ c. stop_decay-Ordered;
    keep_schedule = λ c. schedule-Ordered;
    keep_change = λ c i item pending d same h. h;
    keep_release = λ c i pending d h. h;
    keep_game_release = λ c i pending d h. h;
    keep_game_acquire = λ c i pending d h. h;
    keep_due = λ now n d h. take_due-IsOrdered now d.decay_map h;
    keep_again = λ g now it d h. subst IsOrdered (sym (check_again-kept queue g now it d).0) h;
    keep_cleanup = λ d h. subst IsOrdered (sym (cleanup-kept queue d).0) h;
    keep_round = λ now d h. h;
  }

  -- After a history of starts, stops, changes, rounds of the scheduler, checks and releases, whatever
  -- the game calls while an item decays, in which no check has followed an iterator to an erased
  -- entry: where the time stamps of the map ascended before and no entry was empty, so it is again.
  pub run-IsOrdered :
      (g : Game) (ops : List Op) (d d' : Decaying queue)
      → IsOrdered d.decay_map
      → run queue g ops d ≡ some d'
      → IsOrdered d'.decay_map
  unfolding Ordered
  run-IsOrdered g ops d d' h ran = run-kept_some queue (λ c. Ordered) Ordered-Kept g ops d d' h ran
