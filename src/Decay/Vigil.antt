-- ===== src/Decay/Vigil.antt =====
-- The histories of src/items/decay/decay.cpp: while items decay, a check is on its way.
use mathlib.Core.Path.{subst}
use forgotten_land.Base.{
  ℕ, ◌+◌, ◌-◌, ◌^◌, max, ◌≡◌, ◌<◌, ◌≤◌, refl, ap, ◌∙◌, ◌⊎◌, inl, inr, true, List, [], ◌∷◌, Option,
  none, some, leb, arith, Bool-cases, Option-cases,
}
use forgotten_land.Base.Ids.{contains}
use forgotten_land.Base.Words.{u64, is_negative, not_below_zero}
use forgotten_land.Scheduling.Queue.{PriorityQueue}
use forgotten_land.Scheduling.Scheduler.{Scheduler, is_running, fire}
use forgotten_land.Decay.Entries.{Entry, take_due}
use forgotten_land.Decay.Timetable.{
  Game, Decaying, add_check, min_ticks, check_again, release_item, game_release, game_acquire,
  cleanup, first_timestamp,
}
use forgotten_land.Decay.Histories.{Context, Kept, Op, run, round}
use forgotten_land.Decay.Checks.{cleanup-kept}
use forgotten_land.Decay.Keeping.{run-kept_some}
use forgotten_land.Decay.Order.{IsOrdered, take_due-IsOrdered}
use forgotten_land.Decay.Pending.{
  First, Covers, add_check-state, add_check-Covers, add_check-Covers_kept, round-Covers,
}
use forgotten_land.Decay.Awaiting.{Later, Reached, Awaits, stop_decay-Awaits, schedule-Awaits}

due-Later :
    (queue : PriorityQueue) (now : ℕ) (es : List Entry)
    → Later (Context.checking now (first_timestamp queue (take_due now es).1))
unfolding take_due
due-Later queue now [] = tt
due-Later queue now (e ∷ es) = elim (Bool-cases (leb e.timestamp now)) [
  | inl due ↦ rw due (due-Later queue now es)
  | inr later ↦ rw later (ground arith)
]

-- The delay of the next check.
delay_le :
    (now k : ℕ)
    → now < k
    → now + max min_ticks (not_below_zero (k + (2 ^ 64 - u64 now))) ≤ k + min_ticks
delay_le now k h = elim (Bool-cases (is_negative (k + (2 ^ 64 - u64 now)))) [
  | inl wrapped ↦ rw wrapped (omega arith)
  | inr fits ↦ rw fits (omega arith)
]

First-map : (Q R : ℕ → Type 0) (es : List Entry) → ((k : ℕ) → Q k → R k) → First Q es → First R es
First-map Q R [] f h = tt
First-map Q R (e ∷ es) f h = f e.timestamp h

module _ (queue : PriorityQueue) where
  due-First :
      (now : ℕ) (s : Scheduler queue) (n : ℕ) (es : List Entry)
      → First (Reached queue (Context.checking now (first_timestamp queue es)) s n) es
  unfolding Reached
  due-First now s n [] = tt
  due-First now s n (e ∷ es) = inl (omega arith)

  due-Awaits :
      (now n : ℕ) (d : Decaying queue)
      → Awaits queue Context.outside [] d
      → Awaits queue
          (Context.checking now (first_timestamp queue (take_due now d.decay_map).1))
          (take_due now d.decay_map).0
          (record d { decay_map = (take_due now d.decay_map).1; dispatched = n })
  unfolding Awaits
  due-Awaits now n d (later, runs, o, h) = (
    due-Later queue now d.decay_map,
    runs,
    take_due-IsOrdered now d.decay_map o,
    due-First now d.scheduler n _,
  )

  check_again-Awaits :
      (g : Game) (now : ℕ) (it : Option ℕ) (d : Decaying queue)
      → Awaits queue (Context.checking now it) [] d
      → Awaits queue Context.outside [] (check_again queue g now it d)
  unfolding Awaits check_again Reached add_check
  check_again-Awaits g now none d (later, runs, o, h) =
      (tt, runs, o, First-map _ _ d.decay_map (λ k event. inr event) h)
  check_again-Awaits g now (some j) d (later, runs, o, h) =
      let delay = not_below_zero (j + (2 ^ 64 - u64 now)) in
      let soon = delay_le now j later in
      (
        tt,
        ap is_running (add_check-state queue g now delay d) ∙ runs,
        o,
        First-map (λ k. (j ≤ k) ⊎ Covers queue k d.scheduler) _ d.decay_map
            (λ k reached. elim reached [
              | inl before ↦ inr (add_check-Covers queue g now delay k d runs (omega arith))
              | inr event ↦ inr (add_check-Covers_kept queue g now delay k d event)
            ])
            h,
      )

  fire-state : (now : ℕ) (s : Scheduler queue) → (fire queue now s).1.state ≡ s.state
  unfolding fire
  fire-state now s = elim (Option-cases (queue.top s.event_list)) [
    | inl e ↦ rw (fire, e) refl
    | inr (u, e) ↦ elim (Bool-cases (leb u.expiration now)) [
      | inr early ↦ rw (fire, e, early) refl
      | inl due ↦ elim (Bool-cases (contains u.event_id s.event_ids)) [
        | inl alive ↦ rw (fire, e, due, alive) refl
        | inr stopped ↦ rw (fire, e, due, stopped) refl
      ]
    ]
  ]

  round-dispatched : (now : ℕ) (d : Decaying queue) → d.dispatched ≤ (round queue now d).dispatched
  unfolding round
  round-dispatched now d = elim (Option-cases (fire queue now d.scheduler).0) [
    | inl e ↦ rw (round, e) (omega arith)
    | inr (t, e) ↦ rw (round, e) (omega arith)
  ]

  round-Awaits :
      (now : ℕ) (d : Decaying queue)
      → Awaits queue Context.outside [] d
      → Awaits queue Context.outside [] (round queue now d)
  unfolding Awaits Reached round
  round-Awaits now d (later, runs, o, h) = (
    tt,
    ap is_running (fire-state now d.scheduler) ∙ runs,
    o,
    First-map (λ k. (1 ≤ d.dispatched) ⊎ Covers queue k d.scheduler) _ d.decay_map
        (λ k reached. elim reached [
          | inl waiting ↦ let more = round-dispatched now d in inl (omega arith)
          | inr event ↦ round-Covers queue now k d event
        ])
        h,
  )

  cleanup-Awaits :
      (d : Decaying queue)
      → Awaits queue Context.outside [] d
      → Awaits queue Context.outside [] (cleanup queue d)
  unfolding Awaits
  cleanup-Awaits d h =
      let (same_map, same_events, same_checks) = cleanup-kept queue d in
      rw (same_map, same_events, same_checks) h

  Awaits-Kept : Kept queue (Awaits queue)
  unfolding Awaits release_item game_release game_acquire
  Awaits-Kept = record {
    keep_stop = stop_decay-Awaits queue;
    keep_schedule = schedule-Awaits queue;
    keep_change = λ c i item pending d same h. h;
    keep_release = λ c i pending d h. h;
    keep_game_release = λ c i pending d h. h;
    keep_game_acquire = λ c i pending d h. h;
    keep_due = due-Awaits;
    keep_again = check_again-Awaits;
    keep_cleanup = cleanup-Awaits;
    keep_round = round-Awaits;
  }

  at_start-Awaits :
      (d : Decaying queue)
      → d.decay_map ≡ []
      → is_running d.scheduler.state ≡ true
      → Awaits queue Context.outside [] d
  unfolding Awaits IsOrdered
  at_start-Awaits d no_entry runs = rw no_entry (tt, runs, tt, tt)

  -- After a history of starts, stops, changes, checks, releases and rounds of the scheduler, that begins
  -- with an empty map and a running scheduler, in which the checks are the only events and no check has
  -- followed an iterator to an erased entry: where the map is not empty, a check was handed over and has
  -- not run, or an event that was not stopped is in the queue of the scheduler and expires at most
  -- SCHEDULER_MINTICKS after the first time stamp.
  pub run-Covers :
      (g : Game) (ops : List Op) (d d' : Decaying queue) (e : Entry) (es : List Entry)
      → d.decay_map ≡ []
      → is_running d.scheduler.state ≡ true
      → run queue g ops d ≡ some d'
      → d'.decay_map ≡ e ∷ es
      → (1 ≤ d'.dispatched) ⊎ Covers queue e.timestamp d'.scheduler
  unfolding Awaits Reached
  run-Covers g ops d d' e es no_entry runs ran entries =
      let (_, _, _, h) =
        run-kept_some queue (Awaits queue) Awaits-Kept g ops d d' (at_start-Awaits d no_entry runs)
          ran in
      subst (First (λ k. (1 ≤ d'.dispatched) ⊎ Covers queue k d'.scheduler)) entries h
