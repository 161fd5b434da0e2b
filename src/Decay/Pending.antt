-- ===== src/Decay/Pending.antt =====
-- The scheduled check of src/items/decay/decay.cpp: while items decay, one is on its way.
use forgotten_land.Base.{
  ℕ, ◌+◌, max, ◌≡◌, ◌<◌, ◌≤◌, refl, ◌⊎◌, inl, inr, true, false, List, [], ◌∷◌, leb, ltb, ◌==◌,
  arith, Bool-cases, Option-cases,
}
use forgotten_land.Base.Ids.{contains, insert}
use forgotten_land.Scheduling.Queue.{SchedulerTask, PriorityQueue, In}
use forgotten_land.Scheduling.Scheduler.{
  Scheduler, is_running, create_scheduler_task, add_event, stop_event, fire,
}
use forgotten_land.Decay.Entries.{Entry, erase_entry, put_entry, push_back}
use forgotten_land.Decay.Timetable.{Game, Decaying, add_check, stop_check, min_ticks}
use forgotten_land.Decay.Histories.{round}
use forgotten_land.Decay.Order.{IsOrdered}

-- What holds of the first time stamp, if there is one.
abbrev pub First : (ℕ → Type 0) → List Entry → Type 0
First Q [] = Unit
First Q (e ∷ es) = Q e.timestamp

pub First-erase_entry :
    (Q : ℕ → Type 0) (k : ℕ) (es : List Entry)
    → ((m n : ℕ) → m ≤ n → Q m → Q n)
    → IsOrdered es
    → First Q es
    → First Q (erase_entry k es)
unfolding erase_entry IsOrdered
First-erase_entry Q k [] grows o h = tt
First-erase_entry Q k (e ∷ []) grows o h = elim (Bool-cases (e.timestamp == k)) [
  | inl here ↦ rw here tt
  | inr there ↦ rw there h
]
First-erase_entry Q k (e ∷ e' ∷ es) grows (full, next, o) h = elim (Bool-cases (e.timestamp == k)) [
  | inl here ↦ rw here (grows e.timestamp e'.timestamp (omega arith) h)
  | inr there ↦ rw there h
]

pub First-put_entry :
    (Q : ℕ → Type 0) (k : ℕ) (xs : List ℕ) (es : List Entry)
    → First Q es
    → First Q (put_entry k xs es)
unfolding put_entry
First-put_entry Q k xs [] h = tt
First-put_entry Q k xs (e ∷ es) h = elim (Bool-cases (e.timestamp == k)) [
  | inl here ↦ rw here h
  | inr there ↦ rw there h
]

pub First-push_back_before :
    (Q : ℕ → Type 0) (k i : ℕ) (es : List Entry)
    → First (λ n. k < n) es
    → Q k
    → First Q (push_back k i es)
unfolding push_back
First-push_back_before Q k i [] before h = h
First-push_back_before Q k i (e ∷ es) before h =
    let other : (e.timestamp == k) ≡ false = ground arith in
    let earlier : ltb k e.timestamp ≡ true = ground arith in rw (other, earlier) h

pub First-push_back_after :
    (Q : ℕ → Type 0) (k i : ℕ) (e : Entry) (es : List Entry)
    → ltb k e.timestamp ≡ false
    → Q e.timestamp
    → First Q (push_back k i (e ∷ es))
unfolding push_back
First-push_back_after Q k i e es after h = elim (Bool-cases (e.timestamp == k)) [
  | inl here ↦ rw here h
  | inr there ↦ rw (there, after) h
]

contains-insert_same : (id : ℕ) (ids : List ℕ) → contains id (insert id ids) ≡ true
unfolding contains insert
contains-insert_same id ids = ground arith

contains-insert_kept :
    (id j : ℕ) (ids : List ℕ) → contains j ids ≡ true → contains j (insert id ids) ≡ true
unfolding contains insert
contains-insert_kept id j ids h = ground arith

module _ (queue : PriorityQueue) where
  -- An active event for a time: it comes at most SCHEDULER_MINTICKS after it.
  unfoldable pub Covers : ℕ → Scheduler queue → Type 0
  Covers k s =
      (t : SchedulerTask) × In t (queue.contents s.event_list)
      × (contains t.event_id s.event_ids ≡ true)
      × (t.expiration ≤ k + min_ticks)

  pub Covers-mono : (s : Scheduler queue) (m n : ℕ) → m ≤ n → Covers m s → Covers n s
  unfolding Covers
  Covers-mono s m n h (t, there, active, soon) = (t, there, active, omega arith)

  pub add_check-state :
      (g : Game) (now delay : ℕ) (d : Decaying queue)
      → (add_check queue g now delay d).scheduler.state ≡ d.scheduler.state
  unfolding add_check add_event
  add_check-state g now delay d = elim (Bool-cases (is_running d.scheduler.state)) [
    | inl runs ↦ rw runs refl
    | inr stands ↦ rw stands refl
  ]

  pub stop_check-state :
      (d : Decaying queue) → (stop_check queue d).scheduler.state ≡ d.scheduler.state
  unfolding stop_check stop_event
  stop_check-state d = elim (Bool-cases (d.event_id == 0)) [
    | inl e ↦ rw e refl
    | inr e ↦ elim (Bool-cases (contains d.event_id d.scheduler.event_ids)) [
      | inl e' ↦ rw (e, e') refl
      | inr e' ↦ rw (e, e') refl
    ]
  ]

  pub add_check-Covers :
      (g : Game) (now delay k : ℕ) (d : Decaying queue)
      → is_running d.scheduler.state ≡ true
      → now + max min_ticks delay ≤ k + min_ticks
      → Covers k (add_check queue g now delay d).scheduler
  unfolding Covers add_check add_event create_scheduler_task
  add_check-Covers g now delay k d runs soon =
      rw runs (_, (queue.contents-push _ _ _).1 (inl refl), contains-insert_same _ _, soon)

  pub add_check-Covers_kept :
      (g : Game) (now delay k : ℕ) (d : Decaying queue)
      → Covers k d.scheduler
      → Covers k (add_check queue g now delay d).scheduler
  unfolding Covers add_check add_event
  add_check-Covers_kept g now delay k d (t, there, active, soon) =
      elim (Bool-cases (is_running d.scheduler.state)) [
        | inl runs ↦
            rw runs (
              t,
              (queue.contents-push _ _ _).1 (inr there),
              contains-insert_kept _ _ _ active,
              soon,
            )
        | inr stands ↦ rw stands (t, there, active, soon)
      ]

  -- A round of the scheduler hands over a check, or leaves the event that covers a time.
  pub round-Covers :
      (now k : ℕ) (d : Decaying queue)
      → Covers k d.scheduler
      → (1 ≤ (round queue now d).dispatched) ⊎ Covers k (round queue now d).scheduler
  unfolding Covers round fire
  round-Covers now k d (t, there, active, soon) =
      elim (Option-cases (queue.top d.scheduler.event_list)) [
        | inl e ↦ rw (round, fire, e) (inr (t, there, active, soon))
        | inr (u, e) ↦ elim (Bool-cases (leb u.expiration now)) [
          | inr early ↦ rw (round, fire, e, early) (inr (t, there, active, soon))
          | inl due ↦ elim (Bool-cases (contains u.event_id d.scheduler.event_ids)) [
            | inl alive ↦ rw (round, fire, e, due, alive) (inl (omega arith))
            | inr stopped ↦
                rw (round, fire, e, due, stopped)
                  (elim ((queue.contents-pop d.scheduler.event_list u t e).0 there) [
                    | inl same_task ↦ absurd (cc)
                    | inr stays ↦ inr (t, stays, active, soon)
                  ])
          ]
        ]
      ]
