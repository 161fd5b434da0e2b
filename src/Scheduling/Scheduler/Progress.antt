-- ===== src/Scheduling/Scheduler/Progress.antt =====
-- Successive rounds of `threadMain` of src/game/scheduling/scheduler.cpp at one time `now`, with no
-- call of another thread in between.
use forgotten_land.Base.{
  ℕ, zero, suc, ◌≤◌, ◌<◌, ◌≡◌, refl, sym, ◌⊎◌, inl, inr, true, false, List, [], ◌∷◌, none, some,
  length, leb, ◌==◌, arith, Option-cases, Bool-cases, ==_iff,
}
use mathlib.Core.Path.{subst}
use forgotten_land.Base.Ids.{contains, erase}
use forgotten_land.Scheduling.Queue.{SchedulerTask, PriorityQueue, In, top-le}
use forgotten_land.Scheduling.Scheduler.{Scheduler, fire}
use forgotten_land.Scheduling.Scheduler.Events.{add_option}

-- The tasks that are handed over at the time `now`, from the identifiers `ids` on: none expires
-- before `bound` nor before the one handed over before it, each was due, and each had an active
-- identifier, which is erased with it.
unfoldable pub HandedOver : ℕ → ℕ → List ℕ → List SchedulerTask → List ℕ → Type 0
unfolding erase
HandedOver now bound ids [] ids' = ids' ≡ ids
HandedOver now bound ids (t ∷ ts) ids' =
    (bound ≤ t.expiration)
    × (t.expiration ≤ now)
    × (contains t.event_id ids ≡ true)
    × HandedOver now t.expiration (erase t.event_id ids) ts ids'

contains-erase_other :
    (i j : ℕ) (ids : List ℕ)
    → (j == i) ≡ false
    → contains i ids ≡ true
    → contains i (erase j ids) ≡ true
unfolding contains erase
contains-erase_other i j [] ne h = h
contains-erase_other i j (k ∷ ids) ne h = ground (arith, contains-erase_other i j ids ne)

In-nil : (u : SchedulerTask) (ts : List SchedulerTask) → In u ts → ts ≡ [] → ⊥
In-nil u ts h e = subst (λ (us : List SchedulerTask). In u us) e h

In-length : (u : SchedulerTask) (ts : List SchedulerTask) → In u ts → 0 < length ts
In-length u [] h = absurd h
In-length u (t ∷ ts) h = omega arith

module _ (queue : PriorityQueue) where
  open queue use {top, pop, contents, top_none, contents-pop, length-pop}

  unfoldable pub drain : ℕ → ℕ → Scheduler queue → List SchedulerTask × Scheduler queue
  drain zero now s = ([], s)
  drain (suc n) now s =
      let (o, s') = fire queue now s in let (ts, s'') = drain n now s' in (add_option o ts, s'')

  -- No task of the queue is due.
  abbrev pub Idle : ℕ → Scheduler queue → Type 0
  Idle now s = (u : SchedulerTask) → In u (contents s.event_list) → now < u.expiration

  -- What a round does: nothing where no task is due, else it takes the task on top, and hands
  -- it over if its identifier is active.
  pub fire_cases :
      (now : ℕ) (s : Scheduler queue)
      → (Idle now s × (fire queue now s ≡ (none, s)))
        ⊎ ((t : SchedulerTask) × (top s.event_list ≡ some t)
            × (t.expiration ≤ now)
            × ((fire queue now s).1.event_list ≡ pop s.event_list)
            × (((contains t.event_id s.event_ids ≡ true)
                  × ((fire queue now s).0 ≡ some t)
                  × ((fire queue now s).1.event_ids ≡ erase t.event_id s.event_ids))
                ⊎ ((contains t.event_id s.event_ids ≡ false)
                    × ((fire queue now s).0 ≡ none)
                    × ((fire queue now s).1.event_ids ≡ s.event_ids))))
  unfolding fire
  fire_cases now s = elim (Option-cases (top s.event_list)) [
    | inl e ↦ inl (λ u h. absurd (In-nil u _ h (top_none s.event_list e)), rw (fire, e) refl)
    | inr (t, e) ↦ elim (Bool-cases (leb t.expiration now)) [
      | inl due ↦ elim (Bool-cases (contains t.event_id s.event_ids)) [
        | inl active ↦ inr (
          t,
          e,
          ground arith,
          rw (fire, e, due, active) refl,
          inl (active, rw (fire, e, due, active) refl, rw (fire, e, due, active) refl),
        )
        | inr stopped ↦ inr (
          t,
          e,
          ground arith,
          rw (fire, e, due, stopped) refl,
          inr (stopped, rw (fire, e, due, stopped) refl, rw (fire, e, due, stopped) refl),
        )
      ]
      | inr early ↦
          inl (λ u h. ground (arith, top-le queue s.event_list t u e h), rw (fire, e, early) refl)
    ]
  ]

  fire-In :
      (now : ℕ) (s : Scheduler queue) (u : SchedulerTask)
      → In u (contents (fire queue now s).1.event_list)
      → In u (contents s.event_list)
  fire-In now s u h = elim (fire_cases now s) [
    | inl (idle, same) ↦ subst (λ r. In u (contents r.1.event_list)) same h
    | inr (t, e, due, popped, _) ↦
        (contents-pop s.event_list t u e).1 (inr (subst (λ q. In u (contents q)) popped h))
  ]

  drain-In :
      (n now : ℕ) (s : Scheduler queue) (u : SchedulerTask)
      → In u (contents (drain n now s).1.event_list)
      → In u (contents s.event_list)
  unfolding drain
  drain-In zero now s u h = h
  drain-In (suc n) now s u h = fire-In now s u (drain-In n now (fire queue now s).1 u h)

  top-In :
      (t : SchedulerTask) (s : Scheduler queue)
      → top s.event_list ≡ some t
      → In t (contents s.event_list)
  top-In t s e = (contents-pop s.event_list t t e).1 (inl refl)

  popped_fewer :
      (n now : ℕ) (s : Scheduler queue) (t : SchedulerTask)
      → top s.event_list ≡ some t
      → (fire queue now s).1.event_list ≡ pop s.event_list
      → length (contents s.event_list) ≤ suc n
      → length (contents (fire queue now s).1.event_list) ≤ n
  popped_fewer n now s t e popped few = rw popped (omega (arith, length-pop s.event_list t e))

  -- With as many rounds as there are tasks, no due task is left in the queue.
  pub drain-Idle :
      (n now : ℕ) (s : Scheduler queue)
      → length (contents s.event_list) ≤ n
      → Idle now (drain n now s).1
  unfolding drain
  drain-Idle zero now s few = λ u h. omega (arith, In-length u (contents s.event_list) h, few)
  drain-Idle (suc n) now s few = elim (fire_cases now s) [
    | inl (idle, same) ↦ λ u h. idle u (fire-In now s u (drain-In n now (fire queue now s).1 u h))
    | inr (t, e, due, popped, _) ↦
        drain-Idle n now (fire queue now s).1 (popped_fewer n now s t e popped few)
  ]

  -- Successive rounds hand tasks over in the order of their times, from any bound on that all
  -- tasks of the queue keep; each was due and its identifier active when it was handed over, and in
  -- the end the active identifiers are those of before, less those of the tasks that were handed over.
  pub drain-HandedOver :
      (n now bound : ℕ) (s : Scheduler queue)
      → ((u : SchedulerTask) → In u (contents s.event_list) → bound ≤ u.expiration)
      → HandedOver now bound s.event_ids (drain n now s).0 (drain n now s).1.event_ids
  unfolding drain add_option HandedOver
  drain-HandedOver zero now bound s above = refl
  drain-HandedOver (suc n) now bound s above = elim (fire_cases now s) [
    | inl (idle, same) ↦ rw same (drain-HandedOver n now bound s above)
    | inr (t, e, due, popped, inl (active, handed, erased)) ↦ rw handed (
      above t (top-In t s e),
      due,
      active,
      rw erased at (
          drain-HandedOver n now t.expiration (fire queue now s).1
            (λ u h. top-le queue s.event_list t u e (fire-In now s u h))),
    )
    | inr (t, e, due, popped, inr (stopped, handed, kept)) ↦ rw handed (
        rw kept at
          (drain-HandedOver n now bound (fire queue now s).1 (λ u h. above u (fire-In now s u h))))
  ]

  -- Within as many rounds as there are tasks, a due task that is active, the only one with its
  -- identifier, is handed over.
  pub drain-Runs :
      (n now : ℕ) (s : Scheduler queue) (u : SchedulerTask)
      → length (contents s.event_list) ≤ n
      → In u (contents s.event_list)
      → u.expiration ≤ now
      → contains u.event_id s.event_ids ≡ true
      → ((v : SchedulerTask) → In v (contents s.event_list) → v.event_id ≡ u.event_id → v ≡ u)
      → In u (drain n now s).0
  unfolding drain add_option
  drain-Runs zero now s u few member due active alone =
      absurd (omega (arith, In-length u (contents s.event_list) member))
  drain-Runs (suc n) now s u few member due active alone = elim (fire_cases now s) [
    | inl (idle, same) ↦ absurd (omega (arith, idle u member))
    | inr (t, e, _, popped, inl (_, handed, erased)) ↦
        elim (Bool-cases (t.event_id == u.event_id)) [
          | inl same ↦
              rw handed (inl (sym (alone t (top-In t s e) ((==_iff t.event_id u.event_id).0 same))))
          | inr other ↦ rw handed (elim ((contents-pop s.event_list t u e).0 member) [
            | inl here ↦ inl here
            | inr there ↦ inr (
                drain-Runs n now (fire queue now s).1 u (popped_fewer n now s t e popped few)
                  (rw popped there) due
                  (rw erased (contains-erase_other u.event_id t.event_id s.event_ids other active))
                  (λ v h. alone v (fire-In now s v h)))
          ])
        ]
    | inr (t, e, _, popped, inr (stopped, handed, kept)) ↦
        rw handed (elim ((contents-pop s.event_list t u e).0 member) [
          | inl here ↦ absurd (cc)
          | inr there ↦
              drain-Runs n now (fire queue now s).1 u (popped_fewer n now s t e popped few)
                (rw popped there) due (rw kept active) (λ v h. alone v (fire-In now s v h))
        ])
  ]
