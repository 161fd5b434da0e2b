-- ===== src/Decay/Awaiting.antt =====
-- That a check of src/items/decay/decay.cpp is always on its way while items decay, in every history.
use mathlib.Core.Path.{subst}
use forgotten_land.Base.{
  ℕ, ◌+◌, ◌≡◌, ◌<◌, ◌≤◌, refl, sym, ap, ◌∙◌, ◌⊎◌, inl, inr, true, List, [], ◌∷◌, none, some, ltb,
  ◌==◌, arith, Bool-cases, length, Option-cases,
}
use forgotten_land.Base.Ids.{contains}
use forgotten_land.Scheduling.Queue.{PriorityQueue}
use forgotten_land.Scheduling.Scheduler.{Scheduler, is_running}
use forgotten_land.Decay.Entries.{find_entry, push_back, swap_out}
use forgotten_land.Decay.Timetable.{
  Game, Decaying, stop_check, set_check, stop_decay, let_go, release_item, schedule,
}
use forgotten_land.Decay.Histories.{Context}
use forgotten_land.Decay.Places.{entries-cases}
use forgotten_land.Decay.Checks.{set_check-kept}
use forgotten_land.Decay.Order.{
  IsOrdered, erase_entry-IsOrdered, put_entry-IsOrdered, push_back-IsOrdered, swap_out-is_empty,
}
use forgotten_land.Decay.Pending.{
  First, First-erase_entry, First-put_entry, First-push_back_before, First-push_back_after, Covers,
  Covers-mono, add_check-state, stop_check-state, add_check-Covers,
}

-- The iterator of a check under way stands after the time of the check.
abbrev pub Later : Context → Type 0
Later Context.outside = Unit
Later (Context.checking now none) = Unit
Later (Context.checking now (some k)) = now < k

module _ (queue : PriorityQueue) where
  -- A time stamp is taken care of: by a check that was handed over, by an event, or by the check under
  -- way, which goes on to the time where its iterator stands.
  unfoldable pub Reached : Context → Scheduler queue → ℕ → ℕ → Type 0
  Reached Context.outside s dispatched k = (1 ≤ dispatched) ⊎ Covers queue k s
  Reached (Context.checking now none) s dispatched k = Covers queue k s
  Reached (Context.checking now (some j)) s dispatched k = (j ≤ k) ⊎ Covers queue k s

  unfoldable pub Awaits : Context → List ℕ → Decaying queue → Type 0
  Awaits c pending d =
      Later c
      × (is_running d.scheduler.state ≡ true)
      × IsOrdered d.decay_map
      × First (Reached c d.scheduler d.dispatched) d.decay_map

  Reached-mono :
      (c : Context) (s : Scheduler queue) (dispatched m n : ℕ)
      → m ≤ n
      → Reached c s dispatched m
      → Reached c s dispatched n
  unfolding Reached
  Reached-mono Context.outside s dispatched m n h (inl waiting) = inl waiting
  Reached-mono Context.outside s dispatched m n h (inr event) =
      inr (Covers-mono queue s m n h event)
  Reached-mono (Context.checking now none) s dispatched m n h event =
      Covers-mono queue s m n h event
  Reached-mono (Context.checking now (some j)) s dispatched m n h (inl before) = inl (omega arith)
  Reached-mono (Context.checking now (some j)) s dispatched m n h (inr event) =
      inr (Covers-mono queue s m n h event)

  pub Covers-Reached :
      (c : Context) (s : Scheduler queue) (dispatched k : ℕ)
      → Covers queue k s
      → Reached c s dispatched k
  unfolding Reached
  Covers-Reached Context.outside s dispatched k event = inr event
  Covers-Reached (Context.checking now none) s dispatched k event = event
  Covers-Reached (Context.checking now (some j)) s dispatched k event = inr event

  pub stop_decay-Awaits :
      (c : Context) (now i timestamp : ℕ) (pending : List ℕ) (d : Decaying queue)
      → Awaits c pending d
      → Awaits c pending (stop_decay queue now i timestamp d)
  unfolding Awaits stop_decay let_go release_item
  stop_decay-Awaits c now i timestamp pending d (later, runs, o, h) =
      elim (Option-cases (find_entry timestamp d.decay_map)) [
        | inl not_there ↦ rw (stop_decay, not_there) (later, runs, o, h)
        | inr (xs, there) ↦ elim (Bool-cases (contains i xs)) [
          | inl found ↦ elim (Bool-cases (length xs == 1)) [
            | inl single ↦
                rw (stop_decay, there, found, single)
                  (
                    later,
                    runs,
                    erase_entry-IsOrdered timestamp d.decay_map o,
                    First-erase_entry (Reached c d.scheduler d.dispatched) timestamp d.decay_map
                        (Reached-mono c d.scheduler d.dispatched) o h,
                  )
            | inr several ↦
                rw (stop_decay, there, found, several)
                  (
                    later,
                    runs,
                    put_entry-IsOrdered timestamp (swap_out i xs) d.decay_map
                        (swap_out-is_empty i xs found several) o,
                    First-put_entry (Reached c d.scheduler d.dispatched) timestamp (swap_out i xs)
                        d.decay_map h,
                  )
          ]
          | inr not_found ↦ rw (stop_decay, there, not_found) (later, runs, o, h)
        ]
      ]

  set_check-state :
      (g : Game) (now duration : ℕ) (d : Decaying queue)
      → (set_check queue g now duration d).scheduler.state ≡ d.scheduler.state
  unfolding set_check
  set_check-state g now duration d = elim (entries-cases d.decay_map) [
    | inl e ↦ rw (set_check, e) (add_check-state queue g now duration d)
    | inr (first, rest, e) ↦ elim (Bool-cases (ltb (now + duration) first.timestamp)) [
      | inl before ↦
          rw (set_check, e, before)
            (add_check-state queue g now duration (stop_check queue d) ∙ stop_check-state queue d)
      | inr after ↦ rw (set_check, e, after) refl
    ]
  ]

  set_check-Reached :
      (c : Context) (g : Game) (now i duration : ℕ) (d : Decaying queue)
      → is_running d.scheduler.state ≡ true
      → First (Reached c d.scheduler d.dispatched) d.decay_map
      → First
          (Reached c
            (set_check queue g now duration d).scheduler
            (set_check queue g now duration d).dispatched)
          (push_back (now + duration) i d.decay_map)
  unfolding set_check
  set_check-Reached c g now i duration d runs h = elim (entries-cases d.decay_map) [
    | inl e ↦
        let event = add_check-Covers queue g now duration (now + duration) d runs (omega arith) in
        rw (set_check, e)
          (First-push_back_before _ (now + duration) i [] tt (Covers-Reached c _ _ _ event))
    | inr (first, rest, e) ↦ elim (Bool-cases (ltb (now + duration) first.timestamp)) [
      | inl before ↦
          let stopped = stop_check queue d in
          let still : is_running stopped.scheduler.state ≡ true =
            ap is_running (stop_check-state queue d) ∙ runs in
          let event =
            add_check-Covers queue g now duration (now + duration) stopped still (omega arith) in
          let earlier : now + duration < first.timestamp = ground arith in
          rw (set_check, e, before)
            (First-push_back_before _ (now + duration) i (first ∷ rest) earlier
              (Covers-Reached c _ _ _ event))
      | inr after ↦
          let at_first : Reached c d.scheduler d.dispatched first.timestamp =
            subst (λ es. First (Reached c d.scheduler d.dispatched) es) e h in
          rw (set_check, e, after)
            (First-push_back_after (Reached c d.scheduler d.dispatched) (now + duration) i first
              rest after at_first)
    ]
  ]

  pub schedule-Awaits :
      (c : Context) (g : Game) (now i duration : ℕ) (pending : List ℕ) (d : Decaying queue)
      → Awaits c pending d
      → Awaits c pending (schedule queue g now i duration d)
  unfolding Awaits schedule
  schedule-Awaits c g now i duration pending d (later, runs, o, h) =
      let same_map = (set_check-kept queue g now duration d).0 in
      (
        later,
        ap is_running (set_check-state g now duration d) ∙ runs,
        push_back-IsOrdered (now + duration) i _ (subst IsOrdered (sym same_map) o),
        rw same_map (set_check-Reached c g now i duration d runs h),
      )
