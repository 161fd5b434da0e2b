-- ===== src/Scheduling/ListQueue.antt =====
-- A queue of tasks as a list with no order, which is searched for the task that expires first:
-- it meets all that the scheduler of src/game/scheduling/scheduler.cpp relies on.
use forgotten_land.Base.{
  suc, ◌≤◌, ◌≡◌, refl, sym, ap, ◌⊎◌, ◌↔◌, inl, inr, List, [], ◌∷◌, Option, none, some, length, ltb,
  false, arith, if◌then◌else◌, Bool-cases,
}
use mathlib.Core.Path.{subst}
use mathlib.Core.Option.{some-injective}
use forgotten_land.Scheduling.Queue.{SchedulerTask, PriorityQueue, In, task_comparator}

-- The first of a list, its first member aside, that expires before all others, and the others.
unfoldable pub least : SchedulerTask → List SchedulerTask → SchedulerTask
least t [] = t
least t (u ∷ us) = if ltb u.expiration t.expiration then least u us else least t us

unfoldable pub others : SchedulerTask → List SchedulerTask → List SchedulerTask
others t [] = []
others t (u ∷ us) = if ltb u.expiration t.expiration then t ∷ others u us else u ∷ others t us

least-le_first :
    (t : SchedulerTask) (us : List SchedulerTask) → (least t us).expiration ≤ t.expiration
unfolding least
least-le_first t [] = omega arith
least-le_first t (u ∷ us) = ground (arith, least-le_first t us, least-le_first u us)

least-le :
    (t v : SchedulerTask) (us : List SchedulerTask)
    → In v (t ∷ us)
    → (least t us).expiration ≤ v.expiration
unfolding least
least-le t v [] h = elim h [ inl e ↦ rw e (omega arith) | inr m ↦ absurd m ]
least-le t v (u ∷ us) h = elim (Bool-cases (ltb u.expiration t.expiration)) [
  | inl earlier ↦ elim h [
    | inl e ↦ rw e (ground (arith, least-le_first u us))
    | inr h' ↦ rw earlier (least-le u v us h')
  ]
  | inr later ↦ elim h [
    | inl e ↦ rw later (least-le t v us (inl e))
    | inr (inl e) ↦ rw e (ground (arith, least-le_first t us))
    | inr (inr m) ↦ rw later (least-le t v us (inr m))
  ]
]

length-others : (t : SchedulerTask) (us : List SchedulerTask) → length (others t us) ≡ length us
unfolding others
length-others t [] = refl
length-others t (u ∷ us) = ground (arith, length-others t us, length-others u us)

In-others :
    (t v : SchedulerTask) (us : List SchedulerTask)
    → In v (t ∷ us)
    → (v ≡ least t us) ⊎ In v (others t us)
unfolding least others
In-others t v [] h = h
In-others t v (u ∷ us) h = elim (Bool-cases (ltb u.expiration t.expiration)) [
  | inl earlier ↦ rw earlier (elim h [
    | inl e ↦ inr (inl e)
    | inr h' ↦ elim (In-others u v us h') [ inl e ↦ inl e | inr m ↦ inr (inr m) ]
  ])
  | inr later ↦ rw later (elim h [
    | inl e ↦ elim (In-others t v us (inl e)) [ inl e' ↦ inl e' | inr m ↦ inr (inr m) ]
    | inr (inl e) ↦ inr (inl e)
    | inr (inr m) ↦ elim (In-others t v us (inr m)) [ inl e' ↦ inl e' | inr m' ↦ inr (inr m') ]
  ])
]

others-In :
    (t v : SchedulerTask) (us : List SchedulerTask)
    → (v ≡ least t us) ⊎ In v (others t us)
    → In v (t ∷ us)
unfolding least others
others-In t v [] = λ h. h
others-In t v (u ∷ us) = elim (Bool-cases (ltb u.expiration t.expiration)) [
  | inl earlier ↦ rw earlier (λ h. elim h [
    | inl e ↦ inr (others-In u v us (inl e))
    | inr (inl e) ↦ inl e
    | inr (inr m) ↦ inr (others-In u v us (inr m))
  ])
  | inr later ↦ rw later (λ h. elim h [
    | inl e ↦ elim (others-In t v us (inl e)) [ inl e' ↦ inl e' | inr m ↦ inr (inr m) ]
    | inr (inl e) ↦ inr (inl e)
    | inr (inr m) ↦ elim (others-In t v us (inr m)) [ inl e' ↦ inl e' | inr m' ↦ inr (inr m') ]
  ])
]

unfoldable pub list_top : List SchedulerTask → Option SchedulerTask
list_top [] = none
list_top (t ∷ ts) = some (least t ts)

unfoldable pub list_pop : List SchedulerTask → List SchedulerTask
list_pop [] = []
list_pop (t ∷ ts) = others t ts

pub list_top-least :
    (ts : List SchedulerTask) (t u : SchedulerTask)
    → list_top ts ≡ some t
    → In u ts
    → t.expiration ≤ u.expiration
unfolding list_top
list_top-least [] t u e h = absurd h
list_top-least (v ∷ ts) t u e h =
    subst (λ w. w.expiration ≤ u.expiration) (some-injective _ _ e) (least-le v u ts h)

pub list_top-comparator :
    (ts : List SchedulerTask) (t u : SchedulerTask)
    → list_top ts ≡ some t
    → In u ts
    → task_comparator t u ≡ false
unfolding task_comparator
list_top-comparator ts t u e h = ground (arith, list_top-least ts t u e h)

pub list_top-none : (ts : List SchedulerTask) → list_top ts ≡ none → ts ≡ []
unfolding list_top
list_top-none [] e = refl
list_top-none (t ∷ ts) e = absurd (cc)

pub In-list_pop :
    (ts : List SchedulerTask) (t u : SchedulerTask)
    → list_top ts ≡ some t
    → In u ts ↔ ((u ≡ t) ⊎ In u (list_pop ts))
unfolding list_top list_pop
In-list_pop [] t u e = absurd (cc)
In-list_pop (v ∷ ts) t u e =
    subst (λ w. In u (v ∷ ts) ↔ ((u ≡ w) ⊎ In u (others v ts))) (some-injective _ _ e)
      (In-others v u ts, others-In v u ts)

pub length-list_pop :
    (ts : List SchedulerTask) (t : SchedulerTask)
    → list_top ts ≡ some t
    → length ts ≡ suc (length (list_pop ts))
unfolding list_top list_pop
length-list_pop [] t e = absurd (cc)
length-list_pop (v ∷ ts) t e = ap suc (sym (length-others v ts))

abbrev pub list_queue : PriorityQueue
list_queue = record {
  Queue = List SchedulerTask;
  empty = [];
  push = λ t ts. t ∷ ts;
  top = list_top;
  pop = list_pop;
  contents = λ ts. ts;
  contents-empty = refl;
  contents-push = λ t u q. (λ h. h, λ h. h);
  length-push = λ t q. refl;
  top_none = list_top-none;
  top_least = list_top-comparator;
  contents-pop = In-list_pop;
  length-pop = length-list_pop;
}
