-- ===== src/Scheduling/Dispatcher/Order.antt =====
-- The order in which `Dispatcher` of src/game/scheduling/tasks.cpp runs its tasks.
use forgotten_land.Base.{
  ℕ, zero, suc, ◌+◌, ◌≡◌, refl, ap, ◌∙◌, inl, inr, true, false, List, [], ◌∷◌, ◌++◌, Option, none,
  some, length, if◌then◌else◌, Bool-cases, sym,
}
use mathlib.Core.List.{append-nil, append_assoc}
use forgotten_land.Base.Words.{u64}
use forgotten_land.Scheduling.Scheduler.{is_running}
use forgotten_land.Scheduling.Dispatcher.{Task, Dispatcher, has_expired, add_task, run_task}

-- Calls of `addTask` without `push_front`, in order.
unfoldable pub add_all : List Task → Dispatcher → Dispatcher
add_all [] d = d
add_all (t ∷ ts) d = add_all ts (add_task t false d)

abbrev put_option : Option Task → List Task → List Task
put_option none ts = ts
put_option (some t) ts = t ∷ ts

-- The tasks that rounds of the thread at one time run.
unfoldable pub rounds : ℕ → ℕ → Dispatcher → List Task
rounds zero now d = []
rounds (suc n) now d = let (o, d') = run_task now d in put_option o (rounds n now d')

unfoldable pub alive : ℕ → List Task → List Task
alive now [] = []
alive now (t ∷ ts) = let rest = alive now ts in if has_expired now t then rest else t ∷ rest

rounds-list :
    (now : ℕ) (ts : List Task) (d : Dispatcher)
    → rounds (length ts) now (record d { task_list = ts }) ≡ alive now ts
unfolding rounds alive run_task
rounds-list now [] d = refl
rounds-list now (t ∷ ts) d = elim (Bool-cases (has_expired now t)) [
  | inl e ↦ rw e (rounds-list now ts d)
  | inr e ↦ rw e (
      ap (λ us. t ∷ us)
        (rounds-list now ts (record d { dispatcher_cycle = u64 (d.dispatcher_cycle + 1) })))
]

add_all-running :
    (ts us : List Task) (d : Dispatcher)
    → is_running d.state ≡ true
    → add_all ts (record d { task_list = us }) ≡ record d { task_list = us ++ ts }
unfolding add_all add_task
add_all-running [] us d h = ap (λ vs. record d { task_list = vs }) (sym (append-nil us))
add_all-running (t ∷ ts) us d h = rw h (
    add_all-running ts (us ++ t ∷ []) d h
    ∙ ap (λ vs. record d { task_list = vs }) (append_assoc us (t ∷ []) ts))

-- Tasks that are added at the back of a running dispatcher run behind those that wait already, in
-- the order of the calls, but for those that have expired; as many rounds as there are tasks are
-- enough.
pub rounds-add_all :
    (now : ℕ) (ts : List Task) (d : Dispatcher)
    → is_running d.state ≡ true
    → rounds (length (d.task_list ++ ts)) now (add_all ts d) ≡ alive now (d.task_list ++ ts)
rounds-add_all now ts d h =
    ap (rounds (length (d.task_list ++ ts)) now) (add_all-running ts d.task_list d h)
    ∙ rounds-list now (d.task_list ++ ts) d
