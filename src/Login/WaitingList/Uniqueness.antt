-- ===== src/Login/WaitingList/Uniqueness.antt =====
-- Nobody waits twice.
use forgotten_land.Base.{
  ℕ, suc, ◌+◌, ◌≤◌, ◌≡◌, refl, sym, ap, ◌∙◌, inl, inr, Bool, List, [], ◌∷◌, ◌++◌, none, some, ◌==◌,
  if◌then◌else◌, length, arith, Bool-cases, ==_iff,
}
use forgotten_land.Base.Words.{u32}
use forgotten_land.Login.WaitingList.{
  Wait, WaitListInfo, Player, Place, cleanup_list, find_in, set_timeout, erase, deadline, retry,
  enqueue, wait_or_enter, client_login,
}
use forgotten_land.Login.WaitingList.Admission.{cleaned}
use forgotten_land.Login.WaitingList.Cases.{wait_or_enter_cases, client_login_cases}

-- How often a player stands in a list.
unfoldable pub count : ℕ → List Wait → ℕ
count g [] = 0
count g (w ∷ ws) = let rest = count g ws in if w.player_guid == g then suc rest else rest

count-cleanup_list : (g time : ℕ) (ws : List Wait) → count g (cleanup_list time ws) ≤ count g ws
unfolding count cleanup_list
count-cleanup_list g time [] = omega arith
count-cleanup_list g time (w ∷ ws) = ground (arith, count-cleanup_list g time ws)

count-erase : (g guid : ℕ) (ws : List Wait) → count g (erase guid ws) ≤ count g ws
unfolding count erase
count-erase g guid [] = omega arith
count-erase g guid (w ∷ ws) = ground (arith, count-erase g guid ws)

count-set_timeout : (g guid t : ℕ) (ws : List Wait) → count g (set_timeout guid t ws) ≡ count g ws
unfolding count set_timeout
count-set_timeout g guid t [] = refl
count-set_timeout g guid t (w ∷ ws) = ground (arith, count-set_timeout g guid t ws)

count-append :
    (g : ℕ) (ws : List Wait) (w : Wait)
    → count g (ws ++ w ∷ []) ≡ count g ws + (if w.player_guid == g then 1 else 0)
unfolding count
count-append g [] w = ground arith
count-append g (v ∷ ws) w = ground (arith, count-append g ws w)

count-eq-zero : (g slot : ℕ) (ws : List Wait) → find_in g slot ws ≡ none → count g ws ≡ 0
unfolding count find_in
count-eq-zero g slot [] e = refl
count-eq-zero g slot (w ∷ ws) e = ground (arith, count-eq-zero g (slot + 1) ws)

abbrev pub waiting : ℕ → WaitListInfo → ℕ
waiting g info = count g info.priority_wait_list + count g info.wait_list

-- Nobody has two entries.
abbrev pub IsUnique : WaitListInfo → Type 0
IsUnique info = (g : ℕ) → waiting g info ≤ 1

waiting-enqueue :
    (p : Player) (time g : ℕ) (info : WaitListInfo)
    → waiting g (enqueue p time info) ≡ waiting g info + (if p.guid == g then 1 else 0)
unfolding enqueue
waiting-enqueue p time g info = elim (Bool-cases p.is_premium) [
  | inl e ↦ rw e (
      omega (
        arith,
        count-append g info.priority_wait_list (record {
          timeout = deadline time (length info.priority_wait_list + 1);
          player_guid = p.guid;
        }),
      ))
  | inr e ↦ rw e (
      omega (
        arith,
        count-append g info.wait_list (record {
          timeout = deadline time (length info.priority_wait_list + length info.wait_list + 1);
          player_guid = p.guid;
        }),
      ))
]

waiting-retry :
    (place : Place) (slot : ℕ) (p : Player) (online max time : ℕ) (info info' : WaitListInfo)
    (done : Bool) (g : ℕ)
    → retry place slot p online max time info ≡ some (done, info')
    → waiting g info' ≤ waiting g info
unfolding retry
waiting-retry Place.in_wait slot p online max time info info' done g e = ground (
  arith,
  count-erase g p.guid info.wait_list,
  count-set_timeout g p.guid (deadline time slot) info.wait_list,
)
waiting-retry Place.in_priority slot p online max time info info' done g e =
    ground (arith, count-set_timeout g p.guid (deadline time slot) info.priority_wait_list)
waiting-retry Place.at_end slot p online max time info info' done g e =
    ground (arith, count-set_timeout g p.guid (deadline time slot) info.wait_list)

waiting-wait_or_enter :
    (p : Player) (online max time : ℕ) (info info' : WaitListInfo) (done : Bool)
    → wait_or_enter p online max time info ≡ some (done, info')
    → IsUnique info
    → IsUnique info'
waiting-wait_or_enter p online max time info info' done e unique g =
    elim (wait_or_enter_cases p online max time info) [
      | inl (none₁, none₂, added) ↦
          let same : enqueue p time info ≡ info' = ground (arith, added) in
          let zero₁ = count-eq-zero p.guid 1 info.priority_wait_list none₁ in
          let zero₂ =
            count-eq-zero p.guid (length info.priority_wait_list + 1) info.wait_list none₂ in
          rw (← same) (elim (Bool-cases (p.guid == g)) [
            | inl i ↦
                let eq : p.guid ≡ g = (==_iff p.guid g).0 i in
                omega (
                  arith,
                  waiting-enqueue p time p.guid info,
                  zero₁,
                  zero₂,
                  ap (λ (k : ℕ). waiting k (enqueue p time info)) eq,
                  one p.guid,
                )
            | inr i ↦ let w = rw i at (waiting-enqueue p time g info) in omega (arith, w, unique g)
          ])
      | inr (place, slot, tried, _, _) ↦ omega (
        arith,
        waiting-retry place slot p online max time info info' done g (sym tried ∙ e),
        unique g,
      )
    ]
  where
    one : (k : ℕ) → ◌≡◌ {A = ℕ} (if k == k then 1 else 0) 1
    one k = ground arith

-- Whatever a login does, nobody comes to stand in the waiting lists twice.
pub client_login-IsUnique :
    (p : Player) (max_number online time : ℕ) (info info' : WaitListInfo) (done : Bool)
    → client_login p max_number online time info ≡ some (done, info')
    → IsUnique info
    → IsUnique info'
client_login-IsUnique p max_number online time info info' done e unique =
    elim (client_login_cases p max_number online time info) [
      | inl kept ↦ let same : info ≡ info' = ground (arith, kept) in rw (← same) unique
      | inr tried ↦
          waiting-wait_or_enter p online (u32 max_number) time (cleaned time info) info' done
            (sym tried ∙ e)
            (λ g. omega (
              arith,
              unique g,
              count-cleanup_list g time info.priority_wait_list,
              count-cleanup_list g time info.wait_list,
            ))
    ]
