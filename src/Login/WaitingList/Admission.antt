-- ===== src/Login/WaitingList/Admission.antt =====
-- Who is admitted, and what happens to the entries of the lists.
use forgotten_land.Base.{
  ℕ, ◌+◌, ◌^◌, ◌≤◌, ◌<◌, ◌≡◌, refl, ◌≢◌, inl, inr, true, false, List, [], ◌∷◌, some, length, All,
  arith, Option-cases,
}
use forgotten_land.Base.Words.{u32}
use forgotten_land.Login.WaitingList.{
  Wait, WaitListInfo, Player, cleanup_list, find_in, find_client, set_timeout, retry, wait_or_enter,
  client_login,
}

-- The staff that never waits.
abbrev pub IsOrdinary : Player → Type 0
IsOrdinary p = (p.can_always_login ≡ false) × (p.account_type < 4)

-- Slots count from the first slot of the list.
pub find_in-le : (guid slot : ℕ) (ws : List Wait) (k : ℕ) → find_in guid slot ws ≡ some k → slot ≤ k
unfolding find_in
find_in-le guid slot [] k e = absurd (cc)
find_in-le guid slot (w ∷ ws) k e = ground (arith, find_in-le guid (slot + 1) ws k)

find_client_slot : (guid : ℕ) (info : WaitListInfo) → 1 ≤ (find_client guid info).1
unfolding find_client
find_client_slot guid info =
    let next = length info.priority_wait_list + 1 in
    elim (Option-cases (find_in guid 1 info.priority_wait_list)) [
      | inl e ↦ elim (Option-cases (find_in guid next info.wait_list)) [
        | inl d ↦ rw (e, d, find_client) (omega arith)
        | inr (k, d) ↦
            rw (e, d, find_client) (omega (arith, find_in-le guid next info.wait_list k d))
      ]
      | inr (k, e) ↦ rw (e, find_client) (find_in-le guid 1 info.priority_wait_list k e)
    ]

-- Who waited and enters has a slot that the free places cover.
wait_or_enter_room :
    (p : Player) (online max time : ℕ) (info info' : WaitListInfo)
    → wait_or_enter p online max time info ≡ some (true, info')
    → online < max
unfolding wait_or_enter retry
wait_or_enter_room p online max time info info' e = ground (arith, find_client_slot p.guid info)

-- The lists that `clientLogin` looks at.
abbrev pub cleaned : ℕ → WaitListInfo → WaitListInfo
cleaned time info = record {
  priority_wait_list = cleanup_list time info.priority_wait_list;
  wait_list = cleanup_list time info.wait_list;
}

-- An ordinary player is admitted to a server with a limit only while fewer players than the limit
-- are online.
pub client_login_room :
    (p : Player) (max_number online time : ℕ) (info info' : WaitListInfo)
    → IsOrdinary p
    → u32 max_number ≢ 0
    → client_login p max_number online time info ≡ some (true, info')
    → online < u32 max_number
unfolding client_login
client_login_room p max_number online time info info' ordinary limit e =
    ground (arith, wait_or_enter_room p online (u32 max_number) time (cleaned time info) info')

pub find_in-set_timeout :
    (g guid t slot : ℕ) (ws : List Wait)
    → find_in g slot (set_timeout guid t ws) ≡ find_in g slot ws
unfolding find_in set_timeout
find_in-set_timeout g guid t slot [] = refl
find_in-set_timeout g guid t slot (w ∷ ws) =
    ground (arith, find_in-set_timeout g guid t (slot + 1) ws)

-- A list of entries whose timeouts have all passed is kept whole by the cleanup.
pub cleanup_list_passed :
    (time : ℕ) (ws : List Wait)
    → time < 2 ^ 63
    → All (λ (w : Wait). w.timeout < time) ws
    → cleanup_list time ws ≡ ws
unfolding cleanup_list
cleanup_list_passed time [] h passed = refl
cleanup_list_passed time (w ∷ ws) h passed = ground (arith, cleanup_list_passed time ws h passed.1)
