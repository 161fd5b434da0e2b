-- ===== src/Login/WaitingList.antt =====
-- `WaitingList` of src/creatures/players/management/waitlist.cpp: who may enter a full server, and
-- in what order the others wait. Times are in milliseconds; `time` is `OTSYS_TIME()`, read once.
pub mod Admission
pub mod Cases
pub mod Uniqueness
pub mod Order
use forgotten_land.Base.{
  ℕ, ◌+◌, ◌-◌, ◌*◌, ◌^◌, Bool, true, false, ◌&&◌, ◌||◌, List, [], ◌∷◌, ◌++◌, Option, none, some,
  ltb, leb, ◌==◌, if◌then◌else◌, length,
}
use forgotten_land.Base.Words.{u32, u64}

pub record Wait : Type 0 where
  pub timeout : ℕ
  pub player_guid : ℕ

pub record WaitListInfo : Type 0 where
  pub priority_wait_list : List Wait
  pub wait_list : List Wait

-- What the list asks of a player: the flag is `hasFlag(PlayerFlag_CanAlwaysLogin)`.
pub record Player : Type 0 where
  pub guid : ℕ
  pub can_always_login : Bool
  pub account_type : ℕ
  pub is_premium : Bool

-- `(timeout - time) <= 0` is computed in `size_t`.
unfoldable pub is_due : ℕ → Wait → Bool
is_due time w = leb (u64 (w.timeout + (2 ^ 64 - time))) 0

unfoldable pub cleanup_list : ℕ → List Wait → List Wait
unfolding is_due
cleanup_list time [] = []
cleanup_list time (w ∷ ws) =
    if is_due time w then cleanup_list time ws else w ∷ cleanup_list time ws

unfoldable pub get_time : ℕ → ℕ
get_time slot =
    if ltb slot 5
    then 5
    else if ltb slot 10
    then 10
    else if ltb slot 20
    then 20
    else if ltb slot 50
    then 60
    else 120

unfoldable pub get_timeout : ℕ → ℕ
unfolding get_time
get_timeout slot = get_time slot + 15

-- The slot of the first entry of a player from `slot` on.
unfoldable pub find_in : ℕ → ℕ → List Wait → Option ℕ
find_in guid slot [] = none
find_in guid slot (w ∷ ws) = if w.player_guid == guid then some slot else find_in guid (slot + 1) ws

-- The iterator of `findClient`: which list it points into.
pub data Place : Type 0 where
  in_priority : Place
  in_wait : Place
  at_end : Place

unfoldable pub find_client : ℕ → WaitListInfo → Place × ℕ
find_client guid info = elim (find_in guid 1 info.priority_wait_list) [
  | some slot ↦ (Place.in_priority, slot)
  | none ↦ elim (find_in guid (length info.priority_wait_list + 1) info.wait_list) [
    | some slot ↦ (Place.in_wait, slot)
    | none ↦ (Place.at_end, length info.priority_wait_list + length info.wait_list + 1)
  ]
]

-- `it->timeout = t` and `erase(it)`, at the first entry of the player.
unfoldable pub set_timeout : ℕ → ℕ → List Wait → List Wait
set_timeout guid t [] = []
set_timeout guid t (w ∷ ws) =
    if w.player_guid == guid then record w { timeout = t } ∷ ws else w ∷ set_timeout guid t ws

unfoldable pub erase : ℕ → List Wait → List Wait
erase guid [] = []
erase guid (w ∷ ws) = if w.player_guid == guid then ws else w ∷ erase guid ws

abbrev pub is_empty : List Wait → Bool
is_empty [] = true
is_empty (_ ∷ _) = false

abbrev pub account_type_gamemaster : ℕ
account_type_gamemaster = 4

abbrev pub deadline : ℕ → ℕ → ℕ
deadline time slot = u64 (time + get_timeout slot * 1000)

-- A player that waits, at its place and slot. To erase an element of the priority list from the
-- other list is undefined behaviour: `none`.
unfoldable pub retry : Place → ℕ → Player → ℕ → ℕ → ℕ → WaitListInfo → Option (Bool × WaitListInfo)
retry place slot player online max_players time info =
    if leb (online + slot) max_players
    then elim place [
      | Place.in_wait ↦ some (true, record info { wait_list = erase player.guid info.wait_list })
      | _ ↦ none
    ]
    else some (
      false,
      elim place [
        | Place.in_priority ↦ record info {
          priority_wait_list = set_timeout player.guid (deadline time slot) info.priority_wait_list;
        }
        | _ ↦ record info {
          wait_list = set_timeout player.guid (deadline time slot) info.wait_list;
        }
      ],
    )

-- A player that does not wait yet, at the end of its list.
unfoldable pub enqueue : Player → ℕ → WaitListInfo → WaitListInfo
enqueue player time info =
    let slot = length info.priority_wait_list in
    let slot' = slot + length info.wait_list in
    if player.is_premium
    then record info {
      priority_wait_list =
          info.priority_wait_list
          ++ record { timeout = deadline time (slot + 1); player_guid = player.guid } ∷ [];
    }
    else record info {
      wait_list =
          info.wait_list
          ++ record { timeout = deadline time (slot' + 1); player_guid = player.guid } ∷ [];
    }

-- The lists after the cleanup, and the entry or the place of the player.
unfoldable pub wait_or_enter : Player → ℕ → ℕ → ℕ → WaitListInfo → Option (Bool × WaitListInfo)
wait_or_enter player online max_players time info =
    let (place, slot) = find_client player.guid info in
    elim place [
      | Place.at_end ↦ some (false, enqueue player time info)
      | found ↦ retry found slot player online max_players time info
    ]

-- `max_number` is the configured MAX_PLAYERS and `online` is `getPlayersOnline()`.
unfoldable pub client_login : Player → ℕ → ℕ → ℕ → WaitListInfo → Option (Bool × WaitListInfo)
client_login player max_number online time info =
    let max_players = u32 max_number in
    let both_empty = is_empty info.priority_wait_list && is_empty info.wait_list in
    let cleaned : WaitListInfo = record {
      priority_wait_list = cleanup_list time info.priority_wait_list;
      wait_list = cleanup_list time info.wait_list;
    } in
    if player.can_always_login || leb account_type_gamemaster player.account_type
    then some (true, info)
    else if max_players == 0 || (both_empty && ltb online max_players)
    then some (true, info)
    else wait_or_enter player online max_players time cleaned

-- 0 for a player that does not wait.
unfoldable pub get_client_slot : Player → WaitListInfo → ℕ
get_client_slot player info =
    let (place, slot) = find_client player.guid info in
    elim place [ Place.in_wait ↦ slot | Place.in_priority ↦ slot | Place.at_end ↦ 0 ]
