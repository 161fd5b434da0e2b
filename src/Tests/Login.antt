-- ===== src/Tests/Login.antt =====
-- Examples for the throttle and for the waiting list.
use forgotten_land.Base.{
  ℕ, ◌+◌, ◌-◌, ◌≤◌, ◌<◌, ◌≡◌, refl, ◌≢◌, ◌↔◌, ◌⊎◌, true, false, List, [], ◌∷◌, none, some, length,
  arith,
}
use forgotten_land.Login.Ban.{ConnectBlock, find, store, attempt, accept_connection}
use forgotten_land.Login.Ban.Throttle.{
  IsValid, attempt_accepted, all_accepted, all_accepted-le, accept_connection-IsValid,
}
use forgotten_land.Login.WaitingList.{
  WaitListInfo, Player, is_due, cleanup_list, get_time, get_timeout, find_in, find_client,
  set_timeout, erase, retry, enqueue, wait_or_enter, client_login, get_client_slot,
}
use forgotten_land.Login.WaitingList.Admission.{client_login_room, cleanup_list_passed}
use forgotten_land.Login.WaitingList.Uniqueness.{count, IsUnique, client_login-IsUnique}
use forgotten_land.Login.WaitingList.Order.{KeepsPlace, wait_or_enter-KeepsPlace}

program : Unit {0}
unfolding find store attempt accept_connection all_accepted is_due cleanup_list get_time get_timeout
    find_in find_client set_timeout erase retry enqueue wait_or_enter client_login get_client_slot
    count
program = tt

abbrev seen : ConnectBlock
seen = record { last_attempt = 1000; block_time = 0; count = 1 }

attempt_accepted_example :
    ((attempt 1200 seen).0 ≡ true) ↔ ((0 ≤ 1200) × ((1 < 5) ⊎ (500 < 1200 - 1000)))
attempt_accepted_example = attempt_accepted 1200 seen (omega arith) (omega arith)

abbrev burst : List ℕ
burst = 1100 ∷ 1200 ∷ 1300 ∷ 1400 ∷ []

all_accepted-le_example : 1 + length burst ≤ 5
all_accepted-le_example =
    all_accepted-le burst seen (omega arith) (omega arith) (unfold program in refl)

sixth_refused : all_accepted (1100 ∷ 1200 ∷ 1300 ∷ 1400 ∷ 1500 ∷ []) seen ≡ false
unfolding program
sixth_refused = refl

accept_connection-IsValid_example :
    IsValid (accept_connection 1200 9 []).1
    × ((j : ℕ) → 9 ≢ j → find j (accept_connection 1200 9 []).1 ≡ find j [])
accept_connection-IsValid_example =
    accept_connection-IsValid 1200 9 [] (unfold program in (λ ip b e. absurd (cc)))

abbrev ann : Player
ann = record { guid = 1; can_always_login = false; account_type = 1; is_premium = false }

abbrev bob : Player
bob = record { guid = 2; can_always_login = false; account_type = 1; is_premium = true }

-- Ann waits in the common list, Bob in the priority list.
abbrev line : WaitListInfo
line = record {
  priority_wait_list = record { timeout = 20_000; player_guid = 2 } ∷ [];
  wait_list = record { timeout = 30_000; player_guid = 1 } ∷ [];
}

abbrev ann_line : WaitListInfo
ann_line = record {
  priority_wait_list = [];
  wait_list = record { timeout = 30_000; player_guid = 1 } ∷ [];
}

abbrev no_line : WaitListInfo
no_line = record { priority_wait_list = []; wait_list = [] }

ann_enters : client_login ann 10 9 10_000 ann_line ≡ some (true, no_line)
unfolding program
ann_enters = refl

ann_waits_slot : get_client_slot ann line ≡ 2
unfolding program
ann_waits_slot = refl

client_login_room_example : 9 < 10
client_login_room_example =
    client_login_room ann 10 9 10_000 ann_line no_line (refl, omega arith) (omega arith) ann_enters

cleanup_list_passed_example :
    cleanup_list 40_000 (record { timeout = 30_000; player_guid = 1 } ∷ [])
    ≡ record { timeout = 30_000; player_guid = 1 } ∷ []
cleanup_list_passed_example = cleanup_list_passed 40_000 _ (omega arith) (omega arith)

-- A premium player whose turn has come is erased through the other list.
premium_erased : client_login bob 10 9 10_000 line ≡ none
premium_erased = unfold program in refl

line-IsUnique : IsUnique ann_line
unfolding program
line-IsUnique g = ground arith

client_login-IsUnique_example : IsUnique no_line
client_login-IsUnique_example =
    client_login-IsUnique ann 10 9 10_000 ann_line no_line true ann_enters line-IsUnique

abbrev refused_line : WaitListInfo
refused_line = record {
  priority_wait_list = record { timeout = 20_000; player_guid = 2 } ∷ [];
  wait_list = record { timeout = 30_000; player_guid = 1 } ∷ [];
}

wait_or_enter-KeepsPlace_example : KeepsPlace 2 line refused_line
wait_or_enter-KeepsPlace_example =
    wait_or_enter-KeepsPlace ann 9 10 10_000 line refused_line false 2 (omega arith)
      (unfold program in refl)
