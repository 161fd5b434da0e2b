-- ===== src/Tests/Accounts.antt =====
-- The coins of two accounts in a database that is a function.
use forgotten_land.Base.{
  ℕ, ◌≡◌, refl, true, List, [], ◌∷◌, Option, some, arith, ◌==◌, if◌then◌else◌,
}
use forgotten_land.Accounts.{
  Errors, Account, CoinsUpdate, Database, World, account_of, get_coins, current_coins, add_coins,
  remove_coins, add_database_task, execute_all, settle,
}
use forgotten_land.Accounts.Coins.{
  Change, entry, ledger, IsReady, change, run, run-ledger, add_coins-add_coins, run_others,
}

abbrev Rows : Type 0
Rows = ℕ → Option ℕ

abbrev update_row : CoinsUpdate → Rows → Rows
update_row t db j = if j == t.id then some t.coins else db j

abbrev function_database : Database
function_database = record {
  Db = Rows;
  select_coins = λ id db. db id;
  execute = update_row;
  select-execute = λ id n c db found. ground arith;
  select-execute_other = λ id j n db other. ground arith;
}

program : Unit {0}
unfolding account_of get_coins current_coins add_coins remove_coins add_database_task execute_all
    settle entry ledger change run
program = tt

abbrev world : World function_database
world = record { db = λ id. some 50; pending = []; running = true }

abbrev holder : Account
holder = record {
  has_db = true;
  has_db_tasks = true;
  id = 7;
  email = [];
  password = [];
  premium_remaining_days = 0;
  premium_last_day = 0;
  account_type = 1;
}

holder_is_account_of : account_of 7 ≡ holder
holder_is_account_of = unfold program in refl

holder-IsReady : IsReady holder
holder-IsReady = record { has_db = refl; has_db_tasks = refl; id = omega arith }

abbrev changes : List Change
changes = Change.deposit 25 ∷ Change.withdraw 80 ∷ Change.withdraw 75 ∷ []

run-ledger_example :
    ((run function_database changes holder world).0 ≡ (ledger changes 50).0)
    × ((run function_database changes holder world).1.db 7 ≡ some (ledger changes 50).1)
run-ledger_example =
    run-ledger function_database changes holder world 50 holder-IsReady refl (omega arith)
      (omega arith, (omega arith, (omega arith, tt))) refl refl

changes_end : (ledger changes 50).1 ≡ 0
changes_end = unfold program in refl

add_coins-add_coins_example :
    let first = add_coins function_database 5 holder world in
    let second = add_coins function_database 9 holder first.1 in
    (first.0 ≡ Errors.error_no)
    × (second.0 ≡ Errors.error_no)
    × ((settle function_database second.1).db 7 ≡ some 59)
add_coins-add_coins_example =
    add_coins-add_coins function_database holder world 50 5 9 holder-IsReady refl (omega arith)
      (omega arith) (omega arith) (omega arith) refl refl

run_others_example : (run function_database changes holder world).1.db 8 ≡ some 50
run_others_example =
    run_others function_database changes holder world 8 refl (λ e. absurd (omega (arith, e)))
