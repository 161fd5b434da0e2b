-- ===== src/Accounts.antt =====
-- `Account` of src/creatures/players/account/account.cpp. The database server is outside: an
-- interface answers the queries, which are values here instead of SQL text. Updates of coins are
-- tasks of src/database/databasetasks.cpp, which its thread carries out later, in order.
pub mod Coins
use forgotten_land.Base.{
  ℕ, ◌+◌, ◌-◌, ◌^◌, ◌≡◌, ◌≢◌, Bool, true, false, not, ◌||◌, List, [], ◌∷◌, ◌++◌, Option, none, some,
  ltb, leb, ◌==◌, if◌then◌else◌,
}
use forgotten_land.Base.Words.{u8, u16, u32}

pub data Errors : Type 0 where
  error_no error_db error_invalid_account_email error_invalid_acc_password error_invalid_acc_type
        error_invalid_id error_invalid_last_day error_loading_account_players error_not_initialized
        error_nullptr error_value_not_enough_coins error_value_overflow error_player_not_found :
      Errors

-- Strings are lists of bytes, the last day a 64-bit word. The pointers to the database and to its
-- tasks are there or null.
pub record Account : Type 0 where
  pub has_db : Bool
  pub has_db_tasks : Bool
  pub id : ℕ
  pub email : List ℕ
  pub password : List ℕ
  pub premium_remaining_days : ℕ
  pub premium_last_day : ℕ
  pub account_type : ℕ

-- `Account::Account(uint32_t id)`
unfoldable pub account_of : ℕ → Account
account_of id = record {
  has_db = true;
  has_db_tasks = true;
  id = id;
  email = [];
  password = [];
  premium_remaining_days = 0;
  premium_last_day = 0;
  account_type = 1;
}

abbrev pub is_empty : List ℕ → Bool
is_empty [] = true
is_empty (b ∷ bs) = false

unfoldable pub set_id : ℕ → Account → Errors × Account
set_id id a =
    if id == 0 then (Errors.error_invalid_id, a) else (Errors.error_no, record a { id = id })

unfoldable pub set_email : List ℕ → Account → Errors × Account
set_email email a =
    if is_empty email
    then (Errors.error_invalid_account_email, a)
    else (Errors.error_no, record a { email = email })

unfoldable pub set_password : List ℕ → Account → Errors × Account
set_password password a =
    if is_empty password
    then (Errors.error_invalid_acc_password, a)
    else (Errors.error_no, record a { password = password })

unfoldable pub set_premium_remaning_days : ℕ → Account → Errors × Account
set_premium_remaning_days days a = (Errors.error_no, record a { premium_remaining_days = days })

unfoldable pub set_premium_last_day : ℕ → Account → Errors × Account
set_premium_last_day last_day a =
    if leb (2 ^ 63) last_day
    then (Errors.error_invalid_last_day, a)
    else (Errors.error_no, record a { premium_last_day = last_day })

unfoldable pub set_account_type : ℕ → Account → Errors × Account
set_account_type account_type a =
    if ltb 5 account_type
    then (Errors.error_invalid_acc_type, a)
    else (Errors.error_no, record a { account_type = account_type })

-- A row of the accounts.
pub record Row : Type 0 where
  pub id : ℕ
  pub email : List ℕ
  pub type : ℕ
  pub password : List ℕ
  pub premdays : ℕ
  pub lastday : ℕ

-- `LoadAccountDB` with the answer to its query. With no answer it returns `false`, which as a number
-- is `ERROR_NO`. The results of the setters are ignored.
unfoldable pub load_account_db : Option Row → Account → Errors × Account
unfolding set_id set_email set_account_type set_password set_premium_remaning_days
    set_premium_last_day
load_account_db result a = if not a.has_db then (Errors.error_nullptr, a) else elim result [
  | none ↦ (Errors.error_no, a)
  | some r ↦
      let (_, a₁) = set_id (u32 r.id) a in
      let (_, a₂) = set_email r.email a₁ in
      let (_, a₃) = set_account_type (u8 r.type) a₂ in
      let (_, a₄) = set_password r.password a₃ in
      let (_, a₅) = set_premium_remaning_days (u16 r.premdays) a₄ in
      let (_, a₆) = set_premium_last_day r.lastday a₅ in (Errors.error_no, a₆)
]

-- `UPDATE accounts SET coins = … WHERE id = …`
pub record CoinsUpdate : Type 0 where
  pub id : ℕ
  pub coins : ℕ

-- What the code relies on of the database: an update of a row that is there, with a value that the
-- column holds, is what a query finds from then on; it changes no other row.
pub record Database : Type 1 where
  pub Db : Type 0
  pub select_coins : ℕ → Db → Option ℕ
  pub execute : CoinsUpdate → Db → Db
  pub select-execute :
      (id n c : ℕ) (db : Db)
      → select_coins id db ≡ some c
      → select_coins id (execute (record { id = id; coins = u32 n }) db) ≡ some (u32 n)
  pub select-execute_other :
      (id j : ℕ) (n : ℕ) (db : Db)
      → j ≢ id
      → select_coins j (execute (record { id = id; coins = n }) db) ≡ select_coins j db

module _ (database : Database) where
  open database use {Db, select_coins, execute}

  -- The rows, the tasks that wait for the thread of the database, and whether the thread is in the
  -- state THREAD_STATE_RUNNING.
  pub record World : Type 0 where
    pub db : Db
    pub pending : List CoinsUpdate
    pub running : Bool

  -- `DatabaseTasks::addTask`: a task that comes when the thread is not running is dropped.
  unfoldable pub add_database_task : CoinsUpdate → World → World
  add_database_task t w = if w.running then record w { pending = w.pending ++ t ∷ [] } else w

  -- `DatabaseTasks::flush`: what the thread does until no task waits.
  unfoldable pub execute_all : List CoinsUpdate → Db → Db
  execute_all [] db = db
  execute_all (t ∷ ts) db = execute_all ts (execute t db)

  unfoldable pub settle : World → World
  settle w = record w { db = execute_all w.pending w.db; pending = [] }

  -- `coins` is what the variable that is pointed to holds before, if the pointer is not null.
  unfoldable pub get_coins : Account → World → Option ℕ → Errors × Option ℕ
  get_coins a w none = (Errors.error_not_initialized, none)
  get_coins a w (some coins) =
      if not a.has_db || a.id == 0
      then (Errors.error_not_initialized, some coins)
      else elim (select_coins a.id w.db) [
        | none ↦ (Errors.error_db, some coins)
        | some c ↦ (Errors.error_no, some (u32 c))
      ]

  -- `current_coins`, 0 at first, after `GetCoins`, whose result is ignored.
  unfoldable pub current_coins : Account → World → ℕ
  unfolding get_coins
  current_coins a w = elim ((get_coins a w (some 0)).1) [ none ↦ 0 | some c ↦ c ]

  unfoldable pub add_coins : ℕ → Account → World → Errors × World
  add_coins amount a w =
      let current = current_coins a w in
      if not a.has_db_tasks
      then (Errors.error_nullptr, w)
      else if amount == 0
      then (Errors.error_no, w)
      else if ltb (u32 (current + amount)) current
      then (Errors.error_value_overflow, w)
      else (
        Errors.error_no,
        add_database_task (record { id = a.id; coins = u32 (current + amount) }) w,
      )

  unfoldable pub remove_coins : ℕ → Account → World → Errors × World
  remove_coins amount a w =
      let current = current_coins a w in
      let left = u32 (current + (2 ^ 32 - u32 amount)) in
      if not a.has_db_tasks
      then (Errors.error_nullptr, w)
      else if amount == 0
      then (Errors.error_no, w)
      else if ltb current left
      then (Errors.error_value_not_enough_coins, w)
      else (Errors.error_no, add_database_task (record { id = a.id; coins = left }) w)
