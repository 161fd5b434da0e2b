-- ===== src/Accounts/Coins.antt =====
-- The coins of an account, changed by AddCoins and RemoveCoins of
-- src/creatures/players/account/account.cpp, against a ledger of unbounded numbers.
use forgotten_land.Base.{
  ℕ, ◌+◌, ◌-◌, ◌^◌, ◌≤◌, ◌<◌, ◌≡◌, ◌≢◌, refl, ap, ◌∙◌, inl, inr, Bool, true, false, List, [], ◌∷◌,
  some, ltb, leb, ◌==◌, if◌then◌else◌, arith, Bool-cases, All, lt→ltb, ltb→lt,
}
use forgotten_land.Base.Words.{u32}
use forgotten_land.Accounts.{
  Errors, Account, Database, CoinsUpdate, World, current_coins, get_coins, add_coins, remove_coins,
  settle, execute_all, add_database_task,
}

pub data Change : Type 0 where
  deposit withdraw : ℕ → Change

-- The amounts that `uint32_t` holds.
abbrev pub IsWord : Change → Type 0
IsWord (Change.deposit n) = n < 2 ^ 32
IsWord (Change.withdraw n) = n < 2 ^ 32

-- What a change means: one that does not fit is refused and changes nothing.
unfoldable pub entry : Change → ℕ → Errors × ℕ
entry (Change.deposit n) c =
    if ltb (c + n) (2 ^ 32) then (Errors.error_no, c + n) else (Errors.error_value_overflow, c)
entry (Change.withdraw n) c =
    if leb n c then (Errors.error_no, c - n) else (Errors.error_value_not_enough_coins, c)

unfoldable pub ledger : List Change → ℕ → List Errors × ℕ
ledger [] c = ([], c)
ledger (x ∷ xs) c = let (e, c') = entry x c in let (es, c'') = ledger xs c' in (e ∷ es, c'')

-- An account that is set up.
pub record IsReady (a : Account) : Type 0 where
  pub has_db : a.has_db ≡ true
  pub has_db_tasks : a.has_db_tasks ≡ true
  pub id : 0 < a.id

module _ (database : Database) where
  open database use {Db, select_coins, execute, select-execute, select-execute_other}

  unfoldable pub change : Change → Account → World database → Errors × World database
  change (Change.deposit n) a w = add_coins database n a w
  change (Change.withdraw n) a w = remove_coins database n a w

  -- Each change is made after the database's thread has done the one before.
  unfoldable pub run : List Change → Account → World database → List Errors × World database
  run [] a w = ([], w)
  run (x ∷ xs) a w =
      let (e, w') = change x a w in let (es, w'') = run xs a (settle database w') in (e ∷ es, w'')

  current_coins_lem :
      (a : Account) (w : World database) (c : ℕ)
      → IsReady a
      → select_coins a.id w.db ≡ some c
      → c < 2 ^ 32
      → current_coins database a w ≡ c
  unfolding current_coins get_coins
  current_coins_lem a w c ready found word = ground (arith, ready.has_db, ready.id, found)

  module _ (a : Account) (w : World database) (c : ℕ) (ready : IsReady a)
      (found : select_coins a.id w.db ≡ some c) (word : c < 2 ^ 32) where
    -- The state once the coins are written, and once they are in the row.
    written : ℕ → World database
    written n = add_database_task database (record { id = a.id; coins = u32 n }) w

    add_coins_zero : add_coins database 0 a w ≡ (Errors.error_no, w)
    unfolding add_coins
    add_coins_zero = ground (arith, ready.has_db_tasks)

    add_coins_fits :
        (n : ℕ)
        → 0 < n
        → c + n < 2 ^ 32
        → add_coins database n a w ≡ (Errors.error_no, written (c + n))
    unfolding add_coins written
    add_coins_fits n positive fits =
        ground (arith, ready.has_db_tasks, current_coins_lem a w c ready found word)

    add_coins_overflow :
        (n : ℕ)
        → n < 2 ^ 32
        → 2 ^ 32 ≤ c + n
        → add_coins database n a w ≡ (Errors.error_value_overflow, w)
    unfolding add_coins
    add_coins_overflow n small over =
        ground (arith, ready.has_db_tasks, current_coins_lem a w c ready found word)

    remove_coins_zero : remove_coins database 0 a w ≡ (Errors.error_no, w)
    unfolding remove_coins
    remove_coins_zero = ground (arith, ready.has_db_tasks)

    remove_coins_fits :
        (n : ℕ) → 0 < n → n ≤ c → remove_coins database n a w ≡ (Errors.error_no, written (c - n))
    unfolding remove_coins written
    remove_coins_fits n positive fits =
        ground (arith, ready.has_db_tasks, current_coins_lem a w c ready found word)

    remove_coins_short :
        (n : ℕ)
        → n < 2 ^ 32
        → c < n
        → remove_coins database n a w ≡ (Errors.error_value_not_enough_coins, w)
    unfolding remove_coins
    remove_coins_short n small short =
        ground (arith, ready.has_db_tasks, current_coins_lem a w c ready found word)

    settle-written :
        (n : ℕ)
        → w.running ≡ true
        → w.pending ≡ []
        → n < 2 ^ 32
        → select_coins a.id (settle database (written n)).db ≡ some n
    unfolding settle execute_all add_database_task written
    settle-written n running idle small =
        rw (running, idle) (select-execute a.id n c w.db found ∙ ap some (omega arith))

    settle_idle : w.pending ≡ [] → select_coins a.id (settle database w).db ≡ some c
    unfolding settle execute_all
    settle_idle idle = rw idle found

    -- A change agrees with its entry, in its result and in the row after the task is done.
    AgreesWith : Errors × World database → Errors × ℕ → Type 0
    AgreesWith got meant =
        (got.0 ≡ meant.0)
        × (select_coins a.id (settle database got.1).db ≡ some meant.1)
        × (meant.1 < 2 ^ 32)

    add_coins_lem :
        (n : ℕ)
        → n < 2 ^ 32
        → w.running ≡ true
        → w.pending ≡ []
        → AgreesWith (add_coins database n a w) (entry (Change.deposit n) c)
    unfolding AgreesWith entry
    add_coins_lem n small running idle = elim (Bool-cases (ltb (c + n) (2 ^ 32))) [
      | inl fits ↦ elim (Bool-cases (n == 0)) [
        | inl zero ↦
            let e : n ≡ 0 = ground arith in
            let d : c + 0 ≡ c = omega arith in
            rw e (rw (add_coins_zero, d, lt→ltb c (2 ^ 32) word) (refl, settle_idle idle, word))
        | inr positive ↦
            rw (add_coins_fits n (ground arith) (ltb→lt _ _ fits), fits)
              (refl, settle-written (c + n) running idle (ltb→lt _ _ fits), ltb→lt _ _ fits)
      ]
      | inr over ↦
          rw (add_coins_overflow n small (ground arith), over) (refl, settle_idle idle, word)
    ]

    remove_coins_lem :
        (n : ℕ)
        → n < 2 ^ 32
        → w.running ≡ true
        → w.pending ≡ []
        → AgreesWith (remove_coins database n a w) (entry (Change.withdraw n) c)
    unfolding AgreesWith entry
    remove_coins_lem n small running idle = elim (Bool-cases (leb n c)) [
      | inl fits ↦ elim (Bool-cases (n == 0)) [
        | inl zero ↦
            let e : n ≡ 0 = ground arith in
            let d : c - 0 ≡ c = omega arith in
            let f : leb 0 c ≡ true = ground arith in
            rw e (rw (remove_coins_zero, d, f) (refl, settle_idle idle, word))
        | inr positive ↦
            rw (remove_coins_fits n (ground arith) (ground arith), fits)
              (refl, settle-written (c - n) running idle (omega arith), omega arith)
      ]
      | inr short ↦
          rw (remove_coins_short n small (ground arith), short) (refl, settle_idle idle, word)
    ]

  change_lem :
      (x : Change) (a : Account) (w : World database) (c : ℕ) (ready : IsReady a)
      (found : select_coins a.id w.db ≡ some c) (word : c < 2 ^ 32)
      → IsWord x
      → w.running ≡ true
      → w.pending ≡ []
      → AgreesWith a w c ready found word (change x a w) (entry x c)
  unfolding change
  change_lem (Change.deposit n) a w c ready found word small running idle =
      add_coins_lem a w c ready found word n small running idle
  change_lem (Change.withdraw n) a w c ready found word small running idle =
      remove_coins_lem a w c ready found word n small running idle

  settle-pending : (w : World database) → (settle database w).pending ≡ []
  unfolding settle
  settle-pending w = refl

  change-running :
      (x : Change) (a : Account) (w : World database) → (change x a w).1.running ≡ w.running
  unfolding change add_coins remove_coins add_database_task
  change-running (Change.deposit n) a w = ground arith
  change-running (Change.withdraw n) a w = ground arith

  settle-running : (w : World database) → (settle database w).running ≡ w.running
  unfolding settle
  settle-running w = refl

  -- Changes of an account that is set up, of amounts that fit 32 bits, each made after the task of
  -- the one before is done by the running thread of the database, and begun on a row whose coins fit
  -- 32 bits with no task waiting, give the results of the ledger and leave its balance in the row: coins are neither lost nor made,
  -- they never go below 0 nor wrap, and a change is refused only if it would.
  pub run-ledger :
      (xs : List Change) (a : Account) (w : World database) (c : ℕ)
      → IsReady a
      → select_coins a.id w.db ≡ some c
      → c < 2 ^ 32
      → All IsWord xs
      → w.running ≡ true
      → w.pending ≡ []
      → ((run xs a w).0 ≡ (ledger xs c).0)
        × (select_coins a.id (run xs a w).1.db ≡ some (ledger xs c).1)
  unfolding run ledger AgreesWith
  run-ledger [] a w c ready found word small running idle = (refl, found)
  run-ledger (x ∷ xs) a w c ready found word small running idle =
      let (result, row, word') = change_lem x a w c ready found word small.0 running idle in
      let (results, rows) =
        run-ledger xs a (settle database (change x a w).1) (entry x c).1 ready row word' small.1
          (settle-running (change x a w).1 ∙ change-running x a w ∙ running)
          (settle-pending (change x a w).1) in
      (rw (result, results) refl, rows)

  -- Two deposits to an account that is set up, which fit 32 bits, while the thread of the database
  -- runs, of which the second is made before the task of the first is done: the first is lost, although both report success.
  pub add_coins-add_coins :
      (a : Account) (w : World database) (c n k : ℕ)
      → IsReady a
      → select_coins a.id w.db ≡ some c
      → 0 < n
      → 0 < k
      → c + n < 2 ^ 32
      → c + k < 2 ^ 32
      → w.running ≡ true
      → w.pending ≡ []
      → let first = add_coins database n a w in
        let second = add_coins database k a first.1 in
        (first.0 ≡ Errors.error_no)
        × (second.0 ≡ Errors.error_no)
        × (select_coins a.id (settle database second.1).db ≡ some (c + k))
  unfolding settle execute_all add_database_task written
  add_coins-add_coins a w c n k ready found some_n some_k fits fits' running idle =
      let word : c < 2 ^ 32 = omega arith in
      let first = add_coins_fits a w c ready found word n some_n fits in
      let after = written a w c ready found word (c + n) in
      let there : select_coins a.id after.db ≡ some c = rw running found in
      let second = add_coins_fits a after c ready there word k some_k fits' in
      rw (first, second, running, idle)
        (
          refl,
          refl,
          select-execute a.id (c + k) (u32 (c + n)) _ (select-execute a.id (c + n) c w.db found)
              ∙ ap some (omega arith),
        )

  -- The tasks that wait are about this account.
  Own : ℕ → Errors × World database → Type 0
  Own id r = All (λ (t : CoinsUpdate). t.id ≡ id) r.1.pending

  Own-if :
      (id : ℕ) (b : Bool) (p q : Errors × World database)
      → Own id p
      → Own id q
      → Own id (if b then p else q)
  Own-if id true p q x y = x
  Own-if id false p q x y = y

  Own-change :
      (x : Change) (a : Account) (w : World database) → w.pending ≡ [] → Own a.id (change x a w)
  unfolding Own change add_coins remove_coins add_database_task
  Own-change (Change.deposit n) a w idle = ground arith
  Own-change (Change.withdraw n) a w idle = ground arith

  execute_all-other :
      (id j : ℕ) (ts : List CoinsUpdate) (db : Db)
      → All (λ (t : CoinsUpdate). t.id ≡ id) ts
      → j ≢ id
      → select_coins j (execute_all database ts db) ≡ select_coins j db
  unfolding execute_all
  execute_all-other id j [] db own other = refl
  execute_all-other id j (t ∷ ts) db own other =
      execute_all-other id j ts (execute t db) own.1 other
      ∙ select-execute_other t.id j t.coins db (λ e. other (e ∙ own.0))

  change-db : (x : Change) (a : Account) (w : World database) → (change x a w).1.db ≡ w.db
  unfolding change add_coins remove_coins add_database_task
  change-db (Change.deposit n) a w = ground arith
  change-db (Change.withdraw n) a w = ground arith

  -- Changes of one account, with no task waiting before, leave the coins of every other account
  -- as they were, whatever the state of the account and of the database.
  pub run_others :
      (xs : List Change) (a : Account) (w : World database) (j : ℕ)
      → w.pending ≡ []
      → j ≢ a.id
      → select_coins j (run xs a w).1.db ≡ select_coins j w.db
  unfolding run settle Own
  run_others [] a w j idle other = refl
  run_others (x ∷ xs) a w j idle other =
      run_others xs a (settle database (change x a w).1) j (settle-pending (change x a w).1) other
      ∙ execute_all-other a.id j (change x a w).1.pending (change x a w).1.db
          (Own-change x a w idle) other
      ∙ ap (select_coins j) (change-db x a w)
