-- ===== src/Server/Sql.antt =====
-- One statement sent to the database by `sqlx`: it takes effect as a whole, or fails and changes
-- no table.
pub mod Acts
pub mod Steps
pub mod Keeps
use istat.Prelude.{Bool, if◌then◌else◌, String, Option, none, some, List, [], ◌∷◌}
use istat.Outcome.{Outcome, ok, err}
use istat.Action.{Action}
use istat.Server.Db.{Db}

-- What a statement can fail with: a key that is taken, another constraint of the schema, or the
-- environment (a lost connection, a locked file).
pub data SqlError : Type 0 where
  unique_violation constraint_failed : SqlError
  unavailable : String → SqlError

abbrev pub Sql : Type 0 → Type 0
Sql A = Action SqlError Db A

module _ {A : Type 0} where
  abbrev pub attempt : List (Option String) → Sql A → Sql A
  attempt [] run db = run db
  attempt (none ∷ rest) run db = run (record db { faults = rest })
  attempt (some message ∷ rest) run db = (err (unavailable message), record db { faults = rest })

  unfoldable pub statement : Sql A → Sql A
  statement run db = attempt db.faults run db

  -- SELECT
  unfoldable pub query : (Db → A) → Sql A
  unfolding statement
  query read = statement (λ db. (ok (read db), db))

-- an INSERT, UPDATE or DELETE that meets no constraint
unfoldable pub execute : (Db → Db) → Sql (Unit {0})
unfolding statement
execute write = statement (λ db. (ok tt, write db))

-- `row` is the row that has the new row's key already
abbrev pub unless_taken {ℓ} : {V : Type ℓ} → Option V → Db → Sql (Unit {0})
unless_taken none after db = (ok tt, after)
unless_taken (some row) after db = (err unique_violation, db)

-- an INSERT with no conflict clause
unfoldable pub insert : {V : Type 0} → (Db → Option V) → (Db → Db) → Sql (Unit {0})
unfolding statement
insert taken write = statement (λ db. unless_taken (taken db) (write db) db)

-- an INSERT whose row must meet the other constraints of the schema as well
unfoldable pub insert_checked :
    {V : Type 0} → (Db → Bool) → (Db → Option V) → (Db → Db) → Sql (Unit {0})
unfolding statement
insert_checked allowed taken write = statement (λ db.
    let fails : Outcome SqlError (Unit {0}) × Db = (err constraint_failed, db) in
    if allowed db then unless_taken (taken db) (write db) db else fails)

-- a statement that also answers, with the number of rows affected for one
unfoldable pub execute_with : {A : Type 0} → (Db → A) → (Db → Db) → Sql A
unfolding statement
execute_with answer write = statement (λ db. (ok (answer db), write db))
