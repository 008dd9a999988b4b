-- ===== src/Server/Sql/Keeps.antt =====
-- A property of the application's tables that the write of a statement keeps holds after the
-- statement, whether it fails or not.
use istat.Prelude.{
  String, ◌≡◌, refl, Bool, true, false, Option, none, some, List, [], ◌∷◌, if◌then◌else◌,
}
use istat.Outcome.{err}
use istat.Action.{Keeps}
use istat.Server.Db.{Db, AppTables}
use istat.Server.Sql.{
  Sql, attempt, statement, unless_taken, constraint_failed, query, execute, execute_with, insert,
  insert_checked,
}

abbrev pub OnApp : (AppTables → Type 0) → Db → Type 0
OnApp Q db = Q db.app

module _ (Q : AppTables → Type 0) where
  attempted-keeps :
      {A : Type 0} (run : Sql A) (fs : List (Option String)) (db : Db)
      → ((d : Db) → Q d.app → Q (run d).1.app)
      → Q db.app
      → Q (attempt fs run db).1.app
  attempted-keeps run [] db k h = k db h
  attempted-keeps run (none ∷ rest) db k h = k (record db { faults = rest }) h
  attempted-keeps run (some message ∷ rest) db k h = h

  statement-Keeps :
      {A : Type 0} (run : Sql A)
      → ((d : Db) → Q d.app → Q (run d).1.app)
      → Keeps (OnApp Q) (statement run)
  unfolding statement
  statement-Keeps run k = record { at = λ db h. attempted-keeps run db.faults db k h }

  pub query-Keeps : {A : Type 0} (read : Db → A) → Keeps (OnApp Q) (query read)
  unfolding query
  query-Keeps read = statement-Keeps (λ d. (_, d)) (λ d h. h)

  pub execute-Keeps :
      (write : Db → Db) → ((d : Db) → Q d.app → Q (write d).app) → Keeps (OnApp Q) (execute write)
  unfolding execute
  execute-Keeps write k = statement-Keeps (λ d. (_, write d)) k

  pub execute_with-Keeps :
      {A : Type 0} (answer : Db → A) (write : Db → Db)
      → ((d : Db) → Q d.app → Q (write d).app)
      → Keeps (OnApp Q) (execute_with answer write)
  unfolding execute_with
  execute_with-Keeps answer write k = statement-Keeps (λ d. (_, write d)) k

  untaken-keeps :
      {V : Type 0} (row : Option V) (after db : Db)
      → (row ≡ none → Q after.app)
      → Q db.app
      → Q (unless_taken row after db).1.app
  untaken-keeps none after db k h = k refl
  untaken-keeps (some row) after db k h = h

  pub insert-Keeps :
      {V : Type 0} (taken : Db → Option V) (write : Db → Db)
      → ((d : Db) → taken d ≡ none → Q d.app → Q (write d).app)
      → Keeps (OnApp Q) (insert taken write)
  unfolding insert
  insert-Keeps taken write k =
      statement-Keeps (λ d. unless_taken (taken d) (write d) d)
        (λ d h. untaken-keeps (taken d) (write d) d (λ free. k d free h) h)

  checked-keeps :
      {V : Type 0} (allows : Bool) (row : Option V) (after db : Db)
      → (allows ≡ true → row ≡ none → Q after.app)
      → Q db.app
      → Q (if allows then unless_taken row after db else (err constraint_failed, db)).1.app
  checked-keeps true row after db k h = untaken-keeps row after db (k refl) h
  checked-keeps false row after db k h = h

  pub insert_checked-Keeps :
      {V : Type 0} (allowed : Db → Bool) (taken : Db → Option V) (write : Db → Db)
      → ((d : Db) → allowed d ≡ true → taken d ≡ none → Q d.app → Q (write d).app)
      → Keeps (OnApp Q) (insert_checked allowed taken write)
  unfolding insert_checked
  insert_checked-Keeps allowed taken write k =
      statement-Keeps _
        (λ d h. checked-keeps (allowed d) (taken d) (write d) d (λ yes free. k d yes free h) h)
