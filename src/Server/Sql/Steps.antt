-- ===== src/Server/Sql/Steps.antt =====
-- What a successful run says of a statement in it: the state it left. `fs` are the faults to come.
use istat.Prelude.{
  String, ◌≡◌, refl, sym, ap, subst, Bool, true, false, Option, none, some, List, [], ◌∷◌,
  if◌then◌else◌,
}
use istat.Outcome.{Outcome, ok, err}
use istat.Action.{Action, map_err, ◌>>=◌}
use istat.Action.Inversion.{bind-ok, map_err-ok, rerun}
use istat.Server.Db.{Db}
use istat.Server.Sql.{
  Sql, SqlError, attempt, statement, unless_taken, constraint_failed, query, execute, execute_with,
  insert, insert_checked,
}

abbrev pub with_faults : Db → List (Option String) → Db
with_faults db fs = record db { faults = fs }

module _ {A P : Type 0} (run : Sql A) (a : A) (t : Db) where
  attempted :
      (fs : List (Option String)) (db : Db)
      → attempt fs run (with_faults db fs) ≡ (ok a, t)
      → ((gs : List (Option String)) → run (with_faults db gs) ≡ (ok a, t) → P)
      → P
  attempted [] db h k = k [] h
  attempted (none ∷ rest) db h k = k rest h
  attempted (some message ∷ rest) db h k = absurd (cc h)

  pub statement-ok :
      (db : Db)
      → statement run db ≡ (ok a, t)
      → ((gs : List (Option String)) → run (with_faults db gs) ≡ (ok a, t) → P)
      → P
  unfolding statement
  statement-ok db h k = attempted db.faults db h k

module _ {E A B P : Type 0} (g : SqlError → E) (f : A → Action E Db B) (b : B) (db db' : Db) where
  pub query_step :
      (read : Db → A)
      → (map_err g (query read) >>= f) db ≡ (ok b, db')
      → ((gs : List (Option String))
          → f (read (with_faults db gs)) (with_faults db gs) ≡ (ok b, db')
          → P)
      → P
  unfolding query
  query_step read h k = bind-ok _ f db b db' h λ a t e rest.
      statement-ok (λ d. (ok (read d), d)) a t db (map_err-ok g (query read) db a t e)
        λ gs same.
          k gs (rerun f (ok b, db') a (read (with_faults db gs)) t (with_faults db gs) same rest)

  pub execute_with_step :
      (answer : Db → A) (write : Db → Db)
      → (map_err g (execute_with answer write) >>= f) db ≡ (ok b, db')
      → ((gs : List (Option String))
          → f (answer (with_faults db gs)) (write (with_faults db gs)) ≡ (ok b, db')
          → P)
      → P
  unfolding execute_with
  execute_with_step answer write h k = bind-ok _ f db b db' h λ a t e rest.
      statement-ok (λ d. (ok (answer d), write d)) a t db
        (map_err-ok g (execute_with answer write) db a t e)
        λ gs same. k gs (
          rerun f (ok b, db') a (answer (with_faults db gs)) t (write (with_faults db gs)) same
            rest)

inserted :
    {V : Type 0} (row : Option V) (after before t : Db)
    → unless_taken row after before ≡ (ok tt, t)
    → (row ≡ none) × (after ≡ t)
inserted none after before t h = (refl, ap (λ (q : Outcome SqlError (Unit {0}) × Db). q.1) h)
inserted (some row) after before t h = absurd (cc h)

allowed_insert :
    {V : Type 0} (allows : Bool) (row : Option V) (after before t : Db)
    → (if allows then unless_taken row after before else (err constraint_failed, before))
      ≡ (ok tt, t)
    → (allows ≡ true) × (row ≡ none) × (after ≡ t)
allowed_insert true row after before t h =
    let (free, is) = inserted row after before t h in (refl, free, is)
allowed_insert false row after before t h = absurd (cc h)

-- the statement of an INSERT that is checked
abbrev insertion : {V : Type 0} → (Db → Bool) → (Db → Option V) → (Db → Db) → Sql (Unit {0})
insertion allowed taken write d =
    if allowed d then unless_taken (taken d) (write d) d else (err constraint_failed, d)

module _ {E B P : Type 0} (g : SqlError → E) (f : Unit {0} → Action E Db B) (b : B)
    (db db' : Db) where
  pub execute_step :
      (write : Db → Db)
      → (map_err g (execute write) >>= f) db ≡ (ok b, db')
      → ((gs : List (Option String)) → f tt (write (with_faults db gs)) ≡ (ok b, db') → P)
      → P
  unfolding execute
  execute_step write h k = bind-ok _ f db b db' h λ a t e rest.
      statement-ok (λ d. (ok tt, write d)) a t db (map_err-ok g (execute write) db a t e)
        λ gs same. k gs (rerun f (ok b, db') a tt t (write (with_faults db gs)) same rest)

  pub insert_step :
      {V : Type 0} (taken : Db → Option V) (write : Db → Db)
      → (map_err g (insert taken write) >>= f) db ≡ (ok b, db')
      → ((gs : List (Option String)) → f tt (write (with_faults db gs)) ≡ (ok b, db') → P)
      → P
  unfolding insert
  insert_step taken write h k = bind-ok _ f db b db' h λ a t e rest.
      statement-ok (λ d. unless_taken (taken d) (write d) d) a t db
        (map_err-ok g (insert taken write) db a t e)
        λ gs same.
          let (free, is) =
            inserted (taken (with_faults db gs)) (write (with_faults db gs)) (with_faults db gs) t
              same in
          k gs (subst (λ d. f tt d ≡ (ok b, db')) (sym is) rest)

  pub insert_checked_step :
      {V : Type 0} (allowed : Db → Bool) (taken : Db → Option V) (write : Db → Db)
      → (map_err g (insert_checked allowed taken write) >>= f) db ≡ (ok b, db')
      → ((gs : List (Option String))
          → allowed (with_faults db gs) ≡ true
          → taken (with_faults db gs) ≡ none
          → f tt (write (with_faults db gs)) ≡ (ok b, db')
          → P)
      → P
  unfolding insert_checked
  insert_checked_step allowed taken write h k = bind-ok _ f db b db' h λ a t e rest.
      statement-ok (insertion allowed taken write) a t db
        (map_err-ok g (insert_checked allowed taken write) db a t e)
        λ gs same.
          let (allows, free, is) =
            allowed_insert (allowed (with_faults db gs)) (taken (with_faults db gs))
              (write (with_faults db gs)) (with_faults db gs) t same in
          k gs allows free (subst (λ d. f tt d ≡ (ok b, db')) (sym is) rest)
