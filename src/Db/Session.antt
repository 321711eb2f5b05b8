-- ===== src/Db/Session.antt =====
-- A database transaction as the program sees it: `db.New(tx)` and the pgx calls on it.
-- The session holds the tables as the transaction sees them. PostgreSQL aborts a transaction at
-- its first error: every later statement fails, and a commit rolls back. Connections can fail at
-- any call, so a session carries the outcomes that the outside has in store, one for each call.
use goipay.Base.{◌≡◌, Bool, true, false, Option, none, some, List, [], ◌∷◌, arith}
use goipay.Error.{Error, Result, ok, err}
use goipay.Db.Models.{Db}

pub record Session : Type 0 where
  pub db : Db
  pub aborted : Bool
  pub faults : List Bool

-- The beginning of a transaction whose statements all reach the database.
abbrev pub live : Db → Session
live db = record { db = db; aborted = false; faults = [] }

-- What a statement does to the tables: it returns a row and writes, finds no row
-- (`pgx.ErrNoRows`), or violates a constraint.
pub data Outcome (A : Type 0) : Type 0 where
  row : A → Db → Outcome A
  no_row : Outcome A
  violation : Outcome A

abbrev pub Query : Type 0 → Type 0
Query A = Session → Result A × Session

infixl 5 ◌>>=◌ ◌>>◌
abbrev pub ◌>>=◌ : {A B : Type 0} → Query A → (A → Query B) → Query B
◌>>=◌ m f s = let (r, s') = m s in elim r [ ok a ↦ f a s' | err e ↦ (err e, s') ]

abbrev pub ◌>>◌ : {A B : Type 0} → Query A → Query B → Query B
m >> k = m >>= λ _. k

abbrev pub ⊤ : Type 0
⊤ = Unit

module _ {A : Type 0} where
  abbrev pub pure : A → Query A
  pure a s = (ok a, s)

  abbrev pub fail : Error → Query A
  fail e s = (err e, s)

  -- `if err != nil { return e }`
  abbrev pub or_else_fail : Error → Query A → Query A
  or_else_fail e m s = let (r, s') = m s in elim r [ ok a ↦ (ok a, s') | err _ ↦ (err e, s') ]

  -- The result of a call that cannot reach the database.
  abbrev pub of_result : Result A → Query A
  of_result r s = (r, s)

  -- The next outcome in store: `true` is a failure of the connection. When none is left, calls go
  -- through.
  abbrev pub settle : Outcome A → Db → List Bool → Result A × Session
  settle (row a db) _ fs = (ok a, record { db = db; aborted = false; faults = fs })
  settle no_row db fs = (err Error.no_rows, record { db = db; aborted = false; faults = fs })
  settle violation db fs = (err Error.query_failed, record { db = db; aborted = true; faults = fs })

  abbrev pub run_statement : Bool → List Bool → (Db → Outcome A) → Db → Result A × Session
  run_statement true fs f db =
      (err Error.tx_aborted, record { db = db; aborted = true; faults = fs })
  run_statement false [] f db = settle (f db) db []
  run_statement false (true ∷ fs) f db =
      (err Error.query_failed, record { db = db; aborted = true; faults = fs })
  run_statement false (false ∷ fs) f db = settle (f db) db fs

  -- `q.db.QueryRow(…).Scan(…)`
  abbrev pub query : (Db → Outcome A) → Query A
  query f s = run_statement s.aborted s.faults f s.db

abbrev pub next_fault : List Bool → Bool × List Bool
next_fault [] = (false, [])
next_fault (f ∷ fs) = (f, fs)

-- The tables after `tx.Commit(ctx)`: those of the session, unless the transaction was aborted or
-- the connection fails.
abbrev pub commit_with : Bool → Bool → Db → Db → Db
commit_with true _ before _ = before
commit_with false true before _ = before
commit_with false false _ after = after

abbrev pub commit : Db → Session → Db
commit before s = commit_with s.aborted (next_fault s.faults).0 before s.db

-- `util.InitDbQueriesWithTx`: `none` where the transaction cannot begin.
abbrev pub begin_with : Bool × List Bool → Db → Option Session
begin_with (true, fs) db = none
begin_with (false, fs) db = some (record { db = db; aborted = false; faults = fs })

unfoldable pub init_db_queries_with_tx : List Bool → Db → Option Session
init_db_queries_with_tx faults db = begin_with (next_fault faults) db

-- A transaction begins with the tables as they are.
pub begin-db : (f : Bool × List Bool) (db : Db) (s : Session) → begin_with f db ≡ some s → s.db ≡ db
begin-db (true, fs) db s e = cc
begin-db (false, fs) db s e = ground arith
