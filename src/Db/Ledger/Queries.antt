-- ===== src/Db/Ledger/Queries.antt =====
-- The statements of internal/db/*.sql.go, and the handlers that chain them, on the ledger of invoices.
use goipay.Base.{String, Bool, true, false, Option, none, some, List, [], ◌∷◌, find, update}
use goipay.Base.Float.{Float64}
use goipay.Error.{Result, ok, err}
use goipay.Db.Models.{PgUuid, Time, Invoice, Db}
use goipay.Db.Session.{
  Session, Outcome, row, no_row, violation, Query, query, of_result, settle, run_statement, ◌>>=◌,
}
use goipay.Db.Statements.{returning, map_row, unless, update_one}
use goipay.Db.Invoices.{
  has_id, set_confirmed, set_expired, confirm_invoice_by_id, expire_invoice_by_id,
  confirm_invoice_status_mempool_by_id,
}
use goipay.Db.Ledger.{
  Evolved, evolved_refl, evolved_trans, update-Evolved, set_confirmed-Evolves, set_expired-Evolves,
  set_mempool-Evolves,
}

module _ {A : Type 0} where
  -- What a statement does to the ledger: rows evolve, and none comes or goes.
  abbrev pub Writes : Db → Outcome A → Type 0
  Writes db (row a after) = Evolved db.invoices after.invoices
  Writes db no_row = Unit
  Writes db violation = Unit

  pub unless-Writes : (b : Bool) (db : Db) (o : Outcome A) → Writes db o → Writes db (unless b o)
  unless-Writes true db o w = tt
  unless-Writes false db o w = w

  pub returning-Writes :
      (o : Option A) (db after : Db)
      → Evolved db.invoices after.invoices
      → Writes db (returning o after)
  returning-Writes none db after x = tt
  returning-Writes (some a) db after x = x

  settle-Evolved :
      (o : Outcome A) (db : Db) (fs : List Bool)
      → Writes db o
      → Evolved db.invoices (settle o db fs).1.db.invoices
  settle-Evolved (row a after) db fs w = w
  settle-Evolved no_row db fs w = evolved_refl db.invoices
  settle-Evolved violation db fs w = evolved_refl db.invoices

  run_statement-Evolved :
      (aborted : Bool) (fs : List Bool) (f : Db → Outcome A) (db : Db)
      → Writes db (f db)
      → Evolved db.invoices (run_statement aborted fs f db).1.db.invoices
  run_statement-Evolved true fs f db w = evolved_refl db.invoices
  run_statement-Evolved false [] f db w = settle-Evolved (f db) db [] w
  run_statement-Evolved false (true ∷ fs) f db w = evolved_refl db.invoices
  run_statement-Evolved false (false ∷ fs) f db w = settle-Evolved (f db) db fs w

  -- A chain of statements that does no more, whatever fails.
  abbrev pub Keeps : Query A → Type 0
  Keeps m = (s : Session) → Evolved s.db.invoices (m s).1.db.invoices

  pub query-Keeps : (f : Db → Outcome A) → ((db : Db) → Writes db (f db)) → Keeps (query f)
  query-Keeps f w s = run_statement-Evolved s.aborted s.faults f s.db (w s.db)

  pub of_result-Keeps : (r : Result A) → Keeps (of_result r)
  of_result-Keeps r s = evolved_refl s.db.invoices

module _ {A B : Type 0} where
  then-Evolved :
      (f : A → Query B) (rows : List Invoice) (r : Result A × Session)
      → ((a : A) → Keeps (f a))
      → Evolved rows r.1.db.invoices
      → Evolved rows
          (elim r.0 as (λ _. Result B × Session) [
            | ok a ↦ f a r.1
            | err e ↦ (err e, r.1)
          ]).1.db.invoices
  then-Evolved f rows (ok a, s) k x = evolved_trans rows _ _ x (k a s)
  then-Evolved f rows (err e, s) k x = x

  pub bind-Keeps :
      (m : Query A) (f : A → Query B) → Keeps m → ((a : A) → Keeps (f a)) → Keeps (m >>= f)
  bind-Keeps m f km kf s = then-Evolved f s.db.invoices (m s) kf (km s)

update-Writes :
    (p : Invoice → Bool) (f : Invoice → Invoice) (db : Db)
    → Evolved db.invoices (update p f db.invoices)
    → Writes db (update_one p f db.invoices (λ rows. record db { invoices = rows }))
update-Writes p f db x = returning-Writes (map_row f (find p db.invoices)) db _ x

-- The statements that write invoices.
pub confirm_invoice_by_id-Writes :
    (now : Time) (id : PgUuid) (db : Db) → Writes db (confirm_invoice_by_id now id db)
confirm_invoice_by_id-Writes now id db =
    update-Writes (has_id id) (set_confirmed now) db
      (update-Evolved (has_id id) (set_confirmed now) db.invoices (set_confirmed-Evolves now))

pub expire_invoice_by_id-Writes : (id : PgUuid) (db : Db) → Writes db (expire_invoice_by_id id db)
expire_invoice_by_id-Writes id db =
    update-Writes (has_id id) set_expired db
      (update-Evolved (has_id id) set_expired db.invoices set_expired-Evolves)

pub confirm_invoice_status_mempool_by_id-Writes :
    (id : PgUuid) (amount : Float64) (tx : String) (db : Db)
    → Writes db (
        confirm_invoice_status_mempool_by_id
          (record { id = id; actual_amount = some amount; tx_id = some tx })
          db)
confirm_invoice_status_mempool_by_id-Writes id amount tx db = unless-Writes _ db _ (
    update-Writes (has_id id) _ db
      (update-Evolved (has_id id) _ db.invoices (set_mempool-Evolves id amount tx)))
