-- ===== src/Processor/Resume/Runs.antt =====
-- The runs of a coin's processor (internal/processor/base.go, internal/listener/base.go): what happens
-- in one, and one after the other on the same database.
use goipay.Base.{ℕ, Bool, ◌&&◌, Option, none, some, List, [], ◌∷◌, ◌++◌, leb, ltb}
use goipay.Error.{Result, ok, err}
use goipay.Coin.{CoinType}
use goipay.Db.Models.{Time, Db}
use goipay.Listener.Executor.{BlockSource, sync_block}
use goipay.Processor.Manager.{persist_crypto_cache}
use goipay.Processor.Resume.{load_height}

-- What happens in a run: a tick of the listener, a write of the cache, or a write of another part of
-- the program.
pub data RunEvent (B : Type 0) : Type 0 where
  tick : BlockSource B → RunEvent B
  persist : Time → List Bool → RunEvent B
  elsewhere : (Db → Db) → RunEvent B

-- A run so far: the height it was started at, the listener's height, the blocks that it broadcast,
-- and the tables.
pub record Life (B : Type 0) : Type 0 where
  pub start : ℕ
  pub height : ℕ
  pub blocks : List B
  pub db : Db

-- One start of the program: what `load` meets, and what happens until the run ends.
pub record Run (B : Type 0) : Type 0 where
  pub faults : List Bool
  pub last_block_height : Result ℕ
  pub events : List (RunEvent B)

-- The computation has ended, and its outcome satisfies the predicate.
abbrev pub Ends : {A : Type 0} → Option A → (A → Type 0) → Type 0
Ends none P = ⊥
Ends (some a) P = P a

module _ {B : Type 0} where
  abbrev pub ticked : Life B → Option (ℕ × List B) → Option (Life B)
  ticked l none = none
  ticked l (some (n, bs)) = some (record l { height = n; blocks = l.blocks ++ bs })

  abbrev pub on_life : (Life B → Option (Life B)) → Option (Life B) → Option (Life B)
  on_life next none = none
  on_life next (some l) = next l

  abbrev pub then_runs :
      (Db → Option (List (Life B))) → Db → Option (Result (Life B)) → Option (List (Life B))
  then_runs next db none = none
  then_runs next db (some (err e)) = next db
  then_runs next db (some (ok l)) = elim (next l.db) [ none ↦ none | some ls ↦ some (l ∷ ls) ]

  -- The run has broadcast the block of the height.
  abbrev pub covers : ℕ → Life B → Bool
  covers n l = leb l.start n && ltb n l.height

  abbrev pub reached : ℕ → List (Life B) → ℕ
  reached d [] = d
  reached d (l ∷ ls) = reached l.height ls

module _ {B : Type 0} (coin : CoinType) where
  unfoldable pub run_event : RunEvent B → Life B → Option (Life B)
  unfolding sync_block persist_crypto_cache
  run_event (tick c) l = ticked l (sync_block c l.height)
  run_event (persist now faults) l =
      some (record l { db = persist_crypto_cache coin now l.height faults l.db })
  run_event (elsewhere f) l = some (record l { db = f l.db })

  unfoldable pub run_events : List (RunEvent B) → Life B → Option (Life B)
  unfolding run_event
  run_events [] l = some l
  run_events (e ∷ es) l = on_life (run_events es) (run_event e l)

  -- `load`, and the run until its end; `load` may fail, and then there is no run.
  abbrev pub run_from : List (RunEvent B) → Db → Result ℕ → Option (Result (Life B))
  run_from events db (err e) = some (err e)
  run_from events db (ok n) =
      elim (run_events events (record { start = n; height = n; blocks = []; db = db })) [
        | none ↦ none
        | some l ↦ some (ok l)
      ]

  -- One start after the other, each with the tables that the run before has left.
  unfoldable pub restarts : List (Run B) → Db → Option (List (Life B))
  unfolding run_events load_height
  restarts [] db = some []
  restarts (r ∷ rs) db =
      then_runs (restarts rs) db
        (run_from r.events db (load_height coin r.faults r.last_block_height db))
