-- ===== src/Tests/Restarts.antt =====
-- A processor that starts three times: it runs and writes its height, it cannot start, and it runs
-- again.
use goipay.Base.{ℕ, ◌≤◌, ◌<◌, ◌≡◌, refl, true, some, List, [], ◌∷◌, exists, All, arith}
use goipay.Error.{ok}
use goipay.Coin.{CoinType}
use goipay.Db.Models.{Db}
use goipay.Listener.Blocks.{Covered}
use goipay.Processor.Resume.Runs.{Run, tick, persist, elsewhere, restarts, covers, reached, Ends}
use goipay.Processor.Resume.Restarts.{restarts_skip_nothing}
use goipay.Tests.Data.{tables}
use goipay.Tests.Daemons.{daemon, silent}

abbrev IsBlock : ℕ → ℕ → Type 0
IsBlock n b = n ≡ b

ok-IsBlock : (n b : ℕ) → ok n ≡ ok b → IsBlock n b
ok-IsBlock n b e = ground arith

abbrev runs : List (Run ℕ)
runs =
    record {
      faults = [];
      last_block_height = ok 10;
      events = tick daemon ∷ persist 5 [] ∷ elsewhere (λ db. record db { invoices = [] }) ∷ [];
    }
    ∷ record { faults = true ∷ []; last_block_height = ok 10; events = [] }
    ∷ record { faults = []; last_block_height = ok 12; events = tick silent ∷ tick daemon ∷ [] }
    ∷ []

-- The cache holds the height 7.
abbrev synced : Db
synced = record tables {
  crypto_cache =
      record { coin = CoinType.btc; last_synced_block_height = some 7; synced_timestamp = some 0 }
      ∷ [];
}

restarts_skip_nothing_example : Ends (restarts CoinType.btc runs synced) (λ ls.
    All (λ l. Covered IsBlock l.start l.height l.blocks) ls
    × ((n : ℕ) → 7 ≤ n → n < reached 7 ls → exists (covers n) ls ≡ true))
restarts_skip_nothing_example =
    restarts_skip_nothing CoinType.btc IsBlock 7 runs synced
      ((ok-IsBlock, (tt, ((λ db. refl), tt))), (tt, ((ok-IsBlock, (ok-IsBlock, tt)), tt))) refl
