-- ===== src/Processor/Resume.antt =====
-- Restarts of a coin's processor: `load` of internal/processor/base.go starts the listener at the
-- height that `persistCryptoCache` wrote, and each run synchronises blocks from there.
pub mod Runs
pub mod Restarts
use goipay.Base.{
  ℕ, ◌+◌, ◌≤◌, ◌<◌, ◌≡◌, ◌⊎◌, inl, inr, refl, sym, ap, subst, ◌∙◌, Bool, true, false, ◌&&◌, Option,
  none, some, List, [], ◌∷◌, ◌++◌, arith, leb, ltb, length, find, update, exists, All, Option-cases,
}
use goipay.Error.{Result, ok, err}
use goipay.Coin.{CoinType, eq_coin}
use goipay.Db.Models.{Time, CryptoCache, Db}
use goipay.Db.Session.{query, of_result, ◌>>=◌, next_fault, init_db_queries_with_tx}
use goipay.Db.Statements.{map_row}
use goipay.Db.InvoiceLaws.{find-update_self}
use goipay.Db.Users.{has_coin, set_synced, find_crypto_cache_by_coin, update_crypto_cache_by_coin}
use goipay.Listener.Executor.{BlockSource, sync_block}
use goipay.Listener.Blocks.{Returns, Covered, IsHonest}
use goipay.Processor.Create.{in_tx}
use goipay.Processor.Manager.{persist_crypto_cache, start_height, or_height}

-- The transaction of `load`: the height that the listener is started at.
unfoldable pub load_height : CoinType → List Bool → Result ℕ → Db → Result ℕ
unfolding init_db_queries_with_tx start_height
load_height coin faults h db =
    (in_tx (init_db_queries_with_tx faults db) db
      (do cache ← query (find_crypto_cache_by_coin coin); of_result (start_height (ok cache) h))).0

abbrev height_of : Option CryptoCache → Option ℕ
height_of none = none
height_of (some r) = r.last_synced_block_height

-- The height in the coin's row of the cache.
abbrev pub cached : CoinType → Db → Option ℕ
cached coin db = height_of (find (has_coin coin) db.crypto_cache)

pub load_height-cached :
    (coin : CoinType) (faults : List Bool) (h : Result ℕ) (db : Db) (n k : ℕ)
    → load_height coin faults h db ≡ ok n
    → cached coin db ≡ some k
    → n ≡ k
unfolding load_height
load_height-cached coin [] (err x) db n k e c = ground (arith, e, c)
load_height-cached coin [] (ok m) db n k e c = ground (arith, e, c)
load_height-cached coin (true ∷ fs) h db n k e c = ground (arith, e, c)
load_height-cached coin (false ∷ []) (err x) db n k e c = ground (arith, e, c)
load_height-cached coin (false ∷ []) (ok m) db n k e c = ground (arith, e, c)
load_height-cached coin (false ∷ true ∷ fs) h db n k e c = ground (arith, e, c)
load_height-cached coin (false ∷ false ∷ fs) (err x) db n k e c = ground (arith, e, c)
load_height-cached coin (false ∷ false ∷ fs) (ok m) db n k e c = ground (arith, e, c)

synced-cached :
    (coin : CoinType) (now : Time) (height k : ℕ) (db : Db)
    → cached coin db ≡ some k
    → height_of (
        find
          (has_coin coin)
          (update (has_coin coin) (set_synced now (some height)) db.crypto_cache))
      ≡ some height
synced-cached coin now height k db c =
    ap height_of
      (find-update_self (has_coin coin) (set_synced now (some height)) db.crypto_cache (λ r. refl))
    ∙ ground (arith, c)

-- Once it holds a height, the cache goes on holding that one or gets the listener's.
pub persist_crypto_cache-cached :
    (coin : CoinType) (now : Time) (height : ℕ) (faults : List Bool) (db : Db) (k : ℕ)
    → cached coin db ≡ some k
    → let db' = persist_crypto_cache coin now height faults db in
      (cached coin db' ≡ some k) ⊎ (cached coin db' ≡ some height)
unfolding persist_crypto_cache
persist_crypto_cache-cached coin now height [] db k c =
    inr (ground (arith, c, synced-cached coin now height k db c))
persist_crypto_cache-cached coin now height (true ∷ fs) db k c = inl c
persist_crypto_cache-cached coin now height (false ∷ []) db k c =
    inr (ground (arith, c, synced-cached coin now height k db c))
persist_crypto_cache-cached coin now height (false ∷ true ∷ fs) db k c = inl c
persist_crypto_cache-cached coin now height (false ∷ false ∷ []) db k c =
    inr (ground (arith, c, synced-cached coin now height k db c))
persist_crypto_cache-cached coin now height (false ∷ false ∷ true ∷ fs) db k c =
    inl (ground (arith, c))
persist_crypto_cache-cached coin now height (false ∷ false ∷ false ∷ fs) db k c =
    inr (ground (arith, c, synced-cached coin now height k db c))
