-- ===== src/Processor/Resume/Restarts.antt =====
-- The blocks that a coin's processor synchronises over any number of restarts (internal/processor/base.go,
-- internal/listener/base.go).
use goipay.Base.{
  ℕ, ◌≤◌, ◌<◌, ◌≡◌, ◌⊎◌, inl, inr, ◌∙◌, true, Option, none, some, List, [], ◌∷◌, arith, ltb, exists,
  All, Bool-cases,
}
use goipay.Error.{Result, ok, Result-cases}
use goipay.Coin.{CoinType}
use goipay.Db.Models.{Db}
use goipay.Listener.Executor.{sync_block}
use goipay.Listener.Blocks.{Returns, Covered, IsHonest, sync_block-Covered, append-Covered}
use goipay.Processor.Resume.{load_height, cached, load_height-cached, persist_crypto_cache-cached}
use goipay.Processor.Resume.Runs.{
  RunEvent, Life, Run, Ends, ticked, on_life, then_runs, covers, reached, run_event, run_events,
  run_from, restarts, tick, persist, elsewhere,
}

module _ {B : Type 0} (coin : CoinType) where
  module _ (IsAt : ℕ → B → Type 0) where
    -- A daemon gives no wrong block, and the rest of the program leaves the coin's row of the cache.
    abbrev pub IsFair : RunEvent B → Type 0
    IsFair (tick c) = IsHonest IsAt c
    IsFair (persist now faults) = Unit
    IsFair (elsewhere f) = (db : Db) → cached coin (f db) ≡ cached coin db

    -- The run has broadcast one right block for each height since its start, and the cache holds a
    -- height that it has reached.
    pub record Kept (k : ℕ) (l : Life B) : Type 0 where
      pub begun : l.start ≡ k
      pub covered : Covered IsAt l.start l.height l.blocks
      pub at : ℕ
      pub written : cached coin l.db ≡ some at
      pub above : k ≤ at
      pub below : at ≤ l.height

    ticked-Kept :
        (k : ℕ) (l : Life B) (r : Option (ℕ × List B))
        → Kept k l
        → Returns r (Covered IsAt l.height)
        → Ends (ticked l r) (Kept k)
    ticked-Kept k l none kept c = c
    ticked-Kept k l (some (n, bs)) kept c = record {
      begun = kept.begun;
      covered = append-Covered IsAt l.start l.height n l.blocks bs kept.covered c;
      at = kept.at;
      written = kept.written;
      above = kept.above;
      below = omega (arith, kept.below, c.advanced);
    }

    run_event-Kept :
        (k : ℕ) (e : RunEvent B) (l : Life B)
        → IsFair e
        → Kept k l
        → Ends (run_event coin e l) (Kept k)
    unfolding run_event
    run_event-Kept k (tick c) l honest kept =
        ticked-Kept k l (sync_block c l.height) kept (sync_block-Covered IsAt c l.height honest)
    run_event-Kept k (persist now faults) l fair kept =
        elim (persist_crypto_cache-cached coin now l.height faults l.db kept.at kept.written) [
          | inl old ↦ record {
            begun = kept.begun;
            covered = kept.covered;
            at = kept.at;
            written = old;
            above = kept.above;
            below = kept.below;
          }
          | inr new ↦ record {
            begun = kept.begun;
            covered = kept.covered;
            at = l.height;
            written = new;
            above = omega (arith, kept.above, kept.below);
            below = omega arith;
          }
        ]
    run_event-Kept k (elsewhere f) l fair kept = record {
      begun = kept.begun;
      covered = kept.covered;
      at = kept.at;
      written = fair l.db ∙ kept.written;
      above = kept.above;
      below = kept.below;
    }

    then-Kept :
        (k : ℕ) (next : Life B → Option (Life B)) (o : Option (Life B))
        → Ends o (Kept k)
        → ((l : Life B) → Kept k l → Ends (next l) (Kept k))
        → Ends (on_life next o) (Kept k)
    then-Kept k next none h f = h
    then-Kept k next (some l) h f = f l h

    run_events-Kept :
        (k : ℕ) (es : List (RunEvent B)) (l : Life B)
        → All IsFair es
        → Kept k l
        → Ends (run_events coin es l) (Kept k)
    unfolding run_events
    run_events-Kept k [] l fair kept = kept
    run_events-Kept k (e ∷ es) l fair kept =
        then-Kept k (run_events coin es) (run_event coin e l) (run_event-Kept k e l fair.0 kept)
          (λ m h. run_events-Kept k es m fair.1 h)

    -- The lives of the runs from a cached height on.
    record Resumes (k : ℕ) (ls : List (Life B)) : Type 0 where
      lives : All (λ l. Covered IsAt l.start l.height l.blocks) ls
      none_skipped : (d n : ℕ) → k ≤ n → n < reached d ls → (n < d) ⊎ (exists (covers n) ls ≡ true)

    resumed :
        (k : ℕ) (l : Life B) (ls : List (Life B)) (kept : Kept k l)
        → Resumes kept.at ls
        → Resumes k (l ∷ ls)
    resumed k l ls kept r = record {
      lives = (kept.covered, r.lives);
      none_skipped = λ d n low high. elim (Bool-cases (ltb n l.height)) [
        | inl before ↦ inr (ground (arith, kept.begun, low, before))
        | inr after ↦ elim (r.none_skipped l.height n (ground (arith, kept.below, after)) high) [
          | inl lt ↦ inr (ground (arith, lt, after))
          | inr later ↦ inr (ground (arith, later))
        ]
      ];
    }

    then_runs-Resumes :
        (k : ℕ) (next : Db → Option (List (Life B))) (db : Db) (events : List (RunEvent B)) (n : ℕ)
        → All IsFair events
        → n ≡ k
        → cached coin db ≡ some k
        → ((db' : Db) (j : ℕ) → cached coin db' ≡ some j → Ends (next db') (Resumes j))
        → Ends (then_runs next db (run_from coin events db (ok n))) (Resumes k)
    then_runs-Resumes k next db events n fair e c f =
        ran (run_events coin events first) (run_events-Kept k events first fair fresh)
      where
        first : Life B
        first = record { start = n; height = n; blocks = []; db = db }

        fresh : Kept k first
        fresh = record {
          begun = e;
          covered = record { advanced = omega arith; numbered = tt };
          at = k;
          written = c;
          above = omega arith;
          below = omega (arith, e);
        }

        ended :
            (l : Life B) (kept : Kept k l) (o : Option (List (Life B)))
            → Ends o (Resumes kept.at)
            → Ends
                (elim o as (λ _. Option (List (Life B))) [ none ↦ none | some ls ↦ some (l ∷ ls) ])
                (Resumes k)
        ended l kept none r = r
        ended l kept (some ls) r = resumed k l ls kept r

        ran :
            (o : Option (Life B))
            → Ends o (Kept k)
            → Ends
                (then_runs next db (elim o as (λ _. Option (Result (Life B))) [
                  | none ↦ none
                  | some l ↦ some (ok l)
                ]))
                (Resumes k)
        ran none h = h
        ran (some l) h = ended l h (next l.db) (f l.db h.at h.written)

    abbrev pub FairRun : Run B → Type 0
    FairRun r = All IsFair r.events

    restarts-Resumes :
        (k : ℕ) (rs : List (Run B)) (db : Db)
        → All FairRun rs
        → cached coin db ≡ some k
        → Ends (restarts coin rs db) (Resumes k)
    unfolding restarts
    restarts-Resumes k [] db fair c = record { lives = tt; none_skipped = λ d n low high. inl high }
    restarts-Resumes k (r ∷ rs) db fair c =
        elim (Result-cases (load_height coin r.faults r.last_block_height db)) [
          | inl (e, failed) ↦ rw failed (restarts-Resumes k rs db fair.1 c)
          | inr (n, loaded) ↦ rw loaded (
              then_runs-Resumes k (restarts coin rs) db r.events n fair.0
                (load_height-cached coin r.faults r.last_block_height db n k loaded c) c
                (λ db' j c'. restarts-Resumes j rs db' fair.1 c'))
        ]

    -- Over any number of restarts, each at whatever moment of the run before, and whatever fails,
    -- every run ends in some state, every run broadcasts one block for each height from where it
    -- starts, in order, each the right one, and from the height that the cache held at first up to
    -- the height that the last run reached no height is skipped; if the daemon never gives a wrong
    -- block and the rest of the program leaves the coin's row of the cache alone.
    pub restarts_skip_nothing :
        (k : ℕ) (rs : List (Run B)) (db : Db)
        → All FairRun rs
        → cached coin db ≡ some k
        → Ends (restarts coin rs db) (λ ls.
          All (λ l. Covered IsAt l.start l.height l.blocks) ls
          × ((n : ℕ) → k ≤ n → n < reached k ls → exists (covers n) ls ≡ true))
    restarts_skip_nothing k rs db fair c =
        all_covered (restarts coin rs db) (restarts-Resumes k rs db fair c)
      where
        all_covered :
            (o : Option (List (Life B)))
            → Ends o (Resumes k)
            → Ends o (λ ls.
              All (λ l. Covered IsAt l.start l.height l.blocks) ls
              × ((n : ℕ) → k ≤ n → n < reached k ls → exists (covers n) ls ≡ true))
        all_covered none h = h
        all_covered (some ls) h = (
          h.lives,
          λ n low high. elim (h.none_skipped k n low high) [
            | inl lt ↦ ground (arith, lt, low)
            | inr found ↦ found
          ],
        )
