-- ===== src/Listener/Blocks.antt =====
-- The blocks that `syncBlock` of internal/listener/base.go broadcasts.
use goipay.Base.{
  ℕ, zero, suc, ◌+◌, ◌-◌, ◌≤◌, ◌<◌, ◌≡◌, refl, sym, ap, subst, ◌⊎◌, inl, inr, true, false, Option,
  none, some, List, [], ◌∷◌, ◌++◌, arith, leb, length, length-append, Bool-cases,
}
use goipay.Error.{Result, ok, err, is_ok, Result-cases}
use goipay.Listener.Executor.{BlockSource, prepend, sync_loop, sync_to, sync_block}

module _ {B : Type 0} where
  -- The blocks are the daemon's, from one height up to the next, in order.
  abbrev pub Follows : BlockSource B → ℕ → List B → Type 0
  Follows c n [] = Unit
  Follows c n (b ∷ bs) = (c.get_block_by_height n ≡ ok b) × Follows c (n + 1) bs

  -- What a run of the loop from `last` towards `height` has done.
  pub record Synced (c : BlockSource B) (height last end : ℕ) (blocks : List B) : Type 0 where
    pub advanced : end ≡ last + length blocks
    pub in_order : Follows c last blocks
    pub bounded : (end ≤ height) ⊎ (end ≡ last)
    pub stopped :
        (height ≤ end) ⊎ ((c.done end ≡ true) ⊎ (is_ok (c.get_block_by_height end) ≡ false))

  -- The run has ended, and its outcome satisfies the relation.
  abbrev pub Returns : Option (ℕ × List B) → (ℕ → List B → Type 0) → Type 0
  Returns none P = ⊥
  Returns (some (n, bs)) P = P n bs

  prepend-Synced :
      (c : BlockSource B) (height last : ℕ) (b : B) (r : Option (ℕ × List B))
      → last < height
      → c.get_block_by_height last ≡ ok b
      → Returns r (Synced c height (last + 1))
      → Returns (prepend b r) (Synced c height last)
  prepend-Synced c height last b none lt e s = s
  prepend-Synced c height last b (some (n, bs)) lt e s = record {
    advanced = omega (arith, s.advanced);
    in_order = (e, s.in_order);
    bounded = elim s.bounded [ inl h ↦ inl h | inr h ↦ inl (omega arith) ];
    stopped = s.stopped;
  }

  halted :
      (c : BlockSource B) (height last : ℕ)
      → (height ≤ last) ⊎ ((c.done last ≡ true) ⊎ (is_ok (c.get_block_by_height last) ≡ false))
      → Synced c height last last []
  halted c height last s = record {
    advanced = omega arith;
    in_order = tt;
    bounded = inr refl;
    stopped = s;
  }

  sync_loop-Synced :
      (fuel : ℕ) (c : BlockSource B) (height last : ℕ)
      → height - last < fuel
      → Returns (sync_loop fuel c height last) (Synced c height last)
  unfolding sync_loop
  sync_loop-Synced zero c height last h = elim h [ ]
  sync_loop-Synced (suc fuel) c height last h = elim (Bool-cases (c.done last)) [
    | inl over ↦ rw (Returns, sync_loop, over) (halted c height last (inr (inl over)))
    | inr on ↦ elim (Bool-cases (leb height last)) [
      | inl reached ↦
          rw (Returns, sync_loop, on, reached) (halted c height last (inl (ground arith)))
      | inr below ↦ elim (Result-cases (c.get_block_by_height last)) [
        | inl (e, failed) ↦
            rw (Returns, sync_loop, on, below, failed)
              (halted c height last (inr (inr (ap is_ok failed))))
        | inr (b, got) ↦
            rw (Returns, sync_loop, on, below, got)
              (prepend-Synced c height last b (sync_loop fuel c height (last + 1)) (ground arith)
                got (sync_loop-Synced fuel c height (last + 1) (ground arith)))
      ]
    ]
  ]

  -- Whenever the daemon reports a height, `syncBlock` returns; it has then broadcast the daemon's
  -- blocks from the last synced height on, in order and each once, has moved the height forward by
  -- their number and not past the daemon's, and has stopped only at that height, at a cancelled
  -- context or at a block that the daemon failed to give.
  pub sync_block-Synced :
      (c : BlockSource B) (height last : ℕ)
      → c.get_last_block_height ≡ ok height
      → Returns (sync_block c last) (Synced c height last)
  unfolding sync_block
  sync_block-Synced c height last e =
      subst (λ r. Returns (sync_to c last r) (Synced c height last)) (sym e)
        (sync_loop-Synced (suc (height - last)) c height last (omega arith))

  -- The ticks of the block loop: each begins where the one before stopped.
  abbrev append_blocks : List B → Option (ℕ × List B) → Option (ℕ × List B)
  append_blocks bs none = none
  append_blocks bs (some (m, cs)) = some (m, bs ++ cs)

  abbrev after_tick : (ℕ → Option (ℕ × List B)) → Option (ℕ × List B) → Option (ℕ × List B)
  after_tick next none = none
  after_tick next (some (n, bs)) = append_blocks bs (next n)

  pub sync_ticks : List (BlockSource B) → ℕ → Option (ℕ × List B)
  sync_ticks [] last = some (last, [])
  sync_ticks (c ∷ cs) last = after_tick (sync_ticks cs) (sync_block c last)

  -- `b` is right for height `n`, and so on upwards.
  abbrev pub Numbered : (ℕ → B → Type 0) → ℕ → List B → Type 0
  Numbered IsAt n [] = Unit
  Numbered IsAt n (b ∷ bs) = IsAt n b × Numbered IsAt (n + 1) bs

  -- A daemon that gives the right block for a height, if it gives one.
  abbrev pub IsHonest : (ℕ → B → Type 0) → BlockSource B → Type 0
  IsHonest IsAt c = (n : ℕ) (b : B) → c.get_block_by_height n ≡ ok b → IsAt n b

  abbrev pub AllHonest : (ℕ → B → Type 0) → List (BlockSource B) → Type 0
  AllHonest IsAt [] = Unit
  AllHonest IsAt (c ∷ cs) = IsHonest IsAt c × AllHonest IsAt cs

  module _ (IsAt : ℕ → B → Type 0) where
    -- What any number of ticks has broadcast: one right block for each height from the first on.
    pub record Covered (last end : ℕ) (blocks : List B) : Type 0 where
      pub advanced : end ≡ last + length blocks
      pub numbered : Numbered IsAt last blocks

    Follows-Numbered :
        (c : BlockSource B) (n : ℕ) (bs : List B)
        → IsHonest IsAt c
        → Follows c n bs
        → Numbered IsAt n bs
    Follows-Numbered c n [] honest f = tt
    Follows-Numbered c n (b ∷ bs) honest f =
        (honest n b f.0, Follows-Numbered c (n + 1) bs honest f.1)

    Numbered-append :
        (n m : ℕ) (bs cs : List B)
        → m ≡ n + length bs
        → Numbered IsAt n bs
        → Numbered IsAt m cs
        → Numbered IsAt n (bs ++ cs)
    Numbered-append n m [] cs e hb hc = subst (λ k. Numbered IsAt k cs) (omega arith) hc
    Numbered-append n m (b ∷ bs) cs e hb hc =
        (hb.0, Numbered-append (n + 1) m bs cs (omega arith) hb.1 hc)

    -- Blocks that cover two stretches, one after the other, cover both.
    pub append-Covered :
        (last n m : ℕ) (bs cs : List B)
        → Covered last n bs
        → Covered n m cs
        → Covered last m (bs ++ cs)
    append-Covered last n m bs cs h k = record {
      advanced = omega (arith, h.advanced, k.advanced, length-append bs cs);
      numbered = Numbered-append last n bs cs h.advanced h.numbered k.numbered;
    }

    append_blocks-Covered :
        (last n : ℕ) (bs : List B) (r : Option (ℕ × List B))
        → Covered last n bs
        → Returns r (Covered n)
        → Returns (append_blocks bs r) (Covered last)
    append_blocks-Covered last n bs none h k = k
    append_blocks-Covered last n bs (some (m, cs)) h k = append-Covered last n m bs cs h k

    tick-Covered :
        (last : ℕ) (r : Option (ℕ × List B)) (next : ℕ → Option (ℕ × List B))
        → Returns r (Covered last)
        → ((n : ℕ) → Returns (next n) (Covered n))
        → Returns (after_tick next r) (Covered last)
    tick-Covered last none next hr hn = hr
    tick-Covered last (some (n, bs)) next hr hn = append_blocks-Covered last n bs (next n) hr (hn n)

    Synced-Covered :
        (c : BlockSource B) (height last : ℕ) (r : Option (ℕ × List B))
        → IsHonest IsAt c
        → Returns r (Synced c height last)
        → Returns r (Covered last)
    Synced-Covered c height last none honest s = s
    Synced-Covered c height last (some (n, bs)) honest s = record {
      advanced = s.advanced;
      numbered = Follows-Numbered c last bs honest s.in_order;
    }

    sync_to-Covered :
        (c : BlockSource B) (last : ℕ) (r : Result ℕ)
        → IsHonest IsAt c
        → Returns (sync_to c last r) (Covered last)
    sync_to-Covered c last (err e) honest = record { advanced = omega arith; numbered = tt }
    sync_to-Covered c last (ok height) honest =
        Synced-Covered c height last (sync_to c last (ok height)) honest
          (sync_loop-Synced (suc (height - last)) c height last (omega arith))

    pub sync_block-Covered :
        (c : BlockSource B) (last : ℕ)
        → IsHonest IsAt c
        → Returns (sync_block c last) (Covered last)
    unfolding sync_block
    sync_block-Covered c last honest = sync_to-Covered c last c.get_last_block_height honest

    -- Over any number of ticks, failed calls and cancelled contexts among them, every tick returns,
    -- and the blocks broadcast are one for each height from the first to the one reached, in order,
    -- each the right one if the daemon never gives a wrong one: no height is skipped and none is
    -- repeated.
    pub sync_ticks-Covered :
        (cs : List (BlockSource B)) (last : ℕ)
        → AllHonest IsAt cs
        → Returns (sync_ticks cs last) (Covered last)
    unfolding sync_ticks sync_block
    sync_ticks-Covered [] last h = record { advanced = omega arith; numbered = tt }
    sync_ticks-Covered (c ∷ cs) last h =
        tick-Covered last (sync_block c last) (sync_ticks cs)
          (sync_to-Covered c last c.get_last_block_height h.0) (λ n. sync_ticks-Covered cs n h.1)
