-- ===== src/Processor/Routing.antt =====
-- Which processor takes a coin (internal/processor/main.go).
use goipay.Base.{
  ◌≡◌, ◌⊎◌, refl, ap, inl, inr, true, false, none, some, List, [], ◌∷◌, arith, Bool-cases,
}
use goipay.Coin.{CoinType}
use goipay.Processor.Manager.{Kind, supports_coin, route}

-- No two processors support the same coin.
supports_coin_unique :
    (j k : Kind) (coin : CoinType)
    → supports_coin j coin ≡ true
    → supports_coin k coin ≡ true
    → j ≡ k
unfolding supports_coin
supports_coin_unique Kind.xmr k coin h g = ground arith
supports_coin_unique Kind.btc k coin h g = ground arith
supports_coin_unique Kind.ltc k coin h g = ground arith
supports_coin_unique Kind.eth k coin h g = ground arith
supports_coin_unique Kind.bnb k coin h g = ground arith

-- Whether a list of processors holds one.
abbrev pub Holds : Kind → List Kind → Type 0
Holds k [] = ⊥
Holds k (j ∷ ks) = (j ≡ k) ⊎ Holds k ks

route_supported :
    (coin : CoinType) (ks : List Kind) (k : Kind)
    → supports_coin k coin ≡ true
    → Holds k ks
    → route coin ks ≡ some k
unfolding route
route_supported coin [] k s h = absurd h
route_supported coin (j ∷ ks) k s h = elim (Bool-cases (supports_coin j coin)) [
  | inl takes ↦ rw takes (ap some (supports_coin_unique j k coin takes s))
  | inr leaves ↦ rw leaves (route_supported coin ks k s (later leaves h))
]
  where
    later : supports_coin j coin ≡ false → (j ≡ k) ⊎ Holds k ks → Holds k ks
    later leaves (inl e) = cc (ap (λ i. supports_coin i coin) e)
    later leaves (inr m) = m

route_unsupported :
    (coin : CoinType) (ks : List Kind)
    → ((k : Kind) → Holds k ks → supports_coin k coin ≡ false)
    → route coin ks ≡ none
unfolding route
route_unsupported coin [] u = refl
route_unsupported coin (j ∷ ks) u =
    rw (u j (inl refl)) (route_unsupported coin ks (λ k m. u k (inr m)))

-- A coin is taken by the processor in the list that supports it, in whatever order Go goes through
-- the map; and where no processor in the list supports it, whether it is of a coin that is not set up
-- or of one that none ever supports, it is taken by none.
pub route_lem :
    (coin : CoinType) (ks : List Kind)
    → ((k : Kind) → supports_coin k coin ≡ true → Holds k ks → route coin ks ≡ some k)
      × (((k : Kind) → Holds k ks → supports_coin k coin ≡ false) → route coin ks ≡ none)
route_lem coin ks = (λ k s h. route_supported coin ks k s h, λ u. route_unsupported coin ks u)
