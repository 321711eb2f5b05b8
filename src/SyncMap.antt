-- ===== src/SyncMap.antt =====
-- `util.SyncMapTypeSafe` (internal/util/sync.go), keyed by texts, as an association list.
pub mod Refines
use goipay.Base.{
  ◌≡◌, String, Bool, true, false, Option, none, some, List, [], ◌∷◌, arith, str_eq, eq_iff,
  if◌then◌else◌,
}

abbrev pub SyncMap : Type 0 → Type 0
SyncMap V = List (String × V)

module _ {V : Type 0} where
  -- `Load`
  unfoldable pub load : String → SyncMap V → Option V
  load k [] = none
  load k ((j, v) ∷ m) = if str_eq j k then some v else load k m

  -- `Delete`
  unfoldable pub delete : String → SyncMap V → SyncMap V
  delete k [] = []
  delete k ((j, v) ∷ m) = if str_eq j k then delete k m else (j, v) ∷ delete k m

  -- `Store`
  unfoldable pub store : String → V → SyncMap V → SyncMap V
  store k v m = (k, v) ∷ delete k m

  -- `LoadAndDelete`
  unfoldable pub load_and_delete : String → SyncMap V → Option V × SyncMap V
  unfolding load delete
  load_and_delete k m = (load k m, delete k m)

  abbrev pub or_store : Option V → String → V → SyncMap V → (V × Bool) × SyncMap V
  or_store (some u) k v m = ((u, true), m)
  or_store none k v m = ((v, false), store k v m)

  -- `LoadOrStore`
  unfoldable pub load_or_store : String → V → SyncMap V → (V × Bool) × SyncMap V
  unfolding load store
  load_or_store k v m = or_store (load k m) k v m

  -- What a key holds once another, or the same, is deleted.
  pub load-delete :
      (k j : String) (m : SyncMap V) → load j (delete k m) ≡ (if str_eq k j then none else load j m)
  unfolding load delete
  load-delete k j [] = ground arith
  load-delete k j ((i, v) ∷ m) =
      ground (arith, eq_iff k j, eq_iff i k, eq_iff i j, load-delete k j m)

  -- What a key holds once a value is stored under another, or the same.
  pub load-store :
      (k j : String) (v : V) (m : SyncMap V)
      → load j (store k v m) ≡ (if str_eq k j then some v else load j m)
  unfolding load store
  load-store k j v m = ground (arith, load-delete k j m)

  -- A deleted key holds nothing.
  pub load-delete_self : (k : String) (m : SyncMap V) → load k (delete k m) ≡ none
  load-delete_self k m = ground (arith, load-delete k k m, eq_iff k k)
