-- ===== src/SyncMap/Refines.antt =====
-- `util.SyncMapTypeSafe` (internal/util/sync.go) against a map that is a function.
use goipay.Base.{
  ◌≡◌, refl, ap, sym, ◌∙◌, String, Bool, true, false, Option, none, some, List, [], ◌∷◌, str_eq,
  if◌then◌else◌,
}
use goipay.SyncMap.{
  SyncMap, load, store, delete, load_and_delete, load_or_store, or_store, load-store, load-delete,
}

-- The calls of the map, and what they answer.
pub data Call (V : Type 0) : Type 0 where
  loads deletes loads_and_deletes : String → Call V
  stores loads_or_stores : String → V → Call V

pub data Answer (V : Type 0) : Type 0 where
  nothing : Answer V
  found : Option V → Answer V
  held : V × Bool → Answer V

module _ {V : Type 0} where
  abbrev pub run_call : Call V → SyncMap V → Answer V × SyncMap V
  run_call (loads k) m = (found (load k m), m)
  run_call (deletes k) m = (nothing, delete k m)
  run_call (loads_and_deletes k) m = let (o, m') = load_and_delete k m in (found o, m')
  run_call (stores k v) m = (nothing, store k v m)
  run_call (loads_or_stores k v) m = let (r, m') = load_or_store k v m in (held r, m')

  abbrev pub run_calls : List (Call V) → SyncMap V → List (Answer V) × SyncMap V
  run_calls [] m = ([], m)
  run_calls (c ∷ cs) m =
      let (a, m') = run_call c m in let (as', m'') = run_calls cs m' in (a ∷ as', m'')

  -- The same calls on a function from keys.
  abbrev pub put : String → Option V → (String → Option V) → String → Option V
  put k o f j = if str_eq k j then o else f j

  abbrev pub put_unless :
      Option V → String → V → (String → Option V) → Answer V × (String → Option V)
  put_unless (some u) k v f = (held (u, true), f)
  put_unless none k v f = (held (v, false), put k (some v) f)

  abbrev pub spec_call : Call V → (String → Option V) → Answer V × (String → Option V)
  spec_call (loads k) f = (found (f k), f)
  spec_call (deletes k) f = (nothing, put k none f)
  spec_call (loads_and_deletes k) f = (found (f k), put k none f)
  spec_call (stores k v) f = (nothing, put k (some v) f)
  spec_call (loads_or_stores k v) f = put_unless (f k) k v f

  abbrev pub spec_calls :
      List (Call V) → (String → Option V) → List (Answer V) × (String → Option V)
  spec_calls [] f = ([], f)
  spec_calls (c ∷ cs) f =
      let (a, f') = spec_call c f in let (as', f'') = spec_calls cs f' in (a ∷ as', f'')

  -- The map holds what the function says.
  abbrev pub Represents : SyncMap V → (String → Option V) → Type 0
  Represents m f = (k : String) → load k m ≡ f k

  abbrev Agree : Answer V × SyncMap V → Answer V × (String → Option V) → Type 0
  Agree r s = (r.0 ≡ s.0) × Represents r.1 s.1

  or_store-Agree :
      (o : Option V) (k : String) (v : V) (m : SyncMap V) (f : String → Option V)
      → f k ≡ o
      → Represents m f
      → Agree (let (r, m') = or_store o k v m in (held r, m')) (put_unless (f k) k v f)
  or_store-Agree none k v m f e h =
      rw e (refl, λ j. load-store k j v m ∙ ap (λ o. if str_eq k j then some v else o) (h j))
  or_store-Agree (some u) k v m f e h = rw e (refl, h)

  run_call-Agree :
      (c : Call V) (m : SyncMap V) (f : String → Option V)
      → Represents m f
      → Agree (run_call c m) (spec_call c f)
  unfolding load_and_delete load_or_store
  run_call-Agree (loads k) m f h = (ap found (h k), h)
  run_call-Agree (deletes k) m f h =
      (refl, λ j. load-delete k j m ∙ ap (λ o. if str_eq k j then none else o) (h j))
  run_call-Agree (loads_and_deletes k) m f h =
      (ap found (h k), λ j. load-delete k j m ∙ ap (λ o. if str_eq k j then none else o) (h j))
  run_call-Agree (stores k v) m f h =
      (refl, λ j. load-store k j v m ∙ ap (λ o. if str_eq k j then some v else o) (h j))
  run_call-Agree (loads_or_stores k v) m f h = or_store-Agree (load k m) k v m f (sym (h k)) h

  -- The map implements a function from keys: whatever the sequence of calls, it answers each as the
  -- function does, and holds under every key what the function holds.
  pub run_calls-Represents :
      (cs : List (Call V)) (m : SyncMap V) (f : String → Option V)
      → Represents m f
      → ((run_calls cs m).0 ≡ (spec_calls cs f).0)
        × Represents (run_calls cs m).1 (spec_calls cs f).1
  run_calls-Represents [] m f h = (refl, h)
  run_calls-Represents (c ∷ cs) m f h =
      let (e, h') = run_call-Agree c m f h in
      let (es, h'') = run_calls-Represents cs (run_call c m).1 (spec_call c f).1 h' in
      (ap (λ a. a ∷ (run_calls cs (run_call c m).1).0) e ∙ ap (λ l. (spec_call c f).0 ∷ l) es, h'')
