-- ===== src/Processor/Told.antt =====
-- The invoices that the goroutines of internal/processor/base.go broadcast are rows of the table, with
-- what was asked for.
pub mod Goroutines
pub mod Bodies
pub mod Steps
pub mod Readers
use goipay.Base.{
  ◌≡◌, refl, sym, ◌∙◌, subst, Bool, true, false, some, List, [], ◌∷◌, ◌++◌, arith, find, exists,
  All, Bool-cases, inl, inr, Bool,
}
use goipay.Error.{Result}
use goipay.Db.Models.{Uuid, eq_uuid, Invoice}
use goipay.Db.Ledger.{Evolves, Evolved, nothing, each}
use goipay.Processor.State.{
  Task, broadcast, verify_mempool, verify_block, release_address, handle_invoice_helper,
}
use goipay.Processor.Ledger.Created.{Adds, left, added, IsNew}
use goipay.Processor.Linked.{
  asked, Evolves-asked, LinkedTo, Evolved-LinkedTo, append-LinkedTo, absent-LinkedTo, new-LinkedTo,
  eq_uuid_comm,
}

module _ {A : Type 0} where
  pub append-All : (P : A → Type 0) (xs ys : List A) → All P xs → All P ys → All P (xs ++ ys)
  append-All P [] ys f g = g
  append-All P (x ∷ xs) ys f g = (f.0, append-All P xs ys f.1 g)

  -- One of them, and the others.
  pub All-split :
      (P : A → Type 0) (xs ys : List A) (y : A) → All P (xs ++ y ∷ ys) → P y × All P (xs ++ ys)
  All-split P [] ys y f = f
  All-split P (x ∷ xs) ys y f = let (h, rest) = All-split P xs ys y f.1 in (h, (f.0, rest))

  pub mapped-All : (P R : A → Type 0) (xs : List A) → ((x : A) → P x → R x) → All P xs → All R xs
  mapped-All P R [] f p = tt
  mapped-All P R (x ∷ xs) f p = (f x p.0, mapped-All P R xs f p.1)

  pub carried-All :
      (P Q R : A → Type 0) (xs : List A)
      → ((x : A) → Q x → P x → R x)
      → All Q xs
      → All P xs
      → All R xs
  carried-All P Q R [] f q p = tt
  carried-All P Q R (x ∷ xs) f q p = (f x q.0 p.0, carried-All P Q R xs f q.1 p.1)

-- No two rows share an id and differ in what was asked for.
abbrev pub Distinct : List Invoice → Type 0
Distinct rows = All (λ r. LinkedTo rows (asked r)) rows

-- The rows that have evolved are linked to the old ones.
evolved_linked :
    (base rs qs : List Invoice)
    → Evolved rs qs
    → All (λ r. LinkedTo base (asked r)) rs
    → All (λ r. LinkedTo base (asked r)) qs
evolved_linked base rs qs nothing d = d
evolved_linked base rs qs (each i j rs' qs' e x) d =
    (subst (LinkedTo base) (sym (Evolves-asked i j e)) d.0, evolved_linked base rs' qs' x d.1)

rebased :
    (base base' rs : List Invoice)
    → Evolved base base'
    → All (λ r. LinkedTo base (asked r)) rs
    → All (λ r. LinkedTo base' (asked r)) rs
rebased base base' [] x d = tt
rebased base base' (r ∷ rs) x d =
    (Evolved-LinkedTo base base' (asked r) x d.0, rebased base base' rs x d.1)

pub Evolved-Distinct : (rs qs : List Invoice) → Evolved rs qs → Distinct rs → Distinct qs
Evolved-Distinct rs qs x d = rebased rs qs qs x (evolved_linked rs rs qs x d)

found_linked :
    (base qs : List Invoice) (p : Invoice → Bool) (r : Invoice)
    → All (λ q. LinkedTo base (asked q)) qs
    → find p qs ≡ some r
    → LinkedTo base (asked r)
found_linked base [] p r d h = cc
found_linked base (q ∷ qs) p r d h = elim (Bool-cases (p q)) [
  | inl hit ↦
      let same : q ≡ r = ground (arith, hit, h) in subst (λ i. LinkedTo base (asked i)) same d.0
  | inr miss ↦ found_linked base qs p r d.1 (ground (arith, miss, h))
]

-- A row that a transaction finds, after whatever it has written, is linked to the rows at first.
pub seen_linked :
    (rows qs : List Invoice) (p : Invoice → Bool) (r : Invoice)
    → Evolved rows qs
    → Distinct rows
    → find p qs ≡ some r
    → LinkedTo rows (asked r)
seen_linked rows qs p r x d h = found_linked rows qs p r (evolved_linked rows rows qs x d) h

unlike :
    (id : Uuid) (qs : List Invoice) (i : Invoice) (base : List Invoice)
    → i.id ≡ some id
    → exists (λ r. eq_uuid r.id (some id)) qs ≡ false
    → All (λ r. LinkedTo base (asked r)) qs
    → All (λ r. LinkedTo (base ++ i ∷ []) (asked r)) qs
unlike id [] i base e h d = tt
unlike id (q ∷ qs) i base e h d = (
  append-LinkedTo base (asked q) i d.0
      (λ same. ground (arith, h, same, e, eq_uuid_comm (some id) q.id)),
  unlike id qs i base e (ground (arith, h)) d.1,
)

evolved-unused :
    (id : Uuid) (rs qs : List Invoice)
    → Evolved rs qs
    → exists (λ r. eq_uuid r.id (some id)) rs ≡ false
    → exists (λ r. eq_uuid r.id (some id)) qs ≡ false
evolved-unused id rs qs nothing h = h
evolved-unused id rs qs (each i j rs' qs' e x) h =
    ground (arith, h, e.id, evolved-unused id rs' qs' x)

-- A new row has an id of its own.
pub Adds-Distinct :
    (id : Uuid) (rows : List Invoice) (r : Result Invoice) (qs : List Invoice)
    → Adds id rows r qs
    → exists (λ q. eq_uuid q.id (some id)) rows ≡ false
    → Distinct rows
    → Distinct qs
Adds-Distinct id rows r qs (left _ _ x n) unused d = Evolved-Distinct rows qs x d
Adds-Distinct id rows _ _ (added i qs x n) unused d =
    append-All (λ r. LinkedTo (qs ++ i ∷ []) (asked r)) qs (i ∷ [])
      (unlike id qs i qs n.0 (evolved-unused id rows qs x unused) (Evolved-Distinct rows qs x d))
      (new-LinkedTo id rows i (qs ++ i ∷ []) (added i qs x n) unused, tt)

module _ {T : Type 0} where
  -- What holds of the invoice that a goroutine broadcasts.
  abbrev pub OnTask : (Invoice → Type 0) → Task T → Type 0
  OnTask P (broadcast i) = P i
  OnTask P _ = Unit

  -- It is linked to the rows.
  abbrev pub TaskTold : List Invoice → Task T → Type 0
  TaskTold rows t = OnTask (λ i. LinkedTo rows (asked i)) t

  abbrev pub AllTold : List Invoice → List (Task T) → Type 0
  AllTold rows ts = All (TaskTold rows) ts

  pub append-AllTold :
      (rows : List Invoice) (ts us : List (Task T))
      → AllTold rows ts
      → AllTold rows us
      → AllTold rows (ts ++ us)
  append-AllTold rows ts us f g = append-All (TaskTold rows) ts us f g

  pub carried-OnTask :
      (P Q R : Invoice → Type 0) (t : Task T)
      → ((i : Invoice) → Q i → P i → R i)
      → OnTask Q t
      → OnTask P t
      → OnTask R t
  carried-OnTask P Q R (broadcast i) f q p = f i q p
  carried-OnTask P Q R (verify_mempool value tx) f q p = tt
  carried-OnTask P Q R (verify_block value) f q p = tt
  carried-OnTask P Q R (release_address i) f q p = tt
  carried-OnTask P Q R (handle_invoice_helper c i) f q p = tt

  pub mapped-OnTask :
      (P R : Invoice → Type 0) (t : Task T) → ((i : Invoice) → P i → R i) → OnTask P t → OnTask R t
  mapped-OnTask P R (broadcast i) f p = f i p
  mapped-OnTask P R (verify_mempool value tx) f p = tt
  mapped-OnTask P R (verify_block value) f p = tt
  mapped-OnTask P R (release_address i) f p = tt
  mapped-OnTask P R (handle_invoice_helper c i) f p = tt
