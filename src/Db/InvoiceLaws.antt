-- ===== src/Db/InvoiceLaws.antt =====
-- What the updates of internal/db/invoice.sql.go do to the table: the row with the id is written,
-- and every other row stays.
use goipay.Base.{
  ◌≡◌, ◌≢◌, refl, Bool, true, false, some, List, [], ◌∷◌, arith, find, update, inl, inr, Bool-cases,
}
use goipay.Db.Models.{PgUuid, Invoice}
use goipay.Db.Statements.{map_row}
use goipay.Db.Invoices.{has_id}

module _ {A : Type 0} where
  -- An update that keeps its own condition maps the row that the condition finds.
  pub find-update_self :
      (p : A → Bool) (f : A → A) (rows : List A)
      → ((a : A) → p (f a) ≡ p a)
      → find p (update p f rows) ≡ map_row f (find p rows)
  find-update_self p f [] keep = refl
  find-update_self p f (a ∷ rows) keep = elim (Bool-cases (p a)) [
    | inl hit ↦ rw (hit, keep a, hit)
    | inr miss ↦ rw (miss, miss) (find-update_self p f rows keep)
  ]

  -- It does not touch the rows that another condition finds, where no row meets both.
  pub find-update_other :
      (p q : A → Bool) (f : A → A) (rows : List A)
      → ((a : A) → p a ≡ true → (q a ≡ false) × (q (f a) ≡ false))
      → find q (update p f rows) ≡ find q rows
  find-update_other p q f [] apart = refl
  find-update_other p q f (a ∷ rows) apart = elim (Bool-cases (p a)) [
    | inl hit ↦ rw (hit, (apart a hit).0, (apart a hit).1) (find-update_other p q f rows apart)
    | inr miss ↦ rw (miss, find-update_other p q f rows apart)
  ]

-- An invoice has one id.
pub has_id_apart : (i j : PgUuid) (r : Invoice) → i ≢ j → has_id i r ≡ true → has_id j r ≡ false
has_id_apart i j r ne h = ground arith

-- The row that is found satisfies the condition.
pub find-satisfies :
    {A : Type 0} (p : A → Bool) {r : A} (rows : List A) → find p rows ≡ some r → p r ≡ true
find-satisfies p [] h = cc
find-satisfies p {r} (a ∷ rows) h = elim (Bool-cases (p a)) [
  | inl hit ↦ ground arith
  | inr miss ↦ find-satisfies p rows (ground arith)
]
