-- ===== src/Processor/Linked.antt =====
-- What the pointers to invoices have to do with the rows of the table (internal/processor/base.go):
-- both hold the same columns of what the merchant asked for.
pub mod Pointers
pub mod Reached
use goipay.Base.{
  ℕ, ◌<◌, ◌≡◌, refl, sym, ◌∙◌, subst, String, Bool, true, false, Option, none, some, List, [], ◌∷◌,
  ◌++◌, arith, find, exists, All,
}
use goipay.Base.Float.{Float64}
use goipay.Coin.{CoinType}
use goipay.Error.{Result, ok}
use goipay.Processor.Ledger.Created.{Adds, left, added, IsNew}
use goipay.Db.Models.{Uuid, PgUuid, Time, eq_uuid, Invoice}
use goipay.Db.Invoices.{has_id}
use goipay.Db.Ledger.{Evolves, Evolved, nothing, each}
use goipay.SyncMap.{load}
use goipay.Processor.State.{PendingInvoice, World}
use goipay.Processor.Keeps.{Keeps}
use goipay.Processor.Owned.{IsOwned, Keeps-IsOwned}
use goipay.Processor.Ledger.Steps.{Grows}

-- The columns that are written once, when the invoice is made.
pub record Order : Type 0 where
  pub id : PgUuid
  pub crypto_address : String
  pub coin : CoinType
  pub required_amount : Float64
  pub confirmations_required : ℕ
  pub created_at : Option Time
  pub expires_at : Option Time
  pub user_id : PgUuid

abbrev pub asked : Invoice → Order
asked i = record {
  id = i.id;
  crypto_address = i.crypto_address;
  coin = i.coin;
  required_amount = i.required_amount;
  confirmations_required = i.confirmations_required;
  created_at = i.created_at;
  expires_at = i.expires_at;
  user_id = i.user_id;
}

pub Evolves-asked : (i j : Invoice) → Evolves i j → asked j ≡ asked i
Evolves-asked i j e = ground (
  arith, e.id, e.crypto_address, e.coin, e.required_amount, e.confirmations_required, e.created_at,
  e.expires_at, e.user_id,
)

-- The row of an order's id, where there is one, is the order's.
abbrev pub LinkedTo : List Invoice → Order → Type 0
LinkedTo rows o = All (λ r. eq_uuid r.id o.id ≡ true → asked r ≡ o) rows

pub Evolved-LinkedTo :
    (rs qs : List Invoice) (o : Order) → Evolved rs qs → LinkedTo rs o → LinkedTo qs o
Evolved-LinkedTo rs qs o nothing l = l
Evolved-LinkedTo rs qs o (each i j rs' qs' e x) l = (
  λ h. Evolves-asked i j e ∙ l.0 (subst (λ k. eq_uuid k o.id ≡ true) e.id h),
  Evolved-LinkedTo rs' qs' o x l.1,
)

pub find-LinkedTo :
    (rs : List Invoice) (o : Order) (r : Invoice)
    → find (has_id o.id) rs ≡ some r
    → LinkedTo rs o
    → asked r ≡ o
find-LinkedTo [] o r h l = cc
find-LinkedTo (q ∷ rs) o r h l = ground (arith, l.0, find-LinkedTo rs o r)

pub append-LinkedTo :
    (rs : List Invoice) (o : Order) (i : Invoice)
    → LinkedTo rs o
    → (eq_uuid i.id o.id ≡ true → asked i ≡ o)
    → LinkedTo (rs ++ i ∷ []) o
append-LinkedTo [] o i l h = (h, tt)
append-LinkedTo (r ∷ rs) o i l h = (l.0, append-LinkedTo rs o i l.1 h)

pub absent-LinkedTo :
    (rs : List Invoice) (o : Order) → exists (λ r. eq_uuid r.id o.id) rs ≡ false → LinkedTo rs o
absent-LinkedTo [] o h = tt
absent-LinkedTo (r ∷ rs) o h = (λ e. ground (arith, e), absent-LinkedTo rs o (ground (arith, h)))

pub eq_uuid_comm : (a b : PgUuid) → eq_uuid a b ≡ eq_uuid b a
eq_uuid_comm none none = refl
eq_uuid_comm none (some b) = refl
eq_uuid_comm (some a) none = refl
eq_uuid_comm (some a) (some b) = ground arith

-- A row under an unused UUID is no other order's.
pub Adds-LinkedTo :
    (id : Uuid) (rows : List Invoice) (r : Result Invoice) (qs : List Invoice) (o : Order)
    → Adds id rows r qs
    → eq_uuid o.id (some id) ≡ false
    → LinkedTo rows o
    → LinkedTo qs o
Adds-LinkedTo id rows r qs o (left _ _ x n) unused l = Evolved-LinkedTo rows qs o x l
Adds-LinkedTo id rows _ _ o (added i qs x n) unused l =
    append-LinkedTo qs o i (Evolved-LinkedTo rows qs o x l)
      (λ h. ground (arith, h, n.0, unused, eq_uuid_comm (some id) o.id))

-- The new invoice is linked to its row, where that is stored.
pub new-LinkedTo :
    (id : Uuid) (rows : List Invoice) (i : Invoice) (qs : List Invoice)
    → Adds id rows (ok i) qs
    → exists (λ r. eq_uuid r.id (some id)) rows ≡ false
    → LinkedTo qs (asked i)
new-LinkedTo id rows i qs (left _ _ x n) unused = Evolved-LinkedTo rows qs (asked i) x (
    absent-LinkedTo rows (asked i)
      (subst (λ k. exists (λ r. eq_uuid r.id k) rows ≡ false) (sym (n i refl).0) unused))
new-LinkedTo id rows i _ (added _ qs x n) unused =
    append-LinkedTo qs (asked i) i
      (Evolved-LinkedTo rows qs (asked i) x (
        absent-LinkedTo rows (asked i)
          (subst (λ k. exists (λ r. eq_uuid r.id k) rows ≡ false) (sym n.0) unused)))
      (λ _. refl)

module _ {T : Type 0} where
  -- The pending map, the pointers and the table agree: entries have pointers of their own, the
  -- invoice behind each is the one whose address the entry stands under, and the row of that
  -- invoice's id, where there is one, has what was asked for as the pointer has it.
  pub record IsLinked (w : World T) : Type 0 where
    pub owned : IsOwned w
    pub rows : (p : ℕ) → LinkedTo w.db.invoices (asked (w.cell p))
    pub keyed :
        (addr : String) (p : PendingInvoice)
        → load addr w.pending_invoices ≡ some p
        → (w.cell p.invoice).crypto_address ≡ addr

  -- The pointers hold what was asked for as before.
  abbrev pub SameAsked : World T → World T → Type 0
  SameAsked w v = (p : ℕ) → asked (v.cell p) ≡ asked (w.cell p)

  pub Keeps-IsLinked :
      (w v : World T) → Keeps w v → Grows w v → SameAsked w v → IsLinked w → IsLinked v
  Keeps-IsLinked w v k x same l = record {
    owned = Keeps-IsOwned w v k l.owned;
    rows = λ p.
        subst (LinkedTo v.db.invoices) (sym (same p))
          (Evolved-LinkedTo w.db.invoices v.db.invoices (asked (w.cell p)) x (l.rows p));
    keyed = λ addr p h. ground (arith, same p.invoice, l.keyed addr p (k.entries addr p h));
  }
