-- ===== src/Db/Ledger.antt =====
-- The table of invoices as a ledger (internal/db/invoice.sql.go): what the statements may do to it.
pub mod Queries
use goipay.Base.{
  ℕ, ◌≡◌, refl, sym, ◌∙◌, String, Bool, true, false, List, [], ◌∷◌, ◌++◌, update, Bool-cases, inl,
  inr, All, none, some, Option, ◌≢◌,
}
use goipay.Base.Float.{Float64}
use goipay.Coin.{CoinType, InvoiceStatusType}
use goipay.Db.Models.{Uuid, PgUuid, Time, Invoice}
use goipay.Db.Statements.{is_null}
use goipay.Db.Invoices.{
  MempoolParams, CreateInvoiceParams, new_invoice, set_confirmed, set_mempool, set_expired,
}

abbrev pub FitsStatus : InvoiceStatusType → Invoice → Type 0
FitsStatus InvoiceStatusType.pending i =
    (i.tx_id ≡ none) × (i.actual_amount ≡ none) × (i.confirmed_at ≡ none)
FitsStatus InvoiceStatusType.pending_mempool i =
    (is_null i.tx_id ≡ false) × (is_null i.actual_amount ≡ false)
FitsStatus InvoiceStatusType.confirmed i = is_null i.confirmed_at ≡ false
FitsStatus _ i = Unit

-- A row's columns fit its status: a PENDING invoice has no payment, a PENDING_MEMPOOL one has a
-- transaction and an amount, and a CONFIRMED one the time of its confirmation.
abbrev pub Fits : Invoice → Type 0
Fits i = FitsStatus i.status i

-- A row that was `i` is `j` now: what the merchant asked for stays, and no invoice becomes PENDING
-- again.
pub record Evolves (i j : Invoice) : Type 0 where
  pub id : j.id ≡ i.id
  pub crypto_address : j.crypto_address ≡ i.crypto_address
  pub coin : j.coin ≡ i.coin
  pub required_amount : j.required_amount ≡ i.required_amount
  pub confirmations_required : j.confirmations_required ≡ i.confirmations_required
  pub created_at : j.created_at ≡ i.created_at
  pub expires_at : j.expires_at ≡ i.expires_at
  pub user_id : j.user_id ≡ i.user_id
  pub status : j.status ≡ InvoiceStatusType.pending → i.status ≡ InvoiceStatusType.pending
  pub fits : Fits i → Fits j

Evolves-refl : (i : Invoice) → Evolves i i
Evolves-refl i = record {
  id = refl;
  crypto_address = refl;
  coin = refl;
  required_amount = refl;
  confirmations_required = refl;
  created_at = refl;
  expires_at = refl;
  user_id = refl;
  status = λ e. e;
  fits = λ f. f;
}

Evolves-trans : (i j k : Invoice) → Evolves i j → Evolves j k → Evolves i k
Evolves-trans i j k f g = record {
  id = g.id ∙ f.id;
  crypto_address = g.crypto_address ∙ f.crypto_address;
  coin = g.coin ∙ f.coin;
  required_amount = g.required_amount ∙ f.required_amount;
  confirmations_required = g.confirmations_required ∙ f.confirmations_required;
  created_at = g.created_at ∙ f.created_at;
  expires_at = g.expires_at ∙ f.expires_at;
  user_id = g.user_id ∙ f.user_id;
  status = λ e. f.status (g.status e);
  fits = λ h. g.fits (f.fits h);
}

-- The columns that the statements write.
abbrev written :
    InvoiceStatusType → Option Float64 → Option Time → Option String → Invoice → Invoice
written status amount at tx i = record i {
  status = status;
  actual_amount = amount;
  confirmed_at = at;
  tx_id = tx;
}

written-Evolves :
    (status : InvoiceStatusType) (amount : Option Float64) (at : Option Time) (tx : Option String)
    (i : Invoice)
    → status ≢ InvoiceStatusType.pending
    → Fits (written status amount at tx i)
    → Evolves i (written status amount at tx i)
written-Evolves status amount at tx i moves fit = record {
  id = refl;
  crypto_address = refl;
  coin = refl;
  required_amount = refl;
  confirmations_required = refl;
  created_at = refl;
  expires_at = refl;
  user_id = refl;
  status = λ e. elim (moves e) [ ];
  fits = λ _. fit;
}

pub set_confirmed-Evolves : (now : Time) (i : Invoice) → Evolves i (set_confirmed now i)
set_confirmed-Evolves now i =
    written-Evolves InvoiceStatusType.confirmed i.actual_amount (some now) i.tx_id i (λ e. cc) refl

pub set_expired-Evolves : (i : Invoice) → Evolves i (set_expired i)
set_expired-Evolves i =
    written-Evolves InvoiceStatusType.expired i.actual_amount i.confirmed_at i.tx_id i (λ e. cc) tt

pub set_mempool-Evolves :
    (id : PgUuid) (amount : Float64) (tx : String) (i : Invoice)
    → Evolves i (set_mempool (record { id = id; actual_amount = some amount; tx_id = some tx }) i)
set_mempool-Evolves id amount tx i =
    written-Evolves InvoiceStatusType.pending_mempool (some amount) i.confirmed_at (some tx) i
      (λ e. cc) (refl, refl)

pub new_invoice-Fits :
    (id : Uuid) (now : Time) (arg : CreateInvoiceParams) → Fits (new_invoice id now arg)
new_invoice-Fits id now arg = (refl, refl, refl)

-- The rows `rs` have become `qs`: each of them has evolved and stands where it stood, and no row came
-- or went.
pub data Evolved : List Invoice → List Invoice → Type 0 where
  nothing : Evolved [] []
  each :
      (i j : Invoice) (rs qs : List Invoice)
      → Evolves i j
      → Evolved rs qs
      → Evolved (i ∷ rs) (j ∷ qs)

pub evolved_refl : (rs : List Invoice) → Evolved rs rs
evolved_refl [] = nothing
evolved_refl (i ∷ rs) = each i i rs rs (Evolves-refl i) (evolved_refl rs)

pub evolved_trans : (rs qs ps : List Invoice) → Evolved rs qs → Evolved qs ps → Evolved rs ps
evolved_trans rs qs ps nothing y = y
evolved_trans rs qs ps (each i j rs' qs' e x) (each _ k _ ps' f y) =
    each i k rs' ps' (Evolves-trans i j k e f) (evolved_trans rs' qs' ps' x y)

-- `UPDATE … SET … WHERE …`
pub update-Evolved :
    (p : Invoice → Bool) (f : Invoice → Invoice) (rs : List Invoice)
    → ((i : Invoice) → Evolves i (f i))
    → Evolved rs (update p f rs)
update-Evolved p f [] e = nothing
update-Evolved p f (i ∷ rs) e = elim (Bool-cases (p i)) [
  | inl hit ↦ rw hit (each i (f i) rs (update p f rs) (e i) (update-Evolved p f rs e))
  | inr miss ↦ rw miss (each i i rs (update p f rs) (Evolves-refl i) (update-Evolved p f rs e))
]

-- The rows `rs` have become `qs`: each row that was there has evolved and stands where it stood, and
-- the new ones follow.
pub data Extends : List Invoice → List Invoice → Type 0 where
  new : (qs : List Invoice) → All Fits qs → Extends [] qs
  old :
      (i j : Invoice) (rs qs : List Invoice)
      → Evolves i j
      → Extends rs qs
      → Extends (i ∷ rs) (j ∷ qs)

pub extends_refl : (rs : List Invoice) → Extends rs rs
extends_refl [] = new [] tt
extends_refl (i ∷ rs) = old i i rs rs (Evolves-refl i) (extends_refl rs)

-- Rows that fit their status still do.
pub extends_fit : (rs qs : List Invoice) → Extends rs qs → All Fits rs → All Fits qs
extends_fit rs qs (new _ fit) h = fit
extends_fit rs qs (old i j rs' qs' e x) h = (e.fits h.0, extends_fit rs' qs' x h.1)

pub extends_trans : (rs qs ps : List Invoice) → Extends rs qs → Extends qs ps → Extends rs ps
extends_trans rs qs ps (new _ fit) y = new ps (extends_fit qs ps y fit)
extends_trans rs qs ps (old i j rs' qs' e x) (old _ k _ ps' f y) =
    old i k rs' ps' (Evolves-trans i j k e f) (extends_trans rs' qs' ps' x y)

-- `INSERT INTO …`
pub append-Extends : (i : Invoice) (rs : List Invoice) → Fits i → Extends rs (rs ++ i ∷ [])
append-Extends i [] fit = new (i ∷ []) (fit, tt)
append-Extends i (j ∷ rs) fit = old j j rs (rs ++ i ∷ []) (Evolves-refl j) (append-Extends i rs fit)

pub Evolved-Extends : (rs qs : List Invoice) → Evolved rs qs → Extends rs qs
Evolved-Extends rs qs nothing = new [] tt
Evolved-Extends rs qs (each i j rs' qs' e x) = old i j rs' qs' e (Evolved-Extends rs' qs' x)
