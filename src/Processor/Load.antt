-- ===== src/Processor/Load.antt =====
-- The end of `NewPaymentProcessor`, and `load` (internal/processor/main.go): the invoices that the
-- database holds, and then each processor, in an order that Go leaves open.
use goipay.Base.{◌≡◌, refl, Bool, true, ◌&&◌, List, [], ◌∷◌, inl, inr, ℕ}
use goipay.Error.{Result, ok, err, is_ok, Result-cases}
use goipay.Db.Models.{Invoice}
use goipay.Db.Session.{⊤}
use goipay.Processor.SetUp.{DaemonsConfig, Dialer, CryptoProcessor, new_payment_processor}

-- The loop over the processors: `load` of each, by the height it starts at.
unfoldable pub load_each : (CryptoProcessor → Result ℕ) → List CryptoProcessor → Result ⊤
load_each load_one [] = ok tt
load_each load_one (p ∷ ps) = elim (load_one p) [ err e ↦ err e | ok h ↦ load_each load_one ps ]

-- `load`; `persisted` is what `loadPersistedPendingInvoices` gives.
unfoldable pub load_all :
    Result (List Invoice) → (CryptoProcessor → Result ℕ) → List CryptoProcessor → Result ⊤
unfolding load_each
load_all (err e) load_one ps = err e
load_all (ok is) load_one ps = load_each load_one ps

abbrev checked : List CryptoProcessor → Result ⊤ → Result (List CryptoProcessor)
checked ps (err e) = err e
checked ps (ok _) = ok ps

abbrev loaded_with :
    (List CryptoProcessor → Result ⊤)
    → Result (List CryptoProcessor)
    → Result (List CryptoProcessor)
loaded_with load (err e) = err e
loaded_with load (ok ps) = checked ps (load ps)

-- `NewPaymentProcessor`
unfoldable pub new_loaded_payment_processor :
    Dialer
    → DaemonsConfig
    → Result (List Invoice)
    → (CryptoProcessor → Result ℕ)
    → Result (List CryptoProcessor)
unfolding new_payment_processor load_all
new_loaded_payment_processor dialer config persisted load_one =
    loaded_with (load_all persisted load_one) (new_payment_processor dialer config)

-- Every processor of the list starts.
abbrev pub all_start : (CryptoProcessor → Result ℕ) → List CryptoProcessor → Bool
all_start load_one [] = true
all_start load_one (p ∷ ps) = is_ok (load_one p) && all_start load_one ps

load_each_lem :
    (load_one : CryptoProcessor → Result ℕ) (ps : List CryptoProcessor)
    → is_ok (load_each load_one ps) ≡ all_start load_one ps
unfolding load_each
load_each_lem load_one [] = refl
load_each_lem load_one (p ∷ ps) = elim (Result-cases (load_one p)) [
  | inl (e, failed) ↦ rw (load_each, failed) refl
  | inr (h, started) ↦ rw (load_each, started) (load_each_lem load_one ps)
]

-- Loading ends without an error where the invoices are loaded and every processor starts, and only
-- there, whatever the order of the processors.
pub load_all_lem :
    (persisted : Result (List Invoice)) (load_one : CryptoProcessor → Result ℕ)
    (ps : List CryptoProcessor)
    → is_ok (load_all persisted load_one ps) ≡ is_ok persisted && all_start load_one ps
unfolding load_all
load_all_lem (err e) load_one ps = refl
load_all_lem (ok is) load_one ps = load_each_lem load_one ps
