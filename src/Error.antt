-- ===== src/Error.antt =====
-- The errors that the program returns, and results that may be one. Go's `error` is one interface,
-- so one data type holds the sentinel errors of the packages, the failures of a database call, and
-- the statuses that the gRPC handlers answer with.
use goipay.Base.{◌≡◌, refl, ◌⊎◌, inl, inr, Bool, true, false}

-- The gRPC status codes that the handlers use.
pub data Code : Type 0 where
  invalid_argument internal canceled : Code

-- The messages that go with them (internal/util/const.go).
pub data Message : Type 0 where
  sql_tx_init sql_query invalid_user_uuid user_exists user_does_not_exist : Message
  amount_below_zero handling_invoice stream_sending stream_closed : Message
  invalid_view_key invalid_spend_key invalid_master_key : Message

pub data Error : Type 0 where
  invalid_pb_coin invalid_db_coin invalid_db_status invalid_network : Error
  unsupported_coin unimplemented invalid_uuid daemon external : Error
  tx_begin no_rows query_failed tx_aborted : Error
  status : Code → Message → Error

pub data Result {ℓ} (A : Type ℓ) : Type ℓ where
  ok : A → Result A
  err : Error → Result A

pub Result-cases {ℓ} :
    {A : Type ℓ} (r : Result A) → ((e : Error) × (r ≡ err e)) ⊎ ((a : A) × (r ≡ ok a))
Result-cases (ok a) = inr (a, refl)
Result-cases (err e) = inl (e, refl)

abbrev pub is_ok {ℓ} : {A : Type ℓ} → Result A → Bool
is_ok (ok _) = true
is_ok (err _) = false
