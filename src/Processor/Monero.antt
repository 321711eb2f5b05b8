-- ===== src/Processor/Monero.antt =====
-- What a Monero transaction pays towards an invoice: `verifyXMRTxHandler`
-- (internal/processor/xmr.go). An index out of range ends the program: the result is `none` there.
use goipay.Base.{
  ℕ, suc, ◌+◌, ◌%◌, ◌^◌, String, Bool, Option, none, some, List, [], ◌∷◌, if◌then◌else◌,
}
use goipay.Base.Float.{Float64, FloatOps}
use goipay.Error.{Error, Result, ok, err}
use goipay.Db.Models.{Invoice}
use goipay.Db.Session.{Session, Query, query, pure, of_result, or_else_fail, ◌>>=◌}
use goipay.Db.CryptoData.{find_crypto_data_by_user_id}
use goipay.Db.XmrData.{find_keys_xmr_crypto_data_by_id}
use goipay.Listener.Tx.{XmrTxInfo, XmrTx}
use goipay.Processor.Address.{XmrLib}

-- What the loop over the outputs uses.
pub record ScanKeys : Type 0 where
  pub priv_view : String
  pub pub_spend : String
  pub tx_pub : String

module _ (lib : XmrLib) where
  -- The part before the loop.
  unfoldable pub scan_keys : Invoice → XmrTx → Query ScanKeys
  scan_keys invoice tx = do
    cd ← query (find_crypto_data_by_user_id invoice.user_id)
    keys ← query (find_keys_xmr_crypto_data_by_id cd.xmr_id)
    view ← or_else_fail Error.external (of_result (lib.new_private_key keys.priv_view_key))
    spend ← or_else_fail Error.external (of_result (lib.public_spend_key invoice.crypto_address))
    tx_pub ←
        or_else_fail Error.external (of_result (lib.get_tx_public_key_from_extra tx.tx_info.extra))
    pure (record { priv_view = view; pub_spend = spend; tx_pub = tx_pub })

  -- One output: whether it is the invoice's, and its amount.
  abbrev pub decrypt_with : ScanKeys → ℕ → String → Result String → Result (Bool × ℕ)
  decrypt_with k i amount (err _) = err Error.external
  decrypt_with k i amount (ok out_key) =
      elim (lib.decrypt_output_public_spend_key k.pub_spend (i % 2 ^ 32) out_key amount k.tx_pub
        k.priv_view) [ ok r ↦ ok r | err _ ↦ err Error.external ]

  abbrev pub decrypt_output : ScanKeys → ℕ → String → String → Result (Bool × ℕ)
  decrypt_output k i out amount = decrypt_with k i amount (lib.new_public_key out)

  -- `if res { amount += am }`
  abbrev pub add_output : Bool × ℕ → ℕ → ℕ
  add_output (res, am) amount = if res then (amount + am) % 2 ^ 64 else amount

  -- The loop, from the output `i` on.
  unfoldable pub scan_outputs : ScanKeys → ℕ → ℕ → List String → List String → Option (Result ℕ)
  scan_outputs k i amount [] ecdh = some (ok amount)
  scan_outputs k i amount (out ∷ outs) [] = none
  scan_outputs k i amount (out ∷ outs) (e ∷ ecdh) = elim (decrypt_output k i out e) [
    | err x ↦ some (err x)
    | ok r ↦ scan_outputs k (suc i) (add_output r amount) outs ecdh
  ]

  abbrev pub scanned : FloatOps → Session → Option (Result ℕ) → Option (Result Float64 × Session)
  scanned ops s none = none
  scanned ops s (some (err e)) = some (err e, s)
  scanned ops s (some (ok amount)) = some (ok (ops.of_piconero amount), s)

  abbrev pub scan_with :
      FloatOps → XmrTxInfo → Result ScanKeys × Session → Option (Result Float64 × Session)
  scan_with ops info (err e, s) = some (err e, s)
  scan_with ops info (ok k, s) = scanned ops s (scan_outputs k 0 0 info.vout info.ecdh_info)

  -- `verifyXMRTxHandler`
  unfoldable pub verify_xmr_tx_handler :
      FloatOps → Invoice → XmrTx → Session → Option (Result Float64 × Session)
  unfolding scan_keys scan_outputs
  verify_xmr_tx_handler ops invoice tx s = scan_with ops tx.tx_info (scan_keys invoice tx s)
