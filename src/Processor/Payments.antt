-- ===== src/Processor/Payments.antt =====
-- What the handlers of Verify.antt count, and what they do not look at.
use goipay.Base.{
  ℕ, ◌%◌, ◌^◌, ◌≡◌, ◌≢◌, refl, ap, ◌∙◌, String, Bool, none, some, List, [], ◌∷◌, map, arith, select,
  str_eq, eq_iff, Bool-cases, Option-cases, inl, inr,
}
use goipay.Base.Float.{Float64, FloatOps, float_zero}
use goipay.Coin.{CoinType}
use goipay.Db.Models.{Invoice}
use goipay.Listener.Tx.{TxOut, BtcTx, EthLog, EthTx}
use goipay.Processor.Tokens.{TokenData, find_token}
use goipay.Processor.Verify.{
  pays_btc, btc_amount, verify_btc_tx_handler, pays_ltc, ltc_amount, verify_ltc_tx_handler, EthLib,
  is_transfer_to, log_value, token_amount, logs_amount, verify_eth_based_tx_handler,
}

-- The values added up from the left, as float64 rounds.
abbrev pub add_all : FloatOps → Float64 → List Float64 → Float64
add_all ops acc [] = acc
add_all ops acc (v ∷ vs) = add_all ops (ops.add acc v) vs

abbrev pub out_values : List TxOut → List Float64
out_values = map λ out. out.value

btc_amount-add_all :
    (ops : FloatOps) (addr : String) (acc : Float64) (outs : List TxOut)
    → btc_amount ops addr acc outs ≡ add_all ops acc (out_values (select (pays_btc ops addr) outs))
unfolding btc_amount
btc_amount-add_all ops addr acc [] = refl
btc_amount-add_all ops addr acc (out ∷ outs) = elim (Bool-cases (str_eq out.address addr)) [
  | inl paid ↦ rw (paid, btc_amount) (btc_amount-add_all ops addr (ops.add acc out.value) outs)
  | inr other ↦ rw (other, btc_amount) (btc_amount-add_all ops addr acc outs)
]

ltc_amount-add_all :
    (ops : FloatOps) (addr : String) (acc : Float64) (outs : List TxOut)
    → ltc_amount ops addr acc outs ≡ add_all ops acc (out_values (select (pays_ltc ops addr) outs))
unfolding ltc_amount
ltc_amount-add_all ops addr acc [] = refl
ltc_amount-add_all ops addr acc (out ∷ outs) = elim (Bool-cases (pays_ltc ops addr out)) [
  | inl paid ↦ rw (paid, ltc_amount) (ltc_amount-add_all ops addr (ops.add acc out.value) outs)
  | inr other ↦ rw (other, ltc_amount) (ltc_amount-add_all ops addr acc outs)
]

-- A Bitcoin or Litecoin transaction counts towards an invoice with the values, added up in order, of
-- those of its outputs that pay the invoice's address: for Bitcoin by the script's address, for
-- Litecoin also by a list of addresses that holds the invoice's alone.
pub verify_tx_handlers-add_all :
    (ops : FloatOps) (invoice : Invoice) (tx : BtcTx)
    → (verify_btc_tx_handler ops invoice tx
        ≡ add_all ops float_zero
            (out_values (select (pays_btc ops invoice.crypto_address) tx.vout)))
      × (verify_ltc_tx_handler ops invoice tx
          ≡ add_all ops float_zero
              (out_values (select (pays_ltc ops invoice.crypto_address) tx.vout)))
unfolding verify_btc_tx_handler verify_ltc_tx_handler
verify_tx_handlers-add_all ops invoice tx = (
  btc_amount-add_all ops invoice.crypto_address float_zero tx.vout,
  ltc_amount-add_all ops invoice.crypto_address float_zero tx.vout,
)

module _ (lib : EthLib) (ops : FloatOps) where
  token_amount-add_all :
      (t : TokenData) (addr : String) (acc : Float64) (ls : List EthLog)
      → token_amount lib ops t addr acc ls
        ≡ add_all ops acc (map (log_value lib ops t) (select (is_transfer_to lib ops t addr) ls))
  unfolding token_amount
  token_amount-add_all t addr acc [] = refl
  token_amount-add_all t addr acc (l ∷ ls) = elim (Bool-cases (is_transfer_to lib ops t addr l)) [
    | inl paid ↦
        rw (paid, token_amount)
          (token_amount-add_all t addr (ops.add acc (log_value lib ops t l)) ls)
    | inr other ↦ rw (other, token_amount) (token_amount-add_all t addr acc ls)
  ]

  -- A transaction with logs that did not fail counts towards an invoice for a token with the values
  -- of exactly those logs that are transfers, by the token's own contract, to the invoice's address;
  -- towards an invoice for any other coin it counts nothing.
  pub verify_eth_based_tx_handler_logs :
      (order : Bool) (invoice : Invoice) (tx : EthTx) (l : EthLog) (ls : List EthLog)
      → tx.status ≢ 0
      → tx.logs ≡ l ∷ ls
      → ((t : TokenData)
          → find_token order invoice.coin ≡ some t
          → verify_eth_based_tx_handler lib ops order invoice tx
            ≡ add_all ops float_zero (
                map
                  (log_value lib ops t)
                  (select (is_transfer_to lib ops t invoice.crypto_address) (l ∷ ls))))
        × (find_token order invoice.coin ≡ none
            → verify_eth_based_tx_handler lib ops order invoice tx ≡ float_zero)
  unfolding verify_eth_based_tx_handler
  verify_eth_based_tx_handler_logs order invoice tx l ls alive logs = (
    λ t found.
        by_logs
        ∙ ap (λ o. logs_amount lib ops o invoice.crypto_address (l ∷ ls)) found
        ∙ token_amount-add_all t invoice.crypto_address float_zero (l ∷ ls),
    λ found. by_logs ∙ ap (λ o. logs_amount lib ops o invoice.crypto_address (l ∷ ls)) found,
  )
    where
      by_logs :
          verify_eth_based_tx_handler lib ops order invoice tx
          ≡ logs_amount lib ops (find_token order invoice.coin) invoice.crypto_address (l ∷ ls)
      by_logs = ground arith

  -- A transaction without logs that did not fail counts towards an invoice with the low 64 bits of
  -- its value, divided by 10 ^ 18, where its receiver is the invoice's address, and with nothing
  -- where it is not; one that failed counts with nothing. This is so whatever coin the invoice asks
  -- for, so that a transfer of the chain's own coin pays an invoice for a token, one for one.
  pub verify_eth_based_tx_handler_native :
      (order : Bool) (invoice : Invoice) (coin : CoinType) (tx : EthTx)
      → tx.logs ≡ []
      → let amount =
          verify_eth_based_tx_handler lib ops order (record invoice { coin = coin }) tx in
        (tx.status ≡ 0 → amount ≡ float_zero)
        × ((receiver : ℕ)
            → tx.status ≢ 0
            → tx.tx.to ≡ some receiver
            → invoice.crypto_address ≡ lib.address_hex receiver
            → amount ≡ ops.add float_zero (ops.div_1e18 (ops.of_u64 (tx.tx.value % 2 ^ 64))))
        × (((receiver : ℕ)
              → tx.tx.to ≡ some receiver
              → invoice.crypto_address ≢ lib.address_hex receiver)
            → amount ≡ float_zero)
  unfolding verify_eth_based_tx_handler
  verify_eth_based_tx_handler_native order invoice coin tx logs = (
    λ failed. ground arith,
    λ receiver alive to own.
        ground (arith, eq_iff invoice.crypto_address (lib.address_hex receiver)),
    λ foreign. elim (Option-cases tx.tx.to) [
      | inl nobody ↦ ground arith
      | inr (a, to) ↦
          ground (arith, foreign a to, eq_iff invoice.crypto_address (lib.address_hex a))
    ],
  )
