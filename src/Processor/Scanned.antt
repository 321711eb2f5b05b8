-- ===== src/Processor/Scanned.antt =====
-- What `verifyXMRTxHandler` of internal/processor/xmr.go counts.
use goipay.Base.{
  ℕ, suc, ◌+◌, ◌%◌, ◌^◌, ◌<◌, ◌≡◌, refl, ap, ◌∙◌, String, Bool, true, false, Option, none, some,
  List, [], ◌∷◌, arith, inl, inr,
}
use goipay.Base.Float.{FloatOps}
use goipay.Error.{Error, Result, ok, err, Result-cases}
use goipay.Db.Models.{Invoice}
use goipay.Db.Session.{Session}
use goipay.Listener.Tx.{XmrTx}
use goipay.Processor.Address.{XmrLib}
use goipay.Processor.Monero.{
  ScanKeys, scan_keys, decrypt_output, add_output, scan_outputs, scanned, scan_with,
  verify_xmr_tx_handler,
}

module _ (lib : XmrLib) (k : ScanKeys) where
  -- From the output `i` on, every output decrypts, and those that are the invoice's add up to the
  -- number.
  pub data Receives : ℕ → List String → List String → ℕ → Type 0 where
    nothing : (i : ℕ) (ecdh : List String) → Receives i [] ecdh 0
    own :
        (i : ℕ) (o e : String) (outs ecdh : List String) (am n : ℕ)
        → decrypt_output lib k i o e ≡ ok (true, am)
        → Receives (suc i) outs ecdh n
        → Receives i (o ∷ outs) (e ∷ ecdh) (am + n)
    other :
        (i : ℕ) (o e : String) (outs ecdh : List String) (am n : ℕ)
        → decrypt_output lib k i o e ≡ ok (false, am)
        → Receives (suc i) outs ecdh n
        → Receives i (o ∷ outs) (e ∷ ecdh) n

  -- Some output does not decrypt, and every one before it does.
  pub data Fails : ℕ → List String → List String → Error → Type 0 where
    at :
        (i : ℕ) (o e : String) (outs ecdh : List String) (x : Error)
        → decrypt_output lib k i o e ≡ err x
        → Fails i (o ∷ outs) (e ∷ ecdh) x
    after :
        (i : ℕ) (o e : String) (outs ecdh : List String) (r : Bool × ℕ) (x : Error)
        → decrypt_output lib k i o e ≡ ok r
        → Fails (suc i) outs ecdh x
        → Fails i (o ∷ outs) (e ∷ ecdh) x

  -- The encrypted amounts end before the outputs, and every output before that decrypts.
  pub data RunsShort : ℕ → List String → List String → Type 0 where
    missing : (i : ℕ) (o : String) (outs : List String) → RunsShort i (o ∷ outs) []
    beyond :
        (i : ℕ) (o e : String) (outs ecdh : List String) (r : Bool × ℕ)
        → decrypt_output lib k i o e ≡ ok r
        → RunsShort (suc i) outs ecdh
        → RunsShort i (o ∷ outs) (e ∷ ecdh)

  -- How the outputs from `i` on end: as they add up on uint64, as the first error, or as a panic.
  pub data Ends (i : ℕ) (outs ecdh : List String) : Option (Result ℕ) → Type 0 where
    received : (n : ℕ) → Receives i outs ecdh n → Ends i outs ecdh (some (ok (n % 2 ^ 64)))
    failed : (x : Error) → Fails i outs ecdh x → Ends i outs ecdh (some (err x))
    panicked : RunsShort i outs ecdh → Ends i outs ecdh none

  scan_outputs-Receives :
      (i : ℕ) (outs ecdh : List String) (n amount : ℕ)
      → amount < 2 ^ 64
      → Receives i outs ecdh n
      → scan_outputs lib k i amount outs ecdh ≡ some (ok ((amount + n) % 2 ^ 64))
  unfolding scan_outputs
  scan_outputs-Receives i outs ecdh n amount lt (nothing _ _) = ground arith
  scan_outputs-Receives i outs ecdh n amount lt (own _ o e outs' ecdh' am m d r) =
      rw (scan_outputs, d)
        (scan_outputs-Receives (suc i) outs' ecdh' m ((amount + am) % 2 ^ 64) (omega arith) r
          ∙ ap (λ x. some (ok x)) (omega arith))
  scan_outputs-Receives i outs ecdh n amount lt (other _ o e outs' ecdh' am m d r) =
      rw (scan_outputs, d) (scan_outputs-Receives (suc i) outs' ecdh' m amount lt r)

  scan_outputs-Fails :
      (i : ℕ) (outs ecdh : List String) (x : Error) (amount : ℕ)
      → Fails i outs ecdh x
      → scan_outputs lib k i amount outs ecdh ≡ some (err x)
  unfolding scan_outputs
  scan_outputs-Fails i outs ecdh x amount (at _ o e outs' ecdh' _ d) = rw (scan_outputs, d) refl
  scan_outputs-Fails i outs ecdh x amount (after _ o e outs' ecdh' r _ d f) =
      rw (scan_outputs, d) (scan_outputs-Fails (suc i) outs' ecdh' x (add_output lib r amount) f)

  scan_outputs-RunsShort :
      (i : ℕ) (outs ecdh : List String) (amount : ℕ)
      → RunsShort i outs ecdh
      → scan_outputs lib k i amount outs ecdh ≡ none
  unfolding scan_outputs
  scan_outputs-RunsShort i outs ecdh amount (missing _ o outs') = refl
  scan_outputs-RunsShort i outs ecdh amount (beyond _ o e outs' ecdh' r d f) =
      rw (scan_outputs, d) (scan_outputs-RunsShort (suc i) outs' ecdh' (add_output lib r amount) f)

  abbrev Ended : ℕ → List String → List String → Type 0
  Ended i outs ecdh = (o : Option (Result ℕ)) × Ends i outs ecdh o

  -- One more output that decrypts.
  ends_after :
      (i : ℕ) (o e : String) (outs ecdh : List String) (r : Bool × ℕ) (x : Option (Result ℕ))
      → decrypt_output lib k i o e ≡ ok r
      → Ends (suc i) outs ecdh x
      → Ended i (o ∷ outs) (e ∷ ecdh)
  ends_after i o e outs ecdh (true, am) x d (received n r) =
      (_, received (am + n) (own i o e outs ecdh am n d r))
  ends_after i o e outs ecdh (false, am) x d (received n r) =
      (_, received n (other i o e outs ecdh am n d r))
  ends_after i o e outs ecdh r x d (failed y f) = (_, failed y (after i o e outs ecdh r y d f))
  ends_after i o e outs ecdh r x d (panicked f) = (_, panicked (beyond i o e outs ecdh r d f))

  every_end : (i : ℕ) (outs ecdh : List String) → Ended i outs ecdh
  every_end i [] ecdh = (_, received 0 (nothing i ecdh))
  every_end i (o ∷ outs) [] = (_, panicked (missing i o outs))
  every_end i (o ∷ outs) (e ∷ ecdh) = elim (Result-cases (decrypt_output lib k i o e)) [
    | inl (x, d) ↦ (_, failed x (at i o e outs ecdh x d))
    | inr (r, d) ↦ let (x, f) = every_end (suc i) outs ecdh in ends_after i o e outs ecdh r x d f
  ]

  scan_outputs-Ends :
      (outs ecdh : List String) (x : Option (Result ℕ))
      → Ends 0 outs ecdh x
      → scan_outputs lib k 0 0 outs ecdh ≡ x
  scan_outputs-Ends outs ecdh x (received n r) =
      scan_outputs-Receives 0 outs ecdh n 0 (omega arith) r ∙ ap (λ x. some (ok x)) (omega arith)
  scan_outputs-Ends outs ecdh x (failed y f) = scan_outputs-Fails 0 outs ecdh y 0 f
  scan_outputs-Ends outs ecdh x (panicked f) = scan_outputs-RunsShort 0 outs ecdh 0 f

-- Once the keys are found, a Monero transaction counts with the amounts of exactly those outputs
-- that decrypt as the invoice's, added up on uint64; or the handler returns the error of the first
-- output that does not decrypt; or it panics, where the encrypted amounts end before the outputs do.
-- One of these holds of every transaction.
pub verify_xmr_tx_handler_lem :
    (lib : XmrLib) (ops : FloatOps) (invoice : Invoice) (tx : XmrTx) (s s' : Session) (k : ScanKeys)
    → scan_keys lib invoice tx s ≡ (ok k, s')
    → (x : Option (Result ℕ)) × Ends lib k 0 tx.tx_info.vout tx.tx_info.ecdh_info x
      × (verify_xmr_tx_handler lib ops invoice tx s ≡ scanned lib ops s' x)
unfolding verify_xmr_tx_handler
verify_xmr_tx_handler_lem lib ops invoice tx s s' k found =
    let (x, f) = every_end lib k 0 tx.tx_info.vout tx.tx_info.ecdh_info in
    (
      x,
      f,
      ap (scan_with lib ops tx.tx_info) found
          ∙ ap (scanned lib ops s')
              (scan_outputs-Ends lib k tx.tx_info.vout tx.tx_info.ecdh_info x f),
    )
