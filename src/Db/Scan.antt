-- ===== src/Db/Scan.antt =====
-- The `Scan` and `Value` methods of the enumerations of internal/db/models.go. Each enumeration is a
-- text in Go, and any text is taken; both have the same methods, and share them here.
use goipay.Base.{
  ◌≡◌, refl, String, Bool, true, false, Option, none, some, append_str, if◌then◌else◌,
}

-- What `database/sql` passes: NULL, a `[]byte`, a `string`, or a value of another type, by its `%T`.
pub data SqlValue : Type 0 where
  null_value : SqlValue
  bytes text other : String → SqlValue

-- `NullCoinType` and `NullInvoiceStatusType`
pub record NullText : Type 0 where
  pub value_text : String
  pub valid : Bool

abbrev pub unsupported : String → String → Option String
unsupported name t =
    some (append_str "unsupported scan type for " (append_str name (append_str ": " t)))

-- `Scan` into an enumeration that is `e`: its new value, and the error.
abbrev pub scan_text : String → SqlValue → String → String × Option String
scan_text name null_value e = (e, unsupported name "<nil>")
scan_text name (bytes s) e = (s, none)
scan_text name (text s) e = (s, none)
scan_text name (other t) e = (e, unsupported name t)

abbrev pub valid_with : String × Option String → NullText × Option String
valid_with (s, e) = (record { value_text = s; valid = true }, e)

abbrev pub scan_null_text : String → SqlValue → NullText → NullText × Option String
scan_null_text name null_value ns = (record { value_text = ""; valid = false }, none)
scan_null_text name (bytes s) ns = valid_with (scan_text name (bytes s) ns.value_text)
scan_null_text name (text s) ns = valid_with (scan_text name (text s) ns.value_text)
scan_null_text name (other t) ns = valid_with (scan_text name (other t) ns.value_text)

abbrev pub value_of_null_text : NullText → SqlValue
value_of_null_text ns = if ns.valid then text ns.value_text else null_value

-- The methods of `CoinType` and `NullCoinType`
unfoldable pub scan_coin_type : SqlValue → String → String × Option String
scan_coin_type = scan_text "CoinType"

unfoldable pub scan_null_coin_type : SqlValue → NullText → NullText × Option String
scan_null_coin_type = scan_null_text "CoinType"

unfoldable pub null_coin_type_value : NullText → SqlValue
null_coin_type_value = value_of_null_text

-- The methods of `InvoiceStatusType` and `NullInvoiceStatusType`
unfoldable pub scan_invoice_status_type : SqlValue → String → String × Option String
scan_invoice_status_type = scan_text "InvoiceStatusType"

unfoldable pub scan_null_invoice_status_type : SqlValue → NullText → NullText × Option String
scan_null_invoice_status_type = scan_null_text "InvoiceStatusType"

unfoldable pub null_invoice_status_type_value : NullText → SqlValue
null_invoice_status_type_value = value_of_null_text

-- Without the text of a value that is not valid.
abbrev pub normal : NullText → NullText
normal ns = if ns.valid then ns else record { value_text = ""; valid = false }

-- A `[]byte` is written back as a `string`.
abbrev pub as_text : SqlValue → SqlValue
as_text (bytes s) = text s
as_text v = v

scan_value :
    (name : String) (s : String) (b : Bool) (old : NullText)
    → scan_null_text name (value_of_null_text (record { value_text = s; valid = b })) old
      ≡ (normal (record { value_text = s; valid = b }), none)
scan_value name s true old = refl
scan_value name s false old = refl

value_scan :
    (name : String) (v : SqlValue) (old : NullText)
    → (scan_null_text name v old).1 ≡ none
    → value_of_null_text (scan_null_text name v old).0 ≡ as_text v
value_scan name null_value old h = refl
value_scan name (bytes s) old h = refl
value_scan name (text s) old h = refl
value_scan name (other t) old h = cc

-- What the database is given for a nullable coin, and reads back, is that coin, and what it reads
-- without an error it gives back; the same holds of the status of an invoice.
pub scan_value_inverse :
    (ns old : NullText) (v : SqlValue)
    → (scan_null_coin_type (null_coin_type_value ns) old ≡ (normal ns, none))
      × ((scan_null_coin_type v old).1 ≡ none
          → null_coin_type_value (scan_null_coin_type v old).0 ≡ as_text v)
      × (scan_null_invoice_status_type (null_invoice_status_type_value ns) old ≡ (normal ns, none))
      × ((scan_null_invoice_status_type v old).1 ≡ none
          → null_invoice_status_type_value (scan_null_invoice_status_type v old).0 ≡ as_text v)
unfolding scan_null_coin_type null_coin_type_value scan_null_invoice_status_type
    null_invoice_status_type_value
scan_value_inverse ns old v = (
  scan_value "CoinType" ns.value_text ns.valid old,
  value_scan "CoinType" v old,
  scan_value "InvoiceStatusType" ns.value_text ns.valid old,
  value_scan "InvoiceStatusType" v old,
)
