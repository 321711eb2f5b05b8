-- ===== src/Db/Statements.antt =====
-- The forms of statement that the queries share.
use goipay.Base.{String, Bool, true, false, Option, none, some, List, find, update, str_eq}
use goipay.Db.Models.{Db}
use goipay.Db.Session.{Outcome, row, no_row, violation}

-- SQL's `a = b` on nullable texts.
abbrev pub eq_text : Option String → Option String → Bool
eq_text none b = false
eq_text (some a) none = false
eq_text (some a) (some b) = str_eq a b

module _ {A : Type 0} where
  -- The row that `RETURNING` gives back, once the rows are written.
  abbrev pub returning : Option A → Db → Outcome A
  returning none _ = no_row
  returning (some a) db = row a db

  abbrev pub map_row : (A → A) → Option A → Option A
  map_row f none = none
  map_row f (some a) = some (f a)

  -- `UPDATE … SET … WHERE … RETURNING …` with `:one`.
  abbrev pub update_one : (A → Bool) → (A → A) → List A → (List A → Db) → Outcome A
  update_one p f rows put = returning (map_row f (find p rows)) (put (update p f rows))

  -- A statement that the constraints refuse.
  abbrev pub unless : Bool → Outcome A → Outcome A
  unless true o = violation
  unless false o = o

abbrev pub is_null {ℓ} : {A : Type ℓ} → Option A → Bool
is_null none = true
is_null (some _) = false
