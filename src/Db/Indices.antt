-- ===== src/Db/Indices.antt =====
-- The indices that addresses are derived at: `FindKeysAndIncrementedIndices…` and
-- `UpdateKeys…` of internal/db/crypto_data.sql.go.
use goipay.Base.{
  ℕ, zero, suc, ◌+◌, ◌*◌, ◌≤◌, ◌<◌, ◌≡◌, ◌≢◌, refl, ap, ◌∙◌, true, false, some, arith, find, update,
  exists,
}
use goipay.Db.Models.{PgUuid, HdCryptoDatum, Db}
use goipay.Db.Session.{row}
use goipay.Db.Statements.{map_row}
use goipay.Db.InvoiceLaws.{find-update_self, find-update_other}
use goipay.Db.CryptoData.{
  HdTable, max_int32, has_hd_id, set_next_indices, indices_overflow,
  find_keys_and_incremented_indices_hd,
}

-- The place of a pair of indices in the order of derivation.
abbrev pub position : HdCryptoDatum → ℕ
position r = r.last_major_index * (max_int32 + 1) + r.last_minor_index

-- Both indices are in the range of an int32.
pub record InRange (r : HdCryptoDatum) : Type 0 where
  pub major : r.last_major_index ≤ max_int32
  pub minor : r.last_minor_index ≤ max_int32

-- The largest pair of indices.
abbrev pub last_position : ℕ
last_position = max_int32 * (max_int32 + 1) + max_int32

-- A request moves the row to the next place, under the same key.
set_next_indices-position :
    (r : HdCryptoDatum)
    → InRange r
    → position r < last_position
    → (position (set_next_indices r) ≡ suc (position r)) × InRange (set_next_indices r)
set_next_indices-position r v room = (ground arith, ground arith)

module _ (t : HdTable) (id : PgUuid) where
  -- A request finds the row that has the id, in range and not at its last place: it returns the row
  -- at the next place and writes it, under the same key, and leaves every other row.
  pub find_keys_and_incremented_indices_hd_lem :
      (db : Db) (r : HdCryptoDatum)
      → find (has_hd_id id) (t.rows db) ≡ some r
      → exists (indices_overflow id) (t.rows db) ≡ false
      → InRange r
      → position r < last_position
      → (r' : HdCryptoDatum) × (find_keys_and_incremented_indices_hd t id db
          ≡ row r' (t.put_rows db (update (has_hd_id id) set_next_indices (t.rows db))))
        × (find (has_hd_id id) (update (has_hd_id id) set_next_indices (t.rows db)) ≡ some r')
        × (position r' ≡ suc (position r))
        × (r'.master_pub_key ≡ r.master_pub_key)
        × InRange r'
        × ((j : PgUuid)
            → id ≢ j
            → find (has_hd_id j) (update (has_hd_id id) set_next_indices (t.rows db))
              ≡ find (has_hd_id j) (t.rows db))
  find_keys_and_incremented_indices_hd_lem db r found room v below = (
    set_next_indices r,
    ground arith,
    find-update_self (has_hd_id id) set_next_indices (t.rows db) (λ a. refl)
        ∙ ap (map_row set_next_indices) found,
    (set_next_indices-position r v below).0,
    refl,
    (set_next_indices-position r v below).1,
    λ j ne.
        find-update_other (has_hd_id id) (has_hd_id j) set_next_indices (t.rows db)
          (λ a hit. (apart j a ne hit, apart j a ne hit)),
  )
    where
      apart :
          (j : PgUuid) (a : HdCryptoDatum) → id ≢ j → has_hd_id id a ≡ true → has_hd_id j a ≡ false
      apart j a ne hit = ground arith

-- The rows of one user's keys over any number of requests.
pub request_times : ℕ → HdCryptoDatum → HdCryptoDatum
request_times zero r = r
request_times (suc n) r = set_next_indices (request_times n r)

request_times-position :
    (n : ℕ) (r : HdCryptoDatum)
    → InRange r
    → position r + n ≤ last_position
    → (position (request_times n r) ≡ position r + n) × InRange (request_times n r)
unfolding request_times
request_times-position zero r v h = (omega arith, v)
request_times-position (suc n) r v h =
    let (e, u) = request_times-position n r v (omega arith) in
    let (f, u') = set_next_indices-position (request_times n r) u (omega (arith, e)) in
    (omega (arith, e, f), u')

-- Two different requests for the same keys derive at two different pairs of indices, as long as the
-- pairs last: no address is derived twice until the key is replaced.
pub request_times_injective :
    (m n : ℕ) (r : HdCryptoDatum)
    → InRange r
    → position r + m ≤ last_position
    → position r + n ≤ last_position
    → position (request_times m r) ≡ position (request_times n r)
    → m ≡ n
request_times_injective m n r v hm hn e =
    omega (arith, e, (request_times-position m r v hm).0, (request_times-position n r v hn).0)
