-- ===== src/Store/Tables.antt =====
-- The tables of internal/store as lists of rows: the statements by primary key, the conditions and
-- the orders of the queries, and the loop over the rows of an answer (helpers.go and the repositories).
pub mod Laws
pub mod Orders
use manteion_go.Base.{
  ℕ, String, ◌==◌, Bool, true, false, Option, none, some, List, [], ◌∷◌, Check, if◌then◌else◌,
}
use manteion_go.Base.Int.{ℤ, pos, negsuc}
use manteion_go.Base.Int32.{to_int32}
use manteion_go.Base.Result.{Result, ok, ◌>>=◌}
use manteion_go.Model.Experiment.{eqz}
use manteion_go.Store.Rules.{not_found}

module _ {ℓ} {Row : Type ℓ} (key : Row → String) where
  -- `WHERE id = $1`
  unfoldable pub find_key : String → List Row → Option Row
  find_key id [] = none
  find_key id (r ∷ rs) = let rest = find_key id rs in if key r == id then some r else rest

  abbrev pub has_key : String → List Row → Bool
  has_key id rs = elim (find_key id rs) [ none ↦ false | some _ ↦ true ]

  -- `UPDATE … SET … WHERE id = $1`
  unfoldable pub update_key : String → (Row → Row) → List Row → List Row
  update_key id f [] = []
  update_key id f (r ∷ rs) = (if key r == id then f r else r) ∷ update_key id f rs

  -- `DELETE … WHERE id = $1`
  unfoldable pub delete_key : String → List Row → List Row
  delete_key id [] = []
  delete_key id (r ∷ rs) = let rest = delete_key id rs in if key r == id then rest else r ∷ rest

  -- affectedOrNotFound: an update or a delete of no row is ErrNotFound.
  abbrev pub affected_or_not_found : String → List Row → Check
  affected_or_not_found id rs = if has_key id rs then none else some not_found

-- `WHERE …`, of a condition on a row.
unfoldable pub select {ℓ} : {Row : Type ℓ} → (Row → Bool) → List Row → List Row
select p [] = []
select p (r ∷ rs) = let rest = select p rs in if p r then r ∷ rest else rest

module _ {ℓ} {Row : Type ℓ} (precedes : Row → Row → Bool) where
  unfoldable pub insert_by : Row → List Row → List Row
  insert_by r [] = r ∷ []
  insert_by r (x ∷ xs) = let rest = insert_by r xs in if precedes r x then r ∷ x ∷ xs else x ∷ rest

  -- `ORDER BY …`; rows that the order does not tell apart keep the table's order.
  unfoldable pub order_by : List Row → List Row
  unfolding insert_by
  order_by [] = []
  order_by (r ∷ rs) = insert_by r (order_by rs)

-- `for rows.Next() { … result = append(result, &x) }`
unfoldable pub scan_all {ℓ κ} :
    {Row : Type ℓ} {A : Type κ} → (Row → Result A) → List Row → Result (List A)
scan_all scan [] = ok []
scan_all scan (r ∷ rs) = let rest = scan_all scan rs in scan r >>= λ x. rest >>= λ xs. ok (x ∷ xs)

-- nullInt and the reading of a sql.NullInt32: 0 is NULL, and `int32(n)` keeps 32 bits.
abbrev pub null_int : ℤ → Option ℤ
null_int n = if eqz n (pos 0) then none else some (to_int32 n)

abbrev pub from_null_int : Option ℤ → ℤ
from_null_int none = pos 0
from_null_int (some n) = n
