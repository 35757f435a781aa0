-- ===== src/Store/Sdk.antt =====
-- internal/store/sdk_repo.go: the registered instances, with a status that is computed from the time of
-- their last poll. Times count microseconds; the ID is the primary key; database errors are not
-- modelled.
pub mod Liveness
use manteion_go.Base.{
  ℕ, ◌+◌, ◌*◌, String, ◌==◌, Bool, true, false, not, ◌&&◌, ◌||◌, Option, none, some, List, [], ◌∷◌,
  ◌++◌, Check, ltb, length, if◌then◌else◌,
}
use manteion_go.Base.Int.{ℤ, pos, ltz, lez, pos_part, neg_part}
use manteion_go.Base.Result.{Result, ok, err}
use manteion_go.Model.Sdk.{SdkInstance, validate_instance}
use manteion_go.Store.Rules.{not_found}

-- More than `k` poll intervals, and `grace` milliseconds, have passed since the last poll.
abbrev pub past : ℕ → ℤ → ℕ → SdkInstance → Bool
past k grace now i =
    ltb (i.last_poll_at + 1000 * (k * pos_part i.poll_interval_ms + pos_part grace))
      (now + 1000 * (k * neg_part i.poll_interval_ms + neg_part grace))

-- statusExpr
unfoldable pub status_at : ℕ → SdkInstance → String
status_at now i =
    if past 5 (pos 0) now i then "dead" else if past 2 (pos 0) now i then "stale" else "alive"

-- A row as it is read.
abbrev pub read_row : ℕ → SdkInstance → SdkInstance
read_row now i = record i { status = status_at now i }

unfoldable pub find_instance : String → List SdkInstance → Option SdkInstance
find_instance id [] = none
find_instance id (i ∷ is) = let rest = find_instance id is in if i.id == id then some i else rest

abbrev pub has_instance : String → List SdkInstance → Bool
has_instance id is = elim (find_instance id is) [ none ↦ false | some _ ↦ true ]

unfoldable pub update_instances :
    String → (SdkInstance → SdkInstance) → List SdkInstance → List SdkInstance
update_instances id f [] = []
update_instances id f (i ∷ is) = (if i.id == id then f i else i) ∷ update_instances id f is

abbrev pub with_default_interval : ℤ → ℤ
with_default_interval ms = if lez ms (pos 0) then pos 10000 else ms

-- The row that an instance is registered as.
abbrev pub registered : ℕ → SdkInstance → SdkInstance
registered now inst = record inst {
  poll_interval_ms = with_default_interval inst.poll_interval_ms;
  registered_at = now;
  last_poll_at = now;
  status = "";
}

unfoldable pub register : SdkInstance → ℕ → List SdkInstance → Check × List SdkInstance
unfolding find_instance update_instances
register inst now is = elim (validate_instance inst) [
  | some e ↦ (some e, is)
  | none ↦ (
    none,
    if has_instance inst.id is
        then update_instances inst.id (λ old. registered now inst) is
        else is ++ registered now inst ∷ [],
  )
]

unfoldable pub remove_instances : (SdkInstance → Bool) → List SdkInstance → List SdkInstance
remove_instances gone [] = []
remove_instances gone (i ∷ is) =
    let rest = remove_instances gone is in if gone i then rest else i ∷ rest

unfoldable pub deregister : String → List SdkInstance → Check × List SdkInstance
unfolding find_instance remove_instances
deregister id is =
    if has_instance id is
    then (none, remove_instances (λ i. i.id == id) is)
    else (some not_found, is)

unfoldable pub get : String → ℕ → List SdkInstance → Result SdkInstance
unfolding find_instance status_at
get id now is = elim (find_instance id is) [ none ↦ err not_found | some i ↦ ok (read_row now i) ]

unfoldable pub touch_poll : String → ℕ → List SdkInstance → Check × List SdkInstance
unfolding find_instance update_instances
touch_poll id now is =
    if has_instance id is
    then (none, update_instances id (λ i. record i { last_poll_at = now }) is)
    else (some not_found, is)

-- `ORDER BY service, id`; the collation of the database is a parameter.
module _ (precedes : String → String → Bool) where
  abbrev pub row_precedes : SdkInstance → SdkInstance → Bool
  row_precedes a b =
      (precedes a.service b.service && not (a.service == b.service))
      || (a.service == b.service && precedes a.id b.id)

  unfoldable pub insert_instance : SdkInstance → List SdkInstance → List SdkInstance
  insert_instance i [] = i ∷ []
  insert_instance i (x ∷ xs) =
      let rest = insert_instance i xs in if row_precedes i x then i ∷ x ∷ xs else x ∷ rest

  -- The rows that a condition selects, in order and as they are read.
  unfoldable pub select_rows : (SdkInstance → Bool) → ℕ → List SdkInstance → List SdkInstance
  unfolding insert_instance status_at
  select_rows wanted now [] = []
  select_rows wanted now (i ∷ is) =
      let rest = select_rows wanted now is in
      if wanted i then insert_instance (read_row now i) rest else rest

  unfoldable pub list : ℕ → List SdkInstance → List SdkInstance
  unfolding select_rows
  list now is = select_rows (λ i. true) now is

  -- `freshness` in whole seconds.
  unfoldable pub list_live : ℤ → ℕ → List SdkInstance → List SdkInstance
  unfolding select_rows
  list_live freshness now is =
      let seconds = if ltz freshness (pos 1) then 1 else pos_part freshness in
      select_rows (λ i. ltb now (i.last_poll_at + 1000000 * seconds)) now is

  unfoldable pub for_service : String → ℕ → List SdkInstance → List SdkInstance
  unfolding select_rows
  for_service service now is = select_rows (λ i. i.service == service) now is

-- The rows left.
unfoldable pub purge_dead : ℤ → ℕ → List SdkInstance → List SdkInstance
unfolding remove_instances
purge_dead grace now is = remove_instances (past 5 grace now) is

abbrev pub count : List SdkInstance → ℕ
count is = length is
