-- ===== src/Orchestrator/Recovery/Listed.antt =====
-- internal/store/experiment_repo.go: the runs that a list by status shows are rows of the table, each
-- once.
use manteion_go.Base.{
  ◌≡◌, refl, inl, inr, String, ◌==◌, Bool, true, false, List, [], ◌∷◌, Bool-cases, text_self, All,
  All-weaken,
}
use manteion_go.Model.Experiment.{ExperimentRun, RunStatus}
use manteion_go.Store.Runs.{has_run, find_run}
use manteion_go.Store.Tables.{select, insert_by, order_by}
use manteion_go.Store.Tables.Orders.{All-select}
use manteion_go.Store.Experiments.{run_older, in_statuses}
use manteion_go.Orchestrator.Schedule.Kept.{HasNone, IsDistinct, different}

-- A row of the table stands under its own ID.
found_itself : (r : ExperimentRun) (rs : List ExperimentRun) → has_run r.id (r ∷ rs) ≡ true
unfolding find_run
found_itself r rs = rw (has_run, text_self r.id) refl

found_later :
    (id : String) (r : ExperimentRun) (rs : List ExperimentRun)
    → has_run id rs ≡ true
    → has_run id (r ∷ rs) ≡ true
unfolding find_run
found_later id r rs h = elim (Bool-cases (r.id == id)) [
  | inl e ↦ rw (has_run, e) refl
  | inr e ↦ rw (has_run, e) h
]

pub all_found : (rs : List ExperimentRun) → All (λ r. has_run r.id rs ≡ true) rs
all_found [] = tt
all_found (r ∷ rs) =
    (found_itself r rs, All-weaken rs (λ x h. found_later x.id r rs h) (all_found rs))

-- What holds of the rows holds of those that a query shows.
module _ {Row : Type 0} (precedes : Row → Row → Bool) (P : Row → Type 0) where
  All-insert_by : (r : Row) (rs : List Row) → P r → All P rs → All P (insert_by precedes r rs)
  unfolding insert_by
  All-insert_by r [] h hs = (h, tt)
  All-insert_by r (x ∷ xs) h (k, ks) = elim (Bool-cases (precedes r x)) [
    | inl e ↦ rw (e) (h, (k, ks))
    | inr e ↦ rw (e) (k, All-insert_by r xs h ks)
  ]

  All-order_by : (rs : List Row) → All P rs → All P (order_by precedes rs)
  unfolding order_by
  All-order_by [] h = tt
  All-order_by (r ∷ rs) (h, hs) = All-insert_by r (order_by precedes rs) h (All-order_by rs hs)

pub listed :
    (P : ExperimentRun → Type 0) (ss : List RunStatus) (rs : List ExperimentRun)
    → All P rs
    → All P (order_by run_older (select (in_statuses ss) rs))
listed P ss rs h =
    All-order_by run_older P (select (in_statuses ss) rs)
      (All-select P P (in_statuses ss) rs (λ r e p. p) h)

insert-IsDistinct :
    (r : ExperimentRun) (rs : List ExperimentRun)
    → HasNone r.id rs
    → IsDistinct rs
    → IsDistinct (insert_by run_older r rs)
unfolding insert_by
insert-IsDistinct r [] new d = (tt, tt)
insert-IsDistinct r (x ∷ xs) (new, news) (y, ys) = elim (Bool-cases (run_older r x)) [
  | inl e ↦ rw (e) ((new, news), (y, ys))
  | inr e ↦ rw (e) (
    All-insert_by run_older (λ z. (z.id == x.id) ≡ false) r xs (different x.id r.id new) y,
    insert-IsDistinct r xs news ys,
  )
]

pub listed-IsDistinct :
    (ss : List RunStatus) (rs : List ExperimentRun)
    → IsDistinct rs
    → IsDistinct (order_by run_older (select (in_statuses ss) rs))
unfolding order_by select
listed-IsDistinct ss [] d = tt
listed-IsDistinct ss (r ∷ rs) (new, d) = elim (Bool-cases (in_statuses ss r)) [
  | inl e ↦ rw (e) (
      insert-IsDistinct r (order_by run_older (select (in_statuses ss) rs))
        (listed (λ x. (x.id == r.id) ≡ false) ss rs new) (listed-IsDistinct ss rs d))
  | inr e ↦ rw (e) (listed-IsDistinct ss rs d)
]
