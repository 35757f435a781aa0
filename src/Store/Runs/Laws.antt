-- ===== src/Store/Runs/Laws.antt =====
-- What the updates of the table of runs do to the status that a look-up then reads.
use manteion_go.Base.{
  ◌≡◌, String, ◌==◌, Option, none, some, List, [], ◌∷◌, if◌then◌else◌, arith, eq_iff,
}
use manteion_go.Model.Experiment.{ExperimentRun}
use manteion_go.Store.Runs.{find_run, update_runs}

abbrev pub map_run : (ExperimentRun → ExperimentRun) → Option ExperimentRun → Option ExperimentRun
map_run f none = none
map_run f (some r) = some (f r)

-- An update is read back by its ID, and leaves the rows of other IDs alone.
pub find_run-update_runs :
    (id j : String) (f : ExperimentRun → ExperimentRun) (rs : List ExperimentRun)
    → ((r : ExperimentRun) → (f r).id ≡ r.id)
    → find_run j (update_runs id f rs)
      ≡ (if id == j then map_run f (find_run j rs) else find_run j rs)
unfolding find_run update_runs
find_run-update_runs id j f [] keep = ground arith
find_run-update_runs id j f (r ∷ rs) keep =
    ground (
      arith,
      keep r,
      eq_iff id j,
      eq_iff r.id id,
      eq_iff r.id j,
      find_run-update_runs id j f rs keep,
    )
