-- ===== src/Store/Experiments/Laws.antt =====
-- internal/store/experiment_repo.go: what is read after a create, and which runs a list shows.
use manteion_go.Base.{
  ◌≡◌, refl, sym, ap, ◌∙◌, inl, inr, true, false, none, List, [], ◌∷◌, Bool-cases, Option-cases,
  text_self, Check, arith,
}
use mathlib.Core.List.{Perm}
use mathlib.Core.List.Perm
use manteion_go.Base.Int.{ℤ, pos, negsuc}
use manteion_go.Base.Int32.{FitsInt32, to_int32_same}
use manteion_go.Base.Result.{ok}
use manteion_go.Model.Experiment.{
  Experiment, ExperimentRun, RunStatus, validate_experiment, validate_run, eqz,
}
use manteion_go.Store.Rules.RoundTrip.{string_back}
use manteion_go.Store.Runs.{Db}
use manteion_go.Store.Tables.{find_key, has_key, select, null_int, from_null_int}
use manteion_go.Store.Tables.Orders.{order_by-Perm, order_by-IsOrdered, IsOrdered}
use manteion_go.Store.Experiments.{
  experiment_key, run_key, as_read, create, get, create_run, get_run, list_runs_by_status,
  in_statuses, run_older,
}

eqz_zero : (n : ℤ) → eqz n (pos 0) ≡ true → n ≡ pos 0
eqz_zero (pos n) h = ap (λ k. pos k) (ground arith)
eqz_zero (negsuc n) h = ground arith

int_back : (n : ℤ) → FitsInt32 n → from_null_int (null_int n) ≡ n
int_back n fits = elim (Bool-cases (eqz n (pos 0))) [
  | inl e ↦ rw (e) (sym (eqz_zero n e))
  | inr e ↦ rw (e) (to_int32_same n fits)
]

as_read_same : (e : Experiment) → FitsInt32 e.rate → FitsInt32 e.duration_sec → as_read e ≡ e
as_read_same e rate duration =
    rw
      (
        string_back e.description,
        string_back e.target_url,
        string_back e.target_method,
        int_back e.rate rate,
        int_back e.duration_sec duration,
      )
      refl

create_done :
    (e : Experiment) (db db' : Db)
    → create e db ≡ (none, db')
    → db' ≡ record db { experiments = as_read e ∷ db.experiments }
unfolding create
create_done e db db' h = elim (Option-cases (validate_experiment e)) [
  | inr (cause, bad) ↦ let h' = rw (bad, create) at h in cc
  | inl good ↦ elim (Bool-cases (has_key experiment_key e.id db.experiments)) [
    | inl taken ↦ let h' = rw (good, create, taken) at h in cc
    | inr free ↦ let h' = rw (good, create, free) at h in ap (λ (x : Check × Db). x.1) (sym h')
  ]
]

-- An experiment that Create accepts is read back by Get as it was, if its rate and its duration fit
-- in 32 bits.
pub create-get :
    (e : Experiment) (db db' : Db)
    → FitsInt32 e.rate
    → FitsInt32 e.duration_sec
    → create e db ≡ (none, db')
    → get e.id db' ≡ ok e
unfolding get find_key
create-get e db db' rate duration h =
    ap (λ x. get e.id x) (create_done e db db' h)
    ∙ rw (text_self e.id, get) (ap (λ x. ok x) (as_read_same e rate duration))

-- A run that CreateRun accepts is read back by GetRun without its primary attack ID, and the
-- experiment that it names is there.
pub create_run-get_run :
    (r : ExperimentRun) (db db' : Db)
    → create_run r db ≡ (none, db')
    → (get_run r.id db' ≡ ok (record r { zeus_attack_id = "" }))
      × (has_key experiment_key r.experiment_id db'.experiments ≡ true)
unfolding create_run get_run find_key
create_run-get_run r db db' h = elim (Option-cases (validate_run r)) [
  | inr (cause, bad) ↦ let h' = rw (bad, create_run) at h in cc
  | inl good ↦ elim (Bool-cases (has_key run_key r.id db.runs)) [
    | inl taken ↦ let h' = rw (good, create_run, taken) at h in cc
    | inr free ↦ elim (Bool-cases (has_key experiment_key r.experiment_id db.experiments)) [
      | inr alone ↦ let h' = rw (good, create_run, free, alone) at h in cc
      | inl owned ↦
          let h' = rw (good, create_run, free, owned) at h in
          let made : db' ≡ record db { runs = record r { zeus_attack_id = "" } ∷ db.runs } =
            ap (λ (x : Check × Db). x.1) (sym h') in
          (
            ap (λ x. get_run r.id x) made ∙ rw (text_self r.id, get_run) refl,
            ap (λ (x : Db). has_key experiment_key r.experiment_id x.experiments) made ∙ owned,
          )
    ]
  ]
]

older_total : (a b : ExperimentRun) → run_older a b ≡ false → run_older b a ≡ true
older_total a b h = ground arith

none_selected : (rs : List ExperimentRun) → Perm [] (select (in_statuses []) rs)
unfolding select
none_selected [] = Perm.refl []
none_selected (r ∷ rs) = none_selected rs

-- ListRunsByStatus shows exactly the runs in the given statuses, the older ones first.
pub list_runs_by_status-Perm :
    (ss : List RunStatus) (db : Db)
    → Perm (list_runs_by_status ss db) (select (in_statuses ss) db.runs)
      × IsOrdered run_older (list_runs_by_status ss db)
unfolding list_runs_by_status select
list_runs_by_status-Perm [] db = (none_selected db.runs, tt)
list_runs_by_status-Perm (s ∷ ss) db = (
  order_by-Perm run_older (select (in_statuses (s ∷ ss)) db.runs),
  order_by-IsOrdered run_older older_total (select (in_statuses (s ∷ ss)) db.runs),
)
