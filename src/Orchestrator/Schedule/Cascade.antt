-- ===== src/Orchestrator/Schedule/Cascade.antt =====
-- internal/orchestrator/orchestrator.go: the cascade of failures in advanceExperiment.
use mathlib.Core.List.{Memᴰ}
use mathlib.Core.Path.{subst}
use manteion_go.Base.{
  ℕ, zero, suc, ◌≤◌, ◌<◌, ◌≡◌, refl, sym, ap, ◌∙◌, ◌⊎◌, inl, inr, String, Bool, true, false, none,
  some, List, [], ◌∷◌, length, arith, Bool-cases, if◌then◌else◌,
}
use manteion_go.Base.Update.{update}
use manteion_go.Model.Experiment.{ExperimentRun, RunStatus}
use manteion_go.Store.Runs.{is_pending, is_failed, has_run, update_run_status}
use manteion_go.Orchestrator.World.{
  Ctx, World, Failure, not_found, canceled, Result, ok, err, ◌>>=◌, continue, pure, fail, attempt,
  settle, query, is_done, set_run_status,
}
use manteion_go.Orchestrator.Keeps.{status_of}
use manteion_go.Orchestrator.Schedule.Kept.{
  HasFailed, IsDistinct, Agrees, ids_of, Fails, IsSound, Kept, keep-Kept, mark-Kept, status_read,
  Writes, status_written, IsStored, IsStored-mark, statuses-Agrees, statuses-Fails,
}
use manteion_go.Orchestrator.Schedule.{
  Statuses, statuses_of, holds, cascade_deps, Pass, keep, mark, cascade_pass, cascade,
}

-- The store does not let the run be marked failed.
abbrev pub Refused : Ctx → String → World → Type 0
Refused ctx id w = (e : Failure) × (set_run_status ctx id RunStatus.failed w ≡ (err e, w))

write_cases :
    (ctx : Ctx) (id : String) (w : World)
    → Refused ctx id w
      ⊎ ((u : World) × (set_run_status ctx id RunStatus.failed w ≡ (ok tt, u)) × Writes id w u)
unfolding set_run_status query update_run_status
write_cases ctx id w = elim (Bool-cases (is_done ctx w)) [
  | inl done ↦ inl (canceled, rw done refl)
  | inr live ↦ elim (Bool-cases (has_run id w.db.runs)) [
    | inl known ↦ inr (
      record w { db = update_run_status id RunStatus.failed w.now w.db },
      rw (live, known) refl,
      status_written id w.now w known,
    )
    | inr missing ↦ inl (not_found, rw (live, missing) refl)
  ]
]

-- A failed dependency of the run cannot be passed on to it.
abbrev pub CannotFail : Ctx → Statuses → World → String → List String → Type 0
CannotFail ctx m w id deps =
    (dep : String) → Memᴰ dep deps → holds is_failed (m dep) ≡ true → Refused ctx id w

abbrev DepsPost : Ctx → Statuses → World → String → List String → Result Bool × World → Type 0
DepsPost ctx m w id deps (ok true, u) = HasFailed m deps × Writes id w u
DepsPost ctx m w id deps (ok false, u) = (u ≡ w) × CannotFail ctx m w id deps
DepsPost ctx m w id deps (err e, u) = ⊥

CannotFail-cons :
    (ctx : Ctx) (m : Statuses) (w : World) (id dep : String) (deps : List String)
    → (holds is_failed (m dep) ≡ true → Refused ctx id w)
    → (x : Result Bool × World) → DepsPost ctx m w id deps x
    → DepsPost ctx m w id (dep ∷ deps) x
CannotFail-cons ctx m w id dep deps here (ok true, u) ((d, p, f), written) =
    ((d, Memᴰ.tail p, f), written)
CannotFail-cons ctx m w id dep deps here (ok false, u) (same, rest) = (same, all)
  where
    all : CannotFail ctx m w id (dep ∷ deps)
    all d (Memᴰ.head e) h = here (rw e at h)
    all d (Memᴰ.tail p) h = rest d p h
CannotFail-cons ctx m w id dep deps here (err e, u) p = p

cascade_deps-DepsPost :
    (ctx : Ctx) (id : String) (deps : List String) (m : Statuses) (w : World)
    → DepsPost ctx m w id deps (cascade_deps ctx id deps m w)
unfolding cascade_deps pure ◌>>=◌ continue attempt settle fail
cascade_deps-DepsPost ctx id [] m w = (refl, λ dep p. elim p [ ])
cascade_deps-DepsPost ctx id (dep ∷ deps) m w =
    let rest = cascade_deps-DepsPost ctx id deps m w in
    elim (Bool-cases (holds is_failed (m dep))) [
      | inr well ↦
          rw well
            (CannotFail-cons ctx m w id dep deps (λ h. cc) (cascade_deps ctx id deps m w) rest)
      | inl failed ↦ elim (write_cases ctx id w) [
        | inl (e, refused) ↦
            rw (failed, refused)
              (CannotFail-cons ctx m w id dep deps (λ h. (e, refused))
                (cascade_deps ctx id deps m w) rest)
        | inr (u, done, written) ↦ rw (failed, done) ((dep, Memᴰ.head refl, failed), written)
      ]
    ]

abbrev pub count_pending : List ExperimentRun → ℕ
count_pending [] = 0
count_pending (r ∷ rs) = if is_pending r.status then suc (count_pending rs) else count_pending rs

-- No pending run of the list has a failed dependency, but for those that cannot be marked failed.
abbrev pub IsSettled : Ctx → Statuses → World → List ExperimentRun → Type 0
IsSettled ctx m w rs =
    (r : ExperimentRun)
    → Memᴰ r rs
    → is_pending r.status ≡ true
    → CannotFail ctx m w r.id r.depends_on

-- A pass ends; one that changes something leaves fewer pending runs, and another leaves all as it is.
pub record PassPost (ctx : Ctx) (rs : List ExperimentRun) (m : Statuses) (w : World)
    (x : Result Pass × World) : Type 0 where
  pub pass : Pass
  pub after : World
  pub ends : x ≡ (ok pass, after)
  pub fewer : count_pending pass.runs ≤ count_pending rs
  pub changes : pass.changed ≡ true → count_pending pass.runs < count_pending rs
  pub kept : Kept rs m pass
  pub stored : (first : Statuses) → IsStored first m w → IsStored first pass.statuses after
  pub settles :
      pass.changed ≡ false
      → (after ≡ w) × (pass.runs ≡ rs) × (pass.statuses ≡ m) × IsSettled ctx m w rs

IsSettled-cons :
    (ctx : Ctx) (m : Statuses) (w : World) (r : ExperimentRun) (rs : List ExperimentRun)
    → (is_pending r.status ≡ true → CannotFail ctx m w r.id r.depends_on)
    → IsSettled ctx m w rs
    → IsSettled ctx m w (r ∷ rs)
IsSettled-cons ctx m w r rs here rest x (Memᴰ.head e) h =
    subst (λ (y : ExperimentRun). CannotFail ctx m w y.id y.depends_on) (sym e)
      (here (ap (λ (y : ExperimentRun). is_pending y.status) (sym e) ∙ h))
IsSettled-cons ctx m w r rs here rest x (Memᴰ.tail p) h = rest x p h

-- The run is kept, and the pass goes on with the others.
keep-PassPost :
    (ctx : Ctx) (m : Statuses) (w : World) (r : ExperimentRun) (rs : List ExperimentRun)
    (x : Result Pass × World)
    → (is_pending r.status ≡ true → CannotFail ctx m w r.id r.depends_on)
    → PassPost ctx rs m w x
    → PassPost ctx (r ∷ rs) m w (continue x.0 (λ p. pure (keep r p)) x.1)
unfolding continue pure
keep-PassPost ctx m w r rs x here post = record {
  pass = keep r post.pass;
  after = post.after;
  ends = ap (λ (y : Result Pass × World). continue y.0 (λ p. pure (keep r p)) y.1) post.ends;
  fewer = let le = post.fewer in ground arith;
  changes = λ h. let lt = post.changes h in ground arith;
  kept = keep-Kept r rs m post.pass post.kept;
  stored = post.stored;
  settles = λ h.
      let (same, runs, statuses, settled) = post.settles h in
      (same, ap (λ rest. r ∷ rest) runs, statuses, IsSettled-cons ctx m w r rs here settled);
}

-- The pending run was marked failed, and the pass goes on with the others in the world after that.
mark-PassPost :
    (ctx : Ctx) (m : Statuses) (w w' : World) (r : ExperimentRun) (rs : List ExperimentRun)
    (x : Result Pass × World)
    → is_pending r.status ≡ true
    → HasFailed m r.depends_on × Writes r.id w w'
    → PassPost ctx rs (update m r.id (some RunStatus.failed)) w' x
    → PassPost ctx (r ∷ rs) m w (continue x.0 (λ p. pure (mark r p)) x.1)
unfolding continue pure
mark-PassPost ctx m w w' r rs x pending inherited post = record {
  pass = mark r post.pass;
  after = post.after;
  ends = ap (λ (y : Result Pass × World). continue y.0 (λ p. pure (mark r p)) y.1) post.ends;
  fewer = let le = post.fewer in ground arith;
  changes = λ h. let le = post.fewer in ground arith;
  kept = mark-Kept r rs m post.pass pending inherited.0 post.kept;
  stored = λ first h. post.stored first (IsStored-mark first m r.id w w' inherited.1 h);
  settles = λ h. cc;
}

cascade_pass-PassPost :
    (ctx : Ctx) (rs : List ExperimentRun) (m : Statuses) (w : World)
    → PassPost ctx rs m w (cascade_pass ctx rs m w)
unfolding cascade_pass ◌>>=◌ continue pure
cascade_pass-PassPost ctx [] m w = record {
  pass = record { runs = []; statuses = m; changed = false };
  after = w;
  ends = refl;
  fewer = omega arith;
  changes = λ h. cc;
  kept = record {
    ids = refl;
    lacks = λ id h. tt;
    distinct = λ h. tt;
    others = λ id h. refl;
    agrees = λ d a. tt;
    sound = λ all h. h;
  };
  stored = λ first h. h;
  settles = λ h. (refl, refl, refl, λ r p. elim p [ ]);
}
cascade_pass-PassPost ctx (r ∷ rs) m w = elim (Bool-cases (is_pending r.status)) [
  | inr e ↦ rw e (
      keep-PassPost ctx m w r rs (cascade_pass ctx rs m w) (λ h. cc)
        (cascade_pass-PassPost ctx rs m w))
  | inl pending ↦ rw pending (
      decided (cascade_deps ctx r.id r.depends_on m w)
        (cascade_deps-DepsPost ctx r.id r.depends_on m w) pending
        (λ m' v. cascade_pass-PassPost ctx rs m' v))
]
  where
    decided :
        (x : Result Bool × World)
        → DepsPost ctx m w r.id r.depends_on x
        → is_pending r.status ≡ true
        → ((m' : Statuses) (v : World) → PassPost ctx rs m' v (cascade_pass ctx rs m' v))
        → PassPost ctx (r ∷ rs) m w (
            continue x.0
              (λ failed.
                if failed
                then (cascade_pass ctx rs (update m r.id (some RunStatus.failed)) >>= λ p.
                    pure (mark r p))
                else (cascade_pass ctx rs m >>= λ p. pure (keep r p)))
              x.1)
    decided (ok true, u) post pending rest =
        mark-PassPost ctx m w u r rs (cascade_pass ctx rs (update m r.id (some RunStatus.failed)) u)
          pending post (rest (update m r.id (some RunStatus.failed)) u)
    decided (ok false, u) (same, cannot) pending rest =
        subst (λ v. PassPost ctx (r ∷ rs) m w ((cascade_pass ctx rs m >>= λ p. pure (keep r p)) v))
          (sym same) (keep-PassPost ctx m w r rs (cascade_pass ctx rs m w) (λ h. cannot) (rest m w))
    decided (err e, u) p pending rest = absurd p

IsSettled-same :
    (ctx : Ctx) {m m' : Statuses} {w w' : World} {rs rs' : List ExperimentRun}
    → m' ≡ m
    → w' ≡ w
    → rs' ≡ rs
    → IsSettled ctx m w rs
    → IsSettled ctx m' w' rs'
IsSettled-same ctx {m} {m'} {w} {w'} {rs} {rs'} p q r h =
    subst (λ x. IsSettled ctx x w' rs') (sym p)
      (subst (λ x. IsSettled ctx m x rs') (sym q) (subst (λ x. IsSettled ctx m w x) (sym r) h))

-- What the cascade leaves: the runs of the list, with statuses that the map has too; those that are
-- failed fail, and were failed before or are failed in the store; and no other one is pending and has
-- a dependency among them, but for runs that the store refuses to mark failed.
pub record IsCascaded (ctx : Ctx) (rs : List ExperimentRun) (p : Pass) (u : World) : Type 0 where
  pub ids : ids_of p.runs ≡ ids_of rs
  pub agrees : Agrees p.statuses p.runs
  pub fails : (d : ExperimentRun) → Memᴰ d p.runs → is_failed d.status ≡ true → Fails rs d.id
  pub stored :
      (d : ExperimentRun)
      → Memᴰ d p.runs
      → is_failed d.status ≡ true
      → (holds is_failed (statuses_of rs (λ id. none) d.id) ≡ true)
        ⊎ (status_of d.id u ≡ some RunStatus.failed)
  pub passed_on :
      (r d : ExperimentRun)
      → Memᴰ r p.runs
      → Memᴰ d p.runs
      → is_pending r.status ≡ true
      → Memᴰ d.id r.depends_on
      → is_failed d.status ≡ true
      → Refused ctx r.id u

-- The cascade ends within as many passes as there are pending runs, and one more.
cascade_settles :
    (all : List ExperimentRun) (fuel : ℕ) (ctx : Ctx) (rs : List ExperimentRun) (m : Statuses)
    (w : World)
    → count_pending rs < fuel
    → ids_of rs ≡ ids_of all
    → IsDistinct rs
    → Agrees m rs
    → IsSound all m rs
    → IsStored (statuses_of all (λ id. none)) m w
    → (p : Pass) × (u : World) × (cascade fuel ctx rs m w ≡ (ok (some p), u))
      × IsCascaded ctx all p u
unfolding cascade ◌>>=◌ continue pure
cascade_settles all zero ctx rs m w h same_ids distinct agrees sound stored = elim h [ ]
cascade_settles all (suc fuel) ctx rs m w h same_ids distinct agrees sound stored =
    let post = cascade_pass-PassPost ctx rs m w in
    let agrees' = post.kept.agrees distinct agrees in
    let sound' = post.kept.sound all sound in
    let stored' = post.stored (statuses_of all (λ id. none)) stored in
    elim (Bool-cases post.pass.changed) [
      | inl e ↦
          let (p, u, done, settled) =
            cascade_settles all fuel ctx post.pass.runs post.pass.statuses post.after
              (omega (arith, post.changes e, h)) (post.kept.ids ∙ same_ids)
              (post.kept.distinct distinct) agrees' sound' stored' in
          (p, u, rw (post.ends, e, done) refl, settled)
      | inr e ↦
          let (same, runs, statuses, settled) = post.settles e in
          let settled' = IsSettled-same ctx statuses same runs settled in
          (
            post.pass,
            post.after,
            rw (post.ends, e) refl,
            record {
              ids = post.kept.ids ∙ same_ids;
              agrees = agrees';
              fails = λ d i f.
                  sound'.0 d.id (status_read post.pass.statuses post.pass.runs agrees' d i ∙ f);
              stored = λ d i f.
                  stored' d.id (status_read post.pass.statuses post.pass.runs agrees' d i ∙ f);
              passed_on = λ r d i j pending among f.
                  settled' r i pending d.id among
                    (status_read post.pass.statuses post.pass.runs agrees' d j ∙ f);
            },
          )
    ]

count_pending-le-length : (rs : List ExperimentRun) → count_pending rs ≤ length rs
count_pending-le-length [] = omega arith
count_pending-le-length (r ∷ rs) = let le = count_pending-le-length rs in ground arith

-- The cascade of advanceExperiment over runs with different IDs ends, within one pass more than there
-- are runs, whatever the store answers. It leaves the same runs. Those that it leaves failed were
-- failed, or pending with a dependency, direct or through other pending runs, that was; each of them
-- was failed among the given runs or is failed in the store that the cascade leaves. None that it
-- leaves pending depends on a run that it leaves failed, but for runs that the store refuses to mark
-- failed.
pub cascade-IsCascaded :
    (ctx : Ctx) (rs : List ExperimentRun) (w : World)
    → IsDistinct rs
    → (p : Pass) × (u : World) × (cascade (suc (length rs)) ctx rs (statuses_of rs (λ id. none)) w
        ≡ (ok (some p), u))
      × IsCascaded ctx rs p u
cascade-IsCascaded ctx rs w distinct =
    cascade_settles rs (suc (length rs)) ctx rs (statuses_of rs (λ id. none)) w
      (omega (arith, count_pending-le-length rs)) refl distinct
      (statuses-Agrees rs (λ id. none) distinct)
      (statuses-Fails rs rs (λ id. none) (λ r i. i) (λ id e. cc), λ r i e. i) (λ id e. inl e)
