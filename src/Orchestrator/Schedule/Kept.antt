-- ===== src/Orchestrator/Schedule/Kept.antt =====
-- internal/orchestrator/orchestrator.go: what a pass of the cascade of failures keeps of the runs and
-- of their statuses, and which runs fail.
use mathlib.Core.List.{Memᴰ}
use mathlib.Core.Path.{subst}
use manteion_go.Base.{
  ℕ, ◌⊎◌, Bool-cases, Option-cases, if◌then◌else◌, ◌≡◌, refl, sym, ap, ◌∙◌, inl, inr, String, true,
  false, some, List, [], ◌∷◌, Option, map, ◌==◌, All, text-cases, text_self,
}
use manteion_go.Base.Update.{update, update_self}
use manteion_go.Model.Experiment.{ExperimentRun, RunStatus}
use manteion_go.Store.Runs.{
  is_pending, is_failed, has_run, find_run, update_runs, update_run_status, set_status,
}
use manteion_go.Store.Runs.Laws.{map_run, find_run-update_runs}
use manteion_go.Orchestrator.World.{World}
use manteion_go.Orchestrator.Keeps.{status_of}
use manteion_go.Orchestrator.Schedule.{Statuses, statuses_of, holds, Pass, keep, mark}

-- A dependency has failed.
abbrev pub HasFailed : Statuses → List String → Type 0
HasFailed m deps = (dep : String) × Memᴰ dep deps × (holds is_failed (m dep) ≡ true)

-- No run of the list has the ID; each ID stands once; and the map has the runs' statuses.
abbrev pub HasNone : String → List ExperimentRun → Type 0
HasNone id rs = All (λ r. (r.id == id) ≡ false) rs

abbrev pub IsDistinct : List ExperimentRun → Type 0
IsDistinct [] = Unit
IsDistinct (r ∷ rs) = HasNone r.id rs × IsDistinct rs

abbrev pub Agrees : Statuses → List ExperimentRun → Type 0
Agrees m rs = All (λ r. m r.id ≡ some r.status) rs

abbrev pub ids_of : List ExperimentRun → List String
ids_of rs = map (λ r. r.id) rs

-- The run has failed, or is pending and depends on one for which this is so.
pub data Fails (rs : List ExperimentRun) : String → Type 0 where
  failed : (r : ExperimentRun) → Memᴰ r rs → is_failed r.status ≡ true → Fails rs r.id
  inherits :
      (r : ExperimentRun) (dep : String)
      → Memᴰ r rs
      → is_pending r.status ≡ true
      → Memᴰ dep r.depends_on
      → Fails rs dep
      → Fails rs r.id

-- What the map calls failed fails, and the runs that are still pending are as they were.
abbrev pub IsSound : List ExperimentRun → Statuses → List ExperimentRun → Type 0
IsSound all m rs =
    ((id : String) → holds is_failed (m id) ≡ true → Fails all id)
    × ((r : ExperimentRun) → Memᴰ r rs → is_pending r.status ≡ true → Memᴰ r all)

-- What a pass keeps of the runs and the map.
pub record Kept (rs : List ExperimentRun) (m : Statuses) (p : Pass) : Type 0 where
  pub ids : ids_of p.runs ≡ ids_of rs
  pub lacks : (id : String) → HasNone id rs → HasNone id p.runs
  pub distinct : IsDistinct rs → IsDistinct p.runs
  pub others : (id : String) → HasNone id rs → p.statuses id ≡ m id
  pub agrees : IsDistinct rs → Agrees m rs → Agrees p.statuses p.runs
  pub sound : (all : List ExperimentRun) → IsSound all m rs → IsSound all p.statuses p.runs

pub different : (s t : String) → (s == t) ≡ false → (t == s) ≡ false
different s t h = elim (text-cases t s) [
  | inl (e, _) ↦ let h' = rw (e, text_self s) at h in cc
  | inr (_, ne) ↦ ne
]

pub Agrees-update :
    (m : Statuses) (id : String) (s : Option RunStatus) (rs : List ExperimentRun)
    → HasNone id rs
    → Agrees m rs
    → Agrees (update m id s) rs
Agrees-update m id s [] none_there a = tt
Agrees-update m id s (r ∷ rs) (h, hs) (a, as_) =
    (rw (different r.id id h) a, Agrees-update m id s rs hs as_)

pub keep-Kept :
    (r : ExperimentRun) (rs : List ExperimentRun) (m : Statuses) (p : Pass)
    → Kept rs m p
    → Kept (r ∷ rs) m (keep r p)
keep-Kept r rs m p k = record {
  ids = ap (λ l. r.id ∷ l) k.ids;
  lacks = λ id h. (h.0, k.lacks id h.1);
  distinct = λ h. (k.lacks r.id h.0, k.distinct h.1);
  others = λ id h. k.others id h.1;
  agrees = λ d a. (k.others r.id d.0 ∙ a.0, k.agrees d.1 a.1);
  sound = λ all h.
      let (fails, pend) = k.sound all (h.0, λ x i e. h.1 x (Memᴰ.tail i) e) in
      (fails, pending_cons all r p.runs (h.1 r (Memᴰ.head refl)) pend);
}
  where
    pending_cons :
        (all : List ExperimentRun) (r : ExperimentRun) (rs : List ExperimentRun)
        → (is_pending r.status ≡ true → Memᴰ r all)
        → ((x : ExperimentRun) → Memᴰ x rs → is_pending x.status ≡ true → Memᴰ x all)
        → (x : ExperimentRun) → Memᴰ x (r ∷ rs)
        → is_pending x.status ≡ true
        → Memᴰ x all
    pending_cons all r rs here rest x (Memᴰ.head e) h =
        subst (λ y. Memᴰ y all) (sym e)
          (here (ap (λ (y : ExperimentRun). is_pending y.status) (sym e) ∙ h))
    pending_cons all r rs here rest x (Memᴰ.tail i) h = rest x i h

pub mark-Kept :
    (r : ExperimentRun) (rs : List ExperimentRun) (m : Statuses) (p : Pass)
    → is_pending r.status ≡ true
    → HasFailed m r.depends_on
    → Kept rs (update m r.id (some RunStatus.failed)) p
    → Kept (r ∷ rs) m (mark r p)
mark-Kept r rs m p pending (dep, among, gone) k = record {
  ids = ap (λ l. r.id ∷ l) k.ids;
  lacks = λ id h. (h.0, k.lacks id h.1);
  distinct = λ h. (k.lacks r.id h.0, k.distinct h.1);
  others = λ id h. k.others id h.1 ∙ rw (h.0) refl;
  agrees = λ d a. (
    k.others r.id d.0 ∙ update_self m r.id (some RunStatus.failed),
    k.agrees d.1 (Agrees-update m r.id (some RunStatus.failed) rs d.0 a.1),
  );
  sound = λ all h.
      let (fails, pend) = k.sound all (marked all h, λ x i e. h.1 x (Memᴰ.tail i) e) in
      (fails, still all pend);
}
  where
    marked :
        (all : List ExperimentRun)
        → IsSound all m (r ∷ rs)
        → (id : String) → holds is_failed (update m r.id (some RunStatus.failed) id) ≡ true
        → Fails all id
    marked all h id e = elim (text-cases r.id id) [
      | inl (same, _) ↦
          subst (Fails all) same
            (inherits r dep (h.1 r (Memᴰ.head refl) pending) pending among (h.0 dep gone))
      | inr (_, ne) ↦ h.0 id (rw (ne) at e)
    ]

    still :
        (all : List ExperimentRun)
        → ((x : ExperimentRun) → Memᴰ x p.runs → is_pending x.status ≡ true → Memᴰ x all)
        → (x : ExperimentRun) → Memᴰ x (record r { status = RunStatus.failed } ∷ p.runs)
        → is_pending x.status ≡ true
        → Memᴰ x all
    still all rest x (Memᴰ.head e) h =
        let h' = ap (λ (y : ExperimentRun). is_pending y.status) (sym e) ∙ h in cc
    still all rest x (Memᴰ.tail i) h = rest x i h

All-Memᴰ {ℓ κ} : {A : Type ℓ} (P : A → Type κ) (xs : List A) → All P xs → (x : A) → Memᴰ x xs → P x
All-Memᴰ P [] h x i = elim i [ ]
All-Memᴰ P (y ∷ ys) (h, hs) x (Memᴰ.head e) = subst P (sym e) h
All-Memᴰ P (y ∷ ys) (h, hs) x (Memᴰ.tail i) = All-Memᴰ P ys hs x i

pub status_read :
    (m : Statuses) (rs : List ExperimentRun)
    → Agrees m rs
    → (d : ExperimentRun) → Memᴰ d rs
    → holds is_failed (m d.id) ≡ is_failed d.status
status_read m rs a d i =
    ap (λ o. holds is_failed o) (All-Memᴰ (λ r. m r.id ≡ some r.status) rs a d i)

statuses_other :
    (id : String) (rs : List ExperimentRun) (m : Statuses)
    → HasNone id rs
    → statuses_of rs m id ≡ m id
statuses_other id [] m h = refl
statuses_other id (r ∷ rs) m (h, hs) =
    statuses_other id rs (update m r.id (some r.status)) hs ∙ rw (h) refl

pub statuses-Agrees :
    (rs : List ExperimentRun) (m : Statuses) → IsDistinct rs → Agrees (statuses_of rs m) rs
statuses-Agrees [] m d = tt
statuses-Agrees (r ∷ rs) m (new, d) =
    let m' = update m r.id (some r.status) in
    (statuses_other r.id rs m' new ∙ update_self m r.id (some r.status), statuses-Agrees rs m' d)

pub statuses-Fails :
    (all rs : List ExperimentRun) (m : Statuses)
    → ((r : ExperimentRun) → Memᴰ r rs → Memᴰ r all)
    → ((id : String) → holds is_failed (m id) ≡ true → Fails all id)
    → (id : String) → holds is_failed (statuses_of rs m id) ≡ true
    → Fails all id
statuses-Fails all [] m within known id h = known id h
statuses-Fails all (r ∷ rs) m within known id h =
    statuses-Fails all rs (update m r.id (some r.status)) (λ x i. within x (Memᴰ.tail i))
      (λ j e. elim (text-cases r.id j) [
        | inl (same, eq) ↦
            let e' = rw (eq) at e in
            subst (Fails all) same (failed r (within r (Memᴰ.head refl)) e')
        | inr (_, ne) ↦ known j (rw (ne) at e)
      ])
      id h

-- The status `failed` was written for the run, and every run that had it in the store has it still.
abbrev pub Writes : String → World → World → Type 0
Writes id w u =
    (status_of id u ≡ some RunStatus.failed)
    × ((j : String) → status_of j w ≡ some RunStatus.failed → status_of j u ≡ some RunStatus.failed)

pub status_written :
    (id : String) (now : ℕ) (w : World)
    → has_run id w.db.runs ≡ true
    → Writes id w (record w { db = update_run_status id RunStatus.failed now w.db })
unfolding update_run_status
status_written id now w known = (
  elim (Option-cases (find_run id w.db.runs)) [
    | inl gone ↦ let known' = rw (has_run, gone) at known in cc
    | inr (r, found) ↦ rw (written id, text_self id, found) refl
  ],
  λ j h. elim (Bool-cases (id == j)) [
    | inr other ↦ rw (written j, other) h
    | inl same ↦ elim (Option-cases (find_run j w.db.runs)) [
      | inl gone ↦ let h' = rw (gone) at h in cc
      | inr (r, found) ↦ rw (written j, same, found) refl
    ]
  ],
)
  where
    written :
        (j : String)
        → find_run j (update_runs id (set_status RunStatus.failed now) w.db.runs) ≡ (
            if id == j
            then map_run (set_status RunStatus.failed now) (find_run j w.db.runs)
            else find_run j w.db.runs)
    written j = find_run-update_runs id j (set_status RunStatus.failed now) w.db.runs (λ r. refl)

-- What the map calls failed was so at first, or is so in the store.
abbrev pub IsStored : Statuses → Statuses → World → Type 0
IsStored first m w =
    (id : String)
    → holds is_failed (m id) ≡ true
    → (holds is_failed (first id) ≡ true) ⊎ (status_of id w ≡ some RunStatus.failed)

pub IsStored-mark :
    (first m : Statuses) (id : String) (w u : World)
    → Writes id w u
    → IsStored first m w
    → IsStored first (update m id (some RunStatus.failed)) u
IsStored-mark first m id w u (now_failed, still) h j e = elim (text-cases id j) [
  | inl (same, _) ↦ inr (subst (λ k. status_of k u ≡ some RunStatus.failed) same now_failed)
  | inr (_, ne) ↦ elim (h j (rw (ne) at e)) [
    | inl before ↦ inl before
    | inr stored ↦ inr (still j stored)
  ]
]
