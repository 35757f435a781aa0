-- ===== src/RunGraph/Fuel.antt =====
-- Why the fuel of the two searches of RunGraph suffices: each call marks one more run of the list.
use mathlib.Core.List.{Memᴰ}
use manteion_go.Base.{
  ℕ, suc, ◌≤◌, ◌<◌, ◌≡◌, ap, String, Bool, true, false, some, List, [], ◌∷◌, length, if◌then◌else◌,
  arith, text_self,
}
use manteion_go.Base.Update.{update}
use manteion_go.Model.Experiment.{ExperimentRun}
use manteion_go.RunGraph.{by_id}
use manteion_go.RunGraph.Spec.{by_id-eq-some}

-- The runs of the list that are not marked.
pub off : (String → Bool) → List ExperimentRun → ℕ
off mark [] = 0
off mark (r ∷ rs) = let rest = off mark rs in if mark r.id then rest else suc rest

pub off-le : (mark : String → Bool) (rs : List ExperimentRun) → off mark rs ≤ length rs
unfolding off
off-le mark [] = omega arith
off-le mark (r ∷ rs) = ground (arith, off-le mark rs)

off-update-le :
    (mark : String → Bool) (id : String) (rs : List ExperimentRun)
    → off (update mark id true) rs ≤ off mark rs
unfolding off
off-update-le mark id [] = omega arith
off-update-le mark id (r ∷ rs) = ground (arith, off-update-le mark id rs)

-- Marking the ID of a run that is not marked leaves fewer.
pub off-update-lt :
    (mark : String → Bool) (r : ExperimentRun) (rs : List ExperimentRun)
    → mark r.id ≡ false
    → Memᴰ r rs
    → off (update mark r.id true) rs < off mark rs
unfolding off
off-update-lt mark r [] h p = elim p [ ]
off-update-lt mark r (x ∷ rs) h (Memᴰ.head e) =
    let same : r.id ≡ x.id = ap (λ (s : ExperimentRun). s.id) e in
    ground (arith, off-update-le mark r.id rs, text_self x.id)
off-update-lt mark r (x ∷ rs) h (Memᴰ.tail m) = ground (arith, off-update-lt mark r rs h m)

pub off-enter :
    (runs : List ExperimentRun) (id : String) (r : ExperimentRun) (mark : String → Bool)
    → by_id runs id ≡ some r
    → mark id ≡ false
    → off (update mark id true) runs < off mark runs
off-enter runs id r mark found h =
    let (same, listed) = by_id-eq-some runs id r found in
    rw same at (off-update-lt mark r runs (rw same h) listed)

-- Marks are only added.
abbrev pub Grows : (String → Bool) → (String → Bool) → Type 0
Grows seen seen' = (v : String) → seen v ≡ true → seen' v ≡ true

pub off-anti :
    (seen seen' : String → Bool) (rs : List ExperimentRun)
    → Grows seen seen'
    → off seen' rs ≤ off seen rs
unfolding off
off-anti seen seen' [] g = omega arith
off-anti seen seen' (r ∷ rs) g = ground (arith, off-anti seen seen' rs g, g r.id)

pub Grows-update : (seen : String → Bool) (id : String) → Grows seen (update seen id true)
Grows-update seen id v h = ground arith
