-- ===== src/Composition/Accepted.antt =====
-- internal/model/composition_validate.go: what a composition that ValidateComposition accepts is like.
use manteion_go.Base.{◌≡◌, refl, String, none, List}
use manteion_go.Model.Fault.{
  FaultComposition, validate_composition_fields, default_incompatibilities,
}
use manteion_go.Composition.{
  FaultSpecResolver, CompositionResolver, Answer, ok, err, out_of_fuel, ◌>>=◌, check_answer,
  walk_depth, collect_leaves, validate_network_directions, validate_composition_incompatibilities,
  validate_composition,
}
use manteion_go.Composition.Answers.{check_answer_ok}
use manteion_go.Composition.Pairs.{PairsAllowed, check_pairs_iff}

>>=-ok :
    {A B : Type 0} (m : Answer A) (f : A → Answer B) (b : B)
    → (m >>= f) ≡ ok b
    → (a : A) × (m ≡ ok a) × (f a ≡ ok b)
>>=-ok (ok a) f b h = (a, refl, h)
>>=-ok (err e) f b h = cc
>>=-ok out_of_fuel f b h = cc

-- An accepted composition has acceptable fields, passes the check of its depth, its leaves can all be
-- resolved, and no hard default rule matches one of them and a later one.
pub validate_composition_sound :
    (faults : FaultSpecResolver) (comps : CompositionResolver) (comp : FaultComposition)
    → validate_composition faults comps comp ≡ ok tt
    → (validate_composition_fields comp ≡ none)
      × (walk_depth comps 3 comp ≡ none)
      × (leaves : List String) × (collect_leaves faults comps 3 comp ≡ ok leaves)
      × PairsAllowed comp.execution_mode comp.id default_incompatibilities leaves
unfolding validate_composition validate_composition_incompatibilities
validate_composition_sound faults comps comp h =
    let (u, fields, h1) = >>=-ok (check_answer (validate_composition_fields comp)) _ tt h in
    let (v, depth, h2) = >>=-ok (check_answer (walk_depth comps 3 comp)) _ tt h1 in
    let (w, _, h3) = >>=-ok (validate_network_directions faults comps 3 comp) _ tt h2 in
    let (warnings, pairs, _) =
      >>=-ok (validate_composition_incompatibilities faults comps 3 default_incompatibilities comp)
        _ tt h3 in
    let (leaves, collected, checked) =
      >>=-ok (collect_leaves faults comps 3 comp) _ warnings pairs in
    (
      check_answer_ok (validate_composition_fields comp) u fields,
      check_answer_ok (walk_depth comps 3 comp) v depth,
      leaves,
      collected,
      (check_pairs_iff comp.execution_mode comp.id default_incompatibilities leaves).0
          (warnings, checked),
    )
