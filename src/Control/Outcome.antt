-- ===== src/Control/Outcome.antt =====
-- internal/atrocontrol/fanout.go and errors.go: what a FanoutResult says of the targets.
use mathlib.Core.Path.{subst}
use mathlib.Core.List.{Perm, perm_middle, append-nil, append_assoc}
use mathlib.Core.List.Perm
use manteion_go.Base.{
  ◌≡◌, refl, sym, ap, ◌∙◌, String, true, Option, none, some, List, [], ◌∷◌, ◌++◌, map, Error,
  put_last, is_nil,
}
use manteion_go.Control.{
  Target, PerInstanceError, FanoutResult, ids, add_answer, collect_answers, empty_result, fanout,
  all_succeeded,
}

abbrev pub failed_ids : List PerInstanceError → List String
failed_ids es = map (λ (e : PerInstanceError). e.instance_id) es

abbrev pub recorded : FanoutResult → List String
recorded r = r.succeeded ++ failed_ids r.failures

map-append :
    (es : List PerInstanceError) (e : PerInstanceError)
    → failed_ids (es ++ e ∷ []) ≡ failed_ids es ++ e.instance_id ∷ []
map-append [] e = refl
map-append (x ∷ es) e = ap (λ l. x.instance_id ∷ l) (map-append es e)

collect_answers-targeted :
    (op : Target → Option Error) (order : List Target) (r : FanoutResult)
    → (collect_answers op order r).targeted ≡ r.targeted
collect_answers-targeted op [] r = refl
collect_answers-targeted op (t ∷ ts) r =
    collect_answers-targeted op ts (add_answer t (op t) r) ∙ kept (op t)
  where
    kept : (a : Option Error) → (add_answer t a r).targeted ≡ r.targeted
    kept none = refl
    kept (some e) = refl

map_ids : {a b : List Target} → Perm a b → Perm (ids a) (ids b)
map_ids p = Perm.map (λ (t : Target). t.instance_id) p

no_failures : (es : List PerInstanceError) → is_nil es ≡ true → failed_ids es ≡ []
no_failures [] h = refl
no_failures (e ∷ es) h = cc

module _ (op : Target → Option Error) where
  one_more :
      (t : Target) (a : Option Error) (r : FanoutResult)
      → Perm (t.instance_id ∷ recorded r) (recorded (add_answer t a r))
  one_more t none r = Perm.trans (Perm.symm (perm_middle r.succeeded (failed_ids r.failures))) (
      subst (λ l. Perm (r.succeeded ++ t.instance_id ∷ failed_ids r.failures) l)
        (sym (append_assoc r.succeeded (t.instance_id ∷ []) (failed_ids r.failures))) (Perm.refl _))
  one_more t (some e) r =
      rw
        (map-append r.failures
          (record { instance_id = t.instance_id; address = t.address; cause = e }))
        (put_last t.instance_id r.succeeded (failed_ids r.failures))

  collect_answers_all :
      (order : List Target) (r : FanoutResult)
      → Perm (ids order ++ recorded r) (recorded (collect_answers op order r))
  collect_answers_all [] r = Perm.refl (recorded r)
  collect_answers_all (t ∷ ts) r = Perm.trans (Perm.symm (perm_middle (ids ts) (recorded r))) (
      Perm.trans (Perm.append_left (ids ts) (one_more t (op t) r))
        (collect_answers_all ts (add_answer t (op t) r)))

  -- Whatever the order in which the calls are over, each targeted instance is once among those that
  -- succeeded or those that failed, and no other one is.
  pub fanout_accounts :
      (completion : List Target → List Target) (targets : List Target)
      → Perm targets (completion targets)
      → Perm (fanout completion targets op).targeted (recorded (fanout completion targets op))
  unfolding fanout
  fanout_accounts completion targets perm =
      let all = collect_answers_all (completion targets) (empty_result targets) in
      subst
        (λ l. Perm l (recorded (collect_answers op (completion targets) (empty_result targets))))
        (sym (collect_answers-targeted op (completion targets) (empty_result targets)))
        (Perm.trans (map_ids perm) (
          subst
            (λ l.
              Perm l (recorded (collect_answers op (completion targets) (empty_result targets))))
            (append-nil (ids (completion targets))) all))

  -- In particular, all targeted instances succeeded where AllSucceeded says so.
  pub fanout_all_succeeded :
      (completion : List Target → List Target) (targets : List Target)
      → Perm targets (completion targets)
      → all_succeeded (fanout completion targets op) ≡ true
      → Perm (fanout completion targets op).targeted (fanout completion targets op).succeeded
  fanout_all_succeeded completion targets perm h =
      let r = fanout completion targets op in
      subst (Perm r.targeted) (append-nil r.succeeded) (
        subst (λ l. Perm r.targeted (r.succeeded ++ l)) (no_failures r.failures h)
          (fanout_accounts completion targets perm))
