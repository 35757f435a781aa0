-- ===== src/Control/Fanout.antt =====
-- internal/atrocontrol/fanout.go: its goroutines, the tokens that bound them, and what they record.
use mathlib.Core.Path.{subst}
use mathlib.Core.List.{Perm, perm_middle, append-nil}
use mathlib.Core.List.Perm
use manteion_go.Base.{
  ℕ, zero, suc, ◌+◌, ◌*◌, ◌≤◌, ◌<◌, ◌≡◌, refl, sym, ap, ◌∙◌, ◌⊎◌, inl, inr, Option, List, [], ◌∷◌,
  ◌++◌, Error, length, length-append, put_last, arith,
}
use manteion_go.Control.{Target, FanoutResult, add_answer, collect_answers, empty_result}

-- The targets that the loop has not reached, those whose goroutine has not recorded its answer, the
-- goroutines that still hold a token after that, and the result so far.
pub record Progress : Type 0 where
  pub waiting : List Target
  pub calling : List Target
  pub releasing : ℕ
  pub result : FanoutResult

abbrev pub start : List Target → Progress
start targets = record {
  waiting = targets;
  calling = [];
  releasing = 0;
  result = empty_result targets;
}

-- `wg.Wait()` returns, with the loop over.
abbrev pub Finished : Progress → Type 0
Finished p = (p.waiting ≡ []) × (p.calling ≡ []) × (p.releasing ≡ 0)

abbrev pub in_flight : Progress → ℕ
in_flight p = length p.calling + p.releasing

module _ (concurrency : ℕ) (op : Target → Option Error) where
  -- `sem <- struct{}{}` and the start of the goroutine; its call and what it records under the mutex;
  -- `<-sem`. Any of the goroutines may be the next.
  pub data Step : Progress → Progress → Type 0 where
    launch :
        (t : Target) (ts calling : List Target) (releasing : ℕ) (result : FanoutResult)
        → length calling + releasing < concurrency
        → Step
            (record { waiting = t ∷ ts; calling = calling; releasing = releasing; result = result })
            (record { waiting = ts; calling = t ∷ calling; releasing = releasing; result = result })
    record_answer :
        (ts before : List Target) (t : Target) (after : List Target) (releasing : ℕ)
        (result : FanoutResult)
        → Step
            (record {
              waiting = ts;
              calling = before ++ t ∷ after;
              releasing = releasing;
              result = result;
            })
            (record {
              waiting = ts;
              calling = before ++ after;
              releasing = suc releasing;
              result = add_answer t (op t) result;
            })
    release :
        (ts calling : List Target) (releasing : ℕ) (result : FanoutResult)
        → Step
            (record { waiting = ts; calling = calling; releasing = suc releasing; result = result })
            (record { waiting = ts; calling = calling; releasing = releasing; result = result })

  -- `n` steps, the last one at the end.
  pub data Steps : ℕ → Progress → Progress → Type 0 where
    none_yet : (p : Progress) → Steps 0 p p
    then_step : (n : ℕ) (p q r : Progress) → Steps n p q → Step q r → Steps (suc n) p r

  abbrev left : Progress → ℕ
  left p = 3 * length p.waiting + 2 * length p.calling + p.releasing

  length-middle :
      (before : List Target) (t : Target) (after : List Target)
      → length (before ++ t ∷ after) ≡ suc (length (before ++ after))
  length-middle before t after =
      omega (arith, length-append before (t ∷ after), length-append before after)

  Step-left : (p q : Progress) → Step p q → left p ≡ suc (left q)
  Step-left p q (launch t ts calling releasing result h) = omega arith
  Step-left p q (record_answer ts before t after releasing result) =
      omega (arith, length-middle before t after)
  Step-left p q (release ts calling releasing result) = omega arith

  Step-in_flight :
      (p q : Progress) → Step p q → in_flight p ≤ concurrency → in_flight q ≤ concurrency
  Step-in_flight p q (launch t ts calling releasing result h) below = omega arith
  Step-in_flight p q (record_answer ts before t after releasing result) below =
      omega (arith, length-middle before t after)
  Step-in_flight p q (release ts calling releasing result) below = omega arith

  Steps-left : (n : ℕ) (p q : Progress) → Steps n p q → n + left q ≡ left p
  Steps-left n p q (none_yet p') = omega arith
  Steps-left n p r (then_step k p' q r' before last) =
      let h = Steps-left k p q before in let s = Step-left q r last in omega arith

  Steps-Keeps :
      (P : Progress → Type 0)
      → ((p q : Progress) → Step p q → P p → P q)
      → (n : ℕ) (p q : Progress) → Steps n p q
      → P p
      → P q
  Steps-Keeps P keep n p q (none_yet p') h = h
  Steps-Keeps P keep n p r (then_step k p' q r' before last) h =
      keep q r last (Steps-Keeps P keep k p q before h)

  -- However the goroutines interleave, no more of them hold a token than the concurrency allows.
  pub fanout_in_flight :
      (targets : List Target) (n : ℕ) (p : Progress)
      → Steps n (start targets) p
      → in_flight p ≤ concurrency
  fanout_in_flight targets n p steps =
      Steps-Keeps (λ q. in_flight q ≤ concurrency) Step-in_flight n (start targets) p steps
        (omega arith)

  -- The targets are those of the loop, of the goroutines and of the recorded answers, and the result
  -- is what the calls give in the order in which they were recorded.
  abbrev Sequential : List Target → Progress → Type 0
  Sequential targets p =
      (order : List Target) × Perm targets (p.waiting ++ p.calling ++ order)
      × (p.result ≡ collect_answers op order (empty_result targets))

  collect_answers-append :
      (order : List Target) (t : Target) (r : FanoutResult)
      → collect_answers op (order ++ t ∷ []) r ≡ add_answer t (op t) (collect_answers op order r)
  collect_answers-append [] t r = refl
  collect_answers-append (u ∷ us) t r = collect_answers-append us t (add_answer u (op u) r)

  Step-Sequential :
      (targets : List Target) (p q : Progress)
      → Step p q
      → Sequential targets p
      → Sequential targets q
  Step-Sequential targets p q (launch t ts calling releasing result h) (order, perm, same) =
      (order, Perm.trans perm (Perm.append_right order (Perm.symm (perm_middle ts calling))), same)
  Step-Sequential targets p q (record_answer ts before t after releasing result)
        (order, perm, same) =
      let others = ts ++ (before ++ after) in
      let taken : Perm (ts ++ (before ++ t ∷ after)) (t ∷ others) =
        Perm.trans (Perm.append_left ts (perm_middle before after))
          (perm_middle ts (before ++ after)) in
      (
        order ++ t ∷ [],
        Perm.trans perm (Perm.trans (Perm.append_right order taken) (put_last t others order)),
        ap (add_answer t (op t)) same ∙ sym (collect_answers-append order t (empty_result targets)),
      )
  Step-Sequential targets p q (release ts calling releasing result) s = s

  -- However the goroutines interleave, the result that fanout returns is that of the calls made one
  -- after another, in some order of the targets.
  pub fanout-Sequential :
      (targets : List Target) (n : ℕ) (p : Progress)
      → Steps n (start targets) p
      → Finished p
      → (order : List Target) × Perm targets order
        × (p.result ≡ collect_answers op order (empty_result targets))
  fanout-Sequential targets n p steps (no_waiting, no_calling, _) =
      let (order, perm, same) =
        Steps-Keeps (Sequential targets) (Step-Sequential targets) n (start targets) p steps
          ([], all_waiting targets, refl) in
      (
        order,
        subst (λ cs. Perm targets (cs ++ order)) no_calling
            (subst (λ ws. Perm targets ((ws ++ p.calling) ++ order)) no_waiting perm),
        same,
      )
    where
      all_waiting : (l : List Target) → Perm l (l ++ [] ++ [])
      all_waiting l = rw (append-nil l, append-nil l) (Perm.refl l)

  next :
      0 < concurrency
      → (ws ts : List Target) (r : ℕ) (res : FanoutResult)
      → Finished (record { waiting = ws; calling = ts; releasing = r; result = res })
        ⊎ ((q : Progress) × Step
              (record { waiting = ws; calling = ts; releasing = r; result = res })
              q)
  next positive ws (t ∷ ts) r res = inr (_, record_answer ws [] t ts r res)
  next positive ws [] (suc r) res = inr (_, release ws [] r res)
  next positive (t ∷ ts) [] zero res = inr (_, launch t ts [] 0 res (omega arith))
  next positive [] [] zero res = inl (refl, refl, refl)

  Finished-left : (p : Progress) → Finished p → left p ≡ 0
  Finished-left p (no_waiting, no_calling, no_token) =
      omega (arith, ap length no_waiting, ap length no_calling)

  -- A step is possible while the calls are not finished, and exactly three steps for each target
  -- finish them, if the concurrency is positive.
  pub fanout_finishes :
      (targets : List Target) (n : ℕ) (p : Progress)
      → 0 < concurrency
      → Steps n (start targets) p
      → (Finished p × (n ≡ 3 * length targets))
        ⊎ (((q : Progress) × Step p q) × (n < 3 * length targets))
  fanout_finishes targets n p positive steps =
      let counted = Steps-left n (start targets) p steps in
      elim (next positive p.waiting p.calling p.releasing p.result) [
        | inl done ↦ inl (done, omega (arith, Finished-left p done))
        | inr (q, s) ↦ inr ((q, s), omega (arith, Step-left p q s))
      ]
