-- ===== src/Composition/Pairs.antt =====
-- internal/model/composition_validate.go: which leaves ValidateCompositionIncompatibilities accepts.
use mathlib.Core.List.{Memᴰ}
use manteion_go.Base.{
  ◌≡◌, refl, ◌↔◌, inl, inr, String, ◌==◌, true, false, List, [], ◌∷◌, Bool-cases,
}
use manteion_go.Model.Fault.{ExecutionMode, FaultConstraint}
use manteion_go.Composition.{
  Answer, ok, err, out_of_fuel, ◌>>=◌, matches_pair, check_rules, check_with, check_pairs,
}

-- An answer that decides `P`: a result where it holds, an error where it does not.
abbrev Decides : {A : Type 0} → Type 0 → Answer A → Type 0
Decides P (ok a) = P
Decides P (err e) = ¬ P
Decides P out_of_fuel = ⊥

-- Two steps of a loop, whose result is dropped.
then-Decides :
    {A B C : Type 0} {P Q R : Type 0} (m : Answer A) (n : Answer B) (f : A → B → C)
    → Decides P m
    → Decides Q n
    → (P → Q → R)
    → (R → P)
    → (R → Q)
    → Decides R (m >>= λ a. n >>= λ b. ok (f a b))
then-Decides (ok a) (ok b) f p q both left right = both p q
then-Decides (ok a) (err e) f p q both left right = λ r. q (right r)
then-Decides (ok a) out_of_fuel f p q both left right = q
then-Decides (err e) n f p q both left right = λ r. p (left r)
then-Decides out_of_fuel n f p q both left right = p

map-Decides :
    {A B : Type 0} {P Q : Type 0} (m : Answer A) (f : A → B)
    → Decides P m
    → (P → Q)
    → (Q → P)
    → Decides Q (m >>= λ a. ok (f a))
map-Decides (ok a) f p to from = to p
map-Decides (err e) f p to from = λ q. p (from q)
map-Decides out_of_fuel f p to from = p

same-Decides :
    {A : Type 0} {P Q : Type 0} (m : Answer A) → Decides P m → (P → Q) → (Q → P) → Decides Q m
same-Decides (ok a) p to from = to p
same-Decides (err e) p to from = λ q. p (from q)
same-Decides out_of_fuel p to from = p

module _ (mode : ExecutionMode) (id : String) (rules : List FaultConstraint) where
  -- No hard rule of the list matches the two leaves, in this order.
  abbrev pub RulesAllow : String → String → List FaultConstraint → Type 0
  RulesAllow a b rs =
      (r : FaultConstraint)
      → Memᴰ r rs
      → matches_pair a b r mode ≡ true
      → (r.constraint_type == "hard") ≡ false

  -- The rules allow each leaf before each later one.
  abbrev pub PairsAllowed : List String → Type 0
  PairsAllowed [] = Unit
  PairsAllowed (a ∷ bs) = ((b : String) → Memᴰ b bs → RulesAllow a b rules) × PairsAllowed bs

  RulesAllow-cons :
      (a b : String) (r : FaultConstraint) (rs : List FaultConstraint)
      → (matches_pair a b r mode ≡ true → (r.constraint_type == "hard") ≡ false)
      → RulesAllow a b rs
      → RulesAllow a b (r ∷ rs)
  RulesAllow-cons a b r rs here rest x (Memᴰ.head e) m = rw e (here (rw e at m))
  RulesAllow-cons a b r rs here rest x (Memᴰ.tail p) m = rest x p m

  check_rules-Decides :
      (a b : String) (rs : List FaultConstraint)
      → Decides (RulesAllow a b rs) (check_rules mode id rules a b rs)
  unfolding check_rules
  check_rules-Decides a b [] = λ r p. elim p [ ]
  check_rules-Decides a b (r ∷ rs) =
      let rest = check_rules-Decides a b rs in
      let tail : RulesAllow a b (r ∷ rs) → RulesAllow a b rs = λ all x p. all x (Memᴰ.tail p) in
      elim (Bool-cases (matches_pair a b r mode)) [
        | inr apart ↦ rw apart (
            same-Decides (check_rules mode id rules a b rs) rest
              (RulesAllow-cons a b r rs (λ m. cc)) tail)
        | inl meets ↦ elim (Bool-cases (r.constraint_type == "hard")) [
          | inl hard ↦ rw (meets, hard) (λ all. let e = all r (Memᴰ.head refl) meets in cc)
          | inr soft ↦
              rw (meets, soft)
                (map-Decides (check_rules mode id rules a b rs) _ rest
                  (RulesAllow-cons a b r rs (λ m. soft)) tail)
        ]
      ]

  check_with-Decides :
      (a : String) (bs : List String)
      → Decides ((b : String) → Memᴰ b bs → RulesAllow a b rules) (check_with mode id rules a bs)
  unfolding check_with
  check_with-Decides a [] = λ b p. elim p [ ]
  check_with-Decides a (b ∷ bs) =
      then-Decides (check_rules mode id rules a b rules) (check_with mode id rules a bs) _
        (check_rules-Decides a b rules) (check_with-Decides a bs) both
        (λ all. all b (Memᴰ.head refl)) (λ all c p. all c (Memᴰ.tail p))
    where
      both :
          RulesAllow a b rules
          → ((c : String) → Memᴰ c bs → RulesAllow a c rules)
          → (c : String) → Memᴰ c (b ∷ bs)
          → RulesAllow a c rules
      both here rest c (Memᴰ.head e) = rw e here
      both here rest c (Memᴰ.tail p) = rest c p

  check_pairs-Decides :
      (leaves : List String) → Decides (PairsAllowed leaves) (check_pairs mode id rules leaves)
  unfolding check_pairs
  check_pairs-Decides [] = tt
  check_pairs-Decides (a ∷ bs) =
      then-Decides (check_with mode id rules a bs) (check_pairs mode id rules bs) _
        (check_with-Decides a bs) (check_pairs-Decides bs) (λ p q. (p, q)) (λ p. p.0) (λ p. p.1)

  -- The pairs of leaves are accepted, with some warnings, exactly where for no leaf and no later leaf
  -- a hard rule of the list matches the two in the composition's mode.
  pub check_pairs_iff :
      (leaves : List String)
      → ((warnings : List String) × (check_pairs mode id rules leaves ≡ ok warnings))
        ↔ PairsAllowed leaves
  check_pairs_iff leaves = decided (check_pairs mode id rules leaves) (check_pairs-Decides leaves)
    where
      decided :
          (o : Answer (List String))
          → Decides (PairsAllowed leaves) o
          → ((warnings : List String) × (o ≡ ok warnings)) ↔ PairsAllowed leaves
      decided (ok ws) p = (λ e. p, λ q. (ws, refl))
      decided (err e) n = (λ p. cc, λ q. absurd (n q))
      decided out_of_fuel p = absurd p
