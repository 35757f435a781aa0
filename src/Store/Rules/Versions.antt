-- ===== src/Store/Rules/Versions.antt =====
-- internal/store/rule_repo.go: the version of the table as a sign of its changes.
use manteion_go.Base.{
  ℕ, suc, ◌≤◌, ◌≡◌, refl, sym, ◌∙◌, ap, ◌⊎◌, inl, inr, String, Bool, not, ◌||◌, List, [], ◌∷◌,
  Bool-cases, Option-cases, arith,
}
use manteion_go.Model.Rule.{Rule, validate_rule}
use manteion_go.Store.Rules.{
  Codec, RuleRow, RuleTable, find_row, has_row, to_row, set_row, create, update, delete,
  bump_version,
}

pub data Change : Type 0 where
  creates : Rule → Change
  updates : Rule → ℕ → Change
  deletes : String → Change
  bumps : Change

module _ (codec : Codec) (admits : RuleRow → Bool) where
  abbrev pub apply : Change → RuleTable → RuleTable
  apply (creates rule) t = (create codec admits rule t).2
  apply (updates rule now) t = (update codec admits rule now t).2
  apply (deletes id) t = (delete id t).1
  apply bumps t = bump_version t

  abbrev pub apply_all : List Change → RuleTable → RuleTable
  apply_all [] t = t
  apply_all (c ∷ cs) t = apply_all cs (apply c t)

  -- A change leaves the table and its version, or bumps the version.
  pub apply-version :
      (c : Change) (t : RuleTable) → (apply c t ≡ t) ⊎ ((apply c t).version ≡ suc t.version)
  unfolding create update delete
  apply-version (creates rule) t = elim (Option-cases (validate_rule rule).1) [
    | inr (e, bad) ↦ inl (rw (bad, apply, create) refl)
    | inl good ↦
        elim (Bool-cases (
          has_row (validate_rule rule).0.id t.rows
          || not (admits (to_row codec (validate_rule rule).0)))) [
            | inl taken ↦ inl (rw (good, apply, create, taken) refl)
            | inr free ↦ inr (rw (good, apply, create, free) refl)
          ]
  ]
  apply-version (updates rule now) t = elim (Option-cases (validate_rule rule).1) [
    | inr (e, bad) ↦ inl (rw (bad, apply, update) refl)
    | inl good ↦ elim (Option-cases (find_row (validate_rule rule).0.id t.rows)) [
      | inl gone ↦ inl (rw (good, apply, update, gone) refl)
      | inr (old, there) ↦
          elim (Bool-cases (not (admits (set_row codec (validate_rule rule).0 now old)))) [
            | inl bad ↦ inl (rw (good, apply, update, there, bad) refl)
            | inr fits ↦ inr (rw (good, apply, update, there, fits) refl)
          ]
    ]
  ]
  apply-version (deletes id) t = elim (Bool-cases (has_row id t.rows)) [
    | inl h ↦ inr (rw (h, apply, delete) refl)
    | inr h ↦ inl (rw (h, apply, delete) refl)
  ]
  apply-version bumps t = inr refl

  -- Over any changes of the rules, accepted or not, the version never decreases; and where it is the
  -- same as before, so is the whole table.
  pub apply_all-version :
      (cs : List Change) (t : RuleTable)
      → (t.version ≤ (apply_all cs t).version)
        × ((apply_all cs t).version ≡ t.version → apply_all cs t ≡ t)
  apply_all-version [] t = (omega arith, λ e. refl)
  apply_all-version (c ∷ cs) t =
      let (grows, same) = apply_all-version cs (apply c t) in
      elim (apply-version c t) [
        | inl kept ↦
            let v : (apply c t).version ≡ t.version = ap (λ (x : RuleTable). x.version) kept in
            (omega (arith, grows, v), λ e. same (e ∙ sym v) ∙ kept)
        | inr bumped ↦ (omega (arith, grows, bumped), λ e. absurd (omega (arith, grows, bumped, e)))
      ]
