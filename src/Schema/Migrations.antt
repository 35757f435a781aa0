-- ===== src/Schema/Migrations.antt =====
-- internal/db/migrations.go: Migrate. A database is the versions that are recorded and what the SQL of
-- the migrations has made; what SQL does is a parameter, and its transaction is rolled back where it
-- fails. The table of the versions can always be read and written.
use mathlib.Core.Path.{subst}
use manteion_go.Base.{
  ℕ, ◌≡◌, refl, sym, ap, ◌∙◌, inl, inr, String, Bool, true, false, ◌||◌, Option, none, some, List,
  [], ◌∷◌, Bool-cases, Option-cases, Check, wrap_at, new, All, eqb, eq→eqb,
}

pub record Migration : Type 0 where
  pub version : ℕ
  pub description : String
  pub sql : String

pub record Database (S : Type 0) : Type 0 where
  pub applied : List ℕ
  pub schema : S

-- `SELECT EXISTS(…)`
unfoldable pub is_applied : ℕ → List ℕ → Bool
is_applied v [] = false
is_applied v (w ∷ ws) = eqb v w || is_applied v ws

module _ {S : Type 0} (execute : String → S → Option S) where
  unfoldable pub migrate : List Migration → Database S → Check × Database S
  unfolding is_applied
  migrate [] db = (none, db)
  migrate (m ∷ ms) db = elim (is_applied m.version db.applied) [
    | true ↦ migrate ms db
    | false ↦ elim (execute m.sql db.schema) [
      | none ↦ (some (wrap_at "apply migration %d: %w" m.version (new m.description)), db)
      | some schema ↦ migrate ms (record { applied = m.version ∷ db.applied; schema = schema })
    ]
  ]

  applied_next : (v w : ℕ) (ws : List ℕ) → is_applied v ws ≡ true → is_applied v (w ∷ ws) ≡ true
  unfolding is_applied
  applied_next v w ws h = elim (Bool-cases (eqb v w)) [ inl e ↦ rw (e) refl | inr e ↦ rw (e) h ]

  applied_first : (v : ℕ) (ws : List ℕ) → is_applied v (v ∷ ws) ≡ true
  unfolding is_applied
  applied_first v ws = rw (eq→eqb v v refl) refl

  migrate_skip :
      (m : Migration) (ms : List Migration) (db : Database S)
      → is_applied m.version db.applied ≡ true
      → migrate (m ∷ ms) db ≡ migrate ms db
  unfolding migrate
  migrate_skip m ms db e = rw (migrate, e) refl

  migrate_step :
      (m : Migration) (ms : List Migration) (db : Database S) (schema : S)
      → is_applied m.version db.applied ≡ false
      → execute m.sql db.schema ≡ some schema
      → migrate (m ∷ ms) db
        ≡ migrate ms (record { applied = m.version ∷ db.applied; schema = schema })
  unfolding migrate
  migrate_step m ms db schema e f = rw (migrate, e, f) refl

  migrate_fail :
      (m : Migration) (ms : List Migration) (db : Database S)
      → is_applied m.version db.applied ≡ false
      → execute m.sql db.schema ≡ none
      → migrate (m ∷ ms) db
        ≡ (some (wrap_at "apply migration %d: %w" m.version (new m.description)), db)
  unfolding migrate
  migrate_fail m ms db e f = rw (migrate, e, f) refl

  -- What is recorded stays recorded.
  migrate_keeps :
      (ms : List Migration) (db : Database S) (v : ℕ)
      → is_applied v db.applied ≡ true
      → is_applied v (migrate ms db).1.applied ≡ true
  unfolding migrate
  migrate_keeps [] db v h = h
  migrate_keeps (m ∷ ms) db v h = elim (Bool-cases (is_applied m.version db.applied)) [
    | inl e ↦ ap (λ x. is_applied v x.1.applied) (migrate_skip m ms db e) ∙ migrate_keeps ms db v h
    | inr e ↦ elim (Option-cases (execute m.sql db.schema)) [
      | inl f ↦ ap (λ x. is_applied v x.1.applied) (migrate_fail m ms db e f) ∙ h
      | inr (schema, f) ↦
          ap (λ x. is_applied v x.1.applied) (migrate_step m ms db schema e f)
          ∙ migrate_keeps ms (record { applied = m.version ∷ db.applied; schema = schema }) v
              (applied_next v m.version db.applied h)
    ]
  ]

  abbrev Recorded : List Migration → Check × Database S → Type 0
  Recorded ms x = All (λ m. is_applied m.version x.1.applied ≡ true) ms

  -- After a Migrate without error every migration is recorded.
  migrate_all :
      (ms : List Migration) (db : Database S)
      → (migrate ms db).0 ≡ none
      → All (λ m. is_applied m.version (migrate ms db).1.applied ≡ true) ms
  unfolding migrate
  migrate_all [] db h = tt
  migrate_all (m ∷ ms) db h = elim (Bool-cases (is_applied m.version db.applied)) [
    | inl e ↦
        let same = migrate_skip m ms db e in
        subst (Recorded (m ∷ ms)) (sym same)
          (migrate_keeps ms db m.version e, migrate_all ms db (ap (λ x. x.0) (sym same) ∙ h))
    | inr e ↦ elim (Option-cases (execute m.sql db.schema)) [
      | inl f ↦ let bad = ap (λ x. x.0) (sym (migrate_fail m ms db e f)) ∙ h in cc
      | inr (schema, f) ↦
          let db' : Database S = record { applied = m.version ∷ db.applied; schema = schema } in
          let same = migrate_step m ms db schema e f in
          subst (Recorded (m ∷ ms)) (sym same) (
            migrate_keeps ms db' m.version (applied_first m.version db.applied),
            migrate_all ms db' (ap (λ x. x.0) (sym same) ∙ h),
          )
    ]
  ]

  -- Where every migration is recorded there is nothing to do.
  migrate-none :
      (ms : List Migration) (db : Database S)
      → All (λ m. is_applied m.version db.applied ≡ true) ms
      → migrate ms db ≡ (none, db)
  unfolding migrate
  migrate-none [] db h = refl
  migrate-none (m ∷ ms) db (h, hs) = migrate_skip m ms db h ∙ migrate-none ms db hs

  -- A Migrate without error records every migration, and a further Migrate then changes nothing.
  pub migrate_idem :
      (ms : List Migration) (db : Database S)
      → (migrate ms db).0 ≡ none
      → All (λ m. is_applied m.version (migrate ms db).1.applied ≡ true) ms
        × (migrate ms (migrate ms db).1 ≡ (none, (migrate ms db).1))
  migrate_idem ms db h =
      let all = migrate_all ms db h in (all, migrate-none ms (migrate ms db).1 all)
