-- ===== src/Api/Handlers/Faults/Laws.antt =====
-- internal/api/fault_handler.go: a request that is refused changes nothing, and a composition that is
-- created can be read.
use manteion_go.Base.{
  ℕ, ◌≡◌, refl, sym, ap, ◌∙◌, ◌⊎◌, inl, inr, String, Bool, true, not, ◌||◌, Option, none, some,
  Check, Bool-cases, Option-cases,
}
use manteion_go.Model.Fault.{
  FaultSpec, FaultComposition, validate_fault_spec, validate_composition_fields,
}
use manteion_go.Composition as Composition
use manteion_go.Composition.{validate_composition}
use manteion_go.Store.Tables.{find_key, has_key}
use manteion_go.Store.Faults.{
  SpecRow, CompositionRow, MemberRow, FaultTables, spec_key, spec_row, set_spec, composition_key,
  composition_row, member_rows, all_admitted, create_spec, update_spec, delete_spec,
  create_composition, get_composition, delete_composition, spec_resolver, composition_resolver,
}
use manteion_go.Store.Faults.Members.{HaveOwners, create_composition-get_composition}
use manteion_go.Api.Handlers.{Reply, json, is_refusal, get_reply, done_reply}
use manteion_go.Api.Handlers.Faults.{
  or_fresh, checked, created, updated, verdict, handle_create_fault_spec, handle_update_fault_spec,
  handle_delete_fault_spec, handle_create_fault_composition, handle_get_fault_composition,
  handle_delete_fault_composition,
}

-- The call succeeded, or changed nothing.
abbrev Done : FaultTables → Check × FaultTables → Type 0
Done t x = (x.0 ≡ none) ⊎ (x.1 ≡ t)

module _ (admits : SpecRow → Bool) where
  create_spec-Done : (f : FaultSpec) (t : FaultTables) → Done t (create_spec admits f t)
  unfolding create_spec
  create_spec-Done f t = elim (Option-cases (validate_fault_spec f)) [
    | inr (cause, bad) ↦ inr (rw (bad, create_spec) refl)
    | inl good ↦ elim (Bool-cases (has_key spec_key f.id t.specs || not (admits (spec_row f)))) [
      | inl e ↦ inr (rw (good, create_spec, e) refl)
      | inr e ↦ inl (rw (good, create_spec, e) refl)
    ]
  ]

  update_spec-Done : (f : FaultSpec) (t : FaultTables) → Done t (update_spec admits f t)
  unfolding update_spec
  update_spec-Done f t = elim (Option-cases (validate_fault_spec f)) [
    | inr (cause, bad) ↦ inr (rw (bad, update_spec) refl)
    | inl good ↦ elim (Option-cases (find_key spec_key f.id t.specs)) [
      | inl gone ↦ inr (rw (good, update_spec, gone) refl)
      | inr (old, there) ↦ elim (Bool-cases (not (admits (set_spec f old)))) [
        | inl e ↦ inr (rw (good, update_spec, there, e) refl)
        | inr e ↦ inl (rw (good, update_spec, there, e) refl)
      ]
    ]
  ]

module _ (admits : CompositionRow → Bool) (admits_member : MemberRow → Bool) where
  create_composition-Done :
      (c : FaultComposition) (t : FaultTables)
      → Done t (create_composition admits admits_member c t)
  unfolding create_composition
  create_composition-Done c t = elim (Option-cases (validate_composition_fields c)) [
    | inr (cause, bad) ↦ inr (rw (bad, create_composition) refl)
    | inl good ↦
        elim (Bool-cases
          (has_key composition_key c.id t.compositions || not (admits (composition_row c)))) [
            | inl e ↦ inr (rw (good, create_composition, e) refl)
            | inr e ↦
                elim (Bool-cases
                  (not (all_admitted admits_member (member_rows c.id 0 c.members)))) [
                    | inl f ↦ inr (rw (good, create_composition, e, f) refl)
                    | inr f ↦ inl (rw (good, create_composition, e, f) refl)
                  ]
          ]
  ]

module _ (referenced : String → FaultTables → Bool) where
  delete_spec-Done : (id : String) (t : FaultTables) → Done t (delete_spec referenced id t)
  unfolding delete_spec
  delete_spec-Done id t = elim (Bool-cases (has_key spec_key id t.specs)) [
    | inr gone ↦ inr (rw (delete_spec, gone) refl)
    | inl there ↦ elim (Bool-cases (referenced id t)) [
      | inl e ↦ inr (rw (delete_spec, there, e) refl)
      | inr e ↦ inl (rw (delete_spec, there, e) refl)
    ]
  ]

  delete_composition-Done :
      (id : String) (t : FaultTables) → Done t (delete_composition referenced id t)
  unfolding delete_composition
  delete_composition-Done id t = elim (Bool-cases (has_key composition_key id t.compositions)) [
    | inr gone ↦ inr (rw (delete_composition, gone) refl)
    | inl there ↦ elim (Bool-cases (referenced id t)) [
      | inl e ↦ inr (rw (delete_composition, there, e) refl)
      | inr e ↦ inl (rw (delete_composition, there, e) refl)
    ]
  ]

-- A refused reply leaves the tables.
abbrev Keeps {ℓ} : {A : Type ℓ} → FaultTables → Reply A × FaultTables → Type 0
Keeps t x = is_refusal x.0 ≡ true → x.1 ≡ t

module _ {ℓ} {A : Type ℓ} (t : FaultTables) where
  checked-Keeps :
      (c : Check) (rest : Reply A × FaultTables) → Keeps t rest → Keeps t (checked c t rest)
  checked-Keeps none rest keep h = keep h
  checked-Keeps (some cause) rest keep h = refl

  created-Keeps : (a : A) (x : Check × FaultTables) → Done t x → Keeps t (created a x)
  created-Keeps a (none, t') d h = cc
  created-Keeps a (some cause, t') (inl e) h = cc
  created-Keeps a (some cause, t') (inr e) h = e

  updated-Keeps : (a : A) (x : Check × FaultTables) → Done t x → Keeps t (updated a x)
  updated-Keeps a (none, t') d h = cc
  updated-Keeps a (some cause, t') (inl e) h = cc
  updated-Keeps a (some cause, t') (inr e) h = e

module _ {ℓ} (A : Type ℓ) (t : FaultTables) where
  deleted-Keeps : (x : Check × FaultTables) → Done t x → Keeps t (done_reply {A = A} x.0, x.1)
  unfolding done_reply
  deleted-Keeps (none, t') d h = cc
  deleted-Keeps (some cause, t') (inl e) h = cc
  deleted-Keeps (some cause, t') (inr e) h = e

-- A request of these handlers that writes.
pub data Request : Type 0 where
  spec_create : (fresh : String) (now : ℕ) → Option FaultSpec → Request
  spec_update : (id : String) → Option FaultSpec → Request
  spec_delete composition_delete : (id : String) → Request
  composition_create : (fresh : String) (now : ℕ) → Option FaultComposition → Request

module _ (admits : SpecRow → Bool) (admits_composition : CompositionRow → Bool)
    (admits_member : MemberRow → Bool) (referenced : String → FaultTables → Bool) where
  -- Whether the request is refused, and the tables after it.
  unfoldable pub handle : Request → FaultTables → Bool × FaultTables
  handle (spec_create fresh now body) t =
      let (reply, t') = handle_create_fault_spec admits fresh now body t in (is_refusal reply, t')
  handle (spec_update id body) t =
      let (reply, t') = handle_update_fault_spec admits id body t in (is_refusal reply, t')
  handle (spec_delete id) t =
      let (reply, t') = handle_delete_fault_spec referenced id t in (is_refusal reply, t')
  handle (composition_delete id) t =
      let (reply, t') = handle_delete_fault_composition referenced id t in (is_refusal reply, t')
  handle (composition_create fresh now body) t =
      let (reply, t') =
        handle_create_fault_composition admits_composition admits_member fresh now body t in
      (is_refusal reply, t')

  -- A request that is answered with an error leaves the specs, the compositions and their members as
  -- they were.
  pub handle_refused : (r : Request) (t : FaultTables) → (handle r t).0 ≡ true → (handle r t).1 ≡ t
  unfolding handle handle_create_fault_spec handle_update_fault_spec handle_delete_fault_spec
      handle_delete_fault_composition handle_create_fault_composition
  handle_refused (spec_create fresh now none) t h = refl
  handle_refused (spec_create fresh now (some body)) t h =
      let f = record body { id = or_fresh fresh body.id; created_at = now } in
      checked-Keeps t (validate_fault_spec f) (created f (create_spec admits f t))
        (created-Keeps t f (create_spec admits f t) (create_spec-Done admits f t)) h
  handle_refused (spec_update id none) t h = refl
  handle_refused (spec_update id (some body)) t h =
      let f = record body { id = id } in
      checked-Keeps t (validate_fault_spec f) (updated f (update_spec admits f t))
        (updated-Keeps t f (update_spec admits f t) (update_spec-Done admits f t)) h
  handle_refused (spec_delete id) t h =
      deleted-Keeps FaultSpec t (delete_spec referenced id t) (delete_spec-Done referenced id t) h
  handle_refused (composition_delete id) t h =
      deleted-Keeps FaultComposition t (delete_composition referenced id t)
        (delete_composition-Done referenced id t) h
  handle_refused (composition_create fresh now none) t h = refl
  handle_refused (composition_create fresh now (some body)) t h =
      let c = record body { id = or_fresh fresh body.id; created_at = now } in
      let x = create_composition admits_composition admits_member c t in
      checked-Keeps t (verdict (validate_composition (spec_resolver t) (composition_resolver t) c))
        (created c x)
        (created-Keeps t c x (create_composition-Done admits_composition admits_member c t)) h

module _ {ℓ} {A : Type ℓ} where
  created_inversion :
      (a b : A) (check : Check) (t t' : FaultTables) (x : Check × FaultTables)
      → checked check t (created a x) ≡ (json 201 b, t')
      → (check ≡ none) × (a ≡ b) × (x ≡ (none, t'))
  created_inversion a b none t t' (none, u) h =
      (refl, cc, ap (λ (p : Reply A × FaultTables). (none, p.1)) h)
  created_inversion a b none t t' (some cause, u) h = cc
  created_inversion a b (some cause) t t' x h = cc

verdict_ok : (a : Composition.Answer (Unit {0})) → verdict a ≡ none → a ≡ Composition.ok tt
verdict_ok (Composition.ok tt) h = refl
verdict_ok (Composition.err cause) h = cc
verdict_ok Composition.out_of_fuel h = cc

module _ (admits : CompositionRow → Bool) (admits_member : MemberRow → Bool) where
  -- A composition that the handler creates was accepted by ValidateComposition against the tables as
  -- they were, and a read of its ID is then answered with it and its members, if the members' rows
  -- had their compositions before.
  pub handle_create_fault_composition-get :
      (fresh : String) (now : ℕ) (body : Option FaultComposition) (c : FaultComposition)
      → (t t' : FaultTables) → HaveOwners t
      → handle_create_fault_composition admits admits_member fresh now body t ≡ (json 201 c, t')
      → (validate_composition (spec_resolver t) (composition_resolver t) c ≡ Composition.ok tt)
        × (handle_get_fault_composition c.id t' ≡ json 200 c)
  unfolding handle_create_fault_composition handle_get_fault_composition get_reply
  handle_create_fault_composition-get fresh now none c t t' owned h = cc
  handle_create_fault_composition-get fresh now (some body) c t t' owned h =
      let made = record body { id = or_fresh fresh body.id; created_at = now } in
      let validity : FaultComposition → Composition.Answer (Unit {0}) =
        λ x. validate_composition (spec_resolver t) (composition_resolver t) x in
      let (valid, same, stored) =
        created_inversion made c (verdict (validity made)) t t'
          (create_composition admits admits_member made t) h in
      let back = create_composition-get_composition admits admits_member made t t' owned stored in
      (
        ap validity (sym same) ∙ verdict_ok (validity made) valid,
        ap (λ x. get_reply (get_composition x.id t')) (sym same)
            ∙ ap get_reply back
            ∙ ap (λ x. json 200 x) same,
      )
