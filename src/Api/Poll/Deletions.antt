-- ===== src/Api/Poll/Deletions.antt =====
-- internal/api/fault_config_handler.go: the deletion of a long-running fault leaves no fault to apply
-- that was not to be applied before.
use mathlib.Core.List.{Memᴰ}
use manteion_go.Base.{
  ℕ, ◌≡◌, refl, ◌⊎◌, inl, inr, String, ◌==◌, ◌&&◌, leb, List, [], ◌∷◌, Bool-cases,
}
use manteion_go.Model.FaultConfig.{FaultConfig}
use manteion_go.FaultLife.{
  Faults, has_config, list_active_for_service, insert_by_creation, is_applied, delete_configs,
  delete_config,
}

-- For each service and time the second has no fault to apply that the first has not.
abbrev pub NoNewFaults : List FaultConfig → List FaultConfig → Type 0
NoNewFaults fs gs =
    (service : String) (t : ℕ) (f : FaultConfig)
    → Memᴰ f (list_active_for_service service t gs)
    → Memᴰ f (list_active_for_service service t fs)

inserted_mem :
    (f x : FaultConfig) (fs : List FaultConfig)
    → (x ≡ f) ⊎ Memᴰ x fs
    → Memᴰ x (insert_by_creation f fs)
unfolding insert_by_creation
inserted_mem f x [] (inl e) = Memᴰ.head e
inserted_mem f x [] (inr i) = elim i [ ]
inserted_mem f x (g ∷ fs) h = elim (Bool-cases (leb f.created_at g.created_at)) [
  | inl e ↦ rw (e) (elim h [ inl same ↦ Memᴰ.head same | inr i ↦ Memᴰ.tail i ])
  | inr e ↦ rw (e) (later (inserted_mem f x fs) h)
]
  where
    later :
        (((x ≡ f) ⊎ Memᴰ x fs) → Memᴰ x (insert_by_creation f fs))
        → ((x ≡ f) ⊎ Memᴰ x (g ∷ fs))
        → Memᴰ x (g ∷ insert_by_creation f fs)
    later rest (inl same) = Memᴰ.tail (rest (inl same))
    later rest (inr (Memᴰ.head e)) = Memᴰ.head e
    later rest (inr (Memᴰ.tail i)) = Memᴰ.tail (rest (inr i))

mem_inserted :
    (f x : FaultConfig) (fs : List FaultConfig)
    → Memᴰ x (insert_by_creation f fs)
    → (x ≡ f) ⊎ Memᴰ x fs
unfolding insert_by_creation
mem_inserted f x [] (Memᴰ.head e) = inl e
mem_inserted f x [] (Memᴰ.tail i) = elim i [ ]
mem_inserted f x (g ∷ fs) i = elim (Bool-cases (leb f.created_at g.created_at)) [
  | inl e ↦ first (rw (e) at i)
  | inr e ↦ later (mem_inserted f x fs) (rw (e) at i)
]
  where
    first : Memᴰ x (f ∷ g ∷ fs) → (x ≡ f) ⊎ Memᴰ x (g ∷ fs)
    first (Memᴰ.head e) = inl e
    first (Memᴰ.tail j) = inr j

    later :
        (Memᴰ x (insert_by_creation f fs) → (x ≡ f) ⊎ Memᴰ x fs)
        → Memᴰ x (g ∷ insert_by_creation f fs)
        → (x ≡ f) ⊎ Memᴰ x (g ∷ fs)
    later rest (Memᴰ.head e) = inr (Memᴰ.head e)
    later rest (Memᴰ.tail j) = elim (rest j) [ inl e ↦ inl e | inr k ↦ inr (Memᴰ.tail k) ]

deleted_NoNewFaults : (id : String) (fs : List FaultConfig) → NoNewFaults fs (delete_configs id fs)
unfolding delete_configs list_active_for_service
deleted_NoNewFaults id [] service t x i = i
deleted_NoNewFaults id (f ∷ fs) service t x i =
    let rest = deleted_NoNewFaults id fs service t x in
    elim (Bool-cases (f.id == id)) [
      | inl gone ↦
          let j = rest (rw (gone) at i) in
          elim (Bool-cases (f.service == service && is_applied t f)) [
            | inl shown ↦
                rw (shown) (inserted_mem f x (list_active_for_service service t fs) (inr j))
            | inr hidden ↦ rw (hidden) j
          ]
      | inr kept ↦ elim (Bool-cases (f.service == service && is_applied t f)) [
        | inl shown ↦
            elim (mem_inserted f x (list_active_for_service service t (delete_configs id fs))
              (rw (kept, shown) at i)) [
                | inl e ↦
                    rw (shown) (inserted_mem f x (list_active_for_service service t fs) (inl e))
                | inr j ↦
                    rw (shown)
                      (inserted_mem f x (list_active_for_service service t fs) (inr (rest j)))
              ]
        | inr hidden ↦ rw (hidden) (rest (rw (kept, hidden) at i))
      ]
    ]

pub delete_config-kept :
    (id : String) (s : Faults)
    → NoNewFaults s.configs (delete_config id s).1.configs
      × ((delete_config id s).1.version ≡ s.version)
unfolding delete_config
delete_config-kept id s = elim (Bool-cases (has_config id s.configs)) [
  | inl there ↦ rw (delete_config, there) (deleted_NoNewFaults id s.configs, refl)
  | inr gone ↦ rw (delete_config, gone) (λ service t f i. i, refl)
]
