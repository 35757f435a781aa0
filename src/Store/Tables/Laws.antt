-- ===== src/Store/Tables/Laws.antt =====
-- internal/store: what a query finds after a statement, and what an order keeps.
use manteion_go.Base.{
  ◌≡◌, ◌≢◌, refl, sym, ap, ◌∙◌, inl, inr, String, ◌==◌, Bool, true, false, Option, none, some, List,
  [], ◌∷◌, if◌then◌else◌, Bool-cases, text-cases, text_eq, text_ne, text_self,
}
use manteion_go.Store.Rules.{not_found}
use manteion_go.Store.Tables.{find_key, has_key, affected_or_not_found, update_key, delete_key}

module _ {ℓ} {Row : Type ℓ} (key : Row → String) where
  -- The first row of a table is found, or the look-up goes on.
  pub find_key_first :
      (id : String) (r : Row) (rs : List Row)
      → (key r == id) ≡ true
      → find_key key id (r ∷ rs) ≡ some r
  unfolding find_key
  find_key_first id r rs e = rw (e) refl

  pub find_key_next :
      (id : String) (r : Row) (rs : List Row)
      → (key r == id) ≡ false
      → find_key key id (r ∷ rs) ≡ find_key key id rs
  unfolding find_key
  find_key_next id r rs e = rw (e) refl

  -- A row that is found has the ID that was asked for.
  pub find_key_same :
      (id : String) (rs : List Row) (r : Row) → find_key key id rs ≡ some r → key r ≡ id
  unfolding find_key
  find_key_same id [] r h = cc
  find_key_same id (x ∷ rs) r h = elim (Bool-cases (key x == id)) [
    | inl e ↦
        let h' = rw (e) at h in let same : x ≡ r = cc in ap key (sym same) ∙ text_eq (key x) id e
    | inr e ↦ let h' = rw (e) at h in find_key_same id rs r h'
  ]

  -- An update is read back, and its row alone.
  pub find-update_key :
      (id : String) (f : Row → Row) (rs : List Row) (old : Row)
      → ((r : Row) → key (f r) ≡ key r)
      → find_key key id rs ≡ some old
      → find_key key id (update_key key id f rs) ≡ some (f old)
  unfolding find_key update_key
  find-update_key id f [] old keep h = cc
  find-update_key id f (r ∷ rs) old keep h = elim (Bool-cases (key r == id)) [
    | inl e ↦
        let h' = rw (e) at h in
        let same : r ≡ old = cc in
        let kept : (key (f r) == id) ≡ true = ap (λ x. x == id) (keep r) ∙ e in
        rw (e, kept) (ap (λ x. some (f x)) same)
    | inr e ↦ let h' = rw (e) at h in rw (e, e) (find-update_key id f rs old keep h')
  ]

  pub find-update_key_ne :
      (id j : String) (f : Row → Row) (rs : List Row)
      → ((r : Row) → key (f r) ≡ key r)
      → id ≢ j
      → find_key key j (update_key key id f rs) ≡ find_key key j rs
  unfolding find_key update_key
  find-update_key_ne id j f [] keep ne = refl
  find-update_key_ne id j f (r ∷ rs) keep ne = elim (text-cases (key r) id) [
    | inl (same, e) ↦
        let other : (key r == j) ≡ false = text_ne (key r) j (λ p. ne (sym same ∙ p)) in
        let other' : (key (f r) == j) ≡ false = ap (λ x. x == j) (keep r) ∙ other in
        rw (e, other, other') (find-update_key_ne id j f rs keep ne)
    | inr (_, e) ↦
        rw (e) (ap (λ x. if key r == j then some r else x) (find-update_key_ne id j f rs keep ne))
  ]

  -- No row of the ID is left by a delete, and the others are.
  pub find-delete_key :
      (id : String) (rs : List Row) → find_key key id (delete_key key id rs) ≡ none
  unfolding find_key delete_key
  find-delete_key id [] = refl
  find-delete_key id (r ∷ rs) = elim (Bool-cases (key r == id)) [
    | inl e ↦ rw (e) (find-delete_key id rs)
    | inr e ↦ rw (e, e) (find-delete_key id rs)
  ]

  pub find-delete_key_ne :
      (id j : String) (rs : List Row)
      → id ≢ j
      → find_key key j (delete_key key id rs) ≡ find_key key j rs
  unfolding find_key delete_key
  find-delete_key_ne id j [] ne = refl
  find-delete_key_ne id j (r ∷ rs) ne = elim (text-cases (key r) id) [
    | inl (same, e) ↦
        let other : (key r == j) ≡ false = text_ne (key r) j (λ p. ne (sym same ∙ p)) in
        rw (e, other) (find-delete_key_ne id j rs ne)
    | inr (_, e) ↦
        rw (e) (ap (λ x. if key r == j then some r else x) (find-delete_key_ne id j rs ne))
  ]

abbrev is_there {ℓ} : {Row : Type ℓ} → Option Row → Bool
is_there o = elim o [ none ↦ false | some _ ↦ true ]

-- A row stays when another comes, and when one of another ID goes.
module _ {ℓ} {Row : Type ℓ} (key : Row → String) where
  pub has_key_first : (r : Row) (rs : List Row) → has_key key (key r) (r ∷ rs) ≡ true
  has_key_first r rs = ap is_there (find_key_first key (key r) r rs (text_self (key r)))

  pub has_key_next :
      (id : String) (r : Row) (rs : List Row)
      → has_key key id rs ≡ true
      → has_key key id (r ∷ rs) ≡ true
  has_key_next id r rs h = elim (Bool-cases (key r == id)) [
    | inl e ↦ ap is_there (find_key_first key id r rs e)
    | inr e ↦ ap is_there (find_key_next key id r rs e) ∙ h
  ]

  pub has-delete_key :
      (id j : String) (rs : List Row)
      → id ≢ j
      → has_key key j rs ≡ true
      → has_key key j (delete_key key id rs) ≡ true
  has-delete_key id j rs ne h = ap is_there (find-delete_key_ne key id j rs ne) ∙ h

  same_key :
      (b : Bool) (f : Row → Row) (r : Row) → key (f r) ≡ key r → key (if b then f r else r) ≡ key r
  same_key true f r keep = keep
  same_key false f r keep = refl

  -- An update loses no row and brings none.
  pub has-update_key :
      (id j : String) (f : Row → Row) (rs : List Row)
      → ((r : Row) → key (f r) ≡ key r)
      → has_key key j (update_key key id f rs) ≡ has_key key j rs
  unfolding update_key find_key
  has-update_key id j f [] keep = refl
  has-update_key id j f (r ∷ rs) keep =
      let x = if key r == id then f r else r in
      let same : (key x == j) ≡ (key r == j) =
        ap (λ k. k == j) (same_key (key r == id) f r (keep r)) in
      let rest = has-update_key id j f rs keep in
      elim (Bool-cases (key r == j)) [
        | inl e ↦
            ap is_there (find_key_first key j x (update_key key id f rs) (same ∙ e))
            ∙ sym (ap is_there (find_key_first key j r rs e))
        | inr e ↦
            ap is_there (find_key_next key j x (update_key key id f rs) (same ∙ e))
            ∙ rest
            ∙ sym (ap is_there (find_key_next key j r rs e))
      ]

  pub affected_there :
      (id : String) (rs : List Row) (r : Row)
      → find_key key id rs ≡ some r
      → affected_or_not_found key id rs ≡ none
  affected_there id rs r h = ap (λ o. if is_there o then none else some not_found) h
