-- ===== src/Store/Tables/Orders.antt =====
-- internal/store: what the conditions and the orders of queries keep, and what a scan reads.
use manteion_go.Base.{
  suc, length, ◌≡◌, refl, sym, ap, ◌∙◌, inl, inr, Bool, true, false, List, [], ◌∷◌, ◌++◌,
  if◌then◌else◌, Bool-cases, All,
}
use mathlib.Core.List.Perm
use mathlib.Core.List.{Perm}
use manteion_go.Base.Result.{Result, ok, ◌>>=◌, chain_inversion}
use manteion_go.Store.Tables.{select, insert_by, order_by, scan_all}

module _ {ℓ} {Row : Type ℓ} (precedes : Row → Row → Bool) where
  insert_by-Perm : (r : Row) (rs : List Row) → Perm (insert_by precedes r rs) (r ∷ rs)
  unfolding insert_by
  insert_by-Perm r [] = Perm.refl (r ∷ [])
  insert_by-Perm r (x ∷ xs) = elim (Bool-cases (precedes r x)) [
    | inl e ↦ rw (e) (Perm.refl (r ∷ x ∷ xs))
    | inr e ↦ rw (e) (Perm.trans (Perm.cons x (insert_by-Perm r xs)) (Perm.swap r x xs))
  ]

  -- An order shows the same rows.
  pub order_by-Perm : (rs : List Row) → Perm (order_by precedes rs) rs
  unfolding order_by
  order_by-Perm [] = Perm.refl []
  order_by-Perm (r ∷ rs) =
      Perm.trans (insert_by-Perm r (order_by precedes rs)) (Perm.cons r (order_by-Perm rs))

  -- Each row precedes the next.
  abbrev pub Follows : Row → List Row → Type 0
  Follows r [] = Unit
  Follows r (x ∷ xs) = precedes r x ≡ true

  abbrev pub IsOrdered : List Row → Type 0
  IsOrdered [] = Unit
  IsOrdered (r ∷ rs) = Follows r rs × IsOrdered rs

  module _ (total : (r x : Row) → precedes r x ≡ false → precedes x r ≡ true) where
    insert_by-Follows :
        (y r : Row) (rs : List Row)
        → precedes y r ≡ true
        → Follows y rs
        → Follows y (insert_by precedes r rs)
    unfolding insert_by
    insert_by-Follows y r [] h _ = h
    insert_by-Follows y r (x ∷ xs) h k = elim (Bool-cases (precedes r x)) [
      | inl e ↦ rw (e) h
      | inr e ↦ rw (e) k
    ]

    insert_by-IsOrdered :
        (r : Row) (rs : List Row) → IsOrdered rs → IsOrdered (insert_by precedes r rs)
    unfolding insert_by
    insert_by-IsOrdered r [] h = (tt, tt)
    insert_by-IsOrdered r (x ∷ xs) (h, hs) = elim (Bool-cases (precedes r x)) [
      | inl e ↦ rw (e) (e, (h, hs))
      | inr e ↦ rw (e) (insert_by-Follows x r xs (total r x e) h, insert_by-IsOrdered r xs hs)
    ]

    -- An order shows the rows in order.
    pub order_by-IsOrdered : (rs : List Row) → IsOrdered (order_by precedes rs)
    unfolding order_by
    order_by-IsOrdered [] = tt
    order_by-IsOrdered (r ∷ rs) =
        insert_by-IsOrdered r (order_by precedes rs) (order_by-IsOrdered rs)

-- A condition on two tables together.
pub select-append {ℓ} :
    {Row : Type ℓ} (p : Row → Bool) (xs ys : List Row)
    → select p (xs ++ ys) ≡ select p xs ++ select p ys
unfolding select
select-append p [] ys = refl
select-append p (x ∷ xs) ys = elim (Bool-cases (p x)) [
  | inl e ↦ rw (e) (ap (λ l. x ∷ l) (select-append p xs ys))
  | inr e ↦ rw (e) (select-append p xs ys)
]

-- What holds of the rows that stay.
pub All-select {ℓ κ μ} :
    {Row : Type ℓ} (P : Row → Type κ) (Q : Row → Type μ) (p : Row → Bool) (rs : List Row)
    → ((r : Row) → p r ≡ true → P r → Q r)
    → All P rs
    → All Q (select p rs)
unfolding select
All-select P Q p [] f h = tt
All-select P Q p (r ∷ rs) f (h, hs) = elim (Bool-cases (p r)) [
  | inl e ↦ rw (e) (f r e h, All-select P Q p rs f hs)
  | inr e ↦ rw (e) (All-select P Q p rs f hs)
]

select_yes {ℓ} :
    {Row : Type ℓ} (p : Row → Bool) (r : Row) (rs : List Row)
    → p r ≡ true
    → select p (r ∷ rs) ≡ r ∷ select p rs
unfolding select
select_yes p r rs e = rw (e) refl

select_no {ℓ} :
    {Row : Type ℓ} (p : Row → Bool) (r : Row) (rs : List Row)
    → p r ≡ false
    → select p (r ∷ rs) ≡ select p rs
unfolding select
select_no p r rs e = rw (e) refl

-- A condition and an order may be taken either way round.
module _ {ℓ} {Row : Type ℓ} (precedes : Row → Row → Bool)
    (total : (r x : Row) → precedes r x ≡ false → precedes x r ≡ true)
    (trans : (r x y : Row) → precedes r x ≡ true → precedes x y ≡ true → precedes r y ≡ true)
    (p : Row → Bool) where
  precedes_all :
      (r x : Row) (xs : List Row)
      → precedes r x ≡ true
      → IsOrdered precedes (x ∷ xs)
      → All (λ y. precedes r y ≡ true) (x ∷ xs)
  precedes_all r x [] h _ = (h, tt)
  precedes_all r x (y ∷ ys) h (k, ks) = (h, precedes_all r y ys (trans r x y h k) ks)

  insert_first :
      (r : Row) (xs : List Row)
      → All (λ y. precedes r y ≡ true) xs
      → insert_by precedes r xs ≡ r ∷ xs
  unfolding insert_by
  insert_first r [] _ = refl
  insert_first r (x ∷ xs) (h, _) = rw (h) refl

  select-insert_by :
      (r : Row) (xs : List Row)
      → IsOrdered precedes xs
      → p r ≡ true
      → select p (insert_by precedes r xs) ≡ insert_by precedes r (select p xs)
  unfolding select insert_by
  select-insert_by r [] _ h = rw (h) refl
  select-insert_by r (x ∷ xs) (k, ks) h = elim (Bool-cases (precedes r x)) [
    | inl e ↦
        let all =
          All-select (λ y. precedes r y ≡ true) (λ y. precedes r y ≡ true) p (x ∷ xs) (λ y q a. a)
            (precedes_all r x xs e (k, ks)) in
        let front : select p (insert_by precedes r (x ∷ xs)) ≡ r ∷ select p (x ∷ xs) =
          rw (e, h) refl in
        front ∙ sym (insert_first r (select p (x ∷ xs)) all)
    | inr e ↦ elim (Bool-cases (p x)) [
      | inl q ↦ rw (e, q, e) (ap (λ l. x ∷ l) (select-insert_by r xs ks h))
      | inr q ↦ rw (e, q) (select-insert_by r xs ks h)
    ]
  ]

  select-skip :
      (r : Row) (xs : List Row) → p r ≡ false → select p (insert_by precedes r xs) ≡ select p xs
  unfolding select insert_by
  select-skip r [] h = rw (h) refl
  select-skip r (x ∷ xs) h = elim (Bool-cases (precedes r x)) [
    | inl e ↦ rw (e, h) refl
    | inr e ↦ rw (e) (ap (λ l. if p x then x ∷ l else l) (select-skip r xs h))
  ]

  pub select-order_by :
      (rs : List Row) → select p (order_by precedes rs) ≡ order_by precedes (select p rs)
  unfolding order_by select
  select-order_by [] = refl
  select-order_by (r ∷ rs) = elim (Bool-cases (p r)) [
    | inl e ↦
        select-insert_by r (order_by precedes rs) (order_by-IsOrdered precedes total rs) e
        ∙ ap (λ l. insert_by precedes r l) (select-order_by rs)
        ∙ sym (ap (λ l. order_by precedes l) (select_yes p r rs e))
    | inr e ↦
        select-skip r (order_by precedes rs) e
        ∙ select-order_by rs
        ∙ sym (ap (λ l. order_by precedes l) (select_no p r rs e))
  ]

-- Where all rows can be read, those of a condition are read as the condition's on what is read.
pub scan_all-select {ℓ κ} :
    {Row : Type ℓ} {A : Type κ} (scan : Row → Result A) (p : Row → Bool) (q : A → Bool)
    → ((row : Row) (a : A) → scan row ≡ ok a → q a ≡ p row)
    → (rows : List Row) (items : List A) → scan_all scan rows ≡ ok items
    → scan_all scan (select p rows) ≡ ok (select q items)
unfolding scan_all select
scan_all-select scan p q agree [] items h = let same : items ≡ [] = cc in rw (same) refl
scan_all-select scan p q agree (row ∷ rows) items h =
    let (a, e, h1) = chain_inversion (scan row) (λ x. scan_all scan rows >>= λ xs. ok (x ∷ xs)) h in
    let (rest, es, h2) = chain_inversion (scan_all scan rows) (λ xs. ok (a ∷ xs)) h1 in
    let same : items ≡ a ∷ rest = cc in
    let tail = scan_all-select scan p q agree rows rest es in
    let same_test = agree row a e in
    elim (Bool-cases (p row)) [
      | inl t ↦ rw (same, same_test, t, e, tail) refl
      | inr t ↦ rw (same, same_test, t, tail) refl
    ]

pub length-insert_by {ℓ} :
    {Row : Type ℓ} (precedes : Row → Row → Bool) (r : Row) (rs : List Row)
    → length (insert_by precedes r rs) ≡ suc (length rs)
unfolding insert_by
length-insert_by precedes r [] = refl
length-insert_by precedes r (x ∷ xs) = elim (Bool-cases (precedes r x)) [
  | inl e ↦ rw (e) refl
  | inr e ↦ rw (e) (ap (λ n. suc n) (length-insert_by precedes r xs))
]

pub length-order_by {ℓ} :
    {Row : Type ℓ} (precedes : Row → Row → Bool) (rs : List Row)
    → length (order_by precedes rs) ≡ length rs
unfolding order_by
length-order_by precedes [] = refl
length-order_by precedes (r ∷ rs) =
    length-insert_by precedes r (order_by precedes rs)
    ∙ ap (λ n. suc n) (length-order_by precedes rs)

pub length-scan_all {ℓ κ} :
    {Row : Type ℓ} {A : Type κ} (scan : Row → Result A) (rows : List Row) (items : List A)
    → scan_all scan rows ≡ ok items
    → length items ≡ length rows
unfolding scan_all
length-scan_all scan [] items h = let same : items ≡ [] = cc in rw (same) refl
length-scan_all scan (row ∷ rows) items h =
    let (a, e, h1) = chain_inversion (scan row) (λ x. scan_all scan rows >>= λ xs. ok (x ∷ xs)) h in
    let (rest, es, h2) = chain_inversion (scan_all scan rows) (λ xs. ok (a ∷ xs)) h1 in
    let same : items ≡ a ∷ rest = cc in
    rw (same) (ap (λ n. suc n) (length-scan_all scan rows rest es))
