-- ===== src/Store/Workflows/Paging.antt =====
-- internal/store/workflow_repo.go: the page that List answers with, and its total.
use manteion_go.Base.{
  ℕ, zero, suc, ◌-◌, ◌≤◌, ◌<◌, ◌≡◌, refl, sym, ap, ◌∙◌, String, Bool, true, false, List, [], ◌∷◌,
  length, is_nil, ◌++◌, inl, inr, Bool-cases, arith, if◌then◌else◌,
}
use Prim.Native.Nat.{min}
use mathlib.Core.Path.{subst}
use mathlib.Core.List.{Perm}
use manteion_go.Base.Int.{ℤ, pos, negsuc}
use manteion_go.Base.Result.{ok, chain_inversion}
use manteion_go.Model.Sdk.{Workflow}
use manteion_go.Store.Tables.{order_by, scan_all}
use manteion_go.Store.Tables.Orders.{
  IsOrdered, order_by-Perm, order_by-IsOrdered, length-order_by, length-scan_all,
}
use manteion_go.Store.Workflows.{
  TargetCodec, WorkflowRow, drop_rows, take_rows, page_limit, page_offset, newest_first, list_page,
  scan_workflow,
}

length-drop_rows {ℓ} : {A : Type ℓ} (n : ℕ) (xs : List A) → length (drop_rows n xs) ≡ length xs - n
unfolding drop_rows
length-drop_rows zero xs = omega arith
length-drop_rows (suc n) [] = omega arith
length-drop_rows (suc n) (x ∷ xs) = omega (arith, length-drop_rows n xs)

length-take_rows {ℓ} :
    {A : Type ℓ} (n : ℕ) (xs : List A) → length (take_rows n xs) ≡ min n (length xs)
unfolding take_rows
length-take_rows zero xs = omega arith
length-take_rows (suc n) [] = omega arith
length-take_rows (suc n) (x ∷ xs) = omega (arith, length-take_rows n xs)

limit_bounds : (limit : ℤ) → (0 < page_limit limit) × (page_limit limit ≤ 200)
limit_bounds (pos n) = (ground arith, ground arith)
limit_bounds (negsuc n) = (ground arith, ground arith)

nil_length {ℓ} : {A : Type ℓ} (xs : List A) → 0 < length xs → is_nil xs ≡ false
nil_length [] h = ground arith
nil_length (x ∷ xs) h = refl

length_nil {ℓ} : {A : Type ℓ} (xs : List A) → length xs ≡ 0 → is_nil xs ≡ true
length_nil [] h = refl
length_nil (x ∷ xs) h = ground arith

take-drop_rows {ℓ} : {A : Type ℓ} (n : ℕ) (xs : List A) → xs ≡ take_rows n xs ++ drop_rows n xs
unfolding take_rows drop_rows
take-drop_rows zero xs = refl
take-drop_rows (suc n) [] = refl
take-drop_rows (suc n) (x ∷ xs) = ap (λ l. x ∷ l) (take-drop_rows n xs)

module _ (codec : TargetCodec) (text_le : String → String → Bool) where
  newest_first_total :
      ((a b : String) → text_le a b ≡ false → text_le b a ≡ true)
      → (r x : WorkflowRow) → newest_first codec text_le r x ≡ false
      → newest_first codec text_le x r ≡ true
  newest_first_total text_total r x h = elim (Bool-cases (text_le r.id x.id)) [
    | inl e ↦ let h' = rw (e) at h in ground arith
    | inr e ↦ let back = text_total r.id x.id e in ground arith
  ]

  -- All rows in order, the newest first, are those before the page, the page's, and those after it.
  pub record IsPage (offset : ℕ) (rows : List WorkflowRow) (ws : List Workflow) : Type 0 where
    pub before : List WorkflowRow
    pub page : List WorkflowRow
    pub after : List WorkflowRow
    pub same_rows : Perm (before ++ (page ++ after)) rows
    pub in_order : IsOrdered (newest_first codec text_le) (before ++ (page ++ after))
    pub skipped : length before ≡ min offset (length rows)
    pub read : scan_all (scan_workflow codec) page ≡ ok ws

  listed-IsPage :
      (limit offset : ℕ) (rows : List WorkflowRow) (ws : List Workflow)
      → ((a b : String) → text_le a b ≡ false → text_le b a ≡ true)
      → scan_all
          (scan_workflow codec)
          (take_rows limit (drop_rows offset (order_by (newest_first codec text_le) rows)))
        ≡ ok ws
      → IsPage offset rows ws
  listed-IsPage limit offset rows ws text_total h =
      let ordered = order_by (newest_first codec text_le) rows in
      let rest = drop_rows offset ordered in
      let parts : ordered
          ≡ take_rows offset ordered ++ (take_rows limit rest ++ drop_rows limit rest) =
        take-drop_rows offset ordered
        ∙ ap (λ l. take_rows offset ordered ++ l) (take-drop_rows limit rest) in
      record {
        before = take_rows offset ordered;
        page = take_rows limit rest;
        after = drop_rows limit rest;
        same_rows =
            subst (λ l. Perm l rows) parts (order_by-Perm (newest_first codec text_le) rows);
        in_order =
            subst (IsOrdered (newest_first codec text_le)) parts (
              order_by-IsOrdered (newest_first codec text_le) (newest_first_total text_total) rows);
        skipped =
            length-take_rows offset ordered
            ∙ ap (λ n. min offset n) (length-order_by (newest_first codec text_le) rows);
        read = h;
      }

  -- The page that List answers with is read from the rows from the offset on, in the order of their
  -- creation, the newest first, and of their IDs; they are at most as many as the limit and never more
  -- than 200. Its total is the number of all workflows if the offset is below that, and 0 if not. The
  -- order of texts is total.
  pub list_page_lem :
      (limit offset : ℤ) (rows : List WorkflowRow) (ws : List Workflow) (total : ℕ)
      → ((a b : String) → text_le a b ≡ false → text_le b a ≡ true)
      → list_page codec text_le limit offset rows ≡ ok (ws, total)
      → IsPage (page_offset offset) rows ws
        × (length ws ≡ min (page_limit limit) (length rows - page_offset offset))
        × (length ws ≤ 200)
        × (page_offset offset < length rows → total ≡ length rows)
        × (length rows ≤ page_offset offset → total ≡ 0)
  unfolding list_page
  list_page_lem limit offset rows ws total text_total h =
      let ordered = order_by (newest_first codec text_le) rows in
      let rest = drop_rows (page_offset offset) ordered in
      let page = take_rows (page_limit limit) rest in
      let (items, scanned, h1) =
        chain_inversion (scan_all (scan_workflow codec) page)
          (λ xs. ok (xs, if is_nil page then 0 else length rows)) h in
      let same : items ≡ ws = cc in
      let counted : (if is_nil page then 0 else length rows) ≡ total = cc in
      let size : length ws ≡ min (page_limit limit) (length rows - page_offset offset) =
        ap length (sym same)
        ∙ length-scan_all (scan_workflow codec) page items scanned
        ∙ length-take_rows (page_limit limit) rest
        ∙ ap (λ n. min (page_limit limit) n)
            (length-drop_rows (page_offset offset) ordered
              ∙ ap (λ n. n - page_offset offset)
                  (length-order_by (newest_first codec text_le) rows)) in
      let same_size : length ws ≡ length page =
        ap length (sym same) ∙ length-scan_all (scan_workflow codec) page items scanned in
      let bounds = limit_bounds limit in
      (
        listed-IsPage (page_limit limit) (page_offset offset) rows ws text_total
            (scanned ∙ ap (λ l. ok l) same),
        size,
        omega (arith, size, bounds),
        λ below.
            sym counted ∙ rw (nil_length page (omega (arith, size, same_size, bounds, below))) refl,
        λ beyond. sym counted ∙ rw (length_nil page (omega (arith, size, same_size, beyond))) refl,
      )
