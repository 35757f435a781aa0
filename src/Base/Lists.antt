-- ===== src/Base/Lists.antt =====
-- Lists measured by native numbers, under the library's names, and membership of texts.
use Prim.Native.Nat.{ℕ, zero, suc, ◌+◌}
use Prim.Native.String.{String}
use mathlib.Core.Path.{◌≡◌, subst}
use mathlib.Core.Bool.{Bool, true, false, ◌||◌}
use mathlib.Core.Option.{Option, none, some}
use mathlib.Core.List.{List, [], ◌∷◌, ◌++◌, Perm, perm_middle, append-nil, append_assoc}
use mathlib.Core.List.Perm
use native.Mathlib.Omega.{arith}
use text.Mathlib.Text.{◌==◌}

module _ {ℓ} {A : Type ℓ} where
  abbrev pub length : List A → ℕ
  length [] = 0
  length (x ∷ xs) = suc (length xs)

  abbrev pub get_elem? : List A → ℕ → Option A
  get_elem? [] i = none
  get_elem? (x ∷ xs) zero = some x
  get_elem? (x ∷ xs) (suc i) = get_elem? xs i

  pub length-append : (xs ys : List A) → length (xs ++ ys) ≡ length xs + length ys
  length-append [] ys = omega arith
  length-append (x ∷ xs) ys = omega (arith, length-append xs ys)

  -- An item may be taken from the front to the end.
  pub put_last : (a : A) (l order : List A) → Perm (a ∷ (l ++ order)) (l ++ (order ++ a ∷ []))
  put_last a l order = subst (Perm (a ∷ (l ++ order))) (append_assoc l order (a ∷ [])) (
      Perm.symm (
        subst (λ m. Perm ((l ++ order) ++ a ∷ []) (a ∷ m)) (append-nil (l ++ order))
          (perm_middle (l ++ order) [])))

  -- The items of a list satisfy a predicate; it computes to a tuple.
  abbrev pub All {κ} : (A → Type κ) → List A → Type κ
  All P [] = Unit
  All P (x ∷ xs) = P x × All P xs

  pub All-weaken {κ μ} :
      {P : A → Type κ} {Q : A → Type μ} (xs : List A) → ((x : A) → P x → Q x) → All P xs → All Q xs
  All-weaken [] f h = tt
  All-weaken (x ∷ xs) f (h, hs) = (f x h, All-weaken xs f hs)

  pub All-append {κ} : (P : A → Type κ) (xs ys : List A) → All P xs → All P ys → All P (xs ++ ys)
  All-append P [] ys h k = k
  All-append P (x ∷ xs) ys (h, hs) k = (h, All-append P xs ys hs k)

  -- An item is in a list.
  abbrev pub In : A → List A → Type ℓ
  In a xs = (before : List A) × (after : List A) × (xs ≡ before ++ a ∷ after)

  abbrev pub is_nil : List A → Bool
  is_nil [] = true
  is_nil (x ∷ xs) = false

-- `for _, t := range texts { if t == s { found } }`, and the look-up in a `map[string]bool` literal.
abbrev pub has_text : String → List String → Bool
has_text s [] = false
has_text s (t ∷ ts) = s == t || has_text s ts
