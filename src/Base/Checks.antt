-- ===== src/Base/Checks.antt =====
-- Go's `error` values, and the chains of `if … { return err }` of the validation methods.
use Prim.Native.Nat.{ℕ}
use Prim.Native.String.{String}
use mathlib.Core.Path.{◌≡◌, refl}
use mathlib.Core.Logic.{◌↔◌}
use mathlib.Core.Bool.{Bool, true, false}
use mathlib.Core.Option.{Option, none, some}
use mathlib.Core.List.{List, [], ◌∷◌}
use manteion_go.Base.Lists.{All}

-- `errors.New(text)`, and `fmt.Errorf(format, …)` by its format text: with its text arguments, with
-- a wrapped cause, or with an index and a cause. `new format` leaves out the values that are printed
-- into the text, which no code reads back.
pub data Error : Type 0 where
  new : String → Error
  errorf : String → List String → Error
  wrap : String → Error → Error
  wrap_at : String → ℕ → Error → Error

-- A method that returns `error`: `none` is `nil`.
abbrev pub Check : Type 0
Check = Option Error

-- `if bad { return e }`
abbrev pub reject : Bool → Error → Check
reject true e = some e
reject false e = none

-- The rest of a method runs only where no check before it returned.
infixl 5 ◌>>◌
abbrev pub ◌>>◌ : Check → Check → Check
some e >> k = some e
none >> k = k

-- `if err := m; err != nil { return fmt.Errorf(text, err) }`
abbrev pub context : (Error → Error) → Check → Check
context f none = none
context f (some e) = some (f e)

pub >>-eq-none : (m k : Check) → ((m >> k) ≡ none) ↔ ((m ≡ none) × (k ≡ none))
>>-eq-none none k = (λ e. (refl, e), λ p. p.1)
>>-eq-none (some e) k = (λ p. cc, λ p. p.0)

pub reject-eq-none : (b : Bool) (e : Error) → (reject b e ≡ none) ↔ (b ≡ false)
reject-eq-none true e = (λ p. cc, λ p. cc)
reject-eq-none false e = (λ p. refl, λ p. refl)

pub context-eq-none : (f : Error → Error) (m : Check) → (context f m ≡ none) ↔ (m ≡ none)
context-eq-none f none = (λ p. refl, λ p. refl)
context-eq-none f (some e) = (λ p. cc, λ p. cc)

-- A chain of checks, and its last.
abbrev pub chain : List Check → Check → Check
chain [] k = k
chain (m ∷ ms) k = m >> chain ms k

-- A chain that passes passes each of its checks.
pub chain_passed :
    (ms : List Check) (k : Check) → chain ms k ≡ none → All (λ m. m ≡ none) ms × (k ≡ none)
chain_passed [] k h = (tt, h)
chain_passed (none ∷ ms) k h = let (all, last) = chain_passed ms k h in ((refl, all), last)
chain_passed (some e ∷ ms) k h = cc

pub check_passed : (m k : Check) → (m >> k) ≡ none → (m ≡ none) × (k ≡ none)
check_passed m k h = (>>-eq-none m k).0 h
