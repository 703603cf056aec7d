-- ===== src/Base/Arrays.antt =====
-- Go slices of a fixed length: reading by index with `none` out of range, writing by index.
use Prim.Native.Nat.{ℕ, zero, suc, ◌<◌, ◌≤◌}
use mathlib.Core.Path.{◌≡◌, refl, ap}
use mathlib.Core.Bool.{◌&&◌}
use mathlib.Core.Option.{Option, none, some}
use mathlib.Core.List.{List, [], ◌∷◌}
use native.Mathlib.Omega.{arith}
use oc_mirror_operator.Base.Tests.{if◌then◌else◌, ltb, eqb}
use oc_mirror_operator.Base.Lists.{length}

module _ {ℓ} {A : Type ℓ} where
  unfoldable pub get_elem? : List A → ℕ → Option A
  get_elem? [] i = none
  get_elem? (x ∷ xs) zero = some x
  get_elem? (x ∷ xs) (suc i) = get_elem? xs i

  unfoldable pub set : List A → ℕ → A → List A
  set [] i new = []
  set (old ∷ xs) zero new = new ∷ xs
  set (old ∷ xs) (suc i) new = old ∷ set xs i new

  unfoldable pub replicate : ℕ → A → List A
  replicate zero a = []
  replicate (suc n) a = a ∷ replicate n a

  pub length-set : (xs : List A) (i : ℕ) (new : A) → length (set xs i new) ≡ length xs
  unfolding set
  length-set [] i new = refl
  length-set (old ∷ xs) zero new = refl
  length-set (old ∷ xs) (suc i) new = ap suc (length-set xs i new)

  pub get_elem?-set :
      (xs : List A) (i j : ℕ) (new : A)
      → get_elem? (set xs i new) j
        ≡ (if eqb i j && ltb j (length xs) then some new else get_elem? xs j)
  unfolding get_elem? set
  get_elem?-set [] i j new = ground arith
  get_elem?-set (old ∷ xs) zero zero new = ground arith
  get_elem?-set (old ∷ xs) zero (suc j) new = ground arith
  get_elem?-set (old ∷ xs) (suc i) zero new = ground arith
  get_elem?-set (old ∷ xs) (suc i) (suc j) new = ground (arith, get_elem?-set xs i j new)

  pub length-replicate : (n : ℕ) (a : A) → length (replicate n a) ≡ n
  unfolding replicate
  length-replicate zero a = refl
  length-replicate (suc n) a = ap suc (length-replicate n a)

  pub get_elem?-replicate :
      (n : ℕ) (a : A) (i : ℕ) → get_elem? (replicate n a) i ≡ (if ltb i n then some a else none)
  unfolding get_elem? replicate
  get_elem?-replicate zero a i = ground arith
  get_elem?-replicate (suc n) a zero = ground arith
  get_elem?-replicate (suc n) a (suc i) = ground (arith, get_elem?-replicate n a i)

  pub get_elem?-lt : (xs : List A) (i : ℕ) (a : A) → get_elem? xs i ≡ some a → i < length xs
  unfolding get_elem?
  get_elem?-lt [] i a h = ground arith
  get_elem?-lt (x ∷ xs) zero a h = omega arith
  get_elem?-lt (x ∷ xs) (suc i) a h = omega (arith, get_elem?-lt xs i a h)

  pub get_elem?-none : (xs : List A) (i : ℕ) → get_elem? xs i ≡ none → length xs ≤ i
  unfolding get_elem?
  get_elem?-none [] i h = omega arith
  get_elem?-none (x ∷ xs) zero h = ground (arith, h)
  get_elem?-none (x ∷ xs) (suc i) h = omega (arith, get_elem?-none xs i h)
