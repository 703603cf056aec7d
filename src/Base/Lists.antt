-- ===== src/Base/Lists.antt =====
-- Lists measured by native numbers, under the library's names, and lists of texts as sets.
use Prim.Native.Nat.{ℕ, zero, suc, ◌+◌, ◌≤◌}
use Prim.Native.String.{String}
use mathlib.Core.Path.{◌≡◌, refl, ap, subst}
use mathlib.Core.Bool.{Bool, true, false, ◌||◌}
use mathlib.Core.Logic.{inl, inr}
use mathlib.Core.List.{List, [], ◌∷◌, ◌++◌}
use native.Mathlib.Omega.{arith}
use text.Mathlib.Text.{◌==◌}
use text.Mathlib.TextEquality.{eq_iff}
use text.Mathlib.TextPositions.{eq_refl}
use oc_mirror_operator.Base.Tests.{if◌then◌else◌, Bool-cases, text-cases}

module _ {ℓ} {A : Type ℓ} where
  abbrev pub length : List A → ℕ
  length [] = 0
  length (x ∷ xs) = suc (length xs)

  abbrev pub take : ℕ → List A → List A
  take zero xs = []
  take (suc n) [] = []
  take (suc n) (x ∷ xs) = x ∷ take n xs

  abbrev pub drop : ℕ → List A → List A
  drop zero xs = xs
  drop (suc n) [] = []
  drop (suc n) (x ∷ xs) = drop n xs

  pub length-append : (xs ys : List A) → length (xs ++ ys) ≡ length xs + length ys
  length-append [] ys = omega arith
  length-append (x ∷ xs) ys = omega (arith, length-append xs ys)

module _ {ℓ κ} {A : Type ℓ} (P : A → Type κ) where
  abbrev pub All : List A → Type κ
  All [] = Unit
  All (x ∷ xs) = P x × All xs

  pub All-append : (xs ys : List A) → All xs → All ys → All (xs ++ ys)
  All-append [] ys _ hy = hy
  All-append (x ∷ xs) ys (p, hx) hy = (p, All-append xs ys hx hy)

-- Go's `containsString(slice, s)` and every hand-written membership loop over a string slice
abbrev pub contains : List String → String → Bool
contains [] s = false
contains (x ∷ xs) s = x == s || contains xs s

-- each text once
abbrev pub Unique : List String → Type 0
Unique [] = Unit
Unique (x ∷ xs) = (contains xs x ≡ false) × Unique xs

-- the list without every copy of a text, in order
unfoldable pub without : String → List String → List String
without s [] = []
without s (x ∷ xs) = let rest = without s xs in if x == s then rest else x ∷ rest

pub contains-without :
    (s t : String) (xs : List String)
    → contains (without s xs) t ≡ (if s == t then false else contains xs t)
unfolding without
contains-without s t [] = ground arith
contains-without s t (x ∷ xs) =
    ground (arith, contains-without s t xs, eq_iff x s, eq_iff x t, eq_iff s t)

pub without-Unique : (s : String) (xs : List String) → Unique xs → Unique (without s xs)
unfolding without
without-Unique s [] u = tt
without-Unique s (x ∷ xs) (fresh, u) = elim (Bool-cases (x == s)) [
  | inl e ↦ rw e (without-Unique s xs u)
  | inr n ↦ rw n (ground (arith, contains-without s x xs), without-Unique s xs u)
]

pub without_absent : (s : String) (xs : List String) → contains xs s ≡ false → without s xs ≡ xs
unfolding without
without_absent s [] h = refl
without_absent s (x ∷ xs) h = ground (arith, without_absent s xs)

pub contains-append :
    (xs ys : List String) (s : String) → contains (xs ++ ys) s ≡ contains xs s || contains ys s
contains-append [] ys s = refl
contains-append (x ∷ xs) ys s = ground (arith, contains-append xs ys s)

pub without-append :
    (s : String) (xs ys : List String) → without s (xs ++ ys) ≡ without s xs ++ without s ys
unfolding without
without-append s [] ys = refl
without-append s (x ∷ xs) ys = elim (Bool-cases (x == s)) [
  | inl e ↦ rw e (without-append s xs ys)
  | inr n ↦ rw n (ap (λ r. x ∷ r) (without-append s xs ys))
]

pub append_one-Unique :
    (xs : List String) (s : String) → Unique xs → contains xs s ≡ false → Unique (xs ++ s ∷ [])
append_one-Unique [] s u h = (refl, tt)
append_one-Unique (x ∷ xs) s (fresh, u) h = (
  ground (arith, contains-append xs (s ∷ []) x, eq_iff s x, eq_iff x s),
  append_one-Unique xs s u (ground arith),
)

shorter-without :
    (s : String) (xs : List String) → contains xs s ≡ true → suc (length (without s xs)) ≤ length xs
unfolding without
shorter-without s [] h = absurd (ground (arith, h))
shorter-without s (x ∷ xs) h = elim (Bool-cases (contains xs s)) [
  | inl more ↦ ground (arith, shorter-without s xs more)
  | inr last ↦ ground (arith, h, ap length (without_absent s xs last))
]

-- a list that has each text once is no longer than one that has them all
pub length-Unique :
    (xs ys : List String)
    → Unique xs
    → ((s : String) → contains xs s ≡ true → contains ys s ≡ true)
    → length xs ≤ length ys
length-Unique [] ys u all = omega arith
length-Unique (x ∷ xs) ys (fresh, u) all =
    let first = shorter-without x ys (all x (ground (arith, eq_refl x))) in
    let rest = length-Unique xs (without x ys) u (λ s h. elim (text-cases x s) [
      | inl (_, same) ↦ absurd (ground (arith, h, subst (λ z. contains xs z ≡ false) same fresh))
      | inr (n, _) ↦ ground (arith, contains-without x s ys, n, all s (ground (arith, h)))
    ]) in
    omega (arith, first, rest)
